-- ===== src/Host.antt =====
-- The host: the exchange of one request for its return message in rdma_client.c, and the socket
-- calls of hook.c that make one.
pub mod Verbs
pub mod Client
pub mod Hook
pub mod Calls
pub mod Loopback
pub mod Setup
pub mod Threads
pub mod Exported
pub mod Tests
