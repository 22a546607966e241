-- ===== src/Card.antt =====
-- The card: socket.c, which makes the system calls that the host asks for, and the requests'
-- dispatch and replies of rdma_server.c.
pub mod Env
pub mod Socket
pub mod Server
pub mod Loop
pub mod Setup
pub mod Threads
pub mod Tests
