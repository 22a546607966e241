-- ===== src/Wire.antt =====
-- The layouts of rdma_common.c: how the arguments of each call are laid into a message's `data`
-- and read back. The host and the card have the same text, but for the layouts of `epoll_ctl` and
-- `fcntl`, where the host's writer and the card's reader are taken. Sizes are those of x86-64
-- Linux: 12 bytes of `epoll_event`, 8 of `pollfd`, 128 of `fd_set`, 16 of `timeval` and
-- `sockaddr`, 32 of `flock`. The pointers that every caller passes as the address of a variable
-- are not NULL, and their tests are left out; those that may be NULL are options.
pub mod Epoll
pub mod Select
pub mod Poll
pub mod Fcntl
pub mod Sockopt
pub mod Card
pub mod Structs
pub mod Tests
