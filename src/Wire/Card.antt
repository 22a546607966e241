-- ===== src/Wire/Card.antt =====
-- The card's own text of the layouts, snic/rdma_common.c: another file than the host's, written
-- out again in full. What differs is `epoll_ctl` and `fcntl`, whose card's readers stand in
-- Wire/Epoll and Wire/Fcntl; the host's readers of those two, which nothing on the host calls, and
-- the card's writer of the first are here.
pub mod Epoll
pub mod Select
pub mod Pointers
pub mod Agrees
pub mod Differs
