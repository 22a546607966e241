-- ===== src/Hash.antt =====
-- The hash tables of hash_delee.c: the hash function, and the three tables of the host, of which
-- the card has the first two with a lock around each operation.
pub mod Murmur
pub mod Table
pub mod Socket
pub mod Fd
pub mod Copies
pub mod Locked
pub mod Tests
