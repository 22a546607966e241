-- ===== src/Hash/Locked.antt =====
-- The two tables of snic/hash_delee.c. Each operation takes the table's lock first and has between
-- lock and unlock the text of the host's; what is new is on which of its paths it unlocks. A search
-- reads the field of the node that it has found behind its unlock: its result here is the field at
-- the unlock, and Late has the read as a step of its own.
pub mod System
pub mod Order
pub mod Unlocks
pub mod Stuck
pub mod Late
pub mod TestLock
pub mod Tests
use socket_to_rdma.Base.{ℕ, Bool, true, false, Option, none, some}
use socket_to_rdma.Hash.Table.{
  HashTable, Deletion, no_bucket, insert_by_value, search_by_key, search_by_value, delete_by_key,
  delete_by_value,
}
use socket_to_rdma.Hash.Socket.{
  SocketHashTable, socket_insert_by_value, socket_search_by_key, socket_search_by_value,
  socket_delete_by_key, socket_delete_by_value,
}

-- `pthread_rwlock_rdlock` and `pthread_rwlock_wrlock`
pub data Mode : Type 0 where
  reading writing : Mode

-- what an operation returns; the deletes return nothing
pub data Result : Type 0 where
  told : Bool → Result
  found : ℕ → Result
  silent : Result

-- An operation between the lock and its end: the table behind it, what it returns, and whether it
-- has unlocked.
pub record Passage : Type 0 where
  pub table : HashTable
  pub result : Result
  pub unlocks : Bool

-- The early `return` of an empty bucket comes before the unlock.
abbrev pub unlocks_at : Deletion → Bool
unlocks_at no_bucket = false
unlocks_at _ = true

unfoldable pub locked_insert : Bool → ℕ → ℕ → HashTable → Passage
locked_insert malloc key value t =
    let (ok, t') = insert_by_value malloc t key value in
    record { table = t'; result = told ok; unlocks = true }

unfoldable pub locked_search : ℕ → HashTable → Passage
locked_search key t = record { table = t; result = found (search_by_key t key); unlocks = true }

unfoldable pub locked_search_value : ℕ → HashTable → Passage
locked_search_value value t = record {
  table = t;
  result = found (search_by_value t value);
  unlocks = true;
}

unfoldable pub locked_delete : ℕ → HashTable → Passage
locked_delete key t =
    let (d, t') = delete_by_key t key in
    record { table = t'; result = silent; unlocks = unlocks_at d }

unfoldable pub locked_delete_value : ℕ → HashTable → Passage
locked_delete_value value t = record {
  table = (delete_by_value t value).1;
  result = silent;
  unlocks = true;
}

unfoldable pub locked_socket_insert : Bool → ℕ → ℕ → SocketHashTable → Passage
locked_socket_insert malloc key value t =
    let (ok, t') = socket_insert_by_value malloc t key value in
    record { table = t'; result = told ok; unlocks = true }

unfoldable pub locked_socket_search : ℕ → SocketHashTable → Passage
locked_socket_search key t = record {
  table = t;
  result = found (socket_search_by_key t key);
  unlocks = true;
}

unfoldable pub locked_socket_search_value : ℕ → SocketHashTable → Passage
locked_socket_search_value value t = record {
  table = t;
  result = found (socket_search_by_value t value);
  unlocks = true;
}

unfoldable pub locked_socket_delete : ℕ → SocketHashTable → Passage
locked_socket_delete key t =
    let (d, t') = socket_delete_by_key t key in
    record { table = t'; result = silent; unlocks = unlocks_at d }

unfoldable pub locked_socket_delete_value : ℕ → SocketHashTable → Passage
locked_socket_delete_value value t = record {
  table = (socket_delete_by_value t value).1;
  result = silent;
  unlocks = true;
}

-- the card's two tables
pub data CardTable : Type 0 where
  rdma_ht sock_ht : CardTable

pub data TableCall : Type 0 where
  call_insert : Bool → (key value : ℕ) → TableCall
  call_search call_search_value call_delete call_delete_value : ℕ → TableCall

-- the first statement of each operation
abbrev pub mode_of : TableCall → Mode
mode_of (call_search key) = reading
mode_of (call_search_value value) = reading
mode_of _ = writing

abbrev pub run : CardTable → TableCall → HashTable → Passage
run rdma_ht (call_insert malloc key value) t = locked_insert malloc key value t
run rdma_ht (call_search key) t = locked_search key t
run rdma_ht (call_search_value value) t = locked_search_value value t
run rdma_ht (call_delete key) t = locked_delete key t
run rdma_ht (call_delete_value value) t = locked_delete_value value t
run sock_ht (call_insert malloc key value) t = locked_socket_insert malloc key value t
run sock_ht (call_search key) t = locked_socket_search key t
run sock_ht (call_search_value value) t = locked_socket_search_value value t
run sock_ht (call_delete key) t = locked_socket_delete key t
run sock_ht (call_delete_value value) t = locked_socket_delete_value value t
