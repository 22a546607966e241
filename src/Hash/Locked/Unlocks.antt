-- ===== src/Hash/Locked/Unlocks.antt =====
-- On which of its paths an operation of the card's tables keeps its lock.
use socket_to_rdma.Base.{ℕ, ◌≡◌, ◌≢◌, ◌↔◌, refl, false, Option, none, some, [], ◌∷◌, arith}
use socket_to_rdma.Hash.Murmur.{hash_function}
use socket_to_rdma.Hash.Table.{
  Chain, HashTable, delete_in, delete_by_key, no_bucket, unlink_at, unlink_key,
}
use socket_to_rdma.Hash.Socket.{socket_delete_by_key}
use socket_to_rdma.Hash.Locked.{
  writing, CardTable, rdma_ht, sock_ht, TableCall, call_insert, call_search, call_search_value,
  call_delete, call_delete_value, mode_of, run, locked_insert, locked_search, locked_search_value,
  locked_delete, locked_delete_value, locked_socket_insert, locked_socket_search,
  locked_socket_search_value, locked_socket_delete, locked_socket_delete_value,
}

unlink_at-bucket : (t : HashTable) (i : ℕ) (o : Option Chain) → (unlink_at t i o).0 ≢ no_bucket
unfolding unlink_at
unlink_at-bucket t i none = λ e. cc
unlink_at-bucket t i (some d) = λ e. cc

delete_in-bucket :
    (t : HashTable) (i key : ℕ) (c : Chain) → ((delete_in t i key c).0 ≡ no_bucket) ↔ (c ≡ [])
unfolding delete_in
delete_in-bucket t i key [] = ground arith
delete_in-bucket t i key (n ∷ c) =
    (λ e. absurd (unlink_at-bucket t i (unlink_key key (n ∷ c)) e), λ e. cc)

-- the call that keeps its lock: a key's deletion, with nothing in the key's bucket
abbrev pub OnEmptyBucket : TableCall → HashTable → Type 0
OnEmptyBucket (call_delete key) t = t.table (hash_function key) ≡ []
OnEmptyBucket _ t = ⊥

delete_unlocks :
    (which : CardTable) (key : ℕ) (t : HashTable)
    → ((run which (call_delete key) t).unlocks ≡ false) ↔ (t.table (hash_function key) ≡ [])
unfolding locked_delete locked_socket_delete delete_by_key socket_delete_by_key
delete_unlocks rdma_ht key t =
    ground (arith, delete_in-bucket t (hash_function key) key (t.table (hash_function key)))
delete_unlocks sock_ht key t =
    ground (arith, delete_in-bucket t (hash_function key) key (t.table (hash_function key)))

pub run_unlocks :
    (which : CardTable) (c : TableCall) (t : HashTable)
    → ((run which c t).unlocks ≡ false) ↔ OnEmptyBucket c t
unfolding locked_insert locked_search locked_search_value locked_delete_value locked_socket_insert
    locked_socket_search locked_socket_search_value locked_socket_delete_value
run_unlocks which (call_delete key) t = delete_unlocks which key t
run_unlocks rdma_ht (call_insert malloc key value) t = (λ e. cc, λ e. absurd e)
run_unlocks rdma_ht (call_search key) t = (λ e. cc, λ e. absurd e)
run_unlocks rdma_ht (call_search_value value) t = (λ e. cc, λ e. absurd e)
run_unlocks rdma_ht (call_delete_value value) t = (λ e. cc, λ e. absurd e)
run_unlocks sock_ht (call_insert malloc key value) t = (λ e. cc, λ e. absurd e)
run_unlocks sock_ht (call_search key) t = (λ e. cc, λ e. absurd e)
run_unlocks sock_ht (call_search_value value) t = (λ e. cc, λ e. absurd e)
run_unlocks sock_ht (call_delete_value value) t = (λ e. cc, λ e. absurd e)

pub delete_keeps :
    (which : CardTable) (c : TableCall) (t : HashTable)
    → OnEmptyBucket c t
    → (mode_of c ≡ writing) × ((run which c t).table ≡ t)
unfolding locked_delete locked_socket_delete delete_by_key socket_delete_by_key delete_in
delete_keeps rdma_ht (call_delete key) t e = (refl, ground arith)
delete_keeps sock_ht (call_delete key) t e = (refl, ground arith)
delete_keeps which (call_insert malloc key value) t e = absurd e
delete_keeps which (call_search key) t e = absurd e
delete_keeps which (call_search_value value) t e = absurd e
delete_keeps which (call_delete_value value) t e = absurd e
