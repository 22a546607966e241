-- ===== src/Hash/Fd.antt =====
-- FDHashTable of host/hash_delee.c: from a socket's descriptor to the thread that opened it. Its
-- operations are written out a third time in the source, with an `int` for the value.
use socket_to_rdma.Base.{
  ℕ, zero, suc, ◌+◌, ◌≡◌, refl, Bool, true, false, none, some, List, [], minus_one,
}
use socket_to_rdma.Hash.Murmur.{ht_sz, hash_function}
use socket_to_rdma.Hash.Table.{
  HashNode, HashTable, Deletion, deleted, not_found, new_node, put_chain, append_node, unlink_value,
  head_value, head_key, delete_in, free_head, insert_by_value, search_by_key, delete_by_key,
}

abbrev pub FdHashTable : Type 0
FdHashTable = HashTable

unfoldable pub create_fd_hash_table : FdHashTable
create_fd_hash_table = record { table = λ i. []; size = ht_sz }

-- the node is allocated before the key is hashed
unfoldable pub fd_insert_by_value : Bool → FdHashTable → ℕ → ℕ → Bool × FdHashTable
unfolding append_node
fd_insert_by_value false t key value = (false, t)
fd_insert_by_value true t key value =
    let index = hash_function key in
    (true, put_chain t index (append_node (t.table index) (new_node key value index)))

-- `return NULL` of an `int` function is 0
unfoldable pub fd_search_by_key : FdHashTable → ℕ → ℕ
unfolding head_value
fd_search_by_key t key = head_value key (t.table (hash_function key))

unfoldable pub fd_search_value_loop : ℕ → ℕ → FdHashTable → ℕ → ℕ
unfolding head_key
fd_search_value_loop zero i t value = minus_one
fd_search_value_loop (suc rounds) i t value = elim (head_key value (t.table i)) [
  | some key ↦ key
  | none ↦ fd_search_value_loop rounds (i + 1) t value
]

unfoldable pub fd_search_by_value : FdHashTable → ℕ → ℕ
unfolding fd_search_value_loop
fd_search_by_value t value = fd_search_value_loop t.size 0 t value

unfoldable pub fd_delete_by_key : FdHashTable → ℕ → Deletion × FdHashTable
unfolding delete_in
fd_delete_by_key t key = let index = hash_function key in delete_in t index key (t.table index)

unfoldable pub fd_delete_value_loop : ℕ → ℕ → FdHashTable → ℕ → Deletion × FdHashTable
unfolding unlink_value
fd_delete_value_loop zero i t value = (not_found, t)
fd_delete_value_loop (suc rounds) i t value = elim (unlink_value value (t.table i)) [
  | some c ↦ (deleted, put_chain t i c)
  | none ↦ fd_delete_value_loop rounds (i + 1) t value
]

unfoldable pub fd_delete_by_value : FdHashTable → ℕ → Deletion × FdHashTable
unfolding fd_delete_value_loop
fd_delete_by_value t value = fd_delete_value_loop t.size 0 t value

unfoldable pub fd_free_loop : ℕ → ℕ → FdHashTable → List HashNode
unfolding free_head
fd_free_loop zero i t = []
fd_free_loop (suc rounds) i t = free_head (t.table i) (fd_free_loop rounds (i + 1) t)

unfoldable pub fd_free_hash_table : FdHashTable → List HashNode
unfolding fd_free_loop
fd_free_hash_table t = fd_free_loop t.size 0 t

-- The three copies of the table do the same.
pub fd_insert-eq :
    (malloc : Bool) (t : FdHashTable) (k v : ℕ)
    → fd_insert_by_value malloc t k v ≡ insert_by_value malloc t k v
unfolding fd_insert_by_value insert_by_value
fd_insert-eq true t k v = refl
fd_insert-eq false t k v = refl

pub fd_search-eq : (t : FdHashTable) (k : ℕ) → fd_search_by_key t k ≡ search_by_key t k
unfolding fd_search_by_key search_by_key
fd_search-eq t k = refl

pub fd_delete-eq : (t : FdHashTable) (k : ℕ) → fd_delete_by_key t k ≡ delete_by_key t k
unfolding fd_delete_by_key delete_by_key
fd_delete-eq t k = refl
