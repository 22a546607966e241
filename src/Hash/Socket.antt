-- ===== src/Hash/Socket.antt =====
-- SocketHashTable: from a socket's descriptor to its `struct socket_info`. The host and the card
-- have the same text, but that the card takes the table's lock around each operation.
use socket_to_rdma.Base.{
  ℕ, zero, suc, ◌+◌, ◌≡◌, refl, Bool, true, false, none, some, List, [], minus_one,
}
use socket_to_rdma.Hash.Murmur.{ht_sz, hash_function}
use socket_to_rdma.Hash.Table.{
  HashNode, HashTable, Deletion, deleted, not_found, new_node, put_chain, append_node, unlink_value,
  head_value, head_key, delete_in, free_head, insert_by_value, search_by_key, delete_by_key,
}

abbrev pub SocketHashTable : Type 0
SocketHashTable = HashTable

unfoldable pub create_socket_hash_table : SocketHashTable
create_socket_hash_table = record { table = λ i. []; size = ht_sz }

unfoldable pub socket_insert_by_value : Bool → SocketHashTable → ℕ → ℕ → Bool × SocketHashTable
unfolding append_node
socket_insert_by_value false t key value = (false, t)
socket_insert_by_value true t key value =
    let index = hash_function key in
    (true, put_chain t index (append_node (t.table index) (new_node key value index)))

unfoldable pub socket_search_by_key : SocketHashTable → ℕ → ℕ
unfolding head_value
socket_search_by_key t key = head_value key (t.table (hash_function key))

unfoldable pub socket_search_value_loop : ℕ → ℕ → SocketHashTable → ℕ → ℕ
unfolding head_key
socket_search_value_loop zero i t value = minus_one
socket_search_value_loop (suc rounds) i t value = elim (head_key value (t.table i)) [
  | some key ↦ key
  | none ↦ socket_search_value_loop rounds (i + 1) t value
]

unfoldable pub socket_search_by_value : SocketHashTable → ℕ → ℕ
unfolding socket_search_value_loop
socket_search_by_value t value = socket_search_value_loop t.size 0 t value

unfoldable pub socket_delete_by_key : SocketHashTable → ℕ → Deletion × SocketHashTable
unfolding delete_in
socket_delete_by_key t key = let index = hash_function key in delete_in t index key (t.table index)

unfoldable pub socket_delete_value_loop : ℕ → ℕ → SocketHashTable → ℕ → Deletion × SocketHashTable
unfolding unlink_value
socket_delete_value_loop zero i t value = (not_found, t)
socket_delete_value_loop (suc rounds) i t value = elim (unlink_value value (t.table i)) [
  | some c ↦ (deleted, put_chain t i c)
  | none ↦ socket_delete_value_loop rounds (i + 1) t value
]

unfoldable pub socket_delete_by_value : SocketHashTable → ℕ → Deletion × SocketHashTable
unfolding socket_delete_value_loop
socket_delete_by_value t value = socket_delete_value_loop t.size 0 t value

unfoldable pub socket_free_loop : ℕ → ℕ → SocketHashTable → List HashNode
unfolding free_head
socket_free_loop zero i t = []
socket_free_loop (suc rounds) i t = free_head (t.table i) (socket_free_loop rounds (i + 1) t)

unfoldable pub socket_free_hash_table : SocketHashTable → List HashNode
unfolding socket_free_loop
socket_free_hash_table t = socket_free_loop t.size 0 t

pub socket_insert-eq :
    (malloc : Bool) (t : SocketHashTable) (k v : ℕ)
    → socket_insert_by_value malloc t k v ≡ insert_by_value malloc t k v
unfolding socket_insert_by_value insert_by_value
socket_insert-eq true t k v = refl
socket_insert-eq false t k v = refl

pub socket_search-eq : (t : SocketHashTable) (k : ℕ) → socket_search_by_key t k ≡ search_by_key t k
unfolding socket_search_by_key search_by_key
socket_search-eq t k = refl

pub socket_delete-eq : (t : SocketHashTable) (k : ℕ) → socket_delete_by_key t k ≡ delete_by_key t k
unfolding socket_delete_by_key delete_by_key
socket_delete-eq t k = refl
