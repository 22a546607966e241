-- ===== src/Hash/Copies.antt =====
-- The three tables of host/hash_delee.c are one text written out three times. Here the two copies
-- are shown to be equal to the first.
use socket_to_rdma.Base.{ℕ, zero, suc, ◌+◌, ◌≡◌, refl, Bool, ap, arith}
use socket_to_rdma.Hash.Table.{
  HashTable, insert_by_value, search_by_key, search_value_loop, search_by_value, delete_by_key,
  delete_value_loop, delete_by_value, free_head, free_loop, free_hash_table,
}
use socket_to_rdma.Hash.Fd.{
  fd_insert_by_value, fd_search_by_key, fd_search_value_loop, fd_search_by_value, fd_delete_by_key,
  fd_delete_value_loop, fd_delete_by_value, fd_free_loop, fd_free_hash_table, fd_insert-eq,
  fd_search-eq, fd_delete-eq,
}
use socket_to_rdma.Hash.Socket.{
  socket_insert_by_value, socket_search_by_key, socket_search_value_loop, socket_search_by_value,
  socket_delete_by_key, socket_delete_value_loop, socket_delete_by_value, socket_free_loop,
  socket_free_hash_table, socket_insert-eq, socket_search-eq, socket_delete-eq,
}

fd_search_value-eq :
    (rounds i : ℕ) (t : HashTable) (v : ℕ)
    → fd_search_value_loop rounds i t v ≡ search_value_loop rounds i t v
unfolding fd_search_value_loop search_value_loop
fd_search_value-eq zero i t v = refl
fd_search_value-eq (suc rounds) i t v = ground (arith, fd_search_value-eq rounds (i + 1) t v)

fd_delete_value-eq :
    (rounds i : ℕ) (t : HashTable) (v : ℕ)
    → fd_delete_value_loop rounds i t v ≡ delete_value_loop rounds i t v
unfolding fd_delete_value_loop delete_value_loop
fd_delete_value-eq zero i t v = refl
fd_delete_value-eq (suc rounds) i t v = ground (arith, fd_delete_value-eq rounds (i + 1) t v)

fd_free-eq : (rounds i : ℕ) (t : HashTable) → fd_free_loop rounds i t ≡ free_loop rounds i t
unfolding fd_free_loop free_loop
fd_free-eq zero i t = refl
fd_free-eq (suc rounds) i t = ap (free_head (t.table i)) (fd_free-eq rounds (i + 1) t)

socket_search_value-eq :
    (rounds i : ℕ) (t : HashTable) (v : ℕ)
    → socket_search_value_loop rounds i t v ≡ search_value_loop rounds i t v
unfolding socket_search_value_loop search_value_loop
socket_search_value-eq zero i t v = refl
socket_search_value-eq (suc rounds) i t v =
    ground (arith, socket_search_value-eq rounds (i + 1) t v)

socket_delete_value-eq :
    (rounds i : ℕ) (t : HashTable) (v : ℕ)
    → socket_delete_value_loop rounds i t v ≡ delete_value_loop rounds i t v
unfolding socket_delete_value_loop delete_value_loop
socket_delete_value-eq zero i t v = refl
socket_delete_value-eq (suc rounds) i t v =
    ground (arith, socket_delete_value-eq rounds (i + 1) t v)

socket_free-eq : (rounds i : ℕ) (t : HashTable) → socket_free_loop rounds i t ≡ free_loop rounds i t
unfolding socket_free_loop free_loop
socket_free-eq zero i t = refl
socket_free-eq (suc rounds) i t = ap (free_head (t.table i)) (socket_free-eq rounds (i + 1) t)

-- Each operation of the descriptors' table and each operation of the sockets' table does what that
-- of the first table does.
pub table_copies :
    (malloc : Bool) (t : HashTable) (k v : ℕ)
    → (fd_insert_by_value malloc t k v ≡ insert_by_value malloc t k v)
      × (fd_search_by_key t k ≡ search_by_key t k)
      × (fd_search_by_value t v ≡ search_by_value t v)
      × (fd_delete_by_key t k ≡ delete_by_key t k)
      × (fd_delete_by_value t v ≡ delete_by_value t v)
      × (fd_free_hash_table t ≡ free_hash_table t)
      × (socket_insert_by_value malloc t k v ≡ insert_by_value malloc t k v)
      × (socket_search_by_key t k ≡ search_by_key t k)
      × (socket_search_by_value t v ≡ search_by_value t v)
      × (socket_delete_by_key t k ≡ delete_by_key t k)
      × (socket_delete_by_value t v ≡ delete_by_value t v)
      × (socket_free_hash_table t ≡ free_hash_table t)
unfolding search_by_value delete_by_value free_hash_table fd_search_by_value fd_delete_by_value
    fd_free_hash_table socket_search_by_value socket_delete_by_value socket_free_hash_table
table_copies malloc t k v = (
  fd_insert-eq malloc t k v,
  fd_search-eq t k,
  fd_search_value-eq t.size 0 t v,
  fd_delete-eq t k,
  fd_delete_value-eq t.size 0 t v,
  fd_free-eq t.size 0 t,
  socket_insert-eq malloc t k v,
  socket_search-eq t k,
  socket_search_value-eq t.size 0 t v,
  socket_delete-eq t k,
  socket_delete_value-eq t.size 0 t v,
  socket_free-eq t.size 0 t,
)
