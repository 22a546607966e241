-- ===== src/Hash/Tests.antt =====
-- The hash at published values, and the tables' theorems at concrete tables.
use socket_to_rdma.Base.{◌≡◌, ◌≢◌, ◌↔◌, refl, true, [], ◌∷◌, ◌==◌, if◌then◌else◌}
use socket_to_rdma.Hash.Murmur.{murmur_hash3, hash_function}
use socket_to_rdma.Hash.Table.{
  HashTable, deleted, create_hash_table, insert_by_value, delete_by_key, delete_by_value, new_node,
}
use socket_to_rdma.Hash.Table.Entries.{entries, entries_of, insert-entries, delete-entries}
use socket_to_rdma.Hash.Table.Invariant.{
  IsValid, create-IsValid, insert-IsValid, operations-IsValid,
}

murmur_empty : murmur_hash3 [] 0 ≡ 0
unfolding murmur_hash3
murmur_empty = refl

murmur_hello : murmur_hash3 (0x68 ∷ 0x65 ∷ 0x6c ∷ 0x6c ∷ 0x6f ∷ []) 0 ≡ 0x248bfa47
unfolding murmur_hash3
murmur_hello = refl

hash_three : hash_function 3 ≡ 234
unfolding hash_function
hash_three = refl

-- descriptor 3 twice
abbrev two : HashTable
two = (insert_by_value true (insert_by_value true create_hash_table 3 70).1 3 71).1

one-IsValid : IsValid (insert_by_value true create_hash_table 3 70).1
one-IsValid = insert-IsValid true create_hash_table 3 70 create-IsValid

insert-entries_example : entries_of two 3 ≡ 70 ∷ 71 ∷ []
unfolding insert_by_value create_hash_table entries hash_function
insert-entries_example = insert-entries (insert_by_value true create_hash_table 3 70).1 3 71 3

delete-entries_example :
    (entries_of (delete_by_key two 3).1 3 ≡ 71 ∷ [])
    × (((delete_by_key two 3).0 ≡ deleted) ↔ (entries_of two 3 ≢ []))
unfolding insert_by_value create_hash_table entries hash_function
delete-entries_example = delete-entries two 3 3

two-IsValid : IsValid two
two-IsValid = insert-IsValid true (insert_by_value true create_hash_table 3 70).1 3 71 one-IsValid

operations-IsValid_example :
    IsValid (insert_by_value true two 3 71).1
    × IsValid (delete_by_key two 3).1
    × IsValid (delete_by_value two 71).1
operations-IsValid_example = operations-IsValid true two 3 71 two-IsValid

-- a table of 240 buckets, which a search by value can be run on
abbrev short : HashTable
short = record { table = (insert_by_value true create_hash_table 3 70).1.table; size = 240 }

-- two buckets, the first with two nodes
abbrev small : HashTable
small = record {
  table = λ i. if i == 0 then new_node 5 50 0 ∷ new_node 6 60 0 ∷ [] else new_node 7 70 1 ∷ [];
  size = 2;
}
