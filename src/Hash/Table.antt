-- ===== src/Hash/Table.antt =====
-- HashTable of host/hash_delee.c. A bucket's linked list, which nothing but the table points into,
-- is the list of its nodes. A value is a pointer, and 0 is NULL. `malloc` says whether the
-- allocation of a node succeeds. The array and `size` are fields of one record.
pub mod Entries
pub mod Search
pub mod Invariant
pub mod Values
use socket_to_rdma.Base.{
  ℕ, zero, suc, ◌+◌, ◌≡◌, Bool, true, false, Option, none, some, List, [], ◌∷◌, ◌==◌, if◌then◌else◌,
  minus_one,
}
use socket_to_rdma.Hash.Murmur.{ht_sz, hash_function}

pub record HashNode : Type 0 where
  pub key : ℕ
  pub value : ℕ
  pub index : ℕ

abbrev pub Chain : Type 0
Chain = List HashNode

pub record HashTable : Type 0 where
  pub table : ℕ → Chain
  pub size : ℕ

-- how a delete ends: an empty bucket, a node freed, or a walk that finds no node
pub data Deletion : Type 0 where
  no_bucket deleted not_found : Deletion

abbrev pub new_node : ℕ → ℕ → ℕ → HashNode
new_node k v i = record { key = k; value = v; index = i }

-- `hashTable->table[index] = chain`
abbrev pub put_chain : HashTable → ℕ → Chain → HashTable
put_chain t index chain = record t { table = λ j. if j == index then chain else t.table j }

-- the walk to the last node and the link to the new one
unfoldable pub append_node : Chain → HashNode → Chain
append_node [] new = new ∷ []
append_node (n ∷ c) new = n ∷ append_node c new

-- the walk with `prev` that takes the first node of the key out; `none` if there is no such node
unfoldable pub unlink_key : ℕ → Chain → Option Chain
unlink_key key [] = none
unlink_key key (n ∷ c) =
    if n.key == key then some c else elim (unlink_key key c) [ some d ↦ some (n ∷ d) | none ↦ none ]

unfoldable pub unlink_value : ℕ → Chain → Option Chain
unlink_value value [] = none
unlink_value value (n ∷ c) =
    if n.value == value
    then some c
    else elim (unlink_value value c) [ some d ↦ some (n ∷ d) | none ↦ none ]

unfoldable pub create_hash_table : HashTable
create_hash_table = record { table = λ i. []; size = ht_sz }

unfoldable pub insert_by_value : Bool → HashTable → ℕ → ℕ → Bool × HashTable
unfolding append_node
insert_by_value malloc t key value =
    let index = hash_function key in
    if malloc
    then (true, put_chain t index (append_node (t.table index) (new_node key value index)))
    else (false, t)

-- the test on the first node of a bucket
unfoldable pub head_value : ℕ → Chain → ℕ
head_value key [] = 0
head_value key (n ∷ c) = if n.key == key then n.value else 0

-- Only the first node of the bucket is looked at.
unfoldable pub search_by_key : HashTable → ℕ → ℕ
unfolding head_value
search_by_key t key = head_value key (t.table (hash_function key))

unfoldable pub head_key : ℕ → Chain → Option ℕ
head_key value [] = none
head_key value (n ∷ c) = if n.value == value then some n.key else none

-- `for (i; i < i + rounds; i++)` over the first nodes
unfoldable pub search_value_loop : ℕ → ℕ → HashTable → ℕ → ℕ
unfolding head_key
search_value_loop zero i t value = minus_one
search_value_loop (suc rounds) i t value = elim (head_key value (t.table i)) [
  | some key ↦ key
  | none ↦ search_value_loop rounds (i + 1) t value
]

unfoldable pub search_by_value : HashTable → ℕ → ℕ
unfolding search_value_loop
search_by_value t value = search_value_loop t.size 0 t value

unfoldable pub unlink_at : HashTable → ℕ → Option Chain → Deletion × HashTable
unlink_at t index (some c) = (deleted, put_chain t index c)
unlink_at t index none = (not_found, t)

unfoldable pub delete_in : HashTable → ℕ → ℕ → Chain → Deletion × HashTable
unfolding unlink_key unlink_at
delete_in t index key [] = (no_bucket, t)
delete_in t index key (n ∷ c) = unlink_at t index (unlink_key key (n ∷ c))

unfoldable pub delete_by_key : HashTable → ℕ → Deletion × HashTable
unfolding delete_in
delete_by_key t key = let index = hash_function key in delete_in t index key (t.table index)

unfoldable pub delete_value_loop : ℕ → ℕ → HashTable → ℕ → Deletion × HashTable
unfolding unlink_value
delete_value_loop zero i t value = (not_found, t)
delete_value_loop (suc rounds) i t value = elim (unlink_value value (t.table i)) [
  | some c ↦ (deleted, put_chain t i c)
  | none ↦ delete_value_loop rounds (i + 1) t value
]

unfoldable pub delete_by_value : HashTable → ℕ → Deletion × HashTable
unfolding delete_value_loop
delete_by_value t value = delete_value_loop t.size 0 t value

-- the nodes that `freeHashTable` hands to `free`
unfoldable pub free_head : Chain → List HashNode → List HashNode
free_head [] freed = freed
free_head (n ∷ c) freed = n ∷ freed

unfoldable pub free_loop : ℕ → ℕ → HashTable → List HashNode
unfolding free_head
free_loop zero i t = []
free_loop (suc rounds) i t = free_head (t.table i) (free_loop rounds (i + 1) t)

unfoldable pub free_hash_table : HashTable → List HashNode
unfolding free_loop
free_hash_table t = free_loop t.size 0 t
