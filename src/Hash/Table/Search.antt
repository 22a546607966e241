-- ===== src/Hash/Table/Search.antt =====
-- What a search finds. It looks only at the first node of a bucket.
use socket_to_rdma.Base.{
  ℕ, ◌≡◌, refl, true, some, [], ◌∷◌, zero, suc, ◌+◌, inl, inr, Option-cases, arith, All, ◌≢◌,
  minus_one, sym, ◌==◌, if◌then◌else◌,
}
use socket_to_rdma.Hash.Murmur.{hash_function}
use socket_to_rdma.Hash.Table.{
  Chain, append_node, new_node, HashTable, head_value, head_key, insert_by_value, search_by_key,
  search_value_loop, search_by_value,
}
use socket_to_rdma.Hash.Table.Invariant.{AtHome, IsValid}

-- what a search for a key answers once a value is inserted behind these nodes
abbrev pub answer_behind : (key value : ℕ) → Chain → ℕ
answer_behind key value [] = value
answer_behind key value (n ∷ c) = if n.key == key then n.value else 0

head_value-append_node :
    (k v i : ℕ) (c : Chain) → head_value k (append_node c (new_node k v i)) ≡ answer_behind k v c
unfolding head_value append_node
head_value-append_node k v i [] = ground arith
head_value-append_node k v i (n ∷ c) = ground arith

-- After an insert under a key, a search for it answers the new value if the key's bucket was empty;
-- if it was not, it answers the value of the bucket's first node where that has the key, and 0 (NULL)
-- where another key leads the bucket, whatever was inserted.
pub search-insert :
    (t : HashTable) (k v : ℕ)
    → search_by_key (insert_by_value true t k v).1 k ≡ answer_behind k v (t.table (hash_function k))
unfolding search_by_key insert_by_value
search-insert t k v =
    ground (arith, head_value-append_node k v (hash_function k) (t.table (hash_function k)))

head_key-home :
    (v k i : ℕ) (c : Chain)
    → head_key v c ≡ some k
    → All (AtHome i) c
    → (head_value k c ≡ v) × (hash_function k ≡ i)
unfolding head_key head_value
head_key-home v k i [] e h = absurd (ground arith)
head_key-home v k i (n ∷ c) e h = ground arith

search_value_loop-search :
    (rounds i : ℕ) (t : HashTable) (v k : ℕ)
    → IsValid t
    → search_value_loop rounds i t v ≡ k
    → k ≢ minus_one
    → search_by_key t k ≡ v
unfolding search_value_loop search_by_key
search_value_loop-search zero i t v k valid e found = absurd (found (sym e))
search_value_loop-search (suc rounds) i t v k valid e found =
    elim (Option-cases (head_key v (t.table i))) [
      | inl miss ↦ search_value_loop-search rounds (i + 1) t v k valid (ground arith) found
      | inr (k', hit) ↦ ground (arith, head_key-home v k' i (t.table i) hit (valid i))
    ]

-- In a valid table the key that a search by value answers, unless it is -1, is one whose search
-- answers that value.
pub search_by_value-search :
    (t : HashTable) (v : ℕ)
    → IsValid t
    → search_by_value t v ≢ minus_one
    → search_by_key t (search_by_value t v) ≡ v
unfolding search_by_value
search_by_value-search t v valid found =
    search_value_loop-search t.size 0 t v (search_by_value t v) valid refl found
