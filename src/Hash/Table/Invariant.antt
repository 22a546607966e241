-- ===== src/Hash/Table/Invariant.antt =====
-- The table's invariant: each node stands in the bucket that its key hashes to, and records it.
use socket_to_rdma.Base.{
  ℕ, ◌≡◌, refl, Bool, true, false, some, [], ◌∷◌, ◌==◌, zero, suc, ◌+◌, inl, inr, Bool-cases,
  Option-cases, arith, All, ==_iff, sym, ap,
}
use mathlib.Core.Path.{subst}
use socket_to_rdma.Hash.Murmur.{hash_function}
use socket_to_rdma.Hash.Table.{
  HashNode, Chain, HashTable, put_chain, new_node, append_node, unlink_key, unlink_value,
  create_hash_table, insert_by_value, delete_by_key, delete_value_loop, delete_by_value,
}
use socket_to_rdma.Hash.Table.Entries.{delete_by_key_cases}

abbrev pub AtHome : ℕ → HashNode → Type 0
AtHome i n = (n.index ≡ i) × (hash_function n.key ≡ i)

abbrev pub IsValid : HashTable → Type 0
IsValid t = (i : ℕ) → All (AtHome i) (t.table i)

-- A new table is valid.
pub create-IsValid : IsValid create_hash_table
unfolding create_hash_table
create-IsValid i = tt

append_node-All :
    (P : HashNode → Type 0) (c : Chain) (n : HashNode) → All P c → P n → All P (append_node c n)
unfolding append_node
append_node-All P [] n h p = (p, tt)
append_node-All P (m ∷ c) n h p = (h.0, append_node-All P c n h.1 p)

unlink_key-All :
    (P : HashNode → Type 0) (k : ℕ) (c d : Chain) → unlink_key k c ≡ some d → All P c → All P d
unfolding unlink_key
unlink_key-All P k [] d e h = absurd (ground arith)
unlink_key-All P k (n ∷ c) d e h = elim (Bool-cases (n.key == k)) [
  | inl hit ↦ let e' : c ≡ d = ground arith in subst (All P) e' h.1
  | inr miss ↦ elim (Option-cases (unlink_key k c)) [
    | inl stop ↦ absurd (ground arith)
    | inr (c', e') ↦
        let e'' : n ∷ c' ≡ d = ground arith in
        subst (All P) e'' (h.0, unlink_key-All P k c c' e' h.1)
  ]
]

unlink_value-All :
    (P : HashNode → Type 0) (v : ℕ) (c d : Chain) → unlink_value v c ≡ some d → All P c → All P d
unfolding unlink_value
unlink_value-All P v [] d e h = absurd (ground arith)
unlink_value-All P v (n ∷ c) d e h = elim (Bool-cases (n.value == v)) [
  | inl hit ↦ let e' : c ≡ d = ground arith in subst (All P) e' h.1
  | inr miss ↦ elim (Option-cases (unlink_value v c)) [
    | inl stop ↦ absurd (ground arith)
    | inr (c', e') ↦
        let e'' : n ∷ c' ≡ d = ground arith in
        subst (All P) e'' (h.0, unlink_value-All P v c c' e' h.1)
  ]
]

-- A bucket may be replaced by a chain whose nodes belong there.
put_chain-IsValid :
    (t : HashTable) (i : ℕ) (c : Chain) → IsValid t → All (AtHome i) c → IsValid (put_chain t i c)
put_chain-IsValid t i c valid h j = elim (Bool-cases (j == i)) [
  | inl same ↦ let e : j ≡ i = (==_iff j i).0 same in rw (same, e) h
  | inr other ↦ rw other (valid j)
]

pub insert-IsValid :
    (malloc : Bool) (t : HashTable) (k v : ℕ) → IsValid t → IsValid (insert_by_value malloc t k v).1
unfolding insert_by_value
insert-IsValid false t k v valid = valid
insert-IsValid true t k v valid =
    let i = hash_function k in
    put_chain-IsValid t i (append_node (t.table i) (new_node k v i)) valid
      (append_node-All (AtHome i) (t.table i) (new_node k v i) (valid i) (refl, refl))

delete-IsValid : (t : HashTable) (k : ℕ) → IsValid t → IsValid (delete_by_key t k).1
delete-IsValid t k valid = elim (delete_by_key_cases t k) [
  | inl (_, same, _) ↦ subst IsValid (sym same) valid
  | inr (d, e, out) ↦
      let i = hash_function k in
      subst IsValid (sym (ap (λ r. r.1) out))
        (put_chain-IsValid t i d valid (unlink_key-All (AtHome i) k (t.table i) d e (valid i)))
]

delete_value_loop-IsValid :
    (rounds i : ℕ) (t : HashTable) (v : ℕ) → IsValid t → IsValid (delete_value_loop rounds i t v).1
unfolding delete_value_loop
delete_value_loop-IsValid zero i t v valid = valid
delete_value_loop-IsValid (suc rounds) i t v valid =
    elim (Option-cases (unlink_value v (t.table i))) [
      | inl miss ↦ rw (miss, delete_value_loop) (delete_value_loop-IsValid rounds (i + 1) t v valid)
      | inr (d, e) ↦
          rw (e, delete_value_loop)
            (put_chain-IsValid t i d valid
              (unlink_value-All (AtHome i) v (t.table i) d e (valid i)))
    ]

delete_by_value-IsValid : (t : HashTable) (v : ℕ) → IsValid t → IsValid (delete_by_value t v).1
unfolding delete_by_value
delete_by_value-IsValid t v valid = delete_value_loop-IsValid t.size 0 t v valid

-- An insert, whether its node is allocated or not, a delete by key and a delete by value, however
-- they end, keep a valid table valid.
pub operations-IsValid :
    (malloc : Bool) (t : HashTable) (k v : ℕ)
    → IsValid t
    → IsValid (insert_by_value malloc t k v).1
      × IsValid (delete_by_key t k).1
      × IsValid (delete_by_value t v).1
operations-IsValid malloc t k v valid =
    (insert-IsValid malloc t k v valid, delete-IsValid t k valid, delete_by_value-IsValid t v valid)
