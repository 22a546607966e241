-- ===== src/Hash/Table/Entries.antt =====
-- The table as a multimap: the values of a key in the order in which they were inserted.
use socket_to_rdma.Base.{
  ℕ, ◌≡◌, refl, true, none, some, List, [], ◌∷◌, ◌++◌, ◌==◌, if◌then◌else◌, ◌⊎◌, inl, inr,
  Bool-cases, Option-cases, ◌↔◌, arith, ◌≢◌,
}
use mathlib.Core.List.{append-nil}
use mathlib.Core.Path.{ap}
use socket_to_rdma.Hash.Murmur.{hash_function}
use socket_to_rdma.Hash.Table.{
  Chain, HashTable, deleted, put_chain, new_node, append_node, unlink_key, delete_in,
  insert_by_value, delete_by_key,
}

unfoldable pub entries : ℕ → Chain → List ℕ
entries key [] = []
entries key (n ∷ c) = if n.key == key then n.value ∷ entries key c else entries key c

-- the values stored under a key, first inserted first
abbrev pub entries_of : HashTable → ℕ → List ℕ
entries_of t key = entries key (t.table (hash_function key))

abbrev pub rest_of : List ℕ → List ℕ
rest_of [] = []
rest_of (v ∷ vs) = vs

entries-append_node :
    (j k v i : ℕ) (c : Chain)
    → entries j (append_node c (new_node k v i)) ≡ entries j c ++ (if k == j then v ∷ [] else [])
unfolding entries append_node
entries-append_node j k v i [] = ground arith
entries-append_node j k v i (n ∷ c) = ground (arith, entries-append_node j k v i c)

-- Inserting adds the value behind those of its key, and changes no other key's values.
pub insert-entries :
    (t : HashTable) (k v j : ℕ)
    → entries_of (insert_by_value true t k v).1 j
      ≡ entries_of t j ++ (if k == j then v ∷ [] else [])
unfolding insert_by_value
insert-entries t k v j = ground (
  arith,
  entries-append_node j k v (hash_function k) (t.table (hash_function k)),
  append-nil (entries_of t j),
)

-- Taking out the first node of `k` drops the first of the values of `k` alone.
entries-unlink_key :
    (j k : ℕ) (c d : Chain)
    → unlink_key k c ≡ some d
    → entries j d ≡ (if k == j then rest_of (entries j c) else entries j c)
unfolding entries unlink_key
entries-unlink_key j k [] d e = cc
entries-unlink_key j k (n ∷ c) d e = elim (Bool-cases (n.key == k)) [
  | inl hit ↦ ground arith
  | inr miss ↦ elim (Option-cases (unlink_key k c)) [
    | inl stop ↦ ground arith
    | inr (c', e') ↦ ground (arith, entries-unlink_key j k c c' e')
  ]
]

unlink_key-none : (k : ℕ) (c : Chain) → (unlink_key k c ≡ none) ↔ (entries k c ≡ [])
unfolding entries unlink_key
unlink_key-none k [] = ground arith
unlink_key-none k (n ∷ c) = ground (arith, unlink_key-none k c)

-- the two ways in which a delete ends
pub delete_by_key_cases :
    (t : HashTable) (k : ℕ)
    → let i = hash_function k in
      ((unlink_key k (t.table i) ≡ none)
        × ((delete_by_key t k).1 ≡ t)
        × ((delete_by_key t k).0 ≢ deleted))
      ⊎ ((d : Chain) × (unlink_key k (t.table i) ≡ some d)
          × (delete_by_key t k ≡ (deleted, put_chain t i d)))
unfolding delete_by_key unlink_key
delete_by_key_cases t k = cases (t.table (hash_function k)) refl
  where
    cases :
        (c : Chain)
        → t.table (hash_function k) ≡ c
        → ((unlink_key k c ≡ none)
            × ((delete_in t (hash_function k) k c).1 ≡ t)
            × ((delete_in t (hash_function k) k c).0 ≢ deleted))
          ⊎ ((d : Chain) × (unlink_key k c ≡ some d)
              × (delete_in t (hash_function k) k c ≡ (deleted, put_chain t (hash_function k) d)))
    cases [] e = inl (refl, refl, λ p. cc)
    cases (n ∷ c) e = elim (Option-cases (unlink_key k (n ∷ c))) [
      | inl none' ↦ inl (none', ground arith, ground arith)
      | inr (d, e') ↦ inr (d, e', ground arith)
    ]

-- Deleting a key drops the value that was inserted first under it, if there is one, reports
-- `deleted` exactly when there was one, and changes no other key's values.
pub delete-entries :
    (t : HashTable) (k j : ℕ)
    → (entries_of (delete_by_key t k).1 j
        ≡ (if k == j then rest_of (entries_of t j) else entries_of t j))
      × (((delete_by_key t k).0 ≡ deleted) ↔ (entries_of t k ≢ []))
delete-entries t k j = elim (delete_by_key_cases t k) [
  | inl (none', same, kept) ↦ (
    ground (arith, unlink_key-none k (t.table (hash_function k))),
    (
      λ e. absurd (kept e),
      λ h. absurd (h ((unlink_key-none k (t.table (hash_function k))).0 none')),
    ),
  )
  | inr (d, e, out) ↦ (
    ground (arith, entries-unlink_key j k (t.table (hash_function k)) d e),
    (
      λ _ h. ground (arith, (unlink_key-none k (t.table (hash_function k))).1 h),
      λ _. ap (λ r. r.0) out,
    ),
  )
]
