-- ===== src/Hash/Table/Values.antt =====
-- The nodes of the buckets in order, and what a delete by value and a free do to them.
use socket_to_rdma.Base.{
  ℕ, ◌≡◌, refl, Bool, true, false, none, some, List, [], ◌∷◌, ◌==◌, zero, suc, ◌+◌, ◌++◌, ◌<◌, inl,
  inr, Bool-cases, Option-cases, arith, if◌then◌else◌, length, length-append,
}
use socket_to_rdma.Hash.Table.{
  HashNode, Chain, HashTable, Deletion, deleted, not_found, put_chain, unlink_value,
  delete_value_loop, delete_by_value, free_head, free_loop, free_hash_table,
}

-- the nodes of `rounds` buckets from the i-th on
unfoldable pub nodes_from : ℕ → ℕ → HashTable → List HashNode
nodes_from zero i t = []
nodes_from (suc rounds) i t = t.table i ++ nodes_from rounds (i + 1) t

unfoldable pub nodes : HashTable → List HashNode
unfolding nodes_from
nodes t = nodes_from t.size 0 t

-- drops the first node that holds the value
unfoldable pub erase_value : ℕ → List HashNode → List HashNode
erase_value v [] = []
erase_value v (n ∷ c) = if n.value == v then c else n ∷ erase_value v c

unfoldable pub holds : ℕ → List HashNode → Bool
holds v [] = false
holds v (n ∷ c) = if n.value == v then true else holds v c

unlink_value-some :
    (v : ℕ) (c d : Chain) → unlink_value v c ≡ some d → (holds v c ≡ true) × (erase_value v c ≡ d)
unfolding unlink_value erase_value holds
unlink_value-some v [] d e = absurd (ground arith)
unlink_value-some v (n ∷ c) d e = elim (Bool-cases (n.value == v)) [
  | inl hit ↦ ground arith
  | inr miss ↦ elim (Option-cases (unlink_value v c)) [
    | inl stop ↦ absurd (ground arith)
    | inr (c', e') ↦ ground (arith, unlink_value-some v c c' e')
  ]
]

unlink_value-none : (v : ℕ) (c : Chain) → unlink_value v c ≡ none → holds v c ≡ false
unfolding unlink_value holds
unlink_value-none v [] e = refl
unlink_value-none v (n ∷ c) e = ground (arith, unlink_value-none v c)

erase_value-append :
    (v : ℕ) (c d : List HashNode)
    → erase_value v (c ++ d) ≡ (if holds v c then erase_value v c ++ d else c ++ erase_value v d)
unfolding erase_value holds
erase_value-append v [] d = refl
erase_value-append v (n ∷ c) d = ground (arith, erase_value-append v c d)

holds-append :
    (v : ℕ) (c d : List HashNode) → holds v (c ++ d) ≡ (if holds v c then true else holds v d)
unfolding holds
holds-append v [] d = refl
holds-append v (n ∷ c) d = ground (arith, holds-append v c d)

-- a change below the first bucket looked at is not seen
nodes_from-put_below :
    (rounds i j : ℕ) (t : HashTable) (c : Chain)
    → j < i
    → nodes_from rounds i (put_chain t j c) ≡ nodes_from rounds i t
unfolding nodes_from
nodes_from-put_below zero i j t c h = refl
nodes_from-put_below (suc rounds) i j t c h =
    ground (arith, nodes_from-put_below rounds (i + 1) j t c (omega arith))

abbrev Erased : ℕ → ℕ → ℕ → HashTable → Deletion × HashTable → Type 0
Erased v rounds i t r =
    (nodes_from rounds i r.1 ≡ erase_value v (nodes_from rounds i t))
    × (r.0 ≡ (if holds v (nodes_from rounds i t) then deleted else not_found))

delete_value_loop-below :
    (rounds i j : ℕ) (t : HashTable) (v : ℕ)
    → j < i
    → (delete_value_loop rounds i t v).1.table j ≡ t.table j
unfolding delete_value_loop
delete_value_loop-below zero i j t v h = refl
delete_value_loop-below (suc rounds) i j t v h = elim (Option-cases (unlink_value v (t.table i))) [
  | inl miss ↦
      rw (miss, delete_value_loop) (delete_value_loop-below rounds (i + 1) j t v (omega arith))
  | inr (d, e) ↦ rw (e, delete_value_loop) (ground arith)
]

delete_value_loop-Erased :
    (rounds i : ℕ) (t : HashTable) (v : ℕ) → Erased v rounds i t (delete_value_loop rounds i t v)
unfolding delete_value_loop nodes_from
delete_value_loop-Erased zero i t v = (unfold erase_value in refl, unfold holds in refl)
delete_value_loop-Erased (suc rounds) i t v = elim (Option-cases (unlink_value v (t.table i))) [
  | inl miss ↦ ground (
    arith,
    unlink_value-none v (t.table i) miss,
    erase_value-append v (t.table i) (nodes_from rounds (i + 1) t),
    holds-append v (t.table i) (nodes_from rounds (i + 1) t),
    delete_value_loop-below rounds (i + 1) i t v,
    delete_value_loop-Erased rounds (i + 1) t v,
  )
  | inr (d, e) ↦ ground (
    arith,
    unlink_value-some v (t.table i) d e,
    erase_value-append v (t.table i) (nodes_from rounds (i + 1) t),
    holds-append v (t.table i) (nodes_from rounds (i + 1) t),
    nodes_from-put_below rounds (i + 1) i t d,
  )
]

delete_value_loop-size :
    (rounds i : ℕ) (t : HashTable) (v : ℕ) → (delete_value_loop rounds i t v).1.size ≡ t.size
unfolding delete_value_loop
delete_value_loop-size zero i t v = refl
delete_value_loop-size (suc rounds) i t v =
    ground (arith, delete_value_loop-size rounds (i + 1) t v)

-- A delete by value drops the first node, in the order of the buckets and of each chain, that holds
-- the value, and no other; it reports `deleted` if there is one and `not_found` if there is none.
pub delete_by_value-erase :
    (t : HashTable) (v : ℕ)
    → (nodes (delete_by_value t v).1 ≡ erase_value v (nodes t))
      × ((delete_by_value t v).0 ≡ (if holds v (nodes t) then deleted else not_found))
unfolding delete_by_value nodes
delete_by_value-erase t v =
    rw (delete_value_loop-size t.size 0 t v) (delete_value_loop-Erased t.size 0 t v)

-- the nodes behind the first of each bucket
unfoldable pub behind : Chain → List HashNode
behind [] = []
behind (n ∷ c) = c

unfoldable pub leaked_from : ℕ → ℕ → HashTable → List HashNode
unfolding behind
leaked_from zero i t = []
leaked_from (suc rounds) i t = behind (t.table i) ++ leaked_from rounds (i + 1) t

length-free_head :
    (c : Chain) (freed : List HashNode)
    → length (free_head c freed) + length (behind c) ≡ length c + length freed
unfolding free_head behind
length-free_head [] freed = omega arith
length-free_head (n ∷ c) freed = omega arith

free_loop-count :
    (rounds i : ℕ) (t : HashTable)
    → length (free_loop rounds i t) + length (leaked_from rounds i t)
      ≡ length (nodes_from rounds i t)
unfolding free_loop leaked_from nodes_from
free_loop-count zero i t = refl
free_loop-count (suc rounds) i t = omega (
  arith,
  free_loop-count rounds (i + 1) t,
  length-free_head (t.table i) (free_loop rounds (i + 1) t),
  length-append (behind (t.table i)) (leaked_from rounds (i + 1) t),
  length-append (t.table i) (nodes_from rounds (i + 1) t),
)

-- Freeing the table frees as many nodes as there are buckets in use: every node behind the first
-- of its bucket stays allocated.
pub free-count :
    (t : HashTable)
    → length (free_hash_table t) + length (leaked_from t.size 0 t) ≡ length (nodes t)
unfolding free_hash_table nodes
free-count t = free_loop-count t.size 0 t
