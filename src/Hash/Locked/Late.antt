-- ===== src/Hash/Locked/Late.antt =====
-- The searches of snic/hash_delee.c read the field that they return, `node->value` or `node->key`,
-- behind their unlock. Here that read is a step of its own: between the unlock and the read other
-- threads may step, and one that deletes the node frees it.
pub mod Kept
pub mod Reads
pub mod Tests
use socket_to_rdma.Base.{
  ℕ, zero, suc, ◌+◌, ◌≡◌, Bool, true, false, Option, none, some, List, [], ◌∷◌, ◌==◌, ◌&&◌, ◌||◌,
  if◌then◌else◌,
}
use socket_to_rdma.Hash.Murmur.{hash_function}
use socket_to_rdma.Hash.Table.{HashNode, Chain, HashTable}
use socket_to_rdma.Hash.Locked.{
  Result, CardTable, TableCall, call_search, call_search_value, mode_of, run,
}
use socket_to_rdma.Hash.Locked.System.{
  Rwlock, outside, at_lock, entered, loaded, update, Shared, left,
}

-- the bucket whose first node a search goes out with, if it found one
unfoldable pub key_bucket : (key index : ℕ) → Chain → Option ℕ
key_bucket key index [] = none
key_bucket key index (n ∷ c) = if n.key == key then some index else none

unfoldable pub value_bucket : (value index : ℕ) → Chain → Option ℕ
value_bucket value index [] = none
value_bucket value index (n ∷ c) = if n.value == value then some index else none

unfoldable pub value_bucket_loop : (rounds i : ℕ) → HashTable → (value : ℕ) → Option ℕ
unfolding value_bucket
value_bucket_loop zero i t value = none
value_bucket_loop (suc rounds) i t value = elim (value_bucket value i (t.table i)) [
  | some index ↦ some index
  | none ↦ value_bucket_loop rounds (i + 1) t value
]

unfoldable pub found_bucket : TableCall → HashTable → Option ℕ
unfolding key_bucket value_bucket_loop
found_bucket (call_search key) t = key_bucket key (hash_function key) (t.table (hash_function key))
found_bucket (call_search_value value) t = value_bucket_loop t.size 0 t value
found_bucket _ t = none

abbrev pub same_node : HashNode → HashNode → Bool
same_node m n = (m.key == n.key) && ((m.value == n.value) && (m.index == n.index))

unfoldable pub same_chain : Chain → Chain → Bool
same_chain [] [] = true
same_chain [] (n ∷ d) = false
same_chain (m ∷ c) [] = false
same_chain (m ∷ c) (n ∷ d) = let rest = same_chain c d in same_node m n && rest

-- The bucket has lost its first node: nodes are linked only behind the last, and a deletion takes the
-- first node that it looks for.
unfoldable pub head_gone : Chain → Chain → Bool
unfolding same_chain
head_gone [] d = false
head_gone (n ∷ c) d = same_chain c d

abbrev pub Log : Type 0
Log = List (TableCall × Result)

-- A search that has unlocked: the field of its node at the unlock, the node's bucket, whether the
-- node has been freed, and the calls that have ended since, the last first.
pub record Pending : Type 0 where
  pub call : TableCall
  pub result : Result
  pub bucket : ℕ
  pub freed : Bool
  pub since : Log

-- a call of another thread ends: its table before and after
abbrev pub past : TableCall → Result → HashTable → HashTable → Pending → Pending
past c r t u p = record p {
  freed = p.freed || head_gone (t.table p.bucket) (u.table p.bucket);
  since = (c, r) ∷ p.since;
}

-- A read behind the unlock: the field at the unlock, or what stands in memory that was freed, which
-- is `none`.
pub record Read : Type 0 where
  pub pending : Pending
  pub got : Option Result

abbrev pub read_of : Pending → Read
read_of p = record { pending = p; got = if p.freed then none else some p.result }

module _ (lk : Rwlock) (which : CardTable) where
  pub record Late : Type 0 where
    pub shared : Shared lk which
    pub pending : ℕ → Option Pending
    pub reads : List Read

  abbrev pub mine : TableCall → HashTable → Option ℕ → Option Pending
  mine c t none = none
  mine c t (some b) =
      some
        record { call = c; result = (run which c t).result; bucket = b; freed = false; since = [] }

  abbrev pub others : TableCall → HashTable → Option Pending → Option Pending
  others c t none = none
  others c t (some p) = some (past c (run which c t).result t (run which c t).table p)

  -- the end of a call, up to the read of a search that has found a node
  abbrev pub unlocked : Late → ℕ → TableCall → HashTable → Late
  unlocked l i c t = record l {
    shared = left lk which l.shared i c t;
    pending = λ j. if j == i then mine c t (found_bucket c t) else others c t (l.pending j);
  }

  pub data LateStep (i : ℕ) (l : Late) : Late → Type 0 where
    late_calls :
        (c : TableCall)
        → l.shared.places i ≡ outside
        → l.pending i ≡ none
        → LateStep i l (record l {
          shared = record l.shared { places = update l.shared.places i (at_lock c) };
        })
    late_enters :
        (c : TableCall) (k : lk.State)
        → l.shared.places i ≡ at_lock c
        → lk.acquire l.shared.lock i (mode_of c) ≡ some k
        → LateStep i l (record l {
          shared = record l.shared { lock = k; places = update l.shared.places i (entered c) };
        })
    late_loads :
        (c : TableCall)
        → l.shared.places i ≡ entered c
        → LateStep i l (record l {
          shared = record l.shared { places = update l.shared.places i (loaded c l.shared.table) };
        })
    unlocks :
        (c : TableCall) (t : HashTable)
        → l.shared.places i ≡ loaded c t
        → LateStep i l (unlocked l i c t)
    reads :
        (p : Pending)
        → l.pending i ≡ some p
        → LateStep i l (record l {
          pending = λ j. if j == i then none else l.pending j;
          reads = read_of p ∷ l.reads;
        })

  pub data LateReach (t : HashTable) : Late → Type 0 where
    late_start :
        (k : lk.State)
        → ((j : ℕ) → lk.holds k j ≡ none)
        → LateReach t (record {
          shared = record { lock = k; table = t; places = λ j. outside; log = [] };
          pending = λ j. none;
          reads = [];
        })
    late_later : {l m : Late} (i : ℕ) → LateReach t l → LateStep i l m → LateReach t m
