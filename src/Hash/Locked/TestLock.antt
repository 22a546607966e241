-- ===== src/Hash/Locked/TestLock.antt =====
-- A readers-writer lock that is executable, for the runs of the tests.
use socket_to_rdma.Base.{
  ℕ, ◌≡◌, ◌≢◌, ◌⊎◌, refl, Bool, true, false, Option, none, some, List, [], ◌∷◌, ◌==◌, ◌||◌, ◌&&◌,
  not, if◌then◌else◌, arith,
}
use socket_to_rdma.Hash.Locked.{Mode, reading, writing}
use socket_to_rdma.Hash.Locked.System.{covers, compatible, Rwlock}

pub data LockState : Type 0 where
  free : LockState
  written_by : ℕ → LockState
  read_by : List ℕ → LockState

unfoldable pub among : ℕ → List ℕ → Bool
among i [] = false
among i (j ∷ js) = (i == j) || among i js

unfoldable pub without : ℕ → List ℕ → List ℕ
without i [] = []
without i (j ∷ js) = let rest = without i js in if i == j then rest else j ∷ rest

abbrev pub held : LockState → ℕ → Option Mode
held free i = none
held (written_by j) i = if i == j then some writing else none
held (read_by js) i = if among i js then some reading else none

abbrev pub taken : LockState → ℕ → Mode → Option LockState
taken free i reading = some (read_by (i ∷ []))
taken free i writing = some (written_by i)
taken (written_by j) i m = if i == j then some (written_by j) else none
taken (read_by js) i reading = some (read_by (i ∷ js))
taken (read_by []) i writing = some (written_by i)
taken (read_by (j ∷ js)) i writing = none

abbrev pub freed : LockState → ℕ → LockState
freed free i = free
freed (written_by j) i = if i == j then free else written_by j
freed (read_by js) i = read_by (without i js)

pub among-without : (i j : ℕ) (js : List ℕ) → among j (without i js) ≡ not (i == j) && among j js
unfolding among without
among-without i j [] = ground arith
among-without i j (k ∷ js) = ground (arith, among-without i j js)

pub taken-covers :
    (s s' : LockState) (i : ℕ) (m : Mode) → taken s i m ≡ some s' → covers (held s' i) m ≡ true
unfolding among
taken-covers free s' i reading e = ground arith
taken-covers free s' i writing e = ground arith
taken-covers (written_by j) s' i reading e = ground arith
taken-covers (written_by j) s' i writing e = ground arith
taken-covers (read_by js) s' i reading e = ground arith
taken-covers (read_by []) s' i writing e = ground arith
taken-covers (read_by (j ∷ js)) s' i writing e = cc

pub taken-mine :
    (s s' : LockState) (i : ℕ) (m : Mode)
    → taken s i m ≡ some s'
    → (held s' i ≡ some m) ⊎ (held s' i ≡ held s i)
unfolding among
taken-mine free s' i reading e = ground arith
taken-mine free s' i writing e = ground arith
taken-mine (written_by j) s' i m e = ground arith
taken-mine (read_by js) s' i reading e = ground arith
taken-mine (read_by []) s' i writing e = ground arith
taken-mine (read_by (j ∷ js)) s' i writing e = cc

pub taken-others :
    (s s' : LockState) (i j : ℕ) (m : Mode)
    → taken s i m ≡ some s'
    → j ≢ i
    → (held s' j ≡ held s j) × (compatible m (held s j) ≡ true)
unfolding among
taken-others free s' i j reading e apart = ground arith
taken-others free s' i j writing e apart = ground arith
taken-others (written_by k) s' i j m e apart = ground arith
taken-others (read_by js) s' i j reading e apart = ground arith
taken-others (read_by []) s' i j writing e apart = ground arith
taken-others (read_by (k ∷ js)) s' i j writing e apart = cc

pub taken_free :
    (s : LockState) (i : ℕ) (m : Mode)
    → ((j : ℕ) → held s j ≡ none)
    → (s' : LockState) × (taken s i m ≡ some s')
unfolding among
taken_free free i reading h = (read_by (i ∷ []), refl)
taken_free free i writing h = (written_by i, refl)
taken_free (written_by j) i m h = absurd (ground (arith, h j))
taken_free (read_by js) i reading h = (read_by (i ∷ js), refl)
taken_free (read_by []) i writing h = (written_by i, refl)
taken_free (read_by (j ∷ js)) i writing h = absurd (ground (arith, h j))

pub freed-mine : (s : LockState) (i : ℕ) → held (freed s i) i ≡ none
freed-mine free i = refl
freed-mine (written_by j) i = ground arith
freed-mine (read_by js) i = ground (arith, among-without i i js)

pub freed-others : (s : LockState) (i j : ℕ) → j ≢ i → held (freed s i) j ≡ held s j
freed-others free i j apart = refl
freed-others (written_by k) i j apart = ground arith
freed-others (read_by js) i j apart = ground (arith, among-without i j js)

abbrev pub test_lock : Rwlock
test_lock = record {
  State = LockState;
  holds = held;
  acquire = taken;
  release = freed;
  acquire-covers = taken-covers;
  acquire-mine = taken-mine;
  acquire-others = λ s s' i j m e apart. (taken-others s s' i j m e apart).0;
  acquire-compatible = λ s s' i j m e apart. (taken-others s s' i j m e apart).1;
  acquire-free = taken_free;
  release-mine = freed-mine;
  release-others = freed-others;
}
