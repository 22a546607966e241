-- ===== src/Hash/Locked/System.antt =====
-- Any number of threads of the card that call the operations of one table. The lock is a parameter,
-- with what the manual pages of pthread_rwlock_wrlock say of it.
use socket_to_rdma.Base.{
  ℕ, ◌≡◌, ◌≢◌, ◌⊎◌, Bool, true, false, Option, none, some, List, [], ◌∷◌, ◌==◌, if◌then◌else◌,
}
use socket_to_rdma.Hash.Table.{HashTable}
use socket_to_rdma.Hash.Locked.{Mode, reading, writing, Result, CardTable, TableCall, mode_of, run}

-- a lock that is held this way is enough for an operation that asks for that
abbrev pub covers : Option Mode → Mode → Bool
covers (some writing) m = true
covers (some reading) reading = true
covers _ _ = false

-- what another thread may hold when a thread gets the lock
abbrev pub compatible : Mode → Option Mode → Bool
compatible m none = true
compatible reading (some reading) = true
compatible _ _ = false

-- A readers-writer lock, by what each thread holds of it. A thread that has the lock for writing and
-- asks again may be let on, with an error that no operation looks at.
pub record Rwlock : Type 1 where
  pub State : Type 0
  pub holds : State → (thread : ℕ) → Option Mode
  -- `none`: the thread waits
  pub acquire : State → (thread : ℕ) → Mode → Option State
  pub release : State → (thread : ℕ) → State
  pub acquire-covers :
      (s s' : State) (i : ℕ) (m : Mode) → acquire s i m ≡ some s' → covers (holds s' i) m ≡ true
  pub acquire-mine :
      (s s' : State) (i : ℕ) (m : Mode)
      → acquire s i m ≡ some s'
      → (holds s' i ≡ some m) ⊎ (holds s' i ≡ holds s i)
  pub acquire-others :
      (s s' : State) (i j : ℕ) (m : Mode) → acquire s i m ≡ some s' → j ≢ i → holds s' j ≡ holds s j
  pub acquire-compatible :
      (s s' : State) (i j : ℕ) (m : Mode)
      → acquire s i m ≡ some s'
      → j ≢ i
      → compatible m (holds s j) ≡ true
  pub acquire-free :
      (s : State) (i : ℕ) (m : Mode)
      → ((j : ℕ) → holds s j ≡ none)
      → (s' : State) × (acquire s i m ≡ some s')
  pub release-mine : (s : State) (i : ℕ) → holds (release s i) i ≡ none
  pub release-others : (s : State) (i j : ℕ) → j ≢ i → holds (release s i) j ≡ holds s j

-- where a thread is: outside, at the lock, behind it, or with the table read
pub data Place : Type 0 where
  outside : Place
  at_lock : TableCall → Place
  entered : TableCall → Place
  loaded : TableCall → HashTable → Place

abbrev pub update : (ℕ → Place) → ℕ → Place → ℕ → Place
update f i p j = if j == i then p else f j

module _ (lk : Rwlock) (which : CardTable) where
  pub record Shared : Type 0 where
    pub lock : lk.State
    pub table : HashTable
    pub places : ℕ → Place
    -- the calls that have ended, the last first
    pub log : List (TableCall × Result)

  -- the call's end: its stores, its unlock if its path has one, and its `return`
  abbrev pub left : Shared → ℕ → TableCall → HashTable → Shared
  left s i c t =
      let p = run which c t in
      record {
        lock = if p.unlocks then lk.release s.lock i else s.lock;
        table = elim (mode_of c) [ reading ↦ s.table | writing ↦ p.table ];
        places = update s.places i outside;
        log = (c, p.result) ∷ s.log;
      }

  -- A step of a thread. Between the read of the table and the stores other threads may step.
  pub data Step (i : ℕ) (s : Shared) : Shared → Type 0 where
    calls :
        (c : TableCall)
        → s.places i ≡ outside
        → Step i s (record s { places = update s.places i (at_lock c) })
    enters :
        (c : TableCall) (l : lk.State)
        → s.places i ≡ at_lock c
        → lk.acquire s.lock i (mode_of c) ≡ some l
        → Step i s (record s { lock = l; places = update s.places i (entered c) })
    loads :
        (c : TableCall)
        → s.places i ≡ entered c
        → Step i s (record s { places = update s.places i (loaded c s.table) })
    leaves : (c : TableCall) (t : HashTable) → s.places i ≡ loaded c t → Step i s (left s i c t)

  -- the start: nobody has called, and nobody holds the lock
  pub data Reach (t : HashTable) : Shared → Type 0 where
    start :
        (l : lk.State)
        → ((j : ℕ) → lk.holds l j ≡ none)
        → Reach t (record { lock = l; table = t; places = λ j. outside; log = [] })
    later : {s u : Shared} (i : ℕ) → Reach t s → Step i s u → Reach t u

-- the table behind a sequence of calls, the last first
abbrev pub replay : CardTable → HashTable → List (TableCall × Result) → HashTable
replay which t [] = t
replay which t ((c, r) ∷ log) = (run which c (replay which t log)).table

-- each call returned what it returns at its place in the sequence
abbrev pub Agrees : CardTable → HashTable → List (TableCall × Result) → Type 0
Agrees which t [] = Unit {0}
Agrees which t ((c, r) ∷ log) = (r ≡ (run which c (replay which t log)).result) × Agrees which t log
