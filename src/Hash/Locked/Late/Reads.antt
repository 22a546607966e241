-- ===== src/Hash/Locked/Late/Reads.antt =====
-- What the reads behind the unlock give.
use socket_to_rdma.Base.{
  ℕ, ◌≡◌, ◌⊎◌, refl, ap, true, false, Option, none, some, List, [], ◌∷◌, ◌++◌, ◌==◌, inl, inr,
  Bool-cases, arith, All,
}
use socket_to_rdma.Hash.Table.{HashTable}
use socket_to_rdma.Hash.Locked.{Result, CardTable, TableCall, run}
use socket_to_rdma.Hash.Locked.System.{
  Rwlock, Reach, start, later, calls, enters, loads, leaves, replay, Agrees,
}
use socket_to_rdma.Hash.Locked.Order.{Reach-Agrees}
use socket_to_rdma.Hash.Locked.Late.{
  found_bucket, Log, Pending, past, Read, read_of, Late, mine, others, LateStep, late_calls,
  late_enters, late_loads, unlocks, reads, LateReach, late_start, late_later,
}
use socket_to_rdma.Hash.Locked.Late.Kept.{deletes, any_deletes, kept_by}

-- the entry of the call in the log, behind those of the calls since
abbrev pub IsLogged : Log → Log → Pending → Type 0
IsLogged log newer p = (older : Log) × (log ≡ newer ++ (p.since ++ (p.call, p.result) ∷ older))

abbrev IsPending : Log → Option Pending → Type 0
IsPending log none = Unit
IsPending log (some p) = IsLogged log [] p × ((p.freed ≡ false) ⊎ (any_deletes p.since ≡ true))

-- A read gave what the log has of its call, or, where a call since its unlock was a deletion, what
-- stood in freed memory.
abbrev pub IsRead : Log → Read → Type 0
IsRead log r =
    ((newer : Log) × IsLogged log newer r.pending)
    × ((r.got ≡ some r.pending.result) ⊎ ((r.got ≡ none) × (any_deletes r.pending.since ≡ true)))

read_of-IsRead : (log : Log) (p : Pending) → IsPending log (some p) → IsRead log (read_of p)
read_of-IsRead log p (logged, sound) = elim (Bool-cases p.freed) [
  | inl gone ↦
      let some_delete : any_deletes p.since ≡ true = ground arith in
      (([], logged), inr (rw gone refl, some_delete))
  | inr kept ↦ (([], logged), inl (rw kept refl))
]

IsRead-later :
    (c : TableCall) (r : Result) (log : Log) (d : Read) → IsRead log d → IsRead ((c, r) ∷ log) d
IsRead-later c r log d ((newer, (older, e)), got) =
    (((c, r) ∷ newer, (older, ap (λ l. (c, r) ∷ l) e)), got)

All-later :
    (c : TableCall) (r : Result) (log : Log) (ds : List Read)
    → All (IsRead log) ds
    → All (IsRead ((c, r) ∷ log)) ds
All-later c r log [] all = tt
All-later c r log (d ∷ ds) (q, all) = (IsRead-later c r log d q, All-later c r log ds all)

-- a deletion among the calls since, where the node is gone behind this one
past_sound :
    (which : CardTable) (c : TableCall) (t : HashTable) (p : Pending)
    → (p.freed ≡ false) ⊎ (any_deletes p.since ≡ true)
    → let q = past c (run which c t).result t (run which c t).table p in
      (q.freed ≡ false) ⊎ (any_deletes q.since ≡ true)
past_sound which c t p h = elim (Bool-cases (deletes c)) [
  | inl is ↦ inr (ground arith)
  | inr not' ↦ let kept = kept_by which c t p.bucket not' in ground arith
]

others-IsPending :
    (which : CardTable) (c : TableCall) (t : HashTable) (log : Log) (p : Option Pending)
    → (lk : Rwlock) → IsPending log p
    → IsPending ((c, (run which c t).result) ∷ log) (others lk which c t p)
others-IsPending which c t log none lk h = tt
others-IsPending which c t log (some p) lk ((older, e), sound) =
    ((older, ap (λ l. (c, (run which c t).result) ∷ l) e), past_sound which c t p sound)

mine-IsPending :
    (which : CardTable) (c : TableCall) (t : HashTable) (log : Log) (b : Option ℕ)
    → (lk : Rwlock) → IsPending ((c, (run which c t).result) ∷ log) (mine lk which c t b)
mine-IsPending which c t log none lk = tt
mine-IsPending which c t log (some b) lk = ((log, refl), inl refl)

module _ (lk : Rwlock) (which : CardTable) (t0 : HashTable) where
  record LateInv (l : Late lk which) : Type 0 where
    reach : Reach lk which t0 l.shared
    waiting : (j : ℕ) → IsPending l.shared.log (l.pending j)
    done : All (IsRead l.shared.log) l.reads

  Step-LateInv : (i : ℕ) (l m : Late lk which) → LateInv l → LateStep lk which i l m → LateInv m
  Step-LateInv i l _ inv (late_calls c e none') = record {
    reach = later i inv.reach (calls c e);
    waiting = inv.waiting;
    done = inv.done;
  }
  Step-LateInv i l _ inv (late_enters c k e got) = record {
    reach = later i inv.reach (enters c k e got);
    waiting = inv.waiting;
    done = inv.done;
  }
  Step-LateInv i l _ inv (late_loads c e) = record {
    reach = later i inv.reach (loads c e);
    waiting = inv.waiting;
    done = inv.done;
  }
  Step-LateInv i l _ inv (unlocks c t e) = record {
    reach = later i inv.reach (leaves c t e);
    waiting = λ j. elim (Bool-cases (j == i)) [
      | inl same ↦ rw same (mine-IsPending which c t l.shared.log (found_bucket c t) lk)
      | inr apart ↦
          rw apart (others-IsPending which c t l.shared.log (l.pending j) lk (inv.waiting j))
    ];
    done = All-later c (run which c t).result l.shared.log l.reads inv.done;
  }
  Step-LateInv i l _ inv (reads p e) =
      let mine' : IsPending l.shared.log (some p) = (rw e at (inv.waiting i)) in
      record {
        reach = inv.reach;
        waiting = λ j. elim (Bool-cases (j == i)) [
          | inl same ↦ rw same tt
          | inr apart ↦ rw apart (inv.waiting j)
        ];
        done = (read_of-IsRead l.shared.log p mine', inv.done);
      }

  LateReach-LateInv : {l : Late lk which} → LateReach lk which t0 l → LateInv l
  LateReach-LateInv (late_start k none') = record {
    reach = start k none';
    waiting = λ j. tt;
    done = tt;
  }
  LateReach-LateInv (late_later {l} {m} i r st) = Step-LateInv i l m (LateReach-LateInv r) st

  -- With the reads behind the unlock as steps of their own the table and the log are still those of
  -- the calls made one after the other, as they unlocked. Each read gives the result that its call
  -- has in the log, or, where a deletion ended between the call's unlock and the read, what stands in
  -- freed memory.
  pub LateReach-IsRead :
      {l : Late lk which}
      → LateReach lk which t0 l
      → (l.shared.table ≡ replay which t0 l.shared.log)
        × Agrees which t0 l.shared.log
        × All (IsRead l.shared.log) l.reads
  LateReach-IsRead r =
      let inv = LateReach-LateInv r in
      let (table, agrees) = Reach-Agrees lk which t0 inv.reach in (table, agrees, inv.done)
