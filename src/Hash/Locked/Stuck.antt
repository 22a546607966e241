-- ===== src/Hash/Locked/Stuck.antt =====
-- Whether a call of the card's table operations ends, and what a delete of an empty bucket, which
-- ends without its unlock, leaves behind.
use socket_to_rdma.Base.{
  ℕ, zero, suc, ◌≡◌, ◌≢◌, ◌↔◌, refl, sym, ◌∙◌, ap, true, none, some, ◌∷◌, inl, inr, Bool-cases,
  arith,
}
use socket_to_rdma.Hash.Table.{HashTable}
use socket_to_rdma.Hash.Locked.{Mode, reading, writing, CardTable, TableCall, mode_of, run}
use socket_to_rdma.Hash.Locked.System.{
  compatible, Rwlock, Place, outside, at_lock, entered, loaded, update, Shared, left, Step, calls,
  enters, loads, leaves, Reach, later,
}
use socket_to_rdma.Hash.Locked.Order.{
  Inv, Reach-Inv, mode_cases, run-Reads, Step-Inv, covers-none, covers-writing,
}
use socket_to_rdma.Hash.Locked.Unlocks.{OnEmptyBucket, run_unlocks, delete_keeps}

compatible_writing : (m : Mode) → compatible m (some writing) ≢ true
compatible_writing reading = λ e. cc
compatible_writing writing = λ e. cc

pub update_here : (f : ℕ → Place) (i : ℕ) (p : Place) → update f i p i ≡ p
update_here f i p = ground arith

module _ (lk : Rwlock) (which : CardTable) where
  -- steps of other threads
  pub data Others (i : ℕ) (s : Shared lk which) : Shared lk which → Type 0 where
    still : Others i s s
    other :
        {u v : Shared lk which} (j : ℕ) → j ≢ i → Others i s u → Step lk which j u v → Others i s v

  -- What others do while a thread has the lock for writing.
  pub record Blocked (t0 : HashTable) (i : ℕ) (s u : Shared lk which) : Type 0 where
    pub inv : Inv lk which t0 u
    pub holds : lk.holds u.lock i ≡ some writing
    pub table : u.table ≡ s.table
    pub log : u.log ≡ s.log

  Step-Blocked :
      (t0 : HashTable) (i j : ℕ) (s u v : Shared lk which)
      → j ≢ i
      → Blocked t0 i s u
      → Step lk which j u v
      → Blocked t0 i s v
  Step-Blocked t0 i j s u _ apart b (calls c e) = record {
    inv = Step-Inv lk which t0 j u _ b.inv (calls c e);
    holds = b.holds;
    table = b.table;
    log = b.log;
  }
  Step-Blocked t0 i j s u _ apart b (enters c l e got) = absurd (
      compatible_writing (mode_of c) (
        sym (ap (compatible (mode_of c)) b.holds)
        ∙ lk.acquire-compatible u.lock l j i (mode_of c) got (λ q. apart (sym q))))
  Step-Blocked t0 i j s u _ apart b (loads c e) = record {
    inv = Step-Inv lk which t0 j u _ b.inv (loads c e);
    holds = b.holds;
    table = b.table;
    log = b.log;
  }
  Step-Blocked t0 i j s u _ apart b (leaves c t e) = absurd (
      covers-none (mode_of c)
        (ground (arith, b.inv.alone i j apart b.holds, b.inv.mine j (mode_of c))))

  Others-Blocked :
      (t0 : HashTable) (i : ℕ) (s u : Shared lk which)
      → Blocked t0 i s s
      → Others i s u
      → Blocked t0 i s u
  Others-Blocked t0 i s u b still = b
  Others-Blocked t0 i s v b (other {u} j apart o st) =
      Step-Blocked t0 i j s u v apart (Others-Blocked t0 i s u b o) st

  left-Blocked :
      (t0 : HashTable) (i : ℕ) (s : Shared lk which) (c : TableCall) (t : HashTable)
      → Inv lk which t0 s
      → s.places i ≡ loaded c t
      → OnEmptyBucket c t
      → Blocked t0 i (left lk which s i c t) (left lk which s i c t)
        × ((left lk which s i c t).table ≡ s.table)
  left-Blocked t0 i s c t inv e empty =
      let unlocks = (run_unlocks which c t).1 empty in
      let (writes, same) = delete_keeps which c t empty in
      let mine = inv.mine i writing in
      (
        record {
          inv = Step-Inv lk which t0 i s _ inv (leaves c t e);
          holds = covers-writing _ (ground arith);
          table = refl;
          log = refl;
        },
        ground (arith, inv.fresh i c t e),
      )

  -- A thread that deletes a key whose bucket is empty ends its call with the table's lock held for
  -- writing and the table as it was, and for as long as it does not come back, no other thread's call
  -- of the table's operations ends, nor does the table change.
  pub empty_delete_blocks :
      {t0 : HashTable} {s u : Shared lk which} (i : ℕ) (c : TableCall) (t : HashTable)
      → Reach lk which t0 s
      → s.places i ≡ loaded c t
      → OnEmptyBucket c t
      → Others i (left lk which s i c t) u
      → (lk.holds u.lock i ≡ some writing)
        × (u.table ≡ s.table)
        × (u.log ≡ (c, (run which c t).result) ∷ s.log)
  empty_delete_blocks {t0} {s} {u} i c t r e empty o =
      let (start', same) = left-Blocked t0 i s c t (Reach-Inv lk which t0 r) e empty in
      let b = Others-Blocked t0 i (left lk which s i c t) u start' o in
      (b.holds, b.table ∙ same, b.log)

  -- the whole of a call, while nobody else steps
  abbrev pub alone_call : Shared lk which → ℕ → TableCall → lk.State → Shared lk which
  alone_call s i c l =
      left lk which
        (record s {
          lock = l;
          places =
              update (update (update s.places i (at_lock c)) i (entered c)) i (loaded c s.table);
        })
        i c s.table

  -- so many steps of one thread, with no other's between them
  pub data Own : ℕ → (i : ℕ) → Shared lk which → Shared lk which → Type 0 where
    no_step : {i : ℕ} {s : Shared lk which} → Own zero i s s
    own_step :
        {n i : ℕ} {s u v : Shared lk which} → Own n i s u → Step lk which i u v → Own (suc n) i s v

  pub alone_call-Own :
      (s : Shared lk which) (i : ℕ) (c : TableCall) (l : lk.State)
      → s.places i ≡ outside
      → lk.acquire s.lock i (mode_of c) ≡ some l
      → Own 4 i s (alone_call s i c l)
  alone_call-Own s i c l e got =
      own_step
        (own_step
          (own_step (own_step no_step (calls c e))
            (enters c l (update_here s.places i (at_lock c)) got))
          (loads c (update_here (update s.places i (at_lock c)) i (entered c))))
        (leaves c s.table
          (update_here (update (update s.places i (at_lock c)) i (entered c)) i (loaded c s.table)))

  pub alone_call-Reach :
      (t0 : HashTable) (s : Shared lk which) (i : ℕ) (c : TableCall) (l : lk.State)
      → Reach lk which t0 s
      → s.places i ≡ outside
      → lk.acquire s.lock i (mode_of c) ≡ some l
      → Reach lk which t0 (alone_call s i c l)
  alone_call-Reach t0 s i c l r e got =
      later i
        (later i
          (later i (later i r (calls c e)) (enters c l (update_here s.places i (at_lock c)) got))
          (loads c (update_here (update s.places i (at_lock c)) i (entered c))))
        (leaves c s.table
          (update_here (update (update s.places i (at_lock c)) i (entered c)) i (loaded c s.table)))

  alone_call_free :
      (s : Shared lk which) (i : ℕ) (c : TableCall) (l : lk.State)
      → ((j : ℕ) → lk.holds s.lock j ≡ none)
      → lk.acquire s.lock i (mode_of c) ≡ some l
      → (OnEmptyBucket c s.table → ⊥) ↔ ((j : ℕ) → lk.holds (alone_call s i c l).lock j ≡ none)
  alone_call_free s i c l free got = elim (Bool-cases (run which c s.table).unlocks) [
    | inl u ↦ (
      λ no_delete j. ground (
        arith,
        free j,
        lk.release-mine l i,
        lk.release-others l i j,
        lk.acquire-others s.lock l i j (mode_of c) got,
      ),
      λ free' empty. ground (arith, (run_unlocks which c s.table).1 empty),
    )
    | inr u ↦ (
      λ no_delete. absurd (no_delete ((run_unlocks which c s.table).0 u)),
      λ free' empty. ground (
        arith,
        free' i,
        (delete_keeps which c s.table empty).0,
        lk.acquire-covers s.lock l i (mode_of c) got,
        covers-none writing,
      ),
    )
  ]

  -- Where nobody holds the lock, the next four steps of a thread that makes a call, if no other thread
  -- steps between them, take the call to its end, with the result and the table of the operation on
  -- the table as it is, and nobody holds the lock afterwards exactly when the call is no deletion of a
  -- key whose bucket is empty. That other threads leave it these steps is not said.
  pub call_ends :
      {t0 : HashTable} {s : Shared lk which} (i : ℕ) (c : TableCall)
      → Reach lk which t0 s
      → s.places i ≡ outside
      → ((j : ℕ) → lk.holds s.lock j ≡ none)
      → (u : Shared lk which) × Own 4 i s u
        × Reach lk which t0 u
        × (u.places i ≡ outside)
        × (u.log ≡ (c, (run which c s.table).result) ∷ s.log)
        × (u.table ≡ (run which c s.table).table)
        × ((OnEmptyBucket c s.table → ⊥) ↔ ((j : ℕ) → lk.holds u.lock j ≡ none))
  call_ends {t0} {s} i c r e free =
      let (l, got) = lk.acquire-free s.lock i (mode_of c) free in
      (
        alone_call s i c l,
        alone_call-Own s i c l e got,
        alone_call-Reach t0 s i c l r e got,
        ground arith,
        refl,
        elim (mode_cases (mode_of c)) [
          | inl m ↦ ground (arith, run-Reads which c s.table m)
          | inr m ↦ ground arith
        ],
        alone_call_free s i c l free got,
      )
