-- ===== src/Hash/Locked/Order.antt =====
-- What the lock gives the operations of the card's tables: in whatever order the threads step, it is
-- as if the calls had been made one after the other, in the order in which they ended.
use socket_to_rdma.Base.{
  ℕ, ◌≡◌, ◌≢◌, ◌⊎◌, refl, sym, ◌∙◌, ap, true, Option, none, some, ◌==◌, inl, inr, Bool-cases, arith,
  [],
}
use socket_to_rdma.Hash.Table.{HashTable}
use socket_to_rdma.Hash.Locked.{
  Mode, reading, writing, CardTable, rdma_ht, sock_ht, TableCall, call_insert, call_search,
  call_search_value, call_delete, call_delete_value, mode_of, run, locked_search,
  locked_search_value, locked_socket_search, locked_socket_search_value,
}
use socket_to_rdma.Hash.Locked.System.{
  covers, compatible, Rwlock, Place, outside, at_lock, entered, loaded, update, Shared, left, Step,
  calls, enters, loads, leaves, Reach, start, later, replay, Agrees,
}

-- how a thread between lock and unlock has asked for the lock
abbrev pub within : Place → Option Mode
within outside = none
within (at_lock c) = none
within (entered c) = some (mode_of c)
within (loaded c t) = some (mode_of c)

pub run-Reads :
    (which : CardTable) (c : TableCall) (t : HashTable)
    → mode_of c ≡ reading
    → (run which c t).table ≡ t
unfolding locked_search locked_search_value locked_socket_search locked_socket_search_value
run-Reads rdma_ht (call_search key) t e = refl
run-Reads rdma_ht (call_search_value value) t e = refl
run-Reads sock_ht (call_search key) t e = refl
run-Reads sock_ht (call_search_value value) t e = refl
run-Reads which (call_insert malloc key value) t e = cc
run-Reads which (call_delete key) t e = cc
run-Reads which (call_delete_value value) t e = cc

pub mode_cases : (m : Mode) → (m ≡ reading) ⊎ (m ≡ writing)
mode_cases reading = inl refl
mode_cases writing = inr refl

pub covers-writing : (h : Option Mode) → covers h writing ≡ true → h ≡ some writing
covers-writing none e = cc
covers-writing (some reading) e = cc
covers-writing (some writing) e = refl

compatible-writing : (h : Option Mode) → compatible writing h ≡ true → h ≡ none
compatible-writing none e = refl
compatible-writing (some reading) e = cc
compatible-writing (some writing) e = cc

pub covers-none : (m : Mode) → covers none m ≢ true
covers-none reading e = cc
covers-none writing e = cc

module _ (lk : Rwlock) (which : CardTable) (t0 : HashTable) where
  -- who is between lock and unlock holds the lock, a writer alone, and has read the present table
  pub record Inv (s : Shared lk which) : Type 0 where
    pub mine :
        (i : ℕ) (m : Mode) → within (s.places i) ≡ some m → covers (lk.holds s.lock i) m ≡ true
    pub alone : (i j : ℕ) → j ≢ i → lk.holds s.lock i ≡ some writing → lk.holds s.lock j ≡ none
    pub fresh : (i : ℕ) (c : TableCall) (t : HashTable) → s.places i ≡ loaded c t → t ≡ s.table
    pub order : s.table ≡ replay which t0 s.log
    pub agree : Agrees which t0 s.log

  start-Inv :
      (l : lk.State)
      → ((j : ℕ) → lk.holds l j ≡ none)
      → Inv (record { lock = l; table = t0; places = λ j. outside; log = [] })
  start-Inv l none' = record {
    mine = λ i m e. cc;
    alone = λ i j apart e. none' j;
    fresh = λ i c t e. cc;
    order = refl;
    agree = tt;
  }

  module _ (s : Shared lk which) (inv : Inv s) (i : ℕ) where
    calls-Inv :
        (c : TableCall)
        → s.places i ≡ outside
        → Inv (record s { places = update s.places i (at_lock c) })
    calls-Inv c e = record {
      mine = λ j m w. ground (arith, inv.mine j m);
      alone = inv.alone;
      fresh = λ j d t w. ground (arith, inv.fresh j d t);
      order = inv.order;
      agree = inv.agree;
    }

    loads-Inv :
        (c : TableCall)
        → s.places i ≡ entered c
        → Inv (record s { places = update s.places i (loaded c s.table) })
    loads-Inv c e = record {
      mine = λ j m w. ground (arith, inv.mine j m, inv.mine i m);
      alone = inv.alone;
      fresh = λ j d t w. ground (arith, inv.fresh j d t);
      order = inv.order;
      agree = inv.agree;
    }

    enters-alone :
        (c : TableCall) (l : lk.State)
        → lk.acquire s.lock i (mode_of c) ≡ some l
        → (j k : ℕ) → k ≢ j
        → lk.holds l j ≡ some writing
        → lk.holds l k ≡ none
    enters-alone c l got j k apart w = ground (
      arith,
      lk.acquire-mine s.lock l i (mode_of c) got,
      lk.acquire-compatible s.lock l i j (mode_of c) got,
      lk.acquire-compatible s.lock l i k (mode_of c) got,
      lk.acquire-others s.lock l i j (mode_of c) got,
      lk.acquire-others s.lock l i k (mode_of c) got,
      compatible-writing (lk.holds s.lock k),
      inv.alone j k,
      inv.alone i k,
    )

    enters-Inv :
        (c : TableCall) (l : lk.State)
        → s.places i ≡ at_lock c
        → lk.acquire s.lock i (mode_of c) ≡ some l
        → Inv (record s { lock = l; places = update s.places i (entered c) })
    enters-Inv c l e got = record {
      mine = λ j m w. ground (
        arith,
        inv.mine j m,
        lk.acquire-covers s.lock l i (mode_of c) got,
        lk.acquire-others s.lock l i j (mode_of c) got,
      );
      alone = enters-alone c l got;
      fresh = λ j d t w. ground (arith, inv.fresh j d t);
      order = inv.order;
      agree = inv.agree;
    }

    left_lock :
        (c : TableCall) (t : HashTable) (j : ℕ)
        → let l = (left lk which s i c t).lock in
          (j ≢ i → lk.holds l j ≡ lk.holds s.lock j)
          × ((lk.holds l i ≡ none) ⊎ (lk.holds l i ≡ lk.holds s.lock i))
    left_lock c t j = elim (Bool-cases (run which c t).unlocks) [
      | inl u ↦ (
        λ apart. ground (arith, lk.release-others s.lock i j apart),
        inl (ground (arith, lk.release-mine s.lock i)),
      )
      | inr u ↦ (λ apart. ground arith, inr (ground arith))
    ]

    left_table :
        (c : TableCall) (t : HashTable)
        → s.places i ≡ loaded c t
        → ((mode_of c ≡ reading) × ((left lk which s i c t).table ≡ s.table))
          ⊎ ((lk.holds s.lock i ≡ some writing)
              × ((left lk which s i c t).table ≡ (run which c t).table))
    left_table c t e = elim (mode_cases (mode_of c)) [
      | inl m ↦ inl (m, ground arith)
      | inr m ↦ inr (covers-writing _ (ground (arith, inv.mine i writing)), ground arith)
    ]

    leaves-order :
        (c : TableCall) (t : HashTable)
        → s.places i ≡ loaded c t
        → (left lk which s i c t).table ≡ (run which c (replay which t0 s.log)).table
    leaves-order c t e =
        let now : t ≡ replay which t0 s.log = inv.fresh i c t e ∙ inv.order in
        elim (left_table c t e) [
          | inl (m, same) ↦ same ∙ inv.order ∙ sym (run-Reads which c (replay which t0 s.log) m)
          | inr (w, new) ↦ new ∙ ap (λ u. (run which c u).table) now
        ]

    leaves-fresh :
        (c : TableCall) (t : HashTable)
        → s.places i ≡ loaded c t
        → (j : ℕ) (d : TableCall) (u : HashTable) → update s.places i outside j ≡ loaded d u
        → u ≡ (left lk which s i c t).table
    leaves-fresh c t e j d u h = elim (Bool-cases (j == i)) [
      | inl a ↦ ground arith
      | inr a ↦ elim (left_table c t e) [
        | inl (m, same) ↦ ground (arith, inv.fresh j d u)
        | inr (w, new) ↦
            absurd (covers-none (mode_of d) (ground (arith, inv.alone i j, inv.mine j (mode_of d))))
      ]
    ]

    leaves-Inv :
        (c : TableCall) (t : HashTable) → s.places i ≡ loaded c t → Inv (left lk which s i c t)
    leaves-Inv c t e = record {
      mine = λ j m w. ground (arith, inv.mine j m, (left_lock c t j).0);
      alone = λ j k apart w. ground (
        arith,
        inv.alone j k,
        (left_lock c t j).0,
        (left_lock c t j).1,
        (left_lock c t k).0,
        (left_lock c t k).1,
      );
      fresh = leaves-fresh c t e;
      order = leaves-order c t e;
      agree = (ap (λ u. (run which c u).result) (inv.fresh i c t e ∙ inv.order), inv.agree);
    }

  pub Step-Inv : (i : ℕ) (s u : Shared lk which) → Inv s → Step lk which i s u → Inv u
  Step-Inv i s _ inv (calls c e) = calls-Inv s inv i c e
  Step-Inv i s _ inv (enters c l e got) = enters-Inv s inv i c l e got
  Step-Inv i s _ inv (loads c e) = loads-Inv s inv i c e
  Step-Inv i s _ inv (leaves c t e) = leaves-Inv s inv i c t e

  pub Reach-Inv : {s : Shared lk which} → Reach lk which t0 s → Inv s
  Reach-Inv (start l none') = start-Inv l none'
  Reach-Inv (later {s} {u} i r st) = Step-Inv i s u (Reach-Inv r) st

  -- However the threads of the card step, calling the operations of one table, the table is the one
  -- behind the calls that have ended, made one after the other in the order in which they ended, and
  -- each of them has the result of that order, as it stands at its unlock.
  pub Reach-Agrees :
      {s : Shared lk which}
      → Reach lk which t0 s
      → (s.table ≡ replay which t0 s.log) × Agrees which t0 s.log
  Reach-Agrees r = let inv = Reach-Inv r in (inv.order, inv.agree)
