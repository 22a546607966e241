-- ===== src/Card/Threads/Whole.antt =====
-- No thread of the card serves a connection that was not set up as a whole.
use socket_to_rdma.Base.{
  ℕ, zero, suc, ◌≡◌, ◌≢◌, refl, sym, ◌⊎◌, inl, inr, false, Option, none, some, List, [], ◌∷◌, ◌++◌,
  ◌==◌, arith, ◌∙◌, ap, Bool-cases, All, All-append, Option-cases,
}
use mathlib.Core.List.{append-nil}
use socket_to_rdma.Card.Env.{Env}
use socket_to_rdma.Card.Loop.{Thread, Device, Turn, goes, returned, left, Completion}
use socket_to_rdma.Card.Server.{Card, served, connects, disconnects}
use socket_to_rdma.Card.Setup.{start_thread, connect_client_r_info}
use socket_to_rdma.Card.Setup.Accept.{MayMake, Values}
use socket_to_rdma.Card.Setup.Resources.{
  connection_made, card_made, connect-Makes, start_thread-Makes, all_or,
}
use socket_to_rdma.Card.Threads.{
  Worker, worker_at, put_worker, loops, Threads, start_worker, set_up, after_turn, take_turn,
  happens, is_over, then_happens, first_worker, card_main, new_worker, polls_on, with_worker,
}
use socket_to_rdma.Hash.Socket.{SocketHashTable}
use socket_to_rdma.Rdma.{create_thread, Fabric, Op, Setup, Result}
use socket_to_rdma.Rdma.Making.{Documented, Makes}

-- all that a connection is made of, and on the first also what the card listens with
abbrev pub IsMade : List Op → Type 0
IsMade ops = (rtn : List Op) × MayMake rtn × ((ops ≡ connection_made rtn) ⊎ (ops ≡ card_made rtn))

abbrev pub IsWhole : {W : Type 0} → Worker W → Type 0
IsWhole w = (loops w.stage ≡ false) ⊎ IsMade w.ops

All-put_worker :
    {A : Type 0} (P : A → Type 0) (i : ℕ) (x : A) (ws : List A)
    → P x
    → All P ws
    → All P (put_worker i x ws)
All-put_worker P i x [] p all = tt
All-put_worker P zero x (w ∷ ws) p (q, all) = (p, all)
All-put_worker P (suc i) x (w ∷ ws) p (q, all) = (q, All-put_worker P i x ws p all)

-- a property of what is there, if anything is
abbrev IfSome {ℓ} : {A : Type 0} → (A → Type ℓ) → Option A → Type ℓ
IfSome P none = Unit
IfSome P (some x) = P x

All-worker_at :
    {A : Type 0} (P : A → Type 0) (i : ℕ) (ws : List A) → All P ws → IfSome P (worker_at i ws)
All-worker_at P i [] all = tt
All-worker_at P zero (v ∷ ws) (q, all) = q
All-worker_at P (suc i) (v ∷ ws) (q, all) = All-worker_at P i ws all

-- a thread that goes on, with the same connection
same-IsWhole :
    {W : Type 0} (w : Worker W) (t : Thread W) → IsWhole w → IsWhole (record w { thread = t })
same-IsWhole w t h = h

module _ (fab : Fabric) (env : Env) (dev : ℕ → Device env.World) (malloc : Card env.World)
    (doc : Documented fab) (values : Values fab) where
  abbrev Whole : Threads fab env dev malloc → Type 0
  Whole s = All IsWhole s.workers

  -- a set-up that returns 0 has made a whole connection
  set_up-Whole :
      (s : Threads fab env dev malloc) (r : Result fab)
      → Whole s
      → (r.0 ≢ some 0) ⊎ IsMade r.1.ops
      → IfSome Whole (set_up fab env dev malloc s r)
  unfolding set_up start_worker
  set_up-Whole s (none, u) h is = tt
  set_up-Whole s (some ret, u) h is = elim (Bool-cases (ret == 0)) [
    | inr bad ↦ rw bad h
    | inl good ↦
        let zero' : ret ≡ 0 = ground arith in
        let made' : IsMade u.ops = elim is [
          | inl no' ↦ absurd (no' (ap some zero'))
          | inr yes' ↦ yes'
        ] in
        let more =
          All-append IsWhole s.workers (new_worker fab env dev malloc u.ops malloc ∷ []) h
            (inr made', tt) in
        elim (Bool-cases ((fab.call create_thread u.world).value == 0)) [
          | inl created ↦ rw (good, created) more
          | inr failed ↦ rw (good, failed) h
        ]
  ]

  -- what has made all of its resources from nothing, or has not returned 0
  made_all :
      (os : List Op) (s : Setup fab.World) (r : Result fab)
      → s.ops ≡ []
      → Makes fab doc os s r
      → (r.0 ≢ some 0) ⊎ (r.1.ops ≡ os)
  made_all os s (ret, t) fresh (ms, zs, split, ops, all) = elim (all_or fab doc values ret zs all) [
    | inl no' ↦ inl no'
    | inr none' ↦ inr (
        ops ∙ ap (λ l. l ++ ms) fresh ∙ sym (append-nil ms) ∙ ap (λ l. ms ++ l) (sym none') ∙ split)
  ]

  connect-IsMade :
      (fuel : ℕ) (w : fab.World)
      → let r = connect_client_r_info fab fuel (record { world = w; ops = [] }) in
        (r.0 ≢ some 0) ⊎ IsMade r.1.ops
  connect-IsMade fuel w =
      let s : Setup fab.World = record { world = w; ops = [] } in
      let (rtn, may, makes) = connect-Makes fab doc values fuel s in
      elim (made_all (connection_made rtn) s (connect_client_r_info fab fuel s) refl makes) [
        | inl no' ↦ inl no'
        | inr yes' ↦ inr (rtn, may, inl yes')
      ]

  start-IsMade :
      (fuel addr : ℕ) (w : fab.World)
      → let r = start_thread fab fuel addr (record { world = w; ops = [] }) in
        (r.0 ≢ some 0) ⊎ IsMade r.1.ops
  start-IsMade fuel addr w =
      let s : Setup fab.World = record { world = w; ops = [] } in
      let (rtn, may, makes) = start_thread-Makes fab doc values fuel addr s in
      elim (made_all (card_made rtn) s (start_thread fab fuel addr s) refl makes) [
        | inl no' ↦ inl no'
        | inr yes' ↦ inr (rtn, may, inr yes')
      ]

  turn-Whole :
      (fuel i : ℕ) (s : Threads fab env dev malloc) (w : Worker env.World) (wc : Completion)
      (t : Option (Turn env (dev i)))
      → Whole s
      → IsWhole w
      → IfSome Whole (after_turn fab env dev malloc fuel i s w wc t)
  unfolding after_turn
  turn-Whole fuel i s w wc none h is = tt
  turn-Whole fuel i s w wc (some (goes t)) h is =
      All-put_worker IsWhole i (record w { thread = t }) s.workers is h
  turn-Whole fuel i s w wc (some (returned v c)) h is =
      All-put_worker IsWhole i _ s.workers (inl refl) h
  turn-Whole fuel i s w wc (some (left (served c))) h is = All-put_worker IsWhole i _ s.workers is h
  turn-Whole fuel i s w wc (some (left (connects c))) h is =
      let w' : Worker env.World = record w { thread = polls_on fab env dev malloc wc c } in
      set_up-Whole (with_worker fab env dev malloc s i w' c) _
        (All-put_worker IsWhole i w' s.workers is h) (connect-IsMade fuel s.fabric)
  turn-Whole fuel i s w wc (some (left (disconnects c))) h is =
      All-put_worker IsWhole i _ s.workers (inl refl) h

  take_turn-Whole :
      (fuel i : ℕ) (s : Threads fab env dev malloc) (w : Option (Worker env.World))
      → Whole s
      → IfSome IsWhole w
      → IfSome Whole (take_turn fab env dev malloc fuel i s w)
  unfolding take_turn
  take_turn-Whole fuel i s none h is = tt
  take_turn-Whole fuel i s (some w) h is = elim (Bool-cases (loops w.stage)) [
    | inl on ↦ rw on (turn-Whole fuel i s w _ _ h is)
    | inr off ↦ rw off tt
  ]

  happens-Whole :
      (fuel i : ℕ) (s : Threads fab env dev malloc)
      → Whole s
      → IfSome Whole (happens fab env dev malloc fuel i s)
  unfolding happens
  happens-Whole fuel i s h = elim (Bool-cases (is_over s.workers)) [
    | inl over ↦ rw over tt
    | inr going ↦
        rw going
          (take_turn-Whole fuel i s (worker_at i s.workers) h (All-worker_at IsWhole i s.workers h))
  ]

  then-Whole :
      (fuel : ℕ) (turns : List ℕ) (o : Option (Threads fab env dev malloc))
      → IfSome Whole o
      → IfSome Whole (then_happens fab env dev malloc fuel turns o)
  unfolding then_happens
  then-Whole fuel [] none h = tt
  then-Whole fuel (i ∷ turns) none h = tt
  then-Whole fuel [] (some s) h = h
  then-Whole fuel (i ∷ turns) (some s) h = then-Whole fuel turns _ (happens-Whole fuel i s h)

  first-Whole :
      (w : env.World) (t : SocketHashTable) (r : Result fab)
      → (r.0 ≢ some 0) ⊎ IsMade r.1.ops
      → IfSome Whole (first_worker fab env dev malloc w t r)
  unfolding first_worker
  first-Whole w t (none, u) is = tt
  first-Whole w t (some ret, u) is = elim (Bool-cases (ret == 0)) [
    | inr bad ↦ rw bad tt
    | inl good ↦
        let zero' : ret ≡ 0 = ground arith in
        rw good (elim is [ inl no' ↦ absurd (no' (ap some zero')) | inr yes' ↦ (inr yes', tt) ])
  ]

  -- Whatever requests its connections bring and in whatever order its threads take their turns, each
  -- thread of the card that goes on with the loop of its connection, the first or one that was asked
  -- for, has had every resource of that connection made and none destroyed, but for the memory of
  -- the return message, whose registration is not tested: a set-up that fails starts no thread.
  -- `none` is a card whose start fails, or a sequence in which a turn cannot be taken or does not
  -- come to its end. The library's failures set `errno` as documented, and its values are as
  -- documented.
  pub card_main-IsWhole :
      (fuel addr : ℕ) (w : env.World) (f : fab.World) (t : SocketHashTable) (turns : List ℕ)
      → (card_main fab env dev malloc fuel addr w f t turns ≡ none)
        ⊎ ((s : Threads fab env dev malloc) × (card_main fab env dev malloc fuel addr w f t turns
              ≡ some s)
            × All IsWhole s.workers)
  unfolding card_main
  card_main-IsWhole fuel addr w f t turns =
      let h = then-Whole fuel turns _ (
        first-Whole w t (start_thread fab fuel addr (record { world = f; ops = [] }))
          (start-IsMade fuel addr f)) in
      elim (Option-cases (card_main fab env dev malloc fuel addr w f t turns)) [
        | inl none' ↦ inl none'
        | inr (s, e) ↦ inr (s, e, rw e at h)
      ]
