-- ===== src/Rdma/Making.antt =====
-- What a sequence of fallible steps with early returns makes, by what each of its steps makes.
use socket_to_rdma.Base.{
  ℕ, zero, suc, ◌+◌, ◌-◌, ◌^◌, ◌<◌, ◌≡◌, ◌≢◌, refl, sym, false, Option, none, some, List, [], ◌∷◌,
  ◌++◌, ◌==◌, neg32, minus_one, arith, ◌∙◌, ap, Bool-cases, inl, inr,
}
use mathlib.Core.List.{append_assoc, append-nil}
use socket_to_rdma.Rdma.{
  Resource, CmCall, ack_cm_event, EventType, Op, made, Fabric, Setup, in_world, ends, call_or,
  make_or, then_or, wait_or, no_memory, process_rdma_cm_event, reap, process_work_completion_events,
  get_cq_event, req_notify_cq,
}

pub neg32-ne : (e : ℕ) → 0 < e → e < 2 ^ 31 → neg32 e ≢ 0
neg32-ne e h l = λ p. omega arith

pub some-ne : (v : ℕ) → (v == 0) ≡ false → some v ≢ some 0
some-ne v h e = ground arith

pub some_ne : (v : ℕ) → v ≢ 0 → some v ≢ some 0
some_ne v h e = ground arith

pub none_ne : {A : Type 0} {a : A} → none ≢ some a
none_ne e = cc

-- what the manual pages say of a failure: `errno` is set, to a positive `int`
pub record Documented (fab : Fabric) : Type 0 where
  pub call-errno :
      (c : CmCall) (w : fab.World)
      → ((fab.call c w).value == 0) ≡ false
      → (0 < (fab.call c w).errno) × ((fab.call c w).errno < 2 ^ 31)
  pub create-errno :
      (r : Resource) (w : fab.World)
      → (fab.create r w).ok ≡ false
      → (0 < (fab.create r w).errno) × ((fab.create r w).errno < 2 ^ 31)

module _ (fab : Fabric) where
  pub cm_event-ops :
      (e : EventType) (s : Setup fab.World) → (process_rdma_cm_event fab e s).1.ops ≡ s.ops
  unfolding process_rdma_cm_event
  cm_event-ops e s = ground arith

  reap-ops :
      (fuel max total : ℕ) (found : List ℕ) (s : Setup fab.World)
      → (reap fab fuel max total found s).1.ops ≡ s.ops
  unfolding reap
  reap-ops zero max total found s = refl
  reap-ops (suc fuel) max total found s =
      let (a, ss) = fab.poll_cq s.world (max - total) in
      let again = reap-ops fuel max (total + a.value) (found ++ ss) (in_world fab s a.world) in
      ground (arith, again)

  pub completions-ops :
      (fuel max : ℕ) (s : Setup fab.World)
      → (process_work_completion_events fab fuel max s).1.ops ≡ s.ops
  unfolding process_work_completion_events call_or
  completions-ops fuel max s =
      let w = (fab.call get_cq_event s.world).world in
      let w' = (fab.call req_notify_cq w).world in
      let same = reap-ops fuel max 0 [] (in_world fab s w') in ground (arith, same)

  -- a value that the polling returns is an `int` where those of the polls are
  reap-int :
      ((w : fab.World) (n : ℕ) → (fab.poll_cq w n).0.value < 2 ^ 32)
      → (fuel max total : ℕ) (found : List ℕ) (s : Setup fab.World) (v : ℕ) → total < max
      → max < 2 ^ 31
      → (reap fab fuel max total found s).0 ≡ some v
      → v < 2 ^ 32
  unfolding reap
  reap-int int zero max total found s v below small e = cc
  reap-int int (suc fuel) max total found s v below small e =
      let (a, ss) = fab.poll_cq s.world (max - total) in
      let again =
        reap-int int fuel max (total + a.value) (found ++ ss) (in_world fab s a.world) v in
      ground (arith, int s.world (max - total), again)

  pub completions-int :
      ((w : fab.World) (n : ℕ) → (fab.poll_cq w n).0.value < 2 ^ 32)
      → (fuel max : ℕ) (s : Setup fab.World) (v : ℕ) → 0 < max
      → max < 2 ^ 31
      → (process_work_completion_events fab fuel max s).0 ≡ some v
      → v < 2 ^ 32
  unfolding process_work_completion_events call_or
  completions-int int fuel max s v some' small e =
      let w = (fab.call get_cq_event s.world).world in
      let w' = (fab.call req_notify_cq w).world in
      let same = reap-int int fuel max 0 [] (in_world fab s w') v in ground (arith, same)

module _ (fab : Fabric) (doc : Documented fab) where
  -- The result has made the first of these resources, and all if it is 0.
  abbrev pub Makes : List Op → Setup fab.World → Option ℕ × Setup fab.World → Type 0
  Makes os s (ret, t) =
      (ms : List Op) × (zs : List Op) × (ms ++ zs ≡ os)
      × (t.ops ≡ s.ops ++ ms)
      × (ret ≡ some 0 → zs ≡ [])

  pub Makes-nothing :
      (s : Setup fab.World) (x : Option ℕ × Setup fab.World) → x.1.ops ≡ s.ops → Makes [] s x
  Makes-nothing s x h = ([], [], refl, h ∙ sym (append-nil s.ops), λ e. refl)

  pub Makes-none :
      (os : List Op) (s t : Setup fab.World) (v : ℕ)
      → t.ops ≡ s.ops
      → v ≢ 0
      → Makes os s (some v, t)
  Makes-none os s t v h bad =
      ([], os, refl, h ∙ sym (append-nil s.ops), λ e. absurd (some_ne v bad e))

  pub call_or-Makes :
      (c : CmCall) (k : Setup fab.World → Option ℕ × Setup fab.World) (os : List Op)
      → ((t : Setup fab.World) → Makes os t (k t))
      → (s : Setup fab.World) → Makes os s (call_or fab c k s)
  unfolding call_or
  call_or-Makes c k os h s = elim (Bool-cases ((fab.call c s.world).value == 0)) [
    | inl good ↦ rw good (h (in_world fab s (fab.call c s.world).world))
    | inr bad ↦
        let (p, l) = doc.call-errno c s.world bad in
        rw bad (Makes-none os s (in_world fab s (fab.call c s.world).world) _ refl (neg32-ne _ p l))
  ]

  pub make_or-Makes :
      (r : Resource) (err : ℕ → ℕ) (k : Setup fab.World → Option ℕ × Setup fab.World) (os : List Op)
      → ((e : ℕ) → 0 < e → e < 2 ^ 31 → err e ≢ 0)
      → ((t : Setup fab.World) → Makes os t (k t))
      → (s : Setup fab.World) → Makes (made r ∷ os) s (make_or fab r err k s)
  unfolding make_or
  make_or-Makes r err k os bad_err h s = elim (Bool-cases (fab.create r s.world).ok) [
    | inl good ↦
        let t : Setup fab.World = record {
          world = (fab.create r s.world).world;
          ops = s.ops ++ made r ∷ [];
        } in
        let (ms, zs, split, ops, all) = h t in
        rw good (
          made r ∷ ms,
          zs,
          ap (λ l. made r ∷ l) split,
          ops ∙ append_assoc s.ops (made r ∷ []) ms,
          all,
        )
    | inr bad ↦
        let (p, l) = doc.create-errno r s.world bad in
        rw bad (
          Makes-none (made r ∷ os) s (in_world fab s (fab.create r s.world).world) _ refl
            (bad_err _ p l))
  ]

  pub then_or-Makes :
      (os qs : List Op) (s : Setup fab.World) (k : Setup fab.World → Option ℕ × Setup fab.World)
      (ret : Option ℕ) (t : Setup fab.World)
      → Makes os s (ret, t)
      → Makes qs t (k t)
      → Makes (os ++ qs) s (then_or fab (ret, t) k)
  unfolding then_or
  then_or-Makes os qs s k none t (ms, zs, split, ops, all) h = (
    ms,
    zs ++ qs,
    sym (append_assoc ms zs qs) ∙ ap (λ l. l ++ qs) split,
    ops,
    λ e. absurd (none_ne e),
  )
  then_or-Makes os qs s k (some v) t (ms, zs, split, ops, all) h = elim (Bool-cases (v == 0)) [
    | inl good ↦
        let is_zero : some v ≡ some 0 = ap some (ground arith) in
        let whole : ms ≡ os = sym (append-nil ms) ∙ ap (λ l. ms ++ l) (sym (all is_zero)) ∙ split in
        let (ms', zs', split', ops', all') = h in
        rw good (
          ms ++ ms',
          zs',
          append_assoc ms ms' zs' ∙ (λ i. whole i ++ split' i),
          ops' ∙ ap (λ l. l ++ ms') ops ∙ append_assoc s.ops ms ms',
          all',
        )
    | inr bad ↦ rw bad (
      ms,
      zs ++ qs,
      sym (append_assoc ms zs qs) ∙ ap (λ l. l ++ qs) split,
      ops,
      λ e. absurd (some-ne v bad e),
    )
  ]

  pub wait_or-Makes :
      (e : EventType) (k : Setup fab.World → Option ℕ × Setup fab.World) (os : List Op)
      → ((t : Setup fab.World) → Makes os t (k t))
      → (s : Setup fab.World) → Makes os s (wait_or fab e k s)
  wait_or-Makes e k os h s =
      then_or-Makes [] os s (call_or fab ack_cm_event k) (process_rdma_cm_event fab e s).0
        (process_rdma_cm_event fab e s).1
        (Makes-nothing s (process_rdma_cm_event fab e s) (cm_event-ops fab e s))
        (call_or-Makes ack_cm_event k os h (process_rdma_cm_event fab e s).1)

  -- a part of the set-up with what it makes
  abbrev pub Making : List Op → Type 0
  Making os =
      (k : Setup fab.World → Option ℕ × Setup fab.World) × ((s : Setup fab.World)
        → Makes os s (k s))

  abbrev pub calling : {os : List Op} → CmCall → Making os → Making os
  calling c (k, h) = (call_or fab c k, call_or-Makes c k _ h)

  abbrev pub making :
      {os : List Op} (r : Resource) (err : ℕ → ℕ)
      → ((e : ℕ) → 0 < e → e < 2 ^ 31 → err e ≢ 0)
      → Making os
      → Making (made r ∷ os)
  making r err bad (k, h) = (make_or fab r err k, make_or-Makes r err k _ bad h)

  abbrev pub waiting_for : {os : List Op} → EventType → Making os → Making os
  waiting_for e (k, h) = (wait_or fab e k, wait_or-Makes e k _ h)

  -- what makes nothing
  abbrev pub plain :
      (k : Setup fab.World → Option ℕ × Setup fab.World)
      → ((s : Setup fab.World) → (k s).1.ops ≡ s.ops)
      → Making []
  plain k h = (k, λ s. Makes-nothing s (k s) (h s))

  abbrev pub done_with : Making []
  done_with = plain (ends fab 0) (λ s. refl)

  pub minus_one-ne : (e : ℕ) → 0 < e → e < 2 ^ 31 → minus_one ≢ 0
  minus_one-ne e h l p = omega arith

  pub no_memory-ne : (e : ℕ) → 0 < e → e < 2 ^ 31 → no_memory ≢ 0
  no_memory-ne e h l p = omega arith

  abbrev pub joining : {os qs : List Op} → Making os → Making qs → Making (os ++ qs)
  joining (f, hf) (k, hk) =
      (λ s. then_or fab (f s) k, λ s. then_or-Makes _ _ s k (f s).0 (f s).1 (hf s) (hk (f s).1))
