-- ===== src/Rdma/Ending.antt =====
-- A sequence of calls with early returns ends, where its parts do. The polling for completions does
-- where each poll brings one or fails.
use socket_to_rdma.Base.{
  ℕ, zero, suc, ◌+◌, ◌-◌, ◌<◌, ◌≤◌, ◌≢◌, refl, Option, none, some, List, [], ◌++◌, ◌==◌, ltb, arith,
  Bool-cases, inl, inr,
}
use socket_to_rdma.Rdma.{
  Resource, CmCall, EventType, Fabric, Setup, ack_cm_event, req_notify_cq, get_cq_event, in_world,
  ends, call_or, make_or, then_or, process_rdma_cm_event, reap, process_work_completion_events,
}

pub some-ne-none : {A : Type 0} (a : A) → some a ≢ none
some-ne-none a h = cc

module _ (fab : Fabric) where
  abbrev pub Ends : (Setup fab.World → Option ℕ × Setup fab.World) → Type 0
  Ends k = (s : Setup fab.World) → (k s).0 ≢ none

  abbrev pub Ending : Type 0
  Ending = (k : Setup fab.World → Option ℕ × Setup fab.World) × Ends k

  pub call_or-Ends :
      (c : CmCall) (k : Setup fab.World → Option ℕ × Setup fab.World)
      → Ends k
      → Ends (call_or fab c k)
  unfolding call_or
  call_or-Ends c k h s = elim (Bool-cases ((fab.call c s.world).value == 0)) [
    | inl good ↦ rw good (h (in_world fab s (fab.call c s.world).world))
    | inr bad ↦ rw bad (some-ne-none _)
  ]

  pub make_or-Ends :
      (r : Resource) (err : ℕ → ℕ) (k : Setup fab.World → Option ℕ × Setup fab.World)
      → Ends k
      → Ends (make_or fab r err k)
  unfolding make_or
  make_or-Ends r err k h s = elim (Bool-cases (fab.create r s.world).ok) [
    | inl good ↦ rw good (h _)
    | inr bad ↦ rw bad (some-ne-none _)
  ]

  -- only the state that the first step leaves matters to the second
  pub then_or_at-Ends :
      (x : Option ℕ × Setup fab.World) (k : Setup fab.World → Option ℕ × Setup fab.World)
      → x.0 ≢ none
      → (k x.1).0 ≢ none
      → (then_or fab x k).0 ≢ none
  unfolding then_or
  then_or_at-Ends (none, t) k hx h = absurd (hx refl)
  then_or_at-Ends (some ret, t) k hx h = elim (Bool-cases (ret == 0)) [
    | inl good ↦ rw good h
    | inr bad ↦ rw bad (some-ne-none _)
  ]

  pub then_or-Ends :
      (x : Option ℕ × Setup fab.World) (k : Setup fab.World → Option ℕ × Setup fab.World)
      → x.0 ≢ none
      → Ends k
      → (then_or fab x k).0 ≢ none
  then_or-Ends x k hx h = then_or_at-Ends x k hx (h x.1)

  pub cm_event-Ends : (e : EventType) → Ends (process_rdma_cm_event fab e)
  unfolding process_rdma_cm_event
  cm_event-Ends e s h = ground arith

  abbrev pub calling : CmCall → Ending → Ending
  calling c (k, h) = (call_or fab c k, call_or-Ends c k h)

  abbrev pub making : Resource → (ℕ → ℕ) → Ending → Ending
  making r err (k, h) = (make_or fab r err k, make_or-Ends r err k h)

  abbrev pub joining : Ending → Ending → Ending
  joining (f, hf) (k, h) = (λ s. then_or fab (f s) k, λ s. then_or-Ends (f s) k (hf s) h)

  abbrev pub waiting_for : EventType → Ending → Ending
  waiting_for e k = joining (process_rdma_cm_event fab e, cm_event-Ends e) (calling ack_cm_event k)

  abbrev pub returning : Ending
  returning = (ends fab 0, λ s. some-ne-none _)

  module _ (comes : (w : fab.World) (n : ℕ) → 0 < n → 0 < (fab.poll_cq w n).0.value) where
    reap-Ends :
        (fuel max total : ℕ) (found : List ℕ)
        → total < max
        → max < total + fuel + 1
        → Ends (reap fab fuel max total found)
    unfolding reap
    reap-Ends zero max total found below enough s = absurd (omega arith)
    reap-Ends (suc fuel) max total found below enough s =
        let (a, ss) = fab.poll_cq s.world (max - total) in
        let one = comes s.world (max - total) (omega arith) in
        elim (Bool-cases (ltb (total + a.value) max)) [
          | inl more ↦
              let rest =
                reap-Ends fuel max (total + a.value) (found ++ ss) (ground arith) (omega arith)
                  (in_world fab s a.world) in
              ground (arith, rest)
          | inr enough' ↦ ground arith
        ]

    pub completions-Ends :
        (fuel max : ℕ) → 0 < max → max ≤ fuel → Ends (process_work_completion_events fab fuel max)
    unfolding process_work_completion_events
    completions-Ends fuel max some' enough =
        (calling get_cq_event (
          calling req_notify_cq
            (reap fab fuel max 0 [], reap-Ends fuel max 0 [] (omega arith) (omega arith)))).1
