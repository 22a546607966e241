-- ===== src/Card/Setup/Accept.antt =====
-- What the acceptance of a connection makes, whose value is not tested against 0.
use socket_to_rdma.Base.{
  ℕ, ◌^◌, ◌<◌, ◌≡◌, ◌⊎◌, refl, sym, true, Option, none, some, List, [], ◌∷◌, ◌++◌, ◌==◌, arith, ◌∙◌,
  ap, Bool-cases, inl, inr, is_neg,
}
use mathlib.Core.List.{append-nil, append_assoc}
use socket_to_rdma.Rdma.{
  CmCall, rtn_mr, client_metadata_mr, accept, ack_cm_event, post_recv, connect_request, established,
  Op, made, Fabric, Setup, in_world, call_or, make_or, process_rdma_cm_event,
  process_work_completion_events,
}
use socket_to_rdma.Rdma.Making.{cm_event-ops, completions-ops, completions-int}
use socket_to_rdma.Card.Setup.{
  with_made, make_any, post_recv_or, is_set_up, expect_one, confirmed, accept_established,
  accept_client_connection,
}

abbrev pub MayMake : List Op → Type 0
MayMake rtn = (rtn ≡ []) ⊎ (rtn ≡ made rtn_mr ∷ [])

-- what the manual pages say of values: a post that fails returns a number of `errno.h`, and
-- `ibv_poll_cq` returns an `int`
pub record Values (fab : Fabric) : Type 0 where
  pub post_recv-errno : (w : fab.World) → (fab.call post_recv w).value < 2 ^ 31
  pub poll_cq-int : (w : fab.World) (n : ℕ) → (fab.poll_cq w n).0.value < 2 ^ 32

module _ (fab : Fabric) (values : Values fab) where
  -- The result is an `int`, and the return message may be what is made.
  abbrev Adds : Setup fab.World → Option ℕ × Setup fab.World → Type 0
  Adds s (ret, t) =
      ((v : ℕ) → ret ≡ some v → v < 2 ^ 32) × (rtn : List Op) × MayMake rtn × (t.ops ≡ s.ops ++ rtn)

  Adds-nothing :
      (s t : Setup fab.World) (ret : Option ℕ)
      → ((v : ℕ) → ret ≡ some v → v < 2 ^ 32)
      → t.ops ≡ s.ops
      → Adds s (ret, t)
  Adds-nothing s t ret int e = (int, [], inl refl, e ∙ sym (append-nil s.ops))

  call_or-Adds :
      (c : CmCall) (k : Setup fab.World → Option ℕ × Setup fab.World)
      → ((t : Setup fab.World) → Adds t (k t))
      → (s : Setup fab.World) → Adds s (call_or fab c k s)
  unfolding call_or
  call_or-Adds c k h s = elim (Bool-cases ((fab.call c s.world).value == 0)) [
    | inl good ↦ rw good (h (in_world fab s (fab.call c s.world).world))
    | inr bad ↦
        rw bad
          (Adds-nothing s (in_world fab s (fab.call c s.world).world) _ (λ v e. ground arith) refl)
  ]

  post_recv_or-Adds :
      (k : Setup fab.World → Option ℕ × Setup fab.World)
      → ((t : Setup fab.World) → Adds t (k t))
      → (s : Setup fab.World) → Adds s (post_recv_or fab k s)
  unfolding post_recv_or
  post_recv_or-Adds k h s = elim (Bool-cases ((fab.call post_recv s.world).value == 0)) [
    | inl good ↦ rw good (h (in_world fab s (fab.call post_recv s.world).world))
    | inr bad ↦ rw bad (
        Adds-nothing s (in_world fab s (fab.call post_recv s.world).world) _ (λ v e. ground arith)
          refl)
  ]

  expect_one-Adds :
      (s t : Setup fab.World) (ret : Option ℕ)
      → ((v : ℕ) → ret ≡ some v → v < 2 ^ 32)
      → t.ops ≡ s.ops
      → Adds s (expect_one fab (ret, t))
  unfolding expect_one make_any
  expect_one-Adds s t none int e = Adds-nothing s t none int e
  expect_one-Adds s t (some ret) int e = elim (Bool-cases (ret == 1)) [
    | inl good ↦ elim (Bool-cases (fab.create rtn_mr t.world).ok) [
      | inl ok ↦
          rw (good, ok)
            (λ v h. ground arith, made rtn_mr ∷ [], inr refl, ap (λ l. l ++ made rtn_mr ∷ []) e)
      | inr null ↦
          rw (good, null)
            (Adds-nothing s (in_world fab t (fab.create rtn_mr t.world).world) _
              (λ v h. ground arith) e)
    ]
    | inr bad ↦ rw bad (Adds-nothing s t (some ret) int e)
  ]

  confirmed-Adds :
      (fuel : ℕ) (s t : Setup fab.World) (ret : Option ℕ)
      → t.ops ≡ s.ops
      → Adds s (confirmed fab fuel (ret, t))
  unfolding confirmed
  confirmed-Adds fuel s t none e = Adds-nothing s t none (λ v h. absurd (cc)) e
  confirmed-Adds fuel s t (some ret) e = elim (Bool-cases (ret == 0)) [
    | inl good ↦
        let (int, rtn, may, ops) =
          call_or-Adds ack_cm_event
            (λ u. expect_one fab (process_work_completion_events fab fuel 1 u))
            (λ u.
              expect_one-Adds u (process_work_completion_events fab fuel 1 u).1
                (process_work_completion_events fab fuel 1 u).0
                (λ v. completions-int fab values.poll_cq-int fuel 1 u v (omega arith) (omega arith))
                (completions-ops fab fuel 1 u))
            t in
        rw good (int, rtn, may, ops ∙ ap (λ l. l ++ rtn) e)
    | inr bad ↦ rw bad (Adds-nothing s t none (λ v h. absurd (cc)) e)
  ]

  established-Adds :
      (fuel : ℕ) (s : Setup fab.World) → Adds s (accept_established fab fuel connect_request s)
  unfolding accept_established
  established-Adds fuel s =
      confirmed-Adds fuel s (process_rdma_cm_event fab established s).1
        (process_rdma_cm_event fab established s).0 (cm_event-ops fab established s)

  -- a failure that makes nothing, or the client's metadata and at most the return message
  abbrev pub Accepts : Setup fab.World → Option ℕ × Setup fab.World → Type 0
  Accepts s (ret, t) =
      ((v : ℕ) → ret ≡ some v → v < 2 ^ 32)
      × (((t.ops ≡ s.ops) × ((v : ℕ) → ret ≡ some v → is_neg v ≡ true))
          ⊎ ((rtn : List Op) × MayMake rtn × (t.ops ≡ s.ops ++ made client_metadata_mr ∷ rtn)))

  pub accept-Accepts :
      (fuel : ℕ) (s : Setup fab.World)
      → Accepts s (accept_client_connection fab fuel connect_request s)
  unfolding accept_client_connection make_or
  accept-Accepts fuel s = elim (Bool-cases (is_set_up fab s)) [
    | inl there ↦ elim (Bool-cases (fab.create client_metadata_mr s.world).ok) [
      | inl good ↦
          let t : Setup fab.World =
            with_made fab client_metadata_mr s (fab.create client_metadata_mr s.world).world in
          let (int, rtn, may, ops) =
            post_recv_or-Adds (call_or fab accept (accept_established fab fuel connect_request))
              (call_or-Adds accept (accept_established fab fuel connect_request)
                (established-Adds fuel))
              t in
          rw (there, good)
            (int, inr (rtn, may, ops ∙ append_assoc s.ops (made client_metadata_mr ∷ []) rtn))
      | inr bad ↦ rw (there, bad) (λ v h. ground arith, inl (refl, λ v h. ground arith))
    ]
    | inr missing ↦ rw missing (λ v h. ground arith, inl (refl, λ v h. ground arith))
  ]
