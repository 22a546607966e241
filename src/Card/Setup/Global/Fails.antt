-- ===== src/Card/Setup/Global/Fails.antt =====
-- The set-up of a further connection does not succeed: it is accepted before it has a queue pair.
use socket_to_rdma.Base.{
  ℕ, zero, suc, ◌≡◌, ◌≢◌, ◌⊎◌, refl, false, none, some, List, [], ◌∷◌, ◌++◌, ◌==◌, arith, ◌∙◌, ap,
  Bool-cases, inl, inr,
}
use socket_to_rdma.Rdma.{
  cm_client_id, client_qp, connect_request, established, Op, made, destroyed, is_event, Fabric,
  Setup, Result, ends, call_or, then_or, process_rdma_cm_event,
}
use socket_to_rdma.Rdma.Making.{cm_event-ops, none_ne, some-ne}
use socket_to_rdma.Card.Setup.{
  has, accepted_or, take_id, is_set_up, send_server_metadata_to_client, post_recv_req,
}
use socket_to_rdma.Card.Setup.Global.{
  Round, returns, continues, with_thread, global_round, goes_on, global_waiting_client_conn,
  global_accept_client_connection, global_connect_client_r_info, process_rdma_cm_event_with_global,
}

has-append_id : (os : List Op) → has client_qp (os ++ made cm_client_id ∷ []) ≡ has client_qp os
unfolding has
has-append_id [] = refl
has-append_id (made r ∷ os) = ground (arith, has-append_id os)
has-append_id (destroyed r ∷ os) = has-append_id os

module _ (fab : Fabric) where
  abbrev Keeps : Setup fab.World → Round fab → Type 0
  Keeps s (returns x) = x.1.ops ≡ s.ops
  Keeps s (continues t) = t.ops ≡ s.ops

  with_thread-Keeps : (s : Setup fab.World) (r : Result fab) → Keeps s (with_thread fab s r)
  unfolding with_thread
  with_thread-Keeps s (none, c) = refl
  with_thread-Keeps s (some ret, c) = refl

  global_round-Keeps :
      (events : Setup fab.World → Result fab) (s : Setup fab.World)
      → Keeps s (global_round fab events s)
  unfolding global_round
  global_round-Keeps events s =
      let (a, e) = fab.get_cm_event s.world in
      elim (Bool-cases (a.value == 0)) [
        | inl got ↦ elim (Bool-cases (e.status == 0)) [
          | inl fine ↦ elim (Bool-cases (is_event e.event connect_request)) [
            | inl request ↦
                rw (got, fine, request)
                  (with_thread-Keeps s (
                    global_connect_client_r_info fab events
                      (record { world = a.world; ops = made cm_client_id ∷ [] })))
            | inr other ↦ elim (Bool-cases (is_event e.event established)) [
              | inl there ↦ rw (got, fine, other, there) refl
              | inr unexpected ↦ rw (got, fine, other, unexpected) refl
            ]
          ]
          | inr bad ↦ rw (got, bad) refl
        ]
        | inr failed ↦ rw failed refl
      ]

  goes_on-ops :
      (events : Setup fab.World → Result fab) (s : Setup fab.World) (r : Round fab)
      → Keeps s r
      → ((t : Setup fab.World) → (events t).1.ops ≡ t.ops)
      → (goes_on fab events r).1.ops ≡ s.ops
  unfolding goes_on
  goes_on-ops events s (returns x) k h = k
  goes_on-ops events s (continues t) k h = h t ∙ k

  events-ops :
      (fuel : ℕ) (s : Setup fab.World)
      → (process_rdma_cm_event_with_global fab fuel s).1.ops ≡ s.ops
  unfolding process_rdma_cm_event_with_global
  events-ops zero s = refl
  events-ops (suc fuel) s =
      let events = process_rdma_cm_event_with_global fab fuel in
      goes_on-ops events s (global_round fab events s) (global_round-Keeps events s)
        (events-ops fuel)

  take_id-ops : (t : Setup fab.World) → (take_id fab t).1.ops ≡ t.ops ++ made cm_client_id ∷ []
  unfolding call_or
  take_id-ops t = ground arith

  abbrev Took : Setup fab.World → Setup fab.World → Type 0
  Took s t = (t.ops ≡ s.ops) ⊎ (t.ops ≡ s.ops ++ made cm_client_id ∷ [])

  then_take-Took :
      (s : Setup fab.World) (r : Result fab)
      → r.1.ops ≡ s.ops
      → Took s (then_or fab r (take_id fab)).1
  unfolding then_or
  then_take-Took s (none, t) e = inl e
  then_take-Took s (some ret, t) e = elim (Bool-cases (ret == 0)) [
    | inl good ↦ rw good (inr (take_id-ops t ∙ ap (λ l. l ++ made cm_client_id ∷ []) e))
    | inr bad ↦ rw bad (inl e)
  ]

  no_queue_pair :
      (s t : Setup fab.World) → has client_qp s.ops ≡ false → Took s t → is_set_up fab t ≡ false
  no_queue_pair s t bare (inl e) = ground (arith, ap (has client_qp) e)
  no_queue_pair s t bare (inr e) = ground (arith, ap (has client_qp) e, has-append_id s.ops)

  refused :
      (t : Setup fab.World) (k : Setup fab.World → Result fab)
      → is_set_up fab t ≡ false
      → accepted_or fab (global_accept_client_connection fab t) k ≡ (some 22, t)
  unfolding accepted_or global_accept_client_connection
  refused t k bare = rw bare refl

  then_refused :
      (s : Setup fab.World) (r : Result fab) (k : Setup fab.World → Result fab)
      → has client_qp s.ops ≡ false
      → Took s r.1
      → let x = then_or fab r (λ t. accepted_or fab (global_accept_client_connection fab t) k) in
        (x.0 ≢ some 0) × Took s x.1
  unfolding then_or
  then_refused s (none, t) k bare took = (none_ne, took)
  then_refused s (some ret, t) k bare took = elim (Bool-cases (ret == 0)) [
    | inl good ↦ rw (good, refused t k (no_queue_pair s t bare took)) (λ e. cc, took)
    | inr bad ↦ rw bad (some-ne ret bad, took)
  ]

  -- For a `c_info` that has no queue pair, and nothing on the way gives it one,
  -- global_connect_client_r_info does not return 0, whatever the library answers and however many
  -- events come meanwhile; what it makes is at most the identifier of the connection.
  pub global_connect_fails :
      (fuel : ℕ) (s : Setup fab.World)
      → has client_qp s.ops ≡ false
      → let r = global_connect_client_r_info fab (process_rdma_cm_event_with_global fab fuel) s in
        (r.0 ≢ some 0) × ((r.1.ops ≡ s.ops) ⊎ (r.1.ops ≡ s.ops ++ made cm_client_id ∷ []))
  unfolding global_connect_client_r_info global_waiting_client_conn
  global_connect_fails fuel s bare =
      let u = (process_rdma_cm_event fab connect_request s).1 in
      let e = events-ops fuel u ∙ cm_event-ops fab connect_request s in
      then_refused s (then_or fab (process_rdma_cm_event_with_global fab fuel u) (take_id fab))
        (λ w.
          then_or fab (send_server_metadata_to_client fab w)
            (λ v. ends fab 0 (post_recv_req fab v)))
        bare (then_take-Took s (process_rdma_cm_event_with_global fab fuel u) e)
