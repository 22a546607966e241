-- ===== src/Card/Setup/Global.antt =====
-- process_rdma_cm_event_with_global of snic/rdma_server.c with the set-up that it calls for each
-- further connection, which calls it again. Each new `c_info` has a state of its own; the channel of
-- events is shared. The status that an event stores in another connection's `c_info` is left out.
pub mod Fails
use socket_to_rdma.Base.{
  ℕ, zero, suc, ◌≡◌, ◌≢◌, refl, sym, Bool, true, false, Option, none, some, List, [], ◌∷◌, ◌++◌,
  ◌==◌, ◌&&◌, if◌then◌else◌, neg32, arith, ◌∙◌, ap, Bool-cases, inl, inr,
}
use socket_to_rdma.Rdma.{
  cm_client_id, client_qp, client_metadata_mr, rtn_mr, accept, ack_cm_event, create_thread, CmEvent,
  connect_request, established, Op, made, is_event, Fabric, Setup, Result, in_world, ends, call_or,
  make_or, then_or, no_memory, process_rdma_cm_event,
}
use socket_to_rdma.Card.Env.{Answer}
use socket_to_rdma.Card.Setup.{
  has, invalid, make_any, post_recv_or, accepted_or, take_id, is_set_up,
  send_server_metadata_to_client, post_recv_req,
}

module _ (fab : Fabric) where
  -- The first wait's value is overwritten.
  unfoldable pub global_waiting_client_conn :
      (Setup fab.World → Result fab) → Setup fab.World → Result fab
  unfolding then_or process_rdma_cm_event
  global_waiting_client_conn events s =
      then_or fab (events (process_rdma_cm_event fab connect_request s).1) (take_id fab)

  unfoldable pub global_accept_client_connection : Setup fab.World → Result fab
  unfolding has make_or post_recv_or call_or make_any
  global_accept_client_connection s =
      let rest =
        make_or fab client_metadata_mr (λ e. no_memory)
          (post_recv_or fab
            (call_or fab accept (call_or fab ack_cm_event (make_any fab rtn_mr (ends fab 1)))))
          s in
      if is_set_up fab s then rest else ends fab invalid s

  -- Nothing sets up the client's resources in between.
  unfoldable pub global_connect_client_r_info :
      (Setup fab.World → Result fab) → Setup fab.World → Result fab
  unfolding then_or accepted_or global_waiting_client_conn global_accept_client_connection
      send_server_metadata_to_client
  global_connect_client_r_info events s = then_or fab (global_waiting_client_conn events s) (λ t.
      accepted_or fab (global_accept_client_connection t) (λ u.
        then_or fab (send_server_metadata_to_client fab u) (λ v. ends fab 0 (post_recv_req fab v))))

  -- a round of the loop: its end, or the state in which it goes on
  pub data Round : Type 0 where
    returns : Result fab → Round
    continues : Setup fab.World → Round

  -- a new connection's thread, if its set-up returns 0
  unfoldable pub with_thread : Setup fab.World → Result fab → Round
  with_thread s (none, c) = returns (none, in_world fab s c.world)
  with_thread s (some ret, c) =
      continues
        (in_world fab s (if ret == 0 then (fab.call create_thread c.world).world else c.world))

  unfoldable pub global_round : (Setup fab.World → Result fab) → Setup fab.World → Round
  unfolding with_thread global_connect_client_r_info
  global_round events s =
      let (a, e) = fab.get_cm_event s.world in
      let acked = in_world fab s (fab.call ack_cm_event a.world).world in
      let new_c_info : Setup fab.World = record { world = a.world; ops = made cm_client_id ∷ [] } in
      if a.value == 0
      then if e.status == 0
        then if is_event e.event connect_request
          then with_thread s (global_connect_client_r_info events new_c_info)
          else if is_event e.event established
          then returns (ends fab 0 acked)
          else continues acked
        else continues acked
      else continues (in_world fab s a.world)

  unfoldable pub goes_on : (Setup fab.World → Result fab) → Round → Result fab
  goes_on events (returns r) = r
  goes_on events (continues t) = events t

  -- `none` when the fuel ends
  unfoldable pub process_rdma_cm_event_with_global : ℕ → Setup fab.World → Result fab
  unfolding global_round goes_on
  process_rdma_cm_event_with_global zero s = (none, s)
  process_rdma_cm_event_with_global (suc fuel) s =
      goes_on (process_rdma_cm_event_with_global fuel)
        (global_round (process_rdma_cm_event_with_global fuel) s)
