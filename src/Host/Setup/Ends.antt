-- ===== src/Host/Setup/Ends.antt =====
-- The set-up ends, where the two completions that it polls for come.
use socket_to_rdma.Base.{ℕ, ◌<◌, ◌≢◌, refl, Option, none, some, neg32, minus_one, arith}
use socket_to_rdma.Rdma.{
  Fabric, Setup, cm_event_channel, cm_client_id, pd, io_completion_channel, client_cq, client_qp,
  req_mr, server_metadata_mr, rtn_mr, client_metadata_mr, resolve_addr, resolve_route, connect_id,
  post_recv, post_send, req_notify_cq, addr_resolved, route_resolved, established, in_world, ends,
  no_memory, process_work_completion_events,
}
use socket_to_rdma.Host.Setup.{
  client_prepare_connection, client_pre_post_req_buffer, client_connect_to_server, expect_two,
  client_xchange_metadata_with_server, connect_server,
}
use socket_to_rdma.Rdma.Ending.{
  some-ne-none, Ends, calling, making, joining, waiting_for, returning, completions-Ends,
}

module _ (fab : Fabric) where
  client_prepare-Ends : Ends fab (client_prepare_connection fab)
  unfolding client_prepare_connection
  client_prepare-Ends =
      (making fab cm_event_channel neg32 (
        making fab cm_client_id neg32 (
          calling fab resolve_addr (
            waiting_for fab addr_resolved (
              calling fab resolve_route (
                waiting_for fab route_resolved (
                  making fab pd neg32 (
                    making fab io_completion_channel neg32 (
                      making fab client_cq neg32 (
                        calling fab req_notify_cq
                          (making fab client_qp neg32 (returning fab)))))))))))).1

  pre_post-Ends : Ends fab (client_pre_post_req_buffer fab)
  unfolding client_pre_post_req_buffer
  pre_post-Ends =
      (making fab req_mr (λ e. minus_one)
        (making fab server_metadata_mr (λ e. no_memory)
          (
            λ t.
                ends fab (fab.call post_recv t.world).value
                  (in_world fab t (fab.call post_recv t.world).world),
            λ t. some-ne-none _,
          ))).1

  connect-Ends : Ends fab (client_connect_to_server fab)
  unfolding client_connect_to_server
  connect-Ends = (calling fab connect_id (waiting_for fab established (returning fab))).1

  expect_two-Ends : (x : Option ℕ × Setup fab.World) → x.0 ≢ none → (expect_two fab x).0 ≢ none
  unfolding expect_two
  expect_two-Ends (none, t) h = absurd (h refl)
  expect_two-Ends (some ret, t) h = ground arith

  module _ (comes : (w : fab.World) (n : ℕ) → 0 < n → 0 < (fab.poll_cq w n).0.value) where
    xchange-Ends : (fuel : ℕ) → 1 < fuel → Ends fab (client_xchange_metadata_with_server fab fuel)
    unfolding client_xchange_metadata_with_server
    xchange-Ends fuel enough =
        (making fab rtn_mr (λ e. minus_one)
          (making fab client_metadata_mr (λ e. no_memory)
            (calling fab post_send (
              λ t. expect_two fab (process_work_completion_events fab fuel 2 t),
              λ t.
                  expect_two-Ends (process_work_completion_events fab fuel 2 t)
                    (completions-Ends fab comes fuel 2 (omega arith) (omega arith) t),
            )))).1

    -- Where each poll brings a completion or fails, two rounds of polling are enough for
    -- `connect_server` to return, whatever the other calls answer.
    pub connect_server-Ends :
        (fuel : ℕ) (s : Setup fab.World) → 1 < fuel → (connect_server fab fuel s).0 ≢ none
    unfolding connect_server
    connect_server-Ends fuel s enough =
        (joining fab (client_prepare_connection fab, client_prepare-Ends)
            (joining fab (client_pre_post_req_buffer fab, pre_post-Ends)
              (joining fab (client_connect_to_server fab, connect-Ends)
                (joining fab
                  (client_xchange_metadata_with_server fab fuel, xchange-Ends fuel enough)
                  (returning fab))))).1
          s
