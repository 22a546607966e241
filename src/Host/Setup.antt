-- ===== src/Host/Setup.antt =====
-- The set-up of the host's connection and its end, in rdma_client.c: sequences of library calls with
-- early returns. What the calls write into requests and keys is left out, and what is printed.
pub mod Resources
pub mod Clean
pub mod Ends
pub mod Tests
use socket_to_rdma.Base.{ℕ, Option, none, some, ◌==◌, if◌then◌else◌, minus_one, neg32}
use socket_to_rdma.Rdma.{
  Resource, cm_event_channel, cm_client_id, pd, io_completion_channel, client_cq, client_qp, req_mr,
  server_metadata_mr, rtn_mr, client_metadata_mr, resolve_addr, resolve_route, connect_id,
  disconnect_id, ack_cm_event, post_recv, post_send, req_notify_cq, addr_resolved, route_resolved,
  established, disconnected, Fabric, Setup, Result, in_world, ends, call_or, make_or, then_or,
  wait_or, no_memory, process_rdma_cm_event, process_work_completion_events, destroy,
}

module _ (fab : Fabric) where
  unfoldable pub client_prepare_connection : Setup fab.World → Result fab
  unfolding make_or call_or then_or process_rdma_cm_event
  client_prepare_connection = make_or fab cm_event_channel neg32 (
      make_or fab cm_client_id neg32 (
        call_or fab resolve_addr (
          wait_or fab addr_resolved (
            call_or fab resolve_route (
              wait_or fab route_resolved (
                make_or fab pd neg32 (
                  make_or fab io_completion_channel neg32 (
                    make_or fab client_cq neg32
                      (call_or fab req_notify_cq (make_or fab client_qp neg32 (ends fab 0)))))))))))

  -- a post's failure returns its value
  unfoldable pub client_pre_post_req_buffer : Setup fab.World → Result fab
  unfolding make_or
  client_pre_post_req_buffer =
      make_or fab req_mr (λ e. minus_one)
        (make_or fab server_metadata_mr (λ e. no_memory)
          (λ s. let a = fab.call post_recv s.world in ends fab a.value (in_world fab s a.world)))

  unfoldable pub client_connect_to_server : Setup fab.World → Result fab
  unfolding call_or then_or process_rdma_cm_event
  client_connect_to_server = call_or fab connect_id (wait_or fab established (ends fab 0))

  -- `if (ret != 2) return ret; return 0;`
  unfoldable pub expect_two : Result fab → Result fab
  expect_two (none, s) = (none, s)
  expect_two (some ret, s) = if ret == 2 then ends fab 0 s else ends fab ret s

  unfoldable pub client_xchange_metadata_with_server : (fuel : ℕ) → Setup fab.World → Result fab
  unfolding make_or call_or expect_two process_work_completion_events
  client_xchange_metadata_with_server fuel =
      make_or fab rtn_mr (λ e. minus_one)
        (make_or fab client_metadata_mr (λ e. no_memory)
          (call_or fab post_send (λ s. expect_two (process_work_completion_events fab fuel 2 s))))

  unfoldable pub connect_server : (fuel : ℕ) → Setup fab.World → Result fab
  unfolding then_or client_prepare_connection client_pre_post_req_buffer client_connect_to_server
      client_xchange_metadata_with_server
  connect_server fuel s = then_or fab (client_prepare_connection s) (λ t.
      then_or fab (client_pre_post_req_buffer t) (λ u.
        then_or fab (client_connect_to_server u)
          (λ v. then_or fab (client_xchange_metadata_with_server fuel v) (ends fab 0))))

  -- the end from the queue pair on: each destroy is called whatever the one before it answers, and a
  -- failure is only printed
  unfoldable pub clean : Setup fab.World → Setup fab.World
  unfolding destroy
  clean s = destroy fab cm_event_channel (
      destroy fab pd (
        destroy fab req_mr (
          destroy fab rtn_mr (
            destroy fab client_metadata_mr (
              destroy fab server_metadata_mr (
                destroy fab io_completion_channel
                  (destroy fab client_cq (destroy fab cm_client_id (destroy fab client_qp s)))))))))

  -- Behind the wait for the event. Where its value is not 0 there is no event, or it has been
  -- acknowledged and is freed, and it is acknowledged again: `none`.
  unfoldable pub acknowledged : Result fab → Result fab
  unfolding clean
  acknowledged (none, s) = (none, s)
  acknowledged (some ret, s) =
      let t = clean (in_world fab s (fab.call ack_cm_event s.world).world) in
      if ret == 0 then ends fab 0 t else (none, s)

  unfoldable pub client_recv_disconnect_and_clean : Setup fab.World → Result fab
  unfolding process_rdma_cm_event acknowledged
  client_recv_disconnect_and_clean s = acknowledged (process_rdma_cm_event fab disconnected s)

  unfoldable pub client_disconnect_and_clean : Setup fab.World → Result fab
  unfolding client_recv_disconnect_and_clean
  client_disconnect_and_clean s =
      client_recv_disconnect_and_clean (in_world fab s (fab.call disconnect_id s.world).world)
