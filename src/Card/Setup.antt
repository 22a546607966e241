-- ===== src/Card/Setup.antt =====
-- The set-up and the end of a connection on the card, in snic/rdma_server.c, as sequences of library
-- calls with early returns. The state is that of one `c_info`: a field is not NULL once its resource
-- is made. What is only printed is left out, and what the calls write into requests and keys. A
-- result `none` is a set-up that does not come to its end: it polls longer than its fuel, or it reads
-- an event or a memory region that there is not.
pub mod Accept
pub mod Parts
pub mod Resources
pub mod Ends
pub mod Apart
pub mod Global
pub mod Tests
use socket_to_rdma.Base.{
  ℕ, zero, suc, Bool, true, false, Option, none, some, List, [], ◌∷◌, ◌++◌, ◌==◌, ◌&&◌, ◌||◌,
  if◌then◌else◌, is_neg, neg32,
}
use socket_to_rdma.Rdma.{
  Resource, cm_event_channel, cm_server_id, cm_client_id, pd, io_completion_channel, client_cq,
  client_qp, req_mr, server_metadata_mr, rtn_mr, client_metadata_mr, bind_addr, listen, accept,
  disconnect_id, ack_cm_event, post_recv, post_send, req_notify_cq, create_thread, EventType,
  connect_request, established, disconnected, Op, made, destroyed, is_event, Fabric, Setup, Result,
  in_world, ends, call_or, make_or, then_or, no_memory, process_rdma_cm_event,
  process_work_completion_events, destroy,
}
use socket_to_rdma.Rdma.Held.{number}

-- the field is not NULL
unfoldable pub has : Resource → List Op → Bool
has r [] = false
has r (made q ∷ os) = (number r == number q) || has r os
has r (destroyed q ∷ os) = has r os

-- `-EINVAL`
abbrev pub invalid : ℕ
invalid = neg32 22

module _ (fab : Fabric) where
  abbrev pub with_made : Resource → Setup fab.World → fab.World → Setup fab.World
  with_made r s w = record { world = w; ops = s.ops ++ made r ∷ [] }

  -- a registration whose pointer is not tested
  unfoldable pub make_any : Resource → (Setup fab.World → Result fab) → Setup fab.World → Result fab
  make_any r k s =
      let m = fab.create r s.world in
      k (if m.ok then with_made r s m.world else in_world fab s m.world)

  -- one whose pointer is not tested, and is read at once
  unfoldable pub make_read :
      Resource → (Setup fab.World → Result fab) → Setup fab.World → Result fab
  make_read r k s =
      let m = fab.create r s.world in
      let rest = k (with_made r s m.world) in if m.ok then rest else (none, in_world fab s m.world)

  -- `if (ret) return -ret;` behind a post
  unfoldable pub post_recv_or : (Setup fab.World → Result fab) → Setup fab.World → Result fab
  post_recv_or k s =
      let a = fab.call post_recv s.world in
      let rest = k (in_world fab s a.world) in
      if a.value == 0 then rest else (some (neg32 a.value), in_world fab s a.world)

  -- `if (ret < 0) return -ret;`
  unfoldable pub accepted_or : Result fab → (Setup fab.World → Result fab) → Result fab
  accepted_or (none, s) k = (none, s)
  accepted_or (some ret, s) k = let rest = k s in if is_neg ret then (some (neg32 ret), s) else rest

  unfoldable pub start_rdma_server : Setup fab.World → Result fab
  unfolding make_or call_or
  start_rdma_server =
      make_or fab cm_event_channel neg32
        (make_or fab cm_server_id neg32 (call_or fab bind_addr (call_or fab listen (ends fab 0))))

  -- `c_info->cm_client_id = s_info->cm_event->id` and the acknowledgement
  abbrev pub take_id : Setup fab.World → Result fab
  take_id s = call_or fab ack_cm_event (ends fab 0) (with_made cm_client_id s s.world)

  -- The value of process_rdma_cm_event is overwritten. Where it is not 0 there is no event, or it has
  -- been acknowledged, and its identifier is read.
  unfoldable pub taken : Result fab → Result fab
  unfolding call_or
  taken (none, s) = (none, s)
  taken (some ret, s) = let rest = take_id s in if ret == 0 then rest else (none, s)

  unfoldable pub waiting_client_conn : Setup fab.World → Result fab
  unfolding taken process_rdma_cm_event
  waiting_client_conn s = taken (process_rdma_cm_event fab connect_request s)

  unfoldable pub setup_client_resources : Setup fab.World → Result fab
  unfolding make_or call_or has
  setup_client_resources s =
      let rest =
        make_or fab pd neg32
          (make_or fab io_completion_channel neg32 (
            make_or fab client_cq neg32
              (call_or fab req_notify_cq (make_or fab client_qp neg32 (ends fab 0)))))
          s in
      if has cm_client_id s.ops then rest else ends fab invalid s

  abbrev pub is_set_up : Setup fab.World → Bool
  is_set_up s = has cm_client_id s.ops && has client_qp s.ops

  -- `if (ret != 1) return ret;`, and the registration of the return message
  unfoldable pub expect_one : Result fab → Result fab
  unfolding make_any
  expect_one (none, s) = (none, s)
  expect_one (some ret, s) =
      let rest = make_any rtn_mr (ends fab 1) s in if ret == 1 then rest else (some ret, s)

  -- Behind the wait. Where its value is not 0 there is no event, or it has been acknowledged and is
  -- freed, and it is acknowledged again.
  unfoldable pub confirmed : ℕ → Result fab → Result fab
  unfolding call_or expect_one process_work_completion_events
  confirmed fuel (none, s) = (none, s)
  confirmed fuel (some ret, s) =
      let rest =
        call_or fab ack_cm_event (λ u. expect_one (process_work_completion_events fab fuel 1 u))
          s in
      if ret == 0 then rest else (none, s)

  -- The value of process_rdma_cm_event is not tested. What is tested is the status, which the event
  -- has not been stored in.
  unfoldable pub accept_established : ℕ → EventType → Setup fab.World → Result fab
  unfolding process_rdma_cm_event confirmed
  accept_established fuel status s =
      let r = process_rdma_cm_event fab established s in
      let rest = confirmed fuel r in
      if is_event status established
      then (some (neg32 (fab.get_cm_event s.world).0.errno), r.1)
      else rest

  unfoldable pub accept_client_connection : ℕ → EventType → Setup fab.World → Result fab
  unfolding has make_or post_recv_or call_or accept_established
  accept_client_connection fuel status s =
      let rest =
        make_or fab client_metadata_mr (λ e. no_memory)
          (post_recv_or (call_or fab accept (accept_established fuel status))) s in
      if is_set_up s then rest else ends fab invalid s

  unfoldable pub send_server_metadata_to_client : Setup fab.World → Result fab
  unfolding has make_or make_read call_or
  send_server_metadata_to_client s =
      let rest =
        make_or fab req_mr (λ e. no_memory)
          (make_read server_metadata_mr (call_or fab post_send (ends fab 0))) s in
      if is_set_up s then rest else ends fab invalid s

  -- the post of post_recv_req, whose failure is only printed by its callers
  abbrev pub post_recv_req : Setup fab.World → Setup fab.World
  post_recv_req s = in_world fab s (fab.call post_recv s.world).world

  unfoldable pub connect_client_r_info : (fuel : ℕ) → Setup fab.World → Result fab
  unfolding then_or accepted_or waiting_client_conn setup_client_resources accept_client_connection
      send_server_metadata_to_client
  connect_client_r_info fuel s = then_or fab (waiting_client_conn s) (λ t.
      then_or fab (setup_client_resources t) (λ u.
        accepted_or (accept_client_connection fuel connect_request u) (λ v.
          then_or fab (send_server_metadata_to_client v) (λ w. ends fab 0 (post_recv_req w)))))

  -- `addr` is what set_server_r_info returns, the value of get_addr. After a value other than 0 the
  -- thread ends; after 0 it goes on to process_poll_cq_imm.
  unfoldable pub start_thread : (fuel addr : ℕ) → Setup fab.World → Result fab
  unfolding then_or start_rdma_server connect_client_r_info
  start_thread fuel addr s =
      then_or fab (ends fab addr s)
        (λ t. then_or fab (start_rdma_server t) (connect_client_r_info fuel))

  -- rdma_buffer_deregister
  unfoldable pub deregister : Resource → Setup fab.World → Setup fab.World
  unfolding has destroy
  deregister r s = if has r s.ops then destroy fab r s else s

  unfoldable pub disconnect_and_cleanup : Setup fab.World → Result fab
  unfolding then_or call_or process_rdma_cm_event destroy deregister
  disconnect_and_cleanup s = then_or fab (process_rdma_cm_event fab disconnected s) (
      call_or fab ack_cm_event (λ t. ends fab 0 (
        destroy fab pd (
          deregister rtn_mr (
            deregister req_mr (
              destroy fab io_completion_channel
                (destroy fab client_cq (destroy fab cm_client_id (destroy fab client_qp t)))))))))

  unfoldable pub destroy_server_id : Setup fab.World → Setup fab.World
  unfolding destroy
  destroy_server_id s = destroy fab cm_event_channel (destroy fab cm_server_id s)
