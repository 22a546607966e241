-- ===== src/Card/Setup/Apart.antt =====
-- The functions of snic/rdma_server.c that make a connection's resources one by one, or take one
-- event of completions. Nothing calls them: setup_client_resources makes all at once.
use socket_to_rdma.Base.{ℕ, refl, inl, inr, [], ◌∷◌, if◌then◌else◌, neg32, arith, Bool-cases}
use socket_to_rdma.Rdma.{
  cm_client_id, pd, io_completion_channel, client_cq, client_qp, req_notify_cq, get_cq_event,
  ack_cq_events, made, Fabric, Setup, Result, in_world, ends, call_or, make_or,
}
use socket_to_rdma.Rdma.Making.{Documented, Makes, Makes-none, making, calling, done_with, neg32-ne}
use socket_to_rdma.Card.Setup.{has, invalid}

module _ (fab : Fabric) where
  unfoldable pub make_io_completion_channel : Setup fab.World → Result fab
  unfolding make_or
  make_io_completion_channel = make_or fab io_completion_channel neg32 (ends fab 0)

  -- On success no value is returned: the caller finds what its register held.
  unfoldable pub alloc_pd : (register : ℕ) → Setup fab.World → Result fab
  unfolding make_or
  alloc_pd register = make_or fab pd neg32 (ends fab register)

  create_qp : Setup fab.World → Result fab
  unfolding make_or
  create_qp = make_or fab client_qp neg32 (ends fab 0)

  -- The tests of the fields return `-errno` of an earlier call.
  unfoldable pub make_cq : (errno : ℕ) → Setup fab.World → Result fab
  unfolding has call_or create_qp
  make_cq errno s =
      let rest = call_or fab req_notify_cq create_qp s in
      if has cm_client_id s.ops
      then if has pd s.ops
        then if has client_cq s.ops then rest else ends fab (neg32 errno) s
        else ends fab (neg32 errno) s
      else ends fab invalid s

  unfoldable pub make_cq_for_handler : Setup fab.World → Result fab
  unfolding make_or call_or
  make_cq_for_handler =
      make_or fab pd neg32 (make_or fab client_cq neg32 (call_or fab req_notify_cq (ends fab 0)))

  unfoldable pub make_qp : Setup fab.World → Result fab
  unfolding has create_qp
  make_qp s = if has cm_client_id s.ops then create_qp s else ends fab invalid s

  unfoldable pub card_process_rdma_get_cq_event : Setup fab.World → Result fab
  unfolding call_or
  card_process_rdma_get_cq_event = call_or fab get_cq_event (
      call_or fab req_notify_cq
        (λ s. ends fab 1 (in_world fab s (fab.call ack_cq_events s.world).world)))

module _ (fab : Fabric) (doc : Documented fab) where
  -- Each makes the first of its resources in their order, and all of them if it returns 0.
  parts-Makes :
      (s : Setup fab.World)
      → Makes fab doc (made io_completion_channel ∷ []) s (make_io_completion_channel fab s)
        × Makes fab doc (made pd ∷ made client_cq ∷ []) s (make_cq_for_handler fab s)
        × Makes fab doc (made client_qp ∷ []) s (make_qp fab s)
  unfolding make_io_completion_channel make_cq_for_handler make_qp
  parts-Makes s =
      let qp = making fab doc client_qp neg32 neg32-ne (done_with fab doc) in
      let cq = calling fab doc req_notify_cq (done_with fab doc) in
      (
        (making fab doc io_completion_channel neg32 neg32-ne (done_with fab doc)).1 s,
        (making fab doc pd neg32 neg32-ne (making fab doc client_cq neg32 neg32-ne cq)).1 s,
        elim (Bool-cases (has cm_client_id s.ops)) [
          | inl there ↦ rw there (qp.1 s)
          | inr missing ↦ rw missing (Makes-none fab doc _ s s invalid refl (λ e. omega arith))
        ],
      )
