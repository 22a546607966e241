-- ===== src/Card/Setup/Parts.antt =====
-- What each part of the card's set-up makes, but for the acceptance of a connection.
use socket_to_rdma.Base.{
  ℕ, ◌≡◌, refl, sym, Option, none, some, List, [], ◌∷◌, ◌++◌, ◌==◌, neg32, arith, ◌∙◌, ap,
  Bool-cases, inl, inr,
}
use mathlib.Core.List.{append-nil, append_assoc}
use socket_to_rdma.Rdma.{
  Resource, cm_event_channel, cm_server_id, cm_client_id, pd, io_completion_channel, client_cq,
  client_qp, req_mr, server_metadata_mr, bind_addr, listen, post_send, req_notify_cq,
  connect_request, Op, made, Fabric, Setup, ends, call_or, no_memory, process_rdma_cm_event,
}
use socket_to_rdma.Rdma.Making.{
  Documented, neg32-ne, none_ne, cm_event-ops, Makes, Makes-none, calling, making, done_with,
  no_memory-ne,
}
use socket_to_rdma.Card.Setup.{
  has, invalid, with_made, make_read, start_rdma_server, take_id, taken, waiting_client_conn,
  setup_client_resources, is_set_up, send_server_metadata_to_client,
}

module _ (fab : Fabric) (doc : Documented fab) where
  pub start_rdma-Makes :
      (s : Setup fab.World)
      → Makes fab doc (made cm_event_channel ∷ made cm_server_id ∷ []) s (start_rdma_server fab s)
  unfolding start_rdma_server
  start_rdma-Makes =
      (making fab doc cm_event_channel neg32 neg32-ne (
        making fab doc cm_server_id neg32 neg32-ne
          (calling fab doc bind_addr (calling fab doc listen (done_with fab doc))))).1

  make_read-Makes :
      (r : Resource) (k : Setup fab.World → Option ℕ × Setup fab.World) (os : List Op)
      → ((t : Setup fab.World) → Makes fab doc os t (k t))
      → (s : Setup fab.World) → Makes fab doc (made r ∷ os) s (make_read fab r k s)
  unfolding make_read
  make_read-Makes r k os h s = elim (Bool-cases (fab.create r s.world).ok) [
    | inl good ↦
        let t : Setup fab.World = with_made fab r s (fab.create r s.world).world in
        let (ms, zs, split, ops, all) = h t in
        rw good (
          made r ∷ ms,
          zs,
          ap (λ l. made r ∷ l) split,
          ops ∙ append_assoc s.ops (made r ∷ []) ms,
          all,
        )
    | inr bad ↦ rw bad ([], made r ∷ os, refl, sym (append-nil s.ops), λ e. absurd (none_ne e))
  ]

  take_id-ops : (t : Setup fab.World) → (take_id fab t).1.ops ≡ t.ops ++ made cm_client_id ∷ []
  unfolding call_or
  take_id-ops t = ground arith

  pub waiting-Makes :
      (s : Setup fab.World) → Makes fab doc (made cm_client_id ∷ []) s (waiting_client_conn fab s)
  unfolding waiting_client_conn
  waiting-Makes s =
      taken-Makes (process_rdma_cm_event fab connect_request s).0
        (process_rdma_cm_event fab connect_request s).1 (cm_event-ops fab connect_request s)
    where
      taken-Makes :
          (ret : Option ℕ) (t : Setup fab.World)
          → t.ops ≡ s.ops
          → Makes fab doc (made cm_client_id ∷ []) s (taken fab (ret, t))
      taken-Makes none t e =
          ([], made cm_client_id ∷ [], refl, e ∙ sym (append-nil s.ops), λ p. absurd (none_ne p))
      taken-Makes (some ret) t e = elim (Bool-cases (ret == 0)) [
        | inl good ↦ rw good (
          made cm_client_id ∷ [],
          [],
          refl,
          take_id-ops t ∙ ap (λ l. l ++ made cm_client_id ∷ []) e,
          λ p. refl,
        )
        | inr bad ↦
            rw bad (
              [],
              made cm_client_id ∷ [],
              refl,
              e ∙ sym (append-nil s.ops),
              λ p. absurd (none_ne p),
            )
      ]

  pub setup_client-Makes :
      (s : Setup fab.World)
      → Makes fab doc
          (made pd ∷ made io_completion_channel ∷ made client_cq ∷ made client_qp ∷ [])
          s
          (setup_client_resources fab s)
  unfolding setup_client_resources
  setup_client-Makes s = elim (Bool-cases (has cm_client_id s.ops)) [
    | inl there ↦ rw there (
        (making fab doc pd neg32 neg32-ne (
            making fab doc io_completion_channel neg32 neg32-ne (
              making fab doc client_cq neg32 neg32-ne (
                calling fab doc req_notify_cq
                  (making fab doc client_qp neg32 neg32-ne (done_with fab doc)))))).1
          s)
    | inr missing ↦ rw missing (Makes-none fab doc _ s s invalid refl (λ e. omega arith))
  ]

  pub send-Makes :
      (s : Setup fab.World)
      → Makes fab doc
          (made req_mr ∷ made server_metadata_mr ∷ [])
          s
          (send_server_metadata_to_client fab s)
  unfolding send_server_metadata_to_client
  send-Makes s = elim (Bool-cases (is_set_up fab s)) [
    | inl there ↦ rw there (
        (making fab doc req_mr (λ e. no_memory) (no_memory-ne fab doc)
            (
              make_read fab server_metadata_mr (call_or fab post_send (ends fab 0)),
              make_read-Makes server_metadata_mr (call_or fab post_send (ends fab 0)) []
                  (calling fab doc post_send (done_with fab doc)).1,
            )).1
          s)
    | inr missing ↦ rw missing (Makes-none fab doc _ s s invalid refl (λ e. omega arith))
  ]
