-- ===== src/Card/Setup/Resources.antt =====
-- What the set-up of the card's connection makes, whatever fails, and what its end leaves.
use socket_to_rdma.Base.{
  ◌⊎◌, ℕ, ◌^◌, ◌<◌, ◌≡◌, ◌≢◌, refl, sym, true, Option, none, some, List, [], ◌∷◌, ◌++◌, ◌==◌, neg32,
  arith, ◌∙◌, ap, Bool-cases, inl, inr, is_neg,
}
use mathlib.Core.List.{append-nil}
use socket_to_rdma.Rdma.{
  cm_event_channel, cm_server_id, cm_client_id, pd, io_completion_channel, client_cq, client_qp,
  req_mr, server_metadata_mr, client_metadata_mr, connect_request, Op, made, Fabric, Setup, ends,
  then_or,
}
use socket_to_rdma.Rdma.Making.{
  Documented, none_ne, Makes, Makes-none, then_or-Makes, joining, plain, some_ne, some-ne,
}
use socket_to_rdma.Card.Setup.Accept.{MayMake, Values, Accepts, accept-Accepts}
use socket_to_rdma.Card.Setup.{
  accepted_or, start_rdma_server, waiting_client_conn, setup_client_resources,
  accept_client_connection, send_server_metadata_to_client, post_recv_req, connect_client_r_info,
  start_thread,
}
use socket_to_rdma.Card.Setup.Parts.{
  start_rdma-Makes, waiting-Makes, setup_client-Makes, send-Makes,
}

-- the resources of one connection
abbrev pub connection_made : List Op → List Op
connection_made rtn =
    (made cm_client_id ∷ [])
    ++ ((made pd ∷ made io_completion_channel ∷ made client_cq ∷ made client_qp ∷ [])
        ++ ((made client_metadata_mr ∷ rtn) ++ (made req_mr ∷ made server_metadata_mr ∷ [])))

-- the resources of the listening card and of one connection, with or without the return message
abbrev pub card_made : List Op → List Op
card_made rtn = (made cm_event_channel ∷ made cm_server_id ∷ []) ++ connection_made rtn

module _ (fab : Fabric) (doc : Documented fab) where
  neg32_negative : (v : ℕ) → is_neg v ≡ true → v < 2 ^ 32 → neg32 v ≢ 0
  neg32_negative v neg int = λ e. ground arith

  module _ (values : Values fab) where
    accepted-Makes :
        (s t : Setup fab.World) (ret : Option ℕ) (qs : List Op)
        (k : Setup fab.World → Option ℕ × Setup fab.World)
        → Accepts fab values s (ret, t)
        → Makes fab doc qs t (k t)
        → (rtn : List Op) × MayMake rtn
          × Makes fab doc ((made client_metadata_mr ∷ rtn) ++ qs) s (accepted_or fab (ret, t) k)
    unfolding accepted_or then_or
    accepted-Makes s t none qs k (int, inl (ops, neg)) h = (
      [],
      inl refl,
      (
        [],
        made client_metadata_mr ∷ qs,
        refl,
        ops ∙ sym (append-nil s.ops),
        λ e. absurd (none_ne e),
      ),
    )
    accepted-Makes s t none qs k (int, inr (rtn, may, ops)) h =
        (rtn, may, (made client_metadata_mr ∷ rtn, qs, refl, ops, λ e. absurd (none_ne e)))
    accepted-Makes s t (some v) qs k (int, inl (ops, neg)) h =
        let bad = neg v refl in
        rw bad (
          [],
          inl refl,
          Makes-none fab doc (made client_metadata_mr ∷ qs) s t (neg32 v) ops
              (neg32_negative v bad (int v refl)),
        )
    accepted-Makes s t (some v) qs k (int, inr (rtn, may, ops)) h = elim (Bool-cases (is_neg v)) [
      | inl bad ↦ rw bad (
        rtn,
        may,
        (
          made client_metadata_mr ∷ rtn,
          qs,
          refl,
          ops,
          λ e. absurd (some_ne (neg32 v) (neg32_negative v bad (int v refl)) e),
        ),
      )
      | inr good ↦ rw good (
        rtn,
        may,
        then_or-Makes fab doc (made client_metadata_mr ∷ rtn) qs s k (some 0) t
            (
              made client_metadata_mr ∷ rtn,
              [],
              append-nil (made client_metadata_mr ∷ rtn),
              ops,
              λ e. refl,
            )
            h,
      )
    ]

    pub connect-Makes :
        (fuel : ℕ) (s : Setup fab.World)
        → (rtn : List Op) × MayMake rtn
          × Makes fab doc (connection_made rtn) s (connect_client_r_info fab fuel s)
    unfolding connect_client_r_info
    connect-Makes fuel s =
        let t = (waiting_client_conn fab s).1 in
        let u = (setup_client_resources fab t).1 in
        let v = (accept_client_connection fab fuel connect_request u).1 in
        let last =
          joining fab doc (send_server_metadata_to_client fab, send-Makes fab doc)
            (plain fab doc (λ w. ends fab 0 (post_recv_req fab w)) (λ w. refl)) in
        let (rtn, may, third) =
          accepted-Makes u v (accept_client_connection fab fuel connect_request u).0
            (made req_mr ∷ made server_metadata_mr ∷ []) last.0 (accept-Accepts fab values fuel u)
            (last.1 v) in
        (
          rtn,
          may,
          then_or-Makes fab doc (made cm_client_id ∷ []) _ s _ (waiting_client_conn fab s).0 t
              (waiting-Makes fab doc s)
              (then_or-Makes fab doc
                (made pd ∷ made io_completion_channel ∷ made client_cq ∷ made client_qp ∷ []) _ t _
                (setup_client_resources fab t).0 u (setup_client-Makes fab doc t) third),
        )

    pub start_thread-Makes :
        (fuel addr : ℕ) (s : Setup fab.World)
        → (rtn : List Op) × MayMake rtn
          × Makes fab doc (card_made rtn) s (start_thread fab fuel addr s)
    unfolding start_thread
    start_thread-Makes fuel addr s =
        let t = (start_rdma_server fab s).1 in
        let (rtn, may, h) = connect-Makes fuel t in
        (
          rtn,
          may,
          then_or-Makes fab doc [] (card_made rtn) s
              (λ u. then_or fab (start_rdma_server fab u) (connect_client_r_info fab fuel))
              (some addr) s ([], [], refl, sym (append-nil s.ops), λ e. refl)
              (then_or-Makes fab doc (made cm_event_channel ∷ made cm_server_id ∷ [])
                (connection_made rtn) s (connect_client_r_info fab fuel) (start_rdma_server fab s).0
                t (start_rdma-Makes fab doc s) h),
        )

    pub all_or :
        (ret : Option ℕ) (zs : List Op) → (ret ≡ some 0 → zs ≡ []) → (ret ≢ some 0) ⊎ (zs ≡ [])
    all_or none zs all = inl none_ne
    all_or (some v) zs all = elim (Bool-cases (v == 0)) [
      | inl good ↦ inr (all (ap some (ground arith)))
      | inr bad ↦ inl (some-ne v bad)
    ]

    -- However start_thread ends, or where it stands when it does not come to its end, it has made the
    -- first resources of the listening card and its connection, in their order, where the return
    -- message may be left out, and has destroyed none; if it returns 0 it has made them all. The
    -- library's failures set `errno` as documented, and its values are as documented.
    pub start_thread-keeps :
        (fuel addr : ℕ) (s : Setup fab.World)
        → (rtn : List Op) × MayMake rtn
          × ((ms : List Op) × (zs : List Op) × (ms ++ zs ≡ card_made rtn)
              × ((start_thread fab fuel addr s).1.ops ≡ s.ops ++ ms)
              × (((start_thread fab fuel addr s).0 ≢ some 0) ⊎ (zs ≡ [])))
    start_thread-keeps fuel addr s =
        let (rtn, may, (ms, zs, split, ops, all)) = start_thread-Makes fuel addr s in
        (rtn, may, (ms, zs, split, ops, all_or (start_thread fab fuel addr s).0 zs all))
