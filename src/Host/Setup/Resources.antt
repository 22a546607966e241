-- ===== src/Host/Setup/Resources.antt =====
-- What the set-up of a connection makes, whatever fails.
use socket_to_rdma.Base.{
  ℕ, ◌≡◌, refl, sym, Option, none, some, List, [], ◌∷◌, ◌++◌, neg32, minus_one, arith, ◌∙◌, ap,
}
use mathlib.Core.List.{append-nil}
use socket_to_rdma.Rdma.Making.{
  completions-ops, Documented, neg32-ne, Makes, calling, making, waiting_for, plain, done_with,
  minus_one-ne, no_memory-ne, joining,
}
use socket_to_rdma.Rdma.{
  cm_event_channel, cm_client_id, pd, io_completion_channel, client_cq, client_qp, req_mr,
  server_metadata_mr, rtn_mr, client_metadata_mr, resolve_addr, resolve_route, connect_id,
  post_recv, post_send, req_notify_cq, addr_resolved, route_resolved, established, Op, made, Fabric,
  Setup, in_world, ends, no_memory, process_work_completion_events,
}
use socket_to_rdma.Host.Setup.{
  client_prepare_connection, client_pre_post_req_buffer, client_connect_to_server, expect_two,
  client_xchange_metadata_with_server, connect_server,
}

-- the set-up of a connection, in order
abbrev pub all_made : List Op
all_made =
    made cm_event_channel
    ∷ made cm_client_id
    ∷ made pd
    ∷ made io_completion_channel
    ∷ made client_cq
    ∷ made client_qp
    ∷ made req_mr
    ∷ made server_metadata_mr
    ∷ made rtn_mr
    ∷ made client_metadata_mr
    ∷ []

module _ (fab : Fabric) (doc : Documented fab) where
  client_prepare-Makes :
      (s : Setup fab.World)
      → Makes fab doc
          (made cm_event_channel
            ∷ made cm_client_id
            ∷ made pd
            ∷ made io_completion_channel
            ∷ made client_cq
            ∷ made client_qp
            ∷ [])
          s
          (client_prepare_connection fab s)
  unfolding client_prepare_connection
  client_prepare-Makes =
      (making fab doc cm_event_channel neg32 neg32-ne (
        making fab doc cm_client_id neg32 neg32-ne (
          calling fab doc resolve_addr (
            waiting_for fab doc addr_resolved (
              calling fab doc resolve_route (
                waiting_for fab doc route_resolved (
                  making fab doc pd neg32 neg32-ne (
                    making fab doc io_completion_channel neg32 neg32-ne (
                      making fab doc client_cq neg32 neg32-ne (
                        calling fab doc req_notify_cq
                          (making fab doc client_qp neg32 neg32-ne (done_with fab doc)))))))))))).1

  pre_post-Makes :
      (s : Setup fab.World)
      → Makes fab doc
          (made req_mr ∷ made server_metadata_mr ∷ [])
          s
          (client_pre_post_req_buffer fab s)
  unfolding client_pre_post_req_buffer
  pre_post-Makes =
      (making fab doc req_mr (λ e. minus_one) (minus_one-ne fab doc)
        (making fab doc server_metadata_mr (λ e. no_memory) (no_memory-ne fab doc)
          (plain fab doc
            (λ t.
              ends fab (fab.call post_recv t.world).value
                (in_world fab t (fab.call post_recv t.world).world))
            (λ t. refl)))).1

  connect-Makes : (s : Setup fab.World) → Makes fab doc [] s (client_connect_to_server fab s)
  unfolding client_connect_to_server
  connect-Makes =
      (calling fab doc connect_id (waiting_for fab doc established (done_with fab doc))).1

  expect_two-ops : (x : Option ℕ × Setup fab.World) → (expect_two fab x).1.ops ≡ x.1.ops
  unfolding expect_two
  expect_two-ops (none, s) = refl
  expect_two-ops (some ret, s) = ground arith

  xchange-Makes :
      (fuel : ℕ) (s : Setup fab.World)
      → Makes fab doc
          (made rtn_mr ∷ made client_metadata_mr ∷ [])
          s
          (client_xchange_metadata_with_server fab fuel s)
  unfolding client_xchange_metadata_with_server
  xchange-Makes fuel =
      (making fab doc rtn_mr (λ e. minus_one) (minus_one-ne fab doc)
        (making fab doc client_metadata_mr (λ e. no_memory) (no_memory-ne fab doc)
          (calling fab doc post_send (
            plain fab doc (λ t. expect_two fab (process_work_completion_events fab fuel 2 t))
              (λ t.
                expect_two-ops (process_work_completion_events fab fuel 2 t)
                ∙ completions-ops fab fuel 2 t))))).1

  connect_server-Makes :
      (fuel : ℕ) (s : Setup fab.World) → Makes fab doc all_made s (connect_server fab fuel s)
  unfolding connect_server
  connect_server-Makes fuel =
      (joining fab doc (client_prepare_connection fab, client_prepare-Makes)
        (joining fab doc (client_pre_post_req_buffer fab, pre_post-Makes)
          (joining fab doc (client_connect_to_server fab, connect-Makes)
            (joining fab doc (client_xchange_metadata_with_server fab fuel, xchange-Makes fuel)
              (done_with fab doc))))).1

  -- However `connect_server` ends, or where it stands when its fuel ends, it has made the first
  -- resources of a connection, in their order, and has destroyed none: those made before a failure
  -- are left. The library's failures set `errno` as documented.
  pub connect_server-keeps :
      (fuel : ℕ) (s : Setup fab.World)
      → (ms : List Op) × (zs : List Op) × (ms ++ zs ≡ all_made)
        × ((connect_server fab fuel s).1.ops ≡ s.ops ++ ms)
  connect_server-keeps fuel s =
      let (ms, zs, split, ops, all) = connect_server-Makes fuel s in (ms, zs, split, ops)

  pub connect_server-all :
      (fuel : ℕ) (s : Setup fab.World)
      → (connect_server fab fuel s).0 ≡ some 0
      → (connect_server fab fuel s).1.ops ≡ s.ops ++ all_made
  connect_server-all fuel s done' =
      let (ms, zs, split, ops, all) = connect_server-Makes fuel s in
      ops ∙ ap (λ l. s.ops ++ l) (sym (append-nil ms) ∙ ap (λ l. ms ++ l) (sym (all done')) ∙ split)
