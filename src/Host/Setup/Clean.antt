-- ===== src/Host/Setup/Clean.antt =====
-- The end of a connection that was set up: the destroy of everything is called, and of nothing while
-- it is in use.
use socket_to_rdma.Base.{
  ℕ, ◌≡◌, ◌≢◌, ◌==◌, refl, Option, none, some, Bool-cases, inl, inr, List, [], ◌∷◌, ◌++◌, ◌∙◌, ap,
}
use socket_to_rdma.Rdma.{
  cm_event_channel, cm_client_id, pd, io_completion_channel, client_cq, client_qp, req_mr,
  server_metadata_mr, rtn_mr, client_metadata_mr, ack_cm_event, disconnect_id, disconnected, Op,
  destroyed, Fabric, Setup, in_world, process_rdma_cm_event, destroy,
}
use socket_to_rdma.Host.Setup.{
  connect_server, clean, acknowledged, client_disconnect_and_clean,
  client_recv_disconnect_and_clean,
}
use socket_to_rdma.Rdma.Held.{held_after}
use socket_to_rdma.Rdma.Making.{Documented, cm_event-ops}
use socket_to_rdma.Host.Setup.Resources.{all_made, connect_server-all}

abbrev pub all_destroyed : List Op → List Op
all_destroyed os =
    ((((((((((os ++ destroyed client_qp ∷ []) ++ destroyed cm_client_id ∷ [])
                    ++ destroyed client_cq ∷ [])
                  ++ destroyed io_completion_channel ∷ [])
                ++ destroyed server_metadata_mr ∷ [])
              ++ destroyed client_metadata_mr ∷ [])
            ++ destroyed rtn_mr ∷ [])
          ++ destroyed req_mr ∷ [])
        ++ destroyed pd ∷ [])
      ++ destroyed cm_event_channel ∷ [])

-- each destroy is called of what has been made and not been destroyed, and nothing is left to destroy
pub all_destroyed-clean : held_after (all_destroyed all_made) [] ≡ some []
unfolding held_after
all_destroyed-clean = refl

module _ (fab : Fabric) where
  clean-ops : (s : Setup fab.World) → (clean fab s).ops ≡ all_destroyed s.ops
  unfolding clean destroy
  clean-ops s = refl

  -- what the end of a connection that comes to its end has called
  acknowledged-ops :
      (s t : Setup fab.World) (ret : Option ℕ)
      → t.ops ≡ s.ops
      → (acknowledged fab (ret, t)).0 ≢ none
      → (acknowledged fab (ret, t)).1.ops ≡ all_destroyed s.ops
  unfolding acknowledged
  acknowledged-ops s t none e h = absurd (h refl)
  acknowledged-ops s t (some ret) e h = elim (Bool-cases (ret == 0)) [
    | inl good ↦
        rw good
          (clean-ops (in_world fab t (fab.call ack_cm_event t.world).world) ∙ ap all_destroyed e)
    | inr bad ↦ absurd ((rw bad at h) refl)
  ]

  recv_disconnect-ops :
      (s : Setup fab.World)
      → (client_recv_disconnect_and_clean fab s).0 ≢ none
      → (client_recv_disconnect_and_clean fab s).1.ops ≡ all_destroyed s.ops
  unfolding client_recv_disconnect_and_clean
  recv_disconnect-ops s h =
      acknowledged-ops s (process_rdma_cm_event fab disconnected s).1
        (process_rdma_cm_event fab disconnected s).0 (cm_event-ops fab disconnected s) h

  pub disconnect-ops :
      (s : Setup fab.World)
      → (client_disconnect_and_clean fab s).0 ≢ none
      → (client_disconnect_and_clean fab s).1.ops ≡ all_destroyed s.ops
  unfolding client_disconnect_and_clean
  disconnect-ops s = recv_disconnect-ops (in_world fab s (fab.call disconnect_id s.world).world)

  -- the event that is taken at this point says that the connection has ended
  abbrev pub IsDisconnected : fab.World → Type 0
  IsDisconnected w =
      ((fab.get_cm_event w).0.value ≡ 0)
      × ((fab.get_cm_event w).1.status ≡ 0)
      × ((fab.get_cm_event w).1.event ≡ disconnected)

  recv_disconnect-zero :
      (s : Setup fab.World)
      → IsDisconnected s.world
      → (client_recv_disconnect_and_clean fab s).0 ≡ some 0
  unfolding client_recv_disconnect_and_clean process_rdma_cm_event acknowledged
  recv_disconnect-zero s (got, good, is) = rw (got, good, is) refl

  disconnect-zero :
      (s : Setup fab.World)
      → IsDisconnected (fab.call disconnect_id s.world).world
      → (client_disconnect_and_clean fab s).0 ≡ some 0
  unfolding client_disconnect_and_clean
  disconnect-zero s = recv_disconnect-zero (in_world fab s (fab.call disconnect_id s.world).world)

  -- Once `connect_server` has returned 0 and where the event that either way to disconnect waits for
  -- is that of the disconnect, that way returns 0 and has called the library's destroy of each
  -- resource of the connection once, and of none before that of another that is made on it. A
  -- destroy that fails is only printed, and its resource stays. The library's failures set `errno`
  -- as documented.
  pub disconnect-clean :
      Documented fab
      → (fuel : ℕ) (s : Setup fab.World) → s.ops ≡ []
      → (connect_server fab fuel s).0 ≡ some 0
      → IsDisconnected (connect_server fab fuel s).1.world
      → IsDisconnected (fab.call disconnect_id (connect_server fab fuel s).1.world).world
      → let t = (connect_server fab fuel s).1 in
        ((client_disconnect_and_clean fab t).0 ≡ some 0)
        × (held_after (client_disconnect_and_clean fab t).1.ops [] ≡ some [])
        × ((client_recv_disconnect_and_clean fab t).0 ≡ some 0)
        × (held_after (client_recv_disconnect_and_clean fab t).1.ops [] ≡ some [])
  disconnect-clean doc fuel s start connected now behind =
      let t = (connect_server fab fuel s).1 in
      let whole : t.ops ≡ all_made =
        connect_server-all fab doc fuel s connected ∙ ap (λ l. l ++ all_made) start in
      let fate : held_after (all_destroyed t.ops) [] ≡ some [] =
        ap (λ l. held_after (all_destroyed l) []) whole ∙ all_destroyed-clean in
      let sent = disconnect-zero t behind in
      let received = recv_disconnect-zero t now in
      (
        sent,
        ap (λ l. held_after l []) (disconnect-ops t (λ e. cc)) ∙ fate,
        received,
        ap (λ l. held_after l []) (recv_disconnect-ops t (λ e. cc)) ∙ fate,
      )
