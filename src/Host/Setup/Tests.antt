-- ===== src/Host/Setup/Tests.antt =====
-- The set-up over a library that counts its calls, and over one that cannot make a queue.
use socket_to_rdma.Base.{
  ℕ, ◌+◌, ◌≡◌, ◌≢◌, none, refl, true, false, some, List, [], ◌∷◌, ◌++◌, if◌then◌else◌, ltb, arith,
}
use socket_to_rdma.Rdma.{
  Made, Resource, client_cq, addr_resolved, route_resolved, established, disconnected, Fabric, Op,
  Setup, process_work_completion_events, process_rdma_cm_event, make_or, call_or, then_or, reap,
  bad_status,
}
use socket_to_rdma.Host.Setup.{
  connect_server, client_disconnect_and_clean, client_recv_disconnect_and_clean,
  client_prepare_connection, client_pre_post_req_buffer, client_connect_to_server,
  client_xchange_metadata_with_server, expect_two,
}
use socket_to_rdma.Rdma.Making.{Documented}
use socket_to_rdma.Host.Setup.Resources.{all_made, connect_server-keeps}
use socket_to_rdma.Host.Setup.Ends.{connect_server-Ends}
use socket_to_rdma.Host.Setup.Clean.{disconnect-clean}
use socket_to_rdma.Rdma.Held.{held_after}

abbrev pub counting : Fabric
counting = record {
  World = ℕ;
  create = λ r w. record { ok = true; errno = 5; world = w + 1 };
  destroy = λ r w. w + 1;
  call = λ c w. record { value = 0; errno = 5; world = w + 1 };
  get_cm_event = λ w. (
    record { value = 0; errno = 5; world = w + 1 },
    record {
      status = 0;
      event =
          if ltb w 4
          then addr_resolved
          else if ltb w 8
          then route_resolved
          else if ltb w 20
          then established
          else disconnected;
    },
  );
  poll_cq = λ w n. (record { value = 1; errno = 5; world = w + 1 }, 0 ∷ []);
}

abbrev no_queue : Resource → ℕ → Made ℕ
no_queue client_cq w = record { ok = false; errno = 12; world = w }
no_queue _ w = record { ok = true; errno = 12; world = w + 1 }

abbrev failing : Fabric
failing = record counting { create = no_queue }

pub counting-Documented : Documented counting
counting-Documented = record {
  call-errno = λ c w h. (omega arith, omega arith);
  create-errno = λ r w h. (omega arith, omega arith);
}

no_queue-errno : (r : Resource) (w : ℕ) → (no_queue r w).errno ≡ 12
no_queue-errno client_cq w = refl
no_queue-errno _ w = refl

failing-Documented : Documented failing
failing-Documented = record {
  call-errno = λ c w h. (omega arith, omega arith);
  create-errno = λ r w h. let e = no_queue-errno r w in rw e (omega arith, omega arith);
}

abbrev pub start : Setup ℕ
start = record { world = 0; ops = [] }

connect_server-keeps_example :
    (ms : List Op) × (zs : List Op) × (ms ++ zs ≡ all_made)
    × ((connect_server failing 3 start).1.ops ≡ [] ++ ms)
connect_server-keeps_example = connect_server-keeps failing failing-Documented 3 start

disconnect-clean_example :
    let t = (connect_server counting 3 start).1 in
    ((client_disconnect_and_clean counting t).0 ≡ some 0)
    × (held_after (client_disconnect_and_clean counting t).1.ops [] ≡ some [])
    × ((client_recv_disconnect_and_clean counting t).0 ≡ some 0)
    × (held_after (client_recv_disconnect_and_clean counting t).1.ops [] ≡ some [])
unfolding connect_server client_prepare_connection client_pre_post_req_buffer
    client_connect_to_server client_xchange_metadata_with_server process_work_completion_events
    process_rdma_cm_event make_or call_or then_or reap expect_two bad_status
disconnect-clean_example =
    disconnect-clean counting counting-Documented 3 start refl refl (refl, refl, refl)
      (refl, refl, refl)

connect_server-Ends_example : (connect_server counting 2 start).0 ≢ none
connect_server-Ends_example =
    connect_server-Ends counting (λ w n h. omega arith) 2 start (omega arith)
