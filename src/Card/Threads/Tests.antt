-- ===== src/Card/Threads/Tests.antt =====
-- The whole card over a library that answers waits for an event with a connect request and with the
-- event of its establishment by turns, and whose first connection asks for a second.
use socket_to_rdma.Base.{
  ℕ, ◌+◌, ◌%◌, ◌≡◌, ◌⊎◌, refl, true, Option, none, some, List, [], ◌∷◌, ◌==◌, if◌then◌else◌, All,
  map, arith,
}
use socket_to_rdma.Card.Loop.{Device, turn_at}
use socket_to_rdma.Card.Server.{rdma_req_event, reply, write_msg_to_client}
use socket_to_rdma.Card.Setup.{start_thread}
use socket_to_rdma.Card.Setup.Accept.{Values}
use socket_to_rdma.Card.Tests.{kernel, card, says}
use socket_to_rdma.Card.Threads.{Stage, serving, ending, Threads, card_main}
use socket_to_rdma.Card.Threads.Whole.{IsWhole, card_main-IsWhole}
use socket_to_rdma.Hash.Table.{create_hash_table}
use socket_to_rdma.Message.{htonl, request_of}
use socket_to_rdma.Rdma.{connect_request, established, Fabric}
use socket_to_rdma.Rdma.Making.{Documented}

abbrev by_turns : Fabric
by_turns = record {
  World = ℕ;
  create = λ r w. record { ok = true; errno = 5; world = w };
  destroy = λ r w. w;
  call = λ c w. record { value = 0; errno = 5; world = w };
  get_cm_event = λ w. (
    record { value = 0; errno = 5; world = w + 1 },
    record { status = 0; event = if w % 2 == 0 then connect_request else established },
  );
  poll_cq = λ w n. (record { value = 1; errno = 5; world = w }, 0 ∷ []);
}

by_turns-Documented : Documented by_turns
by_turns-Documented = record {
  call-errno = λ c w h. (omega arith, omega arith);
  create-errno = λ r w h. (omega arith, omega arith);
}

by_turns-Values : Values by_turns
by_turns-Values = record { post_recv-errno = λ w. omega arith; poll_cq-int = λ w n. omega arith }

-- the first thread's requests ask for a connection, and the others' for the end of theirs
abbrev asks : ℕ → Device ℕ
asks i = record {
  get_cq_event = λ w. says w 0;
  ack_cq_events = λ w. w;
  req_notify_cq = λ w. says w 0;
  poll_cq = λ w wc. (says w 1, record { status = 0; opcode = 129; imm_data = htonl 5 });
  post_recv = λ w. says w 0;
  req_memory = λ w req. record req { rdma_req = if i == 0 then 19 else 20 };
  recv_rdma_with_imm = 129;
  fresh = λ w. 0;
  allocates = λ w. true;
}

-- the first thread serves a request for a connection, and the second one for its end
abbrev asked : List ℕ
asked = 0 ∷ 0 ∷ 1 ∷ 1 ∷ []

abbrev stages : Option (Threads by_turns kernel asks (card 0 0 0)) → List Stage
stages none = []
stages (some s) = map (λ w. w.stage) s.workers

two_threads :
    stages (card_main by_turns kernel asks (card 0 0 0) 2 0 0 0 create_hash_table asked)
    ≡ serving ∷ ending ∷ []
unfolding card_main start_thread turn_at rdma_req_event request_of reply write_msg_to_client
two_threads = refl

card_main-IsWhole_example :
    (card_main by_turns kernel asks (card 0 0 0) 2 0 0 0 create_hash_table asked ≡ none)
    ⊎ ((s : Threads by_turns kernel asks (card 0 0 0)) × (card_main by_turns kernel asks
            (card 0 0 0)
            2
            0
            0
            0
            create_hash_table
            asked
          ≡ some s)
        × All IsWhole s.workers)
card_main-IsWhole_example =
    card_main-IsWhole by_turns kernel asks (card 0 0 0) by_turns-Documented by_turns-Values 2 0 0 0
      create_hash_table asked
