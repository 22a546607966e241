-- ===== src/Card/Loop/Tests.antt =====
-- The thread's theorems at a queue that has two close requests for descriptor 5.
use socket_to_rdma.Base.{ℕ, ◌+◌, ◌≡◌, ◌≢◌, refl, true, none, [], ◌∷◌, ◌++◌, if◌then◌else◌, ltb}
use socket_to_rdma.Card.Loop.{Device, Completion, Thread, start, thread_loop, process_poll_cq_imm}
use socket_to_rdma.Card.Loop.Errors.{process_poll_cq_imm-ne-none}
use socket_to_rdma.Card.Loop.Order.{
  Turns, here, event, request, at_poll, armed, taken, requested, process_poll_cq_imm-Turns,
}
use socket_to_rdma.Card.Server.Work.{answer_of, answer_reply}
use socket_to_rdma.Card.Server.{Card}
use socket_to_rdma.Card.Socket.{sock_close}
use socket_to_rdma.Card.Tests.{kernel, card, says}
use socket_to_rdma.Message.{htonl, req_close}

-- a request until the kernel has counted ten calls, and nothing afterwards
abbrev queue : Device ℕ
queue = record {
  get_cq_event = λ w. says w 0;
  ack_cq_events = λ w. w;
  req_notify_cq = λ w. says w 0;
  poll_cq = λ w wc.
      (says w (if ltb w 10 then 1 else 0), record { status = 0; opcode = 129; imm_data = htonl 5 });
  post_recv = λ w. says w 0;
  req_memory = λ w req. record req { rdma_req = 2; port = w };
  recv_rdma_with_imm = 129;
  fresh = λ w. 0;
  allocates = λ w. true;
}

-- the thread behind the event, behind the first request and behind the second
abbrev first : Thread ℕ
first = start kernel queue (card 2 9 0)

abbrev c0 : Card ℕ
c0 = armed kernel queue first.card

abbrev k1 : Card ℕ
k1 = requested kernel queue first.wc c0

abbrev c1 : Card ℕ
c1 = answer_of kernel req_close k1

abbrev k2 : Card ℕ
k2 = requested kernel queue (taken kernel queue first.wc c0) c1

abbrev c2 : Card ℕ
c2 = answer_of kernel req_close k2

abbrev last_wc : Completion
last_wc = taken kernel queue (taken kernel queue first.wc c0) c1

two_closes :
    Turns kernel queue first
      (answer_reply kernel req_close k1 ∷ answer_reply kernel req_close k2 ∷ [])
      3
      (at_poll kernel queue last_wc c2)
unfolding sock_close
two_closes = event refl refl (
    request req_close refl refl refl refl refl refl
      (request req_close refl refl refl refl refl refl here))

process_poll_cq_imm-Turns_example :
    (process_poll_cq_imm kernel queue (3 + 7) (card 2 9 0)
      ≡ thread_loop kernel queue 7 (at_poll kernel queue last_wc c2))
    × (c2.sent ≡ [] ++ answer_reply kernel req_close k1 ∷ answer_reply kernel req_close k2 ∷ [])
process_poll_cq_imm-Turns_example =
    process_poll_cq_imm-Turns kernel queue (λ w imm rtn. refl) 7 3 (card 2 9 0)
      (answer_reply kernel req_close k1 ∷ answer_reply kernel req_close k2 ∷ [])
      (at_poll kernel queue last_wc c2) two_closes

process_poll_cq_imm-ne-none_example : process_poll_cq_imm kernel queue 9 (card 2 9 0) ≢ none
process_poll_cq_imm-ne-none_example = process_poll_cq_imm-ne-none kernel queue 9 (card 2 9 0)
