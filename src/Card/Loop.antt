-- ===== src/Card/Loop.antt =====
-- process_poll_cq_imm of snic/rdma_server.c: a connection's thread waits for events of its completion
-- queue and serves a request for each completion of a write with an immediate value. Its two nested
-- loops are turns of one machine; the allocation of the completion's memory succeeds.
pub mod Order
pub mod Errors
pub mod Tests
use socket_to_rdma.Base.{ℕ, zero, suc, Bool, Option, none, some, ◌==◌, if◌then◌else◌, is_pos, neg32}
use socket_to_rdma.Card.Env.{Answer, Env}
use socket_to_rdma.Card.Server.{Card, Next, served, connects, disconnects, rdma_req_event}
use socket_to_rdma.Message.{ReqMsg, htonl}

-- the fields of a work completion that are looked at
pub record Completion : Type 0 where
  pub status : ℕ
  pub opcode : ℕ
  pub imm_data : ℕ

-- What the loop calls of the verbs library, in a state that the device shares with the kernel.
-- `req_memory` is what the request's memory holds once a completion is taken off, by what the card
-- left in it: the host writes there. `fresh` and `allocates` are the address of a new
-- `struct socket_info` and whether a table's node is allocated.
pub record Device (W : Type 0) : Type 0 where
  pub get_cq_event : W → Answer W
  pub ack_cq_events : W → W
  pub req_notify_cq : W → Answer W
  -- writes the completion that it is given, if it has one
  pub poll_cq : W → Completion → Answer W × Completion
  -- its value is only printed
  pub post_recv : W → Answer W
  pub req_memory : W → ReqMsg → ReqMsg
  -- `IBV_WC_RECV_RDMA_WITH_IMM`
  pub recv_rdma_with_imm : ℕ
  pub fresh : W → ℕ
  pub allocates : W → Bool

-- at the wait for an event, or at the test of the inner loop
pub data At : Type 0 where
  waiting polling : At

pub record Thread (W : Type 0) : Type 0 where
  pub at : At
  pub wc : Completion
  pub card : Card W

module _ (env : Env) (dev : Device env.World) where
  -- how a turn ends: in the next, in `return`, or where the set-up of a new connection or the end of
  -- this one begins
  pub data Turn : Type 0 where
    goes : Thread env.World → Turn
    returned : ℕ → Card env.World → Turn
    left : Next env → Turn

  abbrev pub in_world : Card env.World → env.World → Card env.World
  in_world c w = record c { world = w }

  -- the card once a completion is taken off, or none is
  abbrev pub polled : Completion → Card env.World → Card env.World
  polled wc c =
      let w = (dev.poll_cq c.world wc).0.world in
      record c { world = w; req = dev.req_memory w c.req }

  -- the card as the request is dispatched: the buffer is posted again, and the descriptor is that of
  -- the immediate value
  abbrev pub received : Completion → Card env.World → Card env.World
  received wc c = record c { sockfd = htonl wc.imm_data; world = (dev.post_recv c.world).world }

  abbrev pub after_event : Completion → Option (Next env) → Option Turn
  after_event wc none = none
  after_event wc (some (served c)) = some (goes (record { at = polling; wc = wc; card = c }))
  after_event wc (some (connects c)) = some (left (connects c))
  after_event wc (some (disconnects c)) = some (left (disconnects c))

  abbrev pub dispatched : Completion → Card env.World → Option Turn
  dispatched wc c =
      after_event wc (rdma_req_event env (dev.fresh c.world) (dev.allocates c.world) c)

  -- a turn of the outer loop up to the inner one
  unfoldable pub await_event : Completion → Card env.World → Turn
  await_event wc c =
      let a = dev.get_cq_event c.world in
      let b = dev.req_notify_cq (dev.ack_cq_events a.world) in
      if a.value == 0
      then if b.value == 0
        then goes (record { at = polling; wc = wc; card = in_world c b.world })
        else returned (neg32 b.errno) (in_world c b.world)
      else goes (record { at = waiting; wc = wc; card = in_world c a.world })

  -- a turn of the inner loop
  unfoldable pub take_completion : Completion → Card env.World → Option Turn
  take_completion wc c =
      let (a, wc') = dev.poll_cq c.world wc in
      let d = polled wc c in
      if is_pos a.value
      then if wc'.status == 0
        then if wc'.opcode == dev.recv_rdma_with_imm
          then dispatched wc' (received wc' d)
          else some (goes (record { at = polling; wc = wc'; card = d }))
        else some (returned (neg32 wc'.status) d)
      else some (goes (record { at = waiting; wc = wc'; card = d }))

  -- `none` is a dispatch that does not end
  unfoldable pub turn_at : At → Completion → Card env.World → Option Turn
  unfolding await_event take_completion
  turn_at waiting wc c = some (await_event wc c)
  turn_at polling wc c = take_completion wc c

  abbrev pub turn : Thread env.World → Option Turn
  turn t = turn_at t.at t.wc t.card

  abbrev pub next_turn : (Thread env.World → Option Turn) → Option Turn → Option Turn
  next_turn again none = none
  next_turn again (some (goes t)) = again t
  next_turn again (some (returned v c)) = some (returned v c)
  next_turn again (some (left n)) = some (left n)

  -- at most `fuel` turns; a thread that goes on afterwards is handed back
  unfoldable pub thread_loop : (fuel : ℕ) → Thread env.World → Option Turn
  unfolding turn_at
  thread_loop zero t = some (goes t)
  thread_loop (suc fuel) t = next_turn (thread_loop fuel) (turn t)

  -- the thread as the loop starts, with the completion's memory cleared
  abbrev pub start : Card env.World → Thread env.World
  start c = record { at = waiting; wc = record { status = 0; opcode = 0; imm_data = 0 }; card = c }

  unfoldable pub process_poll_cq_imm : (fuel : ℕ) → Card env.World → Option Turn
  unfolding thread_loop
  process_poll_cq_imm fuel c = thread_loop fuel (start c)
