-- ===== src/Card/Loop/Errors.antt =====
-- A connection's thread never gets stuck in a request.
use socket_to_rdma.Base.{
  refl, ℕ, zero, suc, ◌≢◌, true, false, Option, none, some, ◌==◌, is_pos, neg32, if◌then◌else◌,
  Bool,
}
use socket_to_rdma.Card.Env.{Env}
use socket_to_rdma.Card.Loop.{
  Completion, Device, waiting, polling, Thread, Turn, goes, returned, left, polled, received,
  after_event, take_completion, At, turn_at, next_turn, thread_loop, process_poll_cq_imm, start,
}
use socket_to_rdma.Card.Server.{Card, Next, served, connects, disconnects, rdma_req_event}
use socket_to_rdma.Card.Server.Errors.{rdma_req_event-ne-none}

if-ne-none :
    {A : Type 0} (b : Bool) (x y : Option A) → x ≢ none → y ≢ none → (if b then x else y) ≢ none
if-ne-none true x y hx hy = hx
if-ne-none false x y hx hy = hy

some-ne-none : {A : Type 0} (a : A) → some a ≢ none
some-ne-none a h = cc

module _ (env : Env) (dev : Device env.World) where
  after_event-ne-none :
      (wc : Completion) (o : Option (Next env)) → o ≢ none → after_event env dev wc o ≢ none
  after_event-ne-none wc none h = absurd (h refl)
  after_event-ne-none wc (some (served c)) h = some-ne-none _
  after_event-ne-none wc (some (connects c)) h = some-ne-none _
  after_event-ne-none wc (some (disconnects c)) h = some-ne-none _

  take_completion-ne-none :
      (wc : Completion) (c : Card env.World) → take_completion env dev wc c ≢ none
  unfolding take_completion
  take_completion-ne-none wc c =
      let (a, wc') = dev.poll_cq c.world wc in
      let d = polled env dev wc c in
      let k = received env dev wc' d in
      let serves =
        after_event-ne-none wc' (rdma_req_event env (dev.fresh k.world) (dev.allocates k.world) k)
          (rdma_req_event-ne-none env (dev.fresh k.world) (dev.allocates k.world) k) in
      if-ne-none (is_pos a.value) _ _
        (if-ne-none (wc'.status == 0) _ _
          (if-ne-none (wc'.opcode == dev.recv_rdma_with_imm) _ _ serves
            (some-ne-none (goes (record { at = polling; wc = wc'; card = d }))))
          (some-ne-none (returned (neg32 wc'.status) d)))
        (some-ne-none (goes (record { at = waiting; wc = wc'; card = d })))

  turn_at-ne-none : (a : At) (wc : Completion) (c : Card env.World) → turn_at env dev a wc c ≢ none
  unfolding turn_at
  turn_at-ne-none waiting wc c = some-ne-none _
  turn_at-ne-none polling wc c = take_completion-ne-none wc c

  next_turn-ne-none :
      (again : Thread env.World → Option (Turn env dev)) (o : Option (Turn env dev))
      → ((t : Thread env.World) → again t ≢ none)
      → o ≢ none
      → next_turn env dev again o ≢ none
  next_turn-ne-none again none h o' = absurd (o' refl)
  next_turn-ne-none again (some (goes t)) h o' = h t
  next_turn-ne-none again (some (returned v c)) h o' = some-ne-none _
  next_turn-ne-none again (some (left n)) h o' = some-ne-none _

  thread_loop-ne-none : (fuel : ℕ) (t : Thread env.World) → thread_loop env dev fuel t ≢ none
  unfolding thread_loop
  thread_loop-ne-none zero t = some-ne-none _
  thread_loop-ne-none (suc fuel) t =
      next_turn-ne-none _ _ (thread_loop-ne-none fuel) (turn_at-ne-none t.at t.wc t.card)

  -- Whatever request comes, known or not, and whatever the calls, the posts and the queue answer, the
  -- loop that sends a reply ends within its fuel: a thread that has made any number of turns stands at
  -- the next, has returned, or stands where the set-up of a new connection or the end of its own
  -- begins. Each call of the kernel's and of the library's returns; what those two do is not part of
  -- this.
  pub process_poll_cq_imm-ne-none :
      (fuel : ℕ) (c : Card env.World) → process_poll_cq_imm env dev fuel c ≢ none
  unfolding process_poll_cq_imm
  process_poll_cq_imm-ne-none fuel c = thread_loop-ne-none fuel (start env dev c)
