-- ===== src/Card/Loop/Order.antt =====
-- The order in which a connection's thread serves its requests.
use socket_to_rdma.Base.{
  ℕ, zero, suc, ◌+◌, ◌≡◌, ◌≢◌, refl, sym, true, false, some, List, [], ◌∷◌, ◌++◌, ◌∙◌, ap, is_pos,
  arith, ◌==◌,
}
use mathlib.Core.List.{append_assoc, append-nil}
use socket_to_rdma.Card.Env.{Env}
use socket_to_rdma.Card.Loop.{
  Completion, Device, waiting, polling, Thread, goes, in_world, polled, received, after_event,
  await_event, take_completion, turn, turn_at, thread_loop, process_poll_cq_imm, start,
}
use socket_to_rdma.Card.Server.{Card, Reply}
use socket_to_rdma.Card.Server.Replies.{PostsOk}
use socket_to_rdma.Card.Server.Work.{
  is_call, fits, answer_of, answer_reply, serve-work, answer_of-sent,
}
use socket_to_rdma.Message.{RdmaReq, code}

module _ (env : Env) (dev : Device env.World) where
  abbrev pub at_wait : Completion → Card env.World → Thread env.World
  at_wait wc c = record { at = waiting; wc = wc; card = c }

  abbrev pub at_poll : Completion → Card env.World → Thread env.World
  at_poll wc c = record { at = polling; wc = wc; card = c }

  abbrev pub awaited : Card env.World → Card env.World
  awaited c = in_world env dev c (dev.get_cq_event c.world).world

  abbrev pub armed : Card env.World → Card env.World
  armed c =
      in_world env dev c
        (dev.req_notify_cq (dev.ack_cq_events (dev.get_cq_event c.world).world)).world

  abbrev pub taken : Completion → Card env.World → Completion
  taken wc c = (dev.poll_cq c.world wc).1

  -- the card as a request that is taken off is dispatched
  abbrev pub requested : Completion → Card env.World → Card env.World
  requested wc c = received env dev (taken wc c) (polled env dev wc c)

  -- The turns that a thread can make without an error: the replies that it sends in them, in order,
  -- their number, and where it stands afterwards.
  pub data Turns : Thread env.World → List Reply → ℕ → Thread env.World → Type 0 where
    here : {t : Thread env.World} → Turns t [] zero t
    no_event :
        {wc : Completion} {c : Card env.World} {rs : List Reply} {n : ℕ} {e : Thread env.World}
        → (dev.get_cq_event c.world).value ≢ 0
        → Turns (at_wait wc (awaited c)) rs n e
        → Turns (at_wait wc c) rs (suc n) e
    event :
        {wc : Completion} {c : Card env.World} {rs : List Reply} {n : ℕ} {e : Thread env.World}
        → (dev.get_cq_event c.world).value ≡ 0
        → (dev.req_notify_cq (dev.ack_cq_events (dev.get_cq_event c.world).world)).value ≡ 0
        → Turns (at_poll wc (armed c)) rs n e
        → Turns (at_wait wc c) rs (suc n) e
    empty :
        {wc : Completion} {c : Card env.World} {rs : List Reply} {n : ℕ} {e : Thread env.World}
        → is_pos (dev.poll_cq c.world wc).0.value ≡ false
        → Turns (at_wait (taken wc c) (polled env dev wc c)) rs n e
        → Turns (at_poll wc c) rs (suc n) e
    other :
        {wc : Completion} {c : Card env.World} {rs : List Reply} {n : ℕ} {e : Thread env.World}
        → is_pos (dev.poll_cq c.world wc).0.value ≡ true
        → (taken wc c).status ≡ 0
        → (taken wc c).opcode ≢ dev.recv_rdma_with_imm
        → Turns (at_poll (taken wc c) (polled env dev wc c)) rs n e
        → Turns (at_poll wc c) rs (suc n) e
    request :
        {wc : Completion} {c : Card env.World} {rs : List Reply} {n : ℕ} {e : Thread env.World}
        → (r : RdmaReq) → is_pos (dev.poll_cq c.world wc).0.value ≡ true
        → (taken wc c).status ≡ 0
        → (taken wc c).opcode ≡ dev.recv_rdma_with_imm
        → (requested wc c).req.rdma_req ≡ code r
        → is_call r ≡ true
        → fits env r (requested wc c) ≡ true
        → Turns (at_poll (taken wc c) (answer_of env r (requested wc c))) rs n e
        → Turns (at_poll wc c) (answer_reply env r (requested wc c) ∷ rs) (suc n) e

  await_event-none :
      (wc : Completion) (c : Card env.World)
      → (dev.get_cq_event c.world).value ≢ 0
      → await_event env dev wc c ≡ goes (at_wait wc (awaited c))
  unfolding await_event
  await_event-none wc c h = ground arith

  await_event-armed :
      (wc : Completion) (c : Card env.World)
      → (dev.get_cq_event c.world).value ≡ 0
      → (dev.req_notify_cq (dev.ack_cq_events (dev.get_cq_event c.world).world)).value ≡ 0
      → await_event env dev wc c ≡ goes (at_poll wc (armed c))
  unfolding await_event
  await_event-armed wc c h0 h1 = rw (h0, h1) refl

  take_completion-empty :
      (wc : Completion) (c : Card env.World)
      → is_pos (dev.poll_cq c.world wc).0.value ≡ false
      → take_completion env dev wc c ≡ some (goes (at_wait (taken wc c) (polled env dev wc c)))
  unfolding take_completion
  take_completion-empty wc c h = rw h refl

  take_completion-other :
      (wc : Completion) (c : Card env.World)
      → is_pos (dev.poll_cq c.world wc).0.value ≡ true
      → (taken wc c).status ≡ 0
      → (taken wc c).opcode ≢ dev.recv_rdma_with_imm
      → take_completion env dev wc c ≡ some (goes (at_poll (taken wc c) (polled env dev wc c)))
  unfolding take_completion
  take_completion-other wc c h0 h1 h2 = rw (h0, h1) (ground arith)

  take_completion-request :
      PostsOk env
      → (wc : Completion) (c : Card env.World) (r : RdmaReq)
      → is_pos (dev.poll_cq c.world wc).0.value ≡ true
      → (taken wc c).status ≡ 0
      → (taken wc c).opcode ≡ dev.recv_rdma_with_imm
      → (requested wc c).req.rdma_req ≡ code r
      → is_call r ≡ true
      → fits env r (requested wc c) ≡ true
      → take_completion env dev wc c
        ≡ some (goes (at_poll (taken wc c) (answer_of env r (requested wc c))))
  unfolding take_completion
  take_completion-request ok wc c r h0 h1 h2 e call fit =
      let k = requested wc c in
      let served' =
        (serve-work env ok (dev.fresh k.world) (dev.allocates k.world) r k e call fit).0 in
      let good : ((taken wc c).status == 0) ≡ true = rw h1 refl in
      let with_imm : ((taken wc c).opcode == dev.recv_rdma_with_imm) ≡ true = ground arith in
      rw (h0, good, with_imm) (ap (after_event env dev (taken wc c)) served')

  -- the replies of an answered request, and those behind it
  answered_then :
      (r : RdmaReq) (c : Card env.World) (rs : List Reply) (sent : List Reply)
      → sent ≡ (answer_of env r c).sent ++ rs
      → sent ≡ c.sent ++ answer_reply env r c ∷ rs
  answered_then r c rs sent h =
      h
      ∙ ap (λ q. q ++ rs) (answer_of-sent env r c)
      ∙ append_assoc c.sent (answer_reply env r c ∷ []) rs

  -- a turn that goes on to the next, before those that are counted
  thread_loop-goes :
      (n fuel : ℕ) (t u : Thread env.World)
      → turn env dev t ≡ some (goes u)
      → thread_loop env dev (suc n + fuel) t ≡ thread_loop env dev (n + fuel) u
  unfolding thread_loop
  thread_loop-goes n fuel t u h =
      let more : suc n + fuel ≡ suc (n + fuel) = omega arith in rw more (rw h refl)

  -- A thread makes such turns whatever fuel is left for what comes behind them.
  thread_loop-Turns :
      PostsOk env
      → (fuel : ℕ) {t e : Thread env.World} {rs : List Reply} {n : ℕ} → Turns t rs n e
      → (thread_loop env dev (n + fuel) t ≡ thread_loop env dev fuel e)
        × (e.card.sent ≡ t.card.sent ++ rs)
  unfolding turn_at
  thread_loop-Turns ok fuel here =
      let no_more : zero + fuel ≡ fuel = omega arith in
      (ap (λ m. thread_loop env dev m _) no_more, sym (append-nil _))
  thread_loop-Turns ok fuel (no_event {wc = wc} {c = c} h s) =
      let (runs, sent) = thread_loop-Turns ok fuel s in
      (thread_loop-goes _ fuel _ _ (ap some (await_event-none wc c h)) ∙ runs, sent)
  thread_loop-Turns ok fuel (event {wc = wc} {c = c} h0 h1 s) =
      let (runs, sent) = thread_loop-Turns ok fuel s in
      (thread_loop-goes _ fuel _ _ (ap some (await_event-armed wc c h0 h1)) ∙ runs, sent)
  thread_loop-Turns ok fuel (empty {wc = wc} {c = c} h s) =
      let (runs, sent) = thread_loop-Turns ok fuel s in
      (thread_loop-goes _ fuel _ _ (take_completion-empty wc c h) ∙ runs, sent)
  thread_loop-Turns ok fuel (other {wc = wc} {c = c} h0 h1 h2 s) =
      let (runs, sent) = thread_loop-Turns ok fuel s in
      (thread_loop-goes _ fuel _ _ (take_completion-other wc c h0 h1 h2) ∙ runs, sent)
  thread_loop-Turns ok fuel (request {wc = wc} {c = c} {rs = rs} r h0 h1 h2 e call fit s) =
      let (runs, sent) = thread_loop-Turns ok fuel s in
      (
        thread_loop-goes _ fuel _ _ (take_completion-request ok wc c r h0 h1 h2 e call fit) ∙ runs,
        answered_then r (requested wc c) rs _ sent,
      )

  -- A thread that starts and gets these events and completions serves each request that is among
  -- them once, in the order of the completions, and posts one reply to each; then it goes on from
  -- there. Each request is one of a function of snic/socket.c other than sock_epoll_create1, and the
  -- data of a read fit one message; there is none for a connection or its end, and none that is not
  -- known. No notification fails and no completion has a bad status. The posts succeed, and the fuel
  -- is one for each wait for an event and each look at the queue, and what is left for the rest.
  pub process_poll_cq_imm-Turns :
      PostsOk env
      → (fuel n : ℕ) (c : Card env.World) (rs : List Reply) (e : Thread env.World)
      → Turns (start env dev c) rs n e
      → (process_poll_cq_imm env dev (n + fuel) c ≡ thread_loop env dev fuel e)
        × (e.card.sent ≡ c.sent ++ rs)
  unfolding process_poll_cq_imm
  process_poll_cq_imm-Turns ok fuel n c rs e h = thread_loop-Turns ok fuel h
