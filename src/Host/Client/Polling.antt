-- ===== src/Host/Client/Polling.antt =====
-- The polling for the return message ends at it, and a post is made once.
use socket_to_rdma.Base.{
  ℕ, zero, suc, ◌+◌, ◌<◌, ◌≡◌, ◌≢◌, refl, true, Option, some, List, [], ◌∷◌, arith, ◌∙◌, ap, length,
}
use socket_to_rdma.Host.Client.{
  Polled, arrived, dry, process_rdma_get_cq_event, poll_loop, after_poll, event_loop,
  process_poll_cq_imm,
}
use socket_to_rdma.Host.Verbs.{Verbs, Wc}

-- what the queue holds before the return message: another completion, or nothing until the next
-- event
pub data Wait : Type 0 where
  other empty : Wait

module _ (verbs : Verbs) where
  -- an event is there and the queue is armed again
  abbrev pub EventOk : verbs.World → Type 0
  EventOk w = (process_rdma_get_cq_event verbs w).0 ≡ 1

  abbrev pub event_world : verbs.World → verbs.World
  event_world w = (process_rdma_get_cq_event verbs w).1

  abbrev pub polled_world : verbs.World → Wc → verbs.World
  polled_world w wc = (verbs.poll_cq w wc).0.world

  -- After these waits a poll of the queue yields the completion of the return message.
  unfoldable pub Arrives : List Wait → verbs.World → Wc → verbs.World → Type 0
  Arrives [] w wc end =
      let (a, wc') = verbs.poll_cq w wc in
      (a.value ≢ 0)
      × (wc'.status ≡ 0)
      × (wc'.opcode ≡ verbs.recv_rdma_with_imm)
      × (wc'.with_imm ≡ true)
      × (a.world ≡ end)
  Arrives (other ∷ ws) w wc end =
      let (a, wc') = verbs.poll_cq w wc in
      (a.value ≢ 0)
      × (wc'.status ≡ 0)
      × (wc'.opcode ≢ verbs.recv_rdma_with_imm)
      × Arrives ws a.world wc' end
  Arrives (empty ∷ ws) w wc end =
      let (a, wc') = verbs.poll_cq w wc in
      (a.value ≡ 0) × EventOk a.world × Arrives ws (event_world a.world) wc' end

  -- the outer loop's work behind the inner loop
  abbrev pub go_on : ℕ → Polled verbs.World → Option (ℕ × verbs.World)
  go_on fuel p = after_poll verbs (event_loop verbs fuel) 1 p

  event_loop-event :
      (fuel : ℕ) (wc : Wc) (w : verbs.World)
      → EventOk w
      → event_loop verbs (suc fuel) wc w ≡ go_on fuel (poll_loop verbs fuel wc (event_world w))
  unfolding event_loop
  event_loop-event fuel wc w ok = rw (ok, event_loop) refl

  poll_loop-arrived :
      (g : ℕ) (w : verbs.World) (wc : Wc)
      → (verbs.poll_cq w wc).0.value ≢ 0
      → (verbs.poll_cq w wc).1.status ≡ 0
      → (verbs.poll_cq w wc).1.opcode ≡ verbs.recv_rdma_with_imm
      → (verbs.poll_cq w wc).1.with_imm ≡ true
      → poll_loop verbs (suc g) wc w ≡ arrived (polled_world w wc)
  unfolding poll_loop
  poll_loop-arrived g w wc h0 h1 h2 h3 = ground arith

  poll_loop-other :
      (g : ℕ) (w : verbs.World) (wc : Wc)
      → (verbs.poll_cq w wc).0.value ≢ 0
      → (verbs.poll_cq w wc).1.status ≡ 0
      → (verbs.poll_cq w wc).1.opcode ≢ verbs.recv_rdma_with_imm
      → poll_loop verbs (suc g) wc w ≡ poll_loop verbs g (verbs.poll_cq w wc).1 (polled_world w wc)
  unfolding poll_loop
  poll_loop-other g w wc h0 h1 h2 = ground arith

  poll_loop-dry :
      (g : ℕ) (w : verbs.World) (wc : Wc)
      → (verbs.poll_cq w wc).0.value ≡ 0
      → poll_loop verbs (suc g) wc w ≡ dry (polled_world w wc) (verbs.poll_cq w wc).1
  unfolding poll_loop
  poll_loop-dry g w wc h = ground arith

  go_on-Arrives :
      (fuel g : ℕ) (ws : List Wait) (w : verbs.World) (wc : Wc) (end : verbs.World)
      → length ws < fuel
      → length ws < g
      → Arrives ws w wc end
      → go_on fuel (poll_loop verbs g wc w) ≡ some (1, end)
  unfolding poll_loop after_poll Arrives
  go_on-Arrives fuel zero ws w wc end lf lg h = absurd (omega arith)
  go_on-Arrives fuel (suc g) [] w wc end lf lg (some', status, opcode, imm, last) =
      rw (poll_loop-arrived g w wc some' status opcode imm) (ap (λ v. some (1, v)) last)
  go_on-Arrives fuel (suc g) (other ∷ ws) w wc end lf lg h =
      ap (go_on fuel) (poll_loop-other g w wc h.0 h.1 h.2)
      ∙ go_on-Arrives fuel g ws (polled_world w wc) (verbs.poll_cq w wc).1 end (omega arith)
          (omega arith) h.3
  go_on-Arrives zero (suc g) (empty ∷ ws) w wc end lf lg h = absurd (omega arith)
  go_on-Arrives (suc fuel) (suc g) (empty ∷ ws) w wc end lf lg h =
      ap (go_on (suc fuel)) (poll_loop-dry g w wc h.0)
      ∙ (event_loop-event fuel (verbs.poll_cq w wc).1 (polled_world w wc) h.1
          ∙ go_on-Arrives fuel fuel ws (event_world (polled_world w wc)) (verbs.poll_cq w wc).1 end
              (omega arith) (omega arith) h.2)

  -- With an event there, and the return message behind any number of other completions and of empty
  -- queues with a further event, the polling answers 1 in the state where the message has arrived.
  -- The fuel is two more than the number of these waits.
  pub poll-Arrives :
      (fuel : ℕ) (ws : List Wait) (w end : verbs.World)
      → length ws + 1 < fuel
      → EventOk w
      → Arrives ws (event_world w) verbs.uninit_wc end
      → process_poll_cq_imm verbs fuel w ≡ some (1, end)
  unfolding process_poll_cq_imm
  poll-Arrives zero ws w end l ok h = absurd (omega arith)
  poll-Arrives (suc fuel) ws w end l ok h =
      event_loop-event fuel verbs.uninit_wc w ok
      ∙ go_on-Arrives fuel fuel ws (event_world w) verbs.uninit_wc end (omega arith) (omega arith) h
