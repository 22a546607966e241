-- ===== src/Host/Loopback.antt =====
-- A device that hands each posted request to a card at once and has its completion in the queue:
-- the interface Link of Host/Client/Link can be met for every kernel of the card. The card's
-- device reads a reply at the post, or, in `late_wire`, behind all of the card's stores.
use socket_to_rdma.Base.{
  ℕ, ◌≤◌, ◌≡◌, refl, ◌∙◌, ap, true, false, Option, some, List, [], ◌∷◌, ◌++◌, length, arith, inl,
  inr,
}
use socket_to_rdma.Card.Env.{Answer, Env}
use socket_to_rdma.Card.Server.{Card, Reply, Next, served, rdma_req_event}
use socket_to_rdma.Host.Client.{process_rdma_get_cq_event}
use socket_to_rdma.Host.Client.Polling.{Wait, EventOk, event_world, Arrives}
use socket_to_rdma.Host.Client.Link.{Link, ReadsAtPost, IsReadOf, arrive}
use socket_to_rdma.Host.Verbs.{Verbs}
use socket_to_rdma.Message.{ReqMsg, RtnMsg}

abbrev pub no_rtn : RtnMsg
no_rtn = record { errno_ = 0; rtn_value = 0; bytes = λ i. 0 }

-- the message of the last reply
unfoldable pub last_rtn : RtnMsg → List Reply → RtnMsg
last_rtn rtn [] = rtn
last_rtn rtn (r ∷ rs) = last_rtn r.rtn rs

last_rtn-append : (rtn : RtnMsg) (rs : List Reply) (r : Reply) → last_rtn rtn (rs ++ r ∷ []) ≡ r.rtn
unfolding last_rtn
last_rtn-append rtn [] r = refl
last_rtn-append rtn (s ∷ rs) r = last_rtn-append s.rtn rs r

abbrev fine : {W : Type 0} → W → Answer W
fine w = record { value = 0; errno = 0; world = w }

module _ (env : Env) where
  unfoldable pub next_card : Card env.World → Option (Next env) → Card env.World
  next_card c (some (served d)) = d
  next_card c _ = c

  abbrev pub wire : Verbs
  wire = record {
    World = Card env.World;
    post_send = λ w imm req. fine (next_card w (rdma_req_event env 0 true (arrive w req imm)));
    post_recv = λ w. w;
    get_cq_event = fine;
    ack_cq_events = λ w. w;
    req_notify_cq = fine;
    poll_cq = λ w wc. (
      record { value = 1; errno = 0; world = w },
      record { status = 0; opcode = 129; with_imm = true },
    );
    rtn = λ w. last_rtn no_rtn w.sent;
    recv_rdma_with_imm = 129;
    uninit_wc = record { status = 0; opcode = 0; with_imm = false };
  }

  -- the message of the reply to a request
  abbrev pub reply_in : Card env.World → ℕ → ReqMsg → RtnMsg
  reply_in w imm req =
      last_rtn no_rtn (next_card w (rdma_req_event env 0 true (arrive w req imm))).sent

  pub reply_in-eq :
      (w : Card env.World) (imm : ℕ) (req : ReqMsg) (d : Card env.World) (r : Reply)
      → rdma_req_event env 0 true (arrive w req imm) ≡ some (served d)
      → d.sent ≡ w.sent ++ r ∷ []
      → reply_in w imm req ≡ r.rtn
  unfolding next_card
  reply_in-eq w imm req d r serves once =
      ap (λ k. last_rtn no_rtn k.sent) (ap (next_card w) serves)
      ∙ ap (last_rtn no_rtn) once
      ∙ last_rtn-append no_rtn w.sent r

  pub wire-delivers :
      (w : Card env.World) (imm : ℕ) (req : ReqMsg) (d : Card env.World) (r : Reply)
      → rdma_req_event env 0 true (arrive w req imm) ≡ some (served d)
      → d.sent ≡ w.sent ++ r ∷ []
      → let w1 = (wire.post_send w imm req).world in
        EventOk wire w1
        × ((ws : List Wait) × (length ws ≤ 0)
            × ((end : Card env.World) × Arrives wire ws (event_world wire w1) wire.uninit_wc end
                × (wire.rtn end ≡ reply_in w imm req)
                × (end ≡ d)))
        × IsReadOf r.rtn d.rtn (reply_in w imm req)
  unfolding process_rdma_get_cq_event Arrives next_card last_rtn
  wire-delivers w imm req d r serves once =
      let at : next_card w (rdma_req_event env 0 true (arrive w req imm)) ≡ d =
        ap (next_card w) serves in
      (
        refl,
        (
          [],
          omega arith,
          (
            next_card w (rdma_req_event env 0 true (arrive w req imm)),
            ((λ e. omega arith), refl, refl, refl, refl),
            refl,
            at,
          ),
        ),
        (let e = reply_in-eq w imm req d r serves once in
            record {
              read_errno = inl (ap (λ t. t.errno_) e);
              read_value = inl (ap (λ t. t.rtn_value) e);
              read_bytes = λ i. inl (ap (λ t. t.bytes i) e);
            }),
      )

  abbrev pub link : Link env wire
  link = record {
    card = λ w. w;
    waits = 0;
    on_wire = reply_in;
    post_recv-card = λ w. refl;
    post_send-ok = λ w imm req. refl;
    delivers = wire-delivers;
  }

  abbrev pub prompt : ReadsAtPost env wire link
  prompt = reply_in-eq

  -- a device that reads each reply only when the card has done all its stores
  abbrev pub late_wire : Verbs
  late_wire = record wire { rtn = λ w. w.rtn }

  abbrev pub late_reply : Card env.World → ℕ → ReqMsg → RtnMsg
  late_reply w imm req = (next_card w (rdma_req_event env 0 true (arrive w req imm))).rtn

  pub late_wire-delivers :
      (w : Card env.World) (imm : ℕ) (req : ReqMsg) (d : Card env.World) (r : Reply)
      → rdma_req_event env 0 true (arrive w req imm) ≡ some (served d)
      → d.sent ≡ w.sent ++ r ∷ []
      → let w1 = (late_wire.post_send w imm req).world in
        EventOk late_wire w1
        × ((ws : List Wait) × (length ws ≤ 0)
            × ((end : Card env.World) × Arrives late_wire ws
                  (event_world late_wire w1)
                  late_wire.uninit_wc
                  end
                × (late_wire.rtn end ≡ late_reply w imm req)
                × (end ≡ d)))
        × IsReadOf r.rtn d.rtn (late_reply w imm req)
  unfolding process_rdma_get_cq_event Arrives next_card
  late_wire-delivers w imm req d r serves once =
      let at : next_card w (rdma_req_event env 0 true (arrive w req imm)) ≡ d =
        ap (next_card w) serves in
      (
        refl,
        (
          [],
          omega arith,
          (
            next_card w (rdma_req_event env 0 true (arrive w req imm)),
            ((λ e. omega arith), refl, refl, refl, refl),
            refl,
            at,
          ),
        ),
        (record {
          read_errno = inr (ap (λ k. k.rtn.errno_) at);
          read_value = inr (ap (λ k. k.rtn.rtn_value) at);
          read_bytes = λ i. inr (ap (λ k. k.rtn.bytes i) at);
        }),
      )

  abbrev pub late_link : Link env late_wire
  late_link = record {
    card = λ w. w;
    waits = 0;
    on_wire = late_reply;
    post_recv-card = λ w. refl;
    post_send-ok = λ w imm req. refl;
    delivers = late_wire-delivers;
  }
