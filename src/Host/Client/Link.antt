-- ===== src/Host/Client/Link.antt =====
-- What the host and the card promise each other: a request that is posted reaches the card, and a
-- reply the host, with what the card's device reads of it.
use socket_to_rdma.Base.{ℕ, ◌≤◌, ◌≡◌, true, some, List, [], ◌∷◌, ◌++◌, ◌⊎◌, length}
use socket_to_rdma.Card.Env.{Env}
use socket_to_rdma.Card.Server.{Card, Reply, served, rdma_req_event}
use socket_to_rdma.Host.Client.Polling.{Wait, Arrives, EventOk, event_world}
use socket_to_rdma.Host.Verbs.{Verbs}
use socket_to_rdma.Message.{ReqMsg, RtnMsg, htonl}

-- the card's state once a request has arrived: the message in its memory, and the descriptor from
-- the immediate value
abbrev pub arrive : {W : Type 0} → Card W → ReqMsg → ℕ → Card W
arrive c req imm = record c { req = req; sockfd = htonl imm }

-- A message of the card as its device may read it: a post returns before the device has read the
-- memory, so each field and each byte is the one at the post or the one that the card has stored
-- there since.
pub record IsReadOf (posted' later m : RtnMsg) : Type 0 where
  pub read_errno : (m.errno_ ≡ posted'.errno_) ⊎ (m.errno_ ≡ later.errno_)
  pub read_value : (m.rtn_value ≡ posted'.rtn_value) ⊎ (m.rtn_value ≡ later.rtn_value)
  pub read_bytes : (i : ℕ) → (m.bytes i ≡ posted'.bytes i) ⊎ (m.bytes i ≡ later.bytes i)

-- What the link between the two machines promises. A request that is posted reaches the card, which
-- serves it; if the card posts one reply, the host's queue has a completion for it, behind at most
-- `waits` others and empty queues, and its memory then holds the reply's message as the card's
-- device reads it (`on_wire`), with the stores in it that the card makes behind its post.
pub record Link (env : Env) (verbs : Verbs) : Type 0 where
  pub card : verbs.World → Card env.World
  pub waits : ℕ
  pub on_wire : verbs.World → ℕ → ReqMsg → RtnMsg
  pub post_recv-card : (w : verbs.World) → card (verbs.post_recv w) ≡ card w
  pub post_send-ok :
      (w : verbs.World) (imm : ℕ) (req : ReqMsg) → (verbs.post_send w imm req).value ≡ 0
  pub delivers :
      (w : verbs.World) (imm : ℕ) (req : ReqMsg) (d : Card env.World) (r : Reply)
      → rdma_req_event env 0 true (arrive (card w) req imm) ≡ some (served d)
      → d.sent ≡ (card w).sent ++ r ∷ []
      → let w1 = (verbs.post_send w imm req).world in
        EventOk verbs w1
        × ((ws : List Wait) × (length ws ≤ waits)
            × ((end : verbs.World) × Arrives verbs ws (event_world verbs w1) verbs.uninit_wc end
                × (verbs.rtn end ≡ on_wire w imm req)
                × (card end ≡ d)))
        × IsReadOf r.rtn d.rtn (on_wire w imm req)

-- A condition on the order of events, which nothing in the source sees to: the card's device has
-- read each reply's message before the card stores in it again, so that the message goes out as it
-- stood at the post. The card zeroes the message's `errno_` (rdma_server.c:723) and, after a read, a
-- write or a select, its value and data (711, 952, 978) without waiting for the post's completion.
abbrev pub ReadsAtPost : (env : Env) (verbs : Verbs) → Link env verbs → Type 0
ReadsAtPost env verbs link =
    (w : verbs.World) (imm : ℕ) (req : ReqMsg) (d : Card env.World) (r : Reply)
    → rdma_req_event env 0 true (arrive (link.card w) req imm) ≡ some (served d)
    → d.sent ≡ (link.card w).sent ++ r ∷ []
    → link.on_wire w imm req ≡ r.rtn
