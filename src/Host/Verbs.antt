-- ===== src/Host/Verbs.antt =====
-- What the host's code calls of the verbs library. Each call answers a value, the `errno` that it
-- leaves and a new state of the device, which also holds the memory that the card writes.
use socket_to_rdma.Base.{ℕ, Bool}
use socket_to_rdma.Card.Env.{Answer}
use socket_to_rdma.Message.{ReqMsg, RtnMsg}

-- the fields of a work completion that are looked at; `with_imm` is the flag `IBV_WC_WITH_IMM`
pub record Wc : Type 0 where
  pub status : ℕ
  pub opcode : ℕ
  pub with_imm : Bool

pub record Verbs : Type 1 where
  pub World : Type 0
  -- the posting of an RDMA write of the request with this immediate value
  pub post_send : World → (imm : ℕ) → ReqMsg → Answer World
  -- its value is not looked at
  pub post_recv : World → World
  pub get_cq_event : World → Answer World
  pub ack_cq_events : World → World
  pub req_notify_cq : World → Answer World
  -- writes the completion that it is given, if it has one
  pub poll_cq : World → Wc → Answer World × Wc
  -- `r_info->rtn`, which only the device writes
  pub rtn : World → RtnMsg
  -- `IBV_WC_RECV_RDMA_WITH_IMM`
  pub recv_rdma_with_imm : ℕ
  -- what a completion holds before it is written
  pub uninit_wc : Wc
