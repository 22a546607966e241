-- ===== src/Card/Env.antt =====
-- What the card's code calls and does not implement: the system calls of the card's kernel, and the
-- posting of a work request. Each answers a value, the `errno` that it leaves and a new state.
use socket_to_rdma.Base.{ℕ, Option, none, some, List}
use socket_to_rdma.Base.Buffer.{Buffer}
use socket_to_rdma.Message.{RtnMsg}
use socket_to_rdma.Wire.Epoll.{EpollEvent, Events}
use socket_to_rdma.Wire.Poll.{PollFds}
use socket_to_rdma.Wire.Select.{SelectArgs}

pub record Answer (W : Type 0) : Type 0 where
  pub value : ℕ
  pub errno : ℕ
  pub world : W

-- an address of memory that holds these bytes
pub record Pointer : Type 0 where
  pub pointee : List ℕ

-- NULL, or the address of fresh memory with the bytes
abbrev pub pointer_to : Option (List ℕ) → Option Pointer
pointer_to none = none
pointer_to (some bytes) = some record { pointee = bytes }

-- A call that also writes an object of the caller's answers what the object holds afterwards.
-- A value is the pattern of the `int` that the call returns, or of the `ssize_t` for `read` and
-- `send`. The `uninit` fields are what a variable or fresh memory holds before it is written.
pub record Env : Type 1 where
  pub World : Type 0
  pub socket : World → Answer World
  pub bind : World → (fd port : ℕ) → Answer World
  pub listen : World → (fd backlog : ℕ) → Answer World
  pub accept : World → (fd port : ℕ) → Answer World
  pub close : World → (fd : ℕ) → Answer World
  pub connect : World → (fd port : ℕ) → Answer World
  pub send : World → (fd : ℕ) → Buffer → (size : ℕ) → Answer World
  pub read : World → (fd : ℕ) → Buffer → (size : ℕ) → Answer World × Buffer
  pub select : World → SelectArgs → Answer World × SelectArgs
  pub epoll_create1 : World → (flag : ℕ) → Answer World
  pub epoll_ctl : World → (epfd op fd : ℕ) → EpollEvent → Answer World
  pub epoll_wait : World → (epfd : ℕ) → Events → (maxevents timeout : ℕ) → Answer World × Events
  pub poll : World → PollFds → (nfds timeout : ℕ) → Answer World × PollFds
  -- the variable argument, if one is passed, is an address of memory, whatever the command takes
  pub fcntl : World → (fd cmd : ℕ) → Option Pointer → Answer World
  pub setsockopt : World → (fd level optname : ℕ) → Option (List ℕ) → (optlen : ℕ) → Answer World
  pub getsockopt :
      World → (fd level optname : ℕ) → Option (List ℕ) → (optlen : ℕ) → Answer World × Buffer × ℕ
  pub getpeername : World → (fd : ℕ) → (addrlen : ℕ) → List ℕ → Answer World × ℕ × List ℕ
  pub getsockname : World → (fd : ℕ) → (addrlen : ℕ) → List ℕ → Answer World × ℕ × List ℕ
  -- `ibv_post_send` of an RDMA write of the return message with this immediate value
  pub post_send : World → (imm : ℕ) → RtnMsg → Answer World
  pub uninit_select : SelectArgs
  pub uninit_events : Events
  pub uninit_pollfds : PollFds
