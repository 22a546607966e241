-- ===== src/Host/Client.antt =====
-- One exchange of rdma_client.c: the request is filled in and posted, the completion queue is
-- polled until the return message is there, and its value is taken. Pauses and prints are left out.
-- `r_info`, which no caller passes as NULL, is the record Client and the device's state in it.
pub mod Polling
pub mod Link
pub mod Exchange
pub mod Requests
use socket_to_rdma.Base.{
  ℕ, zero, suc, ◌+◌, ◌-◌, ◌%◌, ◌^◌, Bool, true, false, Option, none, some, ◌==◌, ltb, if◌then◌else◌,
  ◌&&◌, ◌||◌, minus_one, is_neg, is_neg64, sign_extend, to_int, neg32,
}
use socket_to_rdma.Base.Buffer.{Buffer}
use socket_to_rdma.Card.Server.{chunk, header_sz}
use socket_to_rdma.Host.Verbs.{Verbs, Wc}
use socket_to_rdma.Message.{
  ReqMsg, RtnMsg, RdmaReq, code, htonl, req_socket, req_read, req_write, req_epoll_create1,
  req_epoll_ctl, req_epoll_wait, req_poll, req_del_rdma_conn,
}

pub record Client (W : Type 0) : Type 0 where
  pub req : ReqMsg
  pub sockfd : ℕ
  pub world : W

-- how `post_write_req` ends: 1, `exit`, or -1
pub data Posted (W : Type 0) : Type 0 where
  posted : W → Posted W
  exited : W → Posted W
  gave_up : W → Posted W

-- how the inner loop of `process_poll_cq_imm` ends: not within the fuel; at the return message; at a
-- bad completion; by `break`, with the sign of `ret_c`; or with no completion left
pub data Polled (W : Type 0) : Type 0 where
  polling : Polled W
  arrived : W → Polled W
  bad_status : ℕ → W → Polled W
  broke : Bool → W → Wc → Polled W
  dry : W → Wc → Polled W

-- `memcpy(to, from, n)`
abbrev pub copy : Buffer → Buffer → ℕ → Buffer
copy to from n = λ i. if ltb i n then from i else to i

-- what the caller's objects hold afterwards: `none` for `*p_errno` is no store
pub record Return (W : Type 0) : Type 0 where
  pub ret : ℕ
  pub errno : Option ℕ
  pub buf : Option Buffer
  pub client : Client W

-- `waits` is out of fuel, with the process still polling
pub data Outcome (W : Type 0) : Type 0 where
  returns : Return W → Outcome W
  exits : W → Outcome W
  waits : Outcome W

-- the number of bytes of the message that a WRITE request copies, with `uint64_t` arithmetic
abbrev pub write_sz : ℕ → ℕ
write_sz buf_sz = (chunk ((header_sz + buf_sz) % 2 ^ 64) + 2 ^ 64 - header_sz) % 2 ^ 64

abbrev pub fill_data : (req_rdma buf_sz : ℕ) → (message to : Buffer) → Buffer
fill_data req_rdma buf_sz message to =
    if req_rdma == code req_write then copy to message (write_sz buf_sz) else to

-- the requests whose value is returned as it is, a negative one included
abbrev pub keeps_value : ℕ → Bool
keeps_value r =
    (r == code req_write)
    || ((r == code req_epoll_create1)
        || ((r == code req_epoll_ctl) || ((r == code req_epoll_wait) || (r == code req_poll))))

-- the value, the store through `p_errno` (which may be NULL), and the buffer
abbrev pub plain_result : (req_rdma : ℕ) → RtnMsg → (p_errno : Bool) → ℕ × Option ℕ
plain_result req_rdma rtn p_errno =
    if is_neg64 rtn.rtn_value
    then (
      if keeps_value req_rdma then to_int rtn.rtn_value else minus_one,
      if p_errno then some rtn.errno_ else none,
    )
    else (to_int rtn.rtn_value, none)

read_result : RtnMsg → (p_errno : Bool) → Option Buffer → ℕ × Option ℕ × Option Buffer
read_result rtn p_errno none = (minus_one, none, none)
read_result rtn p_errno (some buf) =
    if is_neg64 rtn.rtn_value
    then (to_int rtn.rtn_value, if p_errno then some rtn.errno_ else none, some buf)
    else (
      to_int rtn.rtn_value,
      none,
      some (copy buf rtn.bytes (sign_extend (to_int rtn.rtn_value))),
    )

-- what stands behind the exchange in `set_req_sock`
unfoldable pub take_result :
    (req_rdma : ℕ) → RtnMsg → (p_errno : Bool) → Option Buffer → ℕ × Option ℕ × Option Buffer
unfolding read_result
take_result req_rdma rtn p_errno buf =
    let (ret, err) = plain_result req_rdma rtn p_errno in
    if req_rdma == code req_read then read_result rtn p_errno buf else (ret, err, buf)

module _ (verbs : Verbs) where
  -- at most `n` completions taken off the queue, whatever they say
  unfoldable pub drain : (n : ℕ) → Wc → verbs.World → verbs.World
  drain zero wc w = w
  drain (suc n) wc w =
      let (a, wc') = verbs.poll_cq w wc in
      let rest = drain n wc' a.world in
      if is_neg a.value then a.world else if a.value == 0 then a.world else rest

  -- `attempts` are those left
  unfoldable pub post_loop : (attempts imm : ℕ) → ReqMsg → verbs.World → Posted verbs.World
  unfolding drain
  post_loop zero imm req w = gave_up w
  post_loop (suc n) imm req w =
      let a = verbs.post_send w imm req in
      let again = post_loop n imm req (drain 32 verbs.uninit_wc a.world) in
      if a.value == 0
      then posted a.world
      else if (a.value == 12) || (a.errno == 12)
      then again
      else exited a.world

  unfoldable pub post_write_req : Client verbs.World → Posted verbs.World
  unfolding post_loop
  post_write_req c = post_loop 4 (htonl c.sockfd) c.req c.world

  unfoldable pub process_rdma_get_cq_event : verbs.World → ℕ × verbs.World
  process_rdma_get_cq_event w =
      let a = verbs.get_cq_event w in
      let b = verbs.req_notify_cq (verbs.ack_cq_events a.world) in
      if is_neg a.value
      then (neg32 a.errno, a.world)
      else if b.value == 0
      then (1, b.world)
      else (neg32 b.errno, b.world)

  unfoldable pub poll_loop : (fuel : ℕ) → Wc → verbs.World → Polled verbs.World
  poll_loop zero wc w = polling
  poll_loop (suc fuel) wc w =
      let (a, wc') = verbs.poll_cq w wc in
      let rest = poll_loop fuel wc' a.world in
      if a.value == 0
      then dry a.world wc'
      else if wc'.status == 0
      then if wc'.opcode == verbs.recv_rdma_with_imm
        then if wc'.with_imm then arrived a.world else broke (is_neg a.value) a.world wc'
        else rest
      else bad_status (neg32 wc'.status) a.world

  -- What the outer loop does once the inner loop is left; `again` is its next round. The value is
  -- `ret`, which is 1 there, where the inner loop is left with a negative `ret_c`.
  unfoldable pub after_poll :
      (again : Wc → verbs.World → Option (ℕ × verbs.World))
      → (ret : ℕ) → Polled verbs.World
      → Option (ℕ × verbs.World)
  after_poll again ret polling = none
  after_poll again ret (arrived w) = some (1, w)
  after_poll again ret (bad_status s w) = some (s, w)
  after_poll again ret (broke neg w wc) =
      let rest = again wc w in if neg then some (ret, w) else rest
  after_poll again ret (dry w wc) = again wc w

  unfoldable pub event_loop : (fuel : ℕ) → Wc → verbs.World → Option (ℕ × verbs.World)
  unfolding process_rdma_get_cq_event poll_loop after_poll
  event_loop zero wc w = none
  event_loop (suc fuel) wc w =
      let (ret, w1) = process_rdma_get_cq_event w in
      let polled = after_poll (event_loop fuel) ret (poll_loop fuel wc w1) in
      if is_neg ret then some (minus_one, w1) else if ret == 0 then some (0, w1) else polled

  unfoldable pub process_poll_cq_imm : (fuel : ℕ) → verbs.World → Option (ℕ × verbs.World)
  unfolding event_loop
  process_poll_cq_imm fuel w = event_loop fuel verbs.uninit_wc w

  abbrev pub fill_req :
      Client verbs.World → (sockfd req_rdma buf_sz port : ℕ) → Buffer → Client verbs.World
  fill_req c sockfd req_rdma buf_sz port message = record c {
    req = record {
      rdma_req = req_rdma;
      buf_sz = buf_sz;
      port = port;
      bytes = fill_data req_rdma buf_sz message c.req.bytes;
    };
    sockfd = sockfd;
  }

  abbrev pub failed : Client verbs.World → Option Buffer → verbs.World → Outcome verbs.World
  failed c buf w =
      returns (record { ret = minus_one; errno = none; buf = buf; client = record c { world = w } })

  finish :
      Client verbs.World
      → (req_rdma : ℕ) → (p_errno : Bool) → Option Buffer
      → Option (ℕ × verbs.World)
      → Outcome verbs.World
  unfolding take_result
  finish c req_rdma p_errno buf none = waits
  finish c req_rdma p_errno buf (some (ret, w)) =
      let (value, err, buf') = take_result req_rdma (verbs.rtn w) p_errno buf in
      if is_neg ret
      then failed c buf w
      else returns
          (record { ret = value; errno = err; buf = buf'; client = record c { world = w } })

  unfoldable pub exchange :
      (fuel : ℕ)
      → Client verbs.World
      → (req_rdma : ℕ) → (p_errno : Bool) → Option Buffer
      → Outcome verbs.World
  unfolding finish process_poll_cq_imm post_write_req
  exchange fuel c req_rdma p_errno buf = elim (post_write_req c) [
    | posted w ↦ finish c req_rdma p_errno buf (process_poll_cq_imm fuel w)
    | exited w ↦ exits w
    | gave_up w ↦ failed c buf w
  ]

  -- An `int` outside the codes is rejected before anything is stored. `message` is read by a WRITE
  -- request only.
  unfoldable pub set_req_sock :
      (fuel : ℕ)
      → Client verbs.World
      → (sockfd req_rdma buf_sz port : ℕ) → (message : Buffer) → (p_errno : Bool)
      → (buf : Option Buffer) → Outcome verbs.World
  unfolding exchange
  set_req_sock fuel c sockfd req_rdma buf_sz port message p_errno buf =
      let d = fill_req c sockfd req_rdma buf_sz port message in
      let out = exchange fuel (record d { world = verbs.post_recv d.world }) req_rdma p_errno buf in
      if ltb req_rdma (code req_socket) || ltb (code req_del_rdma_conn) req_rdma
      then failed c buf c.world
      else out
