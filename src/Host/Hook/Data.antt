-- ===== src/Host/Hook/Data.antt =====
-- read and write of the host, through the link: the bytes that go to the card's kernel, and those
-- that come back.
use socket_to_rdma.Base.{
  ℕ, ◌+◌, ◌-◌, ◌^◌, ◌<◌, ◌≡◌, ◌⊎◌, refl, sym, true, false, none, some, if◌then◌else◌, is_neg64,
  sign_extend, to_int, arith, ◌∙◌, ap, inl, inr, ◌==◌,
}
use socket_to_rdma.Base.Buffer.{Buffer}
use socket_to_rdma.Card.Env.{Answer, Env}
use socket_to_rdma.Card.Server.{Card, clear_req}
use socket_to_rdma.Card.Server.Replies.{PostsOk, replied}
use socket_to_rdma.Card.Server.Work.{work, sent_reply, fits, fits-other}
use socket_to_rdma.Card.Socket.{set_errno, sock_send_message, sock_read_message}
use socket_to_rdma.Host.Client.{copy, take_result, write_sz}
use socket_to_rdma.Host.Client.Exchange.{ask, asked}
use socket_to_rdma.Host.Client.Link.{Link, ReadsAtPost}
use socket_to_rdma.Host.Client.Requests.{asking, set_req_sock-work}
use socket_to_rdma.Host.Hook.{
  Process, Call, called, misread_by_key, req_write_fd, req_read_fd, sized_call, clear_data,
  then_call,
}
use socket_to_rdma.Hash.Fd.{fd_search_by_key}
use socket_to_rdma.Host.Verbs.{Verbs}
use socket_to_rdma.Message.{RdmaReq, RtnMsg, code, buffer_size, req_write, req_read}

-- a value that `read` and `write` document: a number of bytes, or -1
abbrev pub IsSize : ℕ → Type 0
IsSize v = (v < 2 ^ 31) ⊎ (v ≡ 2 ^ 64 - 1)

write_sz-small : (n : ℕ) → n + 12 < buffer_size → write_sz n ≡ n
write_sz-small n h = ground arith

sign_extend-size : (n : ℕ) → n < 2 ^ 31 → sign_extend (to_int n) ≡ n
sign_extend-size n h = ground arith

-- what the card stores of a `send`
abbrev pub size_stored : {W : Type 0} → RtnMsg → Answer W → RtnMsg
size_stored rtn a =
    let rtn' = record rtn { rtn_value = a.value } in
    if is_neg64 a.value then set_errno rtn' a.errno else rtn'

-- what the caller of a write gets of that message
written :
    {W : Type 0} (rtn : RtnMsg) (a : Answer W)
    → IsSize a.value
    → let (v, err, buf) = take_result (code req_write) (size_stored rtn a) true none in
      (sign_extend v ≡ a.value) × (err ≡ (if is_neg64 a.value then some a.errno else none))
unfolding take_result
written rtn a (inl h) = ground arith
written rtn a (inr h) = ground arith

-- what the card stores of a `read`
abbrev pub data_stored : {W : Type 0} → Answer W → Buffer → RtnMsg
data_stored a bytes =
    let rtn : RtnMsg = record { errno_ = 0; rtn_value = a.value; bytes = bytes } in
    if is_neg64 a.value
    then set_errno rtn a.errno
    else if a.value == 0
    then set_errno rtn a.errno
    else rtn

-- a value of `read` that fits a message with its header
abbrev pub Fits : ℕ → Type 0
Fits v = (v + 12 < buffer_size) ⊎ (v ≡ 2 ^ 64 - 1)

-- what the caller of a read gets of that message
received :
    {W : Type 0} (a : Answer W) (bytes buf : Buffer)
    → Fits a.value
    → let (v, err, buf') = take_result (code req_read) (data_stored a bytes) true (some buf) in
      (sign_extend v ≡ a.value)
      × (err ≡ (if is_neg64 a.value then some a.errno else none))
      × (buf' ≡ some (if is_neg64 a.value then buf else copy buf bytes a.value))
unfolding take_result
received a bytes buf (inl h) = ground arith
received a bytes buf (inr h) = ground arith

module _ (env : Env) where
  write-work :
      (k : Card env.World) (b : Buffer) (n : ℕ) (a : Answer env.World)
      → k.req.bytes ≡ b
      → sign_extend (to_int k.req.buf_sz) ≡ n
      → a ≡ env.send k.world k.sockfd b n
      → ((work env req_write k).rtn ≡ size_stored k.rtn a)
        × ((work env req_write k).world ≡ a.world)
  unfolding sock_send_message
  write-work k b n a same size call =
      let e : env.send k.world k.sockfd k.req.bytes (sign_extend (to_int k.req.buf_sz)) ≡ a =
        (λ i. env.send k.world k.sockfd (same i) (size i)) ∙ sym call in
      rw e (refl, refl)

  read-work :
      (k : Card env.World) (n : ℕ) (a : Answer env.World) (bytes : Buffer)
      → sign_extend (to_int k.req.buf_sz) ≡ n
      → env.read k.world k.sockfd k.rtn.bytes n ≡ (a, bytes)
      → ((work env req_read k).rtn ≡ data_stored a bytes) × ((work env req_read k).world ≡ a.world)
  unfolding sock_read_message
  read-work k n a bytes size call =
      let e : env.read k.world k.sockfd k.rtn.bytes (sign_extend (to_int k.req.buf_sz))
          ≡ (a, bytes) =
        ap (env.read k.world k.sockfd k.rtn.bytes) size ∙ call in
      rw e (ground arith, refl)

  -- of such a value the reply is no data, or data that fit
  fits-read :
      (k : Card env.World) (a : Answer env.World) (bytes : Buffer)
      → Fits a.value
      → (work env req_read k).rtn ≡ data_stored a bytes
      → fits env req_read k ≡ true
  fits-read k a bytes h stored =
      let value : (work env req_read k).rtn.rtn_value ≡ a.value =
        ap (λ t. t.rtn_value) stored ∙ ground arith in
      ground (arith, value)

module _ (env : Env) (verbs : Verbs) (link : Link env verbs)
    (prompt : ReadsAtPost env verbs link) where
  -- the card with a request of a read or write
  abbrev pub data_asked :
      Process verbs.World → (fd : ℕ) → RdmaReq → (size : ℕ) → Buffer → Card env.World
  data_asked p fd r size message =
      asked env verbs link (ask env verbs link p.client fd r size 0 message)

  -- what a write returns
  abbrev write_end : Process verbs.World → (fd size : ℕ) → Buffer → verbs.World → Call verbs.World
  write_end p fd size message end =
      let (v, err, buf) =
        take_result (code req_write)
          (work env req_write (data_asked p fd req_write size message)).rtn true none in
      sized_call verbs p.fd_ht (record {
        ret = v;
        errno = err;
        buf = buf;
        client =
            clear_data (record (asking env verbs link prompt p.client fd req_write size 0 message) {
              world = end;
            });
      })

  -- A `write` on a descriptor of the card's of data that fit the buffer makes one `send` in the
  -- card's kernel, of the caller's bytes and the caller's size, and returns its value, with its
  -- `errno` if it is -1. The table stays, the data of the request are cleared, and the card is left
  -- as it is behind its reply, with its request cleared. The posts succeed, the card's device reads
  -- each reply before the card clears its value and its `errno_` (ReadsAtPost), the fuel is two more
  -- than the waits of the link, and the kernel's value is -1 or a number of bytes.
  pub write-kernel :
      PostsOk env
      → (fuel : ℕ) (p : Process verbs.World) (fd : ℕ) (message : Buffer) (size : ℕ)
        (a : Answer env.World)
      → link.waits + 1 < fuel
      → (fd_search_by_key p.fd_ht fd == 0) ≡ false
      → fd < 2 ^ 32
      → size + 12 < buffer_size
      → a ≡ env.send (link.card p.client.world).world fd (copy p.client.req.bytes message size) size
      → IsSize a.value
      → (out : Call verbs.World) × (req_write_fd verbs fuel p fd message size ≡ called out)
        × (out.ret ≡ a.value)
        × (out.errno ≡ (if is_neg64 a.value then some a.errno else none))
        × (out.process.fd_ht ≡ p.fd_ht)
        × ((i : ℕ) → i < buffer_size → out.process.client.req.bytes i ≡ 0)
        × (link.card out.process.client.world
            ≡ clear_req env (
                replied env (record (data_asked p fd req_write size message) {
                  rtn = size_stored (link.card p.client.world).rtn a;
                  world = a.world;
                })))
  unfolding req_write_fd then_call
  write-kernel ok fuel p fd message size a lf mine small fit call result =
      let k = data_asked p fd req_write size message in
      let (stored, world) =
        write-work env k (copy p.client.req.bytes message size) size a
          (ap (copy p.client.req.bytes message) (write_sz-small size fit))
          (sign_extend-size size (omega arith)) call in
      let (end, back, now, held) =
        set_req_sock-work env verbs link prompt ok fuel p.client fd req_write size 0 message none lf
          small refl (fits-other env req_write k refl refl) in
      let (ret, err) = written k.rtn a result in
      let got = ap (λ t. take_result (code req_write) t true none) stored in
      (
        write_end p fd size message end,
        rw (mine, back) refl,
        ap (λ v. sign_extend v.0) got ∙ ret,
        ap (λ v. v.1) got ∙ err,
        refl,
        (λ i h. ground arith),
        now ∙ (λ i. clear_req env (replied env (record k { rtn = stored i; world = world i }))),
      )

  -- what a read returns
  abbrev read_end : Process verbs.World → (fd size : ℕ) → Buffer → verbs.World → Call verbs.World
  read_end p fd size buf end =
      let (v, err, buf') =
        take_result (code req_read) (work env req_read (data_asked p fd req_read size buf)).rtn true
          (some buf) in
      sized_call verbs p.fd_ht (record {
        ret = v;
        errno = err;
        buf = buf';
        client = record (asking env verbs link prompt p.client fd req_read size 0 buf) {
          world = end;
        };
      })

  -- A `read` on a descriptor that is found for the card's makes one `read` in the card's kernel, of
  -- the caller's size, and returns its value, with its `errno` if it is -1. The caller's buffer then
  -- holds the bytes that the kernel read, up to that value, and its own behind them; after a failure
  -- it is left as it is. The table stays, and the card is left as it is behind its one reply. The
  -- posts succeed, the card's device reads each reply before the card zeroes its `errno_` and its
  -- first data (ReadsAtPost), the fuel is two more than the waits of the link, and the kernel's value
  -- is -1 or a number of bytes that fit a message.
  pub read-kernel :
      PostsOk env
      → (fuel : ℕ) (p : Process verbs.World) (fd : ℕ) (buf : Buffer) (size : ℕ)
        (a : Answer env.World) (bytes : Buffer)
      → link.waits + 1 < fuel
      → (misread_by_key p.fd_ht fd == 0) ≡ false
      → fd < 2 ^ 32
      → size < 2 ^ 31
      → env.read (link.card p.client.world).world fd (link.card p.client.world).rtn.bytes size
        ≡ (a, bytes)
      → Fits a.value
      → (out : Call verbs.World) × (req_read_fd verbs fuel p fd buf size ≡ called out)
        × (out.ret ≡ a.value)
        × (out.errno ≡ (if is_neg64 a.value then some a.errno else none))
        × (out.buf ≡ some (if is_neg64 a.value then buf else copy buf bytes a.value))
        × (out.process.fd_ht ≡ p.fd_ht)
        × (link.card out.process.client.world
            ≡ sent_reply env (record (data_asked p fd req_read size buf) {
              rtn = data_stored a bytes;
              world = a.world;
            }))
  unfolding req_read_fd then_call
  read-kernel ok fuel p fd buf size a bytes lf mine small fit call result =
      let k = data_asked p fd req_read size buf in
      let (stored, world) = read-work env k size a bytes (sign_extend-size size fit) call in
      let (end, back, now, held) =
        set_req_sock-work env verbs link prompt ok fuel p.client fd req_read size 0 buf (some buf)
          lf small refl (fits-read env k a bytes result stored) in
      let (ret, err, filled) = received a bytes buf result in
      let got = ap (λ t. take_result (code req_read) t true (some buf)) stored in
      (
        read_end p fd size buf end,
        rw (mine, back) refl,
        ap (λ v. sign_extend v.0) got ∙ ret,
        ap (λ v. v.1) got ∙ err,
        ap (λ v. v.2) got ∙ filled,
        refl,
        now ∙ (λ i. sent_reply env (record k { rtn = stored i; world = world i })),
      )
