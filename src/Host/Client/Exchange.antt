-- ===== src/Host/Client/Exchange.antt =====
-- A request that goes through the link to the card and comes back: the host's call has the value of
-- the system call that the card makes.
use socket_to_rdma.Base.{
  ℕ, ◌+◌, ◌^◌, ◌<◌, ◌≡◌, refl, true, Option, none, some, [], ◌∷◌, ◌++◌, if◌then◌else◌, is_neg,
  sign_extend, ◌⊎◌, inl, inr, minus_one, arith, ◌∙◌, sym, ap,
}
use socket_to_rdma.Base.Buffer.{Buffer}
use socket_to_rdma.Card.Env.{Answer, Env}
use socket_to_rdma.Card.Server.{Card, done, Reply, served, rdma_req_event}
use socket_to_rdma.Card.Server.Replies.{PostsOk, reply_of}
use socket_to_rdma.Card.Socket.{store_answer}
use socket_to_rdma.Card.Server.Errors.{Plain, answered, serve-Plain}
use socket_to_rdma.Host.Client.{
  Client, Outcome, returns, Return, posted, post_write_req, process_poll_cq_imm, fill_req, exchange,
  finish, take_result, set_req_sock,
}
use socket_to_rdma.Host.Client.Polling.{poll-Arrives}
use socket_to_rdma.Host.Verbs.{Verbs}
use socket_to_rdma.Message.{
  RtnMsg, RdmaReq, code, htonl, htonl-htonl, req_close, req_bind, req_connect, req_listen,
  req_accept,
}
use socket_to_rdma.Host.Client.Link.{arrive, IsReadOf, Link, ReadsAtPost}

module _ (env : Env) (verbs : Verbs) (link : Link env verbs) where
  -- a post that succeeds at once
  post_write_req-ok :
      (c : Client verbs.World)
      → post_write_req verbs c ≡ posted (verbs.post_send c.world (htonl c.sockfd) c.req).world
  unfolding post_write_req
  post_write_req-ok c = rw (link.post_send-ok c.world (htonl c.sockfd) c.req)

  -- the card with the host's request
  abbrev pub hold : Client verbs.World → Card env.World → Card env.World
  hold c k = record k { req = c.req; sockfd = c.sockfd }

  abbrev pub asked : Client verbs.World → Card env.World
  asked c = hold c (link.card c.world)

  -- what an exchange comes back with
  abbrev pub came_back :
      Client verbs.World
      → (req_rdma : ℕ) → Option Buffer
      → Reply
      → verbs.World
      → Outcome verbs.World
  came_back c req_rdma buf r end =
      let (value, err, buf') = take_result req_rdma r.rtn true buf in
      returns (record { ret = value; errno = err; buf = buf'; client = record c { world = end } })

  -- A request that the card serves with one reply returns what that reply says as the device reads it,
  -- which the host's memory then holds.
  exchange-read :
      (fuel : ℕ) (c : Client verbs.World) (req_rdma : ℕ) (buf : Option Buffer) (d : Card env.World)
      (r : Reply)
      → link.waits + 1 < fuel
      → c.sockfd < 2 ^ 32
      → rdma_req_event env 0 true (asked c) ≡ some (served d)
      → d.sent ≡ (link.card c.world).sent ++ r ∷ []
      → (end : verbs.World) × (link.card end ≡ d)
        × (verbs.rtn end ≡ link.on_wire c.world (htonl c.sockfd) c.req)
        × IsReadOf r.rtn d.rtn (link.on_wire c.world (htonl c.sockfd) c.req)
        × (rdma_req_event env 0 true (arrive (link.card c.world) c.req (htonl c.sockfd))
            ≡ some (served d))
        × (exchange verbs fuel c req_rdma true buf
            ≡ came_back c req_rdma buf
                (record r { rtn = link.on_wire c.world (htonl c.sockfd) c.req })
                end)
  unfolding exchange
  exchange-read fuel c req_rdma buf d r lf small serves once =
      let back : arrive (link.card c.world) c.req (htonl c.sockfd) ≡ asked c =
        ap (λ s. record (link.card c.world) { req = c.req; sockfd = s })
          (htonl-htonl c.sockfd small) in
      let served' = ap (rdma_req_event env 0 true) back ∙ serves in
      let (ok, (ws, lw, (end, arrives, message, now)), is) =
        link.delivers c.world (htonl c.sockfd) c.req d r served' once in
      let w1 = (verbs.post_send c.world (htonl c.sockfd) c.req).world in
      let polled : process_poll_cq_imm verbs fuel w1 ≡ some (1, end) =
        poll-Arrives verbs fuel ws w1 end (omega arith) ok arrives in
      (end, now, message, is, served', rw (post_write_req-ok c, exchange, polled, finish, message))

  -- the request of a call, as it stands on the host
  abbrev pub ask :
      Client verbs.World → (sockfd : ℕ) → RdmaReq → (buf_sz port : ℕ) → Buffer → Client verbs.World
  ask c sockfd r buf_sz port message = fill_req verbs c sockfd (code r) buf_sz port message

  -- every request of the enumeration is sent
  pub set_req_sock-exchange :
      (fuel : ℕ) (c : Client verbs.World) (sockfd : ℕ) (r : RdmaReq) (buf_sz port : ℕ)
      (message : Buffer) (buf : Option Buffer)
      → let d = ask c sockfd r buf_sz port message in
        set_req_sock verbs fuel c sockfd (code r) buf_sz port message true buf
        ≡ exchange verbs fuel (record d { world = verbs.post_recv c.world }) (code r) true buf
  unfolding set_req_sock
  set_req_sock-exchange fuel c sockfd req_close buf_sz port message buf = refl
  set_req_sock-exchange fuel c sockfd _ buf_sz port message buf = refl

  -- the value and the `errno` of a host's call, from those of the card's
  abbrev pub host_value : Answer env.World → ℕ
  host_value a = if is_neg a.value then minus_one else a.value

  abbrev pub host_errno : Answer env.World → Option ℕ
  host_errno a = if is_neg a.value then some a.errno else none

  abbrev return_of : Client verbs.World → ℕ × Option ℕ × Option Buffer → Outcome verbs.World
  return_of c v = returns (record { ret = v.0; errno = v.1; buf = v.2; client = c })

  Plain-result :
      (r : RdmaReq) (c : Card env.World) (a : Answer env.World) (e : ℕ) (rtn : RtnMsg)
      (buf : Option Buffer)
      → a.value < 2 ^ 32
      → Plain env r c a
      → rtn.rtn_value ≡ sign_extend a.value
      → (is_neg a.value ≡ true → rtn.errno_ ≡ e)
      → take_result (code r) rtn true buf
        ≡ (host_value a, (if is_neg a.value then some e else none), buf)
  unfolding take_result
  Plain-result req_close c a e rtn buf small h v n = ground arith
  Plain-result req_bind c a e rtn buf small h v n = ground arith
  Plain-result req_connect c a e rtn buf small h v n = ground arith
  Plain-result req_listen c a e rtn buf small h v n = ground arith
  Plain-result req_accept c a e rtn buf small h v n = ground arith
  Plain-result _ c a e rtn buf small h v n = absurd h

  -- A close, bind, connect, listen or accept of the host makes that system call once on the card, on
  -- the given descriptor and port, and returns its value, or -1 if it is negative, whenever the card's
  -- device reads the reply. The `errno` of a failure is the call's, or 0 where the device reads the
  -- reply only when the card has zeroed it. The caller's buffer is left as it is, and the card is left
  -- as it is behind its reply. The posts succeed, and the fuel is two more than the waits of the link.
  pub set_req_sock-Plain_late :
      PostsOk env
      → (fuel : ℕ) (c : Client verbs.World) (sockfd : ℕ) (r : RdmaReq) (buf_sz port : ℕ)
        (message : Buffer) (buf : Option Buffer) (a : Answer env.World)
      → link.waits + 1 < fuel
      → sockfd < 2 ^ 32
      → a.value < 2 ^ 32
      → Plain env r (asked (ask c sockfd r buf_sz port message)) a
      → (out : Return verbs.World) × (e : ℕ) × (set_req_sock verbs fuel c sockfd
            (code r)
            buf_sz
            port
            message
            true
            buf
          ≡ returns out)
        × (out.ret ≡ host_value a)
        × (out.errno ≡ (if is_neg a.value then some e else none))
        × ((e ≡ a.errno) ⊎ (e ≡ 0))
        × (out.buf ≡ buf)
        × (link.card out.client.world ≡ answered env (asked (ask c sockfd r buf_sz port message)) a)
  set_req_sock-Plain_late ok fuel c sockfd r buf_sz port message buf a lf small value plain =
      let d = ask c sockfd r buf_sz port message in
      let d' : Client verbs.World = record d { world = verbs.post_recv c.world } in
      let c1 = asked d in
      let same : asked d' ≡ c1 = ap (hold d) (link.post_recv-card c.world) in
      let reply = reply_of env (done env c1 (store_answer c1.rtn a)) in
      let sent : (answered env c1 a).sent ≡ (link.card d'.world).sent ++ reply ∷ [] =
        ap (λ k. k.sent ++ reply ∷ []) (sym (link.post_recv-card c.world)) in
      let (end, now, message', is, _, back) =
        exchange-read fuel d' (code r) buf (answered env c1 a) reply lf small
          (ap (rdma_req_event env 0 true) same ∙ serve-Plain env ok 0 true r c1 a refl plain)
          sent in
      let m = link.on_wire d'.world (htonl d'.sockfd) d'.req in
      let stored : m.rtn_value ≡ sign_extend a.value = elim is.read_value [
        | inl at_post ↦ at_post ∙ ground arith
        | inr later ↦ later ∙ ground arith
      ] in
      let (e, err, which) : (e : ℕ) × (is_neg a.value ≡ true → m.errno_ ≡ e)
          × ((e ≡ a.errno) ⊎ (e ≡ 0)) =
        elim is.read_errno [
          | inl at_post ↦ (a.errno, (λ n. at_post ∙ ground arith), inl refl)
          | inr later ↦ (0, (λ n. later ∙ ground arith), inr refl)
        ] in
      let result = Plain-result r c1 a e m buf value plain stored err in
      (
        record {
          ret = host_value a;
          errno = if is_neg a.value then some e else none;
          buf = buf;
          client = record d' { world = end };
        },
        e,
        set_req_sock-exchange fuel c sockfd r buf_sz port message buf
            ∙ back
            ∙ ap (return_of (record d' { world = end })) result,
        refl,
        refl,
        which,
        refl,
        now,
      )

  module _ (prompt : ReadsAtPost env verbs link) where
    -- A request that the card serves with one reply returns what that reply says, and the host's
    -- memory then holds the reply's message.
    pub exchange-reply :
        (fuel : ℕ) (c : Client verbs.World) (req_rdma : ℕ) (buf : Option Buffer)
        (d : Card env.World) (r : Reply)
        → link.waits + 1 < fuel
        → c.sockfd < 2 ^ 32
        → rdma_req_event env 0 true (asked c) ≡ some (served d)
        → d.sent ≡ (link.card c.world).sent ++ r ∷ []
        → (end : verbs.World) × (link.card end ≡ d)
          × (verbs.rtn end ≡ r.rtn)
          × (exchange verbs fuel c req_rdma true buf ≡ came_back c req_rdma buf r end)
    exchange-reply fuel c req_rdma buf d r lf small serves once =
        let (end, now, message, _, served', back) =
          exchange-read fuel c req_rdma buf d r lf small serves once in
        let same = prompt c.world (htonl c.sockfd) c.req d r served' once in
        (
          end,
          now,
          message ∙ same,
          back ∙ (λ i. came_back c req_rdma buf (record r { rtn = same i }) end),
        )

    -- A close, bind, connect, listen or accept of the host makes that system call once on the card, on
    -- the given descriptor and port, and returns its value, or -1 with its `errno` if it is negative;
    -- the caller's buffer is left as it is, and the card is left as it is behind its reply. The
    -- posts succeed, the card's device reads each reply before the card zeroes its `errno_`
    -- (ReadsAtPost), and the fuel is two more than the waits of the link.
    pub set_req_sock-Plain :
        PostsOk env
        → (fuel : ℕ) (c : Client verbs.World) (sockfd : ℕ) (r : RdmaReq) (buf_sz port : ℕ)
          (message : Buffer) (buf : Option Buffer) (a : Answer env.World)
        → link.waits + 1 < fuel
        → sockfd < 2 ^ 32
        → a.value < 2 ^ 32
        → Plain env r (asked (ask c sockfd r buf_sz port message)) a
        → (out : Return verbs.World) × (set_req_sock verbs fuel c sockfd
              (code r)
              buf_sz
              port
              message
              true
              buf
            ≡ returns out)
          × (out.ret ≡ host_value a)
          × (out.errno ≡ host_errno a)
          × (out.buf ≡ buf)
          × (link.card out.client.world
              ≡ answered env (asked (ask c sockfd r buf_sz port message)) a)
    set_req_sock-Plain ok fuel c sockfd r buf_sz port message buf a lf small value plain =
        let d = ask c sockfd r buf_sz port message in
        let d' : Client verbs.World = record d { world = verbs.post_recv c.world } in
        let c1 = asked d in
        let same : asked d' ≡ c1 = ap (hold d) (link.post_recv-card c.world) in
        let reply = reply_of env (done env c1 (store_answer c1.rtn a)) in
        let sent : (answered env c1 a).sent ≡ (link.card d'.world).sent ++ reply ∷ [] =
          ap (λ k. k.sent ++ reply ∷ []) (sym (link.post_recv-card c.world)) in
        let (end, now, message', back) =
          exchange-reply fuel d' (code r) buf (answered env c1 a) reply lf small
            (ap (rdma_req_event env 0 true) same ∙ serve-Plain env ok 0 true r c1 a refl plain)
            sent in
        let result =
          Plain-result r c1 a a.errno reply.rtn buf value plain (ground arith) (ground arith) in
        (
          record {
            ret = host_value a;
            errno = host_errno a;
            buf = buf;
            client = record d' { world = end };
          },
          set_req_sock-exchange fuel c sockfd r buf_sz port message buf
              ∙ back
              ∙ ap (return_of (record d' { world = end })) result,
          refl,
          refl,
          refl,
          now,
        )
