-- ===== src/Host/Calls/Epoll.antt =====
-- epoll_ctl of the host, through the link: the call that the card's kernel gets, and what the caller
-- gets of its answer.
use socket_to_rdma.Base.{
  ℕ, ◌+◌, ◌<◌, ◌≡◌, ◌==◌, refl, sym, true, Option, none, some, if◌then◌else◌, is_neg, minus_one,
  arith, ◌∙◌, ap,
}
use socket_to_rdma.Card.Env.{Answer, Env}
use socket_to_rdma.Card.Server.{Card}
use socket_to_rdma.Card.Server.Errors.{answered}
use socket_to_rdma.Card.Server.Replies.{PostsOk, replied}
use socket_to_rdma.Card.Server.Work.{work}
use socket_to_rdma.Card.Socket.{set_value, set_errno, store_answer, sock_epoll_ctl}
use socket_to_rdma.Host.Calls.{filled, data_of, is_cards, req_epoll_ctl_fd}
use socket_to_rdma.Host.Calls.Answer.{
  IsResult, plain_result-IsResult, done-done, card_asked, answer, ask_card-work,
}
use socket_to_rdma.Host.Client.Link.{Link, ReadsAtPost}
use socket_to_rdma.Host.Hook.{Process, Call, plain_call}
use socket_to_rdma.Host.Verbs.{Verbs}
use socket_to_rdma.Message.{RtnMsg, code, req_epoll_ctl}
use socket_to_rdma.Wire.Epoll.{EpollEvent, serialize_epoll_ctl_dt, deserialize_epoll_ctl_dt}
use socket_to_rdma.Wire.Epoll.Roundtrip.{IsInt, IsMaybeEvent, event_or, stale_event, ctl_roundtrip}

-- `ret == -1` and `ret < 0` say the same of such a value
stores_result :
    {W : Type 0} (rtn : RtnMsg) (a : Answer W)
    → IsResult a.value
    → (if a.value == minus_one
        then set_errno (set_value rtn a.value) a.errno
        else set_value rtn a.value)
      ≡ (store_answer rtn a).rtn
stores_result rtn a h = ground arith

module _ (env : Env) (verbs : Verbs) (link : Link env verbs)
    (prompt : ReadsAtPost env verbs link) where
  -- the kernel's call, behind the two look-ups of the descriptors
  abbrev pub ctl_call : env.World → (epfd op fd : ℕ) → EpollEvent → Answer env.World
  ctl_call w epfd op fd event =
      env.epoll_ctl (env.fcntl (env.fcntl w epfd 1 none).world fd 1 none).world epfd op fd event

  -- the card with an `epoll_ctl` request of the process
  abbrev pub ctl_asked : Process verbs.World → (epfd op fd : ℕ) → Option EpollEvent → Card env.World
  ctl_asked p epfd op fd event =
      card_asked env verbs link prompt p epfd req_epoll_ctl
        (serialize_epoll_ctl_dt (data_of verbs p) epfd op fd event)

  ctl-work :
      (k : Card env.World) (epfd op fd : ℕ) (event : EpollEvent) (a : Answer env.World)
      → deserialize_epoll_ctl_dt k.req.bytes
        ≡ record { epfd = epfd; op = op; fd = fd; event = event }
      → a ≡ ctl_call k.world epfd op fd event
      → IsResult a.value
      → ((work env req_epoll_ctl k).rtn ≡ (store_answer k.rtn a).rtn)
        × ((work env req_epoll_ctl k).world ≡ a.world)
  unfolding sock_epoll_ctl
  ctl-work k epfd op fd event a e h result =
      let same : ctl_call k.world epfd op fd event ≡ a = sym h in
      rw (e, same) (stores_result k.rtn a result, refl)

  -- `epoll_ctl` on an instance of the card's makes that call once in the card's kernel, with the
  -- caller's descriptors, operation and event, and returns its value, with its `errno` if it is -1.
  -- The table of descriptors stays, and the card is left as it is behind its reply. Where the
  -- caller's event is NULL, the kernel gets one made of bytes that an earlier call left in the
  -- request. The posts succeed, the card's device reads each reply before the card zeroes its
  -- `errno_` (ReadsAtPost), the fuel is two more than the waits of the link, and the kernel's value is
  -- -1 or not negative.
  pub epoll_ctl-kernel :
      PostsOk env
      → (fuel : ℕ) (p : Process verbs.World) (epfd op fd : ℕ) (event : Option EpollEvent)
        (a : Answer env.World)
      → link.waits + 1 < fuel
      → is_cards verbs p epfd ≡ true
      → IsInt epfd
      → IsInt op
      → IsInt fd
      → IsMaybeEvent event
      → a
        ≡ ctl_call
            (link.card p.client.world).world
            epfd
            op
            fd
            (event_or (stale_event (data_of verbs p)) event)
      → IsResult a.value
      → (out : Call verbs.World) × (req_epoll_ctl_fd verbs fuel p epfd op fd event ≡ filled out tt)
        × (out.ret ≡ a.value)
        × (out.errno ≡ (if is_neg a.value then some a.errno else none))
        × (out.process.fd_ht ≡ p.fd_ht)
        × (link.card out.process.client.world ≡ answered env (ctl_asked p epfd op fd event) a)
  unfolding req_epoll_ctl_fd
  epoll_ctl-kernel ok fuel p epfd op fd event a lf mine h0 h1 h2 h3 call result =
      let k = ctl_asked p epfd op fd event in
      let m = serialize_epoll_ctl_dt (data_of verbs p) epfd op fd event in
      let (stored, world) =
        ctl-work k epfd op fd (event_or (stale_event (data_of verbs p)) event) a
          (ctl_roundtrip (data_of verbs p) epfd op fd event h0 h1 h2 h3) call result in
      let (end, back, now, held) =
        ask_card-work env verbs link prompt ok fuel p epfd req_epoll_ctl m lf h0 refl refl in
      let r = answer env verbs link prompt p epfd req_epoll_ctl m end in
      let value =
        plain_result-IsResult (code req_epoll_ctl) (work env req_epoll_ctl k).rtn a result
          (rw stored (ground arith)) (λ neg. rw stored (ground arith)) in
      (
        plain_call verbs p.fd_ht r,
        rw (mine, back) refl,
        ap (λ v. v.0) value,
        ap (λ v. v.1) value,
        refl,
        now
            ∙ ap (replied env)
                (done-done k (work env req_epoll_ctl k) (store_answer k.rtn a) stored world),
      )
