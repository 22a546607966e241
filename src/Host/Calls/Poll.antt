-- ===== src/Host/Calls/Poll.antt =====
-- poll of the host, through the link: the array that the card's kernel gets, and what the caller's
-- array holds afterwards.
use socket_to_rdma.Base.{
  is_pos, ℕ, ◌+◌, ◌*◌, ◌≤◌, ◌^◌, ◌<◌, ◌≡◌, refl, true, none, some, if◌then◌else◌, ltb, sign_extend,
  arith, ◌∙◌, ap, inl,
}
use mathlib.Core.Path.{fun_ext}
use socket_to_rdma.Base.Buffer.{Buffer}
use socket_to_rdma.Card.Env.{Answer, Env}
use socket_to_rdma.Card.Server.{Card}
use socket_to_rdma.Card.Server.Replies.{PostsOk, replied}
use socket_to_rdma.Card.Server.Work.{work}
use socket_to_rdma.Card.Socket.{sock_poll}
use socket_to_rdma.Host.Calls.{filled, data_of, is_cards, rtn_of, take_pollfds, req_poll_fd}
use socket_to_rdma.Host.Calls.Answer.{card_asked, answer, plain_result-IsResult, ask_card-work}
use socket_to_rdma.Host.Client.{Return}
use socket_to_rdma.Host.Client.Link.{Link, ReadsAtPost}
use socket_to_rdma.Host.Hook.{Process, Call, plain_call}
use socket_to_rdma.Host.Verbs.{Verbs}
use socket_to_rdma.Message.{RtnMsg, buffer_size, code, req_poll}
use socket_to_rdma.Wire.Poll.{PollFds, serialize_poll_pollfd, deserialize_poll_pollfd}
use socket_to_rdma.Wire.Poll.Roundtrip.{IsPollFd, poll_roundtrip}

-- the first `n` elements of one array, and those of another behind them
abbrev pub first_of : ℕ → PollFds → PollFds → PollFds
first_of n fds rest = λ i. if ltb i n then fds i else rest i

-- an array that is there is filled in place
in_place :
    (m : Buffer) (fds : PollFds)
    → (deserialize_poll_pollfd m fds (some fds)).fds ≡ (deserialize_poll_pollfd m fds none).fds
unfolding deserialize_poll_pollfd
in_place m fds = refl

read_pollfds :
    (m : Buffer) (fds rest : PollFds) (nfds timeout : ℕ)
    → nfds < 2 ^ 64
    → timeout < 2 ^ 32
    → ((i : ℕ) → i < nfds → IsPollFd (fds i))
    → deserialize_poll_pollfd (serialize_poll_pollfd m fds nfds (some timeout)) rest none
      ≡ record { fds = first_of nfds fds rest; nfds = nfds; timeout = timeout }
read_pollfds m fds rest nfds timeout hn ht hs =
    let (e0, e1, e2) = poll_roundtrip m fds rest nfds timeout hn ht hs in
    λ i. record { fds = fun_ext e2 i; nfds = e0 i; timeout = e1 i }

-- the message that the card stores of a `poll` that does not fail
abbrev pub poll_message : {W : Type 0} → RtnMsg → Answer W → PollFds → (nfds timeout : ℕ) → RtnMsg
poll_message rtn a fds nfds timeout = record {
  errno_ = rtn.errno_;
  rtn_value = sign_extend a.value;
  bytes = serialize_poll_pollfd rtn.bytes fds nfds (some timeout);
}

module _ (env : Env) (verbs : Verbs) (link : Link env verbs)
    (prompt : ReadsAtPost env verbs link) where
  abbrev pub poll_asked : Process verbs.World → PollFds → (nfds timeout : ℕ) → Card env.World
  poll_asked p fds nfds timeout =
      card_asked env verbs link prompt p (fds 0).fd req_poll
        (serialize_poll_pollfd (data_of verbs p) fds nfds (some timeout))

  poll-work :
      (k : Card env.World) (given fds' : PollFds) (nfds timeout : ℕ) (a : Answer env.World)
      → deserialize_poll_pollfd k.req.bytes env.uninit_pollfds none
        ≡ record { fds = given; nfds = nfds; timeout = timeout }
      → env.poll k.world given nfds timeout ≡ (a, fds')
      → a.value < 2 ^ 31
      → ((work env req_poll k).rtn ≡ poll_message k.rtn a fds' nfds timeout)
        × ((work env req_poll k).world ≡ a.world)
  unfolding sock_poll
  poll-work k given fds' nfds timeout a e call small = rw (e, call) (ground arith, refl)

  -- the caller's array, by the message and the value
  take_pollfds-eq :
      (fds back : PollFds) (r : Return verbs.World)
      → (deserialize_poll_pollfd (rtn_of verbs r).bytes fds none).fds ≡ back
      → take_pollfds verbs fds r ≡ (if is_pos r.ret then back else fds)
  take_pollfds-eq fds back r e =
      ap (λ b. if is_pos r.ret then b else fds) (in_place (rtn_of verbs r).bytes fds ∙ e)

  -- A `poll` of an array whose first descriptor is the card's, and that does not fail there, makes
  -- that call once in the card's kernel, with the caller's elements, count and timeout, and returns
  -- its value. If that is positive the caller's elements are those that the kernel leaves; if it is
  -- 0 they are not touched, and `revents` stays as it was. The table stays, and the card is left as
  -- it is behind its reply. The array fits the data of one message behind their 12 bytes, the posts
  -- succeed, the card's device reads each reply before the card changes it (ReadsAtPost), and the
  -- fuel is two more than the waits of the link.
  pub poll-kernel :
      PostsOk env
      → (fuel : ℕ) (p : Process verbs.World) (fds fds' : PollFds) (nfds timeout : ℕ)
        (a : Answer env.World)
      → link.waits + 1 < fuel
      → is_cards verbs p (fds 0).fd ≡ true
      → 0 < nfds
      → 12 + 8 * nfds ≤ buffer_size
      → timeout < 2 ^ 32
      → ((i : ℕ) → i < nfds → IsPollFd (fds i))
      → ((i : ℕ) → i < nfds → IsPollFd (fds' i))
      → env.poll
          (link.card p.client.world).world
          (first_of nfds fds env.uninit_pollfds)
          nfds
          timeout
        ≡ (a, fds')
      → a.value < 2 ^ 31
      → (out : Call verbs.World) × (req_poll_fd verbs fuel p fds nfds timeout
          ≡ filled out (if ltb 0 a.value then first_of nfds fds' fds else fds))
        × (out.ret ≡ a.value)
        × (out.errno ≡ none)
        × (out.process.fd_ht ≡ p.fd_ht)
        × (link.card out.process.client.world
            ≡ replied env (record (poll_asked p fds nfds timeout) {
              rtn = poll_message (link.card p.client.world).rtn a fds' nfds timeout;
              world = a.world;
            }))
  unfolding req_poll_fd
  poll-kernel ok fuel p fds fds' nfds timeout a lf mine some' fit ht hs hs' call small =
      let hn : nfds < 2 ^ 64 = omega arith in
      let k = poll_asked p fds nfds timeout in
      let d = serialize_poll_pollfd (data_of verbs p) fds nfds (some timeout) in
      let first = hs 0 some' in
      let (stored, world) =
        poll-work k (first_of nfds fds env.uninit_pollfds) fds' nfds timeout a
          (read_pollfds (data_of verbs p) fds env.uninit_pollfds nfds timeout hn ht hs) call
          small in
      let (end, back, now, held) =
        ask_card-work env verbs link prompt ok fuel p (fds 0).fd req_poll d lf (omega arith) refl
          refl in
      let v = answer env verbs link prompt p (fds 0).fd req_poll d end in
      let value =
        plain_result-IsResult (code req_poll) (work env req_poll k).rtn a (inl small)
          (rw stored refl) (λ neg. absurd (ground arith)) in
      let ret : v.ret ≡ a.value = ap (λ u. u.0) value in
      let array = take_pollfds-eq fds (first_of nfds fds' fds) v (
        ap (λ t. (deserialize_poll_pollfd t.bytes fds none).fds) (held ∙ stored)
        ∙ ap (λ q. q.fds) (read_pollfds k.rtn.bytes fds' fds nfds timeout hn ht hs')) in
      let sign : is_pos v.ret ≡ ltb 0 a.value = ap is_pos ret ∙ ground arith in
      (
        plain_call verbs p.fd_ht v,
        rw (mine, back)
            (ap (filled (plain_call verbs p.fd_ht v))
              (array ∙ ap (λ b. if b then first_of nfds fds' fds else fds) sign)),
        ret,
        ap (λ u. u.1) value ∙ ground arith,
        refl,
        now ∙ (λ i. replied env (record k { rtn = stored i; world = world i })),
      )
