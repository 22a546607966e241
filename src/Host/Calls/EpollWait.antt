-- ===== src/Host/Calls/EpollWait.antt =====
-- epoll_wait of the host, through the link: the call that the card's kernel gets, and what the
-- caller's array holds afterwards.
use socket_to_rdma.Base.{
  ℕ, ◌+◌, ◌≤◌, ◌^◌, ◌<◌, ◌≡◌, refl, true, none, some, if◌then◌else◌, sign_extend, arith, ◌∙◌, ap,
  inl, ltb, ◌&&◌,
}
use socket_to_rdma.Base.Buffer.{Buffer}
use socket_to_rdma.Card.Env.{Answer, Env}
use socket_to_rdma.Card.Server.{Card, done}
use socket_to_rdma.Card.Server.Replies.{PostsOk, replied}
use socket_to_rdma.Card.Server.Work.{work}
use socket_to_rdma.Card.Socket.{sock_epoll_wait}
use socket_to_rdma.Host.Calls.{filled, take_events, no_events, data_of, is_cards, req_epoll_wait_fd}
use socket_to_rdma.Host.Calls.Answer.{
  plain_result-IsResult, done-done, card_asked, answer, ask_card-work,
}
use socket_to_rdma.Host.Client.Link.{Link, ReadsAtPost}
use socket_to_rdma.Host.Hook.{Process, Call, plain_call}
use socket_to_rdma.Host.Verbs.{Verbs}
use socket_to_rdma.Message.{RtnMsg, code, req_epoll_wait}
use socket_to_rdma.Wire.Epoll.{Events, serialize_epoll_wait_dt, deserialize_epoll_wait_dt}
use socket_to_rdma.Wire.Epoll.Events.{IsEvent}
use socket_to_rdma.Wire.Epoll.Roundtrip.{IsInt, wait_roundtrip}

-- the message that the card stores once the wait has succeeded
abbrev pub wait_message : RtnMsg → (nfds epfd maxevents timeout : ℕ) → Events → RtnMsg
wait_message rtn nfds epfd maxevents timeout events = record {
  errno_ = rtn.errno_;
  rtn_value = sign_extend nfds;
  bytes = serialize_epoll_wait_dt rtn.bytes nfds epfd maxevents timeout events;
}

module _ (env : Env) (verbs : Verbs) (link : Link env verbs)
    (prompt : ReadsAtPost env verbs link) where
  -- the card with an `epoll_wait` request of the process
  abbrev pub wait_asked : Process verbs.World → (epfd maxevents timeout : ℕ) → Card env.World
  wait_asked p epfd maxevents timeout =
      card_asked env verbs link prompt p epfd req_epoll_wait
        (serialize_epoll_wait_dt (data_of verbs p) 0 epfd maxevents timeout no_events)

  wait_args :
      (m : Buffer) (epfd maxevents timeout : ℕ)
      → IsInt epfd
      → IsInt maxevents
      → IsInt timeout
      → deserialize_epoll_wait_dt
          (serialize_epoll_wait_dt m 0 epfd maxevents timeout no_events)
          none
        ≡ record { nfds = 0; epfd = epfd; maxevents = maxevents; timeout = timeout; events = none }
  unfolding deserialize_epoll_wait_dt
  wait_args m epfd maxevents timeout h0 h1 h2 =
      let (e0, e1, e2, e3, e4) =
        wait_roundtrip m 0 epfd maxevents timeout no_events no_events (omega arith) h0 h1 h2
          (λ i h. absurd (omega arith)) in
      ground arith

  wait-work :
      (k : Card env.World) (epfd maxevents timeout : ℕ) (a : Answer env.World) (events : Events)
      → deserialize_epoll_wait_dt k.req.bytes none
        ≡ record { nfds = 0; epfd = epfd; maxevents = maxevents; timeout = timeout; events = none }
      → env.epoll_wait k.world epfd env.uninit_events maxevents timeout ≡ (a, events)
      → a.value < 2 ^ 31
      → ((work env req_epoll_wait k).rtn ≡ wait_message k.rtn a.value epfd maxevents timeout events)
        × ((work env req_epoll_wait k).world ≡ a.world)
  unfolding sock_epoll_wait
  wait-work k epfd maxevents timeout a events e call small = rw (e, call) (ground arith, refl)

  -- A successful `epoll_wait` on an instance of the card's makes that call once in the card's kernel,
  -- with the caller's bounds, and returns its number of events; `errno` and the table stay. The
  -- caller's array gets the first 84 of the events in order, and keeps the rest of its places. The
  -- caller asks for at most 100 events, the places of the card's array, and the kernel answers no
  -- more than it is asked for. The posts succeed, the card's device reads each reply before the card
  -- changes it (ReadsAtPost), and the fuel is two more than the waits of the link.
  pub epoll_wait-kernel :
      PostsOk env
      → (fuel : ℕ) (p : Process verbs.World) (epfd maxevents timeout : ℕ) (into : Events)
        (a : Answer env.World) (events : Events)
      → link.waits + 1 < fuel
      → is_cards verbs p epfd ≡ true
      → IsInt epfd
      → maxevents ≤ 100
      → IsInt timeout
      → env.epoll_wait (link.card p.client.world).world epfd env.uninit_events maxevents timeout
        ≡ (a, events)
      → a.value ≤ maxevents
      → ((i : ℕ) → i < a.value → IsEvent (events i))
      → (out : Call verbs.World) × (got : Events) × (req_epoll_wait_fd verbs fuel p epfd
            (some into)
            maxevents
            timeout
          ≡ filled out (some got))
        × (out.ret ≡ a.value)
        × (out.errno ≡ none)
        × (out.process.fd_ht ≡ p.fd_ht)
        × ((i : ℕ) → got i ≡ (if ltb i a.value && ltb i 84 then events i else into i))
        × (link.card out.process.client.world
            ≡ replied env (
                done env (wait_asked p epfd maxevents timeout) (record {
                  ret = a.value;
                  rtn =
                      wait_message
                        (link.card p.client.world).rtn
                        a.value
                        epfd
                        maxevents
                        timeout
                        events;
                  world = a.world;
                })))
  unfolding req_epoll_wait_fd
  epoll_wait-kernel ok fuel p epfd maxevents timeout into a events lf mine h0 room h2 call some'
        hs =
      let h1 : IsInt maxevents = omega arith in
      let small : a.value < 2 ^ 31 = omega arith in
      let k = wait_asked p epfd maxevents timeout in
      let m = serialize_epoll_wait_dt (data_of verbs p) 0 epfd maxevents timeout no_events in
      let (stored, world) =
        wait-work k epfd maxevents timeout a events
          (wait_args (data_of verbs p) epfd maxevents timeout h0 h1 h2) call small in
      let (end, back, now, held) =
        ask_card-work env verbs link prompt ok fuel p epfd req_epoll_wait m lf h0 refl refl in
      let r = answer env verbs link prompt p epfd req_epoll_wait m end in
      let message = held ∙ stored in
      let (e0, e1, e2, e3, (got, found, each)) =
        wait_roundtrip k.rtn.bytes a.value epfd maxevents timeout events into small h0 h1 h2 hs in
      let takes : take_events verbs (some into) r ≡ some got =
        ap (λ t. (deserialize_epoll_wait_dt t.bytes (some into)).events) message ∙ found in
      let value =
        plain_result-IsResult (code req_epoll_wait) (work env req_epoll_wait k).rtn a (inl small)
          (rw stored refl) (λ neg. absurd (ground arith)) in
      (
        plain_call verbs p.fd_ht r,
        got,
        rw (mine, back) (ap (λ v. filled (plain_call verbs p.fd_ht r) v) takes),
        ap (λ v. v.0) value,
        ap (λ v. v.1) value ∙ ground arith,
        refl,
        each,
        now
            ∙ ap (replied env) (
                done-done k (work env req_epoll_wait k)
                  (record {
                    ret = a.value;
                    rtn = wait_message k.rtn a.value epfd maxevents timeout events;
                    world = a.world;
                  })
                  stored world),
      )
