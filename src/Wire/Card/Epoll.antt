-- ===== src/Wire/Card/Epoll.antt =====
-- The card's layouts of epoll_create1, epoll_ctl and epoll_wait, and of poll.
use socket_to_rdma.Base.{ℕ, zero, suc, ◌+◌, Option, none, some, ◌==◌, ltb, if◌then◌else◌}
use socket_to_rdma.Base.Buffer.{Buffer, store, load}
use socket_to_rdma.Wire.Epoll.{EpollEvent, EpollCtl, EpollWait, Events, rounds_of}
use socket_to_rdma.Wire.Poll.{PollFds, PollArgs, put_pollfd, pollfd_at}

unfoldable pub card_serialize_epoll_create_dt : Buffer → ℕ → Buffer
card_serialize_epoll_create_dt m flag = store 4 m 0 flag

unfoldable pub card_deserialize_epoll_create_dt : Buffer → ℕ
card_deserialize_epoll_create_dt m = load 4 m 0

-- The card's writer refuses a NULL event before it writes anything.
unfoldable pub card_serialize_epoll_ctl_dt : Buffer → (epfd op fd : ℕ) → Option EpollEvent → Buffer
card_serialize_epoll_ctl_dt m epfd op fd none = m
card_serialize_epoll_ctl_dt m epfd op fd (some e) =
    let numbers = store 4 (store 4 (store 4 m 0 epfd) 4 op) 8 fd in
    store 8 (store 4 numbers 12 e.events) 16 e.epoll_data

-- The host's reader compares its third argument, which is a pointer, with EPOLL_CTL_DEL, 2; `op_at`
-- is that pointer's address. `event` is what the caller's object holds before.
unfoldable pub host_deserialize_epoll_ctl_dt :
    Buffer → (op_at : ℕ) → (event : EpollEvent) → EpollCtl
host_deserialize_epoll_ctl_dt m op_at event =
    let sent : EpollEvent = record { events = load 4 m 12; epoll_data = load 8 m 16 } in
    record {
      epfd = load 4 m 0;
      op = load 4 m 4;
      fd = load 4 m 8;
      event = if op_at == 2 then record event { events = 0 } else sent;
    }

unfoldable pub card_put_events : ℕ → (i offset : ℕ) → Events → Buffer → Buffer
card_put_events zero i offset events m = m
card_put_events (suc rounds) i offset events m =
    let m1 = store 4 m offset (events i).events in
    let m2 = store 8 m1 (offset + 4) (events i).epoll_data in
    let rest = card_put_events rounds (i + 1) (offset + 12) events m2 in
    if ltb 1024 (offset + 12) then m else rest

-- The array is the caller's, or a fresh one if the caller gives NULL: the fresh one is never set,
-- so it stands among the arguments.
unfoldable pub card_serialize_epoll_wait_dt :
    Buffer → (nfds epfd maxevents timeout : ℕ) → Events → Buffer
unfolding card_put_events
card_serialize_epoll_wait_dt m nfds epfd maxevents timeout events =
    let numbers = store 4 (store 4 (store 4 (store 4 m 0 nfds) 4 epfd) 8 maxevents) 12 timeout in
    card_put_events (rounds_of nfds) 0 16 events numbers

unfoldable pub card_get_events : ℕ → (i offset : ℕ) → Buffer → Events → Events
card_get_events zero i offset m events = events
card_get_events (suc rounds) i offset m events =
    let e : EpollEvent = record { events = load 4 m offset; epoll_data = load 8 m (offset + 4) } in
    let set : Events = λ j. if j == i then e else events j in
    let rest = card_get_events rounds (i + 1) (offset + 12) m set in
    if ltb 1024 (offset + 12) then events else rest

unfoldable pub card_deserialize_epoll_wait_dt : Buffer → Option Events → EpollWait
unfolding card_get_events
card_deserialize_epoll_wait_dt m none = record {
  nfds = load 4 m 0;
  epfd = load 4 m 4;
  maxevents = load 4 m 8;
  timeout = load 4 m 12;
  events = none;
}
card_deserialize_epoll_wait_dt m (some events) =
    let nfds = load 4 m 0 in
    record {
      nfds = nfds;
      epfd = load 4 m 4;
      maxevents = load 4 m 8;
      timeout = load 4 m 12;
      events = some (card_get_events (rounds_of nfds) 0 16 m events);
    }

unfoldable pub card_put_pollfds : ℕ → (i offset : ℕ) → PollFds → Buffer → Buffer
card_put_pollfds zero i offset fds m = m
card_put_pollfds (suc rounds) i offset fds m =
    card_put_pollfds rounds (i + 1) (offset + 8) fds (put_pollfd m offset (fds i))

unfoldable pub card_serialize_poll_pollfd :
    Buffer → PollFds → (nfds : ℕ) → (timeout : Option ℕ) → Buffer
unfolding card_put_pollfds
card_serialize_poll_pollfd m fds nfds none = card_put_pollfds nfds 0 12 fds (store 8 m 4 nfds)
card_serialize_poll_pollfd m fds nfds (some timeout) =
    card_put_pollfds nfds 0 12 fds (store 8 (store 4 m 0 timeout) 4 nfds)

unfoldable pub card_get_pollfds : ℕ → (i offset : ℕ) → Buffer → PollFds → PollFds
card_get_pollfds zero i offset m fds = fds
card_get_pollfds (suc rounds) i offset m fds =
    let set : PollFds = λ j. if j == i then pollfd_at m offset else fds j in
    card_get_pollfds rounds (i + 1) (offset + 8) m set

-- The failure of the allocation is left out, as for the host's.
unfoldable pub card_deserialize_poll_pollfd :
    Buffer → (malloc : PollFds) → Option PollFds → PollArgs
unfolding card_get_pollfds
card_deserialize_poll_pollfd m malloc none =
    let nfds = load 8 m 4 in
    record { fds = card_get_pollfds nfds 0 12 m malloc; nfds = nfds; timeout = load 4 m 0 }
card_deserialize_poll_pollfd m malloc (some fds) =
    let nfds = load 8 m 4 in
    record { fds = card_get_pollfds nfds 0 12 m fds; nfds = nfds; timeout = load 4 m 0 }
