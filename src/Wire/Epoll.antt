-- ===== src/Wire/Epoll.antt =====
-- The layouts of epoll_create1, epoll_ctl and epoll_wait.
pub mod Events
pub mod Roundtrip
use socket_to_rdma.Base.{
  ℕ, zero, suc, ◌+◌, Bool, true, false, Option, none, some, ◌==◌, ltb, if◌then◌else◌, is_neg,
}
use socket_to_rdma.Base.Buffer.{Buffer, store, load}

pub record EpollEvent : Type 0 where
  pub events : ℕ
  pub epoll_data : ℕ

unfoldable pub serialize_epoll_create_dt : Buffer → ℕ → Buffer
serialize_epoll_create_dt m flag = store 4 m 0 flag

unfoldable pub deserialize_epoll_create_dt : Buffer → ℕ
deserialize_epoll_create_dt m = load 4 m 0

put_event : Buffer → Option EpollEvent → Buffer
put_event m none = m
put_event m (some e) = store 8 (store 4 m 12 e.events) 16 e.epoll_data

-- the host's writer; the event may be NULL
unfoldable pub serialize_epoll_ctl_dt : Buffer → (epfd op fd : ℕ) → Option EpollEvent → Buffer
unfolding put_event
serialize_epoll_ctl_dt m epfd op fd event =
    store 4 (store 4 (store 4 (put_event m event) 0 epfd) 4 op) 8 fd

pub record EpollCtl : Type 0 where
  pub epfd : ℕ
  pub op : ℕ
  pub fd : ℕ
  pub event : EpollEvent

-- the card's reader
unfoldable pub deserialize_epoll_ctl_dt : Buffer → EpollCtl
deserialize_epoll_ctl_dt m = record {
  epfd = load 4 m 0;
  op = load 4 m 4;
  fd = load 4 m 8;
  event = record { events = load 4 m 12; epoll_data = load 8 m 16 };
}

abbrev pub Events : Type 0
Events = ℕ → EpollEvent

-- `for (int i = 0; i < *nfds; i++)` makes no round at a negative `nfds`
abbrev pub rounds_of : ℕ → ℕ
rounds_of nfds = if is_neg nfds then 0 else nfds

unfoldable pub put_events : ℕ → (i offset : ℕ) → Events → Buffer → Buffer
put_events zero i offset events m = m
put_events (suc rounds) i offset events m =
    let rest =
      put_events rounds (i + 1) (offset + 12) events
        (store 8 (store 4 m offset (events i).events) (offset + 4) (events i).epoll_data) in
    if ltb 1024 (offset + 12) then m else rest

unfoldable pub serialize_epoll_wait_dt :
    Buffer → (nfds epfd maxevents timeout : ℕ) → Events → Buffer
unfolding put_events
serialize_epoll_wait_dt m nfds epfd maxevents timeout events =
    put_events (rounds_of nfds) 0 16 events
      (store 4 (store 4 (store 4 (store 4 m 0 nfds) 4 epfd) 8 maxevents) 12 timeout)

unfoldable pub get_events : ℕ → (i offset : ℕ) → Buffer → Events → Events
get_events zero i offset m events = events
get_events (suc rounds) i offset m events =
    let e : EpollEvent = record { events = load 4 m offset; epoll_data = load 8 m (offset + 4) } in
    let rest = get_events rounds (i + 1) (offset + 12) m (λ j. if j == i then e else events j) in
    if ltb 1024 (offset + 12) then events else rest

get_events? : ℕ → Buffer → Option Events → Option Events
unfolding get_events
get_events? rounds m none = none
get_events? rounds m (some events) = some (get_events rounds 0 16 m events)

pub record EpollWait : Type 0 where
  pub nfds : ℕ
  pub epfd : ℕ
  pub maxevents : ℕ
  pub timeout : ℕ
  pub events : Option Events

-- The array is NULL on the card, which wants only the numbers.
unfoldable pub deserialize_epoll_wait_dt : Buffer → Option Events → EpollWait
unfolding get_events?
deserialize_epoll_wait_dt m events = record {
  nfds = load 4 m 0;
  epfd = load 4 m 4;
  maxevents = load 4 m 8;
  timeout = load 4 m 12;
  events = get_events? (rounds_of (load 4 m 0)) m events;
}
