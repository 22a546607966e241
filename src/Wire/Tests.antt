-- ===== src/Wire/Tests.antt =====
-- The layouts' theorems at concrete messages.
use socket_to_rdma.Base.{
  ℕ, ◌+◌, ◌^◌, ◌≡◌, refl, none, some, List, ◌∷◌, ltb, ◌&&◌, if◌then◌else◌, arith,
}
use socket_to_rdma.Base.Buffer.{Buffer, store, load}
use socket_to_rdma.Wire.Epoll.{
  EpollEvent, Events, serialize_epoll_create_dt, deserialize_epoll_create_dt,
  serialize_epoll_ctl_dt, serialize_epoll_wait_dt, deserialize_epoll_wait_dt,
}
use socket_to_rdma.Wire.Epoll.Roundtrip.{wait_roundtrip}
use socket_to_rdma.Wire.Select.{
  SelectArgs, zeros, set_sz, tv_sz, serialize_select_fd_set, deserialize_select_fd_set,
}
use socket_to_rdma.Wire.Select.Roundtrip.{objects, clobber, select_roundtrip}
use socket_to_rdma.Wire.Poll.{PollFds, serialize_poll_pollfd, deserialize_poll_pollfd}
use socket_to_rdma.Wire.Fcntl.{serialize_fcntl_dt, deserialize_fcntl_dt}
use socket_to_rdma.Wire.Sockopt.{
  serialize_sockopt_dt, deserialize_sockopt_dt, serialize_addr_dt, deserialize_addr_dt,
}
use socket_to_rdma.Wire.Card.Epoll.{
  card_serialize_epoll_create_dt, card_deserialize_epoll_create_dt, card_serialize_epoll_ctl_dt,
  host_deserialize_epoll_ctl_dt, card_serialize_epoll_wait_dt, card_deserialize_epoll_wait_dt,
  card_serialize_poll_pollfd, card_deserialize_poll_pollfd,
}
use socket_to_rdma.Wire.Card.Select.{card_serialize_select_fd_set, card_deserialize_select_fd_set}
use socket_to_rdma.Wire.Card.Pointers.{
  card_serialize_fcntl_dt, host_deserialize_fcntl_dt, card_serialize_sockopt_dt,
  card_deserialize_sockopt_dt, card_serialize_addr_dt, card_deserialize_addr_dt,
}
use socket_to_rdma.Wire.Card.Agrees.{filled, layouts_agree}
use socket_to_rdma.Wire.Poll.Roundtrip.{poll_bounded}

-- a buffer that earlier messages left full of sevens
abbrev dirty : Buffer
dirty = λ i. 7

abbrev event : EpollEvent
event = record { events = 1; epoll_data = 2 ^ 40 + 5 }

abbrev ready : Events
ready = λ i. event

abbrev old : Events
old = λ i. record { events = 0; epoll_data = 0 }

wait_roundtrip_example :
    let r =
      deserialize_epoll_wait_dt (serialize_epoll_wait_dt dirty 90 4 100 1000 ready) (some old) in
    (r.nfds ≡ 90)
    × (r.epfd ≡ 4)
    × (r.maxevents ≡ 100)
    × (r.timeout ≡ 1000)
    × ((out : Events) × (r.events ≡ some out)
        × ((i : ℕ) → out i ≡ (if ltb i 90 && ltb i 84 then ready i else old i)))
wait_roundtrip_example =
    wait_roundtrip dirty 90 4 100 1000 ready old (omega arith) (omega arith) (omega arith)
      (omega arith) (λ i h. (omega arith, omega arith))

-- the set that holds descriptor 3
abbrev three : List ℕ
three = 8 ∷ zeros 127

select_roundtrip_example :
    deserialize_select_fd_set
      (serialize_select_fd_set dirty 4 (some three) none none none)
      (objects 0 (zeros set_sz) (zeros set_sz) (zeros set_sz) (zeros tv_sz))
    ≡ objects 4 (clobber 1000 three) (zeros set_sz) (zeros set_sz) (zeros tv_sz)
select_roundtrip_example =
    select_roundtrip dirty 4 0 (some three) none none none (zeros set_sz) (zeros set_sz)
      (zeros set_sz) (zeros tv_sz) (omega arith) refl tt tt tt

abbrev polled : PollFds
polled = λ i. record { fd = 3 + i; events = 1; revents = 0 }

abbrev fresh : PollFds
fresh = λ i. record { fd = 0; events = 0; revents = 0 }

poll_bounded_example : serialize_poll_pollfd dirty polled 2 (some 500) 28 ≡ 7
poll_bounded_example = poll_bounded dirty polled 2 500 28 (omega arith) (omega arith)

abbrev held : SelectArgs
held = objects 0 (zeros set_sz) (zeros set_sz) (zeros set_sz) (zeros tv_sz)

layouts_agree_example :
    (card_serialize_epoll_create_dt dirty 1 ≡ serialize_epoll_create_dt dirty 1)
    × (card_deserialize_epoll_create_dt dirty ≡ deserialize_epoll_create_dt dirty)
    × (card_serialize_epoll_wait_dt dirty 2 4 100 1000 ready
        ≡ serialize_epoll_wait_dt dirty 2 4 100 1000 ready)
    × (card_deserialize_epoll_wait_dt dirty none ≡ deserialize_epoll_wait_dt dirty none)
    × (card_serialize_select_fd_set dirty 2 (some three) none none none
        ≡ serialize_select_fd_set dirty 2 (some three) none none none)
    × (card_deserialize_select_fd_set dirty held ≡ deserialize_select_fd_set dirty held)
    × (card_serialize_poll_pollfd dirty polled 2 none ≡ serialize_poll_pollfd dirty polled 2 none)
    × (card_deserialize_poll_pollfd dirty fresh none ≡ deserialize_poll_pollfd dirty fresh none)
    × (card_serialize_fcntl_dt dirty 4 (some dirty) ≡ serialize_fcntl_dt dirty 4 (some dirty))
    × ((host_deserialize_fcntl_dt dirty (some dirty)).arg
        ≡ filled (some dirty) (deserialize_fcntl_dt dirty).arg)
    × (card_serialize_sockopt_dt dirty 1 2 dirty 4 ≡ serialize_sockopt_dt dirty 1 2 dirty 4)
    × (card_deserialize_sockopt_dt dirty ≡ deserialize_sockopt_dt dirty)
    × (card_serialize_addr_dt dirty 16 (zeros 16) ≡ serialize_addr_dt dirty 16 (zeros 16))
    × (card_deserialize_addr_dt dirty ≡ deserialize_addr_dt dirty)
layouts_agree_example =
    layouts_agree dirty dirty 1 2 4 100 1000 4 1 2 4 16 ready none polled fresh none none
      (some three) none none none held (some dirty) (zeros 16)

-- The card's writer of epoll_ctl leaves the message as it was where there is no event.
no_event : card_serialize_epoll_ctl_dt dirty 4 2 9 none ≡ dirty
unfolding card_serialize_epoll_ctl_dt
no_event = refl

-- The host's reader sets the events to 0 only where its pointer is the address 2.
deletion_read :
    let sent = serialize_epoll_ctl_dt dirty 4 2 9 (some event) in
    (host_deserialize_epoll_ctl_dt sent 4096 event).event.events ≡ 1
unfolding host_deserialize_epoll_ctl_dt serialize_epoll_ctl_dt store load
deletion_read = refl
