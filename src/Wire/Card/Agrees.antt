-- ===== src/Wire/Card/Agrees.antt =====
-- The card's text of the layouts against the host's.
use socket_to_rdma.Base.{ℕ, zero, suc, ◌+◌, ◌≡◌, refl, Option, none, some, List, arith, ◌==◌}
use socket_to_rdma.Base.Buffer.{Buffer, load, read, write}
use socket_to_rdma.Wire.Epoll.{
  Events, serialize_epoll_create_dt, deserialize_epoll_create_dt, put_events, get_events,
  serialize_epoll_wait_dt, deserialize_epoll_wait_dt, rounds_of,
}
use socket_to_rdma.Wire.Poll.{
  PollFds, put_pollfds, get_pollfds, serialize_poll_pollfd, deserialize_poll_pollfd,
}
use socket_to_rdma.Wire.Select.{
  Bytes?, SelectArgs, bytes_or_zeros, mark, fill, serialize_select_fd_set,
  deserialize_select_fd_set,
}
use socket_to_rdma.Wire.Fcntl.{
  serialize_fcntl_dt, deserialize_fcntl_dt, get_arg, put_arg, fcntl_flag,
}
use socket_to_rdma.Wire.Sockopt.{
  serialize_sockopt_dt, deserialize_sockopt_dt, serialize_addr_dt, deserialize_addr_dt,
}
use socket_to_rdma.Wire.Card.Epoll.{
  card_serialize_epoll_create_dt, card_deserialize_epoll_create_dt, card_put_events,
  card_get_events, card_serialize_epoll_wait_dt, card_deserialize_epoll_wait_dt, card_put_pollfds,
  card_get_pollfds, card_serialize_poll_pollfd, card_deserialize_poll_pollfd,
}
use socket_to_rdma.Wire.Card.Select.{
  card_put_set, card_get_set, card_serialize_select_fd_set, card_deserialize_select_fd_set,
}
use socket_to_rdma.Wire.Card.Pointers.{
  card_put_cmd, card_serialize_fcntl_dt, host_get_arg, host_deserialize_fcntl_dt,
  card_serialize_sockopt_dt, card_deserialize_sockopt_dt, card_serialize_addr_dt,
  card_deserialize_addr_dt,
}

put_events-eq :
    (rounds i offset : ℕ) (events : Events) (m : Buffer)
    → card_put_events rounds i offset events m ≡ put_events rounds i offset events m
unfolding card_put_events put_events
put_events-eq zero i offset events m = refl
put_events-eq (suc rounds) i offset events m =
    rw (put_events-eq rounds (i + 1) (offset + 12) events _) refl

get_events-eq :
    (rounds i offset : ℕ) (m : Buffer) (events : Events)
    → card_get_events rounds i offset m events ≡ get_events rounds i offset m events
unfolding card_get_events get_events
get_events-eq zero i offset m events = refl
get_events-eq (suc rounds) i offset m events =
    rw (get_events-eq rounds (i + 1) (offset + 12) m _) refl

put_pollfds-eq :
    (rounds i offset : ℕ) (fds : PollFds) (m : Buffer)
    → card_put_pollfds rounds i offset fds m ≡ put_pollfds rounds i offset fds m
unfolding card_put_pollfds put_pollfds
put_pollfds-eq zero i offset fds m = refl
put_pollfds-eq (suc rounds) i offset fds m = put_pollfds-eq rounds (i + 1) (offset + 8) fds _

get_pollfds-eq :
    (rounds i offset : ℕ) (m : Buffer) (fds : PollFds)
    → card_get_pollfds rounds i offset m fds ≡ get_pollfds rounds i offset m fds
unfolding card_get_pollfds get_pollfds
get_pollfds-eq zero i offset m fds = refl
get_pollfds-eq (suc rounds) i offset m fds = get_pollfds-eq rounds (i + 1) (offset + 8) m _

put_set-eq :
    (sz offset digit : ℕ) (bs : Bytes?) (s : Buffer × ℕ)
    → card_put_set sz offset digit bs s
      ≡ (write s.0 offset (bytes_or_zeros sz bs), s.1 + mark digit bs)
unfolding card_put_set
put_set-eq sz offset digit none (m, flag) = ground arith
put_set-eq sz offset digit (some bs) (m, flag) = refl

get_set-eq :
    (digit sz offset : ℕ) (m : Buffer) (bs : Bytes?)
    → card_get_set digit sz offset m bs ≡ fill (digit == 1) bs (read m offset sz)
unfolding card_get_set
get_set-eq digit sz offset m none = refl
get_set-eq digit sz offset m (some old) = ground arith

select_writers :
    (m : Buffer) (nfds : ℕ) (r w e t : Bytes?)
    → card_serialize_select_fd_set m nfds r w e t ≡ serialize_select_fd_set m nfds r w e t
unfolding card_serialize_select_fd_set serialize_select_fd_set
select_writers m nfds r w e t =
    let first : 0 + mark 1000 r ≡ mark 1000 r = omega arith in
    rw (put_set-eq, put_set-eq, put_set-eq, put_set-eq, first) refl

select_readers :
    (m : Buffer) (a : SelectArgs)
    → card_deserialize_select_fd_set m a ≡ deserialize_select_fd_set m a
unfolding card_deserialize_select_fd_set deserialize_select_fd_set
select_readers m a = rw (get_set-eq, get_set-eq, get_set-eq, get_set-eq) refl

poll_writers :
    (m : Buffer) (fds : PollFds) (nfds : ℕ) (timeout : Option ℕ)
    → card_serialize_poll_pollfd m fds nfds timeout ≡ serialize_poll_pollfd m fds nfds timeout
unfolding card_serialize_poll_pollfd serialize_poll_pollfd
poll_writers m fds nfds none = put_pollfds-eq nfds 0 12 fds _
poll_writers m fds nfds (some timeout) = put_pollfds-eq nfds 0 12 fds _

poll_readers :
    (m : Buffer) (malloc : PollFds) (fds : Option PollFds)
    → card_deserialize_poll_pollfd m malloc fds ≡ deserialize_poll_pollfd m malloc fds
unfolding card_deserialize_poll_pollfd deserialize_poll_pollfd
poll_readers m malloc none = rw (get_pollfds-eq (load 8 m 4) 0 12 m malloc) refl
poll_readers m malloc (some fds) = rw (get_pollfds-eq (load 8 m 4) 0 12 m fds) refl

wait_readers :
    (m : Buffer) (events : Option Events)
    → card_deserialize_epoll_wait_dt m events ≡ deserialize_epoll_wait_dt m events
unfolding card_deserialize_epoll_wait_dt deserialize_epoll_wait_dt
wait_readers m none = refl
wait_readers m (some events) = rw (get_events-eq (rounds_of (load 4 m 0)) 0 16 m events) refl

fcntl_writers :
    (m : Buffer) (cmd : ℕ) (arg : Option Buffer)
    → card_serialize_fcntl_dt m cmd arg ≡ serialize_fcntl_dt m cmd arg
unfolding card_serialize_fcntl_dt serialize_fcntl_dt card_put_cmd fcntl_flag put_arg
fcntl_writers m cmd none = ground arith
fcntl_writers m cmd (some arg) = ground arith

-- the caller's memory, with the bytes put at its start
abbrev pub filled : Option Buffer → Option (List ℕ) → Option Buffer
filled none bs = none
filled (some old) none = some old
filled (some old) (some bs) = some (write old 0 bs)

fcntl_readers :
    (m : Buffer) (arg : Option Buffer)
    → (host_deserialize_fcntl_dt m arg).arg ≡ filled arg (deserialize_fcntl_dt m).arg
unfolding host_deserialize_fcntl_dt deserialize_fcntl_dt host_get_arg get_arg
fcntl_readers m none = refl
fcntl_readers m (some old) = ground arith

-- Whatever the arguments, the card's text of each layout but that of `epoll_ctl` writes the bytes
-- that the host's text writes, and reads what the host's text reads; of the readers of `fcntl`, the
-- host's puts at the caller's pointer, if it is not NULL, what the card's puts into fresh memory.
pub layouts_agree :
    (m optval : Buffer) (flag nfds epfd maxevents timeout cmd level optname optlen addrlen : ℕ)
    (events : Events) (into : Option Events) (fds malloc : PollFds) (limit : Option ℕ)
    (at : Option PollFds) (r w e t : Bytes?) (held : SelectArgs) (pointer : Option Buffer)
    (addr : List ℕ)
    → (card_serialize_epoll_create_dt m flag ≡ serialize_epoll_create_dt m flag)
      × (card_deserialize_epoll_create_dt m ≡ deserialize_epoll_create_dt m)
      × (card_serialize_epoll_wait_dt m nfds epfd maxevents timeout events
          ≡ serialize_epoll_wait_dt m nfds epfd maxevents timeout events)
      × (card_deserialize_epoll_wait_dt m into ≡ deserialize_epoll_wait_dt m into)
      × (card_serialize_select_fd_set m nfds r w e t ≡ serialize_select_fd_set m nfds r w e t)
      × (card_deserialize_select_fd_set m held ≡ deserialize_select_fd_set m held)
      × (card_serialize_poll_pollfd m fds nfds limit ≡ serialize_poll_pollfd m fds nfds limit)
      × (card_deserialize_poll_pollfd m malloc at ≡ deserialize_poll_pollfd m malloc at)
      × (card_serialize_fcntl_dt m cmd pointer ≡ serialize_fcntl_dt m cmd pointer)
      × ((host_deserialize_fcntl_dt m pointer).arg ≡ filled pointer (deserialize_fcntl_dt m).arg)
      × (card_serialize_sockopt_dt m level optname optval optlen
          ≡ serialize_sockopt_dt m level optname optval optlen)
      × (card_deserialize_sockopt_dt m ≡ deserialize_sockopt_dt m)
      × (card_serialize_addr_dt m addrlen addr ≡ serialize_addr_dt m addrlen addr)
      × (card_deserialize_addr_dt m ≡ deserialize_addr_dt m)
unfolding card_serialize_epoll_create_dt serialize_epoll_create_dt card_deserialize_epoll_create_dt
    deserialize_epoll_create_dt card_serialize_epoll_wait_dt serialize_epoll_wait_dt
    card_serialize_sockopt_dt serialize_sockopt_dt card_deserialize_sockopt_dt
    deserialize_sockopt_dt card_serialize_addr_dt serialize_addr_dt card_deserialize_addr_dt
    deserialize_addr_dt
layouts_agree m optval flag nfds epfd maxevents timeout cmd level optname optlen addrlen events into
      fds malloc limit at r w e t held pointer addr =
    (
      refl,
      refl,
      put_events-eq (rounds_of nfds) 0 16 events _,
      wait_readers m into,
      select_writers m nfds r w e t,
      select_readers m held,
      poll_writers m fds nfds limit,
      poll_readers m malloc at,
      fcntl_writers m cmd pointer,
      fcntl_readers m pointer,
      refl,
      refl,
      refl,
      refl,
    )
