-- ===== src/Host/Calls.antt =====
-- The calls of hook.c that send more than a descriptor and a port: their arguments are laid into
-- the request's data, and objects of the caller's are filled from the data of the return message.
-- As in Hook, the thread has its connection. Pointers that a call reads through without a test
-- (`event`, `timeout` and the sets are tested) are not NULL.
pub mod Answer
pub mod Epoll
pub mod EpollWait
pub mod Select
pub mod Poll
pub mod Options
pub mod Names
pub mod Tests
use socket_to_rdma.Base.{
  ℕ, Bool, true, Option, none, some, List, ◌==◌, ltb, if◌then◌else◌, not, is_pos,
}
use socket_to_rdma.Base.Buffer.{Buffer, store, write, read}
use socket_to_rdma.Hash.Fd.{fd_search_by_key}
use socket_to_rdma.Host.Client.{Client, Outcome, returns, exits, waits, Return, set_req_sock}
use socket_to_rdma.Host.Hook.{Process, Call, zeros_at, plain_call, enter}
use socket_to_rdma.Host.Verbs.{Verbs}
use socket_to_rdma.Message.{
  RdmaReq, RtnMsg, code, req_select, req_epoll_create1, req_epoll_ctl, req_epoll_wait, req_poll,
  req_fcntl, req_setsockopt, req_getsockopt, req_getsockname,
}
use socket_to_rdma.Wire.Epoll.{
  EpollEvent, Events, serialize_epoll_create_dt, serialize_epoll_ctl_dt, serialize_epoll_wait_dt,
  deserialize_epoll_wait_dt,
}
use socket_to_rdma.Wire.Fcntl.{serialize_fcntl_dt, takes_flock}
use socket_to_rdma.Wire.Poll.{PollFds, serialize_poll_pollfd, deserialize_poll_pollfd}
use socket_to_rdma.Wire.Select.{
  SelectArgs, sub32, serialize_select_fd_set, deserialize_select_fd_set,
}
use socket_to_rdma.Wire.Sockopt.{
  addr_sz, serialize_sockopt_dt, deserialize_sockopt_dt, serialize_addr_dt, deserialize_addr_dt,
}

-- how a call ends: in the C library's function on the same arguments, with a value and the caller's
-- objects, in `exit`, or not at all
pub data Filled (A : Type 0) (W : Type 0) : Type 0 where
  native : Filled A W
  filled : Call W → A → Filled A W
  ended : W → Filled A W
  stuck : Filled A W

-- `r_info->req.data` once a serializer has written it
abbrev pub with_data : {W : Type 0} → Client W → Buffer → Client W
with_data c m = record c { req = record c.req { bytes = m } }

-- the address and its length, which a caller passes to `getpeername` and `getsockname`
pub record Address : Type 0 where
  pub addrlen : ℕ
  pub addr : List ℕ

abbrev pub address_of : ℕ × List ℕ → Address
address_of (addrlen, addr) = record { addrlen = addrlen; addr = addr }

-- The arguments behind the command: what `va_arg` answers at an `int`, and the memory at the pointer
-- that it answers at a `struct flock *`.
pub record VaArg : Type 0 where
  pub as_int : ℕ
  pub as_flock : Option Buffer

-- the memory whose address `req_fcntl` hands to the serializer: the `int`, or the lock
abbrev pub fcntl_arg : ℕ → VaArg → Option Buffer
fcntl_arg cmd va = if takes_flock cmd then va.as_flock else some (store 4 zeros_at 0 va.as_int)

-- `memcpy(addr, &r_info->rtn.data, sizeof(struct sockaddr_in))` and the storing of the client's IP
-- behind the family and the port
abbrev pub own_address : Buffer → List ℕ → List ℕ
own_address m ip = read (write m 4 ip) 0 addr_sz

-- an array of no interest
abbrev pub no_events : Events
no_events = λ i. record { events = 0; epoll_data = 0 }

module _ (verbs : Verbs) where
  unfoldable pub then_fill :
      {A : Type 0}
      → Outcome verbs.World
      → (Return verbs.World → Call verbs.World)
      → (Return verbs.World → A)
      → Filled A verbs.World
  then_fill (returns r) f g = filled (f r) (g r)
  then_fill (exits w) f g = ended w
  then_fill waits f g = stuck

  -- `set_req_sock(r_info, sockfd, req, 0, 0, NULL, &errno, NULL)` with these data in the request
  abbrev pub ask_card :
      (fuel : ℕ) → Process verbs.World → (sockfd : ℕ) → RdmaReq → Buffer → Outcome verbs.World
  ask_card fuel p sockfd r m =
      set_req_sock verbs fuel (with_data p.client m) sockfd (code r) 0 0 zeros_at true none

  abbrev pub data_of : Process verbs.World → Buffer
  data_of p = p.client.req.bytes

  -- `r_info->rtn` behind the exchange
  abbrev pub rtn_of : Return verbs.World → RtnMsg
  rtn_of r = verbs.rtn r.client.world

  abbrev pub is_cards : Process verbs.World → ℕ → Bool
  is_cards p fd = not (fd_search_by_key p.fd_ht fd == 0)

  -- The sets are read back if the value is positive; `nfds` and the timeout stay the caller's.
  abbrev pub take_sets : SelectArgs → Return verbs.World → SelectArgs
  take_sets args r =
      let back = deserialize_select_fd_set (rtn_of r).bytes (record args { timeout = none }) in
      if is_pos r.ret
      then record args {
        readfds = back.readfds;
        writefds = back.writefds;
        exceptfds = back.exceptfds;
      }
      else args

  -- The table is asked for the descriptor `nfds - 1`.
  unfoldable pub req_select_fd :
      (fuel : ℕ) → Process verbs.World → SelectArgs → Filled SelectArgs verbs.World
  unfolding then_fill
  req_select_fd fuel p args =
      let m =
        serialize_select_fd_set (data_of p) args.nfds args.readfds args.writefds args.exceptfds
          args.timeout in
      let out =
        then_fill (ask_card fuel p 0 req_select m) (plain_call verbs p.fd_ht) (take_sets args) in
      if is_cards p (sub32 args.nfds 1) then out else native

  unfoldable pub req_epoll_create1_fd :
      (fuel tid : ℕ)
      → (malloc : Bool) → Process verbs.World
      → (flags : ℕ) → Filled (Unit {0}) verbs.World
  unfolding then_fill
  req_epoll_create1_fd fuel tid malloc p flags =
      then_fill (ask_card fuel p 0 req_epoll_create1 (serialize_epoll_create_dt (data_of p) flags))
        (λ r.
          if is_pos r.ret
          then enter verbs malloc tid r.ret p.fd_ht r r.ret
          else plain_call verbs p.fd_ht r)
        (λ r. tt)

  unfoldable pub req_epoll_ctl_fd :
      (fuel : ℕ)
      → Process verbs.World
      → (epfd op fd : ℕ) → Option EpollEvent
      → Filled (Unit {0}) verbs.World
  unfolding then_fill
  req_epoll_ctl_fd fuel p epfd op fd event =
      let m = serialize_epoll_ctl_dt (data_of p) epfd op fd event in
      let out =
        then_fill (ask_card fuel p epfd req_epoll_ctl m) (plain_call verbs p.fd_ht) (λ r. tt) in
      if is_cards p epfd then out else native

  -- The message is read whatever the value is.
  abbrev pub take_events : Option Events → Return verbs.World → Option Events
  take_events events r = (deserialize_epoll_wait_dt (rtn_of r).bytes events).events

  -- No event is sent, since `nfds` is 0; the serializer does not read the array.
  unfoldable pub req_epoll_wait_fd :
      (fuel : ℕ)
      → Process verbs.World
      → (epfd : ℕ) → Option Events
      → (maxevents timeout : ℕ) → Filled (Option Events) verbs.World
  unfolding then_fill
  req_epoll_wait_fd fuel p epfd events maxevents timeout =
      let m = serialize_epoll_wait_dt (data_of p) 0 epfd maxevents timeout no_events in
      let out =
        then_fill (ask_card fuel p epfd req_epoll_wait m) (plain_call verbs p.fd_ht)
          (take_events events) in
      if is_cards p epfd then out else native

  abbrev pub take_pollfds : PollFds → Return verbs.World → PollFds
  take_pollfds fds r =
      let back = deserialize_poll_pollfd (rtn_of r).bytes fds (some fds) in
      if is_pos r.ret then back.fds else fds

  unfoldable pub req_poll_fd :
      (fuel : ℕ) → Process verbs.World → PollFds → (nfds timeout : ℕ) → Filled PollFds verbs.World
  unfolding then_fill
  req_poll_fd fuel p fds nfds timeout =
      let m = serialize_poll_pollfd (data_of p) fds nfds (some timeout) in
      let out =
        then_fill (ask_card fuel p (fds 0).fd req_poll m) (plain_call verbs p.fd_ht)
          (take_pollfds fds) in
      if is_cards p (fds 0).fd then out else native

  -- The serializer is handed the address of `fd` for its flag, so that the descriptor of the request
  -- is what the serializer stores there.
  unfoldable pub req_fcntl_fd :
      (fuel : ℕ) → Process verbs.World → (fd cmd : ℕ) → VaArg → Filled (Unit {0}) verbs.World
  unfolding then_fill
  req_fcntl_fd fuel p fd cmd va =
      let (m, fd') = serialize_fcntl_dt (data_of p) cmd (fcntl_arg cmd va) in
      let out = then_fill (ask_card fuel p fd' req_fcntl m) (plain_call verbs p.fd_ht) (λ r. tt) in
      if is_cards p fd then out else native

  unfoldable pub req_setsockopt_fd :
      (fuel : ℕ)
      → Process verbs.World
      → (fd level optname : ℕ) → Buffer
      → (optlen : ℕ) → Filled (Unit {0}) verbs.World
  unfolding then_fill
  req_setsockopt_fd fuel p fd level optname optval optlen =
      let m = serialize_sockopt_dt (data_of p) level optname optval optlen in
      let out =
        then_fill (ask_card fuel p fd req_setsockopt m) (plain_call verbs p.fd_ht) (λ r. tt) in
      if is_cards p fd then out else native

  -- The request's data are not written. The value is copied to fresh memory, which is lost, and
  -- the caller gets the length.
  unfoldable pub req_getsockopt_fd :
      (fuel : ℕ) → Process verbs.World → (fd level optname : ℕ) → Filled ℕ verbs.World
  unfolding then_fill
  req_getsockopt_fd fuel p fd level optname =
      let out =
        then_fill (ask_card fuel p fd req_getsockopt (data_of p)) (plain_call verbs p.fd_ht)
          (λ r. (deserialize_sockopt_dt (rtn_of r).bytes).optlen) in
      if is_cards p fd then out else native

  abbrev pub take_address : Return verbs.World → Address
  take_address r = address_of (deserialize_addr_dt (rtn_of r).bytes)

  -- The request has the code of `getsockopt`.
  unfoldable pub req_getpeername_fd :
      (fuel : ℕ) → Process verbs.World → (fd : ℕ) → Address → Filled Address verbs.World
  unfolding then_fill
  req_getpeername_fd fuel p fd a =
      let m = serialize_addr_dt (data_of p) a.addrlen a.addr in
      let out =
        then_fill (ask_card fuel p fd req_getsockopt m) (plain_call verbs p.fd_ht) take_address in
      if is_cards p fd then out else native

  -- `ip` is what `inet_pton` makes of `DEFAULT_RDMA_CLIENT_IP`.
  abbrev pub take_own_address : (ip : List ℕ) → Return verbs.World → Address
  take_own_address ip r =
      if r.ret == 0
      then record { addrlen = addr_sz; addr = own_address (rtn_of r).bytes ip }
      else take_address r

  unfoldable pub req_getsockname_fd :
      (fuel : ℕ)
      → (ip : List ℕ) → Process verbs.World
      → (fd : ℕ) → Address
      → Filled Address verbs.World
  unfolding then_fill
  req_getsockname_fd fuel ip p fd a =
      let m = serialize_addr_dt (data_of p) a.addrlen a.addr in
      let out =
        then_fill (ask_card fuel p fd req_getsockname m) (plain_call verbs p.fd_ht)
          (take_own_address ip) in
      if is_cards p fd then out else native
