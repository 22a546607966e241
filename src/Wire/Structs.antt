-- ===== src/Wire/Structs.antt =====
-- The layouts of rdma_common.c that no call uses: an array of events, an array of `struct pollfd`
-- behind its count alone, and `struct select_dt`. The lines are the card's; the host has the same.
pub mod Roundtrip
use socket_to_rdma.Base.{
  ℕ, zero, suc, ◌+◌, ◌*◌, ◌%◌, ◌^◌, Option, none, some, List, ◌==◌, if◌then◌else◌, sign_extend,
  to_int,
}
use socket_to_rdma.Base.Buffer.{Buffer, store, load}
use socket_to_rdma.Wire.Epoll.{EpollEvent, Events, rounds_of}
use socket_to_rdma.Wire.Poll.{PollFds, put_pollfd, pollfd_at}
use socket_to_rdma.Wire.Select.{Bytes?, bytes_or_zeros, set_sz}

unfoldable pub put_event_structs : ℕ → (i offset : ℕ) → Events → Buffer → Buffer
put_event_structs zero i offset event m = m
put_event_structs (suc rounds) i offset event m =
    let m1 = store 4 m offset (event i).events in
    let m2 = store 8 m1 (offset + 4) (event i).epoll_data in
    put_event_structs rounds (i + 1) (offset + 12) event m2

-- `num` is an `int`, and no test is made on it
unfoldable pub serialize_epoll_event_struct : Buffer → Option Events → (num : ℕ) → Buffer
unfolding put_event_structs
serialize_epoll_event_struct m none num = m
serialize_epoll_event_struct m (some event) num = put_event_structs (rounds_of num) 0 0 event m

unfoldable pub get_event_structs : ℕ → (i offset : ℕ) → Buffer → Events → Events
get_event_structs zero i offset m event = event
get_event_structs (suc rounds) i offset m event =
    let e : EpollEvent = record { events = load 4 m offset; epoll_data = load 8 m (offset + 4) } in
    let set : Events = λ j. if j == i then e else event j in
    get_event_structs rounds (i + 1) (offset + 12) m set

unfoldable pub deserialize_epoll_event_struct : Buffer → Option Events → (num : ℕ) → Option Events
unfolding get_event_structs
deserialize_epoll_event_struct m none num = none
deserialize_epoll_event_struct m (some event) num =
    some (get_event_structs (rounds_of num) 0 0 m event)

-- The count has eight bytes, and the loops run over it as an `int`.
unfoldable pub put_pollfd_fields : ℕ → (i offset : ℕ) → PollFds → Buffer → Buffer
put_pollfd_fields zero i offset fds m = m
put_pollfd_fields (suc rounds) i offset fds m =
    put_pollfd_fields rounds (i + 1) (offset + 8) fds (put_pollfd m offset (fds i))

unfoldable pub serialize_pollfd : Buffer → Option PollFds → (nfds : ℕ) → Buffer
unfolding put_pollfd_fields
serialize_pollfd m none nfds = m
serialize_pollfd m (some fds) nfds =
    put_pollfd_fields (rounds_of (to_int nfds)) 0 8 fds (store 8 m 0 nfds)

unfoldable pub get_pollfd_fields : ℕ → (i offset : ℕ) → Buffer → PollFds → PollFds
get_pollfd_fields zero i offset m fds = fds
get_pollfd_fields (suc rounds) i offset m fds =
    let set : PollFds = λ j. if j == i then pollfd_at m offset else fds j in
    get_pollfd_fields rounds (i + 1) (offset + 8) m set

fill_fresh : Buffer → (n_nfds : ℕ) → Option PollFds → Option PollFds
unfolding get_pollfd_fields
fill_fresh m n_nfds none = none
fill_fresh m n_nfds (some fresh) = some (get_pollfd_fields (rounds_of n_nfds) 0 8 m fresh)

-- `malloc` gives, for a size, an array whose contents are not set, or NULL. The count and the array.
unfoldable pub deserialize_pollfd : Buffer → (malloc : ℕ → Option PollFds) → ℕ × Option PollFds
unfolding fill_fresh
deserialize_pollfd m malloc =
    let nfds = load 8 m 0 in
    let n_nfds = to_int nfds in
    (nfds, fill_fresh m n_nfds (malloc (sign_extend n_nfds * 8 % 2 ^ 64)))

pub record Timeval : Type 0 where
  pub tv_sec : ℕ
  pub tv_usec : ℕ

pub record SelectDt : Type 0 where
  pub reqdfds : List ℕ
  pub writefds : List ℕ
  pub exceptfds : List ℕ
  pub tv_sec : ℕ
  pub tv_usec : ℕ

-- every field of the structure is set, so what it held is not read
unfoldable pub serialize_select_dt :
    (readfds writefds exceptfds : Bytes?) → (timeout : Option Timeval) → SelectDt
serialize_select_dt r w e none = record {
  reqdfds = bytes_or_zeros set_sz r;
  writefds = bytes_or_zeros set_sz w;
  exceptfds = bytes_or_zeros set_sz e;
  tv_sec = 0;
  tv_usec = 0;
}
serialize_select_dt r w e (some timeout) = record {
  reqdfds = bytes_or_zeros set_sz r;
  writefds = bytes_or_zeros set_sz w;
  exceptfds = bytes_or_zeros set_sz e;
  tv_sec = timeout.tv_sec;
  tv_usec = timeout.tv_usec;
}

-- what the caller's pointers point at
pub record SelectObjects : Type 0 where
  pub readfds : Bytes?
  pub writefds : Bytes?
  pub exceptfds : Bytes?
  pub timeout : Timeval

abbrev pub copied : List ℕ → Bytes? → Bytes?
copied bs none = none
copied bs (some old) = some bs

-- A NULL timeout is written to behind its test, which is a fault: `none`.
unfoldable pub deserialize_select_dt :
    SelectDt
    → (readfds writefds exceptfds : Bytes?) → (timeout : Option Timeval) → Option SelectObjects
deserialize_select_dt d r w e none = none
deserialize_select_dt d r w e (some timeout) = some record {
  readfds = copied d.reqdfds r;
  writefds = copied d.writefds w;
  exceptfds = copied d.exceptfds e;
  timeout = record { tv_sec = d.tv_sec; tv_usec = d.tv_usec };
}
