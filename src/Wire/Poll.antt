-- ===== src/Wire/Poll.antt =====
-- The layout of poll: the timeout at 0, the count at 4, and the array of `struct pollfd` from 12.
pub mod Roundtrip
use socket_to_rdma.Base.{ℕ, zero, suc, ◌+◌, Option, none, some, ◌==◌, if◌then◌else◌}
use socket_to_rdma.Base.Buffer.{Buffer, store, load}

pub record PollFd : Type 0 where
  pub fd : ℕ
  pub events : ℕ
  pub revents : ℕ

abbrev pub PollFds : Type 0
PollFds = ℕ → PollFd

-- the 8 bytes of a `struct pollfd`, by its fields
abbrev pub put_pollfd : Buffer → ℕ → PollFd → Buffer
put_pollfd m offset p =
    store 2 (store 2 (store 4 m offset p.fd) (offset + 4) p.events) (offset + 6) p.revents

abbrev pub pollfd_at : Buffer → ℕ → PollFd
pollfd_at m offset = record {
  fd = load 4 m offset;
  events = load 2 m (offset + 4);
  revents = load 2 m (offset + 6);
}

-- `offset` is an `int`, and the data of a message have 600000 bytes: this is the code where
-- `offset + 8 * rounds` fits both, and beyond them the source writes past the message.
unfoldable pub put_pollfds : ℕ → (i offset : ℕ) → PollFds → Buffer → Buffer
put_pollfds zero i offset fds m = m
put_pollfds (suc rounds) i offset fds m =
    put_pollfds rounds (i + 1) (offset + 8) fds (put_pollfd m offset (fds i))

put_timeout : Buffer → Option ℕ → Buffer
put_timeout m none = m
put_timeout m (some timeout) = store 4 m 0 timeout

-- No test is made on `nfds`, neither against the message nor against the `int` of the offset.
unfoldable pub serialize_poll_pollfd : Buffer → PollFds → (nfds : ℕ) → (timeout : Option ℕ) → Buffer
unfolding put_pollfds put_timeout
serialize_poll_pollfd m fds nfds timeout =
    put_pollfds nfds 0 12 fds (store 8 (put_timeout m timeout) 4 nfds)

unfoldable pub get_pollfds : ℕ → (i offset : ℕ) → Buffer → PollFds → PollFds
get_pollfds zero i offset m fds = fds
get_pollfds (suc rounds) i offset m fds =
    get_pollfds rounds (i + 1) (offset + 8) m (λ j. if j == i then pollfd_at m offset else fds j)

pub record PollArgs : Type 0 where
  pub fds : PollFds
  pub nfds : ℕ
  pub timeout : ℕ

-- the array that `*fds` points at, or a fresh one whose contents are not set; `malloc` is that one
array_or : PollFds → Option PollFds → PollFds
array_or malloc none = malloc
array_or malloc (some fds) = fds

-- Where the allocation fails the function returns before the loop, and `*fds` is NULL; that is
-- left out.
unfoldable pub deserialize_poll_pollfd : Buffer → (malloc : PollFds) → Option PollFds → PollArgs
unfolding get_pollfds array_or
deserialize_poll_pollfd m malloc fds = record {
  fds = get_pollfds (load 8 m 4) 0 12 m (array_or malloc fds);
  nfds = load 8 m 4;
  timeout = load 4 m 0;
}
