-- ===== src/Wire/Structs/Roundtrip.antt =====
-- What the readers of the layouts that no call uses give of what their writers are given.
use socket_to_rdma.Base.{
  ℕ, zero, suc, ◌+◌, ◌-◌, ◌*◌, ◌%◌, ◌^◌, ◌<◌, ◌≤◌, ◌≡◌, refl, ◌⊎◌, inl, inr, Option, none, some,
  ltb, if◌then◌else◌, ◌∙◌, arith, Bool-cases, false, sign_extend,
}
use socket_to_rdma.Base.Buffer.{Buffer, store, load, store_outside, load_congr, load-store_self}
use socket_to_rdma.Wire.Epoll.{Events, rounds_of}
use socket_to_rdma.Wire.Epoll.Events.{IsEvent, event_at, event_at-store, event_at_congr}
use socket_to_rdma.Wire.Select.{Bytes?, bytes_or_zeros, set_sz}
use socket_to_rdma.Wire.Poll.{PollFds, put_pollfds, get_pollfds}
use socket_to_rdma.Wire.Poll.Roundtrip.{IsPollFd, put_pollfds_outside, get_pollfds-put}
use socket_to_rdma.Wire.Structs.{
  put_event_structs, get_event_structs, put_pollfd_fields, serialize_pollfd, get_pollfd_fields,
  deserialize_pollfd, serialize_epoll_event_struct, deserialize_epoll_event_struct, Timeval,
  serialize_select_dt, deserialize_select_dt, copied,
}

put_structs_outside :
    (rounds i offset : ℕ) (event : Events) (m : Buffer) (at : ℕ)
    → (at < offset) ⊎ (offset + 12 * rounds ≤ at)
    → put_event_structs rounds i offset event m at ≡ m at
unfolding put_event_structs
put_structs_outside zero i offset event m at h = refl
put_structs_outside (suc rounds) i offset event m at h =
    let m1 = store 4 m offset (event i).events in
    put_structs_outside rounds (i + 1) (offset + 12) event _ at (omega arith)
    ∙ store_outside 8 m1 (offset + 4) (event i).epoll_data at (omega arith)
    ∙ store_outside 4 m offset (event i).events at (omega arith)

put_structs-event_at :
    (rounds i offset : ℕ) (event : Events) (m : Buffer) (k : ℕ)
    → k < rounds
    → IsEvent (event (i + k))
    → event_at (put_event_structs rounds i offset event m) (offset + 12 * k) ≡ event (i + k)
unfolding put_event_structs
put_structs-event_at zero i offset event m k lt is = absurd (omega arith)
put_structs-event_at (suc rounds) i offset event m zero lt is =
    let e0 : offset + 12 * 0 ≡ offset = omega arith in
    let i0 : i + 0 ≡ i = omega arith in
    let is' : IsEvent (event i) = rw i0 at is in
    let m2 = store 8 (store 4 m offset (event i).events) (offset + 4) (event i).epoll_data in
    rw (e0, i0)
      (event_at_congr _ m2 offset
          (λ at _ h. put_structs_outside rounds (i + 1) (offset + 12) event _ at (inl h))
        ∙ event_at-store m offset (event i) is')
put_structs-event_at (suc rounds) i offset event m (suc k) lt is =
    let e : offset + 12 * suc k ≡ offset + 12 + 12 * k = omega arith in
    let i' : i + suc k ≡ i + 1 + k = omega arith in
    let is' : IsEvent (event (i + 1 + k)) = rw i' at is in
    rw (e, i') (put_structs-event_at rounds (i + 1) (offset + 12) event _ k (omega arith) is')

get_structs-at :
    (rounds i offset : ℕ) (m : Buffer) (event : Events) (j : ℕ)
    → get_event_structs rounds i offset m event j ≡ (
        if ltb j i
        then event j
        else if ltb j (i + rounds)
        then event_at m (offset + 12 * (j - i))
        else event j)
unfolding get_event_structs
get_structs-at zero i offset m event j = ground arith
get_structs-at (suc rounds) i offset m event j =
    get_structs-at rounds (i + 1) (offset + 12) m _ j ∙ ground arith

-- The events come back, whatever their number, and the places behind them keep what they held.
pub events_roundtrip :
    (m : Buffer) (num : ℕ) (event into : Events)
    → num < 2 ^ 31
    → ((i : ℕ) → i < num → IsEvent (event i))
    → (out : Events) × (deserialize_epoll_event_struct
          (serialize_epoll_event_struct m (some event) num)
          (some into)
          num
        ≡ some out)
      × ((i : ℕ) → out i ≡ (if ltb i num then event i else into i))
unfolding serialize_epoll_event_struct deserialize_epoll_event_struct
events_roundtrip m num event into h hs =
    let k = put_event_structs num 0 0 event m in
    let n : rounds_of num ≡ num = ground arith in
    rw n (
      get_event_structs num 0 0 k into,
      refl,
      λ i. get_structs-at num 0 0 k into i ∙ elim (Bool-cases (ltb i num)) [
        | inl in' ↦
            let lt : i < num = ground arith in
            let z : 0 + i ≡ i = omega arith in
            let e : i - 0 ≡ i = omega arith in
            let c : 0 + num ≡ num = omega arith in
            let below : ltb i 0 ≡ false = ground arith in
            let here : event_at k (0 + 12 * i) ≡ event i =
              (rw z at (put_structs-event_at num 0 0 event m i lt (rw z (hs i lt)))) in
            rw (below, c, in', e) here
        | inr out' ↦ ground arith
      ],
    )

fields_written :
    (rounds i offset : ℕ) (fds : PollFds) (m : Buffer)
    → put_pollfd_fields rounds i offset fds m ≡ put_pollfds rounds i offset fds m
unfolding put_pollfd_fields put_pollfds
fields_written zero i offset fds m = refl
fields_written (suc rounds) i offset fds m = fields_written rounds (i + 1) (offset + 8) fds _

fields_read :
    (rounds i offset : ℕ) (m : Buffer) (fds : PollFds)
    → get_pollfd_fields rounds i offset m fds ≡ get_pollfds rounds i offset m fds
unfolding get_pollfd_fields get_pollfds
fields_read zero i offset m fds = refl
fields_read (suc rounds) i offset m fds = fields_read rounds (i + 1) (offset + 8) m _

-- Where the memory for `nfds` elements is given, the count and every element come back, up to the
-- largest `int`, and what the memory held behind them stays.
pub pollfd_roundtrip :
    (m : Buffer) (nfds : ℕ) (fds fresh : PollFds) (malloc : ℕ → Option PollFds)
    → nfds < 2 ^ 31
    → ((i : ℕ) → i < nfds → IsPollFd (fds i))
    → malloc (8 * nfds) ≡ some fresh
    → (out : PollFds) × (deserialize_pollfd (serialize_pollfd m (some fds) nfds) malloc
        ≡ (nfds, some out))
      × ((i : ℕ) → out i ≡ (if ltb i nfds then fds i else fresh i))
unfolding serialize_pollfd deserialize_pollfd
pollfd_roundtrip m nfds fds fresh malloc h hs given =
    let base = store 8 m 0 nfds in
    let k = put_pollfds nfds 0 8 fds base in
    let n : rounds_of (nfds % 2 ^ 32) ≡ nfds = ground arith in
    let count : load 8 k 0 ≡ nfds =
      load_congr k base 0 8 (λ i p q. put_pollfds_outside nfds 0 8 fds base i (inl (omega arith)))
      ∙ load-store_self 8 m 0 nfds (omega arith) in
    let size : sign_extend (nfds % 2 ^ 32) * 8 % 2 ^ 64 ≡ 8 * nfds = ground arith in
    (
      get_pollfds nfds 0 8 k fresh,
      rw (n, fields_written nfds 0 8 fds base, count, size, given, n, fields_read nfds 0 8 k fresh)
          refl,
      get_pollfds-put nfds 8 fds fresh base hs,
    )

abbrev timeval_or_zero : Option Timeval → Timeval
timeval_or_zero none = record { tv_sec = 0; tv_usec = 0 }
timeval_or_zero (some t) = t

-- Every object that the caller gives holds the set that was sent, or zeros for one that was NULL.
select_dt_roundtrip :
    (r w e r' w' e' : Bytes?) (t : Option Timeval) (held : Timeval)
    → deserialize_select_dt (serialize_select_dt r w e t) r' w' e' (some held)
      ≡ some record {
        readfds = copied (bytes_or_zeros set_sz r) r';
        writefds = copied (bytes_or_zeros set_sz w) w';
        exceptfds = copied (bytes_or_zeros set_sz e) e';
        timeout = timeval_or_zero t;
      }
unfolding serialize_select_dt deserialize_select_dt
select_dt_roundtrip r w e r' w' e' none held = refl
select_dt_roundtrip r w e r' w' e' (some t) held = refl
