-- ===== src/Wire/Poll/Roundtrip.antt =====
-- What the card reads of the host's array, and the host of the card's.
use socket_to_rdma.Base.{
  ℕ, zero, suc, ◌+◌, ◌-◌, ◌*◌, ◌^◌, ◌<◌, ◌≤◌, ◌≡◌, refl, ◌⊎◌, inl, inr, false, none, some,
  if◌then◌else◌, ◌∙◌, arith, ltb, Bool-cases,
}
use socket_to_rdma.Base.Buffer.{
  Buffer, store, load, store_outside, load_congr, load-store_self, load-store_ne,
}
use socket_to_rdma.Wire.Poll.{
  PollFd, PollFds, put_pollfd, pollfd_at, put_pollfds, get_pollfds, serialize_poll_pollfd,
  deserialize_poll_pollfd,
}

abbrev pub IsPollFd : PollFd → Type 0
IsPollFd p = (p.fd < 2 ^ 32) × (p.events < 2 ^ 16) × (p.revents < 2 ^ 16)

put_pollfd_outside :
    (m : Buffer) (offset : ℕ) (p : PollFd) (at : ℕ)
    → (at < offset) ⊎ (offset + 8 ≤ at)
    → put_pollfd m offset p at ≡ m at
put_pollfd_outside m offset p at h =
    let m1 = store 4 m offset p.fd in
    let m2 = store 2 m1 (offset + 4) p.events in
    store_outside 2 m2 (offset + 6) p.revents at (omega arith)
    ∙ store_outside 2 m1 (offset + 4) p.events at (omega arith)
    ∙ store_outside 4 m offset p.fd at (omega arith)

pollfd_at-put :
    (m : Buffer) (offset : ℕ) (p : PollFd)
    → IsPollFd p
    → pollfd_at (put_pollfd m offset p) offset ≡ p
pollfd_at-put m offset p h =
    let m1 = store 4 m offset p.fd in
    let m2 = store 2 m1 (offset + 4) p.events in
    let fd1 = load-store_ne 4 2 m2 (offset + 6) offset p.revents (omega arith) in
    let fd2 = load-store_ne 4 2 m1 (offset + 4) offset p.events (omega arith) in
    let fd3 = load-store_self 4 m offset p.fd (omega arith) in
    let ev1 = load-store_ne 2 2 m2 (offset + 6) (offset + 4) p.revents (omega arith) in
    let ev2 = load-store_self 2 m1 (offset + 4) p.events (omega arith) in
    let re1 = load-store_self 2 m2 (offset + 6) p.revents (omega arith) in ground arith

pollfd_at_congr :
    (m k : Buffer) (offset : ℕ)
    → ((i : ℕ) → offset ≤ i → i < offset + 8 → m i ≡ k i)
    → pollfd_at m offset ≡ pollfd_at k offset
pollfd_at_congr m k offset h =
    let fd = load_congr m k offset 4 (λ i p q. h i (omega arith) (omega arith)) in
    let ev = load_congr m k (offset + 4) 2 (λ i p q. h i (omega arith) (omega arith)) in
    let re = load_congr m k (offset + 6) 2 (λ i p q. h i (omega arith) (omega arith)) in
    ground arith

pub put_pollfds_outside :
    (rounds i offset : ℕ) (fds : PollFds) (m : Buffer) (at : ℕ)
    → (at < offset) ⊎ (offset + 8 * rounds ≤ at)
    → put_pollfds rounds i offset fds m at ≡ m at
unfolding put_pollfds
put_pollfds_outside zero i offset fds m at h = refl
put_pollfds_outside (suc rounds) i offset fds m at h =
    put_pollfds_outside rounds (i + 1) (offset + 8) fds _ at (omega arith)
    ∙ put_pollfd_outside m offset (fds i) at (omega arith)

put_pollfds-at :
    (rounds i offset : ℕ) (fds : PollFds) (m : Buffer) (k : ℕ)
    → k < rounds
    → IsPollFd (fds (i + k))
    → pollfd_at (put_pollfds rounds i offset fds m) (offset + 8 * k) ≡ fds (i + k)
unfolding put_pollfds
put_pollfds-at zero i offset fds m k lt is = absurd (omega arith)
put_pollfds-at (suc rounds) i offset fds m zero lt is =
    let e0 : offset + 8 * 0 ≡ offset = omega arith in
    let i0 : i + 0 ≡ i = omega arith in
    let is' : IsPollFd (fds i) = rw i0 at is in
    rw (e0, i0)
      (pollfd_at_congr _ (put_pollfd m offset (fds i)) offset
          (λ at _ h. put_pollfds_outside rounds (i + 1) (offset + 8) fds _ at (inl h))
        ∙ pollfd_at-put m offset (fds i) is')
put_pollfds-at (suc rounds) i offset fds m (suc k) lt is =
    let e : offset + 8 * suc k ≡ offset + 8 + 8 * k = omega arith in
    let i' : i + suc k ≡ i + 1 + k = omega arith in
    let is' : IsPollFd (fds (i + 1 + k)) = rw i' at is in
    rw (e, i') (put_pollfds-at rounds (i + 1) (offset + 8) fds _ k (omega arith) is')

-- what a reader of `rounds` elements from the i-th on leaves at `j`
get_pollfds-at :
    (rounds i offset : ℕ) (m : Buffer) (fds : PollFds) (j : ℕ)
    → get_pollfds rounds i offset m fds j ≡ (
        if ltb j i
        then fds j
        else if ltb j (i + rounds)
        then pollfd_at m (offset + 8 * (j - i))
        else fds j)
unfolding get_pollfds
get_pollfds-at zero i offset m fds j = ground arith
get_pollfds-at (suc rounds) i offset m fds j =
    get_pollfds-at rounds (i + 1) (offset + 8) m _ j ∙ ground arith

-- An array that was written at an offset, read into another: the elements behind the last one that
-- was written stay.
pub get_pollfds-put :
    (nfds offset : ℕ) (fds into : PollFds) (m : Buffer)
    → ((i : ℕ) → i < nfds → IsPollFd (fds i))
    → (i : ℕ)
    → get_pollfds nfds 0 offset (put_pollfds nfds 0 offset fds m) into i
      ≡ (if ltb i nfds then fds i else into i)
get_pollfds-put nfds offset fds into m hs i =
    let k = put_pollfds nfds 0 offset fds m in
    get_pollfds-at nfds 0 offset k into i ∙ elim (Bool-cases (ltb i nfds)) [
      | inl in' ↦
          let e : i - 0 ≡ i = omega arith in
          let z : 0 + i ≡ i = omega arith in
          let n : 0 + nfds ≡ nfds = omega arith in
          let lt : i < nfds = ground arith in
          let here : pollfd_at k (offset + 8 * i) ≡ fds i =
            (rw z at (put_pollfds-at nfds 0 offset fds m i lt (rw z (hs i lt)))) in
          let below : ltb i 0 ≡ false = ground arith in rw (below, n, in', e) here
      | inr out' ↦ ground arith
    ]

-- The timeout, the count and every element of the array come back, and the array behind the count
-- keeps what it held.
pub poll_roundtrip :
    (m : Buffer) (fds malloc : PollFds) (nfds timeout : ℕ)
    → nfds < 2 ^ 64
    → timeout < 2 ^ 32
    → ((i : ℕ) → i < nfds → IsPollFd (fds i))
    → let r =
        deserialize_poll_pollfd (serialize_poll_pollfd m fds nfds (some timeout)) malloc none in
      (r.nfds ≡ nfds)
      × (r.timeout ≡ timeout)
      × ((i : ℕ) → r.fds i ≡ (if ltb i nfds then fds i else malloc i))
unfolding serialize_poll_pollfd deserialize_poll_pollfd
poll_roundtrip m fds malloc nfds timeout hn ht hs =
    let m1 = store 4 m 0 timeout in
    let base = store 8 m1 4 nfds in
    let k = put_pollfds nfds 0 12 fds base in
    let count : load 8 k 4 ≡ nfds =
      load_congr k base 4 8 (λ i p q. put_pollfds_outside nfds 0 12 fds base i (inl (omega arith)))
      ∙ load-store_self 8 m1 4 nfds (omega arith) in
    let time : load 4 k 0 ≡ timeout =
      load_congr k base 0 4 (λ i p q. put_pollfds_outside nfds 0 12 fds base i (inl (omega arith)))
      ∙ load-store_ne 4 8 m1 4 0 nfds (omega arith)
      ∙ load-store_self 4 m 0 timeout (omega arith) in
    (count, time, λ i. rw count (get_pollfds-put nfds 12 fds malloc base hs i))

-- Where the offsets fit the `int` that holds them, serializing `nfds` elements changes no byte from
-- `12 + 8 * nfds` on.
pub poll_bounded :
    (m : Buffer) (fds : PollFds) (nfds timeout i : ℕ)
    → 12 + 8 * nfds < 2 ^ 31
    → 12 + 8 * nfds ≤ i
    → serialize_poll_pollfd m fds nfds (some timeout) i ≡ m i
unfolding serialize_poll_pollfd
poll_bounded m fds nfds timeout i int h =
    put_pollfds_outside nfds 0 12 fds _ i (inr h)
    ∙ store_outside 8 (store 4 m 0 timeout) 4 nfds i (inr (omega arith))
    ∙ store_outside 4 m 0 timeout i (inr (omega arith))
