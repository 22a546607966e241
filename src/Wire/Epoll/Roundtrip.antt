-- ===== src/Wire/Epoll/Roundtrip.antt =====
-- What the card reads of the host's arguments, and the host of the card's events.
use socket_to_rdma.Base.{
  ℕ, ◌+◌, ◌*◌, ◌^◌, ◌<◌, ◌≤◌, ◌≡◌, refl, ◌⊎◌, inl, inr, Option, none, some, ltb, if◌then◌else◌, ◌∙◌,
  arith, Bool-cases, ◌-◌, ◌&&◌,
}
use socket_to_rdma.Base.Buffer.{
  Buffer, store, load, store_outside, load_congr, load-store_self, load-store_ne,
}
use socket_to_rdma.Wire.Epoll.{
  EpollEvent, Events, rounds_of, put_events, get_events, serialize_epoll_ctl_dt,
  deserialize_epoll_ctl_dt, serialize_epoll_wait_dt, deserialize_epoll_wait_dt,
}
use socket_to_rdma.Wire.Epoll.Events.{
  IsEvent, event_at, event_at-store, event_at_congr, put_events_outside, put_events-event_at,
  get_events_in, get_events_out,
}

abbrev pub IsInt : ℕ → Type 0
IsInt x = x < 2 ^ 32

abbrev pub stale_event : Buffer → EpollEvent
stale_event m = event_at m 12

abbrev pub event_or : EpollEvent → Option EpollEvent → EpollEvent
event_or d none = d
event_or d (some e) = e

abbrev pub IsMaybeEvent : Option EpollEvent → Type 0
IsMaybeEvent none = Unit
IsMaybeEvent (some e) = IsEvent e

scalars_outside :
    (m : Buffer) (epfd op fd i : ℕ)
    → 12 ≤ i
    → store 4 (store 4 (store 4 m 0 epfd) 4 op) 8 fd i ≡ m i
scalars_outside m epfd op fd i h =
    store_outside 4 (store 4 (store 4 m 0 epfd) 4 op) 8 fd i (inr (omega arith))
    ∙ store_outside 4 (store 4 m 0 epfd) 4 op i (inr (omega arith))
    ∙ store_outside 4 m 0 epfd i (inr (omega arith))

-- an `int` that a store of four bytes elsewhere leaves
pub past :
    (m : Buffer) (off at w x : ℕ)
    → (at + 4 ≤ off) ⊎ (off + 4 ≤ at)
    → load 4 m at ≡ x
    → load 4 (store 4 m off w) at ≡ x
past m off at w x h e = load-store_ne 4 4 m off at w h ∙ e

-- three `int`s at the head of a message
pub three_ints :
    (m : Buffer) (a b c : ℕ)
    → IsInt a
    → IsInt b
    → IsInt c
    → let k = store 4 (store 4 (store 4 m 0 a) 4 b) 8 c in
      (load 4 k 0 ≡ a) × (load 4 k 4 ≡ b) × (load 4 k 8 ≡ c)
three_ints m a b c ha hb hc =
    let m1 = store 4 m 0 a in
    let m2 = store 4 m1 4 b in
    (
      past m2 8 0 c a (omega arith) (past m1 4 0 b a (omega arith) (load-store_self 4 m 0 a ha)),
      past m2 8 4 c b (omega arith) (load-store_self 4 m1 4 b hb),
      load-store_self 4 m2 8 c hc,
    )

-- The card reads the descriptors and the operation that the host sent, and the event if there is
-- one; without one it reads the bytes that an earlier request left in the buffer.
pub ctl_roundtrip :
    (m : Buffer) (epfd op fd : ℕ) (event : Option EpollEvent)
    → IsInt epfd
    → IsInt op
    → IsInt fd
    → IsMaybeEvent event
    → deserialize_epoll_ctl_dt (serialize_epoll_ctl_dt m epfd op fd event)
      ≡ record { epfd = epfd; op = op; fd = fd; event = event_or (stale_event m) event }
unfolding serialize_epoll_ctl_dt deserialize_epoll_ctl_dt
ctl_roundtrip m epfd op fd none ha hb hc he =
    let heads = three_ints m epfd op fd ha hb hc in
    let rest = event_at_congr _ m 12 (λ i p q. scalars_outside m epfd op fd i p) in ground arith
ctl_roundtrip m epfd op fd (some e) ha hb hc he =
    let k = store 8 (store 4 m 12 e.events) 16 e.epoll_data in
    let heads = three_ints k epfd op fd ha hb hc in
    let rest = event_at_congr _ k 12 (λ i p q. scalars_outside k epfd op fd i p) in
    let here = event_at-store m 12 e he in ground arith

four_ints :
    (m : Buffer) (a b c d : ℕ)
    → IsInt a
    → IsInt b
    → IsInt c
    → IsInt d
    → let k = store 4 (store 4 (store 4 (store 4 m 0 a) 4 b) 8 c) 12 d in
      (load 4 k 0 ≡ a) × (load 4 k 4 ≡ b) × (load 4 k 8 ≡ c) × (load 4 k 12 ≡ d)
four_ints m a b c d ha hb hc hd =
    let m3 = store 4 (store 4 (store 4 m 0 a) 4 b) 8 c in
    let (ea, eb, ec) = three_ints m a b c ha hb hc in
    (
      past m3 12 0 d a (omega arith) ea,
      past m3 12 4 d b (omega arith) eb,
      past m3 12 8 d c (omega arith) ec,
      load-store_self 4 m3 12 d hd,
    )

-- the numbers stand below the events
heads_kept :
    (rounds : ℕ) (events : Events) (m : Buffer) (at : ℕ)
    → at + 4 ≤ 16
    → load 4 (put_events rounds 0 16 events m) at ≡ load 4 m at
heads_kept rounds events m at h =
    load_congr _ m at 4 (λ i p q. put_events_outside rounds 0 16 events m i (inl (omega arith)))

events_roundtrip :
    (rounds : ℕ) (events into : Events) (m : Buffer)
    → ((i : ℕ) → i < rounds → IsEvent (events i))
    → (i : ℕ)
    → get_events rounds 0 16 (put_events rounds 0 16 events m) into i
      ≡ (if ltb i rounds && ltb i 84 then events i else into i)
events_roundtrip rounds events into m hs i =
    let k = put_events rounds 0 16 events m in
    elim (Bool-cases (ltb i rounds && ltb i 84)) [
      | inl fits ↦
          let lt : i < rounds = ground arith in
          let lt' : i < 84 = ground arith in
          let e : i - 0 ≡ i = omega arith in
          let z : 0 + i ≡ i = omega arith in
          let written : event_at k (16 + 12 * i) ≡ events i =
            (rw z at
              (put_events-event_at rounds 0 16 events m i lt (omega arith) (rw z (hs i lt)))) in
          rw fits (
            get_events_in rounds 0 16 k into i (omega arith, omega arith, omega arith)
            ∙ rw e written)
      | inr over ↦ rw over (get_events_out rounds 0 16 k into i (λ f. ground arith))
    ]

-- The numbers of `epoll_wait` come back; of the events the first 84 do, and the places of the array
-- behind those, and from `nfds` on, keep what they held.
pub wait_roundtrip :
    (m : Buffer) (nfds epfd maxevents timeout : ℕ) (events into : Events)
    → nfds < 2 ^ 31
    → IsInt epfd
    → IsInt maxevents
    → IsInt timeout
    → ((i : ℕ) → i < nfds → IsEvent (events i))
    → let r =
        deserialize_epoll_wait_dt
          (serialize_epoll_wait_dt m nfds epfd maxevents timeout events)
          (some into) in
      (r.nfds ≡ nfds)
      × (r.epfd ≡ epfd)
      × (r.maxevents ≡ maxevents)
      × (r.timeout ≡ timeout)
      × ((out : Events) × (r.events ≡ some out)
          × ((i : ℕ) → out i ≡ (if ltb i nfds && ltb i 84 then events i else into i)))
unfolding serialize_epoll_wait_dt deserialize_epoll_wait_dt
wait_roundtrip m nfds epfd maxevents timeout events into hn he hm ht hs =
    let base = store 4 (store 4 (store 4 (store 4 m 0 nfds) 4 epfd) 8 maxevents) 12 timeout in
    let k = put_events (rounds_of nfds) 0 16 events base in
    let heads = four_ints m nfds epfd maxevents timeout (omega arith) he hm ht in
    let first : load 4 k 0 ≡ nfds =
      heads_kept (rounds_of nfds) events base 0 (omega arith) ∙ heads.0 in
    let rounds : rounds_of nfds ≡ nfds = ground arith in
    (
      first,
      heads_kept (rounds_of nfds) events base 4 (omega arith) ∙ heads.1,
      heads_kept (rounds_of nfds) events base 8 (omega arith) ∙ heads.2,
      heads_kept (rounds_of nfds) events base 12 (omega arith) ∙ heads.3,
      (
        get_events nfds 0 16 (put_events nfds 0 16 events base) into,
        rw (first, rounds) refl,
        events_roundtrip nfds events into base hs,
      ),
    )
