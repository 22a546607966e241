-- ===== src/Wire/Epoll/Events.antt =====
-- The loops over the events: what one writes, where, and what the other reads.
use socket_to_rdma.Base.{
  ℕ, zero, suc, ◌+◌, ◌-◌, ◌*◌, ◌^◌, ◌<◌, ◌≤◌, ◌≡◌, refl, ◌⊎◌, inl, inr, false, ◌==◌, ltb, ◌∙◌,
  arith, Bool-cases,
}
use socket_to_rdma.Base.Buffer.{
  Buffer, store, load, store_outside, load_congr, load-store_self, load-store_ne,
}
use socket_to_rdma.Wire.Epoll.{EpollEvent, Events, put_events, get_events}

abbrev pub IsEvent : EpollEvent → Type 0
IsEvent e = (e.events < 2 ^ 32) × (e.epoll_data < 2 ^ 64)

abbrev pub event_at : Buffer → ℕ → EpollEvent
event_at m offset = record { events = load 4 m offset; epoll_data = load 8 m (offset + 4) }

-- nothing below the offset and nothing from 1024 on is written
pub put_events_outside :
    (rounds i offset : ℕ) (events : Events) (m : Buffer) (at : ℕ)
    → (at < offset) ⊎ (1024 ≤ at)
    → put_events rounds i offset events m at ≡ m at
unfolding put_events
put_events_outside zero i offset events m at h = refl
put_events_outside (suc rounds) i offset events m at h =
    elim (Bool-cases (ltb 1024 (offset + 12))) [
      | inl full ↦ ground arith
      | inr room ↦
          let m1 = store 4 m offset (events i).events in
          let m2 = store 8 m1 (offset + 4) (events i).epoll_data in
          let below : (at < offset) ⊎ (1024 ≤ at) = h in
          ground (
            arith,
            put_events_outside rounds (i + 1) (offset + 12) events m2 at,
            store_outside 8 m1 (offset + 4) (events i).epoll_data at,
            store_outside 4 m offset (events i).events at,
          )
    ]

-- the two stores of an event, read back
pub event_at-store :
    (m : Buffer) (offset : ℕ) (e : EpollEvent)
    → IsEvent e
    → event_at (store 8 (store 4 m offset e.events) (offset + 4) e.epoll_data) offset ≡ e
event_at-store m offset e h =
    let first =
      load-store_ne 4 8 (store 4 m offset e.events) (offset + 4) offset e.epoll_data
        (omega arith) in
    let second = load-store_self 4 m offset e.events (omega arith) in
    let third =
      load-store_self 8 (store 4 m offset e.events) (offset + 4) e.epoll_data (omega arith) in
    ground arith

pub event_at_congr :
    (m k : Buffer) (offset : ℕ)
    → ((i : ℕ) → offset ≤ i → i < offset + 12 → m i ≡ k i)
    → event_at m offset ≡ event_at k offset
event_at_congr m k offset h =
    let first = load_congr m k offset 4 (λ i p q. h i (omega arith) (omega arith)) in
    let second = load_congr m k (offset + 4) 8 (λ i p q. h i (omega arith) (omega arith)) in
    ground arith

-- each event that fits below 1024 is written in its place
pub put_events-event_at :
    (rounds i offset : ℕ) (events : Events) (m : Buffer) (k : ℕ)
    → k < rounds
    → offset + 12 * k + 12 ≤ 1024
    → IsEvent (events (i + k))
    → event_at (put_events rounds i offset events m) (offset + 12 * k) ≡ events (i + k)
unfolding put_events
put_events-event_at zero i offset events m k lt fits is = absurd (omega arith)
put_events-event_at (suc rounds) i offset events m zero lt fits is =
    let room : ltb 1024 (offset + 12) ≡ false = ground arith in
    let e0 : offset + 12 * 0 ≡ offset = omega arith in
    let i0 : i + 0 ≡ i = omega arith in
    let is' : IsEvent (events i) = rw i0 at is in
    rw (room, e0, i0)
      (event_at_congr _
          (store 8 (store 4 m offset (events i).events) (offset + 4) (events i).epoll_data) offset
          (λ at _ h. put_events_outside rounds (i + 1) (offset + 12) events _ at (inl h))
        ∙ event_at-store m offset (events i) is')
put_events-event_at (suc rounds) i offset events m (suc k) lt fits is =
    let room : ltb 1024 (offset + 12) ≡ false = ground arith in
    let e : offset + 12 * suc k ≡ offset + 12 + 12 * k = omega arith in
    let i' : i + suc k ≡ i + 1 + k = omega arith in
    let is' : IsEvent (events (i + 1 + k)) = rw i' at is in
    rw (room, e, i')
      (put_events-event_at rounds (i + 1) (offset + 12) events _ k (omega arith) (omega arith) is')

-- which places a reader of `rounds` events from the i-th on fills
abbrev pub Fills : (rounds i offset j : ℕ) → Type 0
Fills rounds i offset j = (i ≤ j) × (j < i + rounds) × (offset + 12 * (j - i) + 12 ≤ 1024)

pub get_events_out :
    (rounds i offset : ℕ) (m : Buffer) (events : Events) (j : ℕ)
    → ¬ Fills rounds i offset j
    → get_events rounds i offset m events j ≡ events j
unfolding get_events
get_events_out zero i offset m events j h = refl
get_events_out (suc rounds) i offset m events j h = elim (Bool-cases (ltb 1024 (offset + 12))) [
  | inl full ↦ rw full
  | inr room ↦
      let first : offset + 12 ≤ 1024 = ground arith in
      let other : (j == i) ≡ false = elim (Bool-cases (j == i)) [
        | inl same ↦ absurd (h (ground arith, ground arith, ground arith))
        | inr differ ↦ differ
      ] in
      rw room (
        get_events_out rounds (i + 1) (offset + 12) m _ j
          (λ f. h (omega arith, omega arith, omega arith))
        ∙ rw other)
]

pub get_events_in :
    (rounds i offset : ℕ) (m : Buffer) (events : Events) (j : ℕ)
    → Fills rounds i offset j
    → get_events rounds i offset m events j ≡ event_at m (offset + 12 * (j - i))
unfolding get_events
get_events_in zero i offset m events j h = absurd (omega arith)
get_events_in (suc rounds) i offset m events j h =
    let room : ltb 1024 (offset + 12) ≡ false = ground arith in
    elim (Bool-cases (j == i)) [
      | inl same ↦
          let e : offset + 12 * (j - i) ≡ offset = ground arith in
          rw (room, e)
            (get_events_out rounds (i + 1) (offset + 12) m _ j (λ f. ground arith) ∙ rw same)
      | inr differ ↦
          let later : i + 1 ≤ j = ground arith in
          let e : offset + 12 * (j - i) ≡ offset + 12 + 12 * (j - (i + 1)) = omega arith in
          rw (room, e)
            (get_events_in rounds (i + 1) (offset + 12) m _ j
              (omega arith, omega arith, omega arith))
    ]
