-- ===== src/Wire/Card/Differs.antt =====
-- The layout of epoll_ctl, where the card's writer and the host's reader differ from the ones that
-- the calls use.
use socket_to_rdma.Base.{ℕ, ◌+◌, ◌≤◌, ◌≡◌, ◌≢◌, Option, none, some, arith, ◌∙◌}
use socket_to_rdma.Base.Buffer.{Buffer, store, load, load-store_ne}
use socket_to_rdma.Wire.Epoll.{EpollEvent, EpollCtl, deserialize_epoll_ctl_dt}
use socket_to_rdma.Wire.Epoll.Events.{IsEvent, event_at-store}
use socket_to_rdma.Wire.Epoll.Roundtrip.{IsInt, IsMaybeEvent, three_ints, past}
use socket_to_rdma.Wire.Card.Epoll.{card_serialize_epoll_ctl_dt, host_deserialize_epoll_ctl_dt}

-- what a reader finds behind the card's writer
abbrev pub sent_or : EpollCtl → (epfd op fd : ℕ) → Option EpollEvent → EpollCtl
sent_or old epfd op fd none = old
sent_or old epfd op fd (some e) = record { epfd = epfd; op = op; fd = fd; event = e }

ctl_readers :
    (m : Buffer) (op_at : ℕ) (held : EpollEvent)
    → op_at ≢ 2
    → host_deserialize_epoll_ctl_dt m op_at held ≡ deserialize_epoll_ctl_dt m
unfolding host_deserialize_epoll_ctl_dt deserialize_epoll_ctl_dt
ctl_readers m op_at held h = ground arith

-- an `int` below the event
head_kept :
    (m : Buffer) (at x : ℕ) (e : EpollEvent)
    → at + 4 ≤ 12
    → load 4 m at ≡ x
    → load 4 (store 8 (store 4 m 12 e.events) 16 e.epoll_data) at ≡ x
head_kept m at x e h is =
    load-store_ne 4 8 (store 4 m 12 e.events) 16 at e.epoll_data (omega arith)
    ∙ past m 12 at e.events x (omega arith) is

card_ctl-sent :
    (m : Buffer) (epfd op fd : ℕ) (e : EpollEvent)
    → IsInt epfd
    → IsInt op
    → IsInt fd
    → IsEvent e
    → deserialize_epoll_ctl_dt (card_serialize_epoll_ctl_dt m epfd op fd (some e))
      ≡ record { epfd = epfd; op = op; fd = fd; event = e }
unfolding card_serialize_epoll_ctl_dt deserialize_epoll_ctl_dt
card_ctl-sent m epfd op fd e ha hb hc he =
    let k = store 4 (store 4 (store 4 m 0 epfd) 4 op) 8 fd in
    let (e0, e1, e2) = three_ints m epfd op fd ha hb hc in
    let h0 = head_kept k 0 epfd e (omega arith) e0 in
    let h1 = head_kept k 4 op e (omega arith) e1 in
    let h2 = head_kept k 8 fd e (omega arith) e2 in
    let rest = event_at-store k 12 e he in ground arith

-- The host's reader, given any pointer that is not the address 2, reads what the card's reader
-- does, the event of a deletion included. Behind the card's writer it finds the numbers and the
-- event; where the event is NULL it finds what the message held before, and none of the numbers.
pub ctl_copies :
    (m : Buffer) (epfd op fd op_at : ℕ) (event : Option EpollEvent) (held : EpollEvent)
    → IsInt epfd
    → IsInt op
    → IsInt fd
    → IsMaybeEvent event
    → op_at ≢ 2
    → host_deserialize_epoll_ctl_dt (card_serialize_epoll_ctl_dt m epfd op fd event) op_at held
      ≡ sent_or (deserialize_epoll_ctl_dt m) epfd op fd event
unfolding card_serialize_epoll_ctl_dt
ctl_copies m epfd op fd op_at none held ha hb hc he h = ctl_readers m op_at held h
ctl_copies m epfd op fd op_at (some e) held ha hb hc he h =
    ctl_readers _ op_at held h ∙ card_ctl-sent m epfd op fd e ha hb hc he
