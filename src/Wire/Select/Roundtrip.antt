-- ===== src/Wire/Select/Roundtrip.antt =====
-- What the card reads of the host's sets and timeout, and the host of the card's.
use socket_to_rdma.Base.{
  ℕ, zero, suc, ◌/◌, ◌%◌, ◌^◌, ◌<◌, ◌≡◌, refl, Bool, true, false, none, some, List, ◌∷◌,
  if◌then◌else◌, ◌∙◌, arith, ◌&&◌, length, drop, ap,
}
use socket_to_rdma.Base.Buffer.{
  Buffer, store, load, write, read, le, load-store_self, load-store_ne, load-write_ne,
  read-store_ne, read-write_ne, read-write_self,
}
use socket_to_rdma.Wire.Select.{
  set_sz, tv_sz, Bytes?, bytes_or_zeros, flag_of, SelectArgs, serialize_select_fd_set,
  deserialize_select_fd_set,
}

abbrev pub has : Bytes? → Bool
has none = false
has (some bs) = true

abbrev pub HasLength : ℕ → Bytes? → Type 0
HasLength n none = Unit
HasLength n (some bs) = length bs ≡ n

-- the first set as it arrives: the flag's upper bytes stand over its first three
abbrev pub clobber : ℕ → List ℕ → List ℕ
clobber flag bs = flag / 256 ∷ 0 ∷ 0 ∷ drop 3 bs

zeros_or_length : (n : ℕ) (b : Bytes?) → HasLength n b → length (bytes_or_zeros n b) ≡ n
zeros_or_length n (some bs) h = h
zeros_or_length zero none h = refl
zeros_or_length (suc n) none h = ap suc (zeros_or_length n none h)

flag_of-lt : (r w e t : Bytes?) → flag_of r w e t < 2000
flag_of-lt r w e t = ground arith

first_set :
    (m : Buffer) (flag : ℕ)
    → flag < 2000
    → read (store 4 m 4 flag) 5 set_sz ≡ clobber flag (read m 5 set_sz)
unfolding store write read le
first_set m flag h =
    let b1 : flag / 256 % 256 ≡ flag / 256 = omega arith in
    let b2 : flag / 256 / 256 % 256 ≡ 0 = omega arith in
    let b3 : flag / 256 / 256 / 256 % 256 ≡ 0 = omega arith in rw (b1, b2, b3)

-- the four fields that a message with sets holds
pub sets_read :
    (m : Buffer) (nfds : ℕ) (r w e t : Bytes?)
    → nfds < 2 ^ 32
    → HasLength set_sz r
    → HasLength set_sz w
    → HasLength set_sz e
    → HasLength tv_sz t
    → let k = serialize_select_fd_set m nfds r w e t in
      (load 4 k 0 ≡ nfds)
      × (load 4 k 4 ≡ flag_of r w e t)
      × (read k 5 set_sz ≡ clobber (flag_of r w e t) (bytes_or_zeros set_sz r))
      × (read k 133 set_sz ≡ bytes_or_zeros set_sz w)
      × (read k 261 set_sz ≡ bytes_or_zeros set_sz e)
      × (read k 389 tv_sz ≡ bytes_or_zeros tv_sz t)
unfolding serialize_select_fd_set
sets_read m nfds r w e t hn hr hw he ht =
    let rb = bytes_or_zeros set_sz r in
    let wb = bytes_or_zeros set_sz w in
    let eb = bytes_or_zeros set_sz e in
    let tb = bytes_or_zeros tv_sz t in
    let flag = flag_of r w e t in
    let lr = zeros_or_length set_sz r hr in
    let lw = zeros_or_length set_sz w hw in
    let le' = zeros_or_length set_sz e he in
    let lt' = zeros_or_length tv_sz t ht in
    let lf = flag_of-lt r w e t in
    let m0 = store 4 m 0 nfds in
    let m1 = write m0 5 rb in
    let m2 = write m1 133 wb in
    let m3 = write m2 261 eb in
    let m4 = write m3 389 tb in
    (
      load-store_ne 4 4 m4 4 0 flag (omega arith)
          ∙ load-write_ne 4 m3 389 tb 0 (omega arith)
          ∙ load-write_ne 4 m2 261 eb 0 (omega arith)
          ∙ load-write_ne 4 m1 133 wb 0 (omega arith)
          ∙ load-write_ne 4 m0 5 rb 0 (omega arith)
          ∙ load-store_self 4 m 0 nfds hn,
      load-store_self 4 m4 4 flag (omega arith),
      first_set m4 flag lf
          ∙ ap (clobber flag) (
              read-write_ne m3 389 tb 5 set_sz (omega arith)
              ∙ read-write_ne m2 261 eb 5 set_sz (omega arith)
              ∙ read-write_ne m1 133 wb 5 set_sz (omega arith)
              ∙ read-write_self m0 5 rb set_sz lr),
      read-store_ne 4 m4 4 flag 133 set_sz (omega arith)
          ∙ read-write_ne m3 389 tb 133 set_sz (omega arith)
          ∙ read-write_ne m2 261 eb 133 set_sz (omega arith)
          ∙ read-write_self m1 133 wb set_sz lw,
      read-store_ne 4 m4 4 flag 261 set_sz (omega arith)
          ∙ read-write_ne m3 389 tb 261 set_sz (omega arith)
          ∙ read-write_self m2 261 eb set_sz le',
      read-store_ne 4 m4 4 flag 389 tv_sz (omega arith) ∙ read-write_self m3 389 tb tv_sz lt',
    )

abbrev pub objects : (nfds : ℕ) (r w e t : List ℕ) → SelectArgs
objects nfds r w e t = record {
  nfds = nfds;
  readfds = some r;
  writefds = some w;
  exceptfds = some e;
  timeout = some t;
}

abbrev pub if_sent : Bool → Bytes? → List ℕ → List ℕ
if_sent true (some bs) old = bs
if_sent true none old = old
if_sent false b old = old

-- The card reads a set, or the timeout, if it and all that stand before it were sent, and leaves its
-- own object as it was otherwise. What it reads is what was sent, but for the first three bytes of
-- the first set, over which the flag stands.
pub select_roundtrip :
    (m : Buffer) (nfds n : ℕ) (r w e t : Bytes?) (r' w' e' t' : List ℕ)
    → nfds < 2 ^ 32
    → HasLength set_sz r
    → HasLength set_sz w
    → HasLength set_sz e
    → HasLength tv_sz t
    → deserialize_select_fd_set (serialize_select_fd_set m nfds r w e t) (objects n r' w' e' t')
      ≡ objects nfds
          (if has r then clobber (flag_of r w e t) (bytes_or_zeros set_sz r) else r')
          (if_sent (has r) w w')
          (if_sent (has r && has w) e e')
          (if_sent (has r && has w && has e) t t')
unfolding deserialize_select_fd_set
select_roundtrip m nfds n none none none none r' w' e' t' hn hr hw he ht =
    let (e0, e1, e2, e3, e4, e5) = sets_read m nfds none none none none hn hr hw he ht in
    rw (e0, e1)
select_roundtrip m nfds n r w e t r' w' e' t' hn hr hw he ht =
    let (e0, e1, e2, e3, e4, e5) = sets_read m nfds r w e t hn hr hw he ht in ground arith
