-- ===== src/Wire/Select.antt =====
-- The layout of select: `nfds` at 0, a flag at 4, the three sets from 5 on, and the timeout.
pub mod Roundtrip
use socket_to_rdma.Base.{
  ℕ, zero, suc, ◌+◌, ◌-◌, ◌*◌, ◌/◌, ◌%◌, ◌^◌, Bool, true, false, Option, none, some, List, [], ◌∷◌,
  ◌==◌, ◌&&◌, if◌then◌else◌, is_neg,
}
use socket_to_rdma.Base.Buffer.{Buffer, store, load, write, read}

-- `sizeof(fd_set)` and `sizeof(struct timeval)`
abbrev pub set_sz : ℕ
set_sz = 128

abbrev pub tv_sz : ℕ
tv_sz = 16

abbrev pub zeros : ℕ → List ℕ
zeros zero = []
zeros (suc n) = 0 ∷ zeros n

-- the bytes that a pointer points at, if it is not NULL
abbrev pub Bytes? : Type 0
Bytes? = Option (List ℕ)

-- one of the three sets, or the timeout: its bytes, or zeros
abbrev pub bytes_or_zeros : ℕ → Bytes? → List ℕ
bytes_or_zeros sz none = zeros sz
bytes_or_zeros sz (some bs) = bs

abbrev pub mark : ℕ → Bytes? → ℕ
mark w none = 0
mark w (some bs) = w

-- the flag has a decimal digit for each pointer
abbrev pub flag_of : (readfds writefds exceptfds timeout : Bytes?) → ℕ
flag_of r w e t = mark 1000 r + mark 100 w + mark 10 e + mark 1 t

-- what stands behind the flag
abbrev pub put_sets : Buffer → (readfds writefds exceptfds timeout : Bytes?) → Buffer
put_sets m r w e t =
    write
      (write (write (write m 5 (bytes_or_zeros set_sz r)) (5 + set_sz) (bytes_or_zeros set_sz w))
        (5 + 2 * set_sz) (bytes_or_zeros set_sz e))
      (5 + 3 * set_sz) (bytes_or_zeros tv_sz t)

-- The flag is an `int`, and is stored over the first three bytes of the first set.
unfoldable pub serialize_select_fd_set :
    Buffer → (nfds : ℕ) → (readfds writefds exceptfds timeout : Bytes?) → Buffer
serialize_select_fd_set m nfds r w e t =
    store 4 (put_sets (store 4 m 0 nfds) r w e t) 4 (flag_of r w e t)

-- `a - b` and `a / b` of `int`, for `0 < b`
abbrev pub sub32 : ℕ → ℕ → ℕ
sub32 a b = (a + 2 ^ 32 - b) % 2 ^ 32

abbrev pub div32 : ℕ → ℕ → ℕ
div32 a b = if is_neg a then (2 ^ 32 - (2 ^ 32 - a) / b) % 2 ^ 32 else a / b

pub record SelectArgs : Type 0 where
  pub nfds : ℕ
  pub readfds : Bytes?
  pub writefds : Bytes?
  pub exceptfds : Bytes?
  pub timeout : Bytes?

-- a `memcpy` into an object, if the test passes and the pointer is not NULL
abbrev pub fill : Bool → Bytes? → List ℕ → Bytes?
fill test none bs = none
fill true (some old) bs = some bs
fill false (some old) bs = some old

abbrev get_sets : Buffer → ℕ → SelectArgs → SelectArgs
get_sets m flag a =
    let flag1 = sub32 flag 1000 in
    let flag2 = sub32 flag1 100 in
    let flag3 = sub32 flag2 10 in
    record a {
      readfds = fill (div32 flag 1000 == 1) a.readfds (read m 5 set_sz);
      writefds = fill (div32 flag1 100 == 1) a.writefds (read m (5 + set_sz) set_sz);
      exceptfds = fill (div32 flag2 10 == 1) a.exceptfds (read m (5 + 2 * set_sz) set_sz);
      timeout = fill (flag3 == 1) a.timeout (read m (5 + 3 * set_sz) tv_sz);
    }

-- `a` holds what the caller's pointers point at before the call
unfoldable pub deserialize_select_fd_set : Buffer → SelectArgs → SelectArgs
deserialize_select_fd_set m a =
    let flag = load 4 m 4 in
    let b : SelectArgs = record a { nfds = load 4 m 0 } in
    if flag == 0 then b else get_sets m flag b
