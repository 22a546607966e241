-- ===== src/Base/Buffer.antt =====
-- `char data[BUFFER_SIZE]` as a map from offsets to bytes, `memcpy` into and out of it, and the
-- little-endian scalars of the host and of the card. A function's footprint is a theorem about it.
use Prim.Native.Nat.{ℕ, zero, suc, ◌+◌, ◌*◌, ◌/◌, ◌%◌, ◌^◌, ◌≤◌, ◌<◌}
use mathlib.Core.Path.{◌≡◌, refl, ◌∙◌, ap}
use mathlib.Core.Logic.{◌⊎◌}
use mathlib.Core.List.{List, [], ◌∷◌, ◌++◌}
use native.Mathlib.Nat.{pow-suc}
use native.Mathlib.Omega.{arith}
use socket_to_rdma.Base.Tests.{◌==◌, if◌then◌else◌}
use socket_to_rdma.Base.Lists.{length, take, drop}

abbrev pub Buffer : Type 0
Buffer = ℕ → ℕ

-- `memcpy(m + off, bytes, length bytes)`
unfoldable pub write : Buffer → ℕ → List ℕ → Buffer
write m off [] = m
write m off (b ∷ bs) = write (λ i. if i == off then b else m i) (off + 1) bs

-- `memcpy(dst, m + off, n)`
unfoldable pub read : Buffer → ℕ → ℕ → List ℕ
read m off zero = []
read m off (suc n) = m off ∷ read m (off + 1) n

unfoldable pub le : ℕ → ℕ → List ℕ
le zero w = []
le (suc n) w = w % 256 ∷ le n (w / 256)

unfoldable pub of_le : List ℕ → ℕ
of_le [] = 0
of_le (b ∷ bs) = b + 256 * of_le bs

-- a scalar of `n` bytes
unfoldable pub store : ℕ → Buffer → ℕ → ℕ → Buffer
unfolding write le
store n m off w = write m off (le n w)

unfoldable pub load : ℕ → Buffer → ℕ → ℕ
unfolding read of_le
load n m off = of_le (read m off n)

pub length-le : (n w : ℕ) → length (le n w) ≡ n
unfolding le
length-le zero w = refl
length-le (suc n) w = ap suc (length-le n (w / 256))

pub length-read : (m : Buffer) (off n : ℕ) → length (read m off n) ≡ n
unfolding read
length-read m off zero = refl
length-read m off (suc n) = ap suc (length-read m (off + 1) n)

pub of_le-le : (n w : ℕ) → w < 256 ^ n → of_le (le n w) ≡ w
unfolding le of_le
of_le-le zero w h = omega arith
of_le-le (suc n) w h =
    omega (arith, pow-suc 256 n, of_le-le n (w / 256) (omega (arith, pow-suc 256 n)))

-- the bytes outside the range of a `memcpy` stay
pub write_outside :
    (m : Buffer) (off : ℕ) (bs : List ℕ) (i : ℕ)
    → (i < off) ⊎ (off + length bs ≤ i)
    → write m off bs i ≡ m i
unfolding write
write_outside m off [] i h = refl
write_outside m off (b ∷ bs) i h =
    ground (arith, write_outside (λ j. if j == off then b else m j) (off + 1) bs i)

pub read_congr :
    (m k : Buffer) (off n : ℕ)
    → ((i : ℕ) → off ≤ i → i < off + n → m i ≡ k i)
    → read m off n ≡ read k off n
unfolding read
read_congr m k off zero h = refl
read_congr m k off (suc n) h =
    let rest : read m (off + 1) n ≡ read k (off + 1) n =
      read_congr m k (off + 1) n (λ i p q. h i (omega arith) (omega arith)) in
    let first : m off ≡ k off = h off (omega arith) (omega arith) in rw (rest, first)

pub read-write_ne :
    (m : Buffer) (off : ℕ) (bs : List ℕ) (at n : ℕ)
    → (at + n ≤ off) ⊎ (off + length bs ≤ at)
    → read (write m off bs) at n ≡ read m at n
read-write_ne m off bs at n h =
    read_congr (write m off bs) m at n (λ i p q. write_outside m off bs i (omega arith))

pub read-write_self :
    (m : Buffer) (off : ℕ) (bs : List ℕ) (n : ℕ) → length bs ≡ n → read (write m off bs) off n ≡ bs
unfolding read write
read-write_self m off [] zero e = refl
read-write_self m off [] (suc n) e = absurd (omega arith)
read-write_self m off (b ∷ bs) zero e = absurd (omega arith)
read-write_self m off (b ∷ bs) (suc n) e =
    let m' : Buffer = λ j. if j == off then b else m j in
    let first : write m' (off + 1) bs off ≡ b =
      write_outside m' (off + 1) bs off (omega arith) ∙ ground arith in
    rw (first, read-write_self m' (off + 1) bs n (omega arith))

pub load-store_self :
    (n : ℕ) (m : Buffer) (off w : ℕ) → w < 256 ^ n → load n (store n m off w) off ≡ w
unfolding load store
load-store_self n m off w h = rw (read-write_self m off (le n w) n (length-le n w)) (of_le-le n w h)

pub load-store_ne :
    (n k : ℕ) (m : Buffer) (off at w : ℕ)
    → (at + n ≤ off) ⊎ (off + k ≤ at)
    → load n (store k m off w) at ≡ load n m at
unfolding load store
load-store_ne n k m off at w h =
    ap of_le (read-write_ne m off (le k w) at n (omega (arith, length-le k w)))

pub load-write_ne :
    (n : ℕ) (m : Buffer) (off : ℕ) (bs : List ℕ) (at : ℕ)
    → (at + n ≤ off) ⊎ (off + length bs ≤ at)
    → load n (write m off bs) at ≡ load n m at
unfolding load
load-write_ne n m off bs at h = ap of_le (read-write_ne m off bs at n h)

pub read-store_ne :
    (k : ℕ) (m : Buffer) (off w at n : ℕ)
    → (at + n ≤ off) ⊎ (off + k ≤ at)
    → read (store k m off w) at n ≡ read m at n
unfolding store
read-store_ne k m off w at n h = read-write_ne m off (le k w) at n (omega (arith, length-le k w))

pub store_outside :
    (k : ℕ) (m : Buffer) (off w i : ℕ) → (i < off) ⊎ (off + k ≤ i) → store k m off w i ≡ m i
unfolding store
store_outside k m off w i h = write_outside m off (le k w) i (omega (arith, length-le k w))

pub load_congr :
    (m k : Buffer) (off n : ℕ)
    → ((i : ℕ) → off ≤ i → i < off + n → m i ≡ k i)
    → load n m off ≡ load n k off
unfolding load
load_congr m k off n h = ap of_le (read_congr m k off n h)

pub read-write-take :
    (m : Buffer) (off : ℕ) (bs : List ℕ) (n : ℕ)
    → n ≤ length bs
    → read (write m off bs) off n ≡ take n bs
unfolding read write
read-write-take m off [] zero h = refl
read-write-take m off (b ∷ bs) zero h = refl
read-write-take m off [] (suc n) h = absurd (omega arith)
read-write-take m off (b ∷ bs) (suc n) h =
    let m' : Buffer = λ j. if j == off then b else m j in
    let first : write m' (off + 1) bs off ≡ b =
      write_outside m' (off + 1) bs off (omega arith) ∙ ground arith in
    rw (first, read-write-take m' (off + 1) bs n (omega arith))

-- bytes read from within those that were written
pub read-write_in :
    (m : Buffer) (off : ℕ) (bs : List ℕ) (j n : ℕ)
    → j + n ≤ length bs
    → read (write m off bs) (off + j) n ≡ take n (drop j bs)
unfolding write
read-write_in m off bs zero n h =
    let e : off + 0 ≡ off = omega arith in rw e (read-write-take m off bs n (omega arith))
read-write_in m off [] (suc j) n h = absurd (omega arith)
read-write_in m off (b ∷ bs) (suc j) n h =
    let e : off + suc j ≡ off + 1 + j = omega arith in
    rw e (read-write_in (λ i. if i == off then b else m i) (off + 1) bs j n (omega arith))

pub read-append :
    (m : Buffer) (off a b : ℕ) → read m off (a + b) ≡ read m off a ++ read m (off + a) b
unfolding read
read-append m off zero b =
    let e : off + 0 ≡ off = omega arith in let z : 0 + b ≡ b = omega arith in rw (e, z)
read-append m off (suc a) b =
    let e : off + suc a ≡ off + 1 + a = omega arith in
    let z : suc a + b ≡ suc (a + b) = omega arith in rw (e, z, read-append m (off + 1) a b)
