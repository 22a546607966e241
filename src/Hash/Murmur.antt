-- ===== src/Hash/Murmur.antt =====
-- MurmurHash3 and hashFunction of host/hash_delee.c. An `unsigned int` is a number below 2 ^ 32,
-- and the key's bytes are a list, read as little-endian blocks.
use socket_to_rdma.Base.{
  ℕ, ◌+◌, ◌*◌, ◌/◌, ◌%◌, ◌^◌, ◌<◌, bit_or, bit_xor, List, [], ◌∷◌, arith, length,
}
use socket_to_rdma.Base.Buffer.{le, of_le}

abbrev pub ht_sz : ℕ
ht_sz = 1024

abbrev pub ht_seed : ℕ
ht_seed = 4426

abbrev c1 : ℕ
c1 = 0xcc9e2d51

abbrev c2 : ℕ
c2 = 0x1b873593

-- `a * b` of `unsigned int`
mul32 : ℕ → ℕ → ℕ
mul32 a b = a * b % 2 ^ 32

-- `(k << r) | (k >> (32 - r))`
rotl32 : ℕ → ℕ → ℕ
rotl32 k r = bit_or (k * 2 ^ r % 2 ^ 32) (k * 2 ^ r / 2 ^ 32)

scramble : ℕ → ℕ
scramble k = mul32 (rotl32 (mul32 k c1) 15) c2

-- one round of the loop over the blocks
block_round : ℕ → ℕ → ℕ
unfolding scramble
block_round h k = (mul32 (rotl32 (bit_xor h (scramble k)) 13) 5 + 0xe6546b64) % 2 ^ 32

-- the loop over the blocks, then the switch over the one to three bytes left
body : ℕ → List ℕ → ℕ
body h (a ∷ b ∷ c ∷ d ∷ rest) = body (block_round h (of_le (a ∷ b ∷ c ∷ d ∷ []))) rest
body h [] = h
body h (a ∷ []) = bit_xor h (scramble (bit_xor 0 a))
body h (a ∷ b ∷ []) = bit_xor h (scramble (bit_xor (bit_xor 0 (b * 2 ^ 8)) a))
body h (a ∷ b ∷ c ∷ []) =
    bit_xor h (scramble (bit_xor (bit_xor (bit_xor 0 (c * 2 ^ 16)) (b * 2 ^ 8)) a))

finalization : ℕ → ℕ → ℕ
finalization len h1 =
    let h2 = bit_xor h1 len in
    let h3 = bit_xor h2 (h2 / 2 ^ 16) in
    let h4 = mul32 h3 0x85ebca6b in
    let h5 = bit_xor h4 (h4 / 2 ^ 13) in let h6 = mul32 h5 0xc2b2ae35 in bit_xor h6 (h6 / 2 ^ 16)

unfoldable pub murmur_hash3 : List ℕ → ℕ → ℕ
unfolding mul32 rotl32 block_round body finalization of_le
murmur_hash3 key seed = finalization (length key) (body seed key)

-- `sizeof(int)` bytes at `&key`
unfoldable pub hash_function : ℕ → ℕ
unfolding murmur_hash3 le
hash_function key = murmur_hash3 (le 4 key) ht_seed % ht_sz

pub hash_function-lt : (key : ℕ) → hash_function key < ht_sz
unfolding hash_function
hash_function-lt key = omega arith
