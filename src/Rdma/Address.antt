-- ===== src/Rdma/Address.antt =====
-- The address that the host connects to and the card listens on: get_addr in both rdma_common.c,
-- set_sockaddr of host/rdma_client.c and set_server_r_info of snic/rdma_server.c. A `struct
-- sockaddr_in` is 16 bytes: the family at 0, the port at 2 and the address at 4, the last two in
-- network order. `getaddrinfo` is the C library's.
use socket_to_rdma.Base.{
  ℕ, ◌+◌, ◌/◌, ◌%◌, ◌^◌, ◌<◌, ◌≤◌, ◌≡◌, refl, List, [], ◌∷◌, ◌==◌, if◌then◌else◌, is_pos, minus_one,
  arith, length,
}
use socket_to_rdma.Base.Buffer.{Buffer, write, read, store, write_outside, read_congr}

pub record AddrInfo : Type 0 where
  pub ret : ℕ
  pub ai_family : ℕ
  -- the first 16 bytes at `ai_addr`
  pub ai_addr : List ℕ

-- AF_INET
abbrev pub inet : ℕ
inet = 2

abbrev pub default_rdma_port : ℕ
default_rdma_port = 12345

-- `htons(port)` stored at the port's place
abbrev pub put_port : ℕ → Buffer → Buffer
put_port port m = write m 2 (port / 256 % 256 ∷ (port % 256 ∷ []))

-- the zeroed structure with a family and an address
abbrev pub blank : List ℕ → Buffer
blank addr = write (store 2 (λ i. 0) 0 inet) 4 addr

unfoldable pub get_addr : AddrInfo → Buffer → ℕ × Buffer
get_addr info addr =
    let found = if info.ai_family == inet then write addr 0 info.ai_addr else addr in
    if info.ret == 0 then (info.ret, found) else (info.ret, addr)

-- the card's, which copies whatever the family is
unfoldable pub card_get_addr : AddrInfo → Buffer → ℕ × Buffer
card_get_addr info addr =
    if info.ret == 0 then (info.ret, write addr 0 info.ai_addr) else (info.ret, addr)

-- 127.0.0.1 stays where the name is not found, with port 0
unfoldable pub set_sockaddr : AddrInfo → Buffer
unfolding get_addr
set_sockaddr info =
    let r = get_addr info (blank (127 ∷ (0 ∷ (0 ∷ (1 ∷ []))))) in
    if r.0 == 0 then put_port default_rdma_port r.1 else r.1

-- `port` is an `int`
unfoldable pub set_server_r_info : AddrInfo → (port : ℕ) → ℕ × Buffer
unfolding card_get_addr
set_server_r_info info port =
    let r = card_get_addr info (blank (0 ∷ (0 ∷ (0 ∷ (0 ∷ []))))) in
    let set =
      if is_pos port then put_port (port % 2 ^ 16) r.1 else put_port default_rdma_port r.1 in
    if r.0 == 0 then (r.0, set) else r

-- what is written does not depend on what stood there
write_inside :
    (m k : Buffer) (off : ℕ) (bs : List ℕ) (i : ℕ)
    → off ≤ i
    → i < off + length bs
    → write m off bs i ≡ write k off bs i
unfolding write
write_inside m k off [] i p q = absurd (omega arith)
write_inside m k off (b ∷ bs) i p q =
    let m' : Buffer = λ j. if j == off then b else m j in
    let k' : Buffer = λ j. if j == off then b else k j in
    ground (
      arith,
      write_inside m' k' (off + 1) bs i,
      write_outside m' (off + 1) bs i,
      write_outside k' (off + 1) bs i,
    )

write_same :
    (m k : Buffer) (off : ℕ) (bs : List ℕ) (i : ℕ) → m i ≡ k i → write m off bs i ≡ write k off bs i
unfolding write
write_same m k off [] i h = h
write_same m k off (b ∷ bs) i h =
    write_same (λ j. if j == off then b else m j) (λ j. if j == off then b else k j) (off + 1) bs i
      (ground arith)

-- Where the server's name is found with an address of version 4, the host connects to the 16 bytes
-- that the card listens on: that address with the default port.
pub set_sockaddr-set_server_r_info :
    (info : AddrInfo)
    → info.ret ≡ 0
    → info.ai_family ≡ inet
    → length info.ai_addr ≡ 16
    → ((set_server_r_info info minus_one).0 ≡ 0)
      × (read (set_sockaddr info) 0 16 ≡ read (set_server_r_info info minus_one).1 0 16)
      × (read (set_sockaddr info) 0 16
          ≡ read (put_port default_rdma_port (write (λ i. 0) 0 info.ai_addr)) 0 16)
unfolding set_sockaddr set_server_r_info get_addr card_get_addr
set_sockaddr-set_server_r_info info found four whole =
    let bytes = info.ai_addr in
    let port = 12345 / 256 % 256 ∷ (12345 % 256 ∷ []) in
    let same : (m k : Buffer)
        → read (write (write m 0 bytes) 2 port) 0 16 ≡ read (write (write k 0 bytes) 2 port) 0 16 =
      λ m k.
        read_congr _ _ 0 16
          (λ i p q. write_same _ _ 2 port i (write_inside m k 0 bytes i p (omega arith))) in
    rw (found, four) (refl, same _ _, same _ _)
