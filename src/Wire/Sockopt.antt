-- ===== src/Wire/Sockopt.antt =====
-- The layouts of setsockopt and getsockopt, and of getpeername and getsockname.
use socket_to_rdma.Base.{
  ℕ, ◌^◌, ◌<◌, ◌≡◌, inl, inr, Option, none, some, List, if◌then◌else◌, arith, ◌∙◌, length,
  Bool-cases, ltb,
}
use socket_to_rdma.Base.Buffer.{
  Buffer, store, load, write, read, load-store_self, load-store_ne, length-read, read-write_self,
  load-write_ne,
}

-- level at 0, name at 4, length at 8, and the value, read at a pointer, from 12. Nothing bounds the copy:
-- this is the code where `12 + optlen` is at most the 600000 bytes of the data, and beyond that the
-- source writes past the message.
unfoldable pub serialize_sockopt_dt :
    Buffer → (level optname : ℕ) → (optval : Buffer) → (optlen : ℕ) → Buffer
serialize_sockopt_dt m level optname optval optlen =
    let k = store 4 (store 4 (store 4 m 0 level) 4 optname) 8 optlen in
    if ltb 0 optlen then write k 12 (read optval 0 optlen) else k

pub record SockoptArgs : Type 0 where
  pub level : ℕ
  pub optname : ℕ
  pub optlen : ℕ
  pub optval : Option (List ℕ)

-- The value is a copy in fresh memory; with length 0 the pointer is not set.
unfoldable pub deserialize_sockopt_dt : Buffer → SockoptArgs
deserialize_sockopt_dt m =
    let optlen = load 4 m 8 in
    record {
      level = load 4 m 0;
      optname = load 4 m 4;
      optlen = optlen;
      optval = if ltb 0 optlen then some (read m 12 optlen) else none;
    }

-- `sizeof(struct sockaddr)`
abbrev pub addr_sz : ℕ
addr_sz = 16

unfoldable pub serialize_addr_dt : Buffer → (addrlen : ℕ) → List ℕ → Buffer
serialize_addr_dt m addrlen addr = write (store 4 m 0 addrlen) 4 addr

unfoldable pub deserialize_addr_dt : Buffer → ℕ × List ℕ
deserialize_addr_dt m = (load 4 m 0, read m 4 addr_sz)

-- An address comes back with its length.
pub addr_roundtrip :
    (m : Buffer) (addrlen : ℕ) (addr : List ℕ)
    → addrlen < 2 ^ 32
    → length addr ≡ addr_sz
    → deserialize_addr_dt (serialize_addr_dt m addrlen addr) ≡ (addrlen, addr)
unfolding serialize_addr_dt deserialize_addr_dt
addr_roundtrip m addrlen addr h e =
    let k = store 4 m 0 addrlen in
    let first = load-write_ne 4 k 4 addr 0 (omega arith) ∙ load-store_self 4 m 0 addrlen h in
    let second = read-write_self k 4 addr addr_sz e in ground arith

heads :
    (m : Buffer) (a b c : ℕ)
    → a < 2 ^ 32
    → b < 2 ^ 32
    → c < 2 ^ 32
    → let k = store 4 (store 4 (store 4 m 0 a) 4 b) 8 c in
      (load 4 k 0 ≡ a) × (load 4 k 4 ≡ b) × (load 4 k 8 ≡ c)
heads m a b c ha hb hc =
    let m1 = store 4 m 0 a in
    let m2 = store 4 m1 4 b in
    (
      load-store_ne 4 4 m2 8 0 c (omega arith)
          ∙ load-store_ne 4 4 m1 4 0 b (omega arith)
          ∙ load-store_self 4 m 0 a ha,
      load-store_ne 4 4 m2 8 4 c (omega arith) ∙ load-store_self 4 m1 4 b hb,
      load-store_self 4 m2 8 c hc,
    )

-- The level, the name, the length and all bytes of the value come back; no value comes with length 0.
pub sockopt_roundtrip :
    (m : Buffer) (level optname : ℕ) (optval : Buffer) (optlen : ℕ)
    → level < 2 ^ 32
    → optname < 2 ^ 32
    → optlen < 2 ^ 32
    → deserialize_sockopt_dt (serialize_sockopt_dt m level optname optval optlen) ≡ record {
      level = level;
      optname = optname;
      optlen = optlen;
      optval = if ltb 0 optlen then some (read optval 0 optlen) else none;
    }
unfolding serialize_sockopt_dt deserialize_sockopt_dt
sockopt_roundtrip m level optname optval optlen h0 h1 h2 =
    let k = store 4 (store 4 (store 4 m 0 level) 4 optname) 8 optlen in
    let bs = read optval 0 optlen in
    let (e0, e1, e2) = heads m level optname optlen h0 h1 h2 in
    let f0 = load-write_ne 4 k 12 bs 0 (omega arith) in
    let f1 = load-write_ne 4 k 12 bs 4 (omega arith) in
    let f2 = load-write_ne 4 k 12 bs 8 (omega arith) in
    let all = read-write_self k 12 bs optlen (length-read optval 0 optlen) in
    elim (Bool-cases (ltb 0 optlen)) [
      | inl yes' ↦ rw (yes', f0, f1, f2, e0, e1, e2, yes', all)
      | inr no' ↦ rw (no', e0, e1, e2, no')
    ]
