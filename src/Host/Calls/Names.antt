-- ===== src/Host/Calls/Names.antt =====
-- getsockopt, getpeername and getsockname of the host, through the link: calls that read an answer
-- from the reply.
use socket_to_rdma.Base.{
  ℕ, ◌+◌, ◌^◌, ◌<◌, ◌≡◌, refl, true, List, ◌++◌, arith, ◌∙◌, ap, length, take, drop,
}
use socket_to_rdma.Base.Buffer.{
  Buffer, read, write, le, store, length-le, read-write_self, read-write_ne, read-write_in,
  read-append,
}
use socket_to_rdma.Card.Env.{Answer, Env}
use socket_to_rdma.Card.Server.{Card}
use socket_to_rdma.Card.Server.Replies.{PostsOk, replied}
use socket_to_rdma.Card.Server.Work.{work}
use socket_to_rdma.Card.Socket.{sock_getsockopt, sock_getsockname}
use socket_to_rdma.Host.Calls.{
  Address, filled, data_of, is_cards, rtn_of, own_address, take_own_address, req_getsockopt_fd,
  req_getsockname_fd,
}
use socket_to_rdma.Host.Calls.Answer.{card_asked, answer, ask_card-work}
use socket_to_rdma.Host.Calls.Options.{stale_value}
use socket_to_rdma.Host.Client.{Return, plain_result}
use socket_to_rdma.Host.Client.Link.{Link, ReadsAtPost}
use socket_to_rdma.Host.Hook.{Process, Call, plain_call}
use socket_to_rdma.Host.Verbs.{Verbs}
use socket_to_rdma.Message.{RtnMsg, code, req_getsockopt, req_getsockname}
use socket_to_rdma.Wire.Sockopt.{
  addr_sz, SockoptArgs, serialize_sockopt_dt, deserialize_sockopt_dt, sockopt_roundtrip,
  serialize_addr_dt, deserialize_addr_dt, addr_roundtrip,
}

-- The address that the caller of `getsockname` gets: the length of the kernel's address stands over
-- its family and port, then the client's IP, then the kernel's bytes from the fourth on, four places
-- too far.
own_address-shifted :
    (m : Buffer) (addrlen : ℕ) (addr ip : List ℕ)
    → length addr ≡ addr_sz
    → length ip ≡ 4
    → own_address (serialize_addr_dt m addrlen addr) ip
      ≡ le 4 addrlen ++ (ip ++ take 8 (drop 4 addr))
unfolding serialize_addr_dt store
own_address-shifted m addrlen addr ip h4 h =
    let k0 = store 4 m 0 addrlen in
    let k1 = write k0 4 addr in
    let k2 = write k1 4 ip in
    let first : read k2 0 4 ≡ le 4 addrlen =
      read-write_ne k1 4 ip 0 4 (omega arith)
      ∙ read-write_ne k0 4 addr 0 4 (omega arith)
      ∙ read-write_self m 0 (le 4 addrlen) 4 (length-le 4 addrlen) in
    let second : read k2 4 4 ≡ ip = read-write_self k1 4 ip 4 h in
    let third : read k2 8 8 ≡ take 8 (drop 4 addr) =
      read-write_ne k1 4 ip 8 8 (omega arith) ∙ read-write_in k0 4 addr 4 8 (omega arith) in
    read-append k2 0 4 12
    ∙ (λ i. first i ++ read-append k2 4 4 8 i)
    ∙ (λ i. le 4 addrlen ++ (second i ++ third i))

-- the message that the card stores of a `getsockname` that succeeds
abbrev pub name_message : RtnMsg → ℕ → List ℕ → RtnMsg
name_message rtn n name = record {
  errno_ = rtn.errno_;
  rtn_value = 0;
  bytes = serialize_addr_dt rtn.bytes n name;
}

module _ (env : Env) (verbs : Verbs) (link : Link env verbs)
    (prompt : ReadsAtPost env verbs link) where
  sockname-work :
      (k : Card env.World) (addrlen n : ℕ) (addr name : List ℕ) (a : Answer env.World)
      → deserialize_addr_dt k.req.bytes ≡ (addrlen, addr)
      → env.getsockname k.world k.sockfd addrlen addr ≡ (a, n, name)
      → a.value ≡ 0
      → ((work env req_getsockname k).rtn ≡ name_message k.rtn n name)
        × ((work env req_getsockname k).world ≡ a.world)
  unfolding sock_getsockname
  sockname-work k addrlen n addr name a e call zero' = rw (e, call, zero') (refl, refl)

  -- the card with a `getsockname` request of the process
  abbrev pub name_asked : Process verbs.World → (fd : ℕ) → Address → Card env.World
  name_asked p fd own =
      card_asked env verbs link prompt p fd req_getsockname
        (serialize_addr_dt (data_of verbs p) own.addrlen own.addr)

  take_own_address-zero :
      (ip : List ℕ) (r : Return verbs.World)
      → r.ret ≡ 0
      → take_own_address verbs ip r
        ≡ record { addrlen = addr_sz; addr = own_address (rtn_of verbs r).bytes ip }
  take_own_address-zero ip r h = rw h

  -- A `getsockname` on a descriptor of the card's that succeeds there makes that call once in the
  -- card's kernel, with the caller's address and length. The host returns 0 and the length 16, but the
  -- address is not the kernel's: the kernel's length stands over the family and the port, then comes
  -- the client's IP, and then the kernel's address from its fifth byte on. The table stays, and the
  -- card is left as it is behind its reply. Addresses have 16 bytes and the IP 4, the posts succeed,
  -- the card's device reads each reply before the card changes it (ReadsAtPost), and the fuel is two
  -- more than the waits of the link.
  pub getsockname-kernel :
      PostsOk env
      → (fuel : ℕ) (ip : List ℕ) (p : Process verbs.World) (fd : ℕ) (own : Address) (n : ℕ)
        (name : List ℕ) (a : Answer env.World)
      → link.waits + 1 < fuel
      → is_cards verbs p fd ≡ true
      → fd < 2 ^ 32
      → own.addrlen < 2 ^ 32
      → length own.addr ≡ addr_sz
      → length name ≡ addr_sz
      → length ip ≡ 4
      → env.getsockname (link.card p.client.world).world fd own.addrlen own.addr ≡ (a, n, name)
      → a.value ≡ 0
      → (out : Call verbs.World) × (req_getsockname_fd verbs fuel ip p fd own
          ≡ filled out (record { addrlen = 16; addr = le 4 n ++ (ip ++ take 8 (drop 4 name)) }))
        × (out.ret ≡ 0)
        × (out.process.fd_ht ≡ p.fd_ht)
        × (link.card out.process.client.world
            ≡ replied env (record (name_asked p fd own) {
              rtn = name_message (link.card p.client.world).rtn n name;
              world = a.world;
            }))
  unfolding req_getsockname_fd
  getsockname-kernel ok fuel ip p fd own n name a lf mine h0 h1 l0 l1 l2 call zero' =
      let m = serialize_addr_dt (data_of verbs p) own.addrlen own.addr in
      let k = card_asked env verbs link prompt p fd req_getsockname m in
      let (stored, world) =
        sockname-work k own.addrlen n own.addr name a
          (addr_roundtrip (data_of verbs p) own.addrlen own.addr h1 l0) call zero' in
      let (end, back, now, held) =
        ask_card-work env verbs link prompt ok fuel p fd req_getsockname m lf h0 refl refl in
      let r = answer env verbs link prompt p fd req_getsockname m end in
      let ret : r.ret ≡ 0 = ap (λ t. (plain_result (code req_getsockname) t true).0) stored in
      let address : take_own_address verbs ip r ≡ record {
        addrlen = addr_sz;
        addr = own_address (serialize_addr_dt k.rtn.bytes n name) ip;
      } =
        take_own_address-zero ip r ret
        ∙ ap (λ t. record { addrlen = addr_sz; addr = own_address t.bytes ip }) (held ∙ stored) in
      (
        plain_call verbs p.fd_ht r,
        rw (mine, back)
            (ap (filled (plain_call verbs p.fd_ht r)) (
              address
              ∙ ap (λ b. record { addrlen = addr_sz; addr = b })
                  (own_address-shifted k.rtn.bytes n name ip l1 l2))),
        ret,
        refl,
        now ∙ (λ i. replied env (record k { rtn = stored i; world = world i })),
      )

  getsockopt-work :
      (k : Card env.World) (args : SockoptArgs) (a : Answer env.World) (value : Buffer) (len : ℕ)
      → deserialize_sockopt_dt k.req.bytes ≡ args
      → env.getsockopt k.world k.sockfd args.level args.optname args.optval args.optlen
        ≡ (a, value, len)
      → a.value < 2 ^ 31
      → (work env req_getsockopt k).rtn ≡ record k.rtn {
        bytes = serialize_sockopt_dt k.rtn.bytes args.level args.optname value len;
      }
  unfolding sock_getsockopt
  getsockopt-work k args a value len e call small = rw (e, call) (ground arith)

  -- `getsockopt` on a descriptor of the card's makes that call in the card's kernel with the level,
  -- the name and the length that an earlier request left in the data, whatever the caller asks for.
  -- If it succeeds the caller gets the length of the option's value, but none of its bytes, and the
  -- value that the card's message last held. The posts succeed, and the fuel is two more than the
  -- waits of the link.
  pub getsockopt-stale :
      PostsOk env
      → (fuel : ℕ) (p : Process verbs.World) (fd level optname : ℕ) (left : SockoptArgs)
        (a : Answer env.World) (value : Buffer) (len : ℕ)
      → link.waits + 1 < fuel
      → is_cards verbs p fd ≡ true
      → fd < 2 ^ 32
      → deserialize_sockopt_dt (data_of verbs p) ≡ left
      → left.level < 2 ^ 32
      → left.optname < 2 ^ 32
      → len < 2 ^ 32
      → env.getsockopt
          (link.card p.client.world).world
          fd
          left.level
          left.optname
          left.optval
          left.optlen
        ≡ (a, value, len)
      → a.value < 2 ^ 31
      → (out : Call verbs.World) × (req_getsockopt_fd verbs fuel p fd level optname
          ≡ filled out len)
        × (out.ret ≡ stale_value (link.card p.client.world).rtn)
  unfolding req_getsockopt_fd
  getsockopt-stale ok fuel p fd level optname left a value len lf mine h0 held' h1 h2 h3 call
        small =
      let k = card_asked env verbs link prompt p fd req_getsockopt (data_of verbs p) in
      let stored = getsockopt-work k left a value len held' call small in
      let (end, back, now, held) =
        ask_card-work env verbs link prompt ok fuel p fd req_getsockopt (data_of verbs p) lf h0 refl
          refl in
      let r = answer env verbs link prompt p fd req_getsockopt (data_of verbs p) end in
      let length' =
        ap (λ t. (deserialize_sockopt_dt t.bytes).optlen) (held ∙ stored)
        ∙ ap (λ q. q.optlen)
            (sockopt_roundtrip k.rtn.bytes left.level left.optname value len h1 h2 h3) in
      (
        plain_call verbs p.fd_ht r,
        rw (mine, back) (ap (filled (plain_call verbs p.fd_ht r)) length'),
        ap (λ t. (plain_result (code req_getsockopt) t true).0) stored ∙ ground arith,
      )
