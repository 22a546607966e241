-- ===== src/Host/Calls/Options.antt =====
-- fcntl, setsockopt and getsockopt of the host, through the link.
use socket_to_rdma.Base.{
  ℕ, ◌+◌, ◌^◌, ◌<◌, ◌≡◌, refl, true, none, some, if◌then◌else◌, is_neg, is_neg64, minus_one, to_int,
  ltb, ◌≤◌, arith, ◌∙◌, ap, sym, ◌==◌, Bool-cases, inl, inr, false,
}
use socket_to_rdma.Base.Buffer.{Buffer, read}
use socket_to_rdma.Card.Env.{Answer, Env, pointer_to}
use socket_to_rdma.Card.Server.{Card}
use socket_to_rdma.Card.Server.Replies.{PostsOk, replied}
use socket_to_rdma.Card.Server.Work.{work}
use socket_to_rdma.Card.Socket.{set_errno, sock_setsockopt}
use socket_to_rdma.Host.Calls.{filled, data_of, is_cards, VaArg, fcntl_arg, req_setsockopt_fd}
use socket_to_rdma.Host.Calls.Answer.{card_asked, answer, ask_card-work}
use socket_to_rdma.Host.Client.{plain_result, keeps_value}
use socket_to_rdma.Host.Client.Link.{Link, ReadsAtPost}
use socket_to_rdma.Host.Hook.{Process, Call, plain_call}
use socket_to_rdma.Host.Verbs.{Verbs}
use socket_to_rdma.Message.{RtnMsg, buffer_size, code, req_fcntl, req_setsockopt}
use socket_to_rdma.Wire.Fcntl.{FcntlArgs, fcntl_flag, serialize_fcntl_dt}
use socket_to_rdma.Wire.Sockopt.{
  SockoptArgs, serialize_sockopt_dt, deserialize_sockopt_dt, sockopt_roundtrip,
}

-- what a request whose value the card does not store returns: the value of an earlier reply
abbrev pub stale_value : RtnMsg → ℕ
stale_value rtn = if is_neg64 rtn.rtn_value then minus_one else to_int rtn.rtn_value

-- what the card stores of `setsockopt`, whatever `a` answers
abbrev pub keep_value : {W : Type 0} → RtnMsg → Answer W → RtnMsg
keep_value rtn a = if is_neg a.value then set_errno rtn a.errno else rtn

keep_value-stale :
    {W : Type 0} (req_rdma : ℕ) (rtn : RtnMsg) (a : Answer W)
    → keeps_value req_rdma ≡ false
    → (plain_result req_rdma (keep_value rtn a) true).0 ≡ stale_value rtn
keep_value-stale req_rdma rtn a h = elim (Bool-cases (is_neg a.value)) [
  | inl neg ↦ rw (neg, h) (ground arith)
  | inr pos ↦ rw (pos, h) (ground arith)
]

module _ (env : Env) where
  -- the card's call, by the arguments that it has read
  abbrev call_of : Card env.World → FcntlArgs → Answer env.World
  call_of k args =
      if args.flag == 0
      then env.fcntl k.world k.sockfd args.cmd none
      else env.fcntl k.world k.sockfd args.cmd (pointer_to args.arg)

  setsockopt-work :
      (k : Card env.World) (args : SockoptArgs) (a : Answer env.World)
      → deserialize_sockopt_dt k.req.bytes ≡ args
      → a ≡ env.setsockopt k.world k.sockfd args.level args.optname args.optval args.optlen
      → ((work env req_setsockopt k).rtn ≡ keep_value k.rtn a)
        × ((work env req_setsockopt k).world ≡ a.world)
  unfolding sock_setsockopt
  setsockopt-work k args a e call = let called = sym call in rw (e, called) (refl, refl)

module _ (env : Env) (verbs : Verbs) (link : Link env verbs)
    (prompt : ReadsAtPost env verbs link) where
  abbrev pub fcntl_asked : Process verbs.World → (cmd : ℕ) → VaArg → Card env.World
  fcntl_asked p cmd va =
      card_asked env verbs link prompt p (fcntl_flag cmd) req_fcntl
        (serialize_fcntl_dt (data_of verbs p) cmd (fcntl_arg cmd va)).0

  abbrev pub sockopt_asked :
      Process verbs.World → (fd level optname : ℕ) → Buffer → (optlen : ℕ) → Card env.World
  sockopt_asked p fd level optname optval optlen =
      card_asked env verbs link prompt p fd req_setsockopt
        (serialize_sockopt_dt (data_of verbs p) level optname optval optlen)

  -- `setsockopt` on a descriptor of the card's makes that call once in the card's kernel, with the
  -- caller's level, name and value, but returns what the card's message last said, and not the
  -- call's value. The card is left as it is behind its reply. The value fits the data of one message
  -- behind their 12 bytes, the posts succeed, the card's device reads each reply before the card
  -- changes it (ReadsAtPost), and the fuel is two more than the waits of the link.
  pub setsockopt-kernel :
      PostsOk env
      → (fuel : ℕ) (p : Process verbs.World) (fd level optname : ℕ) (optval : Buffer) (optlen : ℕ)
        (a : Answer env.World)
      → link.waits + 1 < fuel
      → is_cards verbs p fd ≡ true
      → fd < 2 ^ 32
      → level < 2 ^ 32
      → optname < 2 ^ 32
      → 12 + optlen ≤ buffer_size
      → a
        ≡ env.setsockopt
            (link.card p.client.world).world
            fd
            level
            optname
            (if ltb 0 optlen then some (read optval 0 optlen) else none)
            optlen
      → (out : Call verbs.World) × (req_setsockopt_fd verbs fuel p fd level optname optval optlen
          ≡ filled out tt)
        × (out.ret ≡ stale_value (link.card p.client.world).rtn)
        × (link.card out.process.client.world
            ≡ replied env (record (sockopt_asked p fd level optname optval optlen) {
              rtn = keep_value (link.card p.client.world).rtn a;
              world = a.world;
            }))
  unfolding req_setsockopt_fd
  setsockopt-kernel ok fuel p fd level optname optval optlen a lf mine h0 h1 h2 fit call =
      let h3 : optlen < 2 ^ 32 = omega arith in
      let k = sockopt_asked p fd level optname optval optlen in
      let m = serialize_sockopt_dt (data_of verbs p) level optname optval optlen in
      let (stored, world) =
        setsockopt-work env k
          (record {
            level = level;
            optname = optname;
            optlen = optlen;
            optval = if ltb 0 optlen then some (read optval 0 optlen) else none;
          })
          a (sockopt_roundtrip (data_of verbs p) level optname optval optlen h1 h2 h3) call in
      let (end, back, now, held) =
        ask_card-work env verbs link prompt ok fuel p fd req_setsockopt m lf h0 refl refl in
      let r = answer env verbs link prompt p fd req_setsockopt m end in
      (
        plain_call verbs p.fd_ht r,
        rw (mine, back) refl,
        ap (λ t. (plain_result (code req_setsockopt) t true).0) stored
            ∙ keep_value-stale (code req_setsockopt) k.rtn a refl,
        now ∙ (λ i. replied env (record k { rtn = stored i; world = world i })),
      )
