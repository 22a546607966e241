-- ===== src/Host/Calls/Select.antt =====
-- select of the host, through the link: the sets that the card's kernel gets, and what the caller's
-- sets hold afterwards.
use socket_to_rdma.Base.{
  is_pos, ℕ, ◌+◌, ◌^◌, ◌<◌, ◌≡◌, refl, true, none, some, List, ◌∷◌, if◌then◌else◌, sign_extend,
  arith, ◌∙◌, ap, inl, ◌&&◌, length, drop,
}
use socket_to_rdma.Base.Buffer.{Buffer}
use socket_to_rdma.Card.Env.{Answer, Env}
use socket_to_rdma.Card.Server.{Card}
use socket_to_rdma.Card.Server.Replies.{PostsOk}
use socket_to_rdma.Card.Server.Work.{work}
use socket_to_rdma.Card.Socket.{sock_select}
use socket_to_rdma.Host.Calls.{filled, data_of, is_cards, rtn_of, take_sets, req_select_fd}
use socket_to_rdma.Host.Calls.Answer.{card_asked, answer, plain_result-IsResult, ask_card-work}
use socket_to_rdma.Host.Client.{Return}
use socket_to_rdma.Host.Client.Link.{Link, ReadsAtPost}
use socket_to_rdma.Host.Hook.{Process, Call, plain_call}
use socket_to_rdma.Host.Verbs.{Verbs}
use socket_to_rdma.Message.{RtnMsg, code, req_select}
use socket_to_rdma.Wire.Select.{
  set_sz, tv_sz, Bytes?, SelectArgs, bytes_or_zeros, flag_of, sub32, serialize_select_fd_set,
  deserialize_select_fd_set,
}
use socket_to_rdma.Wire.Select.Roundtrip.{
  has, HasLength, clobber, objects, if_sent, sets_read, select_roundtrip,
}

-- the sets of the card's reply, which has all four objects, as a caller with these pointers reads
-- them
abbrev pub lost_low : List ℕ → List ℕ
lost_low bs = 4 ∷ 0 ∷ 0 ∷ drop 3 bs

abbrev pub into_set : Bytes? → List ℕ → Bytes?
into_set none bs = none
into_set (some old) bs = some bs

reply_sets :
    (m : Buffer) (n : ℕ) (rs ws es ts : List ℕ) (args : SelectArgs)
    → n < 2 ^ 32
    → length rs ≡ set_sz
    → length ws ≡ set_sz
    → length es ≡ set_sz
    → length ts ≡ tv_sz
    → let back =
        deserialize_select_fd_set
          (serialize_select_fd_set m n (some rs) (some ws) (some es) (some ts))
          args in
      (back.readfds ≡ into_set args.readfds (lost_low rs))
      × (back.writefds ≡ into_set args.writefds ws)
      × (back.exceptfds ≡ into_set args.exceptfds es)
unfolding deserialize_select_fd_set
reply_sets m n rs ws es ts args hn hr hw he ht =
    let (e0, e1, e2, e3, e4, e5) =
      sets_read m n (some rs) (some ws) (some es) (some ts) hn hr hw he ht in
    ground arith

module _ (env : Env) (verbs : Verbs) (link : Link env verbs)
    (prompt : ReadsAtPost env verbs link) where
  abbrev pub select_asked : Process verbs.World → SelectArgs → Card env.World
  select_asked p args = card_asked env verbs link prompt p 0 req_select (
      serialize_select_fd_set (data_of verbs p) args.nfds args.readfds args.writefds args.exceptfds
        args.timeout)

  -- what the card's kernel is given, from the caller's sets and the card's own objects
  abbrev pub sets_given : SelectArgs → (r w e t : List ℕ) → SelectArgs
  sets_given args r w e t =
      let flag = flag_of args.readfds args.writefds args.exceptfds args.timeout in
      objects args.nfds
        (if has args.readfds then clobber flag (bytes_or_zeros set_sz args.readfds) else r)
        (if_sent (has args.readfds) args.writefds w)
        (if_sent (has args.readfds && has args.writefds) args.exceptfds e)
        (if_sent (has args.readfds && has args.writefds && has args.exceptfds) args.timeout t)

  select-work :
      (k : Card env.World) (given : SelectArgs) (a : Answer env.World) (n : ℕ)
      (rs ws es ts : List ℕ)
      → deserialize_select_fd_set k.req.bytes env.uninit_select ≡ given
      → env.select k.world given ≡ (a, objects n rs ws es ts)
      → a.value < 2 ^ 31
      → 0 < a.value
      → (work env req_select k).rtn ≡ record {
        errno_ = k.rtn.errno_;
        rtn_value = sign_extend a.value;
        bytes =
            serialize_select_fd_set k.rtn.bytes given.nfds (some rs) (some ws) (some es) (some ts);
      }
  unfolding sock_select
  select-work k given a n rs ws es ts e call small pos = rw (e, call) (ground arith)

  -- the message's sets, as a caller with these pointers reads them
  abbrev read_back : SelectArgs → RtnMsg → SelectArgs
  read_back args t = deserialize_select_fd_set t.bytes (record args { timeout = none })

  take_sets-pos :
      (args : SelectArgs) (r : Return verbs.World)
      → is_pos r.ret ≡ true
      → let back = read_back args (rtn_of verbs r) in
        take_sets verbs args r ≡ record args {
          readfds = back.readfds;
          writefds = back.writefds;
          exceptfds = back.exceptfds;
        }
  take_sets-pos args r h = rw h

  -- A `select` that the host sends to the card and that answers a positive number returns that
  -- number. The kernel gets the caller's sets up to the first that is NULL, the card's own objects
  -- behind it, and the flag over the first three bytes of the first set. Of the kernel's answer the
  -- caller gets the sets it has, but in its first set the descriptors below 24 are always reported
  -- as the bytes 4, 0 and 0, whatever the kernel says of them. Each set has its 128 bytes and each
  -- timeout its 16, the posts succeed, the card's device reads each reply before the card clears its
  -- data (ReadsAtPost), and the fuel is two more than the waits of the link.
  pub select-kernel :
      PostsOk env
      → (fuel : ℕ) (p : Process verbs.World) (args : SelectArgs) (r w e t rs ws es ts : List ℕ)
        (n m : ℕ) (a : Answer env.World)
      → link.waits + 1 < fuel
      → is_cards verbs p (sub32 args.nfds 1) ≡ true
      → args.nfds < 2 ^ 32
      → HasLength set_sz args.readfds
      → HasLength set_sz args.writefds
      → HasLength set_sz args.exceptfds
      → HasLength tv_sz args.timeout
      → length rs ≡ set_sz
      → length ws ≡ set_sz
      → length es ≡ set_sz
      → length ts ≡ tv_sz
      → env.uninit_select ≡ objects n r w e t
      → env.select (link.card p.client.world).world (sets_given args r w e t)
        ≡ (a, objects m rs ws es ts)
      → a.value < 2 ^ 31
      → 0 < a.value
      → (out : Call verbs.World) × (got : SelectArgs) × (req_select_fd verbs fuel p args
          ≡ filled out got)
        × (out.ret ≡ a.value)
        × (out.errno ≡ none)
        × (got.readfds ≡ into_set args.readfds (lost_low rs))
        × (got.writefds ≡ into_set args.writefds ws)
        × (got.exceptfds ≡ into_set args.exceptfds es)
        × (got.timeout ≡ args.timeout)
  unfolding req_select_fd
  select-kernel ok fuel p args r w e t rs ws es ts n m a lf mine hn hr hw he ht lr lw le' lt' own
        call small pos =
      let k = select_asked p args in
      let d =
        serialize_select_fd_set (data_of verbs p) args.nfds args.readfds args.writefds
          args.exceptfds args.timeout in
      let given =
        ap (deserialize_select_fd_set d) own
        ∙ select_roundtrip (data_of verbs p) args.nfds n args.readfds args.writefds args.exceptfds
            args.timeout r w e t hn hr hw he ht in
      let stored = select-work k (sets_given args r w e t) a m rs ws es ts given call small pos in
      let (end, back, now, held) =
        ask_card-work env verbs link prompt ok fuel p 0 req_select d lf (omega arith) refl refl in
      let v = answer env verbs link prompt p 0 req_select d end in
      let value =
        plain_result-IsResult (code req_select) (work env req_select k).rtn a (inl small)
          (rw stored refl) (λ neg. absurd (ground arith)) in
      let (b0, b1, b2) =
        reply_sets k.rtn.bytes args.nfds rs ws es ts (record args { timeout = none }) hn lr lw le'
          lt' in
      let message = ap (read_back args) (held ∙ stored) in
      let ret : v.ret ≡ a.value = ap (λ u. u.0) value in
      let taken = take_sets-pos args v (ap is_pos ret ∙ ground arith) in
      (
        plain_call verbs p.fd_ht v,
        take_sets verbs args v,
        rw (mine, back) refl,
        ret,
        ap (λ u. u.1) value ∙ ground arith,
        ap (λ u. u.readfds) taken ∙ ap (λ u. u.readfds) message ∙ b0,
        ap (λ u. u.writefds) taken ∙ ap (λ u. u.writefds) message ∙ b1,
        ap (λ u. u.exceptfds) taken ∙ ap (λ u. u.exceptfds) message ∙ b2,
        ap (λ u. u.timeout) taken,
      )
