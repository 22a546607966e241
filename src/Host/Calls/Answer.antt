-- ===== src/Host/Calls/Answer.antt =====
-- What a call of hook.c gets back through the link, before it fills the caller's objects.
use socket_to_rdma.Base.{
  true, some, if◌then◌else◌, is_neg, sign_extend, arith, Bool-cases, inl, inr, ℕ, ◌+◌, ◌^◌, ◌<◌,
  ◌≡◌, refl, true, false, Option, none, minus_one, ◌∙◌, ◌⊎◌,
}
use socket_to_rdma.Base.Buffer.{Buffer}
use socket_to_rdma.Card.Env.{Answer, Env}
use socket_to_rdma.Card.Server.{Card}
use socket_to_rdma.Card.Socket.{Done}
use socket_to_rdma.Card.Server.Errors.{is_read}
use socket_to_rdma.Card.Server.Replies.{PostsOk}
use socket_to_rdma.Card.Server.Work.{work, is_call, fits-other, answer_of}
use socket_to_rdma.Host.Calls.{with_data, ask_card}
use socket_to_rdma.Host.Client.{Return, returns, plain_result, take_result}
use socket_to_rdma.Host.Client.Exchange.{ask, asked}
use socket_to_rdma.Host.Client.Link.{Link, ReadsAtPost}
use socket_to_rdma.Host.Client.Requests.{asking, set_req_sock-work}
use socket_to_rdma.Host.Hook.{Process, zeros_at}
use socket_to_rdma.Host.Verbs.{Verbs}
use socket_to_rdma.Message.{RdmaReq, RtnMsg, code, req_socket, req_read}

-- a value that a call of the kernel documents: not negative, or -1
abbrev pub IsResult : ℕ → Type 0
IsResult v = (v < 2 ^ 31) ⊎ (v ≡ minus_one)

take_result-plain :
    (r : RdmaReq) (rtn : RtnMsg) (buf : Option Buffer)
    → is_read r ≡ false
    → let (ret, err) = plain_result (code r) rtn true in
      take_result (code r) rtn true buf ≡ (ret, err, buf)
unfolding take_result
take_result-plain req_read rtn buf h = cc
take_result-plain req_socket rtn buf h = refl
take_result-plain _ rtn buf h = refl

-- of such a value, whichever convention the request has, the caller gets the same
pub plain_result-IsResult :
    {W : Type 0} (req_rdma : ℕ) (rtn : RtnMsg) (a : Answer W)
    → IsResult a.value
    → rtn.rtn_value ≡ sign_extend a.value
    → (is_neg a.value ≡ true → rtn.errno_ ≡ a.errno)
    → plain_result req_rdma rtn true ≡ (a.value, if is_neg a.value then some a.errno else none)
plain_result-IsResult req_rdma rtn a h v e = elim (Bool-cases (is_neg a.value)) [
  | inl neg ↦ ground (arith, e neg)
  | inr pos ↦ ground arith
]

pub done-done :
    {W : Type 0} (k : Card W) (d e : Done W)
    → d.rtn ≡ e.rtn
    → d.world ≡ e.world
    → ◌≡◌ {A = Card W}
        (record k { rtn = d.rtn; world = d.world })
        (record k { rtn = e.rtn; world = e.world })
done-done k d e p q = λ i. record k { rtn = p i; world = q i }

module _ (env : Env) (verbs : Verbs) (link : Link env verbs)
    (prompt : ReadsAtPost env verbs link) where
  -- the card with the request of a call and its data
  abbrev pub card_asked : Process verbs.World → (sockfd : ℕ) → RdmaReq → Buffer → Card env.World
  card_asked p sockfd r m =
      asked env verbs link (ask env verbs link (with_data p.client m) sockfd r 0 0 zeros_at)

  -- what `set_req_sock` returns, by the message that the card's function stored
  abbrev pub answer :
      Process verbs.World → (sockfd : ℕ) → RdmaReq → Buffer → verbs.World → Return verbs.World
  answer p sockfd r m end =
      let (ret, err) = plain_result (code r) (work env r (card_asked p sockfd r m)).rtn true in
      record {
        ret = ret;
        errno = err;
        buf = none;
        client =
            record (asking env verbs link prompt (with_data p.client m) sockfd r 0 0 zeros_at) {
              world = end;
            };
      }

  pub ask_card-work :
      PostsOk env
      → (fuel : ℕ) (p : Process verbs.World) (sockfd : ℕ) (r : RdmaReq) (m : Buffer)
      → link.waits + 1 < fuel
      → sockfd < 2 ^ 32
      → is_call r ≡ true
      → is_read r ≡ false
      → (end : verbs.World) × (ask_card verbs fuel p sockfd r m ≡ returns (answer p sockfd r m end))
        × (link.card end ≡ answer_of env r (card_asked p sockfd r m))
        × (verbs.rtn end ≡ (work env r (card_asked p sockfd r m)).rtn)
  ask_card-work ok fuel p sockfd r m lf small call other =
      let k = card_asked p sockfd r m in
      let (end, back, now, held) =
        set_req_sock-work env verbs link prompt ok fuel (with_data p.client m) sockfd r 0 0 zeros_at
          none lf small call (fits-other env r k refl other) in
      (end, back ∙ rw (take_result-plain r (work env r k).rtn none other), now, held)
