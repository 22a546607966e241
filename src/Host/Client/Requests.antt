-- ===== src/Host/Client/Requests.antt =====
-- Any request of the enumeration that one function of snic/socket.c serves, through the link and
-- back: what set_req_sock returns, and what the card and the host's memory then hold.
use socket_to_rdma.Base.{ℕ, ◌+◌, ◌^◌, ◌<◌, ◌≡◌, refl, true, Option, [], ◌∷◌, ◌++◌, ◌∙◌, sym, ap}
use socket_to_rdma.Base.Buffer.{Buffer}
use socket_to_rdma.Card.Env.{Env}
use socket_to_rdma.Card.Server.{rdma_req_event}
use socket_to_rdma.Card.Server.Replies.{PostsOk}
use socket_to_rdma.Card.Server.Work.{work, is_call, fits, answer_of, answer_reply, serve-work}
use socket_to_rdma.Host.Client.{Client, set_req_sock}
use socket_to_rdma.Host.Client.Exchange.{
  hold, ask, asked, came_back, exchange-reply, set_req_sock-exchange,
}
use socket_to_rdma.Host.Client.Link.{Link, ReadsAtPost}
use socket_to_rdma.Host.Verbs.{Verbs}
use socket_to_rdma.Message.{RdmaReq, code}

module _ (env : Env) (verbs : Verbs) (link : Link env verbs)
    (prompt : ReadsAtPost env verbs link) where
  -- the client once the request is filled in and the buffer for the reply is posted
  abbrev pub asking :
      Client verbs.World → (sockfd : ℕ) → RdmaReq → (buf_sz port : ℕ) → Buffer → Client verbs.World
  asking c sockfd r buf_sz port message =
      record (ask env verbs link c sockfd r buf_sz port message) { world = verbs.post_recv c.world }

  -- A request that a function of snic/socket.c other than sock_epoll_create1 serves is served once,
  -- by that function, on the card as it stands with the request, and `set_req_sock` returns what is
  -- taken of the message that the function stored. Afterwards the card is as the dispatch leaves it,
  -- and the host's memory holds that message. The posts succeed, the data of a read fit one message,
  -- the card's device reads each reply before the card changes it (ReadsAtPost), and the fuel is two
  -- more than the waits of the link.
  pub set_req_sock-work :
      PostsOk env
      → (fuel : ℕ) (c : Client verbs.World) (sockfd : ℕ) (r : RdmaReq) (buf_sz port : ℕ)
        (message : Buffer) (buf : Option Buffer)
      → link.waits + 1 < fuel
      → sockfd < 2 ^ 32
      → is_call r ≡ true
      → fits env r (asked env verbs link (ask env verbs link c sockfd r buf_sz port message)) ≡ true
      → let k = asked env verbs link (ask env verbs link c sockfd r buf_sz port message) in
        (end : verbs.World) × (set_req_sock verbs fuel c sockfd
            (code r)
            buf_sz
            port
            message
            true
            buf
          ≡ came_back env verbs link
              (asking c sockfd r buf_sz port message)
              (code r)
              buf
              (answer_reply env r k)
              end)
        × (link.card end ≡ answer_of env r k)
        × (verbs.rtn end ≡ (work env r k).rtn)
  set_req_sock-work ok fuel c sockfd r buf_sz port message buf lf small call fit =
      let d = ask env verbs link c sockfd r buf_sz port message in
      let d' = asking c sockfd r buf_sz port message in
      let k = asked env verbs link d in
      let same : asked env verbs link d' ≡ k =
        ap (hold env verbs link d) (link.post_recv-card c.world) in
      let served' = serve-work env ok 0 true r k refl call fit in
      let (end, now, held, back) =
        exchange-reply env verbs link prompt fuel d' (code r) buf (answer_of env r k)
          (answer_reply env r k) lf small (ap (rdma_req_event env 0 true) same ∙ served'.0)
          (served'.1
            ∙ ap (λ q. q.sent ++ answer_reply env r k ∷ []) (sym (link.post_recv-card c.world))) in
      (
        end,
        set_req_sock-exchange env verbs link fuel c sockfd r buf_sz port message buf ∙ back,
        now,
        held,
      )
