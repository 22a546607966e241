-- ===== src/Card/Server/Errors.antt =====
-- What the replies say: the call's value, and `errno` if it failed.
use socket_to_rdma.Base.{
  ℕ, ◌≡◌, ◌≢◌, inl, inr, refl, Bool, true, false, Option, none, some, arith, Option-cases, ◌∙◌, ap,
}
use socket_to_rdma.Card.Env.{Answer, Env}
use socket_to_rdma.Card.Socket.{
  sock_epoll_create1, store_answer, sock_close, sock_bind, sock_connect, sock_listen, sock_accept,
}
use socket_to_rdma.Card.Server.{
  Card, Next, served, is_data, done, then_next, after, epoll_create, reply, serve, rdma_req_event,
  serve_code,
}
use socket_to_rdma.Card.Server.Replies.{PostsOk, replied, write_msg_once, reply-ne-none}
use socket_to_rdma.Message.{
  RdmaReq, request_of, request_of-code, code, req_socket, req_close, req_read, req_write, req_bind,
  req_listen, req_accept, req_connect, req_select, req_epoll_create1,
}

abbrev pub is_read : RdmaReq → Bool
is_read req_read = true
is_read _ = false

module _ (env : Env) where
  then_next-ne-none :
      (f : Card env.World → Next env) (o : Option (Card env.World))
      → o ≢ none
      → then_next env f o ≢ none
  then_next-ne-none f none h = absurd (h refl)
  then_next-ne-none f (some c) h = λ e. cc

  after-ne-none :
      (f : Card env.World → Card env.World) (o : Option (Card env.World))
      → o ≢ none
      → after env f o ≢ none
  after-ne-none f none h = absurd (h refl)
  after-ne-none f (some c) h = λ e. cc

  epoll_create-ne-none :
      (info : ℕ) (malloc : Bool) (c : Card env.World) → epoll_create env info malloc c ≢ none
  unfolding epoll_create
  epoll_create-ne-none info malloc c =
      let d = sock_epoll_create1 env c.req c.rtn c.world in
      let c' = done env c d in
      ground (arith, reply-ne-none env c', reply-ne-none env (record c' { sockfd = d.ret }))

  serve-ne-none :
      (info : ℕ) (malloc : Bool) (r : RdmaReq) (c : Card env.World)
      → serve env info malloc r c ≢ none
  unfolding serve
  serve-ne-none info malloc req_socket c = then_next-ne-none _ _ (reply-ne-none env _)
  serve-ne-none info malloc req_write c =
      then_next-ne-none _ _ (after-ne-none _ _ (reply-ne-none env _))
  serve-ne-none info malloc req_select c =
      then_next-ne-none _ _ (after-ne-none _ _ (reply-ne-none env _))
  serve-ne-none info malloc req_epoll_create1 c =
      then_next-ne-none _ _ (epoll_create-ne-none info malloc c)
  serve-ne-none info malloc _ c = then_next-ne-none _ _ (reply-ne-none env _)

  -- The dispatch of a request, known or not, always ends, whatever the calls and the posts answer.
  pub rdma_req_event-ne-none :
      (info : ℕ) (malloc : Bool) (c : Card env.World) → rdma_req_event env info malloc c ≢ none
  unfolding rdma_req_event
  rdma_req_event-ne-none info malloc c = elim (Option-cases (request_of c.req.rdma_req)) [
    | inl unknown ↦ rw (unknown, serve_code) (then_next-ne-none _ _ (reply-ne-none env _))
    | inr (r, e) ↦ rw (e, serve_code) (serve-ne-none info malloc r c)
  ]

  pub reply-replied :
      PostsOk env
      → (c : Card env.World) → is_data env c ≡ false
      → reply env c ≡ some (replied env c)
  unfolding reply
  reply-replied ok c h = rw (write_msg_once env ok c h, reply)

  -- the switch goes to the case of the request's code
  pub dispatch :
      (info : ℕ) (malloc : Bool) (r : RdmaReq) (c : Card env.World)
      → c.req.rdma_req ≡ code r
      → rdma_req_event env info malloc c ≡ serve env info malloc r c
  unfolding rdma_req_event
  dispatch info malloc r c e =
      ap (λ o. serve_code env info malloc o c) (ap request_of e ∙ request_of-code r)

  pub no_data :
      (r : RdmaReq) (c : Card env.World)
      → c.req.rdma_req ≡ code r
      → is_read r ≡ false
      → is_data env c ≡ false
  no_data req_read c e h = absurd (ground arith)
  no_data _ c e h = ground arith

  -- what a state becomes when a call's answer is stored, replied and the next request awaited
  abbrev pub answered : Card env.World → Answer env.World → Card env.World
  answered c a = replied env (done env c (store_answer c.rtn a))

  -- The system call behind each request whose reply is the call's value and `errno` alone.
  abbrev pub Plain : RdmaReq → Card env.World → Answer env.World → Type 0
  Plain req_close c a = a ≡ env.close c.world c.sockfd
  Plain req_bind c a = a ≡ env.bind c.world c.sockfd c.req.port
  Plain req_connect c a = a ≡ env.connect c.world c.sockfd c.req.port
  Plain req_listen c a = a ≡ env.listen c.world c.sockfd 1024
  Plain req_accept c a = a ≡ env.accept c.world c.sockfd c.req.port
  Plain _ c a = ⊥

  -- A close, bind, connect, listen or accept request makes the system call once, on the request's
  -- descriptor and port, and is answered by one reply that holds the call's value and, if that is
  -- negative, its `errno`.
  pub serve-Plain :
      PostsOk env
      → (info : ℕ) (malloc : Bool) (r : RdmaReq) (c : Card env.World) (a : Answer env.World)
      → c.req.rdma_req ≡ code r
      → Plain r c a
      → rdma_req_event env info malloc c ≡ some (served (answered c a))
  unfolding serve
  serve-Plain ok info malloc req_close c a e h =
      dispatch info malloc req_close c e
      ∙ unfold sock_close in
        (let c' = done env c (sock_close env c.rtn c.sockfd c.world) in
          rw (h, reply-replied ok c' (no_data req_close c' e refl)))
  serve-Plain ok info malloc req_bind c a e h =
      dispatch info malloc req_bind c e
      ∙ unfold sock_bind in
        (let c' = done env c (sock_bind env c.rtn c.sockfd c.req.port c.world) in
          rw (h, reply-replied ok c' (no_data req_bind c' e refl)))
  serve-Plain ok info malloc req_connect c a e h =
      dispatch info malloc req_connect c e
      ∙ unfold sock_connect in
        (let c' = done env c (sock_connect env c.rtn c.sockfd c.req.port c.world) in
          rw (h, reply-replied ok c' (no_data req_connect c' e refl)))
  serve-Plain ok info malloc req_listen c a e h =
      dispatch info malloc req_listen c e
      ∙ unfold sock_listen in
        (let c' = done env c (sock_listen env c.rtn c.sockfd c.world) in
          rw (h, reply-replied ok c' (no_data req_listen c' e refl)))
  serve-Plain ok info malloc req_accept c a e h =
      dispatch info malloc req_accept c e
      ∙ unfold sock_accept in
        (let c' = done env c (sock_accept env c.rtn c.sockfd c.req.port c.world) in
          rw (h, reply-replied ok c' (no_data req_accept c' e refl)))
  serve-Plain ok info malloc _ c a e h = absurd h
