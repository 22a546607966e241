-- ===== src/Card/Server/Work.antt =====
-- Each request as one system call, one reply and what is cleared behind it, for snic/rdma_server.c.
use socket_to_rdma.Base.{
  ℕ, ◌+◌, ◌<◌, ◌≡◌, Bool, true, false, some, [], ◌∷◌, ◌++◌, arith, ◌∙◌, to_int, Bool-cases, inl,
  inr, if◌then◌else◌, not, ◌||◌, ltb,
}
use socket_to_rdma.Card.Env.{Env}
use socket_to_rdma.Card.Server.{
  Card, Reply, served, is_data, done, reply, clear_req, clear_rtn, serve, rdma_req_event,
}
use socket_to_rdma.Card.Server.Errors.{dispatch, no_data, is_read, reply-replied}
use socket_to_rdma.Card.Server.Replies.{
  reply_of, PostsOk, replied, posted, after_data, write_msg_data,
}
use socket_to_rdma.Card.Socket.{
  Done, sock_socket, sock_bind, sock_listen, sock_accept, sock_close, sock_connect,
  sock_send_message, sock_read_message, sock_select, sock_epoll_ctl, sock_epoll_wait, sock_poll,
  sock_fcntl, sock_setsockopt, sock_getsockopt, sock_getpeername, sock_getsockname,
}
use socket_to_rdma.Message.{
  RdmaReq, code, buffer_size, req_socket, req_close, req_read, req_write, req_bind, req_listen,
  req_accept, req_connect, req_select, req_epoll_create1, req_epoll_ctl, req_epoll_wait, req_poll,
  req_fcntl, req_setsockopt, req_getsockopt, req_getpeername, req_getsockname, req_new_rdma_conn,
  req_del_rdma_conn,
}

fits_small : (b : Bool) (n : ℕ) → b ≡ true → (not b || ltb n buffer_size) ≡ true → n < buffer_size
fits_small b n h fit = ground arith

-- the requests that a function of snic/socket.c serves, but for the opening of an epoll instance
abbrev pub is_call : RdmaReq → Bool
is_call req_epoll_create1 = false
is_call req_new_rdma_conn = false
is_call req_del_rdma_conn = false
is_call _ = true

module _ (env : Env) where
  -- the function of snic/socket.c that a request goes to
  abbrev pub work : RdmaReq → Card env.World → Done env.World
  work req_socket c = sock_socket env c.rtn c.world
  work req_accept c = sock_accept env c.rtn c.sockfd c.req.port c.world
  work req_connect c = sock_connect env c.rtn c.sockfd c.req.port c.world
  work req_close c = sock_close env c.rtn c.sockfd c.world
  work req_read c = sock_read_message env c.rtn c.sockfd (to_int c.req.buf_sz) c.world
  work req_write c = sock_send_message env c.rtn c.sockfd c.req.bytes (to_int c.req.buf_sz) c.world
  work req_bind c = sock_bind env c.rtn c.sockfd c.req.port c.world
  work req_listen c = sock_listen env c.rtn c.sockfd c.world
  work req_select c = sock_select env c.req c.rtn c.world
  work req_epoll_ctl c = sock_epoll_ctl env c.req c.rtn c.world
  work req_epoll_wait c = sock_epoll_wait env c.req c.rtn c.world
  work req_poll c = sock_poll env c.req c.rtn c.world
  work req_fcntl c = sock_fcntl env c.req c.rtn c.sockfd c.world
  work req_setsockopt c = sock_setsockopt env c.req c.rtn c.sockfd c.world
  work req_getsockopt c = sock_getsockopt env c.req c.rtn c.sockfd c.world
  work req_getpeername c = sock_getpeername env c.req c.rtn c.sockfd c.world
  work req_getsockname c = sock_getsockname env c.req c.rtn c.sockfd c.world
  work _ c = record { ret = 0; rtn = c.rtn; world = c.world }

  -- the state in which the call's reply is sent
  abbrev pub worked : RdmaReq → Card env.World → Card env.World
  worked r c = done env c (work r c)

  -- what stands between a reply and the next request
  abbrev pub cleared : RdmaReq → Card env.World → Card env.World
  cleared req_write c = clear_req env c
  cleared req_select c = clear_rtn env c
  cleared _ c = c

  serve-call :
      (info : ℕ) (malloc : Bool) (r : RdmaReq) (c d : Card env.World)
      → is_call r ≡ true
      → reply env (worked r c) ≡ some d
      → serve env info malloc r c ≡ some (served (cleared r d))
  unfolding serve
  serve-call info malloc req_socket c d h p = rw p
  serve-call info malloc req_write c d h p = rw p
  serve-call info malloc req_select c d h p = rw p
  serve-call info malloc req_epoll_create1 c d h p = cc
  serve-call info malloc req_new_rdma_conn c d h p = cc
  serve-call info malloc req_del_rdma_conn c d h p = cc
  serve-call info malloc _ c d h p = rw p

  -- the state behind the reply
  abbrev pub sent_reply : Card env.World → Card env.World
  sent_reply c = if is_data env c then after_data env (posted env c) else replied env c

  -- the state that a call's request leaves on the card
  abbrev pub answer_of : RdmaReq → Card env.World → Card env.World
  answer_of r c = cleared r (sent_reply (worked r c))

  -- the reply that a call's request gets
  abbrev pub answer_reply : RdmaReq → Card env.World → Reply
  answer_reply r c = reply_of env (worked r c)

  -- the data of a read, if there are any, fit one message with its header
  abbrev pub fits : RdmaReq → Card env.World → Bool
  fits r c = not (is_data env (worked r c)) || ltb ((work r c).rtn.rtn_value + 12) buffer_size

  pub fits-other :
      (r : RdmaReq) (c : Card env.World)
      → c.req.rdma_req ≡ code r
      → is_read r ≡ false
      → fits r c ≡ true
  fits-other r c e h = rw (no_data env r (worked r c) e h)

  data_reply :
      PostsOk env
      → (c : Card env.World) → is_data env c ≡ true
      → c.rtn.rtn_value + 12 < buffer_size
      → reply env c ≡ some (after_data env (posted env c))
  unfolding reply
  data_reply ok c h small = rw (write_msg_data env ok c h small, reply)

  sent_reply-sent : (c : Card env.World) → (sent_reply c).sent ≡ c.sent ++ reply_of env c ∷ []
  sent_reply-sent c = ground arith

  pub answer_of-sent :
      (r : RdmaReq) (c : Card env.World) → (answer_of r c).sent ≡ c.sent ++ answer_reply r c ∷ []
  answer_of-sent req_write c = sent_reply-sent (worked req_write c)
  answer_of-sent req_select c = sent_reply-sent (worked req_select c)
  answer_of-sent _ c = sent_reply-sent _

  reply-sent_reply :
      PostsOk env
      → (c : Card env.World)
      → (not (is_data env c) || ltb (c.rtn.rtn_value + 12) buffer_size) ≡ true
      → reply env c ≡ some (sent_reply c)
  reply-sent_reply ok c fit = elim (Bool-cases (is_data env c)) [
    | inl data' ↦ rw data' (data_reply ok c data' (fits_small _ _ data' fit))
    | inr plain ↦ rw plain (reply-replied env ok c plain)
  ]

  -- A request that a function of snic/socket.c other than sock_epoll_create1 serves calls that
  -- function once, on the request and the descriptor, and posts one reply, which holds, at its post,
  -- what the function stored; behind a reply the dispatch clears what the source clears. The posts
  -- succeed, and data of a read fit one message with its header.
  pub serve-work :
      PostsOk env
      → (info : ℕ) (malloc : Bool) (r : RdmaReq) (c : Card env.World) → c.req.rdma_req ≡ code r
      → is_call r ≡ true
      → fits r c ≡ true
      → (rdma_req_event env info malloc c ≡ some (served (answer_of r c)))
        × ((answer_of r c).sent ≡ c.sent ++ answer_reply r c ∷ [])
  serve-work ok info malloc r c e call fit = (
    dispatch env info malloc r c e
        ∙ serve-call info malloc r c (sent_reply (worked r c)) call
            (reply-sent_reply ok (worked r c) fit),
    answer_of-sent r c,
  )
