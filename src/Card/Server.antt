-- ===== src/Card/Server.antt =====
-- The replies and the dispatch of snic/rdma_server.c. The state of a connection is the request and
-- the return message, the descriptor that came with the request, the two tables and the kernel.
-- The keys and the address of the host's memory, which no step changes, are left out, and what is
-- printed.
pub mod Replies
pub mod Errors
pub mod Work
use socket_to_rdma.Base.{
  ℕ, zero, suc, ◌+◌, ◌-◌, ◌%◌, ◌^◌, Bool, true, false, Option, none, some, List, [], ◌∷◌, ◌++◌,
  ◌==◌, ltb, if◌then◌else◌, is_neg, is_neg64, ◌&&◌, not, sign_extend, to_int, minus_one,
}
use socket_to_rdma.Base.Buffer.{Buffer, write}
use socket_to_rdma.Card.Env.{Env}
use socket_to_rdma.Card.Socket.{
  Done, sock_socket, sock_bind, sock_listen, sock_accept, sock_close, sock_connect,
  sock_send_message, sock_read_message, sock_select, sock_epoll_create1, sock_epoll_ctl,
  sock_epoll_wait, sock_poll, sock_fcntl, sock_setsockopt, sock_getsockopt, sock_getpeername,
  sock_getsockname,
}
use socket_to_rdma.Hash.Socket.{SocketHashTable, socket_insert_by_value}
use socket_to_rdma.Message
use socket_to_rdma.Message.{
  RdmaReq, request_of, ReqMsg, RtnMsg, buffer_size, htonl, code, req_socket, req_close, req_read,
  req_write, req_bind, req_listen, req_accept, req_connect, req_select, req_epoll_create1,
  req_epoll_ctl, req_epoll_wait, req_poll, req_fcntl, req_setsockopt, req_getsockopt,
  req_getpeername, req_getsockname, req_new_rdma_conn, req_del_rdma_conn,
}
use socket_to_rdma.Wire.Select.{zeros}

-- what a post carries: the immediate value and the return message as it stands
pub record Reply : Type 0 where
  pub imm : ℕ
  pub rtn : RtnMsg

pub record Card (W : Type 0) : Type 0 where
  pub req : ReqMsg
  pub rtn : RtnMsg
  pub sockfd : ℕ
  pub sock_ht : SocketHashTable
  pub world : W
  -- the replies posted without an error, the oldest first, each as it stood at its post
  pub sent : List Reply

-- `memset(m, 0, n)`
abbrev pub clear : Buffer → ℕ → Buffer
clear m n = λ i. if ltb i n then 0 else m i

abbrev pub header_sz : ℕ
header_sz = 12

-- `bytes_to_copy` of the loop; `total_size - offset` is positive
abbrev pub chunk : ℕ → ℕ
chunk left = if ltb left buffer_size then left else buffer_size - header_sz

abbrev pub log_reply : List Reply → ℕ → Reply → List Reply
log_reply sent ret reply = if ret == 0 then sent ++ reply ∷ [] else sent

module _ (env : Env) where
  -- The whole message, whatever length was set before, as it stands at the post. `ibv_post_send`
  -- returns before the device has read it, and nothing waits for the completion: what goes out is one
  -- of the messages that IsReadOf of Host/Client/Link allows.
  unfoldable pub post_write_rtn : Card env.World → ℕ × Card env.World
  post_write_rtn c =
      let reply : Reply = record { imm = htonl c.sockfd; rtn = c.rtn } in
      let a = env.post_send c.world reply.imm reply.rtn in
      (a.value, record c { world = a.world; sent = log_reply c.sent a.value reply })

  -- `while (offset < total_size)` over `left = total_size - offset`; `none` is out of fuel
  unfoldable pub write_loop : ℕ → (left : ℕ) → Card env.World → Option (ℕ × Card env.World)
  write_loop zero left c = none
  write_loop (suc fuel) zero c = some (0, c)
  write_loop (suc fuel) (suc n) c =
      let (ret, d) = post_write_rtn c in
      let rest = write_loop fuel (suc n - chunk (suc n)) d in
      if ret == 0 then rest else some (ret, d)

  abbrev pub is_data : Card env.World → Bool
  is_data c =
      c.req.rdma_req == code req_read && (not (is_neg64 c.rtn.rtn_value) && ltb 0 c.rtn.rtn_value)

  abbrev pub end_reply : ℕ × Card env.World → ℕ × Card env.World
  end_reply (ret, c) =
      if ret == 0 then (0, record c { rtn = record c.rtn { errno_ = 0 } }) else (ret, c)

  abbrev pub end_data : ℕ × Card env.World → ℕ × Card env.World
  end_data (ret, c) =
      if ret == 0
      then end_reply (0, record c { rtn = record c.rtn { bytes = clear c.rtn.bytes 8 } })
      else (ret, c)

  end_loop : Option (ℕ × Card env.World) → Option (ℕ × Card env.World)
  end_loop none = none
  end_loop (some r) = some (end_data r)

  -- The fuel is what is left to send and one more round.
  unfoldable pub write_msg_to_client : Card env.World → Option (ℕ × Card env.World)
  unfolding write_loop end_loop
  write_msg_to_client c =
      let total = header_sz + c.rtn.rtn_value in
      let all = end_loop (write_loop (suc total) total c) in
      if is_data c then all else some (end_reply (post_write_rtn c))

  -- `write_msg_to_client(c_info)` with its value not looked at
  unfoldable pub reply : Card env.World → Option (Card env.World)
  reply c = elim (write_msg_to_client c) [ none ↦ none | some (ret, d) ↦ some d ]

  abbrev pub done : Card env.World → Done env.World → Card env.World
  done c d = record c { rtn = d.rtn; world = d.world }

  -- what the dispatch goes on to: the next request, the set-up of a new connection, or the end of
  -- this one
  pub data Next : Type 0 where
    served : Card env.World → Next
    connects : Card env.World → Next
    disconnects : Card env.World → Next

  abbrev pub then_next : (Card env.World → Next) → Option (Card env.World) → Option Next
  then_next f none = none
  then_next f (some c) = some (f c)

  -- The case of `RDMA_REQ_EPOLL_CREATE1`, with the address of the fresh `struct socket_info`, and
  -- whether the table's node is allocated.
  unfoldable pub epoll_create :
      (info : ℕ) → (malloc : Bool) → Card env.World → Option (Card env.World)
  epoll_create info malloc c =
      let d = sock_epoll_create1 env c.req c.rtn c.world in
      let c' : Card env.World = done c d in
      if is_neg d.ret then reply c' else elim (reply (record c' { sockfd = d.ret })) [
        | none ↦ none
        | some e ↦
            some (record e { sock_ht = (socket_insert_by_value malloc e.sock_ht d.ret info).1 })
      ]

  abbrev pub after :
      (Card env.World → Card env.World) → Option (Card env.World) → Option (Card env.World)
  after f none = none
  after f (some c) = some (f c)

  -- `memset(c_info->req.data, 0, sizeof(struct req_msg))` is 14 bytes longer than `data`, and
  -- goes on over `rtn`, which stands next in the structure and is packed: its `errno_`, its
  -- `rtn_value` and two bytes of its `data`.
  abbrev pub clear_req : Card env.World → Card env.World
  clear_req c = record c {
    req = record c.req { bytes = clear c.req.bytes buffer_size };
    rtn = record { errno_ = 0; rtn_value = 0; bytes = clear c.rtn.bytes 2 };
  }

  -- `memset(c_info->rtn.data, 0, sizeof(struct rtn_msg))` goes on over the work request behind
  -- `rtn`, which is filled again before each use.
  abbrev pub clear_rtn : Card env.World → Card env.World
  clear_rtn c = record c { rtn = record c.rtn { bytes = clear c.rtn.bytes buffer_size } }

  unfoldable pub serve : (info : ℕ) → (malloc : Bool) → RdmaReq → Card env.World → Option Next
  serve info malloc req_socket c = then_next served (reply (done c (sock_socket env c.rtn c.world)))
  serve info malloc req_accept c =
      then_next served (reply (done c (sock_accept env c.rtn c.sockfd c.req.port c.world)))
  serve info malloc req_connect c =
      then_next served (reply (done c (sock_connect env c.rtn c.sockfd c.req.port c.world)))
  serve info malloc req_close c =
      then_next served (reply (done c (sock_close env c.rtn c.sockfd c.world)))
  serve info malloc req_read c =
      then_next served
        (reply (done c (sock_read_message env c.rtn c.sockfd (to_int c.req.buf_sz) c.world)))
  serve info malloc req_write c = then_next served (
      after clear_req (
        reply (
          done c (sock_send_message env c.rtn c.sockfd c.req.bytes (to_int c.req.buf_sz) c.world))))
  serve info malloc req_bind c =
      then_next served (reply (done c (sock_bind env c.rtn c.sockfd c.req.port c.world)))
  serve info malloc req_listen c =
      then_next served (reply (done c (sock_listen env c.rtn c.sockfd c.world)))
  serve info malloc req_select c =
      then_next served (after clear_rtn (reply (done c (sock_select env c.req c.rtn c.world))))
  serve info malloc req_epoll_create1 c = then_next served (epoll_create info malloc c)
  serve info malloc req_epoll_ctl c =
      then_next served (reply (done c (sock_epoll_ctl env c.req c.rtn c.world)))
  serve info malloc req_epoll_wait c =
      then_next served (reply (done c (sock_epoll_wait env c.req c.rtn c.world)))
  serve info malloc req_poll c =
      then_next served (reply (done c (sock_poll env c.req c.rtn c.world)))
  serve info malloc req_fcntl c =
      then_next served (reply (done c (sock_fcntl env c.req c.rtn c.sockfd c.world)))
  serve info malloc req_setsockopt c =
      then_next served (reply (done c (sock_setsockopt env c.req c.rtn c.sockfd c.world)))
  serve info malloc req_getsockopt c =
      then_next served (reply (done c (sock_getsockopt env c.req c.rtn c.sockfd c.world)))
  serve info malloc req_getpeername c =
      then_next served (reply (done c (sock_getpeername env c.req c.rtn c.sockfd c.world)))
  serve info malloc req_getsockname c =
      then_next served (reply (done c (sock_getsockname env c.req c.rtn c.sockfd c.world)))
  serve info malloc req_new_rdma_conn c =
      then_next connects (reply (record c { rtn = record c.rtn { rtn_value = 1 } }))
  serve info malloc req_del_rdma_conn c =
      then_next disconnects (reply (record c { rtn = record c.rtn { rtn_value = 1 } }))

  serve_code : (info : ℕ) → (malloc : Bool) → Option RdmaReq → Card env.World → Option Next
  unfolding serve
  serve_code info malloc (some r) c = serve info malloc r c
  serve_code info malloc none c =
      then_next served (reply (record c { rtn = record c.rtn { rtn_value = 2 ^ 64 - 1 } }))

  unfoldable pub rdma_req_event : (info : ℕ) → (malloc : Bool) → Card env.World → Option Next
  unfolding serve_code
  rdma_req_event info malloc c = serve_code info malloc (request_of c.req.rdma_req) c
