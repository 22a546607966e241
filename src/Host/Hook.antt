-- ===== src/Host/Hook.antt =====
-- The calls of hook.c on one socket, for a thread that has its connection to the card. The table
-- tells the card's descriptors from the process's own, on which the C library's function is called.
-- `tid` is the caller's thread, and `malloc` says whether the allocation of a node succeeds.
pub mod Registered
pub mod Data
pub mod Tests
use socket_to_rdma.Base.{
  ℕ, ◌+◌, Bool, true, false, Option, none, some, List, [], ◌∷◌, ◌==◌, ltb, if◌then◌else◌, minus_one,
  is_neg, sign_extend,
}
use socket_to_rdma.Base.Buffer.{Buffer}
use socket_to_rdma.Card.Server.{clear}
use socket_to_rdma.Hash.Fd.{FdHashTable, fd_insert_by_value, fd_search_by_key, fd_delete_by_key}
use socket_to_rdma.Hash.Murmur.{hash_function}
use socket_to_rdma.Hash.Table.{Chain}
use socket_to_rdma.Host.Client.{Client, Outcome, returns, exits, waits, Return, set_req_sock}
use socket_to_rdma.Host.Verbs.{Verbs}
use socket_to_rdma.Message.{
  RdmaReq, code, buffer_size, req_socket, req_close, req_read, req_write, req_bind, req_listen,
  req_accept, req_connect,
}

pub record Process (W : Type 0) : Type 0 where
  pub fd_ht : FdHashTable
  pub client : Client W

pub record Call (W : Type 0) : Type 0 where
  pub ret : ℕ
  -- what is stored into `errno`, if anything is
  pub errno : Option ℕ
  pub buf : Option Buffer
  pub process : Process W

-- `original` is the C library's function on the same arguments
pub data Hooked (W : Type 0) : Type 0 where
  original : Hooked W
  called : Call W → Hooked W
  exited : W → Hooked W
  hangs : Hooked W

-- `searchByKey` on this table reads a node as one of the other table's: the 8 bytes of its `value`
-- are the `index` and padding, and the `int` that is taken of them is the index.
unfoldable pub head_index : ℕ → Chain → ℕ
head_index key [] = 0
head_index key (n ∷ c) = if n.key == key then n.index else 0

unfoldable pub misread_by_key : FdHashTable → ℕ → ℕ
unfolding head_index
misread_by_key t key = head_index key (t.table (hash_function key))

-- `struct sockaddr`, with the port in the host's byte order
pub data SockAddr : Type 0 where
  inet inet6 : (port : ℕ) → SockAddr
  other_family : SockAddr

abbrev pub port_of : SockAddr → ℕ
port_of (inet port) = port
port_of (inet6 port) = port
port_of other_family = 0

abbrev pub zeros_at : Buffer
zeros_at = λ i. 0

-- `memset(r_info->req.data, 0, BUFFER_SIZE)`
abbrev pub clear_data : {W : Type 0} → Client W → Client W
clear_data c = record c { req = record c.req { bytes = clear c.req.bytes buffer_size } }

module _ (verbs : Verbs) where
  -- the call ends with the exchange, or goes on with what it returned
  unfoldable pub then_call :
      Outcome verbs.World → (Return verbs.World → Call verbs.World) → Hooked verbs.World
  then_call (returns r) f = called (f r)
  then_call (exits w) f = exited w
  then_call waits f = hangs

  abbrev pub plain_call : FdHashTable → Return verbs.World → Call verbs.World
  plain_call t r = record {
    ret = r.ret;
    errno = r.errno;
    buf = r.buf;
    process = record { fd_ht = t; client = r.client };
  }

  -- the `ssize_t` of a read or write
  abbrev pub sized_call : FdHashTable → Return verbs.World → Call verbs.World
  sized_call t r = record (plain_call t r) { ret = sign_extend r.ret }

  -- the new descriptor is entered, or -1 is returned
  abbrev pub enter :
      (malloc : Bool)
      → (tid : ℕ) → (fd : ℕ) → FdHashTable
      → Return verbs.World
      → (ret : ℕ) → Call verbs.World
  enter malloc tid fd t r ret =
      let (ok, t') = fd_insert_by_value malloc t fd tid in
      record (plain_call t' r) { ret = if ok then ret else minus_one }

  unfoldable pub req_sock :
      (fuel tid : ℕ) → (malloc : Bool) → Process verbs.World → Hooked verbs.World
  unfolding then_call
  req_sock fuel tid malloc p =
      then_call (set_req_sock verbs fuel p.client 0 (code req_socket) 0 0 zeros_at true none) (λ r.
        if is_neg r.ret
        then record (plain_call p.fd_ht r) { ret = minus_one }
        else if ltb 2 r.ret
        then enter malloc tid r.ret p.fd_ht r r.ret
        else record (plain_call p.fd_ht r) { ret = minus_one })

  -- Once the request is made the descriptor is entered again, and the value is that of the insert.
  unfoldable pub req_connect_fd :
      (fuel : ℕ)
      → (malloc : Bool) → Process verbs.World
      → (sockfd : ℕ) → SockAddr
      → Hooked verbs.World
  unfolding then_call
  req_connect_fd fuel malloc p sockfd addr =
      let tid = misread_by_key p.fd_ht sockfd in
      let out =
        then_call
          (set_req_sock verbs fuel p.client sockfd (code req_connect) 0 (port_of addr) zeros_at true
            none)
          (λ r. enter malloc tid sockfd p.fd_ht r 1) in
      if tid == 0 then original else out

  -- a WRITE, behind which the data are cleared
  abbrev pub write_call :
      (fuel : ℕ) → Process verbs.World → (fd : ℕ) → Buffer → (size : ℕ) → Hooked verbs.World
  write_call fuel p fd message size =
      then_call (set_req_sock verbs fuel p.client fd (code req_write) size 0 message true none)
        (λ r. sized_call p.fd_ht (record r { client = clear_data r.client }))

  unfoldable pub req_send :
      (fuel : ℕ) → Process verbs.World → (fd : ℕ) → Buffer → (length : ℕ) → Hooked verbs.World
  unfolding then_call
  req_send fuel p fd message length =
      let out = write_call fuel p fd message length in
      if misread_by_key p.fd_ht fd == 0 then original else out

  unfoldable pub req_write_fd :
      (fuel : ℕ) → Process verbs.World → (fd : ℕ) → Buffer → (size : ℕ) → Hooked verbs.World
  unfolding then_call
  req_write_fd fuel p fd message size =
      let out = write_call fuel p fd message size in
      if fd_search_by_key p.fd_ht fd == 0 then original else out

  -- `read` and `recv` do the same; the message, which `read` passes, is not looked at
  abbrev pub read_call :
      (fuel : ℕ) → Process verbs.World → (fd : ℕ) → Buffer → (size : ℕ) → Hooked verbs.World
  read_call fuel p fd buf size =
      then_call (set_req_sock verbs fuel p.client fd (code req_read) size 0 buf true (some buf))
        (sized_call p.fd_ht)

  unfoldable pub req_read_fd :
      (fuel : ℕ) → Process verbs.World → (fd : ℕ) → Buffer → (size : ℕ) → Hooked verbs.World
  unfolding then_call
  req_read_fd fuel p fd buf size =
      let out = read_call fuel p fd buf size in
      if misread_by_key p.fd_ht fd == 0 then original else out

  unfoldable pub req_recv :
      (fuel : ℕ) → Process verbs.World → (fd : ℕ) → Buffer → (size : ℕ) → Hooked verbs.World
  unfolding then_call
  req_recv fuel p fd buf size =
      let out = read_call fuel p fd buf size in
      if misread_by_key p.fd_ht fd == 0 then original else out

  unfoldable pub req_close_fd : (fuel : ℕ) → Process verbs.World → (fd : ℕ) → Hooked verbs.World
  unfolding then_call
  req_close_fd fuel p fd =
      let out =
        then_call (set_req_sock verbs fuel p.client fd (code req_close) 0 0 zeros_at true none)
          (λ r. plain_call (fd_delete_by_key p.fd_ht fd).1 r) in
      if misread_by_key p.fd_ht fd == 0 then original else out

  -- The address is only printed, and the port is 8080.
  unfoldable pub req_bind_fd :
      (fuel : ℕ) → Process verbs.World → (fd : ℕ) → SockAddr → Hooked verbs.World
  unfolding then_call
  req_bind_fd fuel p fd addr =
      let out =
        then_call (set_req_sock verbs fuel p.client fd (code req_bind) 0 8080 zeros_at true none)
          (plain_call p.fd_ht) in
      if fd_search_by_key p.fd_ht fd == 0 then original else out

  unfoldable pub req_listen_fd :
      (fuel : ℕ) → Process verbs.World → (fd backlog : ℕ) → Hooked verbs.World
  unfolding then_call
  req_listen_fd fuel p fd backlog =
      let out =
        then_call (set_req_sock verbs fuel p.client fd (code req_listen) 0 0 zeros_at true none)
          (plain_call p.fd_ht) in
      if fd_search_by_key p.fd_ht fd == 0 then original else out

  unfoldable pub req_accept_fd :
      (fuel tid : ℕ) → (malloc : Bool) → Process verbs.World → (fd : ℕ) → Hooked verbs.World
  unfolding then_call
  req_accept_fd fuel tid malloc p fd =
      let out =
        then_call (set_req_sock verbs fuel p.client fd (code req_accept) 0 0 zeros_at true none)
          (λ r.
            if is_neg r.ret
            then plain_call p.fd_ht r
            else if r.ret == 0
            then plain_call p.fd_ht r
            else enter malloc tid r.ret p.fd_ht r r.ret) in
      if fd_search_by_key p.fd_ht fd == 0 then original else out
