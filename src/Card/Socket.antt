-- ===== src/Card/Socket.antt =====
-- snic/socket.c: one function for each call. Each takes the request and the return message, and
-- answers the C function's value, the return message and the kernel's state. What they print is
-- left out, and the NULL tests on the two messages, which are parts of one object.
use socket_to_rdma.Base.{
  ℕ, none, some, List, ◌==◌, if◌then◌else◌, minus_one, is_neg, is_neg64, sign_extend, to_int,
}
use socket_to_rdma.Base.Buffer.{Buffer}
use socket_to_rdma.Card.Env.{Answer, Env, pointer_to}
use socket_to_rdma.Message.{ReqMsg, RtnMsg}
use socket_to_rdma.Wire.Epoll.{
  deserialize_epoll_create_dt, deserialize_epoll_ctl_dt, deserialize_epoll_wait_dt,
  serialize_epoll_wait_dt,
}
use socket_to_rdma.Wire.Fcntl.{deserialize_fcntl_dt}
use socket_to_rdma.Wire.Poll.{deserialize_poll_pollfd, serialize_poll_pollfd}
use socket_to_rdma.Wire.Select.{deserialize_select_fd_set, serialize_select_fd_set}
use socket_to_rdma.Wire.Sockopt.{
  deserialize_sockopt_dt, serialize_sockopt_dt, deserialize_addr_dt, serialize_addr_dt,
}

-- a C function's value, the return message and the state that it leaves
pub record Done (W : Type 0) : Type 0 where
  pub ret : ℕ
  pub rtn : RtnMsg
  pub world : W

-- `rtn_msg_->rtn_value = v`, for an `int` v, and `rtn_msg_->errno_ = e`
abbrev pub set_value : RtnMsg → ℕ → RtnMsg
set_value rtn v = record rtn { rtn_value = sign_extend v }

abbrev pub set_errno : RtnMsg → ℕ → RtnMsg
set_errno rtn e = record rtn { errno_ = e }

-- the calls whose whole work is to store the value, and `errno` if the value is negative. (The
-- value of `sock_close`, a `void` function, is not used.)
abbrev pub store_answer : {W : Type 0} → RtnMsg → Answer W → Done W
store_answer rtn a =
    let rtn' = set_value rtn a.value in
    record {
      ret = a.value;
      rtn = if is_neg a.value then set_errno rtn' a.errno else rtn';
      world = a.world;
    }

-- the conversion of an `int` to a `bool`, which some of the functions return
abbrev to_bool : ℕ → ℕ
to_bool v = if v == 0 then 0 else 1

abbrev pub store_bool : {W : Type 0} → RtnMsg → Answer W → Done W
store_bool rtn a = record (store_answer rtn a) { ret = to_bool a.value }

module _ (env : Env) where
  -- `<= 0`: descriptor 0 counts as a failure here
  unfoldable pub sock_socket : RtnMsg → env.World → Done env.World
  sock_socket rtn w =
      let a = env.socket w in
      let rtn' = set_value rtn a.value in
      record {
        ret = a.value;
        rtn =
            if is_neg a.value
            then set_errno rtn' a.errno
            else if a.value == 0
            then set_errno rtn' a.errno
            else rtn';
        world = a.world;
      }

  unfoldable pub sock_bind : RtnMsg → (sockfd port : ℕ) → env.World → Done env.World
  sock_bind rtn sockfd port w = store_bool rtn (env.bind w sockfd port)

  unfoldable pub sock_listen : RtnMsg → (sockfd : ℕ) → env.World → Done env.World
  sock_listen rtn sockfd w = store_bool rtn (env.listen w sockfd 1024)

  unfoldable pub sock_accept : RtnMsg → (sockfd port : ℕ) → env.World → Done env.World
  sock_accept rtn sockfd port w = store_answer rtn (env.accept w sockfd port)

  unfoldable pub sock_close : RtnMsg → (sockfd : ℕ) → env.World → Done env.World
  sock_close rtn sockfd w = store_answer rtn (env.close w sockfd)

  unfoldable pub sock_connect : RtnMsg → (sockfd port : ℕ) → env.World → Done env.World
  sock_connect rtn sockfd port w = store_bool rtn (env.connect w sockfd port)

  -- `data_sz` is an `int`, and the call's size a `size_t`
  unfoldable pub sock_send_message :
      RtnMsg → (sockfd : ℕ) → Buffer → (data_sz : ℕ) → env.World → Done env.World
  sock_send_message rtn sockfd bytes data_sz w =
      let a = env.send w sockfd bytes (sign_extend data_sz) in
      let rtn' = record rtn { rtn_value = a.value } in
      record {
        ret = 0;
        rtn = if is_neg64 a.value then set_errno rtn' a.errno else rtn';
        world = a.world;
      }

  unfoldable pub sock_read_message : RtnMsg → (sockfd buf_sz : ℕ) → env.World → Done env.World
  sock_read_message rtn sockfd buf_sz w =
      let (a, bytes) = env.read w sockfd rtn.bytes (sign_extend buf_sz) in
      let rtn' : RtnMsg = record { errno_ = rtn.errno_; rtn_value = a.value; bytes = bytes } in
      record {
        ret = to_int a.value;
        rtn =
            if is_neg64 a.value
            then set_errno rtn' a.errno
            else if a.value == 0
            then set_errno rtn' a.errno
            else set_errno rtn' 0;
        world = a.world;
      }

  unfoldable pub sock_select : ReqMsg → RtnMsg → env.World → Done env.World
  sock_select req rtn w =
      let args = deserialize_select_fd_set req.bytes env.uninit_select in
      let (a, out) = env.select w args in
      let rtn' = set_value rtn a.value in
      record {
        ret = a.value;
        rtn =
            if a.value == minus_one
            then set_errno rtn' a.errno
            else if is_neg a.value
            then rtn'
            else if a.value == 0
            then rtn'
            else record rtn' {
              bytes =
                  serialize_select_fd_set rtn.bytes args.nfds out.readfds out.writefds out.exceptfds
                    out.timeout;
            };
        world = a.world;
      }

  unfoldable pub sock_epoll_create1 : ReqMsg → RtnMsg → env.World → Done env.World
  sock_epoll_create1 req rtn w =
      let a = env.epoll_create1 w (deserialize_epoll_create_dt req.bytes) in
      let rtn' = set_value rtn a.value in
      record {
        ret = a.value;
        rtn = if a.value == minus_one then set_errno rtn' a.errno else rtn';
        world = a.world;
      }

  -- two `fcntl(…, F_GETFD)` come first, to print
  unfoldable pub sock_epoll_ctl : ReqMsg → RtnMsg → env.World → Done env.World
  sock_epoll_ctl req rtn w =
      let args = deserialize_epoll_ctl_dt req.bytes in
      let w1 = (env.fcntl w args.epfd 1 none).world in
      let w2 = (env.fcntl w1 args.fd 1 none).world in
      let a = env.epoll_ctl w2 args.epfd args.op args.fd args.event in
      let rtn' = set_value rtn a.value in
      record {
        ret = if a.value == minus_one then minus_one else 0;
        rtn = if a.value == minus_one then set_errno rtn' a.errno else rtn';
        world = a.world;
      }

  -- `maxevents` is the host's. The array has 100 places, so this is the code where `maxevents` is at
  -- most 100; beyond that the kernel may write past the array.
  unfoldable pub sock_epoll_wait : ReqMsg → RtnMsg → env.World → Done env.World
  sock_epoll_wait req rtn w =
      let args = deserialize_epoll_wait_dt req.bytes none in
      let (a, events) = env.epoll_wait w args.epfd env.uninit_events args.maxevents args.timeout in
      let rtn' = set_value rtn a.value in
      record {
        ret = a.value;
        rtn = if a.value == minus_one then set_errno rtn' a.errno else record rtn' {
          bytes =
              serialize_epoll_wait_dt rtn.bytes a.value args.epfd args.maxevents args.timeout
                events;
        };
        world = a.world;
      }

  unfoldable pub sock_poll : ReqMsg → RtnMsg → env.World → Done env.World
  sock_poll req rtn w =
      let args = deserialize_poll_pollfd req.bytes env.uninit_pollfds none in
      let (a, fds) = env.poll w args.fds args.nfds args.timeout in
      let rtn' = set_value rtn a.value in
      record {
        ret = a.value;
        rtn = if is_neg a.value then set_errno rtn' a.errno else record rtn' {
          bytes = serialize_poll_pollfd rtn.bytes fds args.nfds (some args.timeout);
        };
        world = a.world;
      }

  -- The argument is the memory that deserialize_fcntl_dt has allocated for it: what is passed on is its
  -- address, also for a command that takes an `int`.
  unfoldable pub sock_fcntl : ReqMsg → RtnMsg → (sockfd : ℕ) → env.World → Done env.World
  sock_fcntl req rtn sockfd w =
      let args = deserialize_fcntl_dt req.bytes in
      let a =
        if args.flag == 0
        then env.fcntl w sockfd args.cmd none
        else env.fcntl w sockfd args.cmd (pointer_to args.arg) in
      let rtn' = set_value rtn a.value in
      record {
        ret = if is_neg a.value then minus_one else a.value;
        rtn = if is_neg a.value then set_errno rtn' a.errno else rtn';
        world = a.world;
      }

  -- The value is not stored into the return message.
  unfoldable pub sock_setsockopt : ReqMsg → RtnMsg → (sockfd : ℕ) → env.World → Done env.World
  sock_setsockopt req rtn sockfd w =
      let args = deserialize_sockopt_dt req.bytes in
      let a = env.setsockopt w sockfd args.level args.optname args.optval args.optlen in
      record {
        ret = if is_neg a.value then minus_one else a.value;
        rtn = if is_neg a.value then set_errno rtn a.errno else rtn;
        world = a.world;
      }

  unfoldable pub sock_getsockopt : ReqMsg → RtnMsg → (sockfd : ℕ) → env.World → Done env.World
  sock_getsockopt req rtn sockfd w =
      let args = deserialize_sockopt_dt req.bytes in
      let (a, optval, optlen) =
        env.getsockopt w sockfd args.level args.optname args.optval args.optlen in
      record {
        ret = if is_neg a.value then minus_one else a.value;
        rtn = if is_neg a.value then set_errno rtn a.errno else record rtn {
          bytes = serialize_sockopt_dt rtn.bytes args.level args.optname optval optlen;
        };
        world = a.world;
      }

  -- what `getpeername` and `getsockname` have in common: the reply holds the address
  abbrev pub store_addr : RtnMsg → Answer env.World × ℕ × List ℕ → Done env.World
  store_addr rtn (a, addrlen, addr) =
      let rtn' = set_value rtn a.value in
      record {
        ret = if is_neg a.value then minus_one else a.value;
        rtn =
            if is_neg a.value
            then set_errno rtn' a.errno
            else record rtn' { bytes = serialize_addr_dt rtn.bytes addrlen addr };
        world = a.world;
      }

  unfoldable pub sock_getpeername : ReqMsg → RtnMsg → (sockfd : ℕ) → env.World → Done env.World
  sock_getpeername req rtn sockfd w =
      let (addrlen, addr) = deserialize_addr_dt req.bytes in
      store_addr rtn (env.getpeername w sockfd addrlen addr)

  unfoldable pub sock_getsockname : ReqMsg → RtnMsg → (sockfd : ℕ) → env.World → Done env.World
  sock_getsockname req rtn sockfd w =
      let (addrlen, addr) = deserialize_addr_dt req.bytes in
      store_addr rtn (env.getsockname w sockfd addrlen addr)
