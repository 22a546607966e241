-- ===== src/Message.antt =====
-- The messages of rdma_common.h: a request, which the host writes into the card's memory, and a
-- return, which the card writes into the host's. The field `data` is a map of its bytes.
use socket_to_rdma.Base.{
  ℕ, ◌+◌, ◌*◌, ◌/◌, ◌%◌, ◌^◌, ◌<◌, ◌≡◌, refl, Option, none, some, List, [], ◌∷◌, arith, ◌==◌,
  if◌then◌else◌,
}
use socket_to_rdma.Base.Buffer.{Buffer}

abbrev pub buffer_size : ℕ
buffer_size = 600000

pub data RdmaReq : Type 0 where
  req_socket req_close req_read req_write req_bind req_listen req_accept req_connect req_select
        req_epoll_create1 req_epoll_ctl req_epoll_wait req_poll req_fcntl req_setsockopt
        req_getsockopt req_getpeername req_getsockname req_new_rdma_conn req_del_rdma_conn :
      RdmaReq

abbrev pub code : RdmaReq → ℕ
code req_socket = 1
code req_close = 2
code req_read = 3
code req_write = 4
code req_bind = 5
code req_listen = 6
code req_accept = 7
code req_connect = 8
code req_select = 9
code req_epoll_create1 = 10
code req_epoll_ctl = 11
code req_epoll_wait = 12
code req_poll = 13
code req_fcntl = 14
code req_setsockopt = 15
code req_getsockopt = 16
code req_getpeername = 17
code req_getsockname = 18
code req_new_rdma_conn = 19
code req_del_rdma_conn = 20

find_code : ℕ → List RdmaReq → Option RdmaReq
find_code c [] = none
find_code c (r ∷ rs) = if c == code r then some r else find_code c rs

-- the request that a `switch` over the code selects; none is the default
unfoldable pub request_of : ℕ → Option RdmaReq
unfolding find_code
request_of c = find_code c (
    req_socket ∷ req_close ∷ req_read ∷ req_write ∷ req_bind ∷ req_listen ∷ req_accept ∷ req_connect
    ∷ req_select ∷ req_epoll_create1 ∷ req_epoll_ctl ∷ req_epoll_wait ∷ req_poll ∷ req_fcntl
    ∷ req_setsockopt ∷ req_getsockopt ∷ req_getpeername ∷ req_getsockname ∷ req_new_rdma_conn
    ∷ req_del_rdma_conn ∷ [])

pub request_of-code : (r : RdmaReq) → request_of (code r) ≡ some r
unfolding request_of
request_of-code req_socket = refl
request_of-code _ = refl

pub record ReqMsg : Type 0 where
  pub rdma_req : ℕ
  pub buf_sz : ℕ
  pub port : ℕ
  pub bytes : Buffer

pub record RtnMsg : Type 0 where
  pub errno_ : ℕ
  pub rtn_value : ℕ
  pub bytes : Buffer

-- the order of the bytes of an `uint32_t` turned round; `ntohl` is the same function
unfoldable pub htonl : ℕ → ℕ
htonl x =
    x % 2 ^ 8 * 2 ^ 24
    + x / 2 ^ 8 % 2 ^ 8 * 2 ^ 16
    + x / 2 ^ 16 % 2 ^ 8 * 2 ^ 8
    + x / 2 ^ 24 % 2 ^ 8

pub htonl-htonl : (x : ℕ) → x < 2 ^ 32 → htonl (htonl x) ≡ x
unfolding htonl
htonl-htonl x h = omega arith
