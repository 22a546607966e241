-- ===== src/Card/Tests.antt =====
-- The card's theorems at a kernel that counts its calls: descriptor 9 is not open, and the rest of
-- the calls succeed.
use socket_to_rdma.Base.{
  ℕ, ◌+◌, ◌≡◌, refl, true, none, some, [], ◌∷◌, ◌++◌, ◌==◌, if◌then◌else◌, minus_one, arith,
}
use socket_to_rdma.Card.Env.{Answer, Env}
use socket_to_rdma.Card.Server.{Card, served, write_msg_to_client, rdma_req_event}
use socket_to_rdma.Card.Server.Replies.{posted, after_data, write_msg_twice}
use socket_to_rdma.Card.Server.Work.{answer_of, answer_reply, serve-work}
use socket_to_rdma.Hash.Table.{create_hash_table}
use socket_to_rdma.Message.{req_epoll_wait}
use socket_to_rdma.Wire.Epoll.{EpollEvent}
use socket_to_rdma.Wire.Poll.{PollFd}
use socket_to_rdma.Wire.Select.{SelectArgs}

abbrev pub says : ℕ → ℕ → Answer ℕ
says w v = record { value = v; errno = if v == minus_one then 9 else 0; world = w + 1 }

abbrev on_open : ℕ → ℕ → ℕ → Answer ℕ
on_open w fd v = says w (if fd == 9 then minus_one else v)

abbrev no_event : EpollEvent
no_event = record { events = 0; epoll_data = 0 }

abbrev no_pollfd : PollFd
no_pollfd = record { fd = 0; events = 0; revents = 0 }

abbrev no_sets : SelectArgs
no_sets = record { nfds = 0; readfds = none; writefds = none; exceptfds = none; timeout = none }

abbrev pub kernel : Env
kernel = record {
  World = ℕ;
  socket = λ w. says w 5;
  bind = λ w fd port. on_open w fd 0;
  listen = λ w fd backlog. on_open w fd 0;
  accept = λ w fd port. on_open w fd 6;
  close = λ w fd. on_open w fd 0;
  connect = λ w fd port. on_open w fd 0;
  send = λ w fd bytes size. says w size;
  read = λ w fd bytes size. (says w size, λ i. 65);
  select = λ w args. (says w 0, args);
  epoll_create1 = λ w flag. says w 7;
  epoll_ctl = λ w epfd op fd e. on_open w fd 0;
  epoll_wait = λ w epfd events maxevents timeout. (says w 0, events);
  poll = λ w fds nfds timeout. (says w 0, fds);
  fcntl = λ w fd cmd arg. on_open w fd 0;
  setsockopt = λ w fd level optname optval optlen. on_open w fd 0;
  getsockopt = λ w fd level optname optval optlen. (on_open w fd 0, (λ i. 0), optlen);
  getpeername = λ w fd addrlen addr. (on_open w fd 0, addrlen, addr);
  getsockname = λ w fd addrlen addr. (on_open w fd 0, addrlen, addr);
  post_send = λ w imm rtn. says w 0;
  uninit_select = no_sets;
  uninit_events = λ i. no_event;
  uninit_pollfds = λ i. no_pollfd;
}

-- a card whose last request has this code and descriptor, and whose return message this value
abbrev pub card : (req fd value : ℕ) → Card ℕ
card req fd value = record {
  req = record { rdma_req = req; buf_sz = 4; port = 8080; bytes = λ i. 0 };
  rtn = record { errno_ = 11; rtn_value = value; bytes = λ i. 66 };
  sockfd = fd;
  sock_ht = create_hash_table;
  world = 0;
  sent = [];
}

write_msg_twice_example :
    write_msg_to_client kernel (card 3 5 600000)
    ≡ some (0, after_data kernel (posted kernel (posted kernel (card 3 5 600000))))
write_msg_twice_example =
    write_msg_twice kernel (λ w imm rtn. refl) (card 3 5 600000) refl (omega arith) (omega arith)

-- an epoll_wait that the kernel answers with 0 events
serve-work_example :
    (rdma_req_event kernel 0 true (card 12 5 0)
      ≡ some (served (answer_of kernel req_epoll_wait (card 12 5 0))))
    × ((answer_of kernel req_epoll_wait (card 12 5 0)).sent
        ≡ [] ++ answer_reply kernel req_epoll_wait (card 12 5 0) ∷ [])
serve-work_example =
    serve-work kernel (λ w imm rtn. refl) 0 true req_epoll_wait (card 12 5 0) refl refl refl
