-- ===== src/Host/Calls/Tests.antt =====
-- The calls' theorems at a card whose kernel answers waits with events, over a link that delivers
-- at once.
use socket_to_rdma.Base.{
  ℕ, ◌+◌, ◌≡◌, refl, true, none, some, [], ◌∷◌, ◌++◌, if◌then◌else◌, ◌==◌, ltb, ◌&&◌, minus_one,
  arith, take, drop,
}
use socket_to_rdma.Base.Buffer.{le}
use socket_to_rdma.Card.Env.{Answer, Env}
use socket_to_rdma.Card.Server.{Card, done}
use socket_to_rdma.Card.Server.Errors.{answered}
use socket_to_rdma.Card.Server.Replies.{replied}
use socket_to_rdma.Card.Tests.{kernel, card}
use socket_to_rdma.Hash.Table.{create_hash_table, insert_by_value}
use socket_to_rdma.Hash.Murmur.{hash_function}
use socket_to_rdma.Hash.Fd.{fd_search_by_key}
use socket_to_rdma.Host.Calls.{
  filled, no_events, req_select_fd, req_epoll_ctl_fd, req_epoll_wait_fd, req_poll_fd,
  req_setsockopt_fd, req_getsockname_fd,
}
use socket_to_rdma.Host.Calls.Epoll.{ctl_asked, epoll_ctl-kernel}
use socket_to_rdma.Host.Calls.EpollWait.{wait_asked, wait_message, epoll_wait-kernel}
use socket_to_rdma.Host.Calls.Names.{name_asked, name_message, getsockname-kernel}
use socket_to_rdma.Host.Calls.Options.{sockopt_asked, keep_value, setsockopt-kernel}
use socket_to_rdma.Host.Calls.Poll.{first_of, poll_asked, poll_message, poll-kernel}
use socket_to_rdma.Host.Calls.Select.{lost_low, select-kernel}
use socket_to_rdma.Host.Client.Link.{Link, ReadsAtPost}
use socket_to_rdma.Host.Verbs.{Verbs}
use socket_to_rdma.Wire.Poll.{PollFd, PollFds}
use socket_to_rdma.Wire.Select.{SelectArgs, zeros, set_sz, tv_sz}
use socket_to_rdma.Wire.Select.Roundtrip.{objects}
use socket_to_rdma.Host.Hook.{Process, Call, zeros_at}
use socket_to_rdma.Host.Loopback.{wire, link, prompt}
use socket_to_rdma.Wire.Epoll.{EpollEvent, Events}

abbrev event : EpollEvent
event = record { events = 1; epoll_data = 77 }

abbrev on_7 : ℕ → ℕ → ℕ → Answer ℕ
on_7 w fd v = record {
  value = if fd == 7 then v else minus_one;
  errno = if fd == 7 then 0 else 9;
  world = w + 1;
}

-- two events on instance 7, and no such instance otherwise
abbrev ready : PollFd
ready = record { fd = 7; events = 1; revents = 1 }

abbrev sets : SelectArgs
sets = objects 8 (zeros set_sz) (zeros set_sz) (zeros set_sz) (zeros tv_sz)

abbrev busy_kernel : Env
busy_kernel = record kernel {
  epoll_wait = λ w epfd events maxevents timeout. (on_7 w epfd 2, λ i. event);
  poll = λ w fds nfds timeout. (on_7 w 7 1, λ i. ready);
  select = λ w args. (on_7 w 7 1, sets);
  getsockopt = λ w fd level optname optval optlen. (on_7 w fd 0, (λ i. 5), 4);
  getsockname = λ w fd addrlen addr. (on_7 w fd 0, 16, zeros 16);
  uninit_select = sets;
}

abbrev wire' : Verbs
wire' = wire busy_kernel

abbrev link' : Link busy_kernel wire'
link' = link busy_kernel

abbrev prompt' : ReadsAtPost busy_kernel wire' link'
prompt' = prompt busy_kernel

-- descriptors 7 and 8 are the card's
abbrev process : Process (Card ℕ)
process = record {
  fd_ht = (insert_by_value true (insert_by_value true create_hash_table 7 70).1 8 70).1;
  client = record {
    req = record { rdma_req = 0; buf_sz = 0; port = 0; bytes = λ i. 0 };
    sockfd = 0;
    world = card 0 0 0;
  };
}

epoll_ctl-kernel_example :
    (out : Call (Card ℕ)) × (req_epoll_ctl_fd wire' 2 process 7 1 5 (some event) ≡ filled out tt)
    × (out.ret ≡ 0)
    × (out.errno ≡ none)
    × (out.process.fd_ht ≡ process.fd_ht)
    × (out.process.client.world
        ≡ answered busy_kernel
            (ctl_asked busy_kernel wire' link' prompt' process 7 1 5 (some event))
            (record { value = 0; errno = 0; world = 3 }))
unfolding fd_search_by_key insert_by_value create_hash_table hash_function
epoll_ctl-kernel_example =
    epoll_ctl-kernel busy_kernel wire' link' prompt' (λ w imm rtn. refl) 2 process 7 1 5
      (some event) (record { value = 0; errno = 0; world = 3 }) (omega arith) refl (omega arith)
      (omega arith) (omega arith) (omega arith) refl (omega arith)

epoll_wait-kernel_example :
    (out : Call (Card ℕ)) × (got : Events) × (req_epoll_wait_fd wire' 2 process 7
        (some no_events)
        10
        0
      ≡ filled out (some got))
    × (out.ret ≡ 2)
    × (out.errno ≡ none)
    × (out.process.fd_ht ≡ process.fd_ht)
    × ((i : ℕ) → got i ≡ (if ltb i 2 && ltb i 84 then event else no_events i))
    × (out.process.client.world
        ≡ replied busy_kernel (
            done busy_kernel (wait_asked busy_kernel wire' link' prompt' process 7 10 0) (record {
              ret = 2;
              rtn = wait_message process.client.world.rtn 2 7 10 0 (λ i. event);
              world = 1;
            })))
unfolding fd_search_by_key insert_by_value create_hash_table hash_function
epoll_wait-kernel_example =
    epoll_wait-kernel busy_kernel wire' link' prompt' (λ w imm rtn. refl) 2 process 7 10 0 no_events
      (record { value = 2; errno = 0; world = 1 }) (λ i. event) (omega arith) refl (omega arith)
      (omega arith) (omega arith) refl (omega arith) (λ i h. omega arith)

-- a set to read, and no other
abbrev one_set : SelectArgs
one_set = record {
  nfds = 8;
  readfds = some (zeros set_sz);
  writefds = none;
  exceptfds = none;
  timeout = none;
}

select-kernel_example :
    (out : Call (Card ℕ)) × (got : SelectArgs) × (req_select_fd wire' 2 process one_set
      ≡ filled out got)
    × (out.ret ≡ 1)
    × (out.errno ≡ none)
    × (got.readfds ≡ some (lost_low (zeros set_sz)))
    × (got.writefds ≡ none)
    × (got.exceptfds ≡ none)
    × (got.timeout ≡ none)
unfolding fd_search_by_key insert_by_value create_hash_table hash_function
select-kernel_example =
    select-kernel busy_kernel wire' link' prompt' (λ w imm rtn. refl) 2 process one_set
      (zeros set_sz) (zeros set_sz) (zeros set_sz) (zeros tv_sz) (zeros set_sz) (zeros set_sz)
      (zeros set_sz) (zeros tv_sz) 8 8 (record { value = 1; errno = 0; world = 1 }) (omega arith)
      refl (omega arith) refl tt tt tt refl refl refl refl refl refl (omega arith) (omega arith)

abbrev asked_fds : PollFds
asked_fds = λ i. record { fd = 7; events = 1; revents = 0 }

poll-kernel_example :
    (out : Call (Card ℕ)) × (req_poll_fd wire' 2 process asked_fds 1 0
      ≡ filled out (first_of 1 (λ i. ready) asked_fds))
    × (out.ret ≡ 1)
    × (out.errno ≡ none)
    × (out.process.fd_ht ≡ process.fd_ht)
    × (out.process.client.world
        ≡ replied busy_kernel
            (record (poll_asked busy_kernel wire' link' prompt' process asked_fds 1 0) {
              rtn =
                  poll_message {W = ℕ} process.client.world.rtn
                    (record { value = 1; errno = 0; world = 1 })
                    (λ i. ready)
                    1
                    0;
              world = 1;
            }))
unfolding fd_search_by_key insert_by_value create_hash_table hash_function
poll-kernel_example =
    poll-kernel busy_kernel wire' link' prompt' (λ w imm rtn. refl) 2 process asked_fds (λ i. ready)
      1 0 (record { value = 1; errno = 0; world = 1 }) (omega arith) refl (omega arith)
      (omega arith) (omega arith) (λ i h. omega arith) (λ i h. omega arith) refl (omega arith)

setsockopt-kernel_example :
    (out : Call (Card ℕ)) × (req_setsockopt_fd wire' 2 process 7 1 2 zeros_at 4 ≡ filled out tt)
    × (out.ret ≡ 0)
    × (out.process.client.world
        ≡ replied busy_kernel
            (record (sockopt_asked busy_kernel wire' link' prompt' process 7 1 2 zeros_at 4) {
              rtn =
                  keep_value {W = ℕ} process.client.world.rtn
                    (record { value = 0; errno = 0; world = 1 });
              world = 1;
            }))
unfolding fd_search_by_key insert_by_value create_hash_table hash_function
setsockopt-kernel_example =
    setsockopt-kernel busy_kernel wire' link' prompt' (λ w imm rtn. refl) 2 process 7 1 2 zeros_at 4
      (record { value = 0; errno = 0; world = 1 }) (omega arith) refl (omega arith) (omega arith)
      (omega arith) (omega arith) refl

getsockname-kernel_example :
    (out : Call (Card ℕ)) × (req_getsockname_fd wire' 2
        (10 ∷ 0 ∷ 10 ∷ 22 ∷ [])
        process
        7
        (record { addrlen = 16; addr = zeros 16 })
      ≡ filled out (record {
        addrlen = 16;
        addr = le 4 16 ++ ((10 ∷ 0 ∷ 10 ∷ 22 ∷ []) ++ take 8 (drop 4 (zeros 16)));
      }))
    × (out.ret ≡ 0)
    × (out.process.fd_ht ≡ process.fd_ht)
    × (out.process.client.world
        ≡ replied busy_kernel
            (record (name_asked busy_kernel wire' link' prompt' process 7
              (record { addrlen = 16; addr = zeros 16 })) {
                rtn = name_message process.client.world.rtn 16 (zeros 16);
                world = 1;
              }))
unfolding fd_search_by_key insert_by_value create_hash_table hash_function
getsockname-kernel_example =
    getsockname-kernel busy_kernel wire' link' prompt' (λ w imm rtn. refl) 2 (10 ∷ 0 ∷ 10 ∷ 22 ∷ [])
      process 7 (record { addrlen = 16; addr = zeros 16 }) 16 (zeros 16)
      (record { value = 0; errno = 0; world = 1 }) (omega arith) refl (omega arith) (omega arith)
      refl refl refl refl refl
