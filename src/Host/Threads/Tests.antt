-- ===== src/Host/Threads/Tests.antt =====
-- Two threads over a device whose card answers 1 to every request.
use socket_to_rdma.Base.{ℕ, ◌+◌, ◌≡◌, refl, true, false, none, some, [], ◌==◌, if◌then◌else◌, arith}
use socket_to_rdma.Hash.Table.{create_hash_table, insert_by_value}
use socket_to_rdma.Hash.Table.Values.{nodes, erase_value}
use socket_to_rdma.Host.Client.{set_req_sock}
use socket_to_rdma.Host.Setup.{connect_server, client_disconnect_and_clean}
use socket_to_rdma.Host.Setup.Tests.{counting, counting-Documented}
use socket_to_rdma.Host.Setup.Resources.{all_made}
use socket_to_rdma.Host.Setup.Clean.{all_destroyed}
use socket_to_rdma.Hash.Fd.{fd_delete_by_value}
use socket_to_rdma.Host.Verbs.{Verbs}
use socket_to_rdma.Rdma.Held.{held_after}
use socket_to_rdma.Host.Threads.{RInfo, ready, ended, get_r_info, req_pthread_exit, with_tls}
use socket_to_rdma.Host.Threads.Own.{State, get_r_info-own}
use socket_to_rdma.Host.Threads.Exit.{Complete, req_pthread_exit-clean}

abbrev granting : Verbs
granting = record {
  World = ℕ;
  post_send = λ w imm req. record { value = 0; errno = 0; world = w + 1 };
  post_recv = λ w. w;
  get_cq_event = λ w. record { value = 0; errno = 0; world = w };
  ack_cq_events = λ w. w;
  req_notify_cq = λ w. record { value = 0; errno = 0; world = w };
  poll_cq = λ w wc. (
    record { value = 1; errno = 0; world = w },
    record { status = 0; opcode = 129; with_imm = true },
  );
  rtn = λ w. record { errno_ = 0; rtn_value = 1; bytes = λ i. 0 };
  recv_rdma_with_imm = 129;
  uninit_wc = record { status = 0; opcode = 0; with_imm = false };
}

-- the library's state at the set-up of a connection, and at its end
abbrev entered : ℕ → ℕ
entered w = if w == 2 then 30 else 0

abbrev raw : RInfo
raw = record {
  req = record { rdma_req = 0; buf_sz = 0; port = 0; bytes = λ i. 0 };
  sockfd = 0;
  ops = [];
}

abbrev Two : Type 0
Two = State granting counting entered (λ w f. w)

-- Thread 1 has a connection, and descriptor 7.
abbrev one : Two
one = record {
  world = 0;
  global = record raw { ops = all_made };
  tls = λ j. if j == 1 then some (record raw { ops = all_made }) else none;
  fd_ht = (insert_by_value true create_hash_table 7 1).1;
}

abbrev asked : ℕ → RInfo
asked request = record {
  req = record { rdma_req = request; buf_sz = 0; port = 0; bytes = λ i. 0 };
  sockfd = 0;
  ops = all_made;
}

abbrev own_2 : RInfo
own_2 = record raw { ops = all_made }

-- Thread 2 is given a connection.
abbrev two : Two
two = record one { world = 1; global = asked 19; tls = with_tls one.tls 2 (some own_2) }

found_2 : get_r_info granting counting entered (λ w f. w) 3 2 true raw one ≡ ready own_2 two
unfolding get_r_info set_req_sock connect_server
found_2 = refl

get_r_info-own_example :
    (get_r_info granting counting entered (λ w f. w) 0 2 false raw two ≡ ready own_2 two)
    × (two.tls 2 ≡ some own_2)
    × (two.tls 1 ≡ one.tls 1)
get_r_info-own_example =
    get_r_info-own granting counting entered (λ w f. w) 3 2 true raw own_2 one two 1 0 false raw
      found_2 (λ e. omega arith)

one-Complete : Complete granting counting entered (λ w f. w) counting-Documented one
one-Complete j r e = ground arith

abbrev closed_2 : RInfo
closed_2 = record (asked 20) { ops = all_destroyed all_made }

-- Thread 2 ends, which had no connection before.
abbrev without_2 : Two
without_2 = record two {
  world = 2;
  tls = with_tls two.tls 2 none;
  fd_ht = (fd_delete_by_value one.fd_ht 2).1;
}

exited_2 :
    req_pthread_exit granting counting entered (λ w f. w) 3 2 true raw one
    ≡ ended closed_2 without_2
unfolding req_pthread_exit set_req_sock connect_server client_disconnect_and_clean
exited_2 = refl

req_pthread_exit-clean_example :
    (held_after closed_2.ops [] ≡ some [])
    × (without_2.tls 2 ≡ none)
    × (without_2.tls 1 ≡ one.tls 1)
    × (nodes without_2.fd_ht ≡ erase_value 2 (nodes one.fd_ht))
    × Complete granting counting entered (λ w f. w) counting-Documented without_2
req_pthread_exit-clean_example =
    req_pthread_exit-clean granting counting entered (λ w f. w) counting-Documented 3 2 true raw
      closed_2 one without_2 1 one-Complete exited_2 (λ e. omega arith)
