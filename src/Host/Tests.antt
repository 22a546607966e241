-- ===== src/Host/Tests.antt =====
-- The host's theorems over a link that hands each request to a card with a small kernel.
use socket_to_rdma.Base.{
  ℕ, ◌+◌, ◌≡◌, refl, true, false, ◌⊎◌, Option, none, some, [], ◌∷◌, ◌==◌, if◌then◌else◌, minus_one,
  arith,
}
use socket_to_rdma.Card.Env.{Answer}
use socket_to_rdma.Card.Server.{
  Card, done, Reply, post_write_rtn, rdma_req_event, write_msg_to_client,
}
use socket_to_rdma.Card.Server.Replies.{reply_of}
use socket_to_rdma.Card.Server.Errors.{answered}
use socket_to_rdma.Card.Socket.{store_answer, sock_read_message, sock_close}
use socket_to_rdma.Card.Tests.{kernel, card}
use socket_to_rdma.Card.Server.Work.{work, answer_of, answer_reply}
use socket_to_rdma.Host.Client.Requests.{asking, set_req_sock-work}
use socket_to_rdma.Hash.Murmur.{hash_function}
use socket_to_rdma.Hash.Table.{create_hash_table, insert_by_value}
use socket_to_rdma.Hash.Table.Entries.{entries, entries_of}
use socket_to_rdma.Host.Client.{
  Client, Outcome, Return, returns, process_rdma_get_cq_event, process_poll_cq_imm, set_req_sock,
}
use socket_to_rdma.Host.Client.Polling.{other, empty, Arrives, poll-Arrives}
use socket_to_rdma.Host.Client.Exchange.{
  ask, asked, came_back, set_req_sock-Plain, set_req_sock-Plain_late,
}
use socket_to_rdma.Host.Hook.{Process, Call, called, zeros_at, misread_by_key, req_close_fd}
use socket_to_rdma.Host.Hook.Registered.{req_close-entries}
use socket_to_rdma.Host.Loopback.{wire, link, prompt, late_wire, late_link, next_card}
use socket_to_rdma.Host.Verbs.{Verbs}
use socket_to_rdma.Message.{htonl, request_of, req_close, req_read}

abbrev client : Client (Card ℕ)
client = record {
  req = record { rdma_req = 0; buf_sz = 0; port = 0; bytes = λ i. 0 };
  sockfd = 0;
  world = card 0 0 0;
}

-- another completion first, and then an empty queue, on a device that counts the polls
abbrev busy : Verbs
busy = record {
  World = ℕ;
  post_send = λ w imm req. record { value = 0; errno = 0; world = w };
  post_recv = λ w. w;
  get_cq_event = λ w. record { value = 0; errno = 0; world = w };
  ack_cq_events = λ w. w;
  req_notify_cq = λ w. record { value = 0; errno = 0; world = w };
  poll_cq = λ w wc. (
    record { value = if w == 1 then 0 else 1; errno = 0; world = w + 1 },
    record { status = 0; opcode = if w == 0 then 1 else 129; with_imm = true },
  );
  rtn = λ w. record { errno_ = 0; rtn_value = 5; bytes = λ i. 0 };
  recv_rdma_with_imm = 129;
  uninit_wc = record { status = 0; opcode = 0; with_imm = false };
}

poll-Arrives_example : process_poll_cq_imm busy 4 0 ≡ some (1, 3)
unfolding process_rdma_get_cq_event Arrives
poll-Arrives_example = poll-Arrives busy 4 (other ∷ empty ∷ []) 0 3 (omega arith) refl (
  (λ e. omega arith),
  refl,
  (λ e. omega arith),
  (refl, refl, ((λ e. omega arith), refl, refl, refl, refl)),
)

-- the host's close of a descriptor that is not open on the card
set_req_sock-Plain_example :
    (out : Return (Card ℕ)) × (set_req_sock (wire kernel) 2 client 9 2 0 0 zeros_at true none
      ≡ returns out)
    × (out.ret ≡ minus_one)
    × (out.errno ≡ some 9)
    × (out.buf ≡ none)
    × (out.client.world
        ≡ answered kernel
            (asked kernel
              (wire kernel)
              (link kernel)
              (ask kernel (wire kernel) (link kernel) client 9 req_close 0 0 zeros_at))
            (record { value = minus_one; errno = 9; world = 1 }))
set_req_sock-Plain_example =
    set_req_sock-Plain kernel (wire kernel) (link kernel) (prompt kernel) (λ w imm rtn. refl) 2
      client 9 req_close 0 0 zeros_at none (record { value = minus_one; errno = 9; world = 1 })
      (omega arith) (omega arith) (omega arith) refl

-- the same over a device that reads late, where the host is told of an error 0
set_req_sock-Plain_late_example :
    (out : Return (Card ℕ)) × (e : ℕ) × (set_req_sock
        (late_wire kernel)
        2
        client
        9
        2
        0
        0
        zeros_at
        true
        none
      ≡ returns out)
    × (out.ret ≡ minus_one)
    × (out.errno ≡ some e)
    × ((e ≡ 9) ⊎ (e ≡ 0))
    × (out.buf ≡ none)
    × (out.client.world
        ≡ answered kernel
            (asked kernel
              (late_wire kernel)
              (late_link kernel)
              (ask kernel (late_wire kernel) (late_link kernel) client 9 req_close 0 0 zeros_at))
            (record { value = minus_one; errno = 9; world = 1 }))
set_req_sock-Plain_late_example =
    set_req_sock-Plain_late kernel (late_wire kernel) (late_link kernel) (λ w imm rtn. refl) 2
      client 9 req_close 0 0 zeros_at none (record { value = minus_one; errno = 9; world = 1 })
      (omega arith) (omega arith) (omega arith) refl

-- what the host gets of the result
abbrev told : Outcome (Card ℕ) → Option ℕ
told (returns r) = r.errno
told _ = none

late_errno : told (set_req_sock (late_wire kernel) 2 client 9 2 0 0 zeros_at true none) ≡ some 0
unfolding set_req_sock rdma_req_event request_of write_msg_to_client next_card
    socket_to_rdma.Card.Server.reply post_write_rtn sock_close htonl
late_errno = refl

-- what such a device makes of a request: the value 5
abbrev idle : Client ℕ
idle = record {
  req = record { rdma_req = 0; buf_sz = 0; port = 0; bytes = λ i. 0 };
  sockfd = 0;
  world = 0;
}

abbrev five : (fd req_rdma port : ℕ) → Return ℕ
five fd req_rdma port = record {
  ret = 5;
  errno = none;
  buf = none;
  client = record {
    req = record { rdma_req = req_rdma; buf_sz = 0; port = port; bytes = λ i. 0 };
    sockfd = fd;
    world = 3;
  };
}

-- descriptor 3 is the card's
abbrev process : Process ℕ
process = record { fd_ht = (insert_by_value true create_hash_table 3 70).1; client = idle }

req_close-entries_example :
    (k : Call ℕ) × (req_close_fd busy 4 process 3 ≡ called k)
    × (k.ret ≡ 5)
    × (entries_of k.process.fd_ht 3 ≡ [])
unfolding set_req_sock misread_by_key insert_by_value create_hash_table entries hash_function
req_close-entries_example =
    req_close-entries busy 4 process 3 (five 3 2 0) 3 (λ e. omega arith) refl

-- the hash of descriptor 2405 is 0
abbrev unlucky : Process ℕ
unlucky = record { fd_ht = (insert_by_value true create_hash_table 2405 70).1; client = idle }

-- a listen on descriptor 5
abbrev listening : Client (Card ℕ)
listening = record {
  req = record { rdma_req = 6; buf_sz = 0; port = 0; bytes = λ i. 0 };
  sockfd = 5;
  world = card 0 0 0;
}

abbrev said : Answer ℕ
said = record { value = 0; errno = 0; world = 1 }

abbrev listened : Card ℕ
listened = answered kernel (asked kernel (wire kernel) (link kernel) listening) said

abbrev reply : Reply
reply = reply_of kernel (
    done kernel (asked kernel (wire kernel) (link kernel) listening)
      (store_answer (asked kernel (wire kernel) (link kernel) listening).rtn said))

-- a read of four bytes on descriptor 5
set_req_sock-work_example :
    (end : Card ℕ) × (set_req_sock (wire kernel) 2 client 5 3 4 0 zeros_at true (some zeros_at)
      ≡ came_back kernel
          (wire kernel)
          (link kernel)
          (asking kernel (wire kernel) (link kernel) (prompt kernel) client 5 req_read 4 0 zeros_at)
          3
          (some zeros_at)
          (answer_reply kernel req_read (
            asked kernel
              (wire kernel)
              (link kernel)
              (ask kernel (wire kernel) (link kernel) client 5 req_read 4 0 zeros_at)))
          end)
    × (end
        ≡ answer_of kernel req_read (
            asked kernel
              (wire kernel)
              (link kernel)
              (ask kernel (wire kernel) (link kernel) client 5 req_read 4 0 zeros_at)))
    × ((wire kernel).rtn end
        ≡ (work kernel req_read (
            asked kernel
              (wire kernel)
              (link kernel)
              (ask kernel (wire kernel) (link kernel) client 5 req_read 4 0 zeros_at))).rtn)
unfolding sock_read_message
set_req_sock-work_example =
    set_req_sock-work kernel (wire kernel) (link kernel) (prompt kernel) (λ w imm rtn. refl) 2
      client 5 req_read 4 0 zeros_at (some zeros_at) (omega arith) (omega arith) refl refl
