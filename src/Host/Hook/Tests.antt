-- ===== src/Host/Hook/Tests.antt =====
-- Reads and writes at the card's counting kernel, over a link that delivers at once.
use socket_to_rdma.Base.{ℕ, ◌+◌, ◌<◌, ◌≡◌, refl, none, some, true, arith, inl}
use socket_to_rdma.Base.Buffer.{Buffer}
use socket_to_rdma.Card.Env.{Answer}
use socket_to_rdma.Card.Server.{Card, clear_req}
use socket_to_rdma.Card.Server.Work.{sent_reply}
use socket_to_rdma.Card.Server.Replies.{replied}
use socket_to_rdma.Card.Tests.{kernel, card}
use socket_to_rdma.Hash.Fd.{fd_search_by_key}
use socket_to_rdma.Hash.Murmur.{hash_function}
use socket_to_rdma.Hash.Table.{create_hash_table, insert_by_value}
use socket_to_rdma.Host.Client.{copy}
use socket_to_rdma.Host.Hook.{
  Process, Call, called, misread_by_key, req_write_fd, req_read_fd, head_index,
}
use socket_to_rdma.Host.Hook.Data.{data_asked, size_stored, write-kernel, read-kernel, data_stored}
use socket_to_rdma.Host.Loopback.{wire, link, prompt}
use socket_to_rdma.Message.{req_read, req_write, buffer_size}

-- descriptor 7 is the card's
abbrev registered : Process (Card ℕ)
registered = record {
  fd_ht = (insert_by_value true create_hash_table 7 70).1;
  client = record {
    req = record { rdma_req = 0; buf_sz = 0; port = 0; bytes = λ i. 0 };
    sockfd = 0;
    world = card 0 0 0;
  };
}

abbrev hello : Buffer
hello = λ i. 72 + i

abbrev five : Answer ℕ
five = record { value = 5; errno = 0; world = 1 }

write-kernel_example :
    (out : Call (Card ℕ)) × (req_write_fd (wire kernel) 2 registered 7 hello 5 ≡ called out)
    × (out.ret ≡ 5)
    × (out.errno ≡ none)
    × (out.process.fd_ht ≡ registered.fd_ht)
    × ((i : ℕ) → i < buffer_size → out.process.client.req.bytes i ≡ 0)
    × (out.process.client.world
        ≡ clear_req kernel (
            replied kernel
              (record (data_asked kernel
                (wire kernel)
                (link kernel)
                (prompt kernel)
                registered
                7
                req_write
                5
                hello) { rtn = size_stored registered.client.world.rtn five; world = 1 })))
unfolding fd_search_by_key insert_by_value create_hash_table hash_function
write-kernel_example =
    write-kernel kernel (wire kernel) (link kernel) (prompt kernel) (λ w imm rtn. refl) 2 registered
      7 hello 5 five (omega arith) refl (omega arith) (omega arith) refl (inl (omega arith))

read-kernel_example :
    (out : Call (Card ℕ)) × (req_read_fd (wire kernel) 2 registered 7 hello 5 ≡ called out)
    × (out.ret ≡ 5)
    × (out.errno ≡ none)
    × (out.buf ≡ some (copy hello (λ i. 65) 5))
    × (out.process.fd_ht ≡ registered.fd_ht)
    × (out.process.client.world
        ≡ sent_reply kernel
            (record (data_asked kernel
              (wire kernel)
              (link kernel)
              (prompt kernel)
              registered
              7
              req_read
              5
              hello) { rtn = data_stored five (λ i. 65); world = 1 }))
unfolding misread_by_key head_index insert_by_value create_hash_table hash_function
read-kernel_example =
    read-kernel kernel (wire kernel) (link kernel) (prompt kernel) (λ w imm rtn. refl) 2 registered
      7 hello 5 five (λ i. 65) (omega arith) refl (omega arith) (omega arith) refl
      (inl (omega arith))
