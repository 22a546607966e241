-- ===== src/Rdma/Tests.antt =====
-- Buffers and addresses on concrete answers of the C library and the verbs library.
use socket_to_rdma.Base.{◌≡◌, ◌⊎◌, refl, true, false, none, some, [], ◌∷◌, minus_one}
use socket_to_rdma.Base.Buffer.{read, write}
use socket_to_rdma.Rdma.Buffers.{
  Mr, Memory, Allocator, take_out, rdma_buffer_alloc, rdma_buffer_free,
}
use socket_to_rdma.Rdma.Buffers.Lifetime.{IsBuffer, with_buffer, rdma_buffer_alloc-free}
use socket_to_rdma.Rdma.Address.{
  AddrInfo, inet, default_rdma_port, put_port, set_sockaddr, set_server_r_info, card_get_addr,
  set_sockaddr-set_server_r_info,
}

-- one block is in use, and the next comes behind it
abbrev in_use : Memory
in_use = record { allocated = 4096 ∷ []; registered = [] }

abbrev giving : Allocator
giving = record { calloc = λ m size. some 8192; reg_mr = λ m r. true }

abbrev refusing : Allocator
refusing = record giving { reg_mr = λ m r. false }

rdma_buffer_alloc-free_example :
    ((r : Mr) × IsBuffer true 1024 7 giving in_use r
      × (rdma_buffer_alloc giving true 1024 7 in_use ≡ (some r, with_buffer r in_use))
      × (rdma_buffer_free (some r) (with_buffer r in_use) ≡ in_use))
    ⊎ (rdma_buffer_alloc giving true 1024 7 in_use ≡ (none, in_use))
rdma_buffer_alloc-free_example = rdma_buffer_alloc-free giving true 1024 7 in_use

refused_is_freed : rdma_buffer_alloc refusing true 1024 7 in_use ≡ (none, in_use)
unfolding rdma_buffer_alloc take_out
refused_is_freed = refl

-- 10.0.10.2
abbrev server : AddrInfo
server = record {
  ret = 0;
  ai_family = inet;
  ai_addr = 2 ∷ 0 ∷ 0 ∷ 0 ∷ 10 ∷ 0 ∷ 10 ∷ 2 ∷ 0 ∷ 0 ∷ 0 ∷ 0 ∷ 0 ∷ 0 ∷ 0 ∷ 0 ∷ [];
}

set_sockaddr-set_server_r_info_example :
    ((set_server_r_info server minus_one).0 ≡ 0)
    × (read (set_sockaddr server) 0 16 ≡ read (set_server_r_info server minus_one).1 0 16)
    × (read (set_sockaddr server) 0 16
        ≡ read (put_port default_rdma_port (write (λ i. 0) 0 server.ai_addr)) 0 16)
set_sockaddr-set_server_r_info_example = set_sockaddr-set_server_r_info server refl refl refl

-- With a name that has an address of version 6 the card's family is 10 and the host's stays 2.
version_6 :
    read (card_get_addr (record server { ai_family = 10; ai_addr = 10 ∷ [] }) (λ i. 2)).1 0 1
    ≡ 10 ∷ []
unfolding card_get_addr read write
version_6 = refl
