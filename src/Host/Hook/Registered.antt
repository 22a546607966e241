-- ===== src/Host/Hook/Registered.antt =====
-- What the calls do to the table of the card's descriptors.
use socket_to_rdma.Base.{
  ℕ, ◌≡◌, ◌≢◌, refl, ◌⊎◌, inl, inr, Bool, true, false, none, [], ◌∷◌, ◌++◌, ◌==◌, ltb,
  if◌then◌else◌, minus_one, is_neg, arith, ◌∙◌, ap, All, Bool-cases,
}
use socket_to_rdma.Base.Buffer.{Buffer}
use socket_to_rdma.Hash.Fd.{
  FdHashTable, fd_insert_by_value, fd_delete_by_key, fd_insert-eq, fd_delete-eq,
}
use socket_to_rdma.Hash.Murmur.{hash_function}
use socket_to_rdma.Hash.Table.{Chain}
use socket_to_rdma.Hash.Table.Entries.{entries_of, rest_of, insert-entries, delete-entries}
use socket_to_rdma.Hash.Table.Invariant.{IsValid, AtHome}
use socket_to_rdma.Host.Client.{returns, Return, set_req_sock}
use socket_to_rdma.Host.Hook.{
  Process, Call, original, called, head_index, misread_by_key, SockAddr, port_of, zeros_at,
  then_call, plain_call, enter, req_sock, req_connect_fd, req_send, req_read_fd, req_recv,
  req_close_fd,
}
use socket_to_rdma.Host.Verbs.{Verbs}
use socket_to_rdma.Message.{code, req_socket, req_connect, req_close}

head_index-home :
    (k i : ℕ) (c : Chain) → All (AtHome i) c → (head_index k c ≡ 0) ⊎ (head_index k c ≡ i)
unfolding head_index
head_index-home k i [] h = inl refl
head_index-home k i (n ∷ c) h = ground arith

misread-index :
    (t : FdHashTable) (k : ℕ)
    → IsValid t
    → (misread_by_key t k ≡ 0) ⊎ (misread_by_key t k ≡ hash_function k)
unfolding misread_by_key
misread-index t k valid =
    head_index-home k (hash_function k) (t.table (hash_function k)) (valid (hash_function k))

fd_insert-entries :
    (t : FdHashTable) (k v j : ℕ)
    → entries_of (fd_insert_by_value true t k v).1 j
      ≡ entries_of t j ++ (if k == j then v ∷ [] else [])
fd_insert-entries t k v j =
    ap (λ r. entries_of r.1 j) (fd_insert-eq true t k v) ∙ insert-entries t k v j

fd_insert-ok : (t : FdHashTable) (k v : ℕ) → (fd_insert_by_value true t k v).0 ≡ true
unfolding fd_insert_by_value
fd_insert-ok t k v = refl

fd_delete-entries :
    (t : FdHashTable) (k j : ℕ)
    → entries_of (fd_delete_by_key t k).1 j
      ≡ (if k == j then rest_of (entries_of t j) else entries_of t j)
fd_delete-entries t k j = ap (λ r. entries_of r.1 j) (fd_delete-eq t k) ∙ (delete-entries t k j).0

module _ (verbs : Verbs) where
  -- In a valid table, a descriptor whose hash is 0 is never taken for one of the card's by connect,
  -- send, read, recv and close, registered or not.
  pub bucket_zero-original :
      (fuel : ℕ) (malloc : Bool) (p : Process verbs.World) (fd : ℕ) (addr : SockAddr) (buf : Buffer)
      (size : ℕ)
      → IsValid p.fd_ht
      → hash_function fd ≡ 0
      → (req_connect_fd verbs fuel malloc p fd addr ≡ original)
        × (req_send verbs fuel p fd buf size ≡ original)
        × (req_read_fd verbs fuel p fd buf size ≡ original)
        × (req_recv verbs fuel p fd buf size ≡ original)
        × (req_close_fd verbs fuel p fd ≡ original)
  unfolding req_connect_fd req_send req_read_fd req_recv req_close_fd
  bucket_zero-original fuel malloc p fd addr buf size valid h =
      let zero' : misread_by_key p.fd_ht fd ≡ 0 = ground (arith, misread-index p.fd_ht fd valid) in
      (rw zero' refl, rw zero' refl, rw zero' refl, rw zero' refl, rw zero' refl)

  -- A new socket is entered in the table under its descriptor, behind what stood there, if the
  -- card's value is above 2; otherwise -1 is returned and the table stays as it is.
  pub req_sock-entries :
      (fuel tid : ℕ) (p : Process verbs.World) (r : Return verbs.World) (j : ℕ)
      → set_req_sock verbs fuel p.client 0 (code req_socket) 0 0 zeros_at true none ≡ returns r
      → let opened = if is_neg r.ret then false else ltb 2 r.ret in
        (k : Call verbs.World) × (req_sock verbs fuel tid true p ≡ called k)
        × (k.ret ≡ (if opened then r.ret else minus_one))
        × (entries_of k.process.fd_ht j ≡ (
            if opened
            then entries_of p.fd_ht j ++ (if r.ret == j then tid ∷ [] else [])
            else entries_of p.fd_ht j))
  unfolding req_sock then_call
  req_sock-entries fuel tid p r j e = elim (Bool-cases (is_neg r.ret)) [
    | inl neg ↦ (
      record (plain_call verbs p.fd_ht r) { ret = minus_one },
      rw (e, then_call, neg) refl,
      rw neg refl,
      rw neg refl,
    )
    | inr pos ↦ elim (Bool-cases (ltb 2 r.ret)) [
      | inl big ↦ (
        enter verbs true tid r.ret p.fd_ht r r.ret,
        rw (e, then_call, pos, big) refl,
        rw (pos, big, fd_insert-ok p.fd_ht r.ret tid) refl,
        rw (pos, big) (fd_insert-entries p.fd_ht r.ret tid j),
      )
      | inr low ↦ (
        record (plain_call verbs p.fd_ht r) { ret = minus_one },
        rw (e, then_call, pos, low) refl,
        rw (pos, low) refl,
        rw (pos, low) refl,
      )
    ]
  ]

  -- Connecting a descriptor of the card's returns 1 whatever the card answers, and enters the
  -- descriptor once more, with the index of its bucket for the thread.
  pub req_connect-entries :
      (fuel : ℕ) (p : Process verbs.World) (fd : ℕ) (addr : SockAddr) (r : Return verbs.World)
      (j : ℕ)
      → misread_by_key p.fd_ht fd ≢ 0
      → set_req_sock verbs fuel p.client fd (code req_connect) 0 (port_of addr) zeros_at true none
        ≡ returns r
      → (k : Call verbs.World) × (req_connect_fd verbs fuel true p fd addr ≡ called k)
        × (k.ret ≡ 1)
        × (k.process.client ≡ r.client)
        × (entries_of k.process.fd_ht j
            ≡ entries_of p.fd_ht j ++ (if fd == j then misread_by_key p.fd_ht fd ∷ [] else []))
  unfolding req_connect_fd then_call
  req_connect-entries fuel p fd addr r j known e =
      let known' : (misread_by_key p.fd_ht fd == 0) ≡ false = ground arith in
      let tid = misread_by_key p.fd_ht fd in
      (
        enter verbs true tid fd p.fd_ht r 1,
        rw (known', e, then_call) refl,
        rw (fd_insert-ok p.fd_ht fd tid) refl,
        refl,
        fd_insert-entries p.fd_ht fd tid j,
      )

  -- Closing a descriptor that searchByKey finds in the table of descriptors, which it reads with the
  -- other table's layout, returns what the card answers where the exchange returns, and drops the
  -- first entry of the descriptor and no other. A descriptor that is registered in bucket 0 is not
  -- found.
  pub req_close-entries :
      (fuel : ℕ) (p : Process verbs.World) (fd : ℕ) (r : Return verbs.World) (j : ℕ)
      → misread_by_key p.fd_ht fd ≢ 0
      → set_req_sock verbs fuel p.client fd (code req_close) 0 0 zeros_at true none ≡ returns r
      → (k : Call verbs.World) × (req_close_fd verbs fuel p fd ≡ called k)
        × (k.ret ≡ r.ret)
        × (entries_of k.process.fd_ht j
            ≡ (if fd == j then rest_of (entries_of p.fd_ht j) else entries_of p.fd_ht j))
  unfolding req_close_fd then_call
  req_close-entries fuel p fd r j known e =
      let known' : (misread_by_key p.fd_ht fd == 0) ≡ false = ground arith in
      (
        plain_call verbs (fd_delete_by_key p.fd_ht fd).1 r,
        rw (known', e, then_call) refl,
        refl,
        fd_delete-entries p.fd_ht fd j,
      )
