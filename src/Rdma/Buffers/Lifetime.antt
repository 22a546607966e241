-- ===== src/Rdma/Buffers/Lifetime.antt =====
-- What an allocation leaves, and that its end undoes it.
use socket_to_rdma.Base.{
  ℕ, ◌≡◌, refl, ◌⊎◌, inl, inr, Bool, true, false, Option, none, some, ◌∷◌, ◌==◌, arith, Bool-cases,
}
use socket_to_rdma.Rdma.Buffers.{
  Mr, Memory, Allocator, take_out, rdma_buffer_register, kept_or, registered_or, rdma_buffer_alloc,
  rdma_buffer_deregister, rdma_buffer_free,
}

-- a buffer of this size, and the region on it
abbrev pub with_buffer : Mr → Memory → Memory
with_buffer r m = record { allocated = r.addr ∷ m.allocated; registered = r ∷ m.registered }

abbrev pub IsBuffer : (pd : Bool) → (size permission : ℕ) → Allocator → Memory → Mr → Type 0
IsBuffer pd size permission alloc m r =
    (pd ≡ true) × (alloc.calloc m size ≡ some r.addr) × (r.length ≡ size) × (r.access ≡ permission)

free-with_buffer : (r : Mr) (m : Memory) → rdma_buffer_free (some r) (with_buffer r m) ≡ m
unfolding rdma_buffer_free rdma_buffer_deregister take_out
free-with_buffer r m = let same : (r.addr == r.addr) ≡ true = ground arith in rw same refl

-- the end of an allocation, by what `calloc` gave
ends_from :
    (alloc : Allocator) (size permission : ℕ) (m : Memory) (got : Option ℕ)
    → alloc.calloc m size ≡ got
    → ((r : Mr) × IsBuffer true size permission alloc m r
        × (registered_or alloc true size permission got m ≡ (some r, with_buffer r m))
        × (rdma_buffer_free (some r) (with_buffer r m) ≡ m))
      ⊎ (registered_or alloc true size permission got m ≡ (none, m))
unfolding registered_or rdma_buffer_register kept_or take_out
ends_from alloc size permission m none given = inr refl
ends_from alloc size permission m (some buf) given =
    let r : Mr = record { addr = buf; length = size; access = permission } in
    let m1 : Memory = record m { allocated = buf ∷ m.allocated } in
    let same : (buf == buf) ≡ true = ground arith in
    elim (Bool-cases (alloc.reg_mr m1 r)) [
      | inl done ↦ inl (r, (refl, given, refl, refl), rw done refl, free-with_buffer r m)
      | inr failed ↦ inr (rw (failed, same) refl)
    ]

-- An allocation gives a region over the block of the asked size that `calloc` gave, both entered,
-- and rdma_buffer_free of it gives back the memory as it was; or it gives NULL and leaves the memory
-- as it was, whatever it was that failed.
pub rdma_buffer_alloc-free :
    (alloc : Allocator) (pd : Bool) (size permission : ℕ) (m : Memory)
    → ((r : Mr) × IsBuffer pd size permission alloc m r
        × (rdma_buffer_alloc alloc pd size permission m ≡ (some r, with_buffer r m))
        × (rdma_buffer_free (some r) (with_buffer r m) ≡ m))
      ⊎ (rdma_buffer_alloc alloc pd size permission m ≡ (none, m))
unfolding rdma_buffer_alloc
rdma_buffer_alloc-free alloc false size permission m = inr refl
rdma_buffer_alloc-free alloc true size permission m =
    ends_from alloc size permission m (alloc.calloc m size) refl
