-- ===== src/Rdma/Buffers.antt =====
-- The buffers of rdma_common.c, whose text the host and the card share: memory from `calloc` that is
-- registered with a protection domain, and its end. The lines are the card's.
pub mod Lifetime
use socket_to_rdma.Base.{
  ℕ, Bool, true, false, Option, none, some, List, [], ◌∷◌, ◌==◌, if◌then◌else◌,
}

pub record Mr : Type 0 where
  pub addr : ℕ
  pub length : ℕ
  pub access : ℕ

-- the addresses of the heap's blocks, and the registered regions
pub record Memory : Type 0 where
  pub allocated : List ℕ
  pub registered : List Mr

-- `calloc(1, size)`, an address or NULL, and whether `ibv_reg_mr` succeeds
pub record Allocator : Type 0 where
  pub calloc : Memory → (size : ℕ) → Option ℕ
  pub reg_mr : Memory → Mr → Bool

-- the first of a list for which a test holds is taken out
unfoldable pub take_out {ℓ} : {A : Type ℓ} → (A → Bool) → List A → List A
take_out test [] = []
take_out test (x ∷ xs) = let rest = take_out test xs in if test x then xs else x ∷ rest

-- `free`, and `ibv_dereg_mr` for the region at an address
abbrev pub free : ℕ → Memory → Memory
free a m = record m { allocated = take_out (λ b. a == b) m.allocated }

abbrev pub dereg_mr : Mr → Memory → Memory
dereg_mr r m = record m { registered = take_out (λ q. r.addr == q.addr) m.registered }

module _ (alloc : Allocator) where
  register : Mr → Memory → Option Mr × Memory
  register r m =
      if alloc.reg_mr m r then (some r, record m { registered = r ∷ m.registered }) else (none, m)

  -- `pd` says whether the protection domain is not NULL
  unfoldable pub rdma_buffer_register :
      (pd : Bool) → (addr length permission : ℕ) → Memory → Option Mr × Memory
  unfolding register
  rdma_buffer_register pd addr length permission m =
      if pd
      then register (record { addr = addr; length = length; access = permission }) m
      else (none, m)

  -- a buffer that could not be registered is freed
  unfoldable pub kept_or : ℕ → Option Mr × Memory → Option Mr × Memory
  kept_or buf (none, m) = (none, free buf m)
  kept_or buf (some r, m) = (some r, m)

  unfoldable pub registered_or :
      (pd : Bool) → (size permission : ℕ) → Option ℕ → Memory → Option Mr × Memory
  unfolding rdma_buffer_register kept_or
  registered_or pd size permission none m = (none, m)
  registered_or pd size permission (some buf) m =
      kept_or buf
        (rdma_buffer_register pd buf size permission (record m { allocated = buf ∷ m.allocated }))

  unfoldable pub rdma_buffer_alloc :
      (pd : Bool) → (size permission : ℕ) → Memory → Option Mr × Memory
  unfolding registered_or
  rdma_buffer_alloc pd size permission m =
      if pd then registered_or pd size permission (alloc.calloc m size) m else (none, m)

unfoldable pub rdma_buffer_deregister : Option Mr → Memory → Memory
rdma_buffer_deregister none m = m
rdma_buffer_deregister (some mr) m = dereg_mr mr m

unfoldable pub rdma_buffer_free : Option Mr → Memory → Memory
unfolding rdma_buffer_deregister
rdma_buffer_free none m = m
rdma_buffer_free (some mr) m = free mr.addr (rdma_buffer_deregister (some mr) m)
