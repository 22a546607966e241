-- ===== src/Host/Exported/Tests.antt =====
-- The exported names on concrete calls.
use socket_to_rdma.Base.{ℕ, ◌≡◌, refl, Bool, true, false, List, [], ◌∷◌}
use socket_to_rdma.Host.Exported.{
  Name, read, fcntl, poll, Pointers, exported, req, original, null_pointer,
}
use socket_to_rdma.Host.Exported.Stack.{bytes, is_called_from_rdma_client}
use socket_to_rdma.Host.Exported.Routes.{Routed, exported_routes}

-- a read that the library's own event channel makes
abbrev from_library : List (List ℕ)
from_library =
    bytes "librdma_sock.so(read+0x1f)" ∷ (bytes "libibverbs.so.1(ibv_get_cq_event+0x3c)" ∷ [])

abbrev from_program : List (List ℕ)
from_program = bytes "librdma_sock.so(read+0x1f)" ∷ (bytes "./echo(main+0x40)" ∷ [])

abbrev nothing_set : Pointers
nothing_set = λ f. false

abbrev whole_library : Name → Bool
whole_library = λ f. true

library_seen : is_called_from_rdma_client from_library ≡ true
unfolding is_called_from_rdma_client
library_seen = refl

program_seen : is_called_from_rdma_client from_program ≡ false
unfolding is_called_from_rdma_client
program_seen = refl

exported_routes_example :
    Routed whole_library from_library nothing_set read
      (7 ∷ (64 ∷ []))
      (exported true whole_library from_library nothing_set read (7 ∷ (64 ∷ [])))
exported_routes_example =
    exported_routes whole_library from_library nothing_set read (7 ∷ (64 ∷ []))

read_passes :
    (exported true whole_library from_library nothing_set read (7 ∷ (64 ∷ []))).1
    ≡ original read (7 ∷ (64 ∷ []))
unfolding exported is_called_from_rdma_client
read_passes = refl

-- F_SETFL with O_NONBLOCK loses the flags
fcntl_loses :
    (exported true whole_library from_program nothing_set fcntl (5 ∷ (4 ∷ (2048 ∷ [])))).1
    ≡ req fcntl (5 ∷ (4 ∷ []))
unfolding exported
fcntl_loses = refl

-- In a build without LD_PRELOAD `poll` looks up its own name and calls epoll_wait's pointer.
poll_unset :
    (exported false whole_library from_program nothing_set poll (0 ∷ (1 ∷ (0 ∷ [])))).1
    ≡ null_pointer
unfolding exported
poll_unset = refl
