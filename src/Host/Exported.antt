-- ===== src/Host/Exported.antt =====
-- The names that hook.c exports in place of the C library's, and where a call of each arrives: at the
-- `req_` function, at the C library's own through a pointer that is looked up once, or at the end of
-- the process. Arguments are the words of the call. `preloaded` says whether the build defines
-- LD_PRELOAD, as the Makefile's does.
pub mod Stack
pub mod Routes
pub mod Tests
use socket_to_rdma.Base.{
  ℕ, Bool, true, false, Option, none, some, List, [], ◌∷◌, ◌==◌, if◌then◌else◌,
}
use socket_to_rdma.Host.Exported.Stack.{is_called_from_rdma_client}

pub data Name : Type 0 where
  socket connect send read write recv close bind listen accept select : Name
  epoll_create1 epoll_create epoll_ctl epoll_wait poll fcntl : Name
  setsockopt getsockopt getpeername getsockname pthread_exit : Name

pub data Arrives : Type 0 where
  req original : Name → (arguments : List ℕ) → Arrives
  -- a call through a pointer that is NULL
  null_pointer : Arrives
  -- `exit(1)`, where the C library has no such function
  exits : Arrives

-- which of the `original_` pointers are set
abbrev pub Pointers : Type 0
Pointers = Name → Bool

abbrev pub number : Name → ℕ
number socket = 0
number connect = 1
number send = 2
number read = 3
number write = 4
number recv = 5
number close = 6
number bind = 7
number listen = 8
number accept = 9
number select = 10
number epoll_create1 = 11
number epoll_create = 12
number epoll_ctl = 13
number epoll_wait = 14
number poll = 15
number fcntl = 16
number setsockopt = 17
number getsockopt = 18
number getpeername = 19
number getsockname = 20
number pthread_exit = 21

-- INIT_ORIGINAL_FUNC; `none` where the process exits. `dlsym` says what the C library has.
unfoldable pub init_original_func : (dlsym : Name → Bool) → Pointers → Name → Option Pointers
init_original_func dlsym s f =
    let set : Pointers = λ g. if number g == number f then true else s g in
    if s f then some s else if dlsym f then some set else none

-- the pointer of the first name is looked up, and that of the second is called
unfoldable pub call_original : Pointers → Option Pointers → Name → List ℕ → Pointers × Arrives
call_original s none g args = (s, exits)
call_original s (some s') g args = (s', if s' g then original g args else null_pointer)

abbrev pub two : List ℕ → List ℕ
two [] = []
two (a ∷ []) = a ∷ []
two (a ∷ (b ∷ rest)) = a ∷ (b ∷ [])

module _ (preloaded : Bool) (dlsym : Name → Bool) (stack : List (List ℕ)) where
  unfoldable pub through : Pointers → (looked_up g : Name) → List ℕ → Pointers × Arrives
  unfolding call_original init_original_func
  through s f g args = call_original s (init_original_func dlsym s f) g args

  -- the body of most of the names
  abbrev plainly : Pointers → Name → List ℕ → Pointers × Arrives
  plainly s f args = if preloaded then (s, req f args) else through s f f args

  -- the body of the two that look at the stack
  abbrev by_caller : Pointers → Name → List ℕ → Pointers × Arrives
  by_caller s f args =
      if preloaded
      then (if is_called_from_rdma_client stack then through s f f args else (s, req f args))
      else through s f f args

  unfoldable pub exported : Pointers → Name → List ℕ → Pointers × Arrives
  unfolding through
  exported s socket args = by_caller s socket args
  exported s connect args = plainly s connect args
  exported s send args = plainly s send args
  exported s read args = by_caller s read args
  exported s write args = plainly s write args
  exported s recv args = plainly s recv args
  exported s close args = plainly s close args
  exported s bind args = plainly s bind args
  exported s listen args = plainly s listen args
  exported s accept args = plainly s accept args
  exported s select args = plainly s select args
  exported s epoll_create1 args = plainly s epoll_create1 args
  exported s epoll_create args = plainly s epoll_create1 (0 ∷ [])
  exported s epoll_ctl args = plainly s epoll_ctl args
  exported s epoll_wait args = plainly s epoll_wait args
  exported s poll args = if preloaded then (s, req poll args) else through s poll epoll_wait args
  exported s fcntl args = plainly s fcntl (two args)
  exported s setsockopt args = plainly s setsockopt args
  exported s getsockopt args = plainly s getsockopt args
  exported s getpeername args = plainly s getpeername args
  exported s getsockname args = plainly s getsockname args
  exported s pthread_exit args = plainly s pthread_exit args
