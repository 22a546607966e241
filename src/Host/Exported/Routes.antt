-- ===== src/Host/Exported/Routes.antt =====
-- Where the calls of a program that is run with the library arrive, and those of the libraries below.
use socket_to_rdma.Base.{
  ℕ, ◌==◌, ◌≡◌, refl, ◌⊎◌, inl, inr, Bool, true, false, List, [], ◌∷◌, arith, Bool-cases, take,
}
use socket_to_rdma.Host.Exported.{
  Name, socket, connect, send, read, write, recv, close, bind, listen, accept, select,
  epoll_create1, epoll_create, epoll_ctl, epoll_wait, poll, fcntl, setsockopt, getsockopt,
  getpeername, getsockname, pthread_exit, Pointers, Arrives, through, call_original,
  init_original_func, req, original, exits, exported, two, number,
}
use socket_to_rdma.Host.Exported.Stack.{
  is_called_from_rdma_client, IsNamed, is_called_from_rdma_client-IsNamed,
}

-- what arrives of the arguments
abbrev pub passed : Name → List ℕ → List ℕ
passed epoll_create args = 0 ∷ []
passed fcntl args = two args
passed f args = args

abbrev pub target : Name → Name
target epoll_create = epoll_create1
target f = f

-- the answer to the question about the stack, as a statement about the stack
IsNamed-or :
    (stack : List (List ℕ))
    → ((is_called_from_rdma_client stack ≡ true) × IsNamed (take 10 stack))
      ⊎ ((is_called_from_rdma_client stack ≡ false) × ¬ IsNamed (take 10 stack))
IsNamed-or stack =
    let (to, from) = is_called_from_rdma_client-IsNamed stack in
    elim (Bool-cases (is_called_from_rdma_client stack)) [
      | inl yes' ↦ inl (yes', to yes')
      | inr no' ↦ inr (no', λ named. let is = from named in ground arith)
    ]

-- the two names that ask who calls
abbrev pub asks : Name → Bool
asks socket = true
asks read = true
asks f = false

-- A call through a pointer that has been looked up arrives at the C library's function, or the
-- process ends because there is none.
through_own :
    (dlsym : Name → Bool) (stack : List (List ℕ)) (s : Pointers) (f : Name) (args : List ℕ)
    → ((through true dlsym stack s f f args).1 ≡ original f args)
      ⊎ ((s f ≡ false) × (dlsym f ≡ false) × (through true dlsym stack s f f args ≡ (s, exits)))
unfolding through call_original init_original_func
through_own dlsym stack s f args = elim (Bool-cases (s f)) [
  | inl set ↦ inl (rw (set, set) refl)
  | inr unset ↦ elim (Bool-cases (dlsym f)) [
    | inl found ↦
        let same : (number f == number f) ≡ true = ground arith in
        inl (rw (unset, found, same) refl)
    | inr missing ↦ inr (unset, missing, rw (unset, missing) refl)
  ]
]

-- what is stated of a call
abbrev pub Routed :
    (dlsym : Name → Bool) → List (List ℕ) → Pointers → Name → List ℕ → Pointers × Arrives → Type 0
Routed dlsym stack s f args r =
    (((asks f ≡ false) ⊎ ¬ IsNamed (take 10 stack)) × (r ≡ (s, req (target f) (passed f args))))
    ⊎ ((asks f ≡ true)
        × IsNamed (take 10 stack)
        × ((r.1 ≡ original f args) ⊎ ((s f ≡ false) × (dlsym f ≡ false) × (r ≡ (s, exits)))))

socket-Routed :
    (dlsym : Name → Bool) (stack : List (List ℕ)) (s : Pointers) (args : List ℕ)
    → Routed dlsym stack s socket args (exported true dlsym stack s socket args)
unfolding exported
socket-Routed dlsym stack s args = elim (IsNamed-or stack) [
  | inl (is, named) ↦ rw is (inr (refl, named, through_own dlsym stack s socket args))
  | inr (not', other) ↦ rw not' (inl (inr other, refl))
]

read-Routed :
    (dlsym : Name → Bool) (stack : List (List ℕ)) (s : Pointers) (args : List ℕ)
    → Routed dlsym stack s read args (exported true dlsym stack s read args)
unfolding exported
read-Routed dlsym stack s args = elim (IsNamed-or stack) [
  | inl (is, named) ↦ rw is (inr (refl, named, through_own dlsym stack s read args))
  | inr (not', other) ↦ rw not' (inl (inr other, refl))
]

-- In the build with LD_PRELOAD a call arrives at the `req_` function of its name with its arguments,
-- but that epoll_create arrives at that of epoll_create1 with flags 0 and that fcntl loses what
-- follows the command. Only `socket` and `read` ask for the caller: where the name of one of the ten
-- innermost frames contains librdma_client, rda_rdma, libibverbs or client_prepare_connection, they
-- arrive at the C library's function with their arguments, or, where the library has none and none
-- was looked up before, end the process.
pub exported_routes :
    (dlsym : Name → Bool) (stack : List (List ℕ)) (s : Pointers) (f : Name) (args : List ℕ)
    → Routed dlsym stack s f args (exported true dlsym stack s f args)
unfolding exported
exported_routes dlsym stack s socket args = socket-Routed dlsym stack s args
exported_routes dlsym stack s read args = read-Routed dlsym stack s args
exported_routes dlsym stack s connect args = inl (inl refl, refl)
exported_routes dlsym stack s send args = inl (inl refl, refl)
exported_routes dlsym stack s write args = inl (inl refl, refl)
exported_routes dlsym stack s recv args = inl (inl refl, refl)
exported_routes dlsym stack s close args = inl (inl refl, refl)
exported_routes dlsym stack s bind args = inl (inl refl, refl)
exported_routes dlsym stack s listen args = inl (inl refl, refl)
exported_routes dlsym stack s accept args = inl (inl refl, refl)
exported_routes dlsym stack s select args = inl (inl refl, refl)
exported_routes dlsym stack s epoll_create1 args = inl (inl refl, refl)
exported_routes dlsym stack s epoll_create args = inl (inl refl, refl)
exported_routes dlsym stack s epoll_ctl args = inl (inl refl, refl)
exported_routes dlsym stack s epoll_wait args = inl (inl refl, refl)
exported_routes dlsym stack s poll args = inl (inl refl, refl)
exported_routes dlsym stack s fcntl args = inl (inl refl, refl)
exported_routes dlsym stack s setsockopt args = inl (inl refl, refl)
exported_routes dlsym stack s getsockopt args = inl (inl refl, refl)
exported_routes dlsym stack s getpeername args = inl (inl refl, refl)
exported_routes dlsym stack s getsockname args = inl (inl refl, refl)
exported_routes dlsym stack s pthread_exit args = inl (inl refl, refl)
