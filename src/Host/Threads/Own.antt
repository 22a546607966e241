-- ===== src/Host/Threads/Own.antt =====
-- Each thread has one connection of its own, which is made once and destroyed at the thread's end.
use socket_to_rdma.Base.{
  ℕ, ◌≡◌, ◌≢◌, refl, Bool, none, some, [], ◌==◌, Bool-cases, Option-cases, inl, inr, arith, is_pos,
}
use mathlib.Core.Path.{subst}
use socket_to_rdma.Host.Client.{Outcome, returns, exits, waits}
use socket_to_rdma.Host.Setup.{connect_server}
use socket_to_rdma.Host.Verbs.{Verbs}
use socket_to_rdma.Message.{code, req_new_rdma_conn}
use socket_to_rdma.Rdma.{Fabric, Result}
use socket_to_rdma.Host.Threads.{
  RInfo, Threads, Found, ready, null, ask, connected, granted, own_or, get_r_info,
}

module _ (verbs : Verbs) (fab : Fabric) (enter : verbs.World → fab.World)
    (leave : verbs.World → fab.World → verbs.World) where
  abbrev pub State : Type 0
  State = Threads verbs fab enter leave

  -- what is true of a connection that was found, and of the others'
  abbrev pub Owns : ℕ → State → Found verbs fab enter leave → Type 0
  Owns tid s (ready r t) = (t.tls tid ≡ some r) × ((j : ℕ) → j ≢ tid → t.tls j ≡ s.tls j)
  Owns tid s (null t) = t.tls ≡ s.tls
  Owns tid s _ = Unit {0}

  connected-Owns :
      (tid : ℕ) (raw : RInfo) (s : State) (x : Result fab)
      → Owns tid s (connected verbs fab enter leave tid raw s x)
  unfolding connected
  connected-Owns tid raw s (none, t) = tt
  connected-Owns tid raw s (some ret, t) = elim (Bool-cases (ret == 0)) [
    | inl good ↦ rw good (ground arith, λ j apart. ground arith)
    | inr bad ↦ rw bad refl
  ]

  granted-Owns :
      (fuel tid : ℕ) (malloc : Bool) (raw : RInfo) (s : State) (x : Outcome verbs.World)
      → Owns tid s (granted verbs fab enter leave fuel tid malloc raw s x)
  unfolding granted
  granted-Owns fuel tid malloc raw s waits = tt
  granted-Owns fuel tid malloc raw s (exits w) = tt
  granted-Owns fuel tid malloc raw s (returns q) = elim (Bool-cases (is_pos q.ret)) [
    | inl yes' ↦ elim (Bool-cases malloc) [
      | inl got ↦
          rw (yes', got)
            (connected-Owns tid raw
              (record s {
                world = q.client.world;
                global = record s.global { req = q.client.req; sockfd = q.client.sockfd };
              })
              (connect_server fab fuel (record { world = enter q.client.world; ops = [] })))
      | inr full ↦ rw (yes', full) refl
    ]
    | inr refused ↦ rw refused refl
  ]

  pub get_r_info-Owns :
      (fuel tid : ℕ) (malloc : Bool) (raw : RInfo) (s : State)
      → Owns tid s (get_r_info verbs fab enter leave fuel tid malloc raw s)
  unfolding get_r_info own_or
  get_r_info-Owns fuel tid malloc raw s = elim (Option-cases (s.tls tid)) [
    | inl bare ↦ rw bare (
        granted-Owns fuel tid malloc raw s
          (ask verbs fab enter leave fuel s.global s.world (code req_new_rdma_conn)))
    | inr (r, own) ↦ rw own (own, λ j apart. refl)
  ]

  -- A connection that get_r_info finds or makes is the calling thread's own from then on: it is found
  -- again with nothing done, whatever the allocation and the fuel, and the other threads' connections
  -- are as they were.
  pub get_r_info-own :
      (fuel tid : ℕ) (malloc : Bool) (raw r : RInfo) (s t : State) (j fuel' : ℕ) (malloc' : Bool)
      (raw' : RInfo)
      → get_r_info verbs fab enter leave fuel tid malloc raw s ≡ ready r t
      → j ≢ tid
      → (get_r_info verbs fab enter leave fuel' tid malloc' raw' t ≡ ready r t)
        × (t.tls tid ≡ some r)
        × (t.tls j ≡ s.tls j)
  unfolding get_r_info own_or
  get_r_info-own fuel tid malloc raw r s t j fuel' malloc' raw' e apart =
      let (own, others) : Owns tid s (ready r t) =
        subst (Owns tid s) e (get_r_info-Owns fuel tid malloc raw s) in
      (rw own refl, own, others j apart)
