-- ===== src/Host/Threads/Exit.antt =====
-- The end of a thread calls the destroys of its connection, whether it had one or is given one only to end it.
use socket_to_rdma.Base.{
  ℕ, ◌≡◌, ◌≢◌, refl, ◌∙◌, ap, Bool, true, none, some, [], ◌==◌, Bool-cases, Option-cases, inl, inr,
  arith, is_pos,
}
use mathlib.Core.Path.{subst}
use socket_to_rdma.Hash.Copies.{table_copies}
use socket_to_rdma.Hash.Fd.{fd_delete_by_value}
use socket_to_rdma.Hash.Table.Values.{nodes, erase_value, delete_by_value-erase}
use socket_to_rdma.Host.Client.{Outcome, returns, exits, waits, Return}
use socket_to_rdma.Host.Setup.{connect_server, client_disconnect_and_clean}
use socket_to_rdma.Host.Setup.Clean.{all_destroyed, all_destroyed-clean, disconnect-ops}
use socket_to_rdma.Host.Setup.Resources.{all_made, connect_server-all}
use socket_to_rdma.Host.Verbs.{Verbs}
use socket_to_rdma.Message.{code, req_new_rdma_conn, req_del_rdma_conn}
use socket_to_rdma.Rdma.{Fabric, Setup, Result}
use socket_to_rdma.Rdma.Held.{held_after}
use socket_to_rdma.Rdma.Making.{Documented}
use socket_to_rdma.Host.Threads.{
  RInfo, Found, ready, null, process_exits, hangs, ask, connected, granted, own_or, get_r_info,
  Ended, ended, disconnected, closed, end_connection, forgotten, req_pthread_exit,
}
use socket_to_rdma.Host.Threads.Own.{State, Owns, get_r_info-Owns}

module _ (verbs : Verbs) (fab : Fabric) (enter : verbs.World → fab.World)
    (leave : verbs.World → fab.World → verbs.World) (doc : Documented fab) where
  -- Every thread's connection is set up.
  abbrev pub Complete : State verbs fab enter leave → Type 0
  Complete s = (j : ℕ) (r : RInfo) → s.tls j ≡ some r → r.ops ≡ all_made

  abbrev Whole : State verbs fab enter leave → Found verbs fab enter leave → Type 0
  Whole s (ready r t) = (r.ops ≡ all_made) × Complete t × (t.fd_ht ≡ s.fd_ht)
  Whole s _ = Unit {0}

  connected-Whole :
      (fuel tid : ℕ) (raw : RInfo) (s u : State verbs fab enter leave) (x : Result fab)
      → Complete s
      → (x.0 ≡ some 0 → x.1.ops ≡ all_made)
      → s.fd_ht ≡ u.fd_ht
      → Whole u (connected verbs fab enter leave tid raw s x)
  unfolding connected
  connected-Whole fuel tid raw s u (none, t) all whole same = tt
  connected-Whole fuel tid raw s u (some ret, t) all whole same = elim (Bool-cases (ret == 0)) [
    | inl good ↦
        let ops = whole (ap some (ground arith)) in
        rw good (ops, λ j r e. ground (arith, all j r), same)
    | inr bad ↦ rw bad tt
  ]

  granted-Whole :
      (fuel tid : ℕ) (malloc : Bool) (raw : RInfo) (s : State verbs fab enter leave)
      (x : Outcome verbs.World)
      → Complete s
      → Whole s (granted verbs fab enter leave fuel tid malloc raw s x)
  unfolding granted
  granted-Whole fuel tid malloc raw s waits all = tt
  granted-Whole fuel tid malloc raw s (exits w) all = tt
  granted-Whole fuel tid malloc raw s (returns q) all = elim (Bool-cases (is_pos q.ret)) [
    | inl granted' ↦ elim (Bool-cases malloc) [
      | inl got ↦
          let t : State verbs fab enter leave = record s {
            world = q.client.world;
            global = record s.global { req = q.client.req; sockfd = q.client.sockfd };
          } in
          let begin : Setup fab.World = record { world = enter q.client.world; ops = [] } in
          rw (granted', got)
            (connected-Whole fuel tid raw t s (connect_server fab fuel begin) all
              (connect_server-all fab doc fuel begin) refl)
      | inr full ↦ rw (granted', full) tt
    ]
    | inr refused ↦ rw refused tt
  ]

  get_r_info-Whole :
      (fuel tid : ℕ) (malloc : Bool) (raw : RInfo) (s : State verbs fab enter leave)
      → Complete s
      → Whole s (get_r_info verbs fab enter leave fuel tid malloc raw s)
  unfolding get_r_info own_or
  get_r_info-Whole fuel tid malloc raw s all = elim (Option-cases (s.tls tid)) [
    | inl bare ↦ rw bare (
        granted-Whole fuel tid malloc raw s
          (ask verbs fab enter leave fuel s.global s.world (code req_new_rdma_conn)) all)
    | inr (r, own) ↦ rw own (all tid r own, all, refl)
  ]

  -- what is true of an end, of a state that the thread was in before
  abbrev Closes : ℕ → State verbs fab enter leave → Ended verbs fab enter leave → Type 0
  Closes tid s (ended r t) =
      (held_after r.ops [] ≡ some [])
      × (t.tls tid ≡ none)
      × ((j : ℕ) → j ≢ tid → t.tls j ≡ s.tls j)
      × (nodes t.fd_ht ≡ erase_value tid (nodes s.fd_ht))
      × Complete t
  Closes tid s _ = Unit {0}

  disconnected-Closes :
      (tid : ℕ) (r : RInfo) (s t : State verbs fab enter leave) (q : Return verbs.World)
      (x : Result fab)
      → Whole s (ready r t)
      → Owns verbs fab enter leave tid s (ready r t)
      → (x.0 ≢ none → x.1.ops ≡ all_destroyed r.ops)
      → Closes tid s
          (forgotten verbs fab enter leave tid (disconnected verbs fab enter leave r t q x))
  unfolding disconnected forgotten
  disconnected-Closes tid r s t q (none, u) whole owns ends = tt
  disconnected-Closes tid r s t q (some ret, u) (ops, all, same) (own, others) ends = (
    ap (λ l. held_after l []) (ends (λ e. cc) ∙ ap all_destroyed ops) ∙ all_destroyed-clean,
    ground arith,
    λ j apart. ground (arith, others j apart),
    ap (λ t. nodes (fd_delete_by_value t tid).1) same
        ∙ ap (λ x. nodes x.1) (table_copies true s.fd_ht 0 tid).4
        ∙ (delete_by_value-erase s.fd_ht tid).0,
    λ j q e. ground (arith, all j q),
  )

  closed-Closes :
      (tid : ℕ) (r : RInfo) (s t : State verbs fab enter leave) (x : Outcome verbs.World)
      → Whole s (ready r t)
      → Owns verbs fab enter leave tid s (ready r t)
      → Closes tid s (forgotten verbs fab enter leave tid (closed verbs fab enter leave r t x))
  unfolding closed forgotten
  closed-Closes tid r s t waits whole owns = tt
  closed-Closes tid r s t (exits w) whole owns = tt
  closed-Closes tid r s t (returns q) whole owns =
      let c : Setup fab.World = record { world = enter q.client.world; ops = r.ops } in
      disconnected-Closes tid r s t q (client_disconnect_and_clean fab c) whole owns
        (disconnect-ops fab c)

  found-Closes :
      (fuel tid : ℕ) (s : State verbs fab enter leave) (x : Found verbs fab enter leave)
      → Whole s x
      → Owns verbs fab enter leave tid s x
      → Closes tid s
          (forgotten verbs fab enter leave tid (end_connection verbs fab enter leave fuel x))
  unfolding end_connection forgotten
  found-Closes fuel tid s (ready r t) whole owns =
      closed-Closes tid r s t (ask verbs fab enter leave fuel r t.world (code req_del_rdma_conn))
        whole owns
  found-Closes fuel tid s (null t) whole owns = tt
  found-Closes fuel tid s (process_exits w) whole owns = tt
  found-Closes fuel tid s hangs whole owns = tt

  -- Where every thread's connection is set up and a thread comes to its end, the library's destroy of
  -- each resource of its own connection has been called once, and of none while it is in use; the
  -- connection is the thread's no more, the other threads' are as they were, and the table of
  -- descriptors loses the first entry of the thread and no other. A destroy that fails is only
  -- printed. A thread without a connection, or whose wait for the event of the disconnect fails, does
  -- not come to its end in this sense. The library's failures set `errno` as documented.
  pub req_pthread_exit-clean :
      (fuel tid : ℕ) (malloc : Bool) (raw r : RInfo) (s t : State verbs fab enter leave) (j : ℕ)
      → Complete s
      → req_pthread_exit verbs fab enter leave fuel tid malloc raw s ≡ ended r t
      → j ≢ tid
      → (held_after r.ops [] ≡ some [])
        × (t.tls tid ≡ none)
        × (t.tls j ≡ s.tls j)
        × (nodes t.fd_ht ≡ erase_value tid (nodes s.fd_ht))
        × Complete t
  unfolding req_pthread_exit
  req_pthread_exit-clean fuel tid malloc raw r s t j all e apart =
      let (clean, gone, others, fds, rest) : Closes tid s (ended r t) = subst (Closes tid s) e (
        found-Closes fuel tid s (get_r_info verbs fab enter leave fuel tid malloc raw s)
          (get_r_info-Whole fuel tid malloc raw s all)
          (get_r_info-Owns verbs fab enter leave fuel tid malloc raw s)) in
      (clean, gone, others j apart, fds, rest)
