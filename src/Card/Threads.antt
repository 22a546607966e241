-- ===== src/Card/Threads.antt =====
-- The card as a whole: snic/rdma_server_main.c's start_thread, and then the threads that serve a
-- connection each, in any order of their turns. A request for a new connection, RDMA_REQ_NEW_RDMA_CONN,
-- goes on from the dispatch to connect_client_r_info and, where that returns 0, to a thread of its
-- own; behind one for the end of a connection the thread waits in global_disconnect_and_cleanup for a
-- status that nothing stores, so that it takes no further turn, destroys nothing and does not reach
-- deleteByKey. The kernel and the table of sockets are shared. A set-up runs to its end before another thread's turn:
-- the host asks for connections through one connection only and holds a lock while it does.
pub mod Whole
pub mod Tests
use socket_to_rdma.Base.{
  ℕ, zero, suc, Bool, true, false, Option, none, some, List, [], ◌∷◌, ◌++◌, ◌==◌, if◌then◌else◌,
}
use socket_to_rdma.Card.Env.{Env}
use socket_to_rdma.Card.Loop.{
  Thread, Device, polling, Completion, Turn, goes, returned, left, turn_at, start,
}
use socket_to_rdma.Card.Server.{Card, Next, served, connects, disconnects}
use socket_to_rdma.Card.Setup.{start_thread, connect_client_r_info}
use socket_to_rdma.Hash.Socket.{SocketHashTable}
use socket_to_rdma.Rdma.{create_thread, Fabric, Op, Setup, Result}

-- A thread serves its connection; or waits for the status of the disconnect, and does so for ever, for
-- disconnect_and_cleanup and process_rdma_cm_event_with_global, which store it, are called by none of
-- the threads; or has returned.
pub data Stage : Type 0 where
  serving ending finished : Stage

abbrev pub loops : Stage → Bool
loops serving = true
loops _ = false

-- the first thread has returned from start_thread, and the process ends with `main`
abbrev pub has_returned : Stage → Bool
has_returned finished = true
has_returned _ = false

-- a thread with the resources of its connection, as they were made and destroyed
pub record Worker (W : Type 0) : Type 0 where
  pub stage : Stage
  pub ops : List Op
  pub thread : Thread W

abbrev pub is_over : {W : Type 0} → List (Worker W) → Bool
is_over [] = true
is_over (w ∷ ws) = has_returned w.stage

abbrev pub worker_at {ℓ} : {A : Type ℓ} → ℕ → List A → Option A
worker_at i [] = none
worker_at zero (w ∷ ws) = some w
worker_at (suc i) (w ∷ ws) = worker_at i ws

abbrev pub put_worker {ℓ} : {A : Type ℓ} → ℕ → A → List A → List A
put_worker i x [] = []
put_worker zero x (w ∷ ws) = x ∷ ws
put_worker (suc i) x (w ∷ ws) = w ∷ put_worker i x ws

-- `dev` is the device by the number of the thread, and `malloc` what a new `c_info` holds
module _ (fab : Fabric) (env : Env) (dev : ℕ → Device env.World) (malloc : Card env.World) where
  pub record Threads : Type 0 where
    pub workers : List (Worker env.World)
    pub kernel : env.World
    pub sock_ht : SocketHashTable
    pub fabric : fab.World

  -- a thread's turn starts with the kernel and the table as they are now, and leaves them
  abbrev pub shared : Threads → Card env.World → Card env.World
  shared s c = record c { world = s.kernel; sock_ht = s.sock_ht }

  abbrev pub with_worker : Threads → ℕ → Worker env.World → Card env.World → Threads
  with_worker s i w c = record {
    workers = put_worker i w s.workers;
    kernel = c.world;
    sock_ht = c.sock_ht;
    fabric = s.fabric;
  }

  abbrev pub polls_on : Completion → Card env.World → Thread env.World
  polls_on wc c = record { at = polling; wc = wc; card = c }

  -- a thread of the given connection, at the start of its loop
  abbrev pub new_worker : List Op → Card env.World → Worker env.World
  new_worker ops c = record { stage = serving; ops = ops; thread = start env (dev 0) c }

  -- `pthread_create`, whose failure is only printed
  unfoldable pub start_worker : Threads → Setup fab.World → Threads
  start_worker s u =
      let a = fab.call create_thread u.world in
      let t : Threads = record s { fabric = a.world } in
      if a.value == 0 then record t { workers = s.workers ++ new_worker u.ops malloc ∷ [] } else t

  -- behind connect_client_r_info; `none` is a set-up that does not come to its end
  unfoldable pub set_up : Threads → Result fab → Option Threads
  unfolding start_worker
  set_up s (none, u) = none
  set_up s (some ret, u) =
      if ret == 0 then some (start_worker s u) else some (record s { fabric = u.world })

  -- the new `c_info` has no resource
  abbrev pub new_connection : (fuel : ℕ) → Threads → Option Threads
  new_connection fuel s =
      set_up s (connect_client_r_info fab fuel (record { world = s.fabric; ops = [] }))

  -- What a turn of the thread's loop leads to. `wc` is the completion that the turn took, if it took
  -- one.
  unfoldable pub after_turn :
      (fuel i : ℕ)
      → Threads
      → Worker env.World
      → Completion
      → Option (Turn env (dev i))
      → Option Threads
  unfolding set_up
  after_turn fuel i s w wc none = none
  after_turn fuel i s w wc (some (goes t)) = some (with_worker s i (record w { thread = t }) t.card)
  after_turn fuel i s w wc (some (returned v c)) =
      some (with_worker s i (record w { stage = finished }) c)
  after_turn fuel i s w wc (some (left (served c))) =
      some (with_worker s i (record w { thread = polls_on wc c }) c)
  after_turn fuel i s w wc (some (left (connects c))) =
      new_connection fuel (with_worker s i (record w { thread = polls_on wc c }) c)
  after_turn fuel i s w wc (some (left (disconnects c))) =
      some (with_worker s i (record w { stage = ending; thread = polls_on wc c }) c)

  unfoldable pub take_turn : (fuel i : ℕ) → Threads → Option (Worker env.World) → Option Threads
  unfolding after_turn
  take_turn fuel i s none = none
  take_turn fuel i s (some w) =
      let t = w.thread in
      let turn = turn_at env (dev i) t.at t.wc (shared s t.card) in
      let wc = ((dev i).poll_cq s.kernel t.wc).1 in
      if loops w.stage then after_turn fuel i s w wc turn else none

  unfoldable pub happens : (fuel i : ℕ) → Threads → Option Threads
  unfolding take_turn
  happens fuel i s =
      let next = take_turn fuel i s (worker_at i s.workers) in
      if is_over s.workers then none else next

  -- The turns of the threads with the given numbers, one by one: `none` where one cannot be taken.
  unfoldable pub then_happens : (fuel : ℕ) → List ℕ → Option Threads → Option Threads
  unfolding happens
  then_happens fuel events none = none
  then_happens fuel [] (some s) = some s
  then_happens fuel (e ∷ events) (some s) = then_happens fuel events (happens fuel e s)

  unfoldable pub first_worker : env.World → SocketHashTable → Result fab → Option Threads
  first_worker w h (none, u) = none
  first_worker w h (some ret, u) =
      if ret == 0
      then some record {
        workers = new_worker u.ops malloc ∷ [];
        kernel = w;
        sock_ht = h;
        fabric = u.world;
      }
      else none

  -- The program from its start on: `none` where start_thread returns or does not come to its end.
  unfoldable pub card_main :
      (fuel addr : ℕ)
      → (w : env.World) → (f : fab.World) → SocketHashTable
      → List ℕ
      → Option Threads
  unfolding first_worker then_happens
  card_main fuel addr w f h events =
      then_happens fuel events
        (first_worker w h (start_thread fab fuel addr (record { world = f; ops = [] })))
