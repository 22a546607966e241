-- ===== src/Host/Threads.antt =====
-- The connections of the host's threads, in hook.c: get_r_info, which gives a thread one of its own,
-- req_pthread_exit, which ends it, and my_main around the program's own main. The thread-specific
-- data is a map from threads. `enter` and `leave` take the state that the set-up works on out of the
-- device's state, and back. `malloc` says whether the allocation of `r_info` succeeds, and `raw` is
-- what it holds at first. The lock of `global_info` is held from the test of the data to the end of
-- the set-up, and each path releases it.
pub mod Own
pub mod Exit
pub mod Tests
use socket_to_rdma.Base.{
  ℕ, Bool, true, false, Option, none, some, List, [], ◌==◌, if◌then◌else◌, minus_one, is_pos,
}
use socket_to_rdma.Hash.Fd.{FdHashTable, fd_delete_by_value}
use socket_to_rdma.Hash.Table.{create_hash_table}
use socket_to_rdma.Host.Client.{Client, Outcome, returns, exits, waits, Return, set_req_sock}
use socket_to_rdma.Host.Hook.{zeros_at}
use socket_to_rdma.Host.Setup.{connect_server, client_disconnect_and_clean}
use socket_to_rdma.Host.Verbs.{Verbs}
use socket_to_rdma.Message.{ReqMsg, code, req_new_rdma_conn, req_del_rdma_conn}
use socket_to_rdma.Rdma.{Op, Fabric, Setup, Result}

-- `struct client_r_info`: the request, the descriptor, and what its pointers hold
pub record RInfo : Type 0 where
  pub req : ReqMsg
  pub sockfd : ℕ
  pub ops : List Op

-- `pthread_setspecific`
abbrev pub with_tls : (ℕ → Option RInfo) → ℕ → Option RInfo → ℕ → Option RInfo
with_tls f tid r j = if j == tid then r else f j

module _ (verbs : Verbs) (fab : Fabric) (enter : verbs.World → fab.World)
    (leave : verbs.World → fab.World → verbs.World) where
  pub record Threads : Type 0 where
    pub world : verbs.World
    pub global : RInfo
    pub tls : ℕ → Option RInfo
    pub fd_ht : FdHashTable

  -- a connection, NULL, the end of the process, or no end
  pub data Found : Type 0 where
    ready : RInfo → Threads → Found
    null : Threads → Found
    process_exits : verbs.World → Found
    hangs : Found

  abbrev pub client_of : RInfo → verbs.World → Client verbs.World
  client_of r w = record { req = r.req; sockfd = r.sockfd; world = w }

  -- `set_req_sock(r_info, 0, req, 0, 0, NULL, &errno, NULL)`
  abbrev pub ask : ℕ → RInfo → verbs.World → (req_rdma : ℕ) → Outcome verbs.World
  ask fuel r w req_rdma = set_req_sock verbs fuel (client_of r w) 0 req_rdma 0 0 zeros_at true none

  -- behind connect_server
  unfoldable pub connected : (tid : ℕ) → RInfo → Threads → Result fab → Found
  connected tid raw s (none, t) = hangs
  connected tid raw s (some ret, t) =
      let r : RInfo = record raw { ops = t.ops } in
      let w = leave s.world t.world in
      if ret == 0
      then ready r (record s { world = w; tls = with_tls s.tls tid (some r) })
      else null (record s { world = w })

  -- behind the request for a connection
  unfoldable pub granted :
      (fuel tid : ℕ) → (malloc : Bool) → RInfo → Threads → Outcome verbs.World → Found
  unfolding connected
  granted fuel tid malloc raw s waits = hangs
  granted fuel tid malloc raw s (exits w) = process_exits w
  granted fuel tid malloc raw s (returns q) =
      let t = record s {
        world = q.client.world;
        global = record s.global { req = q.client.req; sockfd = q.client.sockfd };
      } in
      let made =
        connected tid raw t
          (connect_server fab fuel (record { world = enter t.world; ops = [] })) in
      if is_pos q.ret then if malloc then made else null t else null t

  unfoldable pub own_or : Option RInfo → (fuel tid : ℕ) → (malloc : Bool) → RInfo → Threads → Found
  unfolding granted
  own_or (some r) fuel tid malloc raw s = ready r s
  own_or none fuel tid malloc raw s =
      granted fuel tid malloc raw s (ask fuel s.global s.world (code req_new_rdma_conn))

  unfoldable pub get_r_info : (fuel tid : ℕ) → (malloc : Bool) → RInfo → Threads → Found
  unfolding own_or
  get_r_info fuel tid malloc raw s = own_or (s.tls tid) fuel tid malloc raw s

  -- The end of a thread: its connection as it is left, or a NULL pointer or a freed event that is
  -- read.
  pub data Ended : Type 0 where
    ended : RInfo → Threads → Ended
    crashes : Threads → Ended
    exits_early : verbs.World → Ended
    stays : Ended

  -- behind client_disconnect_and_clean
  unfoldable pub disconnected : RInfo → Threads → Return verbs.World → Result fab → Ended
  disconnected r s q (none, t) = crashes (record s { world = leave q.client.world t.world })
  disconnected r s q (some ret, t) =
      ended (record { req = q.client.req; sockfd = q.client.sockfd; ops = t.ops })
        (record s { world = leave q.client.world t.world })

  unfoldable pub closed : RInfo → Threads → Outcome verbs.World → Ended
  unfolding disconnected
  closed r s waits = stays
  closed r s (exits w) = exits_early w
  closed r s (returns q) =
      disconnected r s q
        (client_disconnect_and_clean fab (record { world = enter q.client.world; ops = r.ops }))

  unfoldable pub end_connection : (fuel : ℕ) → Found → Ended
  unfolding closed
  end_connection fuel (ready r s) = closed r s (ask fuel r s.world (code req_del_rdma_conn))
  end_connection fuel (null s) = crashes s
  end_connection fuel (process_exits w) = exits_early w
  end_connection fuel hangs = stays

  -- the entry of the thread in the table, and its data, which the key's destructor frees
  unfoldable pub forgotten : (tid : ℕ) → Ended → Ended
  forgotten tid (ended r s) =
      ended r
        (record s { tls = with_tls s.tls tid none; fd_ht = (fd_delete_by_value s.fd_ht tid).1 })
  forgotten tid (crashes s) = crashes s
  forgotten tid (exits_early w) = exits_early w
  forgotten tid stays = stays

  unfoldable pub req_pthread_exit : (fuel tid : ℕ) → (malloc : Bool) → RInfo → Threads → Ended
  unfolding get_r_info end_connection forgotten
  req_pthread_exit fuel tid malloc raw s =
      forgotten tid (end_connection fuel (get_r_info fuel tid malloc raw s))

  -- what my_main returns, with the connection that it ends; -1 where there is no connection; or an
  -- end before its return
  pub data Main : Type 0 where
    finished : (ret : ℕ) → RInfo → Threads → Main
    not_connected : (ret : ℕ) → fab.World → Main
    stops : Ended → Main

  unfoldable pub main_ended : Ended → Main
  main_ended (ended r s) = finished 0 r s
  main_ended (crashes s) = stops (crashes s)
  main_ended (exits_early w) = stops (exits_early w)
  main_ended stays = stops stays

  unfoldable pub main_connected :
      (fuel tid : ℕ)
      → (malloc : Bool) → RInfo
      → (Threads → ℕ × Threads)
      → verbs.World
      → Result fab
      → Main
  unfolding get_r_info end_connection main_ended
  main_connected fuel tid malloc raw main w (none, t) = stops stays
  main_connected fuel tid malloc raw main w (some ret, t) =
      let s : Threads = record {
        world = leave w t.world;
        global = record raw { ops = t.ops };
        tls = λ j. none;
        fd_ht = create_hash_table;
      } in
      let rest = main_ended (end_connection fuel (get_r_info fuel tid malloc raw (main s).1)) in
      if ret == 0 then rest else not_connected minus_one t.world

  -- `main` is the program's, with what it returns, and `tid` is the first thread.
  unfoldable pub my_main :
      (fuel tid : ℕ) → (malloc : Bool) → RInfo → (Threads → ℕ × Threads) → verbs.World → Main
  unfolding main_connected
  my_main fuel tid malloc raw main w =
      main_connected fuel tid malloc raw main w
        (connect_server fab fuel (record { world = enter w; ops = [] }))
