-- ===== src/Rdma.antt =====
-- What the set-up of a connection calls of the connection manager and the verbs library, on either
-- side: calls that make a resource or fail, with early returns, and process_rdma_cm_event and
-- process_work_completion_events of host/rdma_common.c, whose text snic/rdma_common.c repeats. The
-- state keeps the order in which resources are made and destroyed.
pub mod Making
pub mod Held
pub mod Ending
pub mod Buffers
pub mod Card
pub mod Address
pub mod Tests
use socket_to_rdma.Base.{
  ℕ, zero, suc, ◌+◌, ◌-◌, Bool, Option, none, some, List, [], ◌∷◌, ◌++◌, ◌==◌, ltb, if◌then◌else◌,
  is_neg, minus_one, neg32,
}
use socket_to_rdma.Card.Env.{Answer}

-- what `r_info` and `c_info` hold of the library's: the channel of events, the identifier, the
-- protection domain, the channel of completions, the queue, the queue pair, and the registered memory
-- of the request, the server's metadata, the return message and the client's metadata; and the
-- identifier that the card listens on
pub data Resource : Type 0 where
  cm_event_channel cm_server_id cm_client_id pd io_completion_channel client_cq client_qp : Resource
  req_mr server_metadata_mr rtn_mr client_metadata_mr : Resource

-- calls that make nothing
pub data CmCall : Type 0 where
  resolve_addr resolve_route bind_addr listen connect_id accept disconnect_id ack_cm_event : CmCall
  post_recv post_send req_notify_cq get_cq_event ack_cq_events create_thread : CmCall

-- `enum rdma_cm_event_type`, as far as it is waited for
pub data EventType : Type 0 where
  addr_resolved route_resolved connect_request established disconnected other_event : EventType

pub record Made (W : Type 0) : Type 0 where
  -- the pointer is not NULL, or the value is 0
  pub ok : Bool
  pub errno : ℕ
  pub world : W

pub record CmEvent : Type 0 where
  pub status : ℕ
  pub event : EventType

-- the connection manager and the verbs library
pub record Fabric : Type 1 where
  pub World : Type 0
  pub create : Resource → World → Made World
  -- the value of a destroy, which is at most printed, is left out
  pub destroy : Resource → World → World
  pub call : CmCall → World → Answer World
  pub get_cm_event : World → Answer World × CmEvent
  -- at most `n` completions; their statuses
  pub poll_cq : World → (n : ℕ) → Answer World × List ℕ

-- what has been made, and what the library's destroy has been called of: the source tests some of
-- the destroys, prints and goes on, so that a failure has no other effect on it
pub data Op : Type 0 where
  made destroyed : Resource → Op

pub record Setup (W : Type 0) : Type 0 where
  pub world : W
  pub ops : List Op

abbrev pub is_event : EventType → EventType → Bool
is_event addr_resolved addr_resolved = Bool.true
is_event route_resolved route_resolved = Bool.true
is_event connect_request connect_request = Bool.true
is_event established established = Bool.true
is_event disconnected disconnected = Bool.true
is_event _ _ = Bool.false

-- the first status that is not 0, or 0
unfoldable pub bad_status : List ℕ → ℕ
bad_status [] = 0
bad_status (s ∷ ss) = let rest = bad_status ss in if s == 0 then rest else s

-- `-ENOMEM`
abbrev pub no_memory : ℕ
no_memory = neg32 12

module _ (fab : Fabric) where
  -- a value returned and the state; `none` is still polling when the fuel ends
  abbrev pub Result : Type 0
  Result = Option ℕ × Setup fab.World

  abbrev pub in_world : Setup fab.World → fab.World → Setup fab.World
  in_world s w = record s { world = w }

  abbrev pub ends : ℕ → Setup fab.World → Result
  ends ret s = (some ret, s)

  -- a call whose failure returns `-errno`
  unfoldable pub call_or : CmCall → (Setup fab.World → Result) → Setup fab.World → Result
  call_or c k s =
      let a = fab.call c s.world in
      let rest = k (in_world s a.world) in
      if a.value == 0 then rest else (some (neg32 a.errno), in_world s a.world)

  -- the making of a resource, with what is returned if it fails, by its `errno`
  unfoldable pub make_or :
      Resource → (ℕ → ℕ) → (Setup fab.World → Result) → Setup fab.World → Result
  make_or r err k s =
      let m = fab.create r s.world in
      let rest = k (record { world = m.world; ops = s.ops ++ made r ∷ [] }) in
      if m.ok then rest else (some (err m.errno), in_world s m.world)

  -- `ret = f(); if (ret) return ret;`
  unfoldable pub then_or : Result → (Setup fab.World → Result) → Result
  then_or (none, s) k = (none, s)
  then_or (some ret, s) k = let rest = k s in if ret == 0 then rest else (some ret, s)

  unfoldable pub process_rdma_cm_event : EventType → Setup fab.World → Result
  process_rdma_cm_event expected s =
      let (a, e) = fab.get_cm_event s.world in
      let acked = in_world s (fab.call ack_cm_event a.world).world in
      if a.value == 0
      then if e.status == 0
        then if is_event e.event expected then ends 0 (in_world s a.world) else ends minus_one acked
        else ends (neg32 e.status) acked
      else ends (neg32 a.errno) (in_world s a.world)

  abbrev pub wait_or : EventType → (Setup fab.World → Result) → Setup fab.World → Result
  wait_or e k s = then_or (process_rdma_cm_event e s) (call_or ack_cm_event k)

  -- The polling for `max` completions, of which `total` are there. The event is acknowledged where no
  -- status is bad.
  unfoldable pub reap : (fuel max total : ℕ) → List ℕ → Setup fab.World → Result
  unfolding bad_status
  reap zero max total found s = (none, s)
  reap (suc fuel) max total found s =
      let (a, ss) = fab.poll_cq s.world (max - total) in
      let t = in_world s a.world in
      let sum = total + a.value in
      let rest = reap fuel max sum (found ++ ss) t in
      let bad = bad_status (found ++ ss) in
      let acked = in_world t (fab.call ack_cq_events a.world).world in
      if is_neg a.value
      then ends a.value t
      else if ltb sum max
      then rest
      else if bad == 0
      then ends sum acked
      else ends (neg32 bad) t

  unfoldable pub process_work_completion_events : (fuel max : ℕ) → Setup fab.World → Result
  unfolding call_or reap
  process_work_completion_events fuel max =
      call_or get_cq_event (call_or req_notify_cq (reap fuel max 0 []))

  unfoldable pub destroy : Resource → Setup fab.World → Setup fab.World
  destroy r s = record { world = fab.destroy r s.world; ops = s.ops ++ destroyed r ∷ [] }
