-- ===== src/Rdma/Card.antt =====
-- The card's own text, in snic/rdma_common.c, of the waits for an event and for completions, against
-- the host's.
use socket_to_rdma.Base.{
  ℕ, zero, suc, ◌+◌, ◌-◌, ◌≡◌, refl, none, List, [], ◌++◌, ◌==◌, ltb, not, if◌then◌else◌, is_neg,
  minus_one, neg32, arith,
}
use socket_to_rdma.Rdma.{
  ack_cm_event, get_cq_event, req_notify_cq, ack_cq_events, EventType, is_event, Fabric, Setup,
  Result, in_world, ends, call_or, bad_status, process_rdma_cm_event, reap,
  process_work_completion_events,
}

module _ (fab : Fabric) where
  -- the tests in the source's order, each with its early return
  unfoldable pub card_process_rdma_cm_event : EventType → Setup fab.World → Result fab
  card_process_rdma_cm_event expected s =
      let (a, e) = fab.get_cm_event s.world in
      let got = in_world fab s a.world in
      let acked = in_world fab s (fab.call ack_cm_event a.world).world in
      if not (a.value == 0)
      then ends fab (neg32 a.errno) got
      else if not (e.status == 0)
      then ends fab (neg32 e.status) acked
      else if not (is_event e.event expected)
      then ends fab minus_one acked
      else ends fab a.value got

  -- the check of the completions, and the acknowledgement
  unfoldable pub card_checked : (total : ℕ) → List ℕ → Setup fab.World → Result fab
  unfolding bad_status
  card_checked total found s =
      if bad_status found == 0
      then ends fab total (in_world fab s (fab.call ack_cq_events s.world).world)
      else ends fab (neg32 (bad_status found)) s

  -- the `do` loop; `none` where it still polls when the fuel ends
  unfoldable pub card_reap : (fuel max total : ℕ) → List ℕ → Setup fab.World → Result fab
  unfolding card_checked
  card_reap zero max total found s = (none, s)
  card_reap (suc fuel) max total found s =
      let (a, ss) = fab.poll_cq s.world (max - total) in
      let t = in_world fab s a.world in
      let again = card_reap fuel max (total + a.value) (found ++ ss) t in
      if is_neg a.value
      then ends fab a.value t
      else if ltb (total + a.value) max
      then again
      else card_checked (total + a.value) (found ++ ss) t

  unfoldable pub card_process_work_completion_events : (fuel max : ℕ) → Setup fab.World → Result fab
  unfolding card_reap
  card_process_work_completion_events fuel max s =
      let got = fab.call get_cq_event s.world in
      let asked = fab.call req_notify_cq got.world in
      let rest = card_reap fuel max 0 [] (in_world fab s asked.world) in
      if not (got.value == 0)
      then ends fab (neg32 got.errno) (in_world fab s got.world)
      else if not (asked.value == 0)
      then ends fab (neg32 asked.errno) (in_world fab s asked.world)
      else rest

  cm_event-eq :
      (expected : EventType) (s : Setup fab.World)
      → card_process_rdma_cm_event expected s ≡ process_rdma_cm_event fab expected s
  unfolding card_process_rdma_cm_event process_rdma_cm_event
  cm_event-eq expected s = ground arith

  reap-eq :
      (fuel max total : ℕ) (found : List ℕ) (s : Setup fab.World)
      → card_reap fuel max total found s ≡ reap fab fuel max total found s
  unfolding card_reap card_checked reap
  reap-eq zero max total found s = refl
  reap-eq (suc fuel) max total found s =
      let (a, ss) = fab.poll_cq s.world (max - total) in
      let again = reap-eq fuel max (total + a.value) (found ++ ss) (in_world fab s a.world) in
      ground (arith, again)

  -- The card's waits for an event and for completions return what the host's do, and leave the same
  -- state, whatever the library answers and however long they poll.
  pub waits_agree :
      (expected : EventType) (fuel max : ℕ) (s : Setup fab.World)
      → (card_process_rdma_cm_event expected s ≡ process_rdma_cm_event fab expected s)
        × (card_process_work_completion_events fuel max s
            ≡ process_work_completion_events fab fuel max s)
  unfolding card_process_work_completion_events process_work_completion_events call_or
  waits_agree expected fuel max s =
      let w = (fab.call get_cq_event s.world).world in
      let w' = (fab.call req_notify_cq w).world in
      let polls = reap-eq fuel max 0 [] (in_world fab s w') in
      (cm_event-eq expected s, ground (arith, polls))
