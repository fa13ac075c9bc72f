-- ===== src/Scheduler/Forced.antt =====
-- src/batch-scheduler/ForcedMigrationScheduler.cpp. The counter of migration checks is passed along;
-- it is a number that does not wrap, as the source's `int` does after 2^31 checks.
use faabric.Prelude.{
  ℕ, zero, suc, ◌+◌, ◌%◌, Bool, true, false, ◌&&◌, not, List, [], ◌∷◌, String, length, ltb, ◌==◌,
  get_or, if◌then◌else◌, name_key, same_name, map,
}
use faabric.Prelude.Results.{Result, ok, throws, ◌>>=◌}
use faabric.Prelude.Int.{pos, negsuc, to_u32}
use faabric.Prelude.Maps.{insert}
use faabric.Batch.{BatchExecuteRequest, Message}
use faabric.Scheduler.Decision.{
  SchedulingDecision, Error, no_host_with_free_slots, new_decision, not_enough_slots_decision,
  do_not_migrate_decision,
}
use faabric.Scheduler.Hosts.{
  HostState, HostMap, InFlightReqs, DecisionType, dist_change, num_slots_available,
  get_decision_type, old_decision_of, map_values,
}
use faabric.Scheduler.Histogram.{Histogram, freq, take_slot, get_host_freq_count}
use faabric.Scheduler.Pack.{pack}
use faabric.Scheduler.Sorting.{sort, free_app_slots, is_first_host_larger}
use faabric.Scheduler.Minimise.{place_at}

unfoldable pub get_sorted_hosts :
    HostMap → InFlightReqs → BatchExecuteRequest → DecisionType → Result Error (List HostState)
get_sorted_hosts host_map in_flight req dist_change = do
  old ← old_decision_of in_flight req
  ok (sort is_first_host_larger (map_values (free_app_slots (get_host_freq_count old) host_map)))
get_sorted_hosts host_map in_flight req other = ok (sort is_first_host_larger (map_values host_map))

-- `avail`: the free slots of each host.
availability : List HostState → Histogram → Histogram
availability [] avail = avail
availability (h ∷ hs) avail = availability hs (insert h.ip (num_slots_available h) avail)

-- `startIdx`: the place of the host in the order, 0 where it is not there.
start_idx : String → List String → ℕ → ℕ
start_idx current [] i = 0
start_idx current (h ∷ hs) i =
    let rest = start_idx current hs (suc i) in if same_name h current then i else rest

-- The scan for another host with a free slot, with `left` rounds left from `off` on.
scan_hosts : String → List String → Histogram → ℕ → ℕ → ℕ → Result Error String
scan_hosts current order avail start off zero =
    if ltb 0 (freq current avail) then ok current else throws no_host_with_free_slots
scan_hosts current order avail start off (suc left) =
    let cand = get_or order ((start + off) % length order) "" in
    let rest = scan_hosts current order avail start (suc off) left in
    if not (same_name cand current) && ltb 0 (freq cand avail) then ok cand else rest

next_host_after : String → List String → Histogram → Result Error String
unfolding start_idx scan_hosts
next_host_after current order avail =
    scan_hosts current order avail (start_idx current order 0) 1 (length order)

-- The loop of `rotatePlacement` from message `i` on.
rotate_from :
    SchedulingDecision
    → List String
    → ℕ
    → List String
    → Histogram
    → SchedulingDecision
    → Result Error SchedulingDecision
unfolding next_host_after
rotate_from old order i [] avail d = ok d
rotate_from old order i (old_host ∷ old_hosts) avail d =
    next_host_after old_host order avail >>= λ new_host.
    rotate_from old order (suc i) old_hosts (take_slot new_host avail)
      (place_at old i new_host (negsuc 0) d)

rotate_placement : SchedulingDecision → List HostState → Result Error SchedulingDecision
unfolding availability rotate_from
rotate_placement old sorted =
    rotate_from old (map (λ h. h.ip) sorted) 0 old.hosts (availability sorted [])
      (new_decision old.app_id old.group_id)

hosts_differ : List String → List String → Bool
hosts_differ [] [] = false
hosts_differ [] (y ∷ ys) = true
hosts_differ (x ∷ xs) [] = true
hosts_differ (x ∷ xs) (y ∷ ys) = if same_name x y then hosts_differ xs ys else true

decisions_differ : SchedulingDecision → SchedulingDecision → Bool
unfolding hosts_differ
decisions_differ a b = hosts_differ a.hosts b.hosts

abbrev migrate_every_n_checks : ℕ
migrate_every_n_checks = 10

-- The decision for a migration, at the n-th check.
force_migration :
    ℕ → List HostState → InFlightReqs → BatchExecuteRequest → Result Error SchedulingDecision
unfolding rotate_placement decisions_differ
force_migration n sorted in_flight req =
    if not (n % migrate_every_n_checks == 0) then ok do_not_migrate_decision else do
      old ← old_decision_of in_flight req
      rotated ← rotate_placement old sorted
      if decisions_differ rotated old then ok rotated else ok do_not_migrate_decision

pack_result : List Message × SchedulingDecision → SchedulingDecision
pack_result (msg ∷ left, decision) = not_enough_slots_decision
pack_result ([], decision) = decision

decide :
    ℕ
    → List HostState
    → InFlightReqs
    → BatchExecuteRequest
    → DecisionType
    → Result Error SchedulingDecision × ℕ
unfolding force_migration pack_result
decide counter sorted in_flight req dist_change =
    (force_migration (counter + 1) sorted in_flight req, counter + 1)
decide counter sorted in_flight req other = (
  ok (pack_result (pack sorted req.messages (new_decision (to_u32 req.app_id) (pos 0)))),
  counter,
)

-- The decision and the new counter.
unfoldable pub make_scheduling_decision :
    ℕ → HostMap → InFlightReqs → BatchExecuteRequest → Result Error SchedulingDecision × ℕ
unfolding get_sorted_hosts decide
make_scheduling_decision counter host_map in_flight req =
    let decision_type = get_decision_type in_flight req in
    elim (get_sorted_hosts host_map in_flight req decision_type) [
      | throws e ↦ (throws e, counter)
      | ok sorted ↦ decide counter sorted in_flight req decision_type
    ]
