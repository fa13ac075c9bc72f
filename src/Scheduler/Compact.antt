-- ===== src/Scheduler/Compact.antt =====
-- src/batch-scheduler/CompactScheduler.cpp.
pub mod Others
pub mod Place
pub mod Migrate
use faabric.Prelude.{
  ℕ, ◌+◌, Bool, none, some, List, [], ◌∷◌, String, ltb, ◌==◌, if◌then◌else◌, name_key,
}
use faabric.Prelude.Results.{Result, ok, throws, ◌>>=◌}
use faabric.Prelude.Int.{pos, to_u32, int_eq}
use faabric.Prelude.Maps.{lookup, insert, erase}
use faabric.Batch.{BatchExecuteRequest, Message}
use faabric.Scheduler.Decision.{
  SchedulingDecision, Error, not_supported, new_decision, not_enough_slots_decision,
  do_not_migrate_decision,
}
use faabric.Scheduler.Hosts.{
  HostState, HostMap, InFlightReqs, DecisionType, new, dist_change, scale_change, no_decision_type,
  get_decision_type, old_decision_of, map_values,
}
use faabric.Scheduler.Histogram.{get_host_freq_count}
use faabric.Scheduler.Pack.{pack}
use faabric.Scheduler.Sorting.{
  sort, free_app_slots, is_first_host_larger, is_first_host_larger_with_freq, is_first_host_fuller,
}
use faabric.Scheduler.Minimise.{minimise_num_of_migrations}

get_num_free_hosts : HostMap → ℕ
get_num_free_hosts [] = 0
get_num_free_hosts ((ip, host) ∷ m) =
    let rest = get_num_free_hosts m in if host.used_slots == 0 then rest + 1 else rest

-- `newHostMap.at(hostIp)->usedSlots++`; the exception for a host that is missing is caught.
add_to_host : String → HostMap → HostMap
add_to_host ip m = elim (lookup ip m) [
  | none ↦ m
  | some host ↦ insert ip (record host { used_slots = host.used_slots + 1 }) m
]

-- `updateHostMapWithDecision` with "add". The map is a value, so the deep copy is the map itself.
update_host_map_with_decision : List String → HostMap → HostMap
unfolding add_to_host
update_host_map_with_decision [] m = m
update_host_map_with_decision (ip ∷ ips) m = update_host_map_with_decision ips (add_to_host ip m)

-- The new decision is better if it leaves more hosts free. The map is without the app's slots.
unfoldable pub is_first_decision_better : HostMap → SchedulingDecision → SchedulingDecision → Bool
unfolding get_num_free_hosts update_host_map_with_decision
is_first_decision_better host_map new_dec old_dec =
    let num_free_hosts_before =
      get_num_free_hosts (update_host_map_with_decision old_dec.hosts host_map) in
    let num_free_hosts_after =
      get_num_free_hosts (update_host_map_with_decision new_dec.hosts host_map) in
    ltb num_free_hosts_before num_free_hosts_after

erase_all : List String → HostMap → HostMap
erase_all [] m = m
erase_all (host ∷ hosts) m = erase_all hosts (erase host m)

-- Takes out every host that runs a message of a request with another sub-type (the user).
unfoldable pub filter_hosts : HostMap → InFlightReqs → BatchExecuteRequest → HostMap
unfolding erase_all
filter_hosts host_map [] req = host_map
filter_hosts host_map ((app_id, (other, decision)) ∷ in_flight) req =
    filter_hosts
      (if int_eq other.sub_type req.sub_type then host_map else erase_all decision.hosts host_map)
      in_flight req

unfoldable pub get_sorted_hosts :
    HostMap
    → InFlightReqs
    → BatchExecuteRequest
    → DecisionType
    → Result Error (HostMap × List HostState)
get_sorted_hosts host_map in_flight req new =
    ok (host_map, sort is_first_host_larger (map_values host_map))
get_sorted_hosts host_map in_flight req scale_change = do
  old ← old_decision_of in_flight req
  ok (
    host_map,
    sort (is_first_host_larger_with_freq (get_host_freq_count old)) (map_values host_map),
  )
get_sorted_hosts host_map in_flight req dist_change = do
  old ← old_decision_of in_flight req
  let freed = free_app_slots (get_host_freq_count old) host_map
  ok (freed, sort is_first_host_fuller (map_values freed))
get_sorted_hosts host_map in_flight req no_decision_type = throws not_supported

unfoldable pub choose_migration :
    HostMap → SchedulingDecision → SchedulingDecision → Result Error SchedulingDecision
unfolding is_first_decision_better
choose_migration host_map decision old =
    if is_first_decision_better host_map decision old
    then minimise_num_of_migrations decision old
    else ok do_not_migrate_decision

unfoldable pub finish :
    HostMap
    → InFlightReqs
    → BatchExecuteRequest
    → DecisionType
    → List Message × SchedulingDecision
    → Result Error SchedulingDecision
unfolding choose_migration
finish host_map in_flight req kind (msg ∷ left, decision) = ok not_enough_slots_decision
finish host_map in_flight req dist_change ([], decision) = do
  old ← old_decision_of in_flight req
  choose_migration host_map decision old
finish host_map in_flight req other ([], decision) = ok decision

unfoldable pub make_scheduling_decision :
    HostMap → InFlightReqs → BatchExecuteRequest → Result Error SchedulingDecision
unfolding filter_hosts get_sorted_hosts finish
make_scheduling_decision host_map in_flight req = do
  let filtered = filter_hosts host_map in_flight req
  let decision_type = get_decision_type in_flight req
  (m, hosts) ← get_sorted_hosts filtered in_flight req decision_type
  finish m in_flight req decision_type
      (pack hosts req.messages (new_decision (to_u32 req.app_id) (pos 0)))
