-- ===== src/Scheduler/Spot.antt =====
-- src/batch-scheduler/SpotScheduler.cpp.
pub mod Evicted
pub mod Place
pub mod Migrate
use faabric.Prelude.{Bool, true, false, List, [], ◌∷◌, String, if◌then◌else◌, name_key, same_name}
use faabric.Prelude.Results.{Result, ok, throws, ◌>>=◌}
use faabric.Prelude.Int.{pos, to_u32}
use faabric.Prelude.Maps.{contains, insert, erase, Map}
use faabric.Batch.{BatchExecuteRequest, Message}
use faabric.Scheduler.Decision.{
  SchedulingDecision, Error, not_supported, new_decision, not_enough_slots_decision,
  do_not_migrate_decision, must_freeze_decision,
}
use faabric.Scheduler.Hosts.{
  HostState, HostMap, InFlightReqs, DecisionType, new, dist_change, scale_change, no_decision_type,
  get_decision_type, old_decision_of, map_values,
}
use faabric.Scheduler.Histogram.{get_host_freq_count}
use faabric.Scheduler.Pack.{pack}
use faabric.Scheduler.Sorting.{
  sort, free_app_slots, is_first_host_larger, is_first_host_larger_with_freq,
}
use faabric.Scheduler.Minimise.{minimise_num_of_migrations}

abbrev pub must_evict_ip : String
must_evict_ip = "E.VI.CT.ME"

-- The first loop of `filterHosts`: the keys of the hosts that carry the mark.
pub ips_to_remove : HostMap → Map String (Unit {0})
ips_to_remove [] = []
ips_to_remove ((host_ip, host) ∷ m) =
    let rest = ips_to_remove m in
    if same_name host.ip must_evict_ip then insert host_ip tt rest else rest

erase_keys : Map String (Unit {0}) → HostMap → HostMap
erase_keys [] m = m
erase_keys ((ip, u) ∷ ips) m = erase_keys ips (erase ip m)

-- The map without the hosts to be evicted, and their names.
unfoldable pub filter_hosts : HostMap → HostMap × Map String (Unit {0})
unfolding ips_to_remove erase_keys
filter_hosts host_map = let ips = ips_to_remove host_map in (erase_keys ips host_map, ips)

unfoldable pub get_sorted_hosts :
    HostMap → InFlightReqs → BatchExecuteRequest → DecisionType → Result Error (List HostState)
get_sorted_hosts host_map in_flight req new = ok (sort is_first_host_larger (map_values host_map))
get_sorted_hosts host_map in_flight req scale_change = do
  old ← old_decision_of in_flight req
  ok (sort (is_first_host_larger_with_freq (get_host_freq_count old)) (map_values host_map))
get_sorted_hosts host_map in_flight req dist_change = do
  old ← old_decision_of in_flight req
  let hist = get_host_freq_count old
  ok (sort (is_first_host_larger_with_freq hist) (map_values (free_app_slots hist host_map)))
get_sorted_hosts host_map in_flight req no_decision_type = throws not_supported

-- The loop over the old hosts: does the app run on a host to be evicted?
pub runs_on_evicted : Map String (Unit {0}) → List String → Bool
runs_on_evicted evicted [] = false
runs_on_evicted evicted (ip ∷ ips) =
    if contains ip evicted then true else runs_on_evicted evicted ips

unfoldable pub choose_migration :
    Map String (Unit {0})
    → SchedulingDecision
    → SchedulingDecision
    → Result Error SchedulingDecision
unfolding runs_on_evicted
choose_migration evicted decision old =
    if runs_on_evicted evicted old.hosts
    then minimise_num_of_migrations decision old
    else ok do_not_migrate_decision

unfoldable pub finish :
    Map String (Unit {0})
    → InFlightReqs
    → BatchExecuteRequest
    → DecisionType
    → List Message × SchedulingDecision
    → Result Error SchedulingDecision
unfolding choose_migration
finish evicted in_flight req dist_change (msg ∷ left, decision) = ok must_freeze_decision
finish evicted in_flight req dist_change ([], decision) = do
  old ← old_decision_of in_flight req
  choose_migration evicted decision old
finish evicted in_flight req other (msg ∷ left, decision) = ok not_enough_slots_decision
finish evicted in_flight req other ([], decision) = ok decision

unfoldable pub make_scheduling_decision :
    HostMap → InFlightReqs → BatchExecuteRequest → Result Error SchedulingDecision
unfolding filter_hosts get_sorted_hosts finish
make_scheduling_decision host_map in_flight req = do
  let (filtered, evicted) = filter_hosts host_map
  let decision_type = get_decision_type in_flight req
  hosts ← get_sorted_hosts filtered in_flight req decision_type
  finish evicted in_flight req decision_type
      (pack hosts req.messages (new_decision (to_u32 req.app_id) (pos 0)))
