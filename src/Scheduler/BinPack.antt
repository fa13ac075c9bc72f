-- ===== src/Scheduler/BinPack.antt =====
-- src/batch-scheduler/BinPackScheduler.cpp.
pub mod Place
pub mod Migrate
use faabric.Prelude.{
  ℕ, ◌+◌, ◌*◌, ◌/◌, Bool, false, ◌&&◌, not, List, [], ◌∷◌, String, length, ltb, ◌==◌, if◌then◌else◌,
  same_name,
}
use faabric.Prelude.Results.{Result, ok, throws, ◌>>=◌}
use faabric.Prelude.Int.{pos, to_u32}
use faabric.Batch.{BatchExecuteRequest, Message}
use faabric.Scheduler.Decision.{
  SchedulingDecision, Error, undefined_behaviour, not_supported, new_decision,
  not_enough_slots_decision, do_not_migrate_decision,
}
use faabric.Scheduler.Hosts.{
  HostState, HostMap, InFlightReqs, DecisionType, new, dist_change, scale_change, no_decision_type,
  get_decision_type, old_decision_of, map_values,
}
use faabric.Scheduler.Histogram.{Histogram, get_host_freq_count}
use faabric.Scheduler.Pack.{pack}
use faabric.Scheduler.Sorting.{
  sort, free_app_slots, is_first_host_larger, is_first_host_larger_with_freq,
  is_first_host_larger_with_freq_taint,
}
use faabric.Scheduler.Minimise.{minimise_num_of_migrations}

-- `thisHostScore`: the messages on the other hosts.
this_host_score : String → Histogram → ℕ
this_host_score host [] = 0
this_host_score host ((inner_host, inner_freq) ∷ m) =
    (if same_name inner_host host then 0 else inner_freq) + this_host_score host m

-- The loop over the entries `m` of the histogram `hist`.
sum_scores : Histogram → Histogram → ℕ
unfolding this_host_score
sum_scores hist [] = 0
sum_scores hist ((host, freq) ∷ m) = this_host_score host hist * freq + sum_scores hist m

-- `getLocalityScore`: the number of hosts and of cross-host links.
get_locality_score : SchedulingDecision → ℕ × ℕ
unfolding sum_scores
get_locality_score decision =
    let hist = get_host_freq_count decision in
    if length hist == 1 then (1, 0) else (length hist, sum_scores hist hist / 2)

unfoldable pub is_first_decision_better : SchedulingDecision → SchedulingDecision → Bool
unfolding get_locality_score
is_first_decision_better a b =
    let (hosts_a, score_a) = get_locality_score a in
    let (hosts_b, score_b) = get_locality_score b in
    if not (hosts_a == hosts_b) then ltb hosts_a hosts_b else ltb score_a score_b

-- The host map after the slots of the app were freed, and the hosts in the order to fill them.
unfoldable pub get_sorted_hosts :
    HostMap
    → InFlightReqs
    → BatchExecuteRequest
    → DecisionType
    → Result Error (HostMap × List HostState)
get_sorted_hosts host_map in_flight req new =
    ok (host_map, sort is_first_host_larger (map_values host_map))
get_sorted_hosts host_map in_flight req scale_change = do
  old ← old_decision_of in_flight req
  ok (
    host_map,
    sort (is_first_host_larger_with_freq (get_host_freq_count old)) (map_values host_map),
  )
get_sorted_hosts host_map in_flight req dist_change = do
  old ← old_decision_of in_flight req
  let hist = get_host_freq_count old
  let freed = free_app_slots hist host_map
  ok (freed, sort (is_first_host_larger_with_freq_taint hist) (map_values freed))
get_sorted_hosts host_map in_flight req no_decision_type = throws not_supported

-- `sortedHosts.erase(begin + 1, end)`, which is undefined on no hosts.
keep_first : List HostState → Result Error (List HostState)
keep_first [] = throws undefined_behaviour
keep_first (h ∷ hs) = ok (h ∷ [])

first_is_omp : List Message → Bool
first_is_omp [] = false
first_is_omp (msg ∷ msgs) = msg.is_omp

-- For an OpenMP request with the single-host hint only one host is considered.
pub restrict_hosts : BatchExecuteRequest → List HostState → Result Error (List HostState)
unfolding keep_first first_is_omp
restrict_hosts req hosts =
    if req.single_host_hint && first_is_omp req.messages then keep_first hosts else ok hosts

-- What follows the bin-pack loop for a migration that fits.
unfoldable pub choose_migration :
    SchedulingDecision → SchedulingDecision → Result Error SchedulingDecision
unfolding is_first_decision_better
choose_migration decision old =
    if is_first_decision_better decision old
    then minimise_num_of_migrations decision old
    else ok do_not_migrate_decision

unfoldable pub finish :
    InFlightReqs
    → BatchExecuteRequest
    → DecisionType
    → List Message × SchedulingDecision
    → Result Error SchedulingDecision
unfolding choose_migration
finish in_flight req kind (msg ∷ left, decision) = ok not_enough_slots_decision
finish in_flight req dist_change ([], decision) = do
  old ← old_decision_of in_flight req
  choose_migration decision old
finish in_flight req other ([], decision) = ok decision

unfoldable pub make_scheduling_decision :
    HostMap → InFlightReqs → BatchExecuteRequest → Result Error SchedulingDecision
unfolding get_sorted_hosts restrict_hosts finish
make_scheduling_decision host_map in_flight req = do
  let decision_type = get_decision_type in_flight req
  (m, sorted) ← get_sorted_hosts host_map in_flight req decision_type
  hosts ← restrict_hosts req sorted
  finish in_flight req decision_type
      (pack hosts req.messages (new_decision (to_u32 req.app_id) (pos 0)))
