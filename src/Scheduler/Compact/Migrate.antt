-- ===== src/Scheduler/Compact/Migrate.antt =====
-- The compact policy for a migration request.
use faabric.Prelude.{◌≡◌, refl, ap, ◌∙◌, List, ◌∷◌, [], length}
use faabric.Prelude.Int.{pos, to_u32}
use faabric.Prelude.Results.{ok}
use faabric.Batch.{Message, BatchExecuteRequest}
use faabric.Scheduler.Decision.{SchedulingDecision, new_decision, not_enough_slots_decision}
use faabric.Scheduler.Hosts.{
  HostState, HostMap, InFlightReqs, dist_change, get_decision_type, old_decision_of, map_values,
}
use faabric.Scheduler.Histogram.{get_host_freq_count}
use faabric.Scheduler.Pack.{pack}
use faabric.Scheduler.Sorting.{sort, free_app_slots, is_first_host_fuller}
use faabric.Scheduler.Placement.{sort-SameSlots, Packed-SameSlots, pack-Packed}
use faabric.Scheduler.Minimise.Spec.{AllNamed}
use faabric.Scheduler.Minimise.Correct.{IsAligned}
use faabric.Scheduler.Migration.{
  NamedHosts, Migration, migrate, slots_at-NamedHosts, free_app_slots-NamedHosts,
}
use faabric.Scheduler.Compact.{
  filter_hosts, get_sorted_hosts, choose_migration, is_first_decision_better, finish,
  make_scheduling_decision,
}
use faabric.Scheduler.Compact.Place.{bind_hosts}
use faabric.Scheduler.Compact.Others.{filter_hosts-NamedHosts}

module _ (host_map : HostMap) (in_flight : InFlightReqs) (req : BatchExecuteRequest)
    (old : SchedulingDecision) (same_old : old_decision_of in_flight req ≡ ok old) where
  abbrev freed : HostMap
  freed = free_app_slots (get_host_freq_count old) (filter_hosts host_map in_flight req)

  abbrev sorted : List HostState
  sorted = sort is_first_host_fuller (map_values freed)

  sorted_hosts :
      get_sorted_hosts (filter_hosts host_map in_flight req) in_flight req dist_change
      ≡ ok (freed, sorted)
  sorted_hosts = unfold get_sorted_hosts in rw same_old refl

  choice :
      (d : SchedulingDecision)
      → finish freed in_flight req dist_change ([], d) ≡ choose_migration freed d old
  choice d = unfold finish in rw same_old refl

  full :
      (m : Message) (ms : List Message) (d : SchedulingDecision)
      → finish freed in_flight req dist_change (m ∷ ms, d) ≡ ok not_enough_slots_decision
  full m ms d = unfold finish in refl

  -- A migration request for an app in flight whose decision has parallel columns and no empty host
  -- name, and as many messages as that decision, on a map with no empty host name, throws no
  -- exception. On the hosts that run no message of another user, with the app's own slots free, it
  -- is refused exactly when there is no room; else a placement of its messages is found and, if that
  -- leaves more hosts free than the old decision, the result has the old decision's messages in
  -- their old order with each host as often as the placement has it, and if not the result is not to
  -- migrate.
  pub compact_migrates :
      get_decision_type in_flight req ≡ dist_change
      → IsAligned old
      → AllNamed old.hosts
      → NamedHosts host_map
      → length req.messages ≡ length old.hosts
      → (d : SchedulingDecision) × (make_scheduling_decision host_map in_flight req ≡ ok d)
        × Migration
            (λ packed. is_first_decision_better freed packed old)
            not_enough_slots_decision
            (map_values freed)
            req.messages
            old
            d
  unfolding make_scheduling_decision
  compact_migrates kind a named hosts_named same =
      let start = new_decision (to_u32 req.app_id) (pos 0) in
      let filtered = filter_hosts host_map in_flight req in
      let (d, run, outcome) =
        migrate (map_values freed) req.messages old
          (λ packed. is_first_decision_better freed packed old) not_enough_slots_decision
          (λ packed. choose_migration freed packed old) (finish freed in_flight req dist_change)
          (λ packed. unfold choose_migration in refl) full choice
          (slots_at-NamedHosts freed (
            free_app_slots-NamedHosts _ filtered
              (filter_hosts-NamedHosts host_map in_flight req hosts_named)))
          a named same (pack sorted req.messages start)
          (Packed-SameSlots sorted (map_values freed) req.messages _
            (sort-SameSlots is_first_host_fuller (map_values freed))
            (pack-Packed sorted req.messages (to_u32 req.app_id))) in
      (
        d,
        bind_hosts
            (λ m x.
              finish m in_flight req (get_decision_type in_flight req) (pack x req.messages start))
            (get_sorted_hosts filtered in_flight req (get_decision_type in_flight req))
            (ap (get_sorted_hosts filtered in_flight req) kind ∙ sorted_hosts)
            (ap (λ k. finish freed in_flight req k (pack sorted req.messages start)) kind ∙ run),
        outcome,
      )
