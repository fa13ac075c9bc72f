-- ===== src/Scheduler/BinPack/Migrate.antt =====
-- The bin-pack policy for a migration request.
use faabric.Prelude.{◌≡◌, refl, ap, ◌∙◌, List, ◌∷◌, [], length, false}
use faabric.Prelude.Int.{pos, to_u32}
use faabric.Prelude.Results.{ok}
use faabric.Batch.{Message, BatchExecuteRequest}
use faabric.Scheduler.Decision.{SchedulingDecision, new_decision, not_enough_slots_decision}
use faabric.Scheduler.Hosts.{
  HostState, HostMap, InFlightReqs, dist_change, get_decision_type, old_decision_of, map_values,
}
use faabric.Scheduler.Histogram.{get_host_freq_count}
use faabric.Scheduler.Pack.{pack}
use faabric.Scheduler.Sorting.{sort, free_app_slots, is_first_host_larger_with_freq_taint}
use faabric.Scheduler.Placement.{sort-SameSlots, Packed-SameSlots, pack-Packed}
use faabric.Scheduler.Minimise.Spec.{AllNamed}
use faabric.Scheduler.Minimise.Correct.{IsAligned}
use faabric.Scheduler.Migration.{
  NamedHosts, Migration, migrate, slots_at-NamedHosts, free_app_slots-NamedHosts,
}
use faabric.Scheduler.BinPack.{
  get_sorted_hosts, restrict_hosts, choose_migration, is_first_decision_better, finish,
  make_scheduling_decision,
}
use faabric.Scheduler.BinPack.Place.{bind_two, unrestricted}

module _ (host_map : HostMap) (in_flight : InFlightReqs) (req : BatchExecuteRequest)
    (old : SchedulingDecision) (same_old : old_decision_of in_flight req ≡ ok old) where
  abbrev freed : HostMap
  freed = free_app_slots (get_host_freq_count old) host_map

  abbrev sorted : List HostState
  sorted = sort (is_first_host_larger_with_freq_taint (get_host_freq_count old)) (map_values freed)

  sorted_hosts : get_sorted_hosts host_map in_flight req dist_change ≡ ok (freed, sorted)
  sorted_hosts = unfold get_sorted_hosts in rw same_old refl

  choice :
      (d : SchedulingDecision) → finish in_flight req dist_change ([], d) ≡ choose_migration d old
  choice d = unfold finish in rw same_old refl

  full :
      (m : Message) (ms : List Message) (d : SchedulingDecision)
      → finish in_flight req dist_change (m ∷ ms, d) ≡ ok not_enough_slots_decision
  full m ms d = unfold finish in refl

  -- A migration request with no single-host hint, for an app in flight whose decision has parallel
  -- columns and no empty host name, and as many messages as that decision, on a map with no empty
  -- host name, throws no exception. Counting the app's own slots as free, it is refused exactly when
  -- there is no room; else a placement of its messages is found and, if that is better than the old
  -- decision, the result has the old decision's messages in their old order with each host as often
  -- as the placement has it, and if not the result is not to migrate.
  pub bin_pack_migrates :
      get_decision_type in_flight req ≡ dist_change
      → req.single_host_hint ≡ false
      → IsAligned old
      → AllNamed old.hosts
      → NamedHosts host_map
      → length req.messages ≡ length old.hosts
      → (d : SchedulingDecision) × (make_scheduling_decision host_map in_flight req ≡ ok d)
        × Migration
            (λ packed. is_first_decision_better packed old)
            not_enough_slots_decision
            (map_values freed)
            req.messages
            old
            d
  unfolding make_scheduling_decision
  bin_pack_migrates kind hint a named hosts_named same =
      let start = new_decision (to_u32 req.app_id) (pos 0) in
      let (d, run, outcome) =
        migrate (map_values freed) req.messages old (λ packed. is_first_decision_better packed old)
          not_enough_slots_decision (λ packed. choose_migration packed old)
          (finish in_flight req dist_change) (λ packed. unfold choose_migration in refl) full choice
          (slots_at-NamedHosts freed (free_app_slots-NamedHosts _ host_map hosts_named)) a named
          same (pack sorted req.messages start)
          (Packed-SameSlots sorted (map_values freed) req.messages _
            (sort-SameSlots (is_first_host_larger_with_freq_taint (get_host_freq_count old))
              (map_values freed))
            (pack-Packed sorted req.messages (to_u32 req.app_id))) in
      (
        d,
        bind_two (restrict_hosts req)
            (λ x.
              finish in_flight req (get_decision_type in_flight req) (pack x req.messages start))
            (get_sorted_hosts host_map in_flight req (get_decision_type in_flight req))
            (ap (get_sorted_hosts host_map in_flight req) kind ∙ sorted_hosts)
            (unrestricted req sorted hint)
            (ap (λ k. finish in_flight req k (pack sorted req.messages start)) kind ∙ run),
        outcome,
      )
