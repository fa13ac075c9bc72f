-- ===== src/Scheduler/Tests.antt =====
-- Runs of the scheduling policies on two hosts and two messages.
use faabric.Prelude.{
  ◌≡◌, ◌≢◌, refl, sym, ◌∙◌, true, false, List, [], ◌∷◌, String, arith, same_name, same_name_iff,
  name_key,
}
use faabric.Prelude.Int.{ℤ, pos, int_key}
use faabric.Prelude.Maps.{lookup, contains}
use faabric.Prelude.Results.{ok}
use faabric.Prelude.Counts.{count}
use faabric.Batch.{
  Message, BatchExecuteRequest, BatchExecuteType, migration, functions, threads, threads,
}
use faabric.Scheduler.Decision.{
  SchedulingDecision, new_decision, not_enough_slots_decision, must_freeze_decision,
}
use faabric.Scheduler.Hosts.{
  HostState, HostMap, InFlightReqs, dist_change, new, get_decision_type, old_decision_of,
  map_values,
}
use faabric.Scheduler.Histogram.{get_host_freq_count}
use faabric.Scheduler.Placement.{Outcome}
use faabric.Scheduler.Migration.{NamedHosts, Migration}
use faabric.Scheduler.Sorting.{free_app_slots}
use faabric.Scheduler.Minimise.{minimise_num_of_migrations}
use faabric.Scheduler.Minimise.Spec.{AllNamed}
use faabric.Scheduler.Minimise.Correct.{IsAligned, IsRelocation, minimised}
use faabric.Scheduler.Cache.{
  CacheKey, DecisionCache, same_key, cache_key, get_cache_key, get_cached_decision,
  add_cached_decision,
}
use faabric.Scheduler.Cache.Laws.{WellSized, get_cached_decision-add_cached_decision}
use faabric.Scheduler.BinPack as BinPack
use faabric.Scheduler.BinPack.Place.{bin_pack_places}
use faabric.Scheduler.BinPack.Migrate.{bin_pack_migrates}
use faabric.Scheduler.Compact as Compact
use faabric.Scheduler.Compact.Place.{compact_places}
use faabric.Scheduler.Compact.Migrate.{compact_migrates}
use faabric.Scheduler.Spot as Spot
use faabric.Scheduler.Spot.Place.{spot_places}
use faabric.Scheduler.Spot.Migrate.{spot_migrates}
use faabric.Scheduler.Spot.Evicted.{is_marked, filter_hosts_evicted_lem}
use faabric.Scheduler.Compact.Others.{runs_other_user, filter_hosts_users_lem}
use faabric.Scheduler.Hosts.{num_slots_available, claim_slots, free_slots}
use faabric.Scheduler.Hosts.Slots.{free_slots-claim_slots}
use faabric.Scheduler.Decision.{
  add_message_fields, remove_message, removing_non_existant_message, PointToPointMapping,
  from_point_to_point_mappings,
}
use faabric.Scheduler.Decision.Removal.{
  has_message, remove_message-add_message_fields, remove_message_cases,
}
use faabric.Scheduler.Decision.Mappings.{from_point_to_point_mappings_lem}
use faabric.Scheduler.Pack.{pack}
use faabric.Scheduler.Pack.Spec.{free_slot_list, fill, pack-eq-fill}
use faabric.Prelude.Results.{throws}
use faabric.Prelude.{◌⊎◌, ◌+◌, ◌≤◌, none, some, if◌then◌else◌, map}

abbrev some_message : ℤ → ℤ → Message
some_message id idx = record {
  id = id;
  app_id = pos 7;
  app_idx = idx;
  user = "demo";
  function = "echo";
  return_value = pos 0;
  group_id = pos 5;
  group_idx = idx;
  is_mpi = false;
  is_omp = false;
  is_rpc = false;
  is_long_running = false;
  executed_host = "10.0.0.1";
  main_host = "10.0.0.1";
  func_ptr = pos 0;
  input_data = "";
  snapshot_key = "";
  mpi_world_size = pos 0;
  omp_num_threads = pos 0;
}

abbrev two_messages : List Message
two_messages = some_message (pos 100) (pos 0) ∷ some_message (pos 101) (pos 1) ∷ []

abbrev request : BatchExecuteType → BatchExecuteRequest
request type = record {
  app_id = pos 7;
  group_id = pos 5;
  user = "demo";
  function = "echo";
  type = type;
  messages = two_messages;
  sub_type = pos 1;
  single_host_hint = false;
  elastic_scale_hint = false;
  context_data = "";
  single_host = false;
  snapshot_key = "";
}

-- The app runs on both hosts.
abbrev spread : SchedulingDecision
spread = record {
  app_id = 7;
  group_id = pos 5;
  n_functions = 2;
  hosts = "10.0.0.1" ∷ "10.0.0.2" ∷ [];
  message_ids = pos 100 ∷ pos 101 ∷ [];
  app_idxs = pos 0 ∷ pos 1 ∷ [];
  group_idxs = pos 0 ∷ pos 1 ∷ [];
  mpi_ports = pos 8020 ∷ pos 8021 ∷ [];
  return_host = "";
}

-- Both messages on the second host.
abbrev packed : SchedulingDecision
packed = record spread { hosts = "10.0.0.2" ∷ "10.0.0.2" ∷ [] }

abbrev two_hosts : HostMap
two_hosts =
    ("10.0.0.1", record { ip = "10.0.0.1"; slots = 2; used_slots = 2 })
    ∷ ("10.0.0.2", record { ip = "10.0.0.2"; slots = 4; used_slots = 1 })
    ∷ []

-- The first host is to be evicted.
abbrev evicted_host : HostMap
evicted_host =
    ("10.0.0.1", record { ip = "E.VI.CT.ME"; slots = 2; used_slots = 2 })
    ∷ ("10.0.0.2", record { ip = "10.0.0.2"; slots = 4; used_slots = 1 })
    ∷ []

abbrev running : InFlightReqs
running = (pos 7, (request functions, spread)) ∷ []

spread-IsAligned : IsAligned spread
spread-IsAligned = record { counted = refl; ids = refl; apps = refl; groups = refl; ports = refl }

named : (s : String) → same_name s "" ≡ false → s ≢ ""
named s e q = cc ((same_name_iff s "").1 q)

spread_named : AllNamed spread.hosts
spread_named = (named "10.0.0.1" refl, (named "10.0.0.2" refl, tt))

packed_named : AllNamed packed.hosts
packed_named = (named "10.0.0.2" refl, (named "10.0.0.2" refl, tt))

two_hosts-NamedHosts : NamedHosts two_hosts
two_hosts-NamedHosts = (named "10.0.0.1" refl, (named "10.0.0.2" refl, tt))

evicted_host-NamedHosts : NamedHosts evicted_host
evicted_host-NamedHosts = (named "E.VI.CT.ME" refl, (named "10.0.0.2" refl, tt))

migrates : get_decision_type running (request migration) ≡ dist_change
unfolding get_decision_type lookup
migrates = refl

spread_old : old_decision_of running (request migration) ≡ ok spread
unfolding old_decision_of lookup
spread_old = refl

request_is_new : get_decision_type [] (request functions) ≢ dist_change
request_is_new e = not_dist (sym type_lem ∙ e)
  where
    type_lem : get_decision_type [] (request functions) ≡ new
    type_lem = unfold get_decision_type lookup in refl

    not_dist : new ≢ dist_change
    not_dist e = cc

minimised_example :
    (d : SchedulingDecision) × (minimise_num_of_migrations packed spread ≡ ok d)
    × IsRelocation packed spread d
minimised_example = minimised packed spread spread-IsAligned packed_named spread_named refl

bin_pack_places_example :
    (d : SchedulingDecision) × (BinPack.make_scheduling_decision two_hosts [] (request functions)
      ≡ ok d)
    × Outcome (map_values two_hosts) two_messages d
bin_pack_places_example = bin_pack_places two_hosts [] (request functions) request_is_new refl

bin_pack_migrates_example :
    (d : SchedulingDecision) × (BinPack.make_scheduling_decision two_hosts running
        (request migration)
      ≡ ok d)
    × Migration
        (λ p. BinPack.is_first_decision_better p spread)
        not_enough_slots_decision
        (map_values (free_app_slots (get_host_freq_count spread) two_hosts))
        two_messages
        spread
        d
bin_pack_migrates_example =
    bin_pack_migrates two_hosts running (request migration) spread spread_old migrates refl
      spread-IsAligned spread_named two_hosts-NamedHosts refl

compact_places_example :
    (d : SchedulingDecision) × (Compact.make_scheduling_decision two_hosts [] (request functions)
      ≡ ok d)
    × Outcome (map_values (Compact.filter_hosts two_hosts [] (request functions))) two_messages d
compact_places_example = compact_places two_hosts [] (request functions) request_is_new

compact_migrates_example :
    (d : SchedulingDecision) × (Compact.make_scheduling_decision two_hosts running
        (request migration)
      ≡ ok d)
    × Migration
        (λ p.
          Compact.is_first_decision_better
            (free_app_slots
              (get_host_freq_count spread)
              (Compact.filter_hosts two_hosts running (request migration)))
            p
            spread)
        not_enough_slots_decision
        (map_values (
          free_app_slots
            (get_host_freq_count spread)
            (Compact.filter_hosts two_hosts running (request migration))))
        two_messages
        spread
        d
compact_migrates_example =
    compact_migrates two_hosts running (request migration) spread spread_old migrates
      spread-IsAligned spread_named two_hosts-NamedHosts refl

spot_places_example :
    (d : SchedulingDecision) × (Spot.make_scheduling_decision evicted_host [] (request functions)
      ≡ ok d)
    × Outcome (map_values (Spot.filter_hosts evicted_host).0) two_messages d
    × (count Spot.must_evict_ip d.hosts ≡ 0)
spot_places_example = spot_places evicted_host [] (request functions) request_is_new

spot_migrates_example :
    (d : SchedulingDecision) × (Spot.make_scheduling_decision evicted_host running
        (request migration)
      ≡ ok d)
    × Migration
        (λ p. Spot.runs_on_evicted (Spot.filter_hosts evicted_host).1 spread.hosts)
        must_freeze_decision
        (map_values
          (free_app_slots (get_host_freq_count spread) (Spot.filter_hosts evicted_host).0))
        two_messages
        spread
        d
spot_migrates_example =
    spot_migrates evicted_host running (request migration) spread spread_old migrates
      spread-IsAligned spread_named evicted_host-NamedHosts refl

compact_filter_example :
    lookup "10.0.0.1"
      (Compact.filter_hosts two_hosts running (record (request functions) { sub_type = pos 2 }))
    ≡ (if runs_other_user "10.0.0.1" running (record (request functions) { sub_type = pos 2 })
        then none
        else lookup "10.0.0.1" two_hosts)
compact_filter_example =
    filter_hosts_users_lem "10.0.0.1" two_hosts running
      (record (request functions) { sub_type = pos 2 })

spot_filter_example :
    (lookup "10.0.0.1" (Spot.filter_hosts evicted_host).0
      ≡ (if is_marked "10.0.0.1" evicted_host then none else lookup "10.0.0.1" evicted_host))
    × (contains "10.0.0.1" (Spot.filter_hosts evicted_host).1 ≡ is_marked "10.0.0.1" evicted_host)
spot_filter_example = filter_hosts_evicted_lem "10.0.0.1" evicted_host

abbrev small_host : HostState
small_host = record { ip = "10.0.0.2"; slots = 4; used_slots = 1 }

claim_example :
    ((claim_slots small_host 2).used_slots ≤ 4)
    × (2 ≤ num_slots_available small_host
        → (num_slots_available (claim_slots small_host 2) + 2 ≡ num_slots_available small_host)
          × (free_slots (claim_slots small_host 2) 2 ≡ small_host))
claim_example = free_slots-claim_slots small_host 2 (omega arith)

add_remove_example :
    remove_message (pos 102) (add_message_fields "10.0.0.2" (pos 102) (pos 2) (pos 2) spread)
    ≡ ok (pos 0, spread)
unfolding has_message
add_remove_example =
    remove_message-add_message_fields spread "10.0.0.2" (pos 102) (pos 2) (pos 2) spread-IsAligned
      refl

remove_example :
    ((has_message (pos 101) spread.message_ids ≡ false)
      × (remove_message (pos 101) spread ≡ throws removing_non_existant_message))
    ⊎ ((has_message (pos 101) spread.message_ids ≡ true)
        × ((port : ℤ) × (d' : SchedulingDecision) × (remove_message (pos 101) spread
              ≡ ok (port, d'))
            × IsAligned d'
            × (d'.n_functions + 1 ≡ 2)))
remove_example = remove_message_cases spread (pos 101) spread-IsAligned

abbrev two_mappings : List PointToPointMapping
two_mappings =
    record {
      host = "10.0.0.1";
      message_id = pos 100;
      app_idx = pos 0;
      group_idx = pos 0;
      mpi_port = pos 8020;
    }
    ∷ record {
      host = "10.0.0.2";
      message_id = pos 101;
      app_idx = pos 1;
      group_idx = pos 1;
      mpi_port = pos 8021;
    }
    ∷ []

mappings_example :
    (d : SchedulingDecision) × (from_point_to_point_mappings (pos 7) (pos 5) two_mappings ≡ d)
    × IsAligned d
    × (d.hosts ≡ map (λ m. m.host) two_mappings)
    × (d.message_ids ≡ map (λ m. m.message_id) two_mappings)
    × (d.app_idxs ≡ map (λ m. m.app_idx) two_mappings)
    × (d.group_idxs ≡ map (λ m. m.group_idx) two_mappings)
    × (d.mpi_ports ≡ map (λ m. m.mpi_port) two_mappings)
mappings_example = from_point_to_point_mappings_lem (pos 7) (pos 5) two_mappings

pack_example :
    pack (map_values two_hosts) two_messages (new_decision 7 (pos 0))
    ≡ fill (free_slot_list (map_values two_hosts)) two_messages (new_decision 7 (pos 0))
pack_example = pack-eq-fill (map_values two_hosts) two_messages (new_decision 7 (pos 0))

abbrev key_of_two : CacheKey
key_of_two = record { app_id = pos 7; size = 2 }

nothing-WellSized : WellSized []
nothing-WellSized key res e = unfold lookup in cc

two_key_threads : get_cache_key (request threads) ≡ ok key_of_two
unfolding get_cache_key
two_key_threads = refl

two_key : get_cache_key (request functions) ≡ ok key_of_two
unfolding get_cache_key
two_key = refl

cache_example :
    (cache' : DecisionCache) × (add_cached_decision [] (request functions) spread ≡ ok cache')
    × WellSized cache'
    × (get_cached_decision cache' (request threads) ≡ (
        if same_key key_of_two key_of_two
        then ok (some (record { hosts = spread.hosts; group_id = pos 5 }))
        else get_cached_decision [] (request threads)))
cache_example =
    get_cached_decision-add_cached_decision [] (request functions) (request threads) spread
      key_of_two key_of_two nothing-WellSized two_key two_key_threads refl
