-- ===== src/Scheduler/Hosts.antt =====
-- src/batch-scheduler/BatchScheduler.cpp and its header: host states, the requests in flight and
-- the type of a decision. Slot counts are natural numbers: the planner refuses a host with negative
-- slots and asserts that the used slots stay at zero or more.
pub mod Kinds
pub mod Slots
use faabric.Prelude.{ℕ, ◌+◌, ◌-◌, min, true, false, none, some, List, [], ◌∷◌, String}
use faabric.Prelude.Int.{ℤ, int_key}
use faabric.Prelude.Maps.{Map, contains, lookup}
use faabric.Batch.{BatchExecuteRequest, BatchExecuteType}
use faabric.Scheduler.Decision.{SchedulingDecision, Error, out_of_range}
use faabric.Prelude.Results.{Result, ok, throws}

pub record HostState : Type 0 where
  pub ip : String
  pub slots : ℕ
  pub used_slots : ℕ

abbrev pub HostMap : Type 0
HostMap = Map String HostState

-- The request and the decision of an app in flight, by app id.
abbrev pub InFlightReqs : Type 0
InFlightReqs = Map ℤ (BatchExecuteRequest × SchedulingDecision)

pub data DecisionType : Type 0 where
  no_decision_type new dist_change scale_change : DecisionType

-- `max(0, slots - usedSlots)`
unfoldable pub num_slots_available : HostState → ℕ
num_slots_available host = host.slots - host.used_slots

pub claim_slots : HostState → ℕ → HostState
claim_slots host n = record host { used_slots = min host.slots (host.used_slots + n) }

-- `max(0, usedSlots - n)`
unfoldable pub free_slots : HostState → ℕ → HostState
free_slots host n = record host { used_slots = host.used_slots - n }

unfoldable pub decision_type_of : BatchExecuteType → DecisionType
decision_type_of BatchExecuteType.migration = dist_change
decision_type_of _ = scale_change

unfoldable pub get_decision_type : InFlightReqs → BatchExecuteRequest → DecisionType
unfolding decision_type_of
get_decision_type in_flight req = elim (contains req.app_id in_flight) [
  | true ↦ decision_type_of req.type
  | false ↦ new
]

-- `inFlightReqs.at(appId).second`
unfoldable pub old_decision_of :
    InFlightReqs → BatchExecuteRequest → Result Error SchedulingDecision
old_decision_of in_flight req = elim (lookup req.app_id in_flight) [
  | none ↦ throws out_of_range
  | some (r, decision) ↦ ok decision
]

unfoldable pub map_values : HostMap → List HostState
map_values [] = []
map_values ((ip, host) ∷ m) = host ∷ map_values m
