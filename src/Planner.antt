-- ===== src/Planner.antt =====
-- The data of the planner: include/faabric/planner/PlannerState.h, the hosts of
-- src/planner/planner.proto, and the exceptions and failed asserts of src/planner/Planner.cpp.
pub mod Slots
pub mod Ports
pub mod Registry
pub mod Change
pub mod Results
pub mod Services
pub mod Flush
pub mod Preloaded
pub mod Call
pub mod Polls
pub mod Steps
mod Tests
use faabric.Prelude.{ℕ, Bool, List, String, none, some, name_key}
use faabric.Prelude.Int.{ℤ}
use faabric.Prelude.Maps.{Map, lookup, insert}
use faabric.Prelude.Results.{Result, throws, ok, ◌>>=◌}
use faabric.Batch.{Message, BatchExecuteRequest}
use faabric.Scheduler.Decision.{SchedulingDecision, Error}
use faabric.Scheduler.Hosts.{InFlightReqs}

pub record MpiPort : Type 0 where
  pub port : ℤ
  pub used : Bool

-- The timestamp is the epoch time of `registerTs` in milliseconds.
pub record Host : Type 0 where
  pub ip : String
  pub slots : ℕ
  pub used_slots : ℕ
  pub register_ts : ℕ
  pub mpi_ports : List MpiPort

pub record ServiceEndpoint : Type 0 where
  pub service_name : String
  pub host : String
  pub app_id : ℤ
  pub message_id : ℤ

-- How a function of the planner fails: an assert, `at` on a missing key, or a thrown exception.
pub data PlannerError : Type 0 where
  assert_failed : PlannerError
  missing_key : PlannerError
  ran_out_of_mpi_ports : PlannerError
  unavailable_mpi_port : PlannerError
  orphaned_frozen_message : PlannerError
  wrong_policy_for_eviction : PlannerError
  unrecognised_decision_type : PlannerError
  scheduler_failed : Error → PlannerError

abbrev pub Hosts : Type 0
Hosts = Map String Host

abbrev pub AppResults : Type 0
AppResults = Map ℤ (Map ℤ Message)

pub record PlannerState : Type 0 where
  pub policy : String
  pub host_map : Hosts
  pub app_results : AppResults
  pub app_result_waiters : Map ℤ (List String)
  pub in_flight_reqs : InFlightReqs
  pub preloaded_scheduling_decisions : Map ℤ SchedulingDecision
  pub num_migrations : ℕ
  pub evicted_requests : Map ℤ BatchExecuteRequest
  pub next_evicted_host_ips : Map String (Unit {0})
  pub ready_services : Map String (List ServiceEndpoint)
  pub service_rr_counter : Map String ℕ

-- `m.at(k)`
unfoldable pub host_at : String → Hosts → Result PlannerError Host
host_at ip m = elim (lookup ip m) [ none ↦ throws missing_key | some host ↦ ok host ]

-- `f(hostMap.at(ip))`, where `f` changes the host that the map points to.
unfoldable pub change_host :
    String → (Host → Result PlannerError Host) → Hosts → Result PlannerError Hosts
unfolding host_at
change_host ip f m = host_at ip m >>= λ host. (f host >>= λ changed. ok (insert ip changed m))
