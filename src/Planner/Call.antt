-- ===== src/Planner/Call.antt =====
-- `callBatch` of src/planner/Planner.cpp: what it works on, and what it sends. Prepare and Choose have
-- the part up to a decision, Claims and Place the changes of the state for each type of decision, and
-- Dispatch puts them together.
pub mod Prepare
pub mod Claims
pub mod Choose
pub mod Place
pub mod Dispatch
pub mod Room
pub mod New
pub mod Moved
pub mod Sends
use faabric.Prelude.{
  ℕ, ◌+◌, Bool, true, false, ◌&&◌, List, [], ◌∷◌, String, map, same_name, ◌==◌, if◌then◌else◌,
  name_key,
}
use faabric.Prelude.Int.{ℤ, int_eq}
use faabric.Prelude.Maps.{Map, contains, insert}
use faabric.Prelude.Results.{Result, throws, ok}
use faabric.Batch.{Message, BatchExecuteRequest}
use faabric.Scheduler.Decision.{SchedulingDecision}
use faabric.Scheduler.Hosts.{HostMap, HostState}
use faabric.Planner.{Host, Hosts, PlannerState, PlannerError}

-- What the planner sends: the mappings of a decision, to its own hosts or to these hosts, and a request
-- for a host to execute.
pub data Sent : Type 0 where
  set_and_send_mappings : SchedulingDecision → Sent
  send_mappings : SchedulingDecision → List String → Sent
  execute_functions : String → BatchExecuteRequest → Sent

-- What `callBatch` returns, the state that it leaves, and what it sends, in order.
pub record Called : Type 0 where
  pub decision : SchedulingDecision
  pub state : PlannerState
  pub sent : List Sent

-- `convertToBatchSchedHostMap`; the hosts to evict next are marked.
unfoldable pub convert_to_batch_sched_host_map : Hosts → Map String (Unit {0}) → HostMap
convert_to_batch_sched_host_map [] evicted = []
convert_to_batch_sched_host_map ((ip, host) ∷ m) evicted =
    (
      ip,
      record {
        ip = if contains ip evicted then "E.VI.CT.ME" else host.ip;
        slots = host.slots;
        used_slots = host.used_slots;
      },
    )
    ∷ convert_to_batch_sched_host_map m evicted

-- `==` of two vectors, by a test on the elements.
unfoldable pub same_list : {A : Type 0} → (A → A → Bool) → List A → List A → Bool
same_list eq [] [] = true
same_list eq [] (y ∷ ys) = false
same_list eq (x ∷ xs) [] = false
same_list eq (x ∷ xs) (y ∷ ys) = eq x y && same_list eq xs ys

-- `==` of two decisions.
unfoldable pub same_decision : SchedulingDecision → SchedulingDecision → Bool
unfolding same_list
same_decision a b =
    a.app_id == b.app_id
    && int_eq a.group_id b.group_id
    && a.n_functions == b.n_functions
    && same_list same_name a.hosts b.hosts
    && same_list int_eq a.message_ids b.message_ids
    && same_list int_eq a.app_idxs b.app_idxs
    && same_list int_eq a.group_idxs b.group_idxs
    && same_list int_eq a.mpi_ports b.mpi_ports
    && same_name a.return_host b.return_host
