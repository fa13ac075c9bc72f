-- ===== src/Planner/Flush.antt =====
-- The policy and the flushes of src/planner/Planner.cpp. `flushExecutors` removes the hosts that have
-- expired; the messages that it sends to the others are returned as their names.
use faabric.Prelude.{ℕ, Bool, true, false, List, [], String, map, if◌then◌else◌, same_name}
use faabric.Prelude.Maps.{Map}
use faabric.Prelude.Results.{Result, throws, ok}
use faabric.Planner.{PlannerState, PlannerError, wrong_policy_for_eviction}
use faabric.Planner.Registry.{get_available_hosts}

pub data FlushType : Type 0 where
  no_flush_type hosts executors scheduling_state : FlushType

unfoldable pub flush_hosts : PlannerState → PlannerState
flush_hosts s = record s { host_map = [] }

unfoldable pub flush_executors : ℕ → ℕ → PlannerState → List String × PlannerState
flush_executors timeout now s =
    let (available, t) = get_available_hosts timeout now s in (map (λ host. host.ip) available, t)

-- The preloaded decisions and the services that are ready stay.
unfoldable pub flush_scheduling_state : PlannerState → PlannerState
flush_scheduling_state s = record s {
  policy = "bin-pack";
  in_flight_reqs = [];
  app_results = [];
  app_result_waiters = [];
  num_migrations = 0;
  evicted_requests = [];
  next_evicted_host_ips = [];
  service_rr_counter = [];
}

-- `reset` takes the lock twice; `between` is what other calls do to the state in between.
unfoldable pub reset : (PlannerState → PlannerState) → PlannerState → PlannerState
unfolding flush_hosts flush_scheduling_state
reset between s = flush_hosts (between (flush_scheduling_state s))

-- `flush`: whether the type was known, the hosts told to flush, and the state.
unfoldable pub flush : ℕ → ℕ → FlushType → PlannerState → Bool × List String × PlannerState
unfolding flush_hosts flush_executors flush_scheduling_state
flush timeout now hosts s = (true, [], flush_hosts s)
flush timeout now executors s = let (told, t) = flush_executors timeout now s in (true, told, t)
flush timeout now scheduling_state s = (true, [], flush_scheduling_state s)
flush timeout now no_flush_type s = (false, [], s)

unfoldable pub set_next_evicted_vm :
    Map String (Unit {0}) → PlannerState → Result PlannerError PlannerState
set_next_evicted_vm vm_ips s =
    if same_name s.policy "spot"
    then ok (record s { next_evicted_host_ips = vm_ips })
    else throws wrong_policy_for_eviction
