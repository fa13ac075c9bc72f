-- ===== src/Planner/Steps/Reach.antt =====
-- The states that the planner of src/planner/Planner.cpp reaches by calls of its functions that
-- return, in any order. The scheduler, its state `W` and the dependency graph may change between calls.
use faabric.Prelude.{
  ℕ, ◌≡◌, ◌≤◌, Bool, true, false, not, ◌&&◌, ◌==◌, Option, none, some, List, [], String, name_key,
  same_name, length, if◌then◌else◌,
}
use faabric.Prelude.Int.{ℤ, int_key}
use faabric.Prelude.Maps.{Map, lookup, contains}
use faabric.Prelude.Maps.Entries.{IsMapOf, lookup-IsMapOf, erase-IsMapOf}
use faabric.Prelude.Results.{Result, ok, Ensures, Ensures-ok, Ensures-if}
use faabric.Batch.{Message, BatchExecuteRequest}
use faabric.Scheduler.Decision.{SchedulingDecision, Error}
use faabric.Scheduler.Hosts.{HostMap, InFlightReqs}
use faabric.Rpc.{RpcDependencyGraph}
use faabric.Planner.{Host, ServiceEndpoint, PlannerState}
use faabric.Planner.Ports.Laws.{HasDistinctPorts}
use faabric.Planner.Registry.{HostIn, get_available_hosts, register_host, remove_host}
use faabric.Planner.Registry.Laws.{IsValidHost, IsValidHosts, get_available_hosts-IsValidHosts}
use faabric.Planner.Registry.Valid.{IsHostRequest, register_host-IsValidHosts}
use faabric.Planner.Results.{set_message_result, get_message_result, poll_result, wait_for_result}
use faabric.Planner.Services.{
  notify_service_ready, notify_service_stopped, stop_found, discover_service, choose_endpoint,
  next_endpoint, endpoints_of, local_endpoints,
}
use faabric.Planner.Flush.{
  FlushType, no_flush_type, hosts, executors, scheduling_state, flush, flush_hosts, flush_executors,
  flush_scheduling_state, set_next_evicted_vm,
}
use faabric.Planner.Preloaded.{preload_scheduling_decision}
use faabric.Planner.Call.{Called}
use faabric.Planner.Call.Dispatch.{call_batch}
use faabric.Planner.Polls.{Polled, get_batch_results}
use faabric.Planner.Steps.Results.{IsValidState, set_message_result-IsValidState}
use faabric.Planner.Steps.Call.{LeavesState}
use faabric.Planner.Steps.Decided.{call_batch-IsValidState, get_batch_results-IsValidState}

-- A call that returns, from the state before it to the state after it; the two halves of `reset` are
-- two steps.
pub data Step (W : Type 0) : PlannerState → PlannerState → Type 0 where
  registers :
      {s : PlannerState} (timeout now stamp : ℕ) (host_in : HostIn) (overwrite : Bool)
      → IsHostRequest host_in
      → Step W s (register_host timeout now stamp host_in overwrite s).1
  removes : {s : PlannerState} (ip : String) → Step W s (remove_host ip s)
  expires : {s : PlannerState} (timeout now : ℕ) → Step W s (get_available_hosts timeout now s).1
  flushes :
      {s : PlannerState} (timeout now : ℕ) (kind : FlushType)
      → Step W s (flush timeout now kind s).2
  resets_state : {s : PlannerState} → Step W s (flush_scheduling_state s)
  resets_hosts : {s : PlannerState} → Step W s (flush_hosts s)
  evicts :
      {s t : PlannerState} (vm_ips : Map String (Unit {0}))
      → set_next_evicted_vm vm_ips s ≡ ok t
      → Step W s t
  preloads :
      {s : PlannerState} (app_id : ℤ) (d : SchedulingDecision)
      → Step W s (preload_scheduling_decision app_id d s)
  readies :
      {s : PlannerState} (name host : String) (app_id id : ℤ) (g : RpcDependencyGraph)
      → Step W s (notify_service_ready name host app_id id s g).0
  stops :
      {s : PlannerState} (name : String) (app_id id : ℤ) (g : RpcDependencyGraph)
      → Step W s (notify_service_stopped name app_id id s g).0
  discovers :
      {s : PlannerState} (name caller : String) → Step W s (discover_service name caller s).1
  sets :
      {s t : PlannerState} (msg : Message) (told : List (String × Message))
      → set_message_result msg s ≡ ok (t, told)
      → Step W s t
  gets :
      {s : PlannerState} (msg : Message) (before : PlannerState)
      → Step W s (get_message_result msg before s).1
  calls :
      {s : PlannerState} {c : Called}
      (make : HostMap
        → InFlightReqs
        → BatchExecuteRequest
        → W
        → Result Error (SchedulingDecision × W))
      (gids : ℕ → ℤ) (group_id : ℤ) (req : BatchExecuteRequest) (w w' : W)
      → call_batch make gids group_id req s w ≡ ok (c, w')
      → Step W s c.state
  polls :
      {s : PlannerState} {polled : Polled W}
      (make : HostMap
        → InFlightReqs
        → BatchExecuteRequest
        → W
        → Result Error (SchedulingDecision × W))
      (gids : ℕ → ℤ) (group_id app_id : ℤ) (before seen : PlannerState) (w : W)
      → get_batch_results make gids group_id app_id before seen s w ≡ ok polled
      → Step W s polled.state

-- Any number of calls.
pub data Reach (W : Type 0) (start : PlannerState) : PlannerState → Type 0 where
  here : Reach W start start
  next : {s t : PlannerState} → Reach W start s → Step W s t → Reach W start t

either_branch :
    {A : Type 0} (P : A → Type 0) (b : Bool) (x y : A) → P x → P y → P (if b then x else y)
either_branch P true x y p q = p
either_branch P false x y p q = q

either_option :
    {A B : Type 0} (P : A → Type 0) (o : Option B) (f : B → A) (x : A)
    → ((b : B) → P (f b))
    → P x
    → P (elim o [ some b ↦ f b | none ↦ x ])
either_option P none f x p q = q
either_option P (some b) f x p q = p b

flush-IsValidState :
    (timeout now : ℕ) (kind : FlushType) (s : PlannerState)
    → IsValidState s
    → IsValidState (flush timeout now kind s).2
unfolding flush flush_hosts flush_executors flush_scheduling_state IsMapOf
flush-IsValidState timeout now no_flush_type s v = v
flush-IsValidState timeout now hosts s v = tt
flush-IsValidState timeout now executors s v = get_available_hosts-IsValidHosts timeout now s v
flush-IsValidState timeout now scheduling_state s v = v

stop_found-IsValidState :
    (name : String) (app_id id : ℤ) (s : PlannerState) (g : RpcDependencyGraph)
    (o : Option (List ServiceEndpoint))
    → IsValidState s
    → IsValidState (stop_found name app_id id s g o).0
unfolding stop_found
stop_found-IsValidState name app_id id s g none v = v
stop_found-IsValidState name app_id id s g (some es) v = v

notify_service_stopped-IsValidState :
    (name : String) (app_id id : ℤ) (s : PlannerState) (g : RpcDependencyGraph)
    → IsValidState s
    → IsValidState (notify_service_stopped name app_id id s g).0
unfolding notify_service_stopped
notify_service_stopped-IsValidState name app_id id s g v =
    stop_found-IsValidState name app_id id s g (lookup name s.ready_services) v

discover_service-IsValidState :
    (name caller : String) (s : PlannerState)
    → IsValidState s
    → IsValidState (discover_service name caller s).1
unfolding discover_service choose_endpoint next_endpoint
discover_service-IsValidState name caller s v =
    either_branch (LeavesState {A = Option ServiceEndpoint})
      (length (endpoints_of name s.ready_services) == 0) _ _ v
      (either_branch (LeavesState {A = Option ServiceEndpoint})
        (not (same_name caller "")
          && not (length (local_endpoints caller (endpoints_of name s.ready_services)) == 0))
        _ _ v v)

get_message_result-IsValidState :
    (msg : Message) (before s : PlannerState)
    → IsValidState s
    → IsValidState (get_message_result msg before s).1
unfolding get_message_result wait_for_result
get_message_result-IsValidState msg before s v =
    either_option Leaves (poll_result msg before) (λ r. (some r, s)) _ (λ r. v)
      (either_branch Leaves (same_name msg.main_host "") _ _ v
        (either_option Leaves (poll_result msg s) (λ r. (some r, s)) _ (λ r. v) v))
  where
    Leaves : Option Message × PlannerState → Type 0
    Leaves r = IsValidState r.1

Step-IsValidState : {W : Type 0} {s t : PlannerState} → Step W s t → IsValidState s → IsValidState t
unfolding remove_host flush_hosts flush_scheduling_state set_next_evicted_vm
    preload_scheduling_decision notify_service_ready IsMapOf Ensures
Step-IsValidState {s = s} (registers timeout now stamp host_in overwrite q) v =
    (register_host-IsValidHosts timeout now stamp host_in overwrite "" s q v).0
Step-IsValidState {s = s} (removes ip) v = erase-IsMapOf IsValidHost ip s.host_map v
Step-IsValidState {s = s} (expires timeout now) v = get_available_hosts-IsValidHosts timeout now s v
Step-IsValidState {s = s} (flushes timeout now kind) v = flush-IsValidState timeout now kind s v
Step-IsValidState resets_state v = v
Step-IsValidState resets_hosts v = tt
Step-IsValidState {s = s} {t = t} (evicts vm_ips e) v =
    Ensures-ok IsValidState (set_next_evicted_vm vm_ips s) t
      (Ensures-if IsValidState (same_name s.policy "spot") _ _ (λ q. v) (λ q. tt)) e
Step-IsValidState {s = s} (preloads app_id d) v =
    either_branch IsValidState (contains app_id s.preloaded_scheduling_decisions) s _ v v
Step-IsValidState {s = s} (readies name host app_id id g) v = v
Step-IsValidState {s = s} (stops name app_id id g) v =
    notify_service_stopped-IsValidState name app_id id s g v
Step-IsValidState {s = s} (discovers name caller) v = discover_service-IsValidState name caller s v
Step-IsValidState {s = s} {t = t} (sets msg told e) v =
    Ensures-ok (λ r. IsValidState r.0) (set_message_result msg s) (t, told)
      (set_message_result-IsValidState msg s v) e
Step-IsValidState {s = s} (gets msg before) v = get_message_result-IsValidState msg before s v
Step-IsValidState {s = s} (calls {c = c} make gids group_id req w w' e) v =
    Ensures-ok (λ r. IsValidState r.0.state) (call_batch make gids group_id req s w) (c, w')
      (call_batch-IsValidState make gids group_id req s w v) e
Step-IsValidState {s = s} (polls {polled = polled} make gids group_id app_id before seen w e) v =
    Ensures-ok (λ r. IsValidState r.state)
      (get_batch_results make gids group_id app_id before seen s w) polled
      (get_batch_results-IsValidState make gids group_id app_id before seen s w v) e

Reach-IsValidState :
    {W : Type 0} {start s : PlannerState} → IsValidState start → Reach W start s → IsValidState s
Reach-IsValidState v here = v
Reach-IsValidState v (next before step) = Step-IsValidState step (Reach-IsValidState v before)

-- In every state that the planner reaches from an empty host map by calls that return, where requests
-- to register bring no ports and no more used slots than slots, a host that is found under a name has
-- this name, no more used slots than slots, and ports with different numbers.
pub Reach-IsValidHost :
    {W : Type 0} {start s : PlannerState} (ip : String) (host : Host)
    → start.host_map ≡ []
    → Reach W start s
    → lookup ip s.host_map ≡ some host
    → (host.ip ≡ ip) × (host.used_slots ≤ host.slots) × HasDistinctPorts host.mpi_ports
unfolding IsMapOf
Reach-IsValidHost {start = start} {s = s} ip host empty reach found =
    (valid.named, valid.within, valid.distinct)
  where
    valid_start : IsValidHosts start.host_map
    valid_start = rw empty tt

    valid : IsValidHost ip host
    valid =
        lookup-IsMapOf IsValidHost ip host s.host_map (Reach-IsValidState valid_start reach) found
