-- ===== src/Planner/Steps/Results.antt =====
-- Well-formed host maps in `setMessageResult`.
use faabric.Prelude.{Bool, true, false, not, ◌||◌, List, String, length, ◌==◌, name_key}
use faabric.Prelude.Int.{int_key}
use faabric.Prelude.Maps.{lookup, contains}
use faabric.Prelude.Results.{ok, Ensures, Ensures-if, Ensures-any, Ensures-bind, Ensures-option}
use faabric.Batch.{Message, BatchExecuteRequest}
use faabric.Scheduler.Decision.{SchedulingDecision, remove_message}
use faabric.Planner.{PlannerState, change_host}
use faabric.Planner.Slots.{release_host_slots}
use faabric.Planner.Ports.{release_host_mpi_port}
use faabric.Planner.Registry.Laws.{IsValidHosts}
use faabric.Planner.Results.{
  set_message_result, store_frozen, release_once, store_result, remove_in_flight, leave_flight,
  put_back, results_of, take_out, lift, is_migrated_msg, is_frozen_msg, is_empty_decision,
}
use faabric.Planner.Steps.Hosts.{release-IsValidHosts, release_port-IsValidHosts}

-- The hosts of the planner are well formed.
abbrev pub IsValidState : PlannerState → Type 0
IsValidState s = IsValidHosts s.host_map

release_once-IsValidState :
    (frozen : Bool) (msg : Message) (s : PlannerState)
    → IsValidState s
    → Ensures IsValidState (release_once frozen msg s)
unfolding release_once Ensures
release_once-IsValidState frozen msg s v =
    Ensures-if IsValidState (contains msg.executed_host s.host_map) _ _
      (λ e.
        Ensures-if IsValidState
          (not (contains msg.id (results_of msg.app_id s.app_results)) || frozen) _ _
          (λ f.
            Ensures-bind IsValidHosts IsValidState
              (change_host msg.executed_host (release_host_slots 1) s.host_map) _
              (release-IsValidHosts msg.executed_host 1 s.host_map v) (λ hosts w. w))
          (λ f. v))
      (λ e. tt)

leave_flight-IsValidState :
    (msg : Message) (req : BatchExecuteRequest) (d : SchedulingDecision) (left : List Message)
    (s : PlannerState)
    → IsValidState s
    → Ensures IsValidState (leave_flight msg req d left s)
unfolding leave_flight put_back Ensures
leave_flight-IsValidState msg req d left s v =
    Ensures-bind (λ p. Unit) IsValidState (lift (remove_message msg.id d)) _
      (Ensures-any (lift (remove_message msg.id d)))
      (λ p u.
        Ensures-bind IsValidHosts IsValidState
          (change_host msg.executed_host (release_host_mpi_port p.0) s.host_map) _
          (release_port-IsValidHosts msg.executed_host p.0 s.host_map v)
          (λ hosts w.
            Ensures-if IsValidState (length left == 0) _ _
              (λ e. Ensures-if IsValidState (is_empty_decision p.1) _ _ (λ f. w) (λ f. tt))
              (λ e. w)))

remove_in_flight-IsValidState :
    (msg : Message) (s : PlannerState)
    → IsValidState s
    → Ensures IsValidState (remove_in_flight msg s)
unfolding remove_in_flight Ensures
remove_in_flight-IsValidState msg s v =
    Ensures-option IsValidState (lookup msg.app_id s.in_flight_reqs) (ok s) _ (λ e. v)
      (λ p e.
        Ensures-option IsValidState (take_out msg.id p.0.messages) (ok s) _ (λ f. v)
          (λ left f. leave_flight-IsValidState msg p.0 p.1 left s v))

store_frozen-IsValidState :
    (msg : Message) (s : PlannerState) → IsValidState s → Ensures IsValidState (store_frozen msg s)
unfolding store_frozen Ensures
store_frozen-IsValidState msg s v =
    Ensures-option IsValidState (lookup msg.app_id s.evicted_requests) _ _ (λ e. tt) (λ r e. v)

pub set_message_result-IsValidState :
    (msg : Message) (s : PlannerState)
    → IsValidState s
    → Ensures (λ r. IsValidState r.0) (set_message_result msg s)
unfolding set_message_result store_result Ensures
set_message_result-IsValidState msg s v =
    Ensures-if P (is_migrated_msg msg) _ _ (λ e. v)
      (λ e.
        Ensures-if P (is_frozen_msg msg) _ _
          (λ f.
            Ensures-bind IsValidState P _ _
              (Ensures-bind IsValidState IsValidState _ (remove_in_flight msg)
                (Ensures-bind IsValidState IsValidState (store_frozen msg s) (release_once true msg)
                  (store_frozen-IsValidState msg s v)
                  (λ t w. release_once-IsValidState true msg t w))
                (λ t w. remove_in_flight-IsValidState msg t w))
              (λ t w. w))
          (λ f.
            Ensures-bind IsValidState P _ _
              (Ensures-bind IsValidState IsValidState (release_once false msg s)
                (λ t. remove_in_flight msg (store_result msg t))
                (release_once-IsValidState false msg s v)
                (λ t w. remove_in_flight-IsValidState msg (store_result msg t) w))
              (λ t w. w)))
  where
    P : PlannerState × List (String × Message) → Type 0
    P r = IsValidState r.0
