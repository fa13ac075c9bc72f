-- ===== src/Planner/Results.antt =====
-- `setMessageResult` and `getMessageResult` of src/planner/Planner.cpp. What the planner sends to the
-- hosts that wait for a result is returned with the new state.
pub mod Laws
pub mod Waiters
use faabric.Prelude.{
  ℕ, Bool, true, false, ◌||◌, ◌&&◌, not, Option, none, some, List, [], ◌∷◌, ◌++◌, String, map,
  length, ◌==◌, if◌then◌else◌, name_key, same_name,
}
use faabric.Prelude.Int.{ℤ, int_eq, int_key}
use faabric.Prelude.Maps.{Map, lookup, contains, insert, erase}
use faabric.Prelude.Results.{Result, throws, ok, ◌>>=◌}
use faabric.Batch.{
  Message, BatchExecuteRequest, migrated_function_return_value, frozen_function_return_value,
}
use faabric.Scheduler.Decision.{SchedulingDecision, Error, remove_message}
use faabric.Planner.{
  PlannerState, PlannerError, AppResults, change_host, assert_failed, orphaned_frozen_message,
  scheduler_failed,
}
use faabric.Planner.Slots.{release_host_slots}
use faabric.Planner.Ports.{release_host_mpi_port}

abbrev pub is_migrated_msg : Message → Bool
is_migrated_msg msg = int_eq msg.return_value migrated_function_return_value

abbrev pub is_frozen_msg : Message → Bool
is_frozen_msg msg = int_eq msg.return_value frozen_function_return_value

-- The first message with the id of the frozen one takes the fields set during the migration.
unfoldable pub freeze_in : Message → List Message → List Message
freeze_in msg [] = []
freeze_in msg (m ∷ ms) =
    let rest = freeze_in msg ms in
    if int_eq m.id msg.id
    then record m {
      func_ptr = msg.func_ptr;
      input_data = msg.input_data;
      snapshot_key = msg.snapshot_key;
      return_value = msg.return_value;
    }
      ∷ ms
    else m ∷ rest

unfoldable pub store_frozen : Message → PlannerState → Result PlannerError PlannerState
unfolding freeze_in
store_frozen msg s = elim (lookup msg.app_id s.evicted_requests) [
  | none ↦ throws orphaned_frozen_message
  | some ber ↦ ok (record s {
    evicted_requests =
        insert msg.app_id (record ber { messages = freeze_in msg ber.messages }) s.evicted_requests;
  })
]

-- `appResults[appId]`, which is empty for an app without an entry.
unfoldable pub results_of : ℤ → AppResults → Map ℤ Message
results_of app_id results = elim (lookup app_id results) [ none ↦ [] | some r ↦ r ]

-- The slot of the host that ran the message is released the first time; the access to
-- `appResults[appId]` makes an entry for the app.
unfoldable pub release_once : Bool → Message → PlannerState → Result PlannerError PlannerState
unfolding results_of
release_once frozen msg s =
    if contains msg.executed_host s.host_map
    then (if not (contains msg.id (results_of msg.app_id s.app_results)) || frozen
        then (change_host msg.executed_host (release_host_slots 1) s.host_map >>= λ hosts.
            ok (record s {
              host_map = hosts;
              app_results = insert msg.app_id (results_of msg.app_id s.app_results) s.app_results;
            }))
        else ok (record s {
          app_results = insert msg.app_id (results_of msg.app_id s.app_results) s.app_results;
        }))
    else throws assert_failed

unfoldable pub store_result : Message → PlannerState → PlannerState
unfolding results_of
store_result msg s = record s {
  app_results =
      insert msg.app_id (insert msg.id msg (results_of msg.app_id s.app_results)) s.app_results;
}

-- `find_if` on the id, and the messages without the one found.
unfoldable pub take_out : ℤ → List Message → Option (List Message)
take_out id [] = none
take_out id (m ∷ ms) =
    let rest = take_out id ms in
    if int_eq m.id id then some ms else (elim rest [ none ↦ none | some left ↦ some (m ∷ left) ])

-- The asserts on the decision of an app without messages.
abbrev pub is_empty_decision : SchedulingDecision → Bool
is_empty_decision d =
    d.n_functions == 0
    && length d.hosts == 0
    && length d.message_ids == 0
    && length d.app_idxs == 0
    && length d.group_idxs == 0
    && length d.mpi_ports == 0

abbrev pub lift : {A : Type 0} → Result Error A → Result PlannerError A
lift (throws e) = throws (scheduler_failed e)
lift (ok x) = ok x

-- The request and the decision are put back, or removed when no messages are left.
unfoldable pub put_back :
    ℤ → BatchExecuteRequest → SchedulingDecision → PlannerState → Result PlannerError PlannerState
put_back app_id req decision s =
    if length req.messages == 0
    then (if is_empty_decision decision
        then ok (record s {
          in_flight_reqs = erase app_id s.in_flight_reqs;
          preloaded_scheduling_decisions = erase app_id s.preloaded_scheduling_decisions;
        })
        else throws assert_failed)
    else ok (record s { in_flight_reqs = insert app_id (req, decision) s.in_flight_reqs })

-- The message leaves its request and decision, and its port is released.
unfoldable pub leave_flight :
    Message
    → BatchExecuteRequest
    → SchedulingDecision
    → List Message
    → PlannerState
    → Result PlannerError PlannerState
unfolding put_back
leave_flight msg req decision left s = lift (remove_message msg.id decision) >>= (λ (port, smaller).
    (change_host msg.executed_host (release_host_mpi_port port) s.host_map >>= λ hosts.
    put_back msg.app_id (record req { messages = left }) smaller (record s { host_map = hosts })))

-- The part on the requests in flight: an unknown app or message is no error.
unfoldable pub remove_in_flight : Message → PlannerState → Result PlannerError PlannerState
unfolding take_out leave_flight
remove_in_flight msg s = elim (lookup msg.app_id s.in_flight_reqs) [
  | none ↦ ok s
  | some (req, decision) ↦ elim (take_out msg.id req.messages) [
    | none ↦ ok s
    | some left ↦ leave_flight msg req decision left s
  ]
]

-- The hosts that wait for the message of this id.
unfoldable pub waiters_of : ℤ → Map ℤ (List String) → List String
waiters_of id waiters = elim (lookup id waiters) [ none ↦ [] | some hosts ↦ hosts ]

-- The messages to the hosts that wait for the result.
unfoldable pub notify_waiters : Message → PlannerState → List (String × Message)
unfolding waiters_of
notify_waiters msg s = map (λ host. (host, msg)) (waiters_of msg.id s.app_result_waiters)

unfoldable pub set_message_result :
    Message → PlannerState → Result PlannerError (PlannerState × List (String × Message))
unfolding store_frozen release_once store_result remove_in_flight notify_waiters
set_message_result msg s =
    if is_migrated_msg msg
    then ok (s, [])
    else if is_frozen_msg msg
    then (store_frozen msg s >>= (release_once true msg) >>= (remove_in_flight msg) >>= λ t.
        ok (t, []))
    else (release_once false msg s >>= (λ t. remove_in_flight msg (store_result msg t)) >>= λ t.
        ok (t, notify_waiters msg t))

-- The first look of `getMessageResult`, under the shared lock.
unfoldable pub poll_result : Message → PlannerState → Option Message
unfolding results_of
poll_result msg s = lookup msg.id (results_of msg.app_id s.app_results)

-- The second look, under the full lock, where the query names a main host, which then waits.
unfoldable pub wait_for_result : Message → PlannerState → Option Message × PlannerState
unfolding poll_result waiters_of
wait_for_result msg s =
    if same_name msg.main_host "" then (none, s) else (elim (poll_result msg s) [
      | some result ↦ (some result, s)
      | none ↦ (
        none,
        record s {
          app_result_waiters =
              insert msg.id (waiters_of msg.id s.app_result_waiters ++ msg.main_host ∷ [])
                s.app_result_waiters;
        },
      )
    ])

-- `getMessageResult` reads the state `before` and, if the result is not set there, goes on from the
-- state `after`: other calls may come between the two locks.
unfoldable pub get_message_result :
    Message → PlannerState → PlannerState → Option Message × PlannerState
unfolding poll_result wait_for_result
get_message_result msg before after = elim (poll_result msg before) [
  | some result ↦ (some result, after)
  | none ↦ wait_for_result msg after
]
