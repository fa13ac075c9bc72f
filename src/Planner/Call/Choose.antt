-- ===== src/Planner/Call/Choose.antt =====
-- How `callBatch` comes to a decision, and the decisions that it returns without placing anything.
use faabric.Prelude.{
  ℕ, suc, zero, ◌-◌, Bool, true, false, ◌&&◌, ◌||◌, not, Option, none, some, List, [], ◌∷◌, ◌++◌,
  length, leb, ◌==◌, if◌then◌else◌,
}
use faabric.Prelude.Int.{ℤ, pos, negsuc, int_key}
use faabric.Prelude.Maps.{lookup, contains, insert, erase}
use faabric.Prelude.Results.{Result, throws, ok, ◌>>=◌}
use faabric.Batch.{Message, BatchExecuteRequest}
use faabric.Scheduler.Decision.{
  SchedulingDecision, Error, not_enough_slots_decision, do_not_migrate_decision,
  must_freeze_decision, is_single_host,
}
use faabric.Scheduler.Hosts.{DecisionType, new, scale_change, dist_change}
use faabric.Planner.{PlannerState, PlannerError, assert_failed, missing_key}
use faabric.Planner.Results.{lift}
use faabric.Planner.Preloaded.{get_preloaded_scheduling_decision}
use faabric.Planner.Call.{same_decision}
use faabric.Planner.Call.Prepare.{scale_elastically, take_messages}

-- The request after the elastic growth of a fork, or with the messages in flight for a migration.
unfoldable pub prepare_known :
    (ℕ → ℤ)
    → DecisionType
    → BatchExecuteRequest
    → BatchExecuteRequest
    → SchedulingDecision
    → PlannerState
    → Result PlannerError BatchExecuteRequest
unfolding scale_elastically take_messages
prepare_known gids scale_change req old_req old_dec s =
    if req.elastic_scale_hint && not (contains req.app_id s.preloaded_scheduling_decisions)
    then scale_elastically gids req old_req old_dec s
    else ok req
prepare_known gids dist_change req old_req old_dec s = ok (take_messages req old_req)
prepare_known gids other req old_req old_dec s = ok req

unfoldable pub prepare_request :
    (ℕ → ℤ)
    → DecisionType
    → BatchExecuteRequest
    → PlannerState
    → Result PlannerError BatchExecuteRequest
unfolding prepare_known
prepare_request gids kind req s = elim (lookup req.app_id s.in_flight_reqs) [
  | none ↦ ok req
  | some (old_req, old_dec) ↦ prepare_known gids kind req old_req old_dec s
]

unfoldable pub first_is_mpi : List Message → Bool
first_is_mpi [] = false
first_is_mpi (msg ∷ msgs) = msg.is_mpi

unfoldable pub first_is_omp : List Message → Bool
first_is_omp [] = false
first_is_omp (msg ∷ msgs) = msg.is_omp

abbrev pub is_new : DecisionType → Bool
is_new new = true
is_new other = false

abbrev pub is_scale_change : DecisionType → Bool
is_scale_change scale_change = true
is_scale_change other = false

abbrev pub is_dist_change : DecisionType → Bool
is_dist_change dist_change = true
is_dist_change other = false

-- A message of the protocol with the app id and the group index set.
unfoldable pub mock_message : ℤ → ℕ → Message
mock_message app_id i = record {
  id = pos 0;
  app_id = app_id;
  app_idx = pos 0;
  user = "";
  function = "";
  return_value = pos 0;
  group_id = pos 0;
  group_idx = pos i;
  is_mpi = false;
  is_omp = false;
  is_rpc = false;
  is_long_running = false;
  executed_host = "";
  main_host = "";
  func_ptr = pos 0;
  input_data = "";
  snapshot_key = "";
  mpi_world_size = pos 0;
  omp_num_threads = pos 0;
}

unfoldable pub mock_messages : ℤ → ℕ → ℕ → List Message
unfolding mock_message
mock_messages app_id i zero = []
mock_messages app_id i (suc n) = mock_message app_id i ∷ mock_messages app_id (suc i) n

-- The request with as many messages as the application will have. A negative size, which would count
-- as a huge unsigned number, is taken for a failed assert, as is the size 0.
unfoldable pub with_size : BatchExecuteRequest → ℤ → Result PlannerError BatchExecuteRequest
unfolding mock_messages
with_size req (negsuc n) = throws assert_failed
with_size req (pos n) =
    if not (n == 0) && leb (length req.messages) n
    then ok (record req {
      messages =
          req.messages ++ mock_messages req.app_id (length req.messages) (n - length req.messages);
    })
    else throws assert_failed

unfoldable pub known_size_request :
    BatchExecuteRequest → List Message → Result PlannerError BatchExecuteRequest
unfolding with_size
known_size_request req [] = throws missing_key
known_size_request req (msg ∷ msgs) =
    with_size req (if msg.is_mpi then msg.mpi_world_size else msg.omp_num_threads)

-- The decision, whether it is for the known size of an MPI or OpenMP application, and the states of
-- the planner and the scheduler. `make` is `makeSchedulingDecision` on the copy of the host map.
unfoldable pub choose_decision :
    {W : Type 0}
    → (BatchExecuteRequest → W → Result Error (SchedulingDecision × W))
    → DecisionType
    → BatchExecuteRequest
    → PlannerState
    → W
    → Result PlannerError (SchedulingDecision × Bool × PlannerState × W)
unfolding known_size_request
choose_decision make kind req s w =
    if not (is_dist_change kind) && contains req.app_id s.preloaded_scheduling_decisions
    then (get_preloaded_scheduling_decision req.app_id req s >>= λ d. ok (
      d,
      false,
      (if is_scale_change kind
          then record s {
            preloaded_scheduling_decisions = erase req.app_id s.preloaded_scheduling_decisions;
          }
          else s),
      w,
    ))
    else if is_new kind && (first_is_mpi req.messages || first_is_omp req.messages)
    then (known_size_request req req.messages >>= λ known.
        (lift (make known w) >>= λ (d, w'). ok (d, true, s, w')))
    else (lift (make req w) >>= λ (d, w'). ok (d, false, s, w'))

-- A decision that goes back to the caller as it is, and the state then. To freeze an app, its request
-- is kept with the evicted ones.
unfoldable pub refusal :
    SchedulingDecision
    → BatchExecuteRequest
    → PlannerState
    → Result PlannerError (Option (SchedulingDecision × PlannerState))
refusal d req s =
    if same_decision d not_enough_slots_decision
    then ok (some (d, s))
    else if same_decision d do_not_migrate_decision
    then ok (some (d, s))
    else if same_decision d must_freeze_decision
    then (elim (lookup req.app_id s.in_flight_reqs) [
      | none ↦ throws missing_key
      | some (old_req, old_dec) ↦
          ok
            (some (d, record s { evicted_requests = insert req.app_id old_req s.evicted_requests }))
    ])
    else if not (is_single_host d) && req.single_host_hint
    then ok (some (not_enough_slots_decision, s))
    else ok none
