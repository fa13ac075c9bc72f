-- ===== src/Planner/Preloaded.antt =====
-- The preloaded scheduling decisions of src/planner/Planner.cpp.
use faabric.Prelude.{
  ℕ, ◌-◌, Option, none, some, List, [], ◌∷◌, length, get_or, set, ltb, if◌then◌else◌,
}
use faabric.Prelude.Int.{ℤ, pos, int_key}
use faabric.Prelude.Maps.{lookup, contains, insert}
use faabric.Prelude.Results.{Result, throws, ok, ◌>>=◌}
use faabric.Batch.{Message, BatchExecuteRequest}
use faabric.Scheduler.Decision.{SchedulingDecision, new_decision, add_message_fields, find_index}
use faabric.Planner.{PlannerState, PlannerError, assert_failed, missing_key}

-- A second decision for the same app is not taken.
unfoldable pub preload_scheduling_decision : ℤ → SchedulingDecision → PlannerState → PlannerState
preload_scheduling_decision app_id decision s =
    if contains app_id s.preloaded_scheduling_decisions then s else record s {
      preloaded_scheduling_decisions = insert app_id decision s.preloaded_scheduling_decisions;
    }

-- The entry `i` of the preloaded decision, with the id of the message of the request. The vectors are
-- read with `at`: an index past the end of one of them throws.
unfoldable pub take_entry :
    SchedulingDecision → Message → ℕ → SchedulingDecision → Result PlannerError SchedulingDecision
take_entry decision msg i filtered =
    if ltb i (length decision.hosts)
    then (if ltb i (length decision.app_idxs)
        then (if ltb i (length decision.mpi_ports)
            then (let added =
                  add_message_fields (get_or decision.hosts i "") msg.id
                    (get_or decision.app_idxs i (pos 0)) (get_or decision.group_idxs i (pos 0))
                    filtered in
                ok (record added {
                  mpi_ports =
                      set added.mpi_ports (added.n_functions - 1)
                        (get_or decision.mpi_ports i (pos 0));
                }))
            else throws missing_key)
        else throws missing_key)
    else throws missing_key

-- One message of the request: the first entry of the decision with its group index.
unfoldable pub filter_message :
    SchedulingDecision → Message → SchedulingDecision → Result PlannerError SchedulingDecision
unfolding take_entry
filter_message decision msg filtered = elim (find_index msg.group_idx decision.group_idxs) [
  | none ↦ throws assert_failed
  | some i ↦ take_entry decision msg i filtered
]

unfoldable pub filter_decision :
    SchedulingDecision → List Message → SchedulingDecision → Result PlannerError SchedulingDecision
unfolding filter_message
filter_decision decision [] filtered = ok filtered
filter_decision decision (msg ∷ msgs) filtered =
    filter_message decision msg filtered >>= filter_decision decision msgs

-- The part of the preloaded decision for the messages of this request.
unfoldable pub get_preloaded_scheduling_decision :
    ℤ → BatchExecuteRequest → PlannerState → Result PlannerError SchedulingDecision
unfolding filter_decision
get_preloaded_scheduling_decision app_id ber s =
    elim (lookup app_id s.preloaded_scheduling_decisions) [
      | none ↦ throws missing_key
      | some decision ↦
          filter_decision decision ber.messages (new_decision decision.app_id decision.group_id)
    ]

unfoldable pub get_scheduling_decision :
    BatchExecuteRequest → PlannerState → Option SchedulingDecision
get_scheduling_decision req s = elim (lookup req.app_id s.in_flight_reqs) [
  | none ↦ none
  | some (r, decision) ↦ some decision
]
