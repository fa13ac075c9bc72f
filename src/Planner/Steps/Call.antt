-- ===== src/Planner/Steps/Call.antt =====
-- Well-formed host maps in the placements of `callBatch`.
use faabric.Prelude.{Bool, true, false, if◌then◌else◌, length, ◌==◌, name_key, drop}
use faabric.Prelude.Int.{ℤ, int_key}
use faabric.Prelude.Maps.{lookup}
use faabric.Prelude.Results.{ok, Ensures, Ensures-if, Ensures-any, Ensures-bind, Ensures-option}
use faabric.Batch.{BatchExecuteRequest}
use faabric.Scheduler.Decision.{SchedulingDecision}
use faabric.Scheduler.Hosts.{DecisionType, new, scale_change, dist_change, no_decision_type}
use faabric.Planner.{PlannerState}
use faabric.Planner.Registry.Laws.{IsValidHosts}
use faabric.Planner.Call.{Called}
use faabric.Planner.Call.Claims.{claim_all, claim_slots_of, release_moved}
use faabric.Planner.Call.Place.{
  place, place_new, place_grown, place_moved, keep_for_later, remove_messages,
}
use faabric.Planner.Steps.Results.{IsValidState}
use faabric.Planner.Steps.Claims.{
  LeavesValid, claim_all-IsValidHosts, claim_slots_of-IsValidHosts, release_moved-IsValidHosts,
  occupy_moved-IsValidHosts, add_to_decision-IsValidHosts,
}

-- The state that comes with a value, and the state of a call.
abbrev pub LeavesState : {A : Type 0} → A × PlannerState → Type 0
LeavesState r = IsValidState r.1

abbrev pub IsValidCall : Called → Type 0
IsValidCall c = IsValidState c.state

keep_for_later-IsValidState :
    (known : Bool) (app_id : ℤ) (d : SchedulingDecision) (s : PlannerState)
    → IsValidState s
    → Ensures LeavesState (keep_for_later known app_id d s)
unfolding keep_for_later Ensures
keep_for_later-IsValidState false app_id d s v = v
keep_for_later-IsValidState true app_id d s v =
    Ensures-bind (λ e. Unit) LeavesState (remove_messages (drop 1 d.message_ids) d) _
      (Ensures-any (remove_messages (drop 1 d.message_ids) d)) (λ e u. v)

place_new-IsValidCall :
    (known : Bool) (req : BatchExecuteRequest) (d : SchedulingDecision) (s : PlannerState)
    → IsValidState s
    → Ensures IsValidCall (place_new known req d s)
unfolding place_new Ensures
place_new-IsValidCall known req d s v =
    Ensures-bind LeavesValid IsValidCall (claim_all d.hosts d.mpi_ports s.host_map) _
      (claim_all-IsValidHosts d.hosts d.mpi_ports s.host_map v)
      (λ r w.
        Ensures-if IsValidCall (length d.hosts == length r.0) _ _
          (λ e.
            Ensures-bind LeavesState IsValidCall
              (keep_for_later known req.app_id (record d { mpi_ports = r.0 })
                (record s { host_map = r.1 }))
              _
              (keep_for_later-IsValidState known req.app_id (record d { mpi_ports = r.0 })
                (record s { host_map = r.1 }) w)
              (λ q u. u))
          (λ e. tt))

place_grown-IsValidCall :
    (skip_claim : Bool) (group_id : ℤ) (req : BatchExecuteRequest) (d : SchedulingDecision)
    (old_req : BatchExecuteRequest) (old_dec : SchedulingDecision) (s : PlannerState)
    → IsValidState s
    → Ensures IsValidCall (place_grown skip_claim group_id req d old_req old_dec s)
unfolding place_grown Ensures
place_grown-IsValidCall skip_claim group_id req d old_req old_dec s v =
    Ensures-bind LeavesValid IsValidCall _ _
      (Ensures-bind IsValidHosts LeavesValid
        (if skip_claim then ok s.host_map else claim_slots_of d.hosts s.host_map) _
        (Ensures-if IsValidHosts skip_claim _ _ (λ e. v)
          (λ e. claim_slots_of-IsValidHosts d.hosts s.host_map v))
        (λ m w.
          add_to_decision-IsValidHosts skip_claim req.messages d.hosts d.mpi_ports
            (record old_dec { group_id = group_id }) m w))
      (λ r w. w)

place_moved-IsValidCall :
    (group_id : ℤ) (req : BatchExecuteRequest) (d : SchedulingDecision)
    (old_req : BatchExecuteRequest) (old_dec : SchedulingDecision) (s : PlannerState)
    → IsValidState s
    → Ensures IsValidCall (place_moved group_id req d old_req old_dec s)
unfolding place_moved Ensures
place_moved-IsValidCall group_id req d old_req old_dec s v =
    Ensures-if IsValidCall (length d.hosts == length old_dec.hosts) _ _
      (λ e.
        Ensures-bind LeavesValid IsValidCall _ _
          (Ensures-bind IsValidHosts LeavesValid
            (release_moved old_dec.hosts d.hosts old_dec.mpi_ports s.host_map) _
            (release_moved-IsValidHosts old_dec.hosts d.hosts old_dec.mpi_ports s.host_map v)
            (λ m w.
              occupy_moved-IsValidHosts d.hosts old_dec.hosts d.mpi_ports old_dec.mpi_ports m w))
          (λ r w. w))
      (λ e. tt)

pub place-IsValidCall :
    (kind : DecisionType) (known skip_claim : Bool) (group_id : ℤ) (req : BatchExecuteRequest)
    (d : SchedulingDecision) (s : PlannerState)
    → IsValidState s
    → Ensures IsValidCall (place kind known skip_claim group_id req d s)
unfolding place Ensures
place-IsValidCall new known skip_claim group_id req d s v = place_new-IsValidCall known req d s v
place-IsValidCall scale_change known skip_claim group_id req d s v =
    Ensures-option IsValidCall (lookup req.app_id s.in_flight_reqs) _ _ (λ e. tt)
      (λ p e. place_grown-IsValidCall skip_claim group_id req d p.0 p.1 s v)
place-IsValidCall dist_change known skip_claim group_id req d s v =
    Ensures-option IsValidCall (lookup req.app_id s.in_flight_reqs) _ _ (λ e. tt)
      (λ p e. place_moved-IsValidCall group_id req d p.0 p.1 s v)
place-IsValidCall no_decision_type known skip_claim group_id req d s v = tt
