-- ===== src/Planner/Steps/Decided.antt =====
-- Well-formed host maps from a decision to the end of `callBatch`, and in `getBatchResults`.
use faabric.Prelude.{ℕ, Bool, true, false, not, ◌||◌, ◌&&◌, Option, none, some, if◌then◌else◌}
use faabric.Prelude.Int.{ℤ, int_eq, int_key}
use faabric.Prelude.Maps.{lookup, contains, erase}
use faabric.Prelude.Results.{Result, Ensures, Ensures-if, Ensures-any, Ensures-bind, Ensures-option}
use faabric.Batch.{BatchExecuteRequest, update_batch_exec_group_id}
use faabric.Scheduler.Decision.{
  SchedulingDecision, Error, not_enough_slots_decision, do_not_migrate_decision,
  must_freeze_decision, is_single_host,
}
use faabric.Scheduler.Hosts.{HostMap, InFlightReqs, DecisionType, get_decision_type}
use faabric.Planner.{PlannerState}
use faabric.Planner.Results.{lift}
use faabric.Planner.Preloaded.{get_preloaded_scheduling_decision}
use faabric.Planner.Call.{Called, same_decision}
use faabric.Planner.Call.Prepare.{first_of}
use faabric.Planner.Call.Choose.{
  prepare_request, choose_decision, refusal, is_dist_change, is_scale_change, is_new, first_is_mpi,
  first_is_omp, known_size_request,
}
use faabric.Planner.Call.Place.{
  thaw, un_freeze, is_rest_of_world, fixed_size_preloaded_decision_group_id,
}
use faabric.Planner.Call.Dispatch.{
  accept, call_batch, call_prepared, call_decided, scheduler_hosts, dispatch_called,
  dispatch_scheduling_decision, is_consistent,
}
use faabric.Planner.Polls.{
  Polled, frozen_request, is_inconsistent, try_un_freeze, get_batch_results,
}
use faabric.Planner.Steps.Results.{IsValidState}
use faabric.Planner.Steps.Call.{LeavesState, IsValidCall, place-IsValidCall}

un_freeze-IsValidState :
    (kind : DecisionType) (req : BatchExecuteRequest) (s : PlannerState)
    → IsValidState s
    → Ensures LeavesState (un_freeze kind req s)
unfolding un_freeze thaw Ensures
un_freeze-IsValidState kind req s v =
    Ensures-option LeavesState (lookup req.app_id s.evicted_requests) _ _ (λ e. v)
      (λ evicted e.
        Ensures-if LeavesState (is_new kind && first_is_mpi req.messages) _ _
          (λ f.
            Ensures-bind (λ m. Unit) LeavesState (first_of req.messages) _
              (Ensures-any (first_of req.messages)) (λ m t. v))
          (λ f.
            Ensures-if LeavesState (first_is_mpi req.messages && not (is_dist_change kind)) _ _
              (λ g.
                Ensures-bind (λ m. Unit) LeavesState (first_of req.messages) _
                  (Ensures-any (first_of req.messages))
                  (λ m t.
                    Ensures-if LeavesState (is_rest_of_world req.messages m) _ _ (λ h. v)
                      (λ h. tt)))
              (λ g. v)))

dispatch_called-IsValidCall :
    (kind : DecisionType) (req : BatchExecuteRequest) (c : Called)
    → IsValidCall c
    → Ensures IsValidCall (dispatch_called kind req c)
unfolding dispatch_called Ensures
dispatch_called-IsValidCall kind req c v =
    Ensures-if IsValidCall (is_consistent req c.decision) _ _
      (λ e.
        Ensures-if IsValidCall (is_dist_change kind) _ _ (λ f. v)
          (λ f.
            Ensures-bind (λ x. Unit) IsValidCall (dispatch_scheduling_decision req c.decision) _
              (Ensures-any (dispatch_scheduling_decision req c.decision)) (λ x t. v)))
      (λ e. tt)

-- What comes back in place of a placement.
abbrev IsValidAnswer : Option (SchedulingDecision × PlannerState) → Type 0
IsValidAnswer none = Unit
IsValidAnswer (some r) = IsValidState r.1

refusal-IsValidAnswer :
    (d : SchedulingDecision) (req : BatchExecuteRequest) (s : PlannerState)
    → IsValidState s
    → Ensures IsValidAnswer (refusal d req s)
unfolding refusal Ensures
refusal-IsValidAnswer d req s v =
    Ensures-if IsValidAnswer (same_decision d not_enough_slots_decision) _ _ (λ e. v)
      (λ e.
        Ensures-if IsValidAnswer (same_decision d do_not_migrate_decision) _ _ (λ f. v)
          (λ f.
            Ensures-if IsValidAnswer (same_decision d must_freeze_decision) _ _
              (λ g.
                Ensures-option IsValidAnswer (lookup req.app_id s.in_flight_reqs) _ _ (λ h. tt)
                  (λ p h. v))
              (λ g.
                Ensures-if IsValidAnswer (not (is_single_host d) && req.single_host_hint) _ _
                  (λ h. v) (λ h. tt))))

accept-IsValidCall :
    (group_id : ℤ) (kind : DecisionType) (req : BatchExecuteRequest) (d : SchedulingDecision)
    (known : Bool) (s : PlannerState) (o : Option (SchedulingDecision × PlannerState))
    → IsValidState s
    → IsValidAnswer o
    → Ensures IsValidCall (accept group_id kind req d known s o)
unfolding accept Ensures
accept-IsValidCall group_id kind req d known s (some r) v w = w
accept-IsValidCall group_id kind req d known s none v w =
    Ensures-bind LeavesState IsValidCall (un_freeze kind req s) _
      (un_freeze-IsValidState kind req s v)
      (λ r u.
        Ensures-bind IsValidCall IsValidCall _ _
          (place-IsValidCall kind known (int_eq d.group_id fixed_size_preloaded_decision_group_id)
            group_id (update_batch_exec_group_id r.0 group_id) (record d { group_id = group_id })
            r.1 u)
          (λ c k. dispatch_called-IsValidCall kind (update_batch_exec_group_id r.0 group_id) c k))

module _ {W : Type 0} where
  -- The state that comes with a decision.
  abbrev LeavesDecided : SchedulingDecision × Bool × PlannerState × W → Type 0
  LeavesDecided r = IsValidState r.2

  choose_decision-IsValidState :
      (make : BatchExecuteRequest → W → Result Error (SchedulingDecision × W)) (kind : DecisionType)
      (req : BatchExecuteRequest) (s : PlannerState) (w : W)
      → IsValidState s
      → Ensures LeavesDecided (choose_decision make kind req s w)
  unfolding choose_decision Ensures
  choose_decision-IsValidState make kind req s w v =
      Ensures-if LeavesDecided
        (not (is_dist_change kind) && contains req.app_id s.preloaded_scheduling_decisions) _ _
        (λ e.
          Ensures-bind (λ d. Unit) LeavesDecided
            (get_preloaded_scheduling_decision req.app_id req s) _
            (Ensures-any (get_preloaded_scheduling_decision req.app_id req s))
            (λ d t. by_kind d (is_scale_change kind)))
        (λ e.
          Ensures-if LeavesDecided
            (is_new kind && (first_is_mpi req.messages || first_is_omp req.messages)) _ _
            (λ f.
              Ensures-bind (λ r. Unit) LeavesDecided (known_size_request req req.messages) _
                (Ensures-any (known_size_request req req.messages))
                (λ r t.
                  Ensures-bind (λ p. Unit) LeavesDecided (lift (make r w)) _
                    (Ensures-any (lift (make r w))) (λ p u. v)))
            (λ f.
              Ensures-bind (λ p. Unit) LeavesDecided (lift (make req w)) _
                (Ensures-any (lift (make req w))) (λ p u. v)))
    where
      by_kind :
          (d : SchedulingDecision) (b : Bool)
          → IsValidState (
              if b
              then record s {
                preloaded_scheduling_decisions = erase req.app_id s.preloaded_scheduling_decisions;
              }
              else s)
      by_kind d true = v
      by_kind d false = v

  -- Whatever the scheduler decides, `callBatch` keeps the host map well formed when it does not throw.
  pub call_batch-IsValidState :
      (make : HostMap
        → InFlightReqs
        → BatchExecuteRequest
        → W
        → Result Error (SchedulingDecision × W))
      (gids : ℕ → ℤ) (group_id : ℤ) (req : BatchExecuteRequest) (s : PlannerState) (w : W)
      → IsValidState s
      → Ensures (λ r. IsValidState r.0.state) (call_batch make gids group_id req s w)
  unfolding call_batch call_prepared call_decided Ensures
  call_batch-IsValidState make gids group_id req s w v =
      Ensures-bind (λ r. Unit) P
        (prepare_request gids (get_decision_type s.in_flight_reqs req) req s) _
        (Ensures-any (prepare_request gids (get_decision_type s.in_flight_reqs req) req s))
        (λ q t.
          Ensures-bind (λ h. Unit) P (scheduler_hosts q s) _ (Ensures-any (scheduler_hosts q s))
            (λ h u.
              Ensures-bind LeavesDecided P _ _
                (choose_decision-IsValidState (make h s.in_flight_reqs)
                  (get_decision_type s.in_flight_reqs req) q s w v)
                (λ r k.
                  Ensures-bind IsValidCall P _ _
                    (Ensures-bind IsValidAnswer IsValidCall (refusal r.0 q r.2) _
                      (refusal-IsValidAnswer r.0 q r.2 k)
                      (λ o a.
                        accept-IsValidCall group_id (get_decision_type s.in_flight_reqs req) q r.0
                          r.1 r.2 o k a))
                    (λ c x. x))))
    where
      P : Called × W → Type 0
      P r = IsValidState r.0.state

module _ {W : Type 0} where
  pub get_batch_results-IsValidState :
      (make : HostMap
        → InFlightReqs
        → BatchExecuteRequest
        → W
        → Result Error (SchedulingDecision × W))
      (gids : ℕ → ℤ) (group_id app_id : ℤ) (before seen s : PlannerState) (w : W)
      → IsValidState s
      → Ensures
          (λ r. IsValidState r.state)
          (get_batch_results make gids group_id app_id before seen s w)
  unfolding get_batch_results try_un_freeze Ensures
  get_batch_results-IsValidState make gids group_id app_id before seen s w v =
      Ensures-option P (frozen_request app_id before) _ _ (λ q. v)
        (λ frozen q.
          Ensures-if P (is_inconsistent app_id frozen before) _ _ (λ bad. v)
            (λ good.
              Ensures-if P (contains app_id seen.in_flight_reqs) _ _ (λ known. v)
                (λ unknown.
                  Ensures-bind (λ r. IsValidState r.0.state) P
                    (call_batch make gids group_id frozen s w) _
                    (call_batch-IsValidState make gids group_id frozen s w v) (λ r u. u))))
    where
      P : Polled W → Type 0
      P r = IsValidState r.state
