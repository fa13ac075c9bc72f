-- ===== src/Scheduler/Hosts/Kinds.antt =====
-- The type of a decision, by what is in flight.
use faabric.Prelude.{◌≡◌, refl, ◌⊎◌, inl, inr, Option-cases}
use faabric.Prelude.Int.{int_key}
use faabric.Prelude.Maps.{lookup}
use faabric.Prelude.Results.{ok}
use faabric.Batch.{BatchExecuteRequest, BatchExecuteType}
use faabric.Scheduler.Decision.{SchedulingDecision}
use faabric.Scheduler.Hosts.{
  InFlightReqs, new, dist_change, scale_change, get_decision_type, decision_type_of,
  old_decision_of,
}

abbrev HasOld : InFlightReqs → BatchExecuteRequest → Type 0
HasOld in_flight req = (old : SchedulingDecision) × (old_decision_of in_flight req ≡ ok old)

type_cases :
    (t : BatchExecuteType)
    → (decision_type_of t ≡ scale_change) ⊎ (decision_type_of t ≡ dist_change)
unfolding decision_type_of
type_cases BatchExecuteType.migration = inr refl
type_cases BatchExecuteType.functions = inl refl
type_cases BatchExecuteType.threads = inl refl
type_cases BatchExecuteType.processes = inl refl
type_cases BatchExecuteType.service = inl refl

pub get_decision_type-cases :
    (in_flight : InFlightReqs) (req : BatchExecuteRequest)
    → (get_decision_type in_flight req ≡ new)
      ⊎ (((get_decision_type in_flight req ≡ scale_change) × HasOld in_flight req)
          ⊎ ((get_decision_type in_flight req ≡ dist_change) × HasOld in_flight req))
unfolding get_decision_type old_decision_of
get_decision_type-cases in_flight req = elim (Option-cases (lookup req.app_id in_flight)) [
  | inl e ↦ inl (rw (e, get_decision_type) refl)
  | inr (p, e) ↦ elim (type_cases req.type) [
    | inl scale ↦ inr (inl (rw (e, get_decision_type) scale, (p.1, rw (e, old_decision_of) refl)))
    | inr dist ↦ inr (inr (rw (e, get_decision_type) dist, (p.1, rw (e, old_decision_of) refl)))
  ]
]
