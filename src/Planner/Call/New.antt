-- ===== src/Planner/Call/New.antt =====
-- `callBatch` on a new request.
use faabric.Prelude.{◌≡◌, some, [], ◌∷◌, name_key}
use faabric.Prelude.Int.{int_key}
use faabric.Prelude.Maps.{lookup}
use faabric.Prelude.Results.{Result, ok, ◌>>=◌}
use faabric.Batch.{BatchExecuteRequest}
use faabric.Scheduler.Decision.{SchedulingDecision, Error}
use faabric.Scheduler.Hosts.{HostMap, InFlightReqs}
use faabric.Scheduler.BinPack as BinPack
use faabric.Planner.{PlannerState}
use faabric.Planner.Call.{Called, set_and_send_mappings}
use faabric.Planner.Call.Claims.Slots.{IsClaimed}

-- A new app `req` is in flight with the decision `d`, for whose messages the slots are claimed.
pub record IsPlaced (req : BatchExecuteRequest) (d : SchedulingDecision) (s : PlannerState)
    (c : Called) : Type 0 where
  pub claimed : IsClaimed d.hosts s.host_map c.state.host_map
  pub in_flight : lookup req.app_id c.state.in_flight_reqs ≡ some (req, c.decision)
  pub hosts : c.decision.hosts ≡ d.hosts
  pub message_ids : c.decision.message_ids ≡ d.message_ids
  pub sent : c.sent ≡ set_and_send_mappings c.decision ∷ []

-- The bin-pack scheduler as the planner calls it; it keeps no state.
abbrev pub bin_pack :
    HostMap
    → InFlightReqs
    → BatchExecuteRequest
    → Unit {0}
    → Result Error (SchedulingDecision × Unit {0})
bin_pack hosts in_flight req w =
    BinPack.make_scheduling_decision hosts in_flight req >>= λ d. ok (d, tt)
