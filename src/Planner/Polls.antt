-- ===== src/Planner/Polls.antt =====
-- `getBatchResults` of src/planner/Planner.cpp: it returns the results of an app, and calls the batch of
-- a frozen app again.
pub mod Laws
use faabric.Prelude.{
  ℕ, ◌==◌, Bool, true, false, ◌&&◌, not, Option, none, some, List, [], ◌∷◌, ◌++◌, map, length,
  if◌then◌else◌,
}
use faabric.Prelude.Int.{ℤ, int_key}
use faabric.Prelude.Maps.{lookup, contains}
use faabric.Prelude.Results.{Result, throws, ok, ◌>>=◌}
use faabric.Batch.{
  Message, BatchExecuteRequest, BatchExecuteRequestStatus, batch_exec_status_factory,
}
use faabric.Scheduler.Decision.{SchedulingDecision, Error}
use faabric.Scheduler.Hosts.{HostMap, InFlightReqs}
use faabric.Planner.{PlannerState, PlannerError}
use faabric.Planner.Results.{is_frozen_msg}
use faabric.Planner.Call.{Sent, Called}
use faabric.Planner.Call.Dispatch.{call_batch}

-- All messages have reported as frozen.
unfoldable pub all_frozen : List Message → Bool
all_frozen [] = true
all_frozen (msg ∷ msgs) = is_frozen_msg msg && all_frozen msgs

-- The evicted request of an app that is frozen.
unfoldable pub frozen_request : ℤ → PlannerState → Option BatchExecuteRequest
unfolding all_frozen
frozen_request app_id s = elim (lookup app_id s.evicted_requests) [
  | none ↦ none
  | some ber ↦ if all_frozen ber.messages then some ber else none
]

-- A frozen app has as many messages in flight as the frozen request has.
unfoldable pub is_inconsistent : ℤ → BatchExecuteRequest → PlannerState → Bool
is_inconsistent app_id frozen s = elim (lookup app_id s.in_flight_reqs) [
  | none ↦ false
  | some (req, d) ↦ length frozen.messages == length req.messages
]

-- What the poller gets for an app that is not frozen.
unfoldable pub batch_status : ℤ → PlannerState → Option BatchExecuteRequestStatus
unfolding batch_exec_status_factory
batch_status app_id s = elim (lookup app_id s.app_results) [
  | none ↦ none
  | some results ↦ some (record (batch_exec_status_factory app_id) {
    message_results = map (λ e. e.1) results;
    finished = not (contains app_id s.in_flight_reqs);
  })
]

-- What a poll returns: the status, the state, what is sent, and the state of the scheduler.
pub record Polled (W : Type 0) : Type 0 where
  pub status : Option BatchExecuteRequestStatus
  pub state : PlannerState
  pub sent : List Sent
  pub scheduler : W

module _ {W : Type 0}
    (make : HostMap
      → InFlightReqs
      → BatchExecuteRequest
      → W
      → Result Error (SchedulingDecision × W))
    (gids : ℕ → ℤ) (group_id app_id : ℤ) where
  -- The attempt to un-freeze: the app is looked for without a lock, in the state `seen`, and the batch is
  -- called under a lock of its own, in the state `s`, where another poller may
  -- have un-frozen it. The status is not finished, whatever the decision is.
  unfoldable pub try_un_freeze :
      BatchExecuteRequest → PlannerState → PlannerState → W → Result PlannerError (Polled W)
  try_un_freeze frozen seen s w =
      if contains app_id seen.in_flight_reqs
      then ok (record {
        status = some (batch_exec_status_factory app_id);
        state = s;
        sent = [];
        scheduler = w;
      })
      else (call_batch make gids group_id frozen s w >>= λ (called, w'). ok (record {
        status = some (batch_exec_status_factory app_id);
        state = called.state;
        sent = called.sent;
        scheduler = w';
      }))

  -- `getBatchResults` reads the state `before` under the shared lock; for a frozen app it then reads
  -- `seen` and calls the batch in `after`. Other calls may come between the three.
  unfoldable pub get_batch_results :
      PlannerState → PlannerState → PlannerState → W → Result PlannerError (Polled W)
  unfolding frozen_request is_inconsistent batch_status try_un_freeze
  get_batch_results before seen after w = elim (frozen_request app_id before) [
    | none ↦
        ok (record { status = batch_status app_id before; state = after; sent = []; scheduler = w })
    | some frozen ↦
        if is_inconsistent app_id frozen before
        then ok (record { status = none; state = after; sent = []; scheduler = w })
        else try_un_freeze frozen seen after w
  ]
