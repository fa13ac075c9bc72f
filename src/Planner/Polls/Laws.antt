-- ===== src/Planner/Polls/Laws.antt =====
-- What a poll for the results of an app tells, and does.
use mathlib.Core.Option.{some-injective}
use mathlib.Core.List.{Memᴰ}
use mathlib.Core.List.Memᴰ.{head, tail}
use faabric.Prelude.{
  ℕ, ◌≡◌, refl, sym, ◌∙◌, ap, Bool, true, false, not, Option, none, some, List, [], ◌∷◌, String,
  map, Bool-cases, inl, inr, arith,
}
use faabric.Prelude.Int.{ℤ, int_eq, int_key}
use faabric.Prelude.Maps.{Map, lookup, contains}
use faabric.Prelude.Results.{
  Result, ok, Ensures, Ensures-ok, Ensures-if, Ensures-any, Ensures-bind, Ensures-option,
}
use faabric.Batch.{
  Message, BatchExecuteRequest, BatchExecuteRequestStatus, batch_exec_status_factory,
}
use faabric.Scheduler.Decision.{SchedulingDecision, Error}
use faabric.Scheduler.Hosts.{HostMap, InFlightReqs}
use faabric.Planner.{PlannerState}
use faabric.Planner.Results.{
  results_of, poll_result, set_message_result, is_migrated_msg, is_frozen_msg,
}
use faabric.Planner.Results.Laws.{set_message_result_lem}
use faabric.Planner.Call.Dispatch.{call_batch}
use faabric.Planner.Polls.{
  Polled, frozen_request, is_inconsistent, batch_status, try_un_freeze, get_batch_results,
}

-- A status that says finished tells the truth on the state that was read, and nothing was called.
IsTrueReport : {W : Type 0} → ℤ → PlannerState → PlannerState → Polled W → Type 0
IsTrueReport app_id before after polled =
    (status : BatchExecuteRequestStatus)
    → polled.status ≡ some status
    → status.finished ≡ true
    → (polled.state ≡ after)
      × (polled.sent ≡ [])
      × (frozen_request app_id before ≡ none)
      × (contains app_id before.in_flight_reqs ≡ false)
      × (status.message_results ≡ map (λ e. e.1) (results_of app_id before.app_results))

unfinished :
    (app_id : ℤ) (status : BatchExecuteRequestStatus)
    → some (batch_exec_status_factory app_id) ≡ some status
    → status.finished ≡ true
    → ⊥
unfolding batch_exec_status_factory
unfinished app_id status e f = absurd (
    ground
      (arith, ap (λ s. s.finished) (some-injective (batch_exec_status_factory app_id) status e), f))

not-true : (b : Bool) → not b ≡ true → b ≡ false
not-true true e = absurd (ground (arith, e))
not-true false e = refl

batch_status-finished :
    (app_id : ℤ) (s : PlannerState) (status : BatchExecuteRequestStatus)
    → batch_status app_id s ≡ some status
    → status.finished ≡ true
    → (contains app_id s.in_flight_reqs ≡ false)
      × (status.message_results ≡ map (λ e. e.1) (results_of app_id s.app_results))
unfolding batch_status results_of
batch_status-finished app_id s status e f = by_results (lookup app_id s.app_results) e
  where
    report : Map ℤ Message → BatchExecuteRequestStatus
    report results = record (batch_exec_status_factory app_id) {
      message_results = map (λ e. e.1) results;
      finished = not (contains app_id s.in_flight_reqs);
    }

    by_results :
        (o : Option (Map ℤ Message))
        → (elim o as (λ x. Option BatchExecuteRequestStatus) [
          | none ↦ none
          | some results ↦ some (report results)
        ])
          ≡ some status
        → (contains app_id s.in_flight_reqs ≡ false)
          × (status.message_results
              ≡ map (λ e. e.1) (elim o as (λ x. Map ℤ Message) [ none ↦ [] | some r ↦ r ]))
    by_results none q = absurd (ground (arith, q))
    by_results (some results) q = (
      not-true (contains app_id s.in_flight_reqs)
          (ap (λ r. r.finished) (some-injective (report results) status q) ∙ f),
      sym (ap (λ r. r.message_results) (some-injective (report results) status q)),
    )

values-Mem :
    (id : ℤ) (msg : Message) (m : Map ℤ Message)
    → lookup id m ≡ some msg
    → Memᴰ msg (map (λ e. e.1) m)
unfolding lookup
values-Mem id msg [] e = absurd (ground (arith, e))
values-Mem id msg ((j, w) ∷ m) e = elim (Bool-cases (int_eq j id)) [
  | inl same ↦ head (sym (some-injective w msg (ground (arith, e, same))))
  | inr other ↦ tail (values-Mem id msg m (ground (arith, e, other)))
]

-- The status has the result that a poll for the message gives.
Tells : Message → Bool → Option BatchExecuteRequestStatus → Type 0
Tells msg finished o =
    (status : BatchExecuteRequestStatus) × (o ≡ some status)
    × Memᴰ msg status.message_results
    × (status.finished ≡ finished)

batch_status-Tells :
    (msg : Message) (s : PlannerState)
    → poll_result msg s ≡ some msg
    → Tells msg (not (contains msg.app_id s.in_flight_reqs)) (batch_status msg.app_id s)
unfolding batch_status poll_result results_of Tells lookup
batch_status-Tells msg s e = by_results (lookup msg.app_id s.app_results) e
  where
    by_results :
        (o : Option (Map ℤ Message))
        → lookup msg.id (elim o as (λ x. Map ℤ Message) [ none ↦ [] | some r ↦ r ]) ≡ some msg
        → Tells msg
            (not (contains msg.app_id s.in_flight_reqs))
            (elim o as (λ x. Option BatchExecuteRequestStatus) [
              | none ↦ none
              | some results ↦ some (record (batch_exec_status_factory msg.app_id) {
                message_results = map (λ e. e.1) results;
                finished = not (contains msg.app_id s.in_flight_reqs);
              })
            ])
    by_results none q = absurd (ground (arith, q))
    by_results (some results) q = (_, refl, values-Mem msg.id msg results q, refl)

module _ {W : Type 0}
    (make : HostMap
      → InFlightReqs
      → BatchExecuteRequest
      → W
      → Result Error (SchedulingDecision × W))
    (gids : ℕ → ℤ) (group_id app_id : ℤ) where
  try_un_freeze-IsTrueReport :
      (before after : PlannerState) (frozen : BatchExecuteRequest) (seen s : PlannerState) (w : W)
      → Ensures
          (IsTrueReport app_id before after)
          (try_un_freeze make gids group_id app_id frozen seen s w)
  unfolding try_un_freeze IsTrueReport Ensures
  try_un_freeze-IsTrueReport before after frozen seen s w =
      Ensures-if (IsTrueReport app_id before after) (contains app_id seen.in_flight_reqs) _ _
        (λ q status e f. absurd (unfinished app_id status e f))
        (λ q.
          Ensures-bind (λ r. Unit) (IsTrueReport app_id before after)
            (call_batch make gids group_id frozen s w) _
            (Ensures-any (call_batch make gids group_id frozen s w))
            (λ r t status e f. absurd (unfinished app_id status e f)))

  get_batch_results-IsTrueReport :
      (before seen after : PlannerState) (w : W)
      → Ensures
          (IsTrueReport app_id before after)
          (get_batch_results make gids group_id app_id before seen after w)
  unfolding get_batch_results IsTrueReport Ensures
  get_batch_results-IsTrueReport before seen after w =
      Ensures-option (IsTrueReport app_id before after) (frozen_request app_id before) _ _
        (λ q status e f. (
          refl,
          refl,
          q,
          (batch_status-finished app_id before status e f).0,
          (batch_status-finished app_id before status e f).1,
        ))
        (λ frozen q.
          Ensures-if (IsTrueReport app_id before after) (is_inconsistent app_id frozen before) _ _
            (λ bad status e f. absurd (ground (arith, e)))
            (λ good. try_un_freeze-IsTrueReport before after frozen seen after w))

  -- When getBatchResults returns a status that says finished, the app was neither frozen nor in flight
  -- when the state was read, the status has all the results that were stored for it, and the call
  -- changed nothing and sent nothing.
  pub get_batch_results_finished :
      (before seen after : PlannerState) (w : W) (polled : Polled W)
      (status : BatchExecuteRequestStatus)
      → get_batch_results make gids group_id app_id before seen after w ≡ ok polled
      → polled.status ≡ some status
      → status.finished ≡ true
      → (polled.state ≡ after)
        × (polled.sent ≡ [])
        × (frozen_request app_id before ≡ none)
        × (contains app_id before.in_flight_reqs ≡ false)
        × (status.message_results ≡ map (λ e. e.1) (results_of app_id before.app_results))
  unfolding IsTrueReport
  get_batch_results_finished before seen after w polled status run e f =
      Ensures-ok (IsTrueReport app_id before after)
        (get_batch_results make gids group_id app_id before seen after w) polled
        (get_batch_results-IsTrueReport before seen after w) run status e f

  poll_unfrozen :
      (before seen after : PlannerState) (w : W) (o : Option BatchExecuteRequestStatus)
      → frozen_request app_id before ≡ none
      → batch_status app_id before ≡ o
      → get_batch_results make gids group_id app_id before seen after w
        ≡ ok (record { status = o; state = after; sent = []; scheduler = w })
  unfolding get_batch_results
  poll_unfrozen before seen after w o unfrozen e = rw (unfrozen, get_batch_results, e) refl

module _ {W : Type 0}
    (make : HostMap
      → InFlightReqs
      → BatchExecuteRequest
      → W
      → Result Error (SchedulingDecision × W))
    (gids : ℕ → ℤ) (group_id : ℤ) where
  -- After setMessageResult of a message that is neither migrated nor frozen, getBatchResults for its
  -- app, when that is not frozen, succeeds: the status has the message among its results and says
  -- finished when the app has left the flight, and nothing is called.
  pub set_message_result-get_batch_results :
      (msg : Message) (s t seen after : PlannerState) (w : W) (told : List (String × Message))
      → is_migrated_msg msg ≡ false
      → is_frozen_msg msg ≡ false
      → set_message_result msg s ≡ ok (t, told)
      → frozen_request msg.app_id t ≡ none
      → (status : BatchExecuteRequestStatus) × (get_batch_results make gids group_id msg.app_id t
            seen after w
          ≡ ok (record { status = some status; state = after; sent = []; scheduler = w }))
        × Memᴰ msg status.message_results
        × (status.finished ≡ not (contains msg.app_id t.in_flight_reqs))
  unfolding Tells
  set_message_result-get_batch_results msg s t seen after w told e f run unfrozen =
      let (status, q, member, finished) = batch_status-Tells msg t polled in
      (
        status,
        poll_unfrozen make gids group_id msg.app_id t seen after w (some status) unfrozen q,
        member,
        finished,
      )
    where
      polled : poll_result msg t ≡ some msg
      polled = (set_message_result_lem msg s t told e f run).0
