-- ===== src/Planner/Tests/Polls.antt =====
-- Runs of `getBatchResults`.
use mathlib.Core.List.{Memᴰ}
use faabric.Prelude.{◌≡◌, refl, true, false, not, some, none, [], ◌∷◌, map}
use faabric.Prelude.Int.{pos, int_key}
use faabric.Prelude.Maps.{lookup, contains}
use faabric.Prelude.Results.{ok}
use faabric.Batch.{BatchExecuteRequestStatus}
use faabric.Planner.{PlannerState}
use faabric.Planner.Results.{results_of}
use faabric.Planner.Call.New.{bin_pack}
use faabric.Planner.Polls.{Polled, frozen_request, get_batch_results}
use faabric.Planner.Polls.Laws.{get_batch_results_finished, set_message_result-get_batch_results}
use faabric.Planner.Tests.{
  running, message, finished, waited, running_waited, told, gids, finish_run,
}

abbrev done : PlannerState
done = finished waited

abbrev report : BatchExecuteRequestStatus
report = record { app_id = pos 7; finished = true; message_results = message (pos 100) "" ∷ [] }

abbrev polled : Polled (Unit {0})
polled = record { status = some report; state = running; sent = []; scheduler = tt }

poll_run : get_batch_results bin_pack gids (pos 42) (pos 7) done running running tt ≡ ok polled
unfolding get_batch_results lookup
poll_run = refl

poll_example :
    (polled.state ≡ running)
    × (polled.sent ≡ [])
    × (frozen_request (pos 7) done ≡ none)
    × (contains (pos 7) done.in_flight_reqs ≡ false)
    × (report.message_results ≡ map (λ e. e.1) (results_of (pos 7) done.app_results))
poll_example =
    get_batch_results_finished bin_pack gids (pos 42) (pos 7) done running running tt polled report
      poll_run refl refl

unfrozen : frozen_request (pos 7) done ≡ none
unfolding frozen_request lookup
unfrozen = refl

report_example :
    (status : BatchExecuteRequestStatus) × (get_batch_results bin_pack gids
        (pos 42)
        (pos 7)
        done
        running
        running
        tt
      ≡ ok (record { status = some status; state = running; sent = []; scheduler = tt }))
    × Memᴰ (message (pos 100) "") status.message_results
    × (status.finished ≡ not (contains (pos 7) done.in_flight_reqs))
report_example =
    set_message_result-get_batch_results bin_pack gids (pos 42) (message (pos 100) "")
      running_waited done running running tt told refl refl finish_run unfrozen
