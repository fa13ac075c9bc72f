-- ===== src/Planner/Tests/Turns.antt =====
-- Runs of `discoverService`.
use faabric.Prelude.{ℕ, ◌≡◌, ◌≢◌, ◌<◌, refl, some, List, [], ◌∷◌, length, arith, name_key}
use faabric.Prelude.Maps.{lookup}
use faabric.Planner.{PlannerState, ServiceEndpoint}
use faabric.Planner.Services.{endpoints_of, endpoint_at, counter_of, discover_service}
use faabric.Planner.Services.Turns.{offered, turn_name, discover_times, discover_service_turns}
use faabric.Planner.Tests.{running, echo_on}

abbrev two_echoes : List ServiceEndpoint
two_echoes = echo_on "10.0.0.1" ∷ echo_on "10.0.0.2" ∷ []

abbrev two_serving : PlannerState
two_serving = record running { ready_services = ("echo", two_echoes) ∷ [] }

turns_example :
    (k : ℕ) × (k < length (offered "" two_echoes))
    × ((discover_service "echo" "" (discover_times k "echo" "" two_serving)).0
        ≡ some (echo_on "10.0.0.2"))
unfolding endpoints_of lookup counter_of turn_name offered endpoint_at
turns_example =
    discover_service_turns "echo" "" two_echoes two_serving 1 (echo_on "10.0.0.2") refl some_echoes
      (omega arith) refl
  where
    some_echoes : two_echoes ≢ []
    some_echoes e = cc
