-- ===== src/Planner/Services/Turns.antt =====
-- The round robin of `discoverService`: the endpoints that repeated calls of one caller get.
use Prim.Native.String.{◌++◌ as append_names}
use native.Mathlib.Nat.{mod-lt, mod-eq_of_lt, mod-add-mod, add-mod-mod, add-mod_right}
use faabric.Prelude.{
  ℕ, zero, suc, ◌+◌, ◌-◌, ◌^◌, ◌%◌, ◌<◌, ◌≤◌, ◌==◌, ◌≡◌, ◌≢◌, refl, sym, ◌∙◌, ap, Bool, true, false,
  ◌&&◌, not, none, some, List, [], ◌∷◌, String, length, arith, if◌then◌else◌, name_key, same_name,
}
use faabric.Prelude.Maps.Entries.{lookup-insert_same}
use faabric.Planner.{PlannerState, ServiceEndpoint}
use faabric.Planner.Services.{
  endpoints_of, local_endpoints, endpoint_at, next_endpoint, counter_of, choose_endpoint,
  discover_service,
}

-- Whether a caller gets endpoints of its own host.
abbrev is_near : String → List ServiceEndpoint → Bool
is_near caller es = not (same_name caller "") && not (length (local_endpoints caller es) == 0)

-- The endpoints between which the calls of a caller choose, and the name of their counter.
unfoldable pub offered : String → List ServiceEndpoint → List ServiceEndpoint
offered caller es = if is_near caller es then local_endpoints caller es else es

unfoldable pub turn_name : String → String → List ServiceEndpoint → String
turn_name name caller es = if is_near caller es then append_names name "@local" else name

-- The state after a number of calls.
unfoldable pub discover_times : ℕ → String → String → PlannerState → PlannerState
discover_times zero name caller s = s
discover_times (suc k) name caller s =
    discover_times k name caller (discover_service name caller s).1

-- The place whose turn comes `k` calls after the place of `c`.
place_after : (n c k : ℕ) → ℕ
place_after n c k = (k + (n - c % n)) % n

place_after-turn : (n c j : ℕ) → j < n → (c + place_after n c j) % n ≡ j
unfolding place_after
place_after-turn n c j h =
    add-mod-mod c (j + (n - c % n)) n
    ∙ sym (mod-add-mod c n (j + (n - c % n)))
    ∙ ap (λ x. x % n) (omega (arith, below))
    ∙ add-mod_right j n
    ∙ mod-eq_of_lt h
  where
    below : c % n < n
    below = mod-lt c (omega (arith, h))

endpoint_at-below :
    (i : ℕ) (es : List ServiceEndpoint) (e : ServiceEndpoint)
    → endpoint_at i es ≡ some e
    → i < length es
unfolding endpoint_at
endpoint_at-below i [] e f = absurd (ground (arith, f))
endpoint_at-below zero (d ∷ es) e f = omega arith
endpoint_at-below (suc i) (d ∷ es) e f = omega (arith, endpoint_at-below i es e f)

not_empty : (es : List ServiceEndpoint) → es ≢ [] → (length es == 0) ≡ false
not_empty [] h = absurd (h refl)
not_empty (e ∷ es) h = ground arith

module _ (name caller : String) (es : List ServiceEndpoint) where
  choose_endpoint-next :
      (s : PlannerState)
      → choose_endpoint name caller es s
        ≡ next_endpoint (turn_name name caller es) (offered caller es) s
  unfolding choose_endpoint offered turn_name
  choose_endpoint-next s = by_near (is_near caller es)
    where
      by_near :
          (b : Bool)
          → (if b
              then next_endpoint (append_names name "@local") (local_endpoints caller es) s
              else next_endpoint name es s)
            ≡ next_endpoint
                (if b then append_names name "@local" else name)
                (if b then local_endpoints caller es else es)
                s
      by_near true = refl
      by_near false = refl

  discover_service-next :
      (s : PlannerState)
      → endpoints_of name s.ready_services ≡ es
      → es ≢ []
      → discover_service name caller s
        ≡ next_endpoint (turn_name name caller es) (offered caller es) s
  unfolding discover_service
  discover_service-next s ready some_es =
      ap (λ x. if length x == 0 then (none, s) else choose_endpoint name caller x s) ready
      ∙ rw (not_empty es some_es) (choose_endpoint-next s)

  -- The counter of the caller.
  turn : PlannerState → ℕ
  turn s = counter_of (turn_name name caller es) s.service_rr_counter

  turn-next :
      (s : PlannerState)
      → turn s + 1 < 2 ^ 64
      → turn (next_endpoint (turn_name name caller es) (offered caller es) s).1 ≡ turn s + 1
  unfolding next_endpoint counter_of turn
  turn-next s h =
      ap (λ o. elim o [ none ↦ 0 | some n ↦ n ])
        (lookup-insert_same (turn_name name caller es) ((turn s + 1) % 2 ^ 64) s.service_rr_counter)
      ∙ mod-eq_of_lt h

  discover_times-found :
      (k : ℕ) (s : PlannerState)
      → endpoints_of name s.ready_services ≡ es
      → es ≢ []
      → turn s + k < 2 ^ 64
      → (discover_service name caller (discover_times k name caller s)).0
        ≡ endpoint_at ((turn s + k) % length (offered caller es)) (offered caller es)
  unfolding discover_times next_endpoint turn
  discover_times-found zero s ready some_es h =
      ap (λ r. r.0) (discover_service-next s ready some_es)
      ∙ ap (λ c. endpoint_at (c % length (offered caller es)) (offered caller es)) (omega arith)
  discover_times-found (suc k) s ready some_es h =
      discover_times-found k (discover_service name caller s).1
        (ap (λ r. endpoints_of name r.1.ready_services) step ∙ ready) some_es
        (omega (arith, counted, h))
      ∙ ap (λ c. endpoint_at (c % length (offered caller es)) (offered caller es))
          (omega (arith, counted))
    where
      step :
          discover_service name caller s
          ≡ next_endpoint (turn_name name caller es) (offered caller es) s
      step = discover_service-next s ready some_es

      counted : turn (discover_service name caller s).1 ≡ turn s + 1
      counted = ap (λ r. turn r.1) step ∙ turn-next s (omega (arith, h))

-- When the service has endpoints, and the counter of the caller stays below 2^64 over the calls, each
-- endpoint that is offered to the caller, those on its host or else all, is found by one of as many
-- consecutive calls of discoverService as there are endpoints offered.
pub discover_service_turns :
    (name caller : String) (es : List ServiceEndpoint) (s : PlannerState) (j : ℕ)
    (e : ServiceEndpoint)
    → endpoints_of name s.ready_services ≡ es
    → es ≢ []
    → counter_of (turn_name name caller es) s.service_rr_counter + length (offered caller es)
      ≤ 2 ^ 64
    → endpoint_at j (offered caller es) ≡ some e
    → (k : ℕ) × (k < length (offered caller es))
      × ((discover_service name caller (discover_times k name caller s)).0 ≡ some e)
unfolding turn place_after
discover_service_turns name caller es s j e ready some_es room found = (
  place_after n c j,
  before,
  discover_times-found name caller es (place_after n c j) s ready some_es
        (omega (arith, room, before))
      ∙ ap (λ i. endpoint_at i (offered caller es)) (place_after-turn n c j below)
      ∙ found,
)
  where
    n : ℕ
    n = length (offered caller es)

    c : ℕ
    c = counter_of (turn_name name caller es) s.service_rr_counter

    below : j < n
    below = endpoint_at-below j (offered caller es) e found

    before : place_after n c j < n
    before = mod-lt (j + (n - c % n)) (omega (arith, below))
