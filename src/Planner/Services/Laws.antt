-- ===== src/Planner/Services/Laws.antt =====
-- What `discoverService` finds, and what `notifyServiceReady` and `notifyServiceStopped` leave.
use mathlib.Core.Path.{subst}
use mathlib.Core.Option.{some-injective}
use Prim.Native.String.{◌++◌ as append_names}
use native.Mathlib.Nat.{mod-lt, zero-lt-suc}
use faabric.Prelude.{
  ℕ, zero, suc, ◌%◌, ◌<◌, ◌≤◌, ◌==◌, ◌≡◌, ◌≢◌, refl, ◌∙◌, ap, inl, inr, true, false, ◌&&◌, not,
  Option, none, some, List, [], ◌∷◌, String, length, arith, if◌then◌else◌, name_key, same_name,
  same_name_iff, Bool-cases, max,
}
use faabric.Prelude.Int.{ℤ, int_key}
use faabric.Prelude.Maps.{Map, lookup, insert, erase, lookup-erase}
use faabric.Prelude.Maps.Entries.{lookup-insert_same}
use faabric.Planner.{PlannerState, ServiceEndpoint}
use faabric.Planner.Services.{
  is_instance, place_endpoint, endpoints_of, remove_endpoints, put_endpoints, local_endpoints,
  endpoint_at, next_endpoint, counter_of, choose_endpoint, discover_service, notify_service_ready,
  notify_service_stopped, stop_found,
}
use faabric.Rpc.{RpcDependencyGraph}

-- The endpoints of an instance, on any host.
unfoldable pub instances : ℤ → ℤ → List ServiceEndpoint → ℕ
instances app_id message_id [] = 0
instances app_id message_id (e ∷ es) =
    if is_instance app_id message_id e
    then suc (instances app_id message_id es)
    else instances app_id message_id es

-- The endpoints of an instance on this host.
pub instances_on : String → ℤ → ℤ → List ServiceEndpoint → ℕ
instances_on host app_id message_id [] = 0
instances_on host app_id message_id (e ∷ es) =
    if is_instance app_id message_id e && same_name e.host host
    then suc (instances_on host app_id message_id es)
    else instances_on host app_id message_id es

instances-place_endpoint :
    (n : ServiceEndpoint) (es : List ServiceEndpoint)
    → instances n.app_id n.message_id (place_endpoint n es)
      ≡ max 1 (instances n.app_id n.message_id es)
unfolding instances place_endpoint
instances-place_endpoint n [] =
    ground (arith, int_key.beq_iff n.app_id n.app_id, int_key.beq_iff n.message_id n.message_id)
instances-place_endpoint n (e ∷ es) = ground (arith, instances-place_endpoint n es)

instances_on_le :
    (host : String) (app_id message_id : ℤ) (es : List ServiceEndpoint)
    → instances_on host app_id message_id es ≤ instances app_id message_id es
unfolding instances instances_on
instances_on_le host app_id message_id [] = omega arith
instances_on_le host app_id message_id (e ∷ es) =
    ground (arith, instances_on_le host app_id message_id es)

instances_on-place_endpoint :
    (n : ServiceEndpoint) (es : List ServiceEndpoint)
    → instances n.app_id n.message_id es ≤ 1
    → instances_on n.host n.app_id n.message_id (place_endpoint n es) ≡ 1
unfolding instances instances_on place_endpoint
instances_on-place_endpoint n [] h = ground (
  arith,
  int_key.beq_iff n.app_id n.app_id,
  int_key.beq_iff n.message_id n.message_id,
  same_name_iff n.host n.host,
)
instances_on-place_endpoint n (e ∷ es) h = elim (Bool-cases (is_instance n.app_id n.message_id e)) [
  | inl same ↦
      ground (arith, same_name_iff n.host n.host, instances_on_le n.host n.app_id n.message_id es)
  | inr other ↦ ground (arith, instances_on-place_endpoint n es (ground arith))
]

instances-remove_endpoints :
    (app_id message_id : ℤ) (es : List ServiceEndpoint)
    → instances app_id message_id (remove_endpoints app_id message_id es) ≡ 0
unfolding instances remove_endpoints
instances-remove_endpoints app_id message_id [] = refl
instances-remove_endpoints app_id message_id (e ∷ es) =
    ground (arith, instances-remove_endpoints app_id message_id es)

endpoint_at-some :
    (i : ℕ) (es : List ServiceEndpoint)
    → i < length es
    → (e : ServiceEndpoint) × (endpoint_at i es ≡ some e)
unfolding endpoint_at
endpoint_at-some i [] h = absurd (omega arith)
endpoint_at-some zero (e ∷ es) h = (e, refl)
endpoint_at-some (suc i) (e ∷ es) h = endpoint_at-some i es (omega arith)

endpoint_at-local :
    (host : String) (i : ℕ) (es : List ServiceEndpoint) (e : ServiceEndpoint)
    → endpoint_at i (local_endpoints host es) ≡ some e
    → same_name e.host host ≡ true
unfolding endpoint_at local_endpoints
endpoint_at-local host i [] e f = absurd cc
endpoint_at-local host zero (d ∷ es) e f = elim (Bool-cases (same_name d.host host)) [
  | inr other ↦ endpoint_at-local host zero es e (rw other at f)
  | inl same ↦ subst (λ x. same_name x.host host ≡ true) (some-injective d e (rw same at f)) same
]
endpoint_at-local host (suc i) (d ∷ es) e f = elim (Bool-cases (same_name d.host host)) [
  | inr other ↦ endpoint_at-local host (suc i) es e (rw other at f)
  | inl same ↦ endpoint_at-local host i es e (rw same at f)
]

below : (n i : ℕ) → (n == 0) ≡ false → i % n < n
below zero i h = absurd cc
below (suc n) i h = mod-lt i (zero-lt-suc n)

not_empty : (es : List ServiceEndpoint) → es ≢ [] → (length es == 0) ≡ false
not_empty [] h = absurd (h refl)
not_empty (e ∷ es) h = ground arith

next_endpoint-some :
    (name : String) (es : List ServiceEndpoint) (s : PlannerState)
    → (length es == 0) ≡ false
    → (e : ServiceEndpoint) × ((next_endpoint name es s).0 ≡ some e)
unfolding next_endpoint
next_endpoint-some name es s h =
    endpoint_at-some (counter_of name s.service_rr_counter % length es) es
      (below (length es) (counter_of name s.service_rr_counter) h)

endpoints_of-insert :
    (name : String) (es : List ServiceEndpoint) (m : Map String (List ServiceEndpoint))
    → endpoints_of name (insert name es m) ≡ es
unfolding endpoints_of
endpoints_of-insert name es m =
    ap (λ o. elim o [ none ↦ [] | some es ↦ es ]) (lookup-insert_same name es m)

endpoints_of-put_endpoints :
    (name : String) (es : List ServiceEndpoint) (m : Map String (List ServiceEndpoint))
    → endpoints_of name (put_endpoints name es m) ≡ es
unfolding put_endpoints endpoints_of
endpoints_of-put_endpoints name [] m = ap (λ o. elim o [ none ↦ [] | some es ↦ es ]) gone
  where
    gone : lookup name (erase name m) ≡ none
    gone = lookup-erase name name m ∙ ground (arith, same_name_iff name name)
endpoints_of-put_endpoints name (e ∷ es) m = endpoints_of-insert name (e ∷ es) m

-- The endpoint chosen from a list that is not empty.
choose_endpoint_lem :
    (name caller : String) (es : List ServiceEndpoint) (s : PlannerState)
    → (length es == 0) ≡ false
    → (e : ServiceEndpoint) × ((choose_endpoint name caller es s).0 ≡ some e)
      × (caller ≢ "" → local_endpoints caller es ≢ [] → e.host ≡ caller)
unfolding choose_endpoint
choose_endpoint_lem name caller es s h =
    elim (Bool-cases (not (same_name caller "") && not (length (local_endpoints caller es) == 0))) [
      | inl near ↦
          let (e, f) =
            next_endpoint-some (append_names name "@local") (local_endpoints caller es) s
              (ground (arith, near)) in
          (
            e,
            rw near f,
            λ c l. (same_name_iff e.host caller).0 (
                endpoint_at-local caller
                  (counter_of (append_names name "@local") s.service_rr_counter
                    % length (local_endpoints caller es))
                  es e (unfold next_endpoint in f)),
          )
      | inr far ↦
          let (e, f) = next_endpoint-some name es s h in
          (e, rw far f, λ c l. absurd (no_local c l far))
    ]
  where
    no_local :
        caller ≢ ""
        → local_endpoints caller es ≢ []
        → (not (same_name caller "") && not (length (local_endpoints caller es) == 0)) ≡ false
        → ⊥
    no_local c l far =
        ground (arith, far, same_name_iff caller "", c, not_empty (local_endpoints caller es) l)

-- When the service has an endpoint, discoverService finds one, and if one of them is on the caller's
-- host, then the one found is on it.
pub discover_service_lem :
    (name caller : String) (s : PlannerState)
    → endpoints_of name s.ready_services ≢ []
    → (e : ServiceEndpoint) × ((discover_service name caller s).0 ≡ some e)
      × (caller ≢ ""
          → local_endpoints caller (endpoints_of name s.ready_services) ≢ []
          → e.host ≡ caller)
unfolding discover_service
discover_service_lem name caller s ready =
    rw (not_empty (endpoints_of name s.ready_services) ready) (
      choose_endpoint_lem name caller (endpoints_of name s.ready_services) s
        (not_empty (endpoints_of name s.ready_services) ready))

-- After an instance that had at most one endpoint is ready on a host, the service has exactly one
-- endpoint of the instance, and it is on this host.
pub notify_service_ready_lem :
    (name host : String) (app_id message_id : ℤ) (s : PlannerState) (g : RpcDependencyGraph)
    → instances app_id message_id (endpoints_of name s.ready_services) ≤ 1
    → (instances app_id message_id (
          endpoints_of name (notify_service_ready name host app_id message_id s g).0.ready_services)
        ≡ 1)
      × (instances_on host app_id message_id (
            endpoints_of name
              (notify_service_ready name host app_id message_id s g).0.ready_services)
          ≡ 1)
unfolding notify_service_ready
notify_service_ready_lem name host app_id message_id s g h = (
  ap (instances app_id message_id) placed ∙ instances-place_endpoint new_one old ∙ omega (arith, h),
  ap (instances_on host app_id message_id) placed ∙ instances_on-place_endpoint new_one old h,
)
  where
    new_one : ServiceEndpoint
    new_one = record { service_name = name; host = host; app_id = app_id; message_id = message_id }

    old : List ServiceEndpoint
    old = endpoints_of name s.ready_services

    placed :
        endpoints_of name (insert name (place_endpoint new_one old) s.ready_services)
        ≡ place_endpoint new_one old
    placed = endpoints_of-insert name (place_endpoint new_one old) s.ready_services

-- After an instance is stopped, the service has no endpoint of it.
pub notify_service_stopped_lem :
    (name : String) (app_id message_id : ℤ) (s : PlannerState) (g : RpcDependencyGraph)
    → instances app_id message_id
        (endpoints_of name (notify_service_stopped name app_id message_id s g).0.ready_services)
      ≡ 0
unfolding notify_service_stopped stop_found endpoints_of instances
notify_service_stopped_lem name app_id message_id s g =
    by_lookup (lookup name s.ready_services) refl
  where
    by_lookup :
        (o : Option (List ServiceEndpoint))
        → lookup name s.ready_services ≡ o
        → instances app_id message_id
            (endpoints_of name (stop_found name app_id message_id s g o).0.ready_services)
          ≡ 0
    by_lookup none unknown =
        ap (λ o. instances app_id message_id (elim o [ none ↦ [] | some es ↦ es ])) unknown
    by_lookup (some es) known =
        ap (instances app_id message_id)
          (endpoints_of-put_endpoints name (remove_endpoints app_id message_id es) s.ready_services)
        ∙ instances-remove_endpoints app_id message_id es
