-- ===== src/Planner/Services.antt =====
-- The services of src/planner/Planner.cpp: `notifyServiceReady`, `notifyServiceStopped` and
-- `discoverService`. The first two also tell the RPC dependency graph.
pub mod Laws
pub mod Turns
use faabric.Prelude.{
  ℕ, zero, suc, ◌+◌, ◌%◌, ◌^◌, ◌==◌, Bool, true, false, ◌&&◌, not, Option, none, some, List, [],
  ◌∷◌, ◌++◌, String, length, if◌then◌else◌, name_key, same_name,
}
use Prim.Native.String.{◌++◌ as append_names}
use faabric.Prelude.Int.{ℤ, int_eq}
use faabric.Prelude.Maps.{Map, lookup, insert, erase}
use faabric.Planner.{PlannerState, ServiceEndpoint}
use faabric.Rpc.{RpcDependencyGraph, set_placement, remove_placement}

abbrev pub is_instance : ℤ → ℤ → ServiceEndpoint → Bool
is_instance app_id message_id e = int_eq e.app_id app_id && int_eq e.message_id message_id

-- The first endpoint of the instance moves to the host, or a new endpoint stands at the end.
unfoldable pub place_endpoint : ServiceEndpoint → List ServiceEndpoint → List ServiceEndpoint
place_endpoint new_one [] = new_one ∷ []
place_endpoint new_one (e ∷ es) =
    let rest = place_endpoint new_one es in
    if is_instance new_one.app_id new_one.message_id e
    then record e { host = new_one.host } ∷ es
    else e ∷ rest

-- `readyServices[serviceName]`
unfoldable pub endpoints_of : String → Map String (List ServiceEndpoint) → List ServiceEndpoint
endpoints_of name services = elim (lookup name services) [ none ↦ [] | some es ↦ es ]

unfoldable pub notify_service_ready :
    String → String → ℤ → ℤ → PlannerState → RpcDependencyGraph → PlannerState × RpcDependencyGraph
unfolding place_endpoint endpoints_of
notify_service_ready service_name host app_id message_id s g = (
  record s {
    ready_services =
        insert service_name
          (place_endpoint
            (record {
              service_name = service_name;
              host = host;
              app_id = app_id;
              message_id = message_id;
            })
            (endpoints_of service_name s.ready_services))
          s.ready_services;
  },
  set_placement (record { app_id = app_id; msg_id = message_id }) host g,
)

-- `remove_if`: all endpoints of the instance.
unfoldable pub remove_endpoints : ℤ → ℤ → List ServiceEndpoint → List ServiceEndpoint
remove_endpoints app_id message_id [] = []
remove_endpoints app_id message_id (e ∷ es) =
    let rest = remove_endpoints app_id message_id es in
    if is_instance app_id message_id e then rest else e ∷ rest

-- The service is put back, or removed when no endpoints are left.
unfoldable pub put_endpoints :
    String
    → List ServiceEndpoint
    → Map String (List ServiceEndpoint)
    → Map String (List ServiceEndpoint)
put_endpoints name [] services = erase name services
put_endpoints name (e ∷ es) services = insert name (e ∷ es) services

-- An unknown service is left alone, and so is the graph.
unfoldable pub stop_found :
    String
    → ℤ
    → ℤ
    → PlannerState
    → RpcDependencyGraph
    → Option (List ServiceEndpoint)
    → PlannerState × RpcDependencyGraph
unfolding remove_endpoints put_endpoints
stop_found service_name app_id message_id s g none = (s, g)
stop_found service_name app_id message_id s g (some es) = (
  record s {
    ready_services =
        put_endpoints service_name (remove_endpoints app_id message_id es) s.ready_services;
  },
  remove_placement (record { app_id = app_id; msg_id = message_id }) g,
)

unfoldable pub notify_service_stopped :
    String → ℤ → ℤ → PlannerState → RpcDependencyGraph → PlannerState × RpcDependencyGraph
unfolding stop_found
notify_service_stopped service_name app_id message_id s g =
    stop_found service_name app_id message_id s g (lookup service_name s.ready_services)

unfoldable pub local_endpoints : String → List ServiceEndpoint → List ServiceEndpoint
local_endpoints host [] = []
local_endpoints host (e ∷ es) =
    let rest = local_endpoints host es in if same_name e.host host then e ∷ rest else rest

-- `v.at(i)` of an index below the size.
unfoldable pub endpoint_at : ℕ → List ServiceEndpoint → Option ServiceEndpoint
endpoint_at i [] = none
endpoint_at zero (e ∷ es) = some e
endpoint_at (suc i) (e ∷ es) = endpoint_at i es

-- The counter of this name, which starts at 0.
unfoldable pub counter_of : String → Map String ℕ → ℕ
counter_of name counters = elim (lookup name counters) [ none ↦ 0 | some n ↦ n ]

-- The next endpoint of a list that is not empty, and the counter, a `size_t`, one further.
unfoldable pub next_endpoint :
    String → List ServiceEndpoint → PlannerState → Option ServiceEndpoint × PlannerState
unfolding endpoint_at counter_of
next_endpoint name es s = (
  endpoint_at (counter_of name s.service_rr_counter % length es) es,
  record s {
    service_rr_counter =
        insert name ((counter_of name s.service_rr_counter + 1) % 2 ^ 64) s.service_rr_counter;
  },
)

unfoldable pub choose_endpoint :
    String → String → List ServiceEndpoint → PlannerState → Option ServiceEndpoint × PlannerState
unfolding local_endpoints next_endpoint
choose_endpoint service_name caller_host es s =
    if not (same_name caller_host "") && not (length (local_endpoints caller_host es) == 0)
    then next_endpoint (append_names service_name "@local") (local_endpoints caller_host es) s
    else next_endpoint service_name es s

unfoldable pub discover_service :
    String → String → PlannerState → Option ServiceEndpoint × PlannerState
unfolding choose_endpoint endpoints_of
discover_service service_name caller_host s =
    if length (endpoints_of service_name s.ready_services) == 0
    then (none, s)
    else choose_endpoint service_name caller_host (endpoints_of service_name s.ready_services) s
