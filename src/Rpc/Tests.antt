-- ===== src/Rpc/Tests.antt =====
-- Runs of the RPC dependency graph and of the scheduler that reads it.
use faabric.Prelude.{◌≡◌, ◌<◌, refl, true, false, none, some, List, [], ◌∷◌, String, arith}
use faabric.Prelude.Int.{pos}
use faabric.Prelude.Maps.{lookup, insert}
use faabric.Prelude.Results.{ok}
use faabric.Batch.{Message, BatchExecuteRequest, migration}
use faabric.Scheduler.Decision.{SchedulingDecision}
use faabric.Scheduler.Hosts.{HostMap, InFlightReqs, get_decision_type, num_slots_available}
use faabric.Scheduler.Service as Service
use faabric.Scheduler.Service.Laws.{IsMove, service_moves}
use faabric.Rpc.{
  ServiceNode, same_node, RpcDependencyGraph, RpcDependencyEdge, node_key, prune_stale_edges, prune,
  set_placement, is_zero_node, merge_telemetry, is_accepted_edge, host_has_capacity,
}
use faabric.Rpc.Recommend.{
  recommend_host, is_cooling, recommend_from, accept_best, best_of, better, candidate_hosts_for,
  candidates_from, insert_end, has_name, incident_edge_cost_if, edge_cost, end_host,
  remote_incident_edge_cost,
}
use faabric.Rpc.Recommend.Laws.{Advises, recommend_host_lem}
use faabric.Rpc.Recommend.Effect.{recommend_host_cooldown, remote_incident_edge_cost-recommend_host}

abbrev front : ServiceNode
front = record { app_id = pos 7; msg_id = pos 100 }

abbrev back : ServiceNode
back = record { app_id = pos 8; msg_id = pos 200 }

-- The front calls the back, on the other host.
abbrev calls : RpcDependencyGraph
calls = record {
  placement = (front, "10.0.0.1") ∷ (back, "10.0.0.2") ∷ [];
  edges =
      (record { caller = front; callee = back }, record { observations = 9; last_seen = 500 }) ∷ [];
  last_recommended_at = [];
}

abbrev hosts : HostMap
hosts =
    ("10.0.0.1", record { ip = "10.0.0.1"; slots = 2; used_slots = 2 })
    ∷ ("10.0.0.2", record { ip = "10.0.0.2"; slots = 4; used_slots = 1 })
    ∷ []

abbrev in_order : List String → List String
in_order hs = hs

abbrev after_advice : RpcDependencyGraph
after_advice = record calls { last_recommended_at = (front, 1000) ∷ [] }

abbrev more_calls : List RpcDependencyEdge
more_calls =
    record {
      caller = front;
      callee = back;
      caller_host = "10.0.0.1";
      callee_host = "";
      observations = 4;
    }
    ∷ []

advice : recommend_host in_order 1000 front hosts calls ≡ (some "10.0.0.2", after_advice)
unfolding recommend_host is_cooling recommend_from accept_best best_of better candidate_hosts_for
    candidates_from insert_end has_name incident_edge_cost_if edge_cost end_host prune
    is_accepted_edge host_has_capacity same_node lookup num_slots_available insert
advice = refl

recommend_host_example :
    Advises 1000 front hosts
      (prune_stale_edges 1000 calls)
      "10.0.0.1"
      (recommend_host in_order 1000 front hosts calls)
unfolding lookup is_cooling same_node
recommend_host_example =
    recommend_host_lem in_order 1000 front hosts calls "10.0.0.1" (λ h hs. refl) refl refl

cooldown_example :
    (recommend_host in_order 2500 front hosts (merge_telemetry 1200 more_calls after_advice)).0
    ≡ none
cooldown_example =
    recommend_host_cooldown in_order 1000 2500 front hosts hosts calls after_advice "10.0.0.2"
      more_calls 1200 (λ h hs. refl) advice (omega arith)

cheaper_example :
    remote_incident_edge_cost front (set_placement front "10.0.0.2" after_advice)
    < remote_incident_edge_cost front (prune_stale_edges 1000 calls)
unfolding is_zero_node
cheaper_example =
    remote_incident_edge_cost-recommend_host in_order 1000 front hosts calls after_advice "10.0.0.2"
      (λ h hs. refl) refl refl advice

abbrev front_message : Message
front_message = record {
  id = pos 100;
  app_id = pos 7;
  app_idx = pos 0;
  user = "demo";
  function = "front";
  return_value = pos 0;
  group_id = pos 5;
  group_idx = pos 0;
  is_mpi = false;
  is_omp = false;
  is_rpc = true;
  is_long_running = true;
  executed_host = "";
  main_host = "";
  func_ptr = pos 0;
  input_data = "";
  snapshot_key = "";
  mpi_world_size = pos 0;
  omp_num_threads = pos 0;
}

abbrev front_request : BatchExecuteRequest
front_request = record {
  app_id = pos 7;
  group_id = pos 5;
  user = "demo";
  function = "front";
  type = migration;
  messages = front_message ∷ [];
  sub_type = pos 0;
  single_host_hint = false;
  elastic_scale_hint = false;
  context_data = "";
  single_host = false;
  snapshot_key = "";
}

abbrev front_decision : SchedulingDecision
front_decision = record {
  app_id = 7;
  group_id = pos 5;
  n_functions = 1;
  hosts = "10.0.0.1" ∷ [];
  message_ids = pos 100 ∷ [];
  app_idxs = pos 0 ∷ [];
  group_idxs = pos 0 ∷ [];
  mpi_ports = pos 8020 ∷ [];
  return_host = "";
}

abbrev running : InFlightReqs
running = (pos 7, (front_request, front_decision)) ∷ []

service_moves_example :
    (d : SchedulingDecision) × (g' : RpcDependencyGraph) × (Service.make_scheduling_decision
        in_order 1000 hosts running front_request calls
      ≡ ok (d, g'))
    × IsMove 1000 front hosts
        (prune_stale_edges 1000 calls)
        "10.0.0.1"
        front_request
        front_message
        d
        g'
unfolding get_decision_type lookup is_cooling same_node
service_moves_example =
    service_moves in_order 1000 hosts running front_request front_message front calls "10.0.0.1"
      (λ h hs. refl) refl refl refl refl refl refl refl refl refl
