-- ===== src/Scheduler/Service.antt =====
-- src/batch-scheduler/ServiceLocalityScheduler.cpp: a service is moved to the host that the RPC
-- dependency graph recommends, and all else is left to the bin-pack scheduler. `getSortedHosts` and
-- `isFirstDecisionBetter`, which only throw, are not called.
pub mod Laws
use faabric.Prelude.{
  ℕ, ◌==◌, Bool, true, false, ◌&&◌, Option, none, some, List, [], ◌∷◌, String, if◌then◌else◌,
}
use faabric.Prelude.Int.{ℤ, pos, int_eq, int_key, to_u32}
use faabric.Prelude.Maps.{contains}
use faabric.Prelude.Results.{Result, throws, ok, ◌>>=◌}
use faabric.Batch.{Message, BatchExecuteRequest}
use faabric.Scheduler.Decision.{
  SchedulingDecision, Error, new_decision, add_message, do_not_migrate_decision,
}
use faabric.Scheduler.Hosts.{HostMap, InFlightReqs, DecisionType, dist_change, get_decision_type}
use faabric.Scheduler.BinPack as BinPack
use faabric.Rpc.{RpcDependencyGraph, ServiceNode}
use faabric.Rpc.Recommend.{recommend_host}

-- One message, which is a long-running RPC service.
is_one_service : List Message → Bool
is_one_service [] = false
is_one_service (msg ∷ []) = msg.is_rpc && msg.is_long_running
is_one_service (msg ∷ other ∷ msgs) = false

unfoldable pub is_rpc_service_migration : InFlightReqs → BatchExecuteRequest → DecisionType → Bool
unfolding is_one_service
is_rpc_service_migration in_flight req dist_change =
    contains req.app_id in_flight && is_one_service req.messages
is_rpc_service_migration in_flight req other = false

-- The message as a node of the graph; a message without an app id takes the one of the request.
unfoldable pub service_node : BatchExecuteRequest → Message → ServiceNode
service_node req msg = record {
  app_id = if int_eq msg.app_id (pos 0) then req.app_id else msg.app_id;
  msg_id = msg.id;
}

-- The decision for what the graph recommends.
unfoldable pub move_to : BatchExecuteRequest → Message → Option String → SchedulingDecision
move_to req msg none = do_not_migrate_decision
move_to req msg (some host) = add_message host msg (new_decision (to_u32 req.app_id) (pos 0))

module _ (visit : List String → List String) (now : ℕ) where
  unfoldable pub make_rpc_migration_decision :
      HostMap
      → BatchExecuteRequest
      → List Message
      → RpcDependencyGraph
      → SchedulingDecision × RpcDependencyGraph
  unfolding service_node move_to
  make_rpc_migration_decision host_map req (msg ∷ []) g =
      let (target, g') = recommend_host visit now (service_node req msg) host_map g in
      (move_to req msg target, g')
  make_rpc_migration_decision host_map req other g = (do_not_migrate_decision, g)

  unfoldable pub make_scheduling_decision :
      HostMap
      → InFlightReqs
      → BatchExecuteRequest
      → RpcDependencyGraph
      → Result Error (SchedulingDecision × RpcDependencyGraph)
  unfolding is_rpc_service_migration make_rpc_migration_decision
  make_scheduling_decision host_map in_flight req g =
      if is_rpc_service_migration in_flight req (get_decision_type in_flight req)
      then ok (make_rpc_migration_decision host_map req req.messages g)
      else (BinPack.make_scheduling_decision host_map in_flight req >>= λ d. ok (d, g))
