-- ===== src/Scheduler/Service/Laws.antt =====
-- The migration of a service, from the request to the decision.
use faabric.Prelude.{
  ℕ, ◌≡◌, ◌⊎◌, refl, sym, ◌∙◌, ap, inl, inr, true, false, Option, none, some, List, [], ◌∷◌, String,
  if◌then◌else◌,
}
use faabric.Prelude.Int.{pos, int_eq, int_key, to_u32}
use faabric.Prelude.Maps.{lookup, contains}
use faabric.Prelude.Results.{ok}
use faabric.Batch.{Message, BatchExecuteRequest}
use faabric.Scheduler.Decision.{
  SchedulingDecision, do_not_migrate_decision, add_message, new_decision,
}
use faabric.Scheduler.Hosts.{HostMap, InFlightReqs, dist_change, get_decision_type}
use faabric.Scheduler.Service.{
  is_rpc_service_migration, service_node, move_to, make_rpc_migration_decision,
  make_scheduling_decision,
}
use faabric.Rpc.{RpcDependencyGraph, ServiceNode, node_key, prune_stale_edges}
use faabric.Rpc.Recommend.{recommend_host, is_cooling}
use faabric.Rpc.Recommend.Laws.{IsVisit, Advises, recommend_host_lem}

-- The decision that puts the one message on the host: the entries of its columns, written out.
pub record IsMoveTo (req : BatchExecuteRequest) (msg : Message) (host : String)
    (d : SchedulingDecision) : Type 0 where
  pub app : d.app_id ≡ to_u32 req.app_id
  pub group : d.group_id ≡ pos 0
  pub counted : d.n_functions ≡ 1
  pub hosts : d.hosts ≡ host ∷ []
  pub ids : d.message_ids ≡ msg.id ∷ []
  pub app_idxs : d.app_idxs ≡ msg.app_idx ∷ []
  pub group_idxs : d.group_idxs ≡ msg.group_idx ∷ []
  pub ports : d.mpi_ports ≡ pos 0 ∷ []

-- The service stays, or moves to the best host.
abbrev pub IsMove :
    ℕ
    → ServiceNode
    → HostMap
    → RpcDependencyGraph
    → String
    → BatchExecuteRequest
    → Message
    → SchedulingDecision
    → RpcDependencyGraph
    → Type 0
IsMove now node host_map g current req msg d g' =
    ((d ≡ do_not_migrate_decision) × Advises now node host_map g current (none, g'))
    ⊎ ((host : String) × IsMoveTo req msg host d
        × Advises now node host_map g current (some host, g'))

move_to-IsMove :
    (now : ℕ) (node : ServiceNode) (host_map : HostMap) (g : RpcDependencyGraph) (current : String)
    (req : BatchExecuteRequest) (msg : Message) (target : Option String) (g' : RpcDependencyGraph)
    → Advises now node host_map g current (target, g')
    → IsMove now node host_map g current req msg (move_to req msg target) g'
unfolding move_to add_message new_decision
move_to-IsMove now node host_map g current req msg none g' a = inl (refl, a)
move_to-IsMove now node host_map g current req msg (some host) g' a = inr (
  host,
  record {
    app = refl;
    group = refl;
    counted = refl;
    hosts = refl;
    ids = refl;
    app_idxs = refl;
    group_idxs = refl;
    ports = refl;
  },
  a,
)

is_service :
    (in_flight : InFlightReqs) (req : BatchExecuteRequest) (msg : Message)
    → get_decision_type in_flight req ≡ dist_change
    → contains req.app_id in_flight ≡ true
    → req.messages ≡ msg ∷ []
    → msg.is_rpc ≡ true
    → msg.is_long_running ≡ true
    → is_rpc_service_migration in_flight req (get_decision_type in_flight req) ≡ true
unfolding is_rpc_service_migration
is_service in_flight req msg kind known one rpc long = rw (kind, known, one, rpc, long) refl

same_service :
    (req : BatchExecuteRequest) (msg : Message) (node : ServiceNode)
    → node.app_id ≡ (if int_eq msg.app_id (pos 0) then req.app_id else msg.app_id)
    → node.msg_id ≡ msg.id
    → node ≡ service_node req msg
unfolding service_node
same_service req msg node app id =
    ap (λ a. record node { app_id = a }) app
    ∙ ap
        (λ m. record node {
          app_id = if int_eq msg.app_id (pos 0) then req.app_id else msg.app_id;
          msg_id = m;
        })
        id

-- The migration of an app in flight whose one message is a long-running RPC service, with its node
-- placed on `current` and not cooling, throws nothing, in whatever order the hosts of a set are visited,
-- as long as none is left out or added. Either it answers not to migrate, and then, in the graph without
-- stale edges, no candidate with a free slot is cheaper than `current`; or the decision has the one
-- message of the request, with its id and its indexes, on the best host, and the time is noted. The node
-- has the id of the message and its app id, or that of the request where the message's app id is 0.
pub service_moves :
    (visit : List String → List String) (now : ℕ) (host_map : HostMap) (in_flight : InFlightReqs)
    (req : BatchExecuteRequest) (msg : Message) (node : ServiceNode) (g : RpcDependencyGraph)
    (current : String)
    → IsVisit visit
    → get_decision_type in_flight req ≡ dist_change
    → contains req.app_id in_flight ≡ true
    → req.messages ≡ msg ∷ []
    → msg.is_rpc ≡ true
    → msg.is_long_running ≡ true
    → node.app_id ≡ (if int_eq msg.app_id (pos 0) then req.app_id else msg.app_id)
    → node.msg_id ≡ msg.id
    → is_cooling now node g ≡ false
    → lookup node g.placement ≡ some current
    → (d : SchedulingDecision) × (g' : RpcDependencyGraph) × (make_scheduling_decision visit now
          host_map in_flight req g
        ≡ ok (d, g'))
      × IsMove now node host_map (prune_stale_edges now g) current req msg d g'
unfolding make_scheduling_decision make_rpc_migration_decision
service_moves visit now host_map in_flight req msg node g current same kind known one rpc long app
      id warm placed =
    (
      move_to req msg r.0,
      r.1,
      rw (is_service in_flight req msg kind known one rpc long) (
          ap (λ ms. ok (make_rpc_migration_decision visit now host_map req ms g)) one
          ∙ ap
              (λ n. ok (
                move_to req msg (recommend_host visit now n host_map g).0,
                (recommend_host visit now n host_map g).1,
              ))
              (sym (same_service req msg node app id))),
      move_to-IsMove now node host_map (prune_stale_edges now g) current req msg r.0 r.1
          (recommend_host_lem visit now node host_map g current same warm placed),
    )
  where
    r : Option String × RpcDependencyGraph
    r = recommend_host visit now node host_map g
