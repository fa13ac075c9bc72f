-- ===== src/Rpc/Recommend.antt =====
-- The graph queries and `recommendHost` of src/rpc/RpcDependencyGraph.cpp.
pub mod Best
pub mod Laws
pub mod Effect
use faabric.Prelude.{
  ℕ, ◌+◌, ◌-◌, ◌%◌, ◌^◌, Bool, true, false, ◌&&◌, ◌||◌, not, Option, none, some, List, [], ◌∷◌,
  String, ltb, if◌then◌else◌, same_name,
}
use faabric.Prelude.Maps.{Map, lookup, insert}
use faabric.Scheduler.Hosts.{HostMap}
use faabric.Rpc.{
  ServiceNode, same_node, node_key, EdgeKey, EdgeState, Edges, RpcDependencyGraph, is_accepted_edge,
  host_has_capacity, prune, min_benefit, cooldown,
}

-- Is the name in the set?
unfoldable pub has_name : String → List String → Bool
has_name x [] = false
has_name x (h ∷ hs) = same_name h x || has_name x hs

abbrev insert_name : String → List String → List String
insert_name h hs = if has_name h hs then hs else h ∷ hs

-- The host of the other end of an edge goes into the set, where it is known.
unfoldable pub insert_end : Bool → ServiceNode → Map ServiceNode String → List String → List String
insert_end ends other placement hosts =
    if ends
    then (elim (lookup other placement) [ none ↦ hosts | some h ↦ insert_name h hosts ])
    else hosts

-- `candidateHostsForUnlocked`; `hosts` are the ones found so far.
unfoldable pub candidates_from :
    ServiceNode → Map ServiceNode String → Edges → List String → List String
unfolding insert_end
candidates_from node placement [] hosts = hosts
candidates_from node placement ((edge, state) ∷ edges) hosts =
    candidates_from node placement edges (
      if is_accepted_edge state
      then insert_end (same_node edge.callee node) edge.caller placement
          (insert_end (same_node edge.caller node) edge.callee placement hosts)
      else hosts)

unfoldable pub candidate_hosts_for : ServiceNode → RpcDependencyGraph → List String
unfolding candidates_from
candidate_hosts_for node g = candidates_from node g.placement g.edges []

-- The host of an end of an edge, with `node` on the candidate host.
unfoldable pub end_host :
    ServiceNode → String → Map ServiceNode String → ServiceNode → Option String
end_host node candidate placement n =
    if same_node n node then some candidate else lookup n placement

-- What one edge adds to the cost.
unfoldable pub edge_cost : ServiceNode → String → Map ServiceNode String → EdgeKey → EdgeState → ℕ
unfolding end_host
edge_cost node candidate placement edge state =
    if is_accepted_edge state && (same_node edge.caller node || same_node edge.callee node)
    then (elim (end_host node candidate placement edge.caller) [
      | none ↦ 0
      | some caller_host ↦ elim (end_host node candidate placement edge.callee) [
        | none ↦ 0
        | some callee_host ↦ if same_name caller_host callee_host then 0 else state.observations
      ]
    ])
    else 0

-- `incidentEdgeCostIfUnlocked`: a 64-bit sum.
unfoldable pub incident_edge_cost_if : ServiceNode → String → Map ServiceNode String → Edges → ℕ
unfolding edge_cost
incident_edge_cost_if node candidate placement [] = 0
incident_edge_cost_if node candidate placement ((edge, state) ∷ edges) =
    (edge_cost node candidate placement edge state
      + incident_edge_cost_if node candidate placement edges)
    % 2 ^ 64

unfoldable pub remote_incident_edge_cost : ServiceNode → RpcDependencyGraph → ℕ
unfolding incident_edge_cost_if
remote_incident_edge_cost node g = elim (lookup node g.placement) [
  | none ↦ 0
  | some host ↦ incident_edge_cost_if node host g.placement g.edges
]

-- One round of the loop over the candidates.
unfoldable pub better :
    (String → ℕ) → (String → Bool) → String → String → Option String × ℕ → Option String × ℕ
better cost has_capacity current candidate (best, best_cost) =
    if same_name candidate current || not (has_capacity candidate)
    then (best, best_cost)
    else if ltb (cost candidate) best_cost
    then (some candidate, cost candidate)
    else (best, best_cost)

unfoldable pub best_of :
    (String → ℕ) → (String → Bool) → String → List String → Option String × ℕ → Option String × ℕ
unfolding better
best_of cost has_capacity current [] best = best
best_of cost has_capacity current (h ∷ hs) best =
    best_of cost has_capacity current hs (better cost has_capacity current h best)

-- Was this node recommended to move less than the cooldown ago?
unfoldable pub is_cooling : ℕ → ServiceNode → RpcDependencyGraph → Bool
is_cooling now node g = elim (lookup node g.last_recommended_at) [
  | none ↦ false
  | some at ↦ ltb now (at + cooldown)
]

-- The end of `recommendHost`: the best host, where it is worth a move.
unfoldable pub accept_best :
    ℕ
    → ServiceNode
    → ℕ
    → RpcDependencyGraph
    → Option String × ℕ
    → Option String × RpcDependencyGraph
accept_best now node current_cost g (none, best_cost) = (none, g)
accept_best now node current_cost g (some host, best_cost) =
    if ltb (current_cost - best_cost) min_benefit
    then (none, g)
    else (some host, record g { last_recommended_at = insert node now g.last_recommended_at })

-- After the edges are pruned. The loop over no candidates finds no best host, as the early return does.
unfoldable pub recommend_from :
    (List String → List String)
    → ℕ
    → ServiceNode
    → HostMap
    → RpcDependencyGraph
    → Option String
    → Option String × RpcDependencyGraph
unfolding accept_best
recommend_from visit now node host_map g none = (none, g)
recommend_from visit now node host_map g (some current) =
    let current_cost = incident_edge_cost_if node current g.placement g.edges in
    accept_best now node current_cost g (
      best_of (λ host. incident_edge_cost_if node host g.placement g.edges)
        (host_has_capacity host_map) current (visit (candidate_hosts_for node g))
        (none, current_cost))

-- `recommendHost`; `visit` puts the candidates in the order in which the set is visited.
unfoldable pub recommend_host :
    (List String → List String)
    → ℕ
    → ServiceNode
    → HostMap
    → RpcDependencyGraph
    → Option String × RpcDependencyGraph
unfolding is_cooling recommend_from
recommend_host visit now node host_map g =
    if is_cooling now node g
    then (none, g)
    else recommend_from visit now node host_map (record g { edges = prune now g.edges })
        (lookup node g.placement)
