-- ===== src/Rpc/Recommend/Effect.antt =====
-- `recommendHost` with the calls around it: telemetry, the cooldown and `setPlacement`.
use mathlib.Core.Path.{subst}
use faabric.Prelude.{
  ℕ, ◌≡◌, ◌<◌, ◌+◌, refl, sym, ◌∙◌, ap, ap₂, ◌&&◌, inl, inr, true, false, ◌||◌, Option, none, some,
  List, [], ◌∷◌, String, arith, ltb, if◌then◌else◌, same_name, Bool-cases, Option-cases,
}
use faabric.Prelude.Maps.{Map, lookup, insert, lookup-insert}
use faabric.Prelude.Maps.Entries.{lookup-insert_same}
use faabric.Scheduler.Hosts.{HostMap}
use faabric.Rpc.{
  ServiceNode, same_node, same_node_iff, node_key, EdgeKey, EdgeState, Edges, RpcDependencyGraph,
  prune_stale_edges, set_placement, is_zero_node, merge_telemetry, merge_edge, RpcDependencyEdge,
  is_accepted_edge,
}
use faabric.Rpc.Recommend.{
  incident_edge_cost_if, remote_incident_edge_cost, is_cooling, recommend_from, recommend_host,
  edge_cost, end_host,
}
use faabric.Rpc.Recommend.Laws.{IsVisit, Advises, recommend_host_lem}

-- No host is none.
no_host :
    (x : Option String × RpcDependencyGraph) (host : String) (g : RpcDependencyGraph)
    → x.0 ≡ none
    → x ≡ (some host, g)
    → ⊥
no_host x host g e f = some-none host (sym (ap (λ p. p.0) f) ∙ e)
  where
    some-none : (h : String) → some h ≡ none → ⊥
    some-none h e = cc

-- A recommended host is the best one, for a node that has a place.
recommended :
    (visit : List String → List String) (now : ℕ) (node : ServiceNode) (host_map : HostMap)
    (g g' : RpcDependencyGraph) (host : String)
    → IsVisit visit
    → recommend_host visit now node host_map g ≡ (some host, g')
    → (current : String) × (lookup node g.placement ≡ some current)
      × Advises now node host_map (prune_stale_edges now g) current (some host, g')
unfolding recommend_host recommend_from
recommended visit now node host_map g g' host same run = elim (Bool-cases (is_cooling now node g)) [
  | inl cooling ↦
      absurd (no_host (recommend_host visit now node host_map g) host g' (rw cooling refl) run)
  | inr warm ↦ elim (Option-cases (lookup node g.placement)) [
    | inl lost ↦
        absurd
          (no_host (recommend_host visit now node host_map g) host g' (rw (warm, lost) refl) run)
    | inr (current, placed) ↦ (
      current,
      placed,
      subst (Advises now node host_map (prune_stale_edges now g) current) run
          (recommend_host_lem visit now node host_map g current same warm placed),
    )
  ]
]

last_recommended_at-merge_telemetry :
    (at : ℕ) (es : List RpcDependencyEdge) (g : RpcDependencyGraph)
    → (merge_telemetry at es g).last_recommended_at ≡ g.last_recommended_at
unfolding merge_telemetry merge_edge
last_recommended_at-merge_telemetry at [] g = refl
last_recommended_at-merge_telemetry at (e ∷ es) g =
    last_recommended_at-merge_telemetry at es (merge_edge at e g)
    ∙ (elim (Bool-cases (is_zero_node e.caller || is_zero_node e.callee)) [
      | inl zero ↦ rw zero refl
      | inr real ↦ rw real refl
    ])

-- Where the node is placed does not matter to the cost of its edges on a candidate host.
edge_cost-insert :
    (node : ServiceNode) (c h : String) (p : Map ServiceNode String) (edge : EdgeKey)
    (state : EdgeState)
    → edge_cost node c (insert node h p) edge state ≡ edge_cost node c p edge state
unfolding edge_cost end_host
edge_cost-insert node c h p edge state =
    ap₂
      (λ a b.
        if is_accepted_edge state && (same_node edge.caller node || same_node edge.callee node)
        then (elim a [
          | none ↦ 0
          | some x ↦ elim b [ none ↦ 0 | some y ↦ if same_name x y then 0 else state.observations ]
        ])
        else 0)
      (end_host-insert edge.caller) (end_host-insert edge.callee)
  where
    end_host-insert : (n : ServiceNode) → end_host node c (insert node h p) n ≡ end_host node c p n
    end_host-insert n =
        ground (arith, lookup-insert node n h p, same_node_iff node n, same_node_iff n node)

incident_edge_cost_if-insert :
    (node : ServiceNode) (c h : String) (p : Map ServiceNode String) (edges : Edges)
    → incident_edge_cost_if node c (insert node h p) edges ≡ incident_edge_cost_if node c p edges
unfolding incident_edge_cost_if
incident_edge_cost_if-insert node c h p [] = refl
incident_edge_cost_if-insert node c h p ((edge, state) ∷ edges) =
    rw (edge_cost-insert node c h p edge state, incident_edge_cost_if-insert node c h p edges) refl

-- After a recommendation for a node, with any order of the set that leaves out no host and adds none,
-- recommendHost gives none for it until the
-- cooldown of two seconds is over, whatever telemetry is merged in between.
pub recommend_host_cooldown :
    (visit : List String → List String) (now later : ℕ) (node : ServiceNode)
    (host_map host_map' : HostMap) (g g' : RpcDependencyGraph) (host : String)
    (es : List RpcDependencyEdge) (at : ℕ)
    → IsVisit visit
    → recommend_host visit now node host_map g ≡ (some host, g')
    → later < now + 2000
    → (recommend_host visit later node host_map' (merge_telemetry at es g')).0 ≡ none
unfolding recommend_host is_cooling Advises prune_stale_edges
recommend_host_cooldown visit now later node host_map host_map' g g' host es at same run soon =
    rw (cooling) refl
  where
    at_now : lookup node (merge_telemetry at es g').last_recommended_at ≡ some now
    at_now =
        ap (lookup node) (last_recommended_at-merge_telemetry at es g')
        ∙ (let (current, placed, advised) =
              recommended visit now node host_map g g' host same run in
            ap (λ r. lookup node r.last_recommended_at) advised.1
            ∙ lookup-insert_same node now g.last_recommended_at)

    cooling : is_cooling later node (merge_telemetry at es g') ≡ true
    cooling =
        ap (λ o. elim o [ none ↦ false | some t ↦ ltb later (t + 2000) ]) at_now ∙ ground arith

cost_at :
    (node : ServiceNode) (g : RpcDependencyGraph) (host : String)
    → lookup node g.placement ≡ some host
    → remote_incident_edge_cost node g ≡ incident_edge_cost_if node host g.placement g.edges
unfolding remote_incident_edge_cost
cost_at node g host e =
    ap (λ o. elim o [ none ↦ 0 | some h ↦ incident_edge_cost_if node h g.placement g.edges ]) e

-- The cost of a node that was just placed, in a graph with the same edges and placements as `g`.
cost-set_placement :
    (node : ServiceNode) (host : String) (g g' : RpcDependencyGraph)
    → is_zero_node node ≡ false
    → same_name host "" ≡ false
    → g'.placement ≡ g.placement
    → g'.edges ≡ g.edges
    → remote_incident_edge_cost node (set_placement node host g')
      ≡ incident_edge_cost_if node host g.placement g.edges
unfolding set_placement
cost-set_placement node host g g' real named p e =
    ap (remote_incident_edge_cost node) placed
    ∙ cost_at node (record g' { placement = insert node host g'.placement }) host
        (lookup-insert_same node host g'.placement)
    ∙ incident_edge_cost_if-insert node host host g'.placement g'.edges
    ∙ ap₂ (incident_edge_cost_if node host) p e
  where
    placed : set_placement node host g' ≡ record g' { placement = insert node host g'.placement }
    placed = rw (real, named) refl

-- To follow a recommendation lowers the cost: for a node with ids that are not zero and a host with a
-- name, the cost of the node's edges, once it is placed on the recommended host, is less than before in
-- the graph without stale edges.
pub remote_incident_edge_cost-recommend_host :
    (visit : List String → List String) (now : ℕ) (node : ServiceNode) (host_map : HostMap)
    (g g' : RpcDependencyGraph) (host : String)
    → IsVisit visit
    → is_zero_node node ≡ false
    → same_name host "" ≡ false
    → recommend_host visit now node host_map g ≡ (some host, g')
    → remote_incident_edge_cost node (set_placement node host g')
      < remote_incident_edge_cost node (prune_stale_edges now g)
unfolding prune_stale_edges Advises
remote_incident_edge_cost-recommend_host visit now node host_map g g' host same real named run =
    let (current, placed, advised) = recommended visit now node host_map g g' host same run in
    omega (
      arith,
      advised.0.cheaper,
      cost-set_placement node host (prune_stale_edges now g) g' real named
          (ap (λ r. r.placement) advised.1) (ap (λ r. r.edges) advised.1),
      cost_at node (prune_stale_edges now g) current placed,
    )
