-- ===== src/Rpc/Recommend/Laws.antt =====
-- What `recommendHost` of src/rpc/RpcDependencyGraph.cpp recommends.
use faabric.Prelude.{
  ℕ, ◌≡◌, ◌≤◌, ◌<◌, ◌-◌, refl, sym, ◌∙◌, Bool, true, false, Option, none, some, List, String, arith,
  ltb, same_name,
}
use faabric.Prelude.Maps.{lookup, insert}
use faabric.Scheduler.Hosts.{HostMap}
use faabric.Rpc.{ServiceNode, node_key, RpcDependencyGraph, host_has_capacity, prune_stale_edges}
use faabric.Rpc.Recommend.{
  has_name, candidate_hosts_for, incident_edge_cost_if, best_of, is_cooling, accept_best,
  recommend_from, recommend_host,
}
use faabric.Rpc.Recommend.Best.{IsFound, IsEligible, best_of-IsFound, best_of_minimal}

-- The order in which a set is visited leaves out no host and adds none.
abbrev pub IsVisit : (List String → List String) → Type 0
IsVisit visit = (h : String) (hs : List String) → has_name h (visit hs) ≡ has_name h hs

-- The host `best` for the node, which is on `current`, in the graph `g`.
pub record IsBestHost (node : ServiceNode) (host_map : HostMap) (g : RpcDependencyGraph)
    (current best : String) : Type 0 where
  pub differs : same_name best current ≡ false
  pub free : host_has_capacity host_map best ≡ true
  pub candidate : has_name best (candidate_hosts_for node g) ≡ true
  pub cheaper :
      incident_edge_cost_if node best g.placement g.edges
      < incident_edge_cost_if node current g.placement g.edges
  pub cheapest :
      (h : String)
      → has_name h (candidate_hosts_for node g) ≡ true
      → same_name h current ≡ false
      → host_has_capacity host_map h ≡ true
      → incident_edge_cost_if node best g.placement g.edges
        ≤ incident_edge_cost_if node h g.placement g.edges

-- What the function says when the node is on `current`: the best host, with the time noted, or
-- nothing when no candidate with room is cheaper.
unfoldable pub Advises :
    ℕ
    → ServiceNode
    → HostMap
    → RpcDependencyGraph
    → String
    → Option String × RpcDependencyGraph
    → Type 0
Advises now node host_map g current (some h, g') =
    IsBestHost node host_map g current h
    × (g' ≡ record g { last_recommended_at = insert node now g.last_recommended_at })
Advises now node host_map g current (none, g') =
    (g' ≡ g)
    × ((h : String)
        → has_name h (candidate_hosts_for node g) ≡ true
        → same_name h current ≡ false
        → host_has_capacity host_map h ≡ true
        → incident_edge_cost_if node current g.placement g.edges
          ≤ incident_edge_cost_if node h g.placement g.edges)

-- The benefit of a cheaper host is worth the move.
worth : (a b : ℕ) → b < a → ltb (a - b) 1 ≡ false
worth a b h = ground arith

module _ (visit : List String → List String) (same : IsVisit visit) (now : ℕ) (node : ServiceNode)
    (host_map : HostMap) where
  recommend_from-Advises :
      (g : RpcDependencyGraph) (current : String)
      → Advises now node host_map g current
          (recommend_from visit now node host_map g (some current))
  unfolding recommend_from Advises
  recommend_from-Advises g current =
      go (best_of cost free current hosts (none, cost current))
        (best_of-IsFound cost free current (cost current) hosts)
        (λ h here e. best_of_minimal cost free current hosts (none, cost current) h here e)
    where
      cost : String → ℕ
      cost host = incident_edge_cost_if node host g.placement g.edges

      free : String → Bool
      free = host_has_capacity host_map

      hosts : List String
      hosts = visit (candidate_hosts_for node g)

      go :
          (r : Option String × ℕ)
          → IsFound cost free current (cost current) hosts r
          → ((h : String) → has_name h hosts ≡ true → IsEligible cost free current h → r.1 ≤ cost h)
          → Advises now node host_map g current (accept_best now node (cost current) g r)
      go (none, c) f minimal = (
        refl,
        λ h here other room.
            omega (arith, f, minimal h (same h (candidate_hosts_for node g) ∙ here) (other, room)),
      )
      go (some h, c) f minimal = rw (worth (cost current) c f.1) (
        record {
          differs = f.2.0;
          free = f.2.1;
          candidate = sym (same h (candidate_hosts_for node g)) ∙ f.3;
          cheaper = omega (arith, f.0, f.1);
          cheapest = λ i here other room.
              omega
                (arith, f.0, minimal i (same i (candidate_hosts_for node g) ∙ here) (other, room));
        },
        refl,
      )

-- When the node is placed on `current` and not cooling, recommendHost gives the cheapest candidate of
-- the graph without stale edges that is not `current`, has a free slot and costs strictly less, and
-- notes the time; it gives nothing, and only prunes the stale edges, exactly when each candidate with
-- a free slot costs at least as much as `current`. The order in which the set is visited leaves out no
-- host and adds none.
pub recommend_host_lem :
    (visit : List String → List String) (now : ℕ) (node : ServiceNode) (host_map : HostMap)
    (g : RpcDependencyGraph) (current : String)
    → IsVisit visit
    → is_cooling now node g ≡ false
    → lookup node g.placement ≡ some current
    → Advises now node host_map
        (prune_stale_edges now g)
        current
        (recommend_host visit now node host_map g)
unfolding recommend_host prune_stale_edges
recommend_host_lem visit now node host_map g current same warm placed =
    rw (warm, placed) (recommend_from-Advises visit same now node host_map _ current)
