-- ===== src/Rpc.antt =====
-- The RPC dependency graph of src/rpc/RpcDependencyGraph.cpp and its header. The clock is an
-- argument, in whole milliseconds, and read once in a call; the source reads a finer clock, and
-- `recommendHost` reads it again to prune. The maps of the source are unordered; here their entries are in the
-- order of the keys, and the order in which a set of hosts is visited is an argument.
pub mod Recommend
mod Tests
use faabric.Prelude.{
  ℕ, ◌+◌, ◌-◌, ◌%◌, ◌^◌, ◌≡◌, ◌↔◌, ◌∙◌, sym, refl, ap, Bool, true, false, ◌&&◌, ◌||◌, not, Option,
  none, some, List, [], ◌∷◌, ◌++◌, String, arith, ltb, leb, if◌then◌else◌, Key, name_key, same_name,
}
use faabric.Prelude.Int.{ℤ, pos, int_eq, int_eq_iff, ltb_ℤ}
use faabric.Prelude.Maps.{Map, lookup, contains, insert, erase}
use faabric.Scheduler.Hosts.{HostMap, HostState, num_slots_available}

pub record ServiceNode : Type 0 where
  pub app_id : ℤ
  pub msg_id : ℤ

unfoldable pub same_node : ServiceNode → ServiceNode → Bool
same_node a b = int_eq a.app_id b.app_id && int_eq a.msg_id b.msg_id

pub same_node_iff : (a b : ServiceNode) → (same_node a b ≡ true) ↔ (a ≡ b)
unfolding same_node
same_node_iff a b = ground (arith, int_eq_iff a.app_id b.app_id, int_eq_iff a.msg_id b.msg_id)

instance abbrev pub node_key : Key ServiceNode
node_key = record {
  beq = same_node;
  before = λ a b. ltb_ℤ a.app_id b.app_id || int_eq a.app_id b.app_id && ltb_ℤ a.msg_id b.msg_id;
  beq_iff = same_node_iff;
}

pub record EdgeKey : Type 0 where
  pub caller : ServiceNode
  pub callee : ServiceNode

unfoldable pub same_edge : EdgeKey → EdgeKey → Bool
same_edge a b = same_node a.caller b.caller && same_node a.callee b.callee

pub same_edge_iff : (a b : EdgeKey) → (same_edge a b ≡ true) ↔ (a ≡ b)
unfolding same_edge
same_edge_iff a b = ground (arith, same_node_iff a.caller b.caller, same_node_iff a.callee b.callee)

instance abbrev pub edge_key : Key EdgeKey
edge_key = record {
  beq = same_edge;
  before = λ a b.
      node_key.before a.caller b.caller
      || same_node a.caller b.caller && node_key.before a.callee b.callee;
  beq_iff = same_edge_iff;
}

pub record EdgeState : Type 0 where
  pub observations : ℕ
  pub last_seen : ℕ

pub record RpcDependencyEdge : Type 0 where
  pub caller : ServiceNode
  pub callee : ServiceNode
  pub caller_host : String
  pub callee_host : String
  pub observations : ℕ

abbrev pub Edges : Type 0
Edges = Map EdgeKey EdgeState

pub record RpcDependencyGraph : Type 0 where
  pub placement : Map ServiceNode String
  pub edges : Edges
  pub last_recommended_at : Map ServiceNode ℕ

abbrev pub min_observations : ℕ
min_observations = 2

abbrev pub min_benefit : ℕ
min_benefit = 1

-- Milliseconds.
abbrev pub edge_ttl : ℕ
edge_ttl = 3000

abbrev pub cooldown : ℕ
cooldown = 2000

unfoldable pub is_accepted_edge : EdgeState → Bool
is_accepted_edge state = leb min_observations state.observations

unfoldable pub host_has_capacity : HostMap → String → Bool
host_has_capacity host_map host = elim (lookup host host_map) [
  | none ↦ false
  | some h ↦ ltb 0 (num_slots_available h)
]

unfoldable pub is_zero_node : ServiceNode → Bool
is_zero_node n = int_eq n.app_id (pos 0) || int_eq n.msg_id (pos 0)

unfoldable pub set_placement : ServiceNode → String → RpcDependencyGraph → RpcDependencyGraph
unfolding is_zero_node
set_placement node host g =
    if is_zero_node node || same_name host ""
    then g
    else record g { placement = insert node host g.placement }

unfoldable pub remove_placement : ServiceNode → RpcDependencyGraph → RpcDependencyGraph
remove_placement node g = record g {
  placement = erase node g.placement;
  last_recommended_at = erase node g.last_recommended_at;
}

unfoldable pub clear : RpcDependencyGraph → RpcDependencyGraph
clear g = record { placement = []; edges = []; last_recommended_at = [] }

-- `edges[key]`, which starts with no observations.
unfoldable pub observations_of : EdgeKey → Edges → ℕ
observations_of key edges = elim (lookup key edges) [ none ↦ 0 | some state ↦ state.observations ]

-- A host that is not empty takes the place of the node.
unfoldable pub place_if_named :
    ServiceNode → String → Map ServiceNode String → Map ServiceNode String
place_if_named node host placement =
    if same_name host "" then placement else insert node host placement

-- One edge of the batch; the observations are a 64-bit sum.
unfoldable pub merge_edge : ℕ → RpcDependencyEdge → RpcDependencyGraph → RpcDependencyGraph
unfolding observations_of place_if_named is_zero_node
merge_edge now e g = if is_zero_node e.caller || is_zero_node e.callee then g else record g {
  placement =
      place_if_named e.callee e.callee_host (place_if_named e.caller e.caller_host g.placement);
  edges =
      insert (record { caller = e.caller; callee = e.callee })
        (record {
          observations =
              (observations_of (record { caller = e.caller; callee = e.callee }) g.edges
                + e.observations)
              % 2 ^ 64;
          last_seen = now;
        })
        g.edges;
}

unfoldable pub merge_telemetry :
    ℕ → List RpcDependencyEdge → RpcDependencyGraph → RpcDependencyGraph
unfolding merge_edge
merge_telemetry now [] g = g
merge_telemetry now (e ∷ es) g = merge_telemetry now es (merge_edge now e g)

-- `pruneStaleEdgesUnlocked`
unfoldable pub prune : ℕ → Edges → Edges
prune now [] = []
prune now ((key, state) ∷ edges) =
    let rest = prune now edges in
    if ltb (state.last_seen + edge_ttl) now then rest else (key, state) ∷ rest

unfoldable pub prune_stale_edges : ℕ → RpcDependencyGraph → RpcDependencyGraph
unfolding prune
prune_stale_edges now g = record g { edges = prune now g.edges }
