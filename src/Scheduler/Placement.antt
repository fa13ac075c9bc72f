-- ===== src/Scheduler/Placement.antt =====
-- What a bin-packed decision is to satisfy, whatever the order of the hosts.
use mathlib.Core.Path.{subst}
use faabric.Prelude.{
  ℕ, ◌+◌, ◌<◌, ◌≤◌, ◌≡◌, refl, sym, ◌∙◌, ◌⊎◌, inl, inr, Bool, List, [], ◌∷◌, map, String, arith,
  if◌then◌else◌, length, take, replicate, same_name, length-append, length-replicate, length-take,
  length-map, Bool-cases, take_all, drop_all, drop_some, ltb,
}
use faabric.Prelude.Int.{pos}
use faabric.Prelude.Counts.{count, count-append, count-replicate, count-take_le}
use faabric.Batch.{Message}
use faabric.Scheduler.Decision.{SchedulingDecision, new_decision, not_enough_slots_decision}
use faabric.Scheduler.Hosts.{HostState, num_slots_available}
use faabric.Scheduler.Sorting.{sort, insert_sorted}
use faabric.Scheduler.Pack.{pack}
use faabric.Scheduler.Pack.Spec.{free_slot_list, extend, pack-eq-fill, fill_lem}
use faabric.Scheduler.Minimise.Correct.{IsAligned}

-- The free slots of all hosts.
pub capacity : List HostState → ℕ
capacity [] = 0
capacity (host ∷ hosts) = num_slots_available host + capacity hosts

-- The free slots of the hosts of this name.
unfoldable pub slots_at : String → List HostState → ℕ
slots_at ip [] = 0
slots_at ip (host ∷ hosts) =
    let rest = slots_at ip hosts in
    if same_name host.ip ip then num_slots_available host + rest else rest

-- The decision `d` for the messages `msgs` on the hosts `hosts`.
pub record IsPlacement (hosts : List HostState) (msgs : List Message) (d : SchedulingDecision)
    : Type 0 where
  pub aligned : IsAligned d
  pub ids : d.message_ids ≡ map (λ m. m.id) msgs
  pub apps : d.app_idxs ≡ map (λ m. m.app_idx) msgs
  pub groups : d.group_idxs ≡ map (λ m. m.group_idx) msgs
  pub within : (ip : String) → count ip d.hosts ≤ slots_at ip hosts

capacity_lem : (hosts : List HostState) → length (free_slot_list hosts) ≡ capacity hosts
unfolding capacity free_slot_list
capacity_lem [] = refl
capacity_lem (host ∷ hosts) = omega (
  arith,
  length-append (replicate (num_slots_available host) host.ip) (free_slot_list hosts),
  length-replicate (num_slots_available host) host.ip,
  capacity_lem hosts,
)

slots_at_lem :
    (ip : String) (hosts : List HostState) → count ip (free_slot_list hosts) ≡ slots_at ip hosts
unfolding slots_at free_slot_list count
slots_at_lem ip [] = refl
slots_at_lem ip (host ∷ hosts) = ground (
  arith,
  count-append ip (replicate (num_slots_available host) host.ip) (free_slot_list hosts),
  count-replicate ip host.ip (num_slots_available host),
  slots_at_lem ip hosts,
)

capacity-insert_sorted :
    (first : HostState → HostState → Bool) (h : HostState) (hosts : List HostState)
    → capacity (insert_sorted first h hosts) ≡ num_slots_available h + capacity hosts
unfolding capacity insert_sorted
capacity-insert_sorted first h [] = refl
capacity-insert_sorted first h (g ∷ hosts) = ground (arith, capacity-insert_sorted first h hosts)

capacity-sort :
    (first : HostState → HostState → Bool) (hosts : List HostState)
    → capacity (sort first hosts) ≡ capacity hosts
unfolding capacity sort
capacity-sort first [] = refl
capacity-sort first (h ∷ hosts) =
    omega (arith, capacity-insert_sorted first h (sort first hosts), capacity-sort first hosts)

slots_at-insert_sorted :
    (ip : String) (first : HostState → HostState → Bool) (h : HostState) (hosts : List HostState)
    → slots_at ip (insert_sorted first h hosts) ≡ slots_at ip (h ∷ hosts)
unfolding slots_at insert_sorted
slots_at-insert_sorted ip first h [] = refl
slots_at-insert_sorted ip first h (g ∷ hosts) =
    ground (arith, slots_at-insert_sorted ip first h hosts)

slots_at-sort :
    (ip : String) (first : HostState → HostState → Bool) (hosts : List HostState)
    → slots_at ip (sort first hosts) ≡ slots_at ip hosts
unfolding slots_at sort
slots_at-sort ip first [] = refl
slots_at-sort ip first (h ∷ hosts) =
    ground
      (arith, slots_at-insert_sorted ip first h (sort first hosts), slots_at-sort ip first hosts)

-- What the bin-pack loop comes to: it runs out of hosts when there are more messages than slots.
abbrev pub Packed : List HostState → List Message → List Message × SchedulingDecision → Type 0
Packed hosts msgs (left, d) =
    ((capacity hosts < length msgs) × ((m : Message) × (ms : List Message) × (left ≡ m ∷ ms)))
    ⊎ ((length msgs ≤ capacity hosts) × (left ≡ []) × IsPlacement hosts msgs d)

extend-IsPlacement :
    (hosts : List HostState) (msgs : List Message) (app_id : ℕ)
    → length msgs ≤ capacity hosts
    → IsPlacement hosts msgs
        (extend (new_decision app_id (pos 0)) (take (length msgs) (free_slot_list hosts)) msgs)
unfolding new_decision
extend-IsPlacement hosts msgs app_id h = record {
  aligned = record {
    counted = omega arith;
    ids = omega (arith, placed, length-map msgs (λ m. m.id));
    apps = omega (arith, placed, length-map msgs (λ m. m.app_idx));
    groups = omega (arith, placed, length-map msgs (λ m. m.group_idx));
    ports = omega (arith, length-replicate (length ips) (pos 0));
  };
  ids = refl;
  apps = refl;
  groups = refl;
  within = λ ip.
      omega (arith, count-take_le ip (length msgs) (free_slot_list hosts), slots_at_lem ip hosts);
}
  where
    ips : List String
    ips = take (length msgs) (free_slot_list hosts)

    placed : length ips ≡ length msgs
    placed = omega (arith, length-take (length msgs) (free_slot_list hosts), capacity_lem hosts)

-- The messages all get a slot, or there are more of them than free slots.
pub pack-Packed :
    (hosts : List HostState) (msgs : List Message) (app_id : ℕ)
    → Packed hosts msgs (pack hosts msgs (new_decision app_id (pos 0)))
pack-Packed hosts msgs app_id =
    subst (Packed hosts msgs) (sym (pack-eq-fill hosts msgs start ∙ fill_lem slots msgs start))
      (elim (Bool-cases (ltb (length slots) (length msgs))) [
        | inl more ↦
            inl (ground (arith, capacity_lem hosts), drop_some (length slots) msgs (ground arith))
        | inr fits ↦ inr (
          ground (arith, capacity_lem hosts),
          drop_all (length slots) msgs (ground arith),
          rw (take_all (length slots) msgs (ground arith))
              (extend-IsPlacement hosts msgs app_id (ground (arith, capacity_lem hosts))),
        )
      ])
  where
    start : SchedulingDecision
    start = new_decision app_id (pos 0)

    slots : List String
    slots = free_slot_list hosts

abbrev pub SameSlots : List HostState → List HostState → Type 0
SameSlots hosts others =
    (capacity hosts ≡ capacity others) × ((ip : String) → slots_at ip hosts ≡ slots_at ip others)

pub sort-SameSlots :
    (first : HostState → HostState → Bool) (hosts : List HostState)
    → SameSlots (sort first hosts) hosts
sort-SameSlots first hosts = (capacity-sort first hosts, λ ip. slots_at-sort ip first hosts)

-- What a policy returns for a request that is new or grows: there is no room for all of its
-- messages, or they are all placed.
abbrev pub Outcome : List HostState → List Message → SchedulingDecision → Type 0
Outcome hosts msgs d =
    ((capacity hosts < length msgs) × (d ≡ not_enough_slots_decision))
    ⊎ ((length msgs ≤ capacity hosts) × IsPlacement hosts msgs d)

pub Packed-SameSlots :
    (hosts others : List HostState) (msgs : List Message) (r : List Message × SchedulingDecision)
    → SameSlots hosts others
    → Packed hosts msgs r
    → Packed others msgs r
Packed-SameSlots hosts others msgs r same (inl (more, left)) = inl (omega (arith, same.0), left)
Packed-SameSlots hosts others msgs r same (inr (fits, none_left, p)) = inr (
  omega (arith, same.0),
  none_left,
  record {
    aligned = p.aligned;
    ids = p.ids;
    apps = p.apps;
    groups = p.groups;
    within = λ ip. omega (arith, p.within ip, same.1 ip);
  },
)
