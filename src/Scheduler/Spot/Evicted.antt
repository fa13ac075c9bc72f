-- ===== src/Scheduler/Spot/Evicted.antt =====
-- The hosts that the spot policy leaves out: those that are to be evicted.
use mathlib.Core.Path.{subst}
use faabric.Prelude.{
  ◌≡◌, refl, sym, ap, ◌∙◌, inl, inr, Bool, true, false, ◌||◌, ◌&&◌, none, [], ◌∷◌, String, arith,
  if◌then◌else◌, same_name, same_name_iff, name_key, Bool-cases,
}
use faabric.Prelude.Maps.{Map, lookup, contains, insert, erase, lookup-erase, lookup-insert}
use faabric.Scheduler.Hosts.{HostState, HostMap, map_values}
use faabric.Scheduler.Placement.{slots_at}
use faabric.Scheduler.Migration.{NamedHosts}
use faabric.Scheduler.Spot.{filter_hosts, ips_to_remove, erase_keys, must_evict_ip}

-- The map has an entry at `ip` whose host carries the mark.
pub is_marked : String → HostMap → Bool
is_marked ip [] = false
is_marked ip ((key, host) ∷ m) =
    (same_name key ip && same_name host.ip must_evict_ip) || is_marked ip m

contains-insert :
    (i k : String) (ips : Map String (Unit {0}))
    → contains i (insert k tt ips) ≡ (if same_name k i then true else contains i ips)
contains-insert i k ips = ground (arith, lookup-insert k i tt ips)

lookup-erase_keys :
    (ip : String) (ips : Map String (Unit {0})) (m : HostMap)
    → lookup ip (erase_keys ips m) ≡ (if contains ip ips then none else lookup ip m)
unfolding erase_keys lookup
lookup-erase_keys ip [] m = refl
lookup-erase_keys ip ((k, u) ∷ ips) m =
    ground (arith, lookup-erase_keys ip ips (erase k m), lookup-erase k ip m)

contains-ips_to_remove :
    (ip : String) (m : HostMap) → contains ip (ips_to_remove m) ≡ is_marked ip m
unfolding ips_to_remove is_marked lookup
contains-ips_to_remove ip [] = refl
contains-ips_to_remove ip ((key, host) ∷ m) =
    ground (arith, contains-ips_to_remove ip m, contains-insert ip key (ips_to_remove m))

-- The spot policy looks at exactly the entries of the map that do not carry the mark of a host to be
-- evicted, with their state, and the other keys are those that it returns.
pub filter_hosts_evicted_lem :
    (ip : String) (m : HostMap)
    → (lookup ip (filter_hosts m).0 ≡ (if is_marked ip m then none else lookup ip m))
      × (contains ip (filter_hosts m).1 ≡ is_marked ip m)
unfolding filter_hosts
filter_hosts_evicted_lem ip m = (
  lookup-erase_keys ip (ips_to_remove m) m
      ∙ ap (λ b. if b then none else lookup ip m) (contains-ips_to_remove ip m),
  contains-ips_to_remove ip m,
)

-- The marked entries all have their keys in `ips`.
abbrev Covered : Map String (Unit {0}) → HostMap → Type 0
Covered ips [] = Unit {0}
Covered ips ((key, host) ∷ m) =
    (same_name host.ip must_evict_ip ≡ true → contains key ips ≡ true) × Covered ips m

Covered-insert :
    (k : String) (ips : Map String (Unit {0})) (m : HostMap)
    → Covered ips m
    → Covered (insert k tt ips) m
Covered-insert k ips [] c = tt
Covered-insert k ips ((key, host) ∷ m) c =
    ((λ e. ground (arith, c.0 e, contains-insert key k ips)), Covered-insert k ips m c.1)

ips_to_remove-cons :
    (key : String) (host : HostState) (m : HostMap)
    → ips_to_remove ((key, host) ∷ m) ≡ (
        if same_name host.ip must_evict_ip
        then insert key tt (ips_to_remove m)
        else ips_to_remove m)
unfolding ips_to_remove
ips_to_remove-cons key host m = refl

cons-Covered :
    (key : String) (host : HostState) (m : HostMap) (ips : Map String (Unit {0})) (b : Bool)
    → same_name host.ip must_evict_ip ≡ b
    → Covered ips m
    → Covered (if b then insert key tt ips else ips) ((key, host) ∷ m)
cons-Covered key host m ips true e c = (
  (λ q. ground (arith, contains-insert key key ips, same_name_iff key key)),
  Covered-insert key ips m c,
)
cons-Covered key host m ips false e c = ((λ q. cc), c)

ips_to_remove-Covered : (m : HostMap) → Covered (ips_to_remove m) m
ips_to_remove-Covered [] = tt
ips_to_remove-Covered ((key, host) ∷ m) =
    subst (λ ips. Covered ips ((key, host) ∷ m)) (sym (ips_to_remove-cons key host m))
      (cons-Covered key host m (ips_to_remove m) (same_name host.ip must_evict_ip) refl
        (ips_to_remove-Covered m))

erase_keys-nil : (ips : Map String (Unit {0})) → erase_keys ips [] ≡ []
unfolding erase_keys erase
erase_keys-nil [] = refl
erase_keys-nil ((k, u) ∷ ips) = erase_keys-nil ips

erase_keys-cons :
    (ips : Map String (Unit {0})) (key : String) (host : HostState) (m : HostMap)
    → erase_keys ips ((key, host) ∷ m)
      ≡ (if contains key ips then erase_keys ips m else (key, host) ∷ erase_keys ips m)
unfolding erase_keys erase lookup
erase_keys-cons [] key host m = refl
erase_keys-cons ((k, u) ∷ ips) key host m =
    ground
      (arith, same_name_iff k key, same_name_iff key k, erase_keys-cons ips key host (erase k m))

slots_at-Covered :
    (ips : Map String (Unit {0})) (m : HostMap)
    → Covered ips m
    → slots_at must_evict_ip (map_values (erase_keys ips m)) ≡ 0
unfolding slots_at map_values
slots_at-Covered ips [] c = rw (erase_keys-nil ips) refl
slots_at-Covered ips ((key, host) ∷ m) c = elim (Bool-cases (contains key ips)) [
  | inl e ↦ rw (erase_keys-cons ips key host m, e) (slots_at-Covered ips m c.1)
  | inr e ↦
      rw (erase_keys-cons ips key host m, e) (ground (arith, c.0, e, slots_at-Covered ips m c.1))
]

-- There is no slot with the mark on the hosts that are left.
pub slots_at-filter_hosts :
    (m : HostMap) → slots_at must_evict_ip (map_values (filter_hosts m).0) ≡ 0
unfolding filter_hosts
slots_at-filter_hosts m = slots_at-Covered (ips_to_remove m) m (ips_to_remove-Covered m)

erase-NamedHosts : (ip : String) (m : HostMap) → NamedHosts m → NamedHosts (erase ip m)
unfolding erase
erase-NamedHosts ip [] n = tt
erase-NamedHosts ip ((key, host) ∷ m) n = elim (Bool-cases (same_name key ip)) [
  | inl e ↦ rw e (erase-NamedHosts ip m n.1)
  | inr e ↦ rw e (n.0, erase-NamedHosts ip m n.1)
]

erase_keys-NamedHosts :
    (ips : Map String (Unit {0})) (m : HostMap) → NamedHosts m → NamedHosts (erase_keys ips m)
unfolding erase_keys
erase_keys-NamedHosts [] m n = n
erase_keys-NamedHosts ((k, u) ∷ ips) m n =
    erase_keys-NamedHosts ips (erase k m) (erase-NamedHosts k m n)

pub filter_hosts-NamedHosts : (m : HostMap) → NamedHosts m → NamedHosts (filter_hosts m).0
unfolding filter_hosts
filter_hosts-NamedHosts m n = erase_keys-NamedHosts (ips_to_remove m) m n
