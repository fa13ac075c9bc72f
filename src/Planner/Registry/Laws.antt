-- ===== src/Planner/Registry/Laws.antt =====
-- Well-formed host maps, and the hosts that `getAvailableHosts` leaves.
use faabric.Prelude.{
  ℕ, ◌≡◌, ◌≤◌, refl, inl, inr, Option, none, some, List, [], ◌∷◌, sym, ◌∙◌, ap, map, String, arith,
  if◌then◌else◌, name_key, Bool-cases, same_name, same_name_iff,
}
use faabric.Prelude.Int.{int_key}
use faabric.Prelude.Maps.{lookup, erase}
use faabric.Prelude.Maps.Entries.{IsMapOf, erase-IsMapOf}
use faabric.Planner.{Host, Hosts, PlannerState}
use faabric.Planner.Ports.Laws.{HasDistinctPorts}
use faabric.Planner.Registry.{get_available_hosts, split_hosts, erase_hosts, is_host_expired}

-- A host under the key `ip`.
pub record IsValidHost (ip : String) (host : Host) : Type 0 where
  pub named : host.ip ≡ ip
  pub within : host.used_slots ≤ host.slots
  pub distinct : HasDistinctPorts host.mpi_ports

abbrev pub IsValidHosts : Hosts → Type 0
IsValidHosts = IsMapOf IsValidHost

-- Each key stands once in the map, whatever its host is.
abbrev pub HasDistinctKeys : Hosts → Type 0
HasDistinctKeys = IsMapOf (λ ip host. Unit)

-- The hosts that a map has left when the expired ones are gone.
live_hosts : ℕ → ℕ → Hosts → Hosts
live_hosts timeout now [] = []
live_hosts timeout now ((ip, host) ∷ m) =
    let rest = live_hosts timeout now m in
    if is_host_expired timeout now now host then rest else (ip, host) ∷ rest

-- What a lookup gives once the expired hosts are gone.
abbrev pub keep_live : ℕ → ℕ → Option Host → Option Host
keep_live timeout now none = none
keep_live timeout now (some host) = if is_host_expired timeout now now host then none else some host

lookup-live_hosts :
    (timeout now : ℕ) (ip : String) (m : Hosts)
    → HasDistinctKeys m
    → lookup ip (live_hosts timeout now m) ≡ keep_live timeout now (lookup ip m)
unfolding lookup live_hosts IsMapOf
lookup-live_hosts timeout now ip [] h = refl
lookup-live_hosts timeout now ip ((i, host) ∷ m) h = elim (Bool-cases (same_name i ip)) [
  | inl same ↦ elim (Bool-cases (is_host_expired timeout now now host)) [
    | inl expired ↦
        rw
          (
            same,
            expired,
            lookup-live_hosts timeout now ip m h.2,
            sym ((same_name_iff i ip).0 same),
            h.0,
          )
          refl
    | inr live ↦ ground arith
  ]
  | inr other ↦ ground (arith, lookup-live_hosts timeout now ip m h.2)
]

erase_absent : (ip : String) (m : Hosts) → lookup ip m ≡ none → erase ip m ≡ m
unfolding lookup erase
erase_absent ip [] e = refl
erase_absent ip ((i, host) ∷ m) e = ground (arith, erase_absent ip m)

-- The entry in front stays while other keys are erased.
erase_hosts-skip :
    (timeout now : ℕ) (ip : String) (host : Host) (m n : Hosts)
    → lookup ip m ≡ none
    → erase_hosts (split_hosts timeout now m).0 ((ip, host) ∷ n)
      ≡ (ip, host) ∷ erase_hosts (split_hosts timeout now m).0 n
unfolding lookup erase erase_hosts split_hosts
erase_hosts-skip timeout now ip host [] n e = refl
erase_hosts-skip timeout now ip host ((i, h) ∷ m) n e =
    elim (Bool-cases (is_host_expired timeout now now h)) [
      | inl expired ↦ rw expired (
          ap (erase_hosts (split_hosts timeout now m).0) other_way
          ∙ erase_hosts-skip timeout now ip host m (erase i n) rest)
      | inr live ↦ rw live (erase_hosts-skip timeout now ip host m n rest)
    ]
  where
    rest : lookup ip m ≡ none
    rest = ground (arith, e)

    other_way : erase i ((ip, host) ∷ n) ≡ (ip, host) ∷ erase i n
    other_way = ground (arith, e, same_name_iff i ip, same_name_iff ip i)

erase_hosts-split_hosts :
    (timeout now : ℕ) (m : Hosts)
    → HasDistinctKeys m
    → erase_hosts (split_hosts timeout now m).0 m ≡ live_hosts timeout now m
unfolding erase_hosts split_hosts live_hosts IsMapOf erase
erase_hosts-split_hosts timeout now [] h = refl
erase_hosts-split_hosts timeout now ((ip, host) ∷ m) h =
    elim (Bool-cases (is_host_expired timeout now now host)) [
      | inl expired ↦ rw expired (
          ap (erase_hosts (split_hosts timeout now m).0) erase_first
          ∙ erase_hosts-split_hosts timeout now m h.2)
      | inr live ↦ rw live (
          erase_hosts-skip timeout now ip host m m h.0
          ∙ ap (◌∷◌ (ip, host)) (erase_hosts-split_hosts timeout now m h.2))
    ]
  where
    erase_first : erase ip ((ip, host) ∷ m) ≡ m
    erase_first = ground (arith, same_name_iff ip ip, erase_absent ip m h.0)

available_lem :
    (timeout now : ℕ) (m : Hosts)
    → (split_hosts timeout now m).1 ≡ map (λ e. e.1) (live_hosts timeout now m)
unfolding split_hosts live_hosts
available_lem timeout now [] = refl
available_lem timeout now ((ip, host) ∷ m) =
    elim (Bool-cases (is_host_expired timeout now now host)) [
      | inl expired ↦ rw expired (available_lem timeout now m)
      | inr live ↦ rw live (ap (◌∷◌ host) (available_lem timeout now m))
    ]

-- For a host map with each key once, getAvailableHosts returns the hosts of the map that it leaves, and that
-- map holds exactly the hosts whose time stamp has not expired.
pub get_available_hosts_lem :
    (timeout now : ℕ) (s : PlannerState)
    → HasDistinctKeys s.host_map
    → ((get_available_hosts timeout now s).0
        ≡ map (λ e. e.1) (get_available_hosts timeout now s).1.host_map)
      × ((ip : String)
          → lookup ip (get_available_hosts timeout now s).1.host_map
            ≡ keep_live timeout now (lookup ip s.host_map))
unfolding get_available_hosts
get_available_hosts_lem timeout now s h = (
  available_lem timeout now s.host_map ∙ ap (map (λ e. e.1)) (sym left),
  λ ip. ap (lookup ip) left ∙ lookup-live_hosts timeout now ip s.host_map h,
)
  where
    left :
        erase_hosts (split_hosts timeout now s.host_map).0 s.host_map
        ≡ live_hosts timeout now s.host_map
    left = erase_hosts-split_hosts timeout now s.host_map h

erase_hosts-IsValidHosts :
    (ips : List String) (m : Hosts) → IsValidHosts m → IsValidHosts (erase_hosts ips m)
unfolding erase_hosts
erase_hosts-IsValidHosts [] m v = v
erase_hosts-IsValidHosts (ip ∷ ips) m v =
    erase_hosts-IsValidHosts ips (erase ip m) (erase-IsMapOf IsValidHost ip m v)

pub get_available_hosts-IsValidHosts :
    (timeout now : ℕ) (s : PlannerState)
    → IsValidHosts s.host_map
    → IsValidHosts (get_available_hosts timeout now s).1.host_map
unfolding get_available_hosts
get_available_hosts-IsValidHosts timeout now s v =
    erase_hosts-IsValidHosts (split_hosts timeout now s.host_map).0 s.host_map v
