-- ===== src/Planner/Call/Claims/Slots.antt =====
-- The slots that the claims of a new request take.
use mathlib.Core.Path.{subst}
use faabric.Prelude.{
  ℕ, ◌+◌, ◌-◌, ◌≤◌, ◌≡◌, refl, sym, ◌∙◌, ap, inl, inr, true, Option, none, some, List, [], ◌∷◌,
  String, arith, length, if◌then◌else◌, name_key, same_name, same_name_iff, Option-cases,
  Bool-cases,
}
use faabric.Prelude.Int.{ℤ}
use faabric.Prelude.Counts.{count}
use faabric.Prelude.Maps.{lookup, insert, lookup-insert}
use faabric.Prelude.Maps.Entries.{lookup-IsMapOf, insert-IsMapOf, lookup-insert_same, insert-insert}
use faabric.Prelude.Results.{ok, Ensures, Ensures-ok, Ensures-option}
use faabric.Planner.{Host, Hosts}
use faabric.Planner.Slots.{claim_host_slots}
use faabric.Planner.Ports.{claim_host_mpi_port, claim_port}
use faabric.Planner.Ports.Laws.{HasDistinctPorts, claim_host_mpi_port_lem}
use faabric.Planner.Registry.Laws.{IsValidHost, IsValidHosts}
use faabric.Planner.Change.{used_at, used_at-insert, host_at_found, change_host_found}
use faabric.Planner.Call.Claims.{occupy, claimed_port, claim_all, port_or}

-- The free slots of a host, 0 when it is unknown.
unfoldable pub free_at : String → Hosts → ℕ
free_at ip m = elim (lookup ip m) [ none ↦ 0 | some host ↦ host.slots - host.used_slots ]

-- A host that differs in its ports only.
abbrev pub HasSameSlots : Host → Host → Type 0
HasSameSlots host h = (h.ip ≡ host.ip) × (h.slots ≡ host.slots) × (h.used_slots ≡ host.used_slots)

-- How a map comes from another by claims of one slot for each name in the list.
pub record IsClaimed (ips : List String) (m m' : Hosts) : Type 0 where
  pub used : (ip : String) → used_at ip m' ≡ used_at ip m + count ip ips
  pub free : (ip : String) → free_at ip m' + count ip ips ≡ free_at ip m
  pub valid : IsValidHosts m'

free_at-insert :
    (ip i : String) (h : Host) (m : Hosts)
    → free_at i (insert ip h m) ≡ (if same_name ip i then h.slots - h.used_slots else free_at i m)
unfolding free_at
free_at-insert ip i h m = ground (arith, lookup-insert ip i h m)

pub claim_host_mpi_port-HasSameSlots :
    (host : Host) → Ensures (λ r. HasSameSlots host r.1) (claim_host_mpi_port host)
unfolding claim_host_mpi_port Ensures
claim_host_mpi_port-HasSameSlots host =
    Ensures-option (λ r. HasSameSlots host r.1) (claim_port host.mpi_ports) _ _ (λ e. tt)
      (λ p e. (refl, refl, refl))

free_here :
    (ip : String) (m : Hosts) (host : Host)
    → lookup ip m ≡ some host
    → 1 ≤ free_at ip m
    → host.used_slots + 1 ≤ host.slots
unfolding free_at
free_here ip m host found free = ground (arith, found, free)

-- The map with a claimed slot stays valid, also when the ports of the host change.
module _ (ip : String) (m : Hosts) (host h : Host) (found : lookup ip m ≡ some host)
    (valid : IsValidHosts m) (free : 1 ≤ free_at ip m)
    (same : HasSameSlots (record host { used_slots = host.used_slots + 1 }) h)
    (distinct : HasDistinctPorts h.mpi_ports) where
  at_host :
      (i : String)
      → same_name ip i ≡ true
      → (used_at i m ≡ host.used_slots) × (free_at i m ≡ host.slots - host.used_slots)
  unfolding used_at free_at
  at_host i q = (
    ap (λ o. elim o [ none ↦ 0 | some h ↦ h.used_slots ]) (there q),
    ap (λ o. elim o [ none ↦ 0 | some h ↦ h.slots - h.used_slots ]) (there q),
  )
    where
      there : same_name ip i ≡ true → lookup i m ≡ some host
      there q = ap (λ j. lookup j m) (sym ((same_name_iff ip i).0 q)) ∙ found

  insert-IsClaimed : IsClaimed (ip ∷ []) m (insert ip h m)
  unfolding count
  insert-IsClaimed = record {
    used = λ i. elim (Bool-cases (same_name ip i)) [
      | inl q ↦ ground (arith, used_at-insert ip i h m, same.2, at_host i q)
      | inr q ↦ ground (arith, used_at-insert ip i h m)
    ];
    free = λ i. elim (Bool-cases (same_name ip i)) [
      | inl q ↦ ground (
        arith,
        free_at-insert ip i h m,
        same.1,
        same.2,
        at_host i q,
        free_here ip m host found free,
      )
      | inr q ↦ ground (arith, free_at-insert ip i h m)
    ];
    valid = insert-IsMapOf IsValidHost ip h m valid (record {
      named = same.0 ∙ (lookup-IsMapOf IsValidHost ip host m valid found).named;
      within = omega (arith, same.1, same.2, free_here ip m host found free);
      distinct = distinct;
    });
  }

Occupied : String → Hosts → Type 0
Occupied ip m =
    (port : Option ℤ) × (m' : Hosts) × (occupy ip m ≡ ok (port, m')) × IsClaimed (ip ∷ []) m m'

Occupied-at :
    (ip : String) (m : Hosts) (host : Host)
    → lookup ip m ≡ some host
    → IsValidHosts m
    → 1 ≤ free_at ip m
    → Occupied ip m
unfolding Occupied occupy claim_host_slots
Occupied-at ip m host found valid free = elim (claim_host_mpi_port_lem claimed distinct) [
  | inl (e, none_free) ↦ (
    none,
    m1,
    step ∙ ap (λ r. ok (claimed_port ip m1 r)) e,
    insert-IsClaimed ip m host claimed found valid free (refl, refl, refl) distinct,
  )
  | inr (port, h, e, f, d, r) ↦ (
    some port,
    insert ip h m1,
    step ∙ ap (λ r. ok (claimed_port ip m1 r)) e,
    subst (IsClaimed (ip ∷ []) m) (sym (insert-insert ip h claimed m)) (
        insert-IsClaimed ip m host h found valid free
          (Ensures-ok (λ r. HasSameSlots claimed r.1) (claim_host_mpi_port claimed) (port, h)
            (claim_host_mpi_port-HasSameSlots claimed) e)
          d),
  )
]
  where
    claimed : Host
    claimed = record host { used_slots = host.used_slots + 1 }

    m1 : Hosts
    m1 = insert ip claimed m

    distinct : HasDistinctPorts claimed.mpi_ports
    distinct = (lookup-IsMapOf IsValidHost ip host m valid found).distinct

    claim : claim_host_slots 1 host ≡ ok claimed
    claim = ground (arith, free_here ip m host found free)

    step : occupy ip m ≡ ok (claimed_port ip m1 (claim_host_mpi_port claimed))
    step =
        rw
          (
            change_host_found ip (claim_host_slots 1) host claimed m found claim,
            host_at_found ip claimed m1 (lookup-insert_same ip claimed m),
          )
          refl

occupy_lem : (ip : String) (m : Hosts) → IsValidHosts m → 1 ≤ free_at ip m → Occupied ip m
unfolding free_at
occupy_lem ip m valid free = elim (Option-cases (lookup ip m)) [
  | inl unknown ↦ absurd (omega (arith, free, unknown_free unknown))
  | inr (host, found) ↦ Occupied-at ip m host found valid free
]
  where
    unknown_free : lookup ip m ≡ none → free_at ip m ≡ 0
    unknown_free e = ap (λ o. elim o [ none ↦ 0 | some h ↦ h.slots - h.used_slots ]) e

IsClaimed-trans :
    (ip : String) (ips : List String) (m n o : Hosts)
    → IsClaimed (ip ∷ []) m n
    → IsClaimed ips n o
    → IsClaimed (ip ∷ ips) m o
unfolding count
IsClaimed-trans ip ips m n o a b = record {
  used = λ i. ground (arith, a.used i, b.used i);
  free = λ i. ground (arith, a.free i, b.free i);
  valid = b.valid;
}

-- What is left is free once the first host has given its slot.
still_free :
    (ip : String) (ips : List String) (m n : Hosts)
    → IsClaimed (ip ∷ []) m n
    → ((i : String) → count i (ip ∷ ips) ≤ free_at i m)
    → (i : String) → count i ips ≤ free_at i n
unfolding count
still_free ip ips m n a h i = ground (arith, a.free i, h i)

-- The loop of a new request does not fail when each host has the free slots for its messages: it takes
-- one slot for each message, and the host map stays well formed.
pub claim_all_lem :
    (ips : List String) (ports : List ℤ) (m : Hosts)
    → length ports ≡ length ips
    → IsValidHosts m
    → ((ip : String) → count ip ips ≤ free_at ip m)
    → (ports' : List ℤ) × (m' : Hosts) × (claim_all ips ports m ≡ ok (ports', m'))
      × (length ports' ≡ length ips)
      × IsClaimed ips m m'
unfolding claim_all count Occupied
claim_all_lem [] [] m same valid room = (
  [],
  m,
  refl,
  refl,
  record { used = λ ip. omega arith; free = λ ip. omega arith; valid = valid },
)
claim_all_lem [] (p ∷ ps) m same valid room = absurd (omega arith)
claim_all_lem (ip ∷ ips) [] m same valid room = absurd (omega arith)
claim_all_lem (ip ∷ ips) (p ∷ ps) m same valid room =
    let (port, n, e, a) = occupy_lem ip m valid (ground (arith, room ip, same_name_iff ip ip)) in
    let (ports, o, f, l, b) =
      claim_all_lem ips ps n (omega (arith, same)) a.valid (still_free ip ips m n a room) in
    (port_or p port ∷ ports, o, rw (e, f) refl, omega (arith, l), IsClaimed-trans ip ips m n o a b)
