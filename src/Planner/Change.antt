-- ===== src/Planner/Change.antt =====
-- What a change of one host does to the host map.
use faabric.Prelude.{
  ℕ, ◌+◌, ◌≡◌, refl, ap, true, Option, none, some, String, arith, if◌then◌else◌, name_key,
  same_name, same_name_iff,
}
use faabric.Prelude.Maps.{lookup, insert, lookup-insert}
use faabric.Prelude.Maps.Entries.{lookup-IsMapOf, insert-IsMapOf}
use faabric.Prelude.Results.{Result, throws, ok, ◌>>=◌, Ensures, Ensures-bind}
use faabric.Planner.{Host, Hosts, PlannerError, host_at, change_host, missing_key}
use faabric.Planner.Slots.{claim_host_slots, release_host_slots}
use faabric.Planner.Registry.Laws.{IsValidHost, IsValidHosts}

-- The used slots of a host, 0 when it is unknown.
unfoldable pub used_at : String → Hosts → ℕ
used_at ip m = elim (lookup ip m) [ none ↦ 0 | some host ↦ host.used_slots ]

pub host_at-Ensures :
    (ip : String) (m : Hosts) → Ensures (λ host. lookup ip m ≡ some host) (host_at ip m)
unfolding host_at Ensures
host_at-Ensures ip m = go (lookup ip m)
  where
    go :
        (o : Option Host)
        → Ensures
            (λ host. o ≡ some host)
            (elim o [ none ↦ throws missing_key | some host ↦ ok host ])
    go none = tt
    go (some host) = refl

-- A property `Q` of the hosts after a change `f`, of which `R` tells what it does to a host.
pub change_host-Ensures :
    (R : Host → Host → Type 0) (Q : Hosts → Type 0) (ip : String)
    (f : Host → Result PlannerError Host) (m : Hosts)
    → ((host : Host) → Ensures (R host) (f host))
    → ((host changed : Host) → lookup ip m ≡ some host → R host changed → Q (insert ip changed m))
    → Ensures Q (change_host ip f m)
unfolding change_host Ensures
change_host-Ensures R Q ip f m by_f by_insert =
    Ensures-bind (λ host. lookup ip m ≡ some host) Q (host_at ip m)
      (λ host. f host >>= λ changed. ok (insert ip changed m)) (host_at-Ensures ip m)
      (λ host e.
        Ensures-bind (R host) Q (f host) (λ changed. ok (insert ip changed m)) (by_f host)
          (λ changed r. by_insert host changed e r))

-- The change keeps the name of the host and its bounds, and its ports distinct.
abbrev pub KeepsValid : Host → Host → Type 0
KeepsValid host changed = (ip : String) → IsValidHost ip host → IsValidHost ip changed

pub change_host-IsValidHosts :
    (ip : String) (f : Host → Result PlannerError Host) (m : Hosts)
    → ((host : Host) → Ensures (KeepsValid host) (f host))
    → IsValidHosts m
    → Ensures IsValidHosts (change_host ip f m)
change_host-IsValidHosts ip f m keeps h =
    change_host-Ensures KeepsValid IsValidHosts ip f m keeps (λ host changed e r.
      insert-IsMapOf IsValidHost ip changed m h (r ip (lookup-IsMapOf IsValidHost ip host m h e)))

pub used_at-insert :
    (ip i : String) (changed : Host) (m : Hosts)
    → used_at i (insert ip changed m) ≡ (if same_name ip i then changed.used_slots else used_at i m)
unfolding used_at
used_at-insert ip i changed m = ground (arith, lookup-insert ip i changed m)

-- The used slots of `ip` go from the ones of `host` to the ones of `changed`.
pub moved_at :
    (ip i : String) (host : Host) (m : Hosts)
    → lookup ip m ≡ some host
    → same_name ip i ≡ true
    → used_at i m ≡ host.used_slots
unfolding used_at
moved_at ip i host m e same = ground (arith, e, ap (λ j. lookup j m) ((same_name_iff ip i).0 same))

-- Release and claim of slots at a host, in the used slots of all.
pub used_at-release :
    (ip : String) (n : ℕ) (m : Hosts)
    → Ensures
        (λ m'. (i : String) → used_at i m ≡ used_at i m' + (if same_name ip i then n else 0))
        (change_host ip (release_host_slots n) m)
unfolding release_host_slots Ensures
used_at-release ip n m =
    change_host-Ensures (λ host changed. host.used_slots ≡ changed.used_slots + n)
      (λ m'. (i : String) → used_at i m ≡ used_at i m' + (if same_name ip i then n else 0)) ip
      (release_host_slots n) m (λ host. ground arith)
      (λ host changed e r i. ground (arith, used_at-insert ip i changed m, moved_at ip i host m e))

pub used_at-claim :
    (ip : String) (n : ℕ) (m : Hosts)
    → Ensures
        (λ m'. (i : String) → used_at i m' ≡ used_at i m + (if same_name ip i then n else 0))
        (change_host ip (claim_host_slots n) m)
unfolding claim_host_slots Ensures
used_at-claim ip n m =
    change_host-Ensures (λ host changed. changed.used_slots ≡ host.used_slots + n)
      (λ m'. (i : String) → used_at i m' ≡ used_at i m + (if same_name ip i then n else 0)) ip
      (claim_host_slots n) m (λ host. ground arith)
      (λ host changed e r i. ground (arith, used_at-insert ip i changed m, moved_at ip i host m e))

-- A change that leaves the used slots of its host leaves those of all hosts.
pub used_at-keeps :
    (ip : String) (f : Host → Result PlannerError Host) (m : Hosts)
    → ((host : Host) → Ensures (λ changed. changed.used_slots ≡ host.used_slots) (f host))
    → Ensures (λ m'. (i : String) → used_at i m' ≡ used_at i m) (change_host ip f m)
used_at-keeps ip f m keeps =
    change_host-Ensures (λ host changed. changed.used_slots ≡ host.used_slots)
      (λ m'. (i : String) → used_at i m' ≡ used_at i m) ip f m keeps
      (λ host changed e r i. ground (arith, used_at-insert ip i changed m, moved_at ip i host m e))

pub host_at_found :
    (ip : String) (host : Host) (m : Hosts) → lookup ip m ≡ some host → host_at ip m ≡ ok host
unfolding host_at
host_at_found ip host m e = ap (λ o. elim o [ none ↦ throws missing_key | some h ↦ ok h ]) e

pub change_host_found :
    (ip : String) (f : Host → Result PlannerError Host) (host changed : Host) (m : Hosts)
    → lookup ip m ≡ some host
    → f host ≡ ok changed
    → change_host ip f m ≡ ok (insert ip changed m)
unfolding change_host
change_host_found ip f host changed m e g = rw (host_at_found ip host m e, g) refl
