-- ===== src/Planner/Steps/Claims.antt =====
-- Well-formed host maps in the loops of `callBatch`.
use faabric.Prelude.{◌≡◌, Bool, true, false, some, List, [], ◌∷◌, String, name_key, same_name}
use faabric.Prelude.Int.{ℤ, pos, int_eq}
use faabric.Prelude.Maps.{lookup}
use faabric.Prelude.Results.{ok, Ensures, Ensures-if, Ensures-any, Ensures-bind}
use faabric.Batch.{Message}
use faabric.Scheduler.Decision.{SchedulingDecision}
use faabric.Planner.{Hosts, change_host, host_at}
use faabric.Planner.Slots.{claim_host_slots, release_host_slots}
use faabric.Planner.Ports.{claim_host_mpi_port}
use faabric.Planner.Registry.Laws.{IsValidHosts}
use faabric.Planner.Change.{host_at-Ensures}
use faabric.Planner.Call.Prepare.{first_of}
use faabric.Planner.Call.Claims.{
  occupy, claim_all, claim_slots_of, release_one, release_moved, occupy_one, occupy_moved,
  added_port, add_to_decision, tail,
}
use faabric.Planner.Steps.Hosts.{
  claim-IsValidHosts, release-IsValidHosts, release_port-IsValidHosts, claimed-IsValidHosts,
  occupy-IsValidHosts,
}

-- The map that a loop leaves with a value.
abbrev pub LeavesValid : {A : Type 0} → A × Hosts → Type 0
LeavesValid r = IsValidHosts r.1

pub claim_all-IsValidHosts :
    (ips : List String) (ports : List ℤ) (m : Hosts)
    → IsValidHosts m
    → Ensures LeavesValid (claim_all ips ports m)
unfolding claim_all Ensures
claim_all-IsValidHosts [] ports m v = v
claim_all-IsValidHosts (ip ∷ ips) [] m v =
    Ensures-bind LeavesValid LeavesValid (occupy ip m) _ (occupy-IsValidHosts ip m v)
      (λ r w. claim_all-IsValidHosts ips [] r.1 w)
claim_all-IsValidHosts (ip ∷ ips) (p ∷ ps) m v =
    Ensures-bind LeavesValid LeavesValid (occupy ip m) _ (occupy-IsValidHosts ip m v) (λ r w.
      Ensures-bind LeavesValid LeavesValid (claim_all ips ps r.1) _
        (claim_all-IsValidHosts ips ps r.1 w) (λ q u. u))

pub claim_slots_of-IsValidHosts :
    (ips : List String) (m : Hosts) → IsValidHosts m → Ensures IsValidHosts (claim_slots_of ips m)
unfolding claim_slots_of Ensures
claim_slots_of-IsValidHosts [] m v = v
claim_slots_of-IsValidHosts (ip ∷ ips) m v =
    Ensures-bind IsValidHosts IsValidHosts (change_host ip (claim_host_slots 1) m)
      (claim_slots_of ips) (claim-IsValidHosts ip 1 m v)
      (λ c w. claim_slots_of-IsValidHosts ips c w)

release_one-IsValidHosts :
    (o n : String) (ports : List ℤ) (m : Hosts)
    → IsValidHosts m
    → Ensures IsValidHosts (release_one o n ports m)
unfolding release_one Ensures
release_one-IsValidHosts o n ports m v =
    Ensures-if IsValidHosts (same_name n o) (ok m) _ (λ e. v)
      (λ e.
        Ensures-bind IsValidHosts IsValidHosts (change_host o (release_host_slots 1) m) _
          (release-IsValidHosts o 1 m v)
          (λ r w.
            Ensures-bind (λ p. Unit) IsValidHosts (first_of ports) _ (Ensures-any (first_of ports))
              (λ port t. release_port-IsValidHosts o port r w)))

pub release_moved-IsValidHosts :
    (olds news : List String) (ports : List ℤ) (m : Hosts)
    → IsValidHosts m
    → Ensures IsValidHosts (release_moved olds news ports m)
unfolding release_moved Ensures
release_moved-IsValidHosts [] news ports m v = v
release_moved-IsValidHosts (o ∷ os) [] ports m v = tt
release_moved-IsValidHosts (o ∷ os) (n ∷ ns) ports m v =
    Ensures-bind IsValidHosts IsValidHosts (release_one o n ports m)
      (release_moved os ns (tail ports)) (release_one-IsValidHosts o n ports m v)
      (λ r w. release_moved-IsValidHosts os ns (tail ports) r w)

occupy_one-IsValidHosts :
    (n o : String) (ports : List ℤ) (m : Hosts)
    → IsValidHosts m
    → Ensures LeavesValid (occupy_one n o ports m)
unfolding occupy_one Ensures
occupy_one-IsValidHosts n o ports m v =
    Ensures-if LeavesValid (same_name n o) _ (occupy n m)
      (λ e.
        Ensures-bind (λ p. Unit) LeavesValid (first_of ports) _ (Ensures-any (first_of ports))
          (λ port t. v))
      (λ e. occupy-IsValidHosts n m v)

pub occupy_moved-IsValidHosts :
    (news olds : List String) (new_ports old_ports : List ℤ) (m : Hosts)
    → IsValidHosts m
    → Ensures LeavesValid (occupy_moved news olds new_ports old_ports m)
unfolding occupy_moved Ensures
occupy_moved-IsValidHosts [] olds new_ports old_ports m v = v
occupy_moved-IsValidHosts (n ∷ ns) [] new_ports old_ports m v = tt
occupy_moved-IsValidHosts (n ∷ ns) (o ∷ os) [] old_ports m v =
    Ensures-if LeavesValid (same_name n o) _ _ (λ e. tt)
      (λ e.
        Ensures-bind LeavesValid LeavesValid (occupy n m) _ (occupy-IsValidHosts n m v)
          (λ r w. occupy_moved-IsValidHosts ns os [] (tail old_ports) r.1 w))
occupy_moved-IsValidHosts (n ∷ ns) (o ∷ os) (p ∷ ps) old_ports m v =
    Ensures-bind LeavesValid LeavesValid (occupy_one n o old_ports m) _
      (occupy_one-IsValidHosts n o old_ports m v)
      (λ r w.
        Ensures-bind LeavesValid LeavesValid (occupy_moved ns os ps (tail old_ports) r.1) _
          (occupy_moved-IsValidHosts ns os ps (tail old_ports) r.1 w) (λ q u. u))

added_port-IsValidHosts :
    (skip_claim : Bool) (ip : String) (port : ℤ) (m : Hosts)
    → IsValidHosts m
    → Ensures LeavesValid (added_port skip_claim ip port m)
unfolding added_port Ensures
added_port-IsValidHosts true ip port m v =
    Ensures-if LeavesValid (int_eq port (pos 0)) _ _ (λ e. tt) (λ e. v)
added_port-IsValidHosts false ip port m v =
    Ensures-bind (λ host. lookup ip m ≡ some host) LeavesValid (host_at ip m) _
      (host_at-Ensures ip m)
      (λ host found.
        Ensures-bind _ LeavesValid (claim_host_mpi_port host) _
          (claimed-IsValidHosts ip m host v found) (λ p w. w))

pub add_to_decision-IsValidHosts :
    (skip_claim : Bool) (msgs : List Message) (ips : List String) (ports : List ℤ)
    (d : SchedulingDecision) (m : Hosts)
    → IsValidHosts m
    → Ensures LeavesValid (add_to_decision skip_claim msgs ips ports d m)
unfolding add_to_decision Ensures
add_to_decision-IsValidHosts skip_claim [] ips ports d m v = v
add_to_decision-IsValidHosts skip_claim (msg ∷ msgs) [] ports d m v = tt
add_to_decision-IsValidHosts skip_claim (msg ∷ msgs) (ip ∷ ips) [] d m v = tt
add_to_decision-IsValidHosts skip_claim (msg ∷ msgs) (ip ∷ ips) (p ∷ ps) d m v =
    Ensures-bind LeavesValid LeavesValid (added_port skip_claim ip p m) _
      (added_port-IsValidHosts skip_claim ip p m v)
      (λ r w. add_to_decision-IsValidHosts skip_claim msgs ips ps _ r.1 w)
