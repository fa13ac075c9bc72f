-- ===== src/Planner/Steps/Hosts.antt =====
-- Well-formed hosts under the changes of one host.
use faabric.Prelude.{
  ℕ, ◌+◌, ◌≡◌, refl, ◌∙◌, inl, inr, some, List, [], ◌∷◌, String, arith, leb, name_key,
}
use faabric.Prelude.Int.{ℤ, int_eq, int_key}
use faabric.Prelude.Maps.{lookup, insert}
use faabric.Prelude.Maps.Entries.{lookup-IsMapOf, insert-IsMapOf}
use faabric.Prelude.Results.{
  Result, throws, ok, Ensures, Ensures-if, Ensures-bind, Ensures-both, Ensures-map,
}
use faabric.Planner.{Host, MpiPort, Hosts, PlannerError, change_host, host_at}
use faabric.Planner.Slots.{claim_host_slots, release_host_slots}
use faabric.Planner.Ports.{claim_host_mpi_port, release_host_mpi_port, release_port}
use faabric.Planner.Ports.Laws.{HasDistinctPorts, has_port, claim_host_mpi_port_lem}
use faabric.Planner.Registry.Laws.{IsValidHost, IsValidHosts}
use faabric.Planner.Change.{KeepsValid, change_host-IsValidHosts, host_at-Ensures}
use faabric.Planner.Call.Claims.{occupy, claimed_port}
use faabric.Planner.Call.Claims.Slots.{HasSameSlots, claim_host_mpi_port-HasSameSlots}

claim_host_slots-KeepsValid :
    (n : ℕ) (host : Host) → Ensures (KeepsValid host) (claim_host_slots n host)
unfolding claim_host_slots Ensures
claim_host_slots-KeepsValid n host =
    Ensures-if (KeepsValid host) (leb (host.used_slots + n) host.slots) _ _
      (λ e ip v. record { named = v.named; within = ground (arith, e); distinct = v.distinct })
      (λ e. tt)

release_host_slots-KeepsValid :
    (n : ℕ) (host : Host) → Ensures (KeepsValid host) (release_host_slots n host)
unfolding release_host_slots Ensures
release_host_slots-KeepsValid n host =
    Ensures-if (KeepsValid host) (leb n host.used_slots) _ _
      (λ e ip v. record {
        named = v.named;
        within = omega (arith, v.within);
        distinct = v.distinct;
      })
      (λ e. tt)

-- The ports keep their numbers.
abbrev SamePorts : List MpiPort → List MpiPort → Type 0
SamePorts ps qs =
    ((n : ℤ) → has_port n qs ≡ has_port n ps) × (HasDistinctPorts ps → HasDistinctPorts qs)

release_port-SamePorts :
    (port : ℤ) (ps : List MpiPort) → Ensures (SamePorts ps) (release_port port ps)
unfolding release_port has_port HasDistinctPorts Ensures
release_port-SamePorts port [] = tt
release_port-SamePorts port (p ∷ ps) =
    Ensures-if (SamePorts (p ∷ ps)) (int_eq p.port port) _ _
      (λ e. Ensures-if (SamePorts (p ∷ ps)) p.used _ _ (λ u. (λ n. refl, λ d. d)) (λ u. tt))
      (λ e.
        Ensures-bind (SamePorts ps) (SamePorts (p ∷ ps)) (release_port port ps) _
          (release_port-SamePorts port ps)
          (λ qs s. (λ n. ground (arith, s.0 n), λ d. (s.0 p.port ∙ d.0, s.1 d.1))))

release_host_mpi_port-KeepsValid :
    (port : ℤ) (host : Host) → Ensures (KeepsValid host) (release_host_mpi_port port host)
unfolding release_host_mpi_port Ensures
release_host_mpi_port-KeepsValid port host =
    Ensures-bind (SamePorts host.mpi_ports) (KeepsValid host) (release_port port host.mpi_ports) _
      (release_port-SamePorts port host.mpi_ports)
      (λ ports s ip v. record { named = v.named; within = v.within; distinct = s.1 v.distinct })

pub claim-IsValidHosts :
    (ip : String) (n : ℕ) (m : Hosts)
    → IsValidHosts m
    → Ensures IsValidHosts (change_host ip (claim_host_slots n) m)
claim-IsValidHosts ip n m v =
    change_host-IsValidHosts ip (claim_host_slots n) m (claim_host_slots-KeepsValid n) v

pub release-IsValidHosts :
    (ip : String) (n : ℕ) (m : Hosts)
    → IsValidHosts m
    → Ensures IsValidHosts (change_host ip (release_host_slots n) m)
release-IsValidHosts ip n m v =
    change_host-IsValidHosts ip (release_host_slots n) m (release_host_slots-KeepsValid n) v

pub release_port-IsValidHosts :
    (ip : String) (port : ℤ) (m : Hosts)
    → IsValidHosts m
    → Ensures IsValidHosts (change_host ip (release_host_mpi_port port) m)
release_port-IsValidHosts ip port m v =
    change_host-IsValidHosts ip (release_host_mpi_port port) m
      (release_host_mpi_port-KeepsValid port) v

claim_host_mpi_port-HasDistinctPorts :
    (host : Host)
    → HasDistinctPorts host.mpi_ports
    → Ensures (λ p. HasDistinctPorts p.1.mpi_ports) (claim_host_mpi_port host)
unfolding Ensures
claim_host_mpi_port-HasDistinctPorts host d = elim (claim_host_mpi_port_lem host d) [
  | inl (e, f) ↦ rw e tt
  | inr (port, claimed, e, f, d', r) ↦ rw e d'
]

-- A port claimed of a host that the map has.
pub claimed-IsValidHosts :
    (ip : String) (m : Hosts) (host : Host)
    → IsValidHosts m
    → lookup ip m ≡ some host
    → Ensures (λ p. IsValidHosts (insert ip p.1 m)) (claim_host_mpi_port host)
claimed-IsValidHosts ip m host v found =
    Ensures-map (λ p. HasSameSlots host p.1 × HasDistinctPorts p.1.mpi_ports)
      (λ p. IsValidHosts (insert ip p.1 m)) (claim_host_mpi_port host)
      (Ensures-both (λ p. HasSameSlots host p.1) (λ p. HasDistinctPorts p.1.mpi_ports)
        (claim_host_mpi_port host) (claim_host_mpi_port-HasSameSlots host)
        (claim_host_mpi_port-HasDistinctPorts host old.distinct))
      (λ p h. insert-IsMapOf IsValidHost ip p.1 m v (record {
        named = h.0.0 ∙ old.named;
        within = omega (arith, h.0.1, h.0.2, old.within);
        distinct = h.1;
      }))
  where
    old : IsValidHost ip host
    old = lookup-IsMapOf IsValidHost ip host m v found

pub occupy-IsValidHosts :
    (ip : String) (m : Hosts) → IsValidHosts m → Ensures (λ r. IsValidHosts r.1) (occupy ip m)
unfolding occupy Ensures claimed_port
occupy-IsValidHosts ip m v =
    Ensures-bind IsValidHosts (λ r. IsValidHosts r.1) (change_host ip (claim_host_slots 1) m) _
      (claim-IsValidHosts ip 1 m v)
      (λ c vc.
        Ensures-bind (λ host. lookup ip c ≡ some host) (λ r. IsValidHosts r.1) (host_at ip c) _
          (host_at-Ensures ip c)
          (λ host found.
            by_claim c vc (claim_host_mpi_port host) (claimed-IsValidHosts ip c host vc found)))
  where
    by_claim :
        (c : Hosts)
        → IsValidHosts c
        → (r : Result PlannerError (ℤ × Host)) → Ensures (λ p. IsValidHosts (insert ip p.1 c)) r
        → IsValidHosts (claimed_port ip c r).1
    by_claim c vc (throws e) h = vc
    by_claim c vc (ok (port, host)) h = h
