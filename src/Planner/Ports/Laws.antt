-- ===== src/Planner/Ports/Laws.antt =====
-- `claimHostMpiPort` and `releaseHostMpiPort`, one after the other.
use faabric.Prelude.{
  ℕ, suc, ◌≡◌, refl, ◌⊎◌, inl, inr, Bool, true, false, none, some, List, [], ◌∷◌, arith,
  if◌then◌else◌, Bool-cases, ◌||◌, ◌∙◌,
}
use faabric.Prelude.Int.{ℤ, int_eq, int_key}
use faabric.Prelude.Results.{throws, ok}
use faabric.Planner.{Host, MpiPort, ran_out_of_mpi_ports}
use faabric.Planner.Ports.{claim_port, claim_host_mpi_port, release_port, release_host_mpi_port}

unfoldable pub free_ports : List MpiPort → ℕ
free_ports [] = 0
free_ports (p ∷ ps) = if p.used then free_ports ps else suc (free_ports ps)

unfoldable pub has_port : ℤ → List MpiPort → Bool
has_port n [] = false
has_port n (p ∷ ps) = int_eq p.port n || has_port n ps

-- No number stands twice.
unfoldable pub HasDistinctPorts : List MpiPort → Type 0
HasDistinctPorts [] = Unit
HasDistinctPorts (p ∷ ps) = (has_port p.port ps ≡ false) × HasDistinctPorts ps

-- Either no port is free, or the first free one is taken, and releasing it leads back.
abbrev Claimed : List MpiPort → Type 0
Claimed ps =
    ((claim_port ps ≡ none) × (free_ports ps ≡ 0))
    ⊎ ((port : ℤ) × (qs : List MpiPort) × (claim_port ps ≡ some (port, qs))
        × (has_port port ps ≡ true)
        × (free_ports ps ≡ suc (free_ports qs))
        × (release_port port qs ≡ ok ps)
        × HasDistinctPorts qs
        × ((n : ℤ) → has_port n qs ≡ has_port n ps))

claim_port-Claimed : (ps : List MpiPort) → HasDistinctPorts ps → Claimed ps
unfolding claim_port has_port free_ports release_port HasDistinctPorts
claim_port-Claimed [] d = inl (refl, refl)
claim_port-Claimed (p ∷ ps) d = elim (Bool-cases p.used) [
  | inr free ↦ inr (
    p.port,
    record p { used = true } ∷ ps,
    ground arith,
    ground (arith, int_key.beq_iff p.port p.port),
    ground arith,
    ground (arith, int_key.beq_iff p.port p.port),
    (d.0, d.1),
    λ n. refl,
  )
  | inl used ↦ elim (claim_port-Claimed ps d.1) [
    | inl (e, f) ↦ inl (ground (arith, e), ground (arith, f))
    | inr (port, qs, e, h, f, r, dq, same) ↦ inr (
      port,
      p ∷ qs,
      ground (arith, e),
      ground (arith, h),
      ground (arith, f),
      ground (arith, r, h, d.0, int_key.beq_iff p.port port),
      (same p.port ∙ d.0, dq),
      λ n. ground (arith, same n),
    )
  ]
]

-- For a host whose ports have distinct numbers, claimHostMpiPort throws exactly when no port is free.
-- Otherwise it takes one port: there is one free port less, the numbers stay distinct, and
-- releaseHostMpiPort of that port gives the host back as it was.
pub claim_host_mpi_port_lem :
    (host : Host)
    → HasDistinctPorts host.mpi_ports
    → ((claim_host_mpi_port host ≡ throws ran_out_of_mpi_ports) × (free_ports host.mpi_ports ≡ 0))
      ⊎ ((port : ℤ) × (claimed : Host) × (claim_host_mpi_port host ≡ ok (port, claimed))
          × (free_ports host.mpi_ports ≡ suc (free_ports claimed.mpi_ports))
          × HasDistinctPorts claimed.mpi_ports
          × (release_host_mpi_port port claimed ≡ ok host))
unfolding claim_host_mpi_port release_host_mpi_port
claim_host_mpi_port_lem host d = elim (claim_port-Claimed host.mpi_ports d) [
  | inl (e, f) ↦ inl (ground (arith, e), f)
  | inr (port, qs, e, h, f, r, dq, same) ↦
      inr (port, record host { mpi_ports = qs }, ground (arith, e), f, dq, ground (arith, r))
]
