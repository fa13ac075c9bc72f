-- ===== src/Planner/Ports.antt =====
-- `claimHostMpiPort` and `releaseHostMpiPort` of src/planner/Planner.cpp.
pub mod Laws
use faabric.Prelude.{Bool, true, false, Option, none, some, List, [], ◌∷◌, if◌then◌else◌, not}
use faabric.Prelude.Int.{ℤ, int_eq}
use faabric.Prelude.Results.{Result, throws, ok, ◌>>=◌}
use faabric.Planner.{
  Host, MpiPort, PlannerError, assert_failed, ran_out_of_mpi_ports, unavailable_mpi_port,
}

-- The loop of `claimHostMpiPort`: the first port not in use, and the ports after it is marked.
unfoldable pub claim_port : List MpiPort → Option (ℤ × List MpiPort)
claim_port [] = none
claim_port (p ∷ ps) =
    let rest = claim_port ps in
    if not p.used
    then some (p.port, record p { used = true } ∷ ps)
    else (elim rest [ none ↦ none | some (port, qs) ↦ some (port, p ∷ qs) ])

unfoldable pub claim_host_mpi_port : Host → Result PlannerError (ℤ × Host)
claim_host_mpi_port host = elim (claim_port host.mpi_ports) [
  | none ↦ throws ran_out_of_mpi_ports
  | some (port, ports) ↦ ok (port, record host { mpi_ports = ports })
]

-- The loop of `releaseHostMpiPort`: the first port with this number must be in use.
unfoldable pub release_port : ℤ → List MpiPort → Result PlannerError (List MpiPort)
release_port mpi_port [] = throws unavailable_mpi_port
release_port mpi_port (p ∷ ps) =
    let rest = release_port mpi_port ps in
    if int_eq p.port mpi_port
    then (if p.used then ok (record p { used = false } ∷ ps) else throws assert_failed)
    else (rest >>= λ qs. ok (p ∷ qs))

unfoldable pub release_host_mpi_port : ℤ → Host → Result PlannerError Host
release_host_mpi_port mpi_port host =
    release_port mpi_port host.mpi_ports >>= λ ports. ok (record host { mpi_ports = ports })
