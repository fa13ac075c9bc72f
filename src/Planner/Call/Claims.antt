-- ===== src/Planner/Call/Claims.antt =====
-- The loops of `callBatch` that claim and release slots and ports.
pub mod Slots
use faabric.Prelude.{
  ℕ, ◌-◌, Bool, true, false, not, Option, none, some, List, [], ◌∷◌, String, set, name_key,
  same_name, if◌then◌else◌,
}
use faabric.Prelude.Int.{ℤ, pos, int_eq}
use faabric.Prelude.Maps.{insert}
use faabric.Prelude.Results.{Result, throws, ok, ◌>>=◌}
use faabric.Batch.{Message}
use faabric.Scheduler.Decision.{SchedulingDecision, add_message}
use faabric.Planner.{Host, Hosts, PlannerError, assert_failed, missing_key, host_at, change_host}
use faabric.Planner.Slots.{claim_host_slots, release_host_slots}
use faabric.Planner.Ports.{claim_host_mpi_port, release_host_mpi_port}
use faabric.Planner.Call.Prepare.{first_of}

-- The port claimed inside `try`, and the map after that: without a free port the host stays as it is.
unfoldable pub claimed_port : String → Hosts → Result PlannerError (ℤ × Host) → Option ℤ × Hosts
claimed_port ip m (throws e) = (none, m)
claimed_port ip m (ok (port, host)) = (some port, insert ip host m)

-- One slot of the host, and a port if there is one.
unfoldable pub occupy : String → Hosts → Result PlannerError (Option ℤ × Hosts)
unfolding claimed_port
occupy ip m = change_host ip (claim_host_slots 1) m >>= λ claimed.
    (host_at ip claimed >>= λ host. ok (claimed_port ip claimed (claim_host_mpi_port host)))

-- A claimed port takes the place of the port of the decision.
abbrev pub port_or : ℤ → Option ℤ → ℤ
port_or p none = p
port_or p (some port) = port

-- The loop of a new request over the hosts of the decision; `ports` are its ports from there on. Past
-- the end of the ports the write throws, inside `try`.
unfoldable pub claim_all : List String → List ℤ → Hosts → Result PlannerError (List ℤ × Hosts)
unfolding occupy
claim_all [] ports m = ok (ports, m)
claim_all (ip ∷ ips) [] m = occupy ip m >>= λ (port, claimed). claim_all ips [] claimed
claim_all (ip ∷ ips) (p ∷ ps) m = occupy ip m >>= λ (port, claimed).
    (claim_all ips ps claimed >>= λ (ports, all). ok (port_or p port ∷ ports, all))

-- The loop of a request that adds messages: only the slots.
unfoldable pub claim_slots_of : List String → Hosts → Result PlannerError Hosts
claim_slots_of [] m = ok m
claim_slots_of (ip ∷ ips) m = change_host ip (claim_host_slots 1) m >>= claim_slots_of ips

abbrev pub tail : List ℤ → List ℤ
tail [] = []
tail (p ∷ ps) = ps

-- A message that leaves its host gives back the slot and the port.
unfoldable pub release_one : String → String → List ℤ → Hosts → Result PlannerError Hosts
release_one old_host new_host ports m =
    if same_name new_host old_host
    then ok m
    else (change_host old_host (release_host_slots 1) m >>= λ released.
        (first_of ports >>= λ port. change_host old_host (release_host_mpi_port port) released))

-- The first loop of a migration.
unfoldable pub release_moved :
    List String → List String → List ℤ → Hosts → Result PlannerError Hosts
unfolding release_one
release_moved [] new_hosts ports m = ok m
release_moved (old_host ∷ old_hosts) [] ports m = throws missing_key
release_moved (old_host ∷ old_hosts) (new_host ∷ new_hosts) ports m =
    release_one old_host new_host ports m >>= release_moved old_hosts new_hosts (tail ports)

-- A message that comes to a host takes a slot and a port; one that stays keeps its port.
unfoldable pub occupy_one :
    String → String → List ℤ → Hosts → Result PlannerError (Option ℤ × Hosts)
unfolding occupy
occupy_one new_host old_host old_ports m =
    if same_name new_host old_host
    then (first_of old_ports >>= λ port. ok (some port, m))
    else occupy new_host m

-- The second loop of a migration; the vectors of the two decisions are as long as each other. Past the
-- end of the new ports the write throws: inside `try` for a message that moves, and outside for one
-- that stays.
unfoldable pub occupy_moved :
    List String → List String → List ℤ → List ℤ → Hosts → Result PlannerError (List ℤ × Hosts)
unfolding occupy_one
occupy_moved [] old_hosts new_ports old_ports m = ok (new_ports, m)
occupy_moved (new_host ∷ new_hosts) (old_host ∷ old_hosts) (p ∷ ps) old_ports m =
    occupy_one new_host old_host old_ports m >>= λ (port, occupied).
    (occupy_moved new_hosts old_hosts ps (tail old_ports) occupied >>= λ (ports, all).
    ok (port_or p port ∷ ports, all))
occupy_moved (new_host ∷ new_hosts) (old_host ∷ old_hosts) [] old_ports m =
    if same_name new_host old_host
    then throws missing_key
    else (occupy new_host m >>= λ (port, occupied).
        occupy_moved new_hosts old_hosts [] (tail old_ports) occupied)
occupy_moved (new_host ∷ new_hosts) [] new_ports old_ports m = throws missing_key

-- A message that the request adds: its host comes from the decision, and its port too where the slots
-- were claimed before. Here a host without a free port makes the call throw.
unfoldable pub added_port : Bool → String → ℤ → Hosts → Result PlannerError (ℤ × Hosts)
added_port true ip port m = if int_eq port (pos 0) then throws assert_failed else ok (port, m)
added_port false ip port m = host_at ip m >>= λ host.
    (claim_host_mpi_port host >>= λ (claimed, changed). ok (claimed, insert ip changed m))

-- The loop over the messages of the request, which adds them to the old decision.
unfoldable pub add_to_decision :
    Bool
    → List Message
    → List String
    → List ℤ
    → SchedulingDecision
    → Hosts
    → Result PlannerError (SchedulingDecision × Hosts)
unfolding added_port
add_to_decision skip_claim [] hosts ports old_dec m = ok (old_dec, m)
add_to_decision skip_claim (msg ∷ msgs) (ip ∷ hosts) (port ∷ ports) old_dec m =
    added_port skip_claim ip port m >>= λ (p, claimed).
    (let added = add_message ip msg old_dec in
      add_to_decision skip_claim msgs hosts ports
        (record added { mpi_ports = set added.mpi_ports (added.n_functions - 1) p }) claimed)
add_to_decision skip_claim (msg ∷ msgs) hosts ports old_dec m = throws missing_key
