-- ===== src/Planner/Tests/Moves.antt =====
-- Runs of the planner that move and send messages, and a state that it reaches.
use faabric.Prelude.{◌+◌, ◌≡◌, ◌≤◌, refl, true, false, some, List, [], ◌∷◌, String, map, name_key}
use faabric.Prelude.Int.{pos, int_key, to_i32}
use faabric.Prelude.Counts.{count}
use faabric.Prelude.Maps.{Map, lookup, insert}
use faabric.Prelude.Maps.Entries.{IsMapOf}
use faabric.Prelude.Results.{ok}
use faabric.Batch.{
  BatchExecuteRequest, is_batch_exec_request_valid, no_malformed, is_malformed,
  update_batch_exec_group_id,
}
use faabric.Scheduler.Decision.{SchedulingDecision, insert_all, is_single_host}
use faabric.Planner.{Host, PlannerState, change_host}
use faabric.Planner.Slots.{claim_host_slots, release_host_slots}
use faabric.Planner.Ports.{claim_host_mpi_port, claim_port, release_host_mpi_port, release_port}
use faabric.Planner.Ports.Laws.{HasDistinctPorts}
use faabric.Planner.Change.{used_at}
use faabric.Planner.Registry.{register_host, register_slots, registered, new_host, ports_from}
use faabric.Planner.Call.{Called, Sent, execute_functions, set_and_send_mappings, send_mappings}
use faabric.Planner.Call.Prepare.{first_of}
use faabric.Planner.Call.Place.{place_moved}
use faabric.Planner.Call.Moved.{place_moved_lem}
use faabric.Planner.Call.Dispatch.{dispatch_scheduling_decision}
use faabric.Planner.Call.Sends.{messages_at, messages_for, dispatch_scheduling_decision_lem}
use faabric.Planner.Steps.Reach.{here, next, registers, Reach-IsValidHost}
use faabric.Planner.Tests.{
  newcomer, newcomer_request, running, worker, finished_worker, message, request, decision,
  free_port, used_port,
}

-- A host with two free slots.
abbrev spare : Host
spare = record {
  ip = "10.0.0.2";
  slots = 2;
  used_slots = 0;
  register_ts = 1000;
  mpi_ports = free_port 8020 ∷ free_port 8021 ∷ [];
}

abbrev busy_spare : Host
busy_spare = record spare { used_slots = 1; mpi_ports = used_port 8020 ∷ free_port 8021 ∷ [] }

abbrev two_hosts : PlannerState
two_hosts = record running { host_map = ("10.0.0.1", worker) ∷ ("10.0.0.2", spare) ∷ [] }

abbrev old_hosts : List String
old_hosts = "10.0.0.1" ∷ []

abbrev new_hosts : List String
new_hosts = "10.0.0.2" ∷ []

abbrev moved_decision : SchedulingDecision
moved_decision = record decision { group_id = pos 43; hosts = "10.0.0.2" ∷ [] }

abbrev moved : Called
moved = record {
  decision = moved_decision;
  state = record two_hosts {
    host_map = ("10.0.0.1", finished_worker) ∷ ("10.0.0.2", busy_spare) ∷ [];
    num_migrations = 1;
    in_flight_reqs =
        (pos 7, (update_batch_exec_group_id (request (pos 7)) (pos 43), moved_decision)) ∷ [];
  };
  sent = set_and_send_mappings moved_decision ∷ send_mappings moved_decision ("10.0.0.1" ∷ []) ∷ [];
}

move_run :
    place_moved (pos 43) (request (pos 7)) moved_decision (request (pos 7)) decision two_hosts
    ≡ ok moved
unfolding place_moved change_host lookup release_host_slots first_of insert release_host_mpi_port
    release_port claim_host_slots claim_host_mpi_port insert_all claim_port
move_run = refl

place_moved_example :
    ((ip : String)
      → used_at ip moved.state.host_map + count ip old_hosts
        ≡ used_at ip two_hosts.host_map + count ip new_hosts)
    × (moved.decision.hosts ≡ moved_decision.hosts)
    × (lookup (pos 7) moved.state.in_flight_reqs
        ≡ some (update_batch_exec_group_id (request (pos 7)) (pos 43), moved.decision))
place_moved_example =
    place_moved_lem (pos 43) (request (pos 7)) moved_decision (request (pos 7)) decision two_hosts
      moved move_run

abbrev sent_request : BatchExecuteRequest
sent_request = record (request (pos 7)) { group_id = pos 5; single_host = true }

abbrev sent_all : List Sent
sent_all = execute_functions "10.0.0.1" sent_request ∷ []

dispatch_run : dispatch_scheduling_decision (request (pos 7)) decision ≡ ok sent_all
unfolding dispatch_scheduling_decision insert is_batch_exec_request_valid lookup no_malformed
    is_malformed to_i32 is_single_host
dispatch_run = refl

dispatch_example :
    (m : Map String BatchExecuteRequest) × (sent_all ≡ map (λ e. execute_functions e.0 e.1) m)
    × IsMapOf (λ host r. Unit) m
    × ((ip : String) → messages_at ip m ≡ messages_for ip (message (pos 100) "" ∷ []) old_hosts)
dispatch_example = dispatch_scheduling_decision_lem (request (pos 7)) decision sent_all dispatch_run

abbrev empty_planner : PlannerState
empty_planner = record running { host_map = []; in_flight_reqs = [] }

-- The newcomer registers, and asks for a result.
abbrev reached : PlannerState
reached = (register_host 5 2000 2001 newcomer false empty_planner).1

abbrev joined : Host
joined = record {
  ip = "10.0.0.2";
  slots = 4;
  used_slots = 0;
  register_ts = 2001;
  mpi_ports = free_port 8020 ∷ free_port 8021 ∷ free_port 8022 ∷ free_port 8023 ∷ [];
}

reached_host : lookup "10.0.0.2" reached.host_map ≡ some joined
unfolding register_host register_slots registered new_host ports_from lookup insert
reached_host = refl

reach_example :
    (joined.ip ≡ "10.0.0.2")
    × (joined.used_slots ≤ joined.slots)
    × HasDistinctPorts joined.mpi_ports
reach_example =
    Reach-IsValidHost {W = Unit} {start = empty_planner} "10.0.0.2" joined refl
      (next here (registers 5 2000 2001 newcomer false (newcomer_request, refl))) reached_host
