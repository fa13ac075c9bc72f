-- ===== src/Planner/Tests.antt =====
-- Runs of the planner.
mod Moves
mod Polls
mod Turns
use faabric.Prelude.{
  ℕ, suc, ◌+◌, ◌*◌, ◌≡◌, ◌≢◌, ◌≤◌, ◌⊎◌, refl, true, false, none, some, List, [], ◌∷◌, String, arith,
  map, length, leb, if◌then◌else◌, name_key,
}
use faabric.Prelude.Int.{ℤ, pos, int_key}
use faabric.Prelude.Counts.{count}
use faabric.Prelude.Maps.{lookup, insert, erase}
use faabric.Prelude.Maps.Entries.{IsMapOf}
use faabric.Prelude.Results.{throws, ok}
use faabric.Batch.{Message, BatchExecuteRequest, functions}
use faabric.Scheduler.Decision.{SchedulingDecision, remove_message, find_index}
use faabric.Rpc.{RpcDependencyGraph}
use faabric.Planner.{
  Host, Hosts, MpiPort, PlannerState, ServiceEndpoint, ran_out_of_mpi_ports, change_host, host_at,
}
use faabric.Planner.Slots.{release_host_slots}
use faabric.Planner.Ports.{claim_host_mpi_port, release_host_mpi_port, release_port}
use faabric.Planner.Ports.Laws.{free_ports, has_port, HasDistinctPorts, claim_host_mpi_port_lem}
use faabric.Planner.Registry.{HostIn, get_available_hosts, register_host, registered, remove_host}
use faabric.Planner.Registry.Laws.{
  IsValidHosts, HasDistinctKeys, get_available_hosts_lem, keep_live,
}
use faabric.Planner.Registry.Valid.{register_host-IsValidHosts, get_available_hosts-register_host}
use faabric.Planner.Change.{used_at}
use faabric.Planner.Results.{
  set_message_result, poll_result, waiters_of, results_of, release_once, store_result,
  remove_in_flight, leave_flight, put_back, take_out, notify_waiters,
}
use faabric.Planner.Results.Laws.{ReleasesOnce, set_message_result_lem}
use faabric.Planner.Services.{
  endpoints_of, local_endpoints, discover_service, notify_service_ready, notify_service_stopped,
}
use faabric.Planner.Services.Laws.{
  instances, instances_on, discover_service_lem, notify_service_ready_lem,
  notify_service_stopped_lem,
}
use faabric.Planner.Call.Claims.{claim_all}
use faabric.Planner.Call.Claims.Slots.{IsClaimed, claim_all_lem, free_at}

abbrev pub free_port : ℕ → MpiPort
free_port n = record { port = pos n; used = false }

abbrev pub used_port : ℕ → MpiPort
used_port n = record { port = pos n; used = true }

-- Three slots, one of them used.
abbrev pub worker : Host
worker = record {
  ip = "10.0.0.1";
  slots = 3;
  used_slots = 1;
  register_ts = 1000;
  mpi_ports = used_port 8020 ∷ free_port 8021 ∷ free_port 8022 ∷ [];
}

worker_ports : HasDistinctPorts worker.mpi_ports
unfolding HasDistinctPorts has_port
worker_ports = (refl, (refl, (refl, tt)))

abbrev pub message : ℤ → String → Message
message id main_host = record {
  id = id;
  app_id = pos 7;
  app_idx = pos 0;
  user = "demo";
  function = "echo";
  return_value = pos 0;
  group_id = pos 5;
  group_idx = pos 0;
  is_mpi = false;
  is_omp = false;
  is_rpc = false;
  is_long_running = false;
  executed_host = "10.0.0.1";
  main_host = main_host;
  func_ptr = pos 0;
  input_data = "";
  snapshot_key = "";
  mpi_world_size = pos 0;
  omp_num_threads = pos 0;
}

abbrev pub request : ℤ → BatchExecuteRequest
request app_id = record {
  app_id = app_id;
  group_id = pos 0;
  user = "demo";
  function = "echo";
  type = functions;
  messages = message (pos 100) "" ∷ [];
  sub_type = pos 0;
  single_host_hint = false;
  elastic_scale_hint = false;
  context_data = "";
  single_host = false;
  snapshot_key = "";
}

abbrev pub decision : SchedulingDecision
decision = record {
  app_id = 7;
  group_id = pos 5;
  n_functions = 1;
  hosts = "10.0.0.1" ∷ [];
  message_ids = pos 100 ∷ [];
  app_idxs = pos 0 ∷ [];
  group_idxs = pos 0 ∷ [];
  mpi_ports = pos 8020 ∷ [];
  return_host = "";
}

-- The app runs one message on the worker.
abbrev pub running : PlannerState
running = record {
  policy = "bin-pack";
  host_map = ("10.0.0.1", worker) ∷ [];
  app_results = [];
  app_result_waiters = [];
  in_flight_reqs = (pos 7, (request (pos 7), decision)) ∷ [];
  preloaded_scheduling_decisions = [];
  num_migrations = 0;
  evicted_requests = [];
  next_evicted_host_ips = [];
  ready_services = [];
  service_rr_counter = [];
}

running_valid : IsValidHosts running.host_map
unfolding IsMapOf lookup
running_valid = (refl, record { named = refl; within = omega arith; distinct = worker_ports }, tt)

claim_port_example :
    ((claim_host_mpi_port worker ≡ throws ran_out_of_mpi_ports) × (free_ports worker.mpi_ports ≡ 0))
    ⊎ ((port : ℤ) × (claimed : Host) × (claim_host_mpi_port worker ≡ ok (port, claimed))
        × (free_ports worker.mpi_ports ≡ suc (free_ports claimed.mpi_ports))
        × HasDistinctPorts claimed.mpi_ports
        × (release_host_mpi_port port claimed ≡ ok worker))
claim_port_example = claim_host_mpi_port_lem worker worker_ports

running_keys : HasDistinctKeys running.host_map
unfolding IsMapOf lookup
running_keys = (refl, tt, tt)

available_example :
    ((get_available_hosts 5 7000 running).0
      ≡ map (λ e. e.1) (get_available_hosts 5 7000 running).1.host_map)
    × ((ip : String)
        → lookup ip (get_available_hosts 5 7000 running).1.host_map
          ≡ keep_live 5 7000 (lookup ip running.host_map))
available_example = get_available_hosts_lem 5 7000 running running_keys

abbrev pub newcomer : HostIn
newcomer = record {
  ip = "10.0.0.2";
  slots = pos 4;
  used_slots = 0;
  register_ts = 0;
  mpi_ports = [];
}

pub newcomer_request : (slots : ℕ) → newcomer.slots ≡ pos slots → 0 ≤ slots
newcomer_request slots e = omega arith

register_example :
    IsValidHosts (register_host 5 2000 2001 newcomer false running).1.host_map
    × IsValidHosts (remove_host "10.0.0.1" running).host_map
register_example =
    register_host-IsValidHosts 5 2000 2001 newcomer false "10.0.0.1" running
      (newcomer_request, refl) running_valid

keep_alive_example :
    lookup "10.0.0.2"
      (get_available_hosts 5 6000 (register_host 5 2000 2001 newcomer false running).1).1.host_map
    ≡ (if leb 6000 (5 * 1000 + 2001)
        then some
            (record (registered 5 2000 false 4 newcomer (lookup "10.0.0.2" running.host_map)) {
              register_ts = 2001;
            })
        else none)
keep_alive_example =
    get_available_hosts-register_host 5 2000 2001 6000 4 newcomer false running refl running_keys

claim_all_example :
    (ports' : List ℤ) × (m' : Hosts) × (claim_all ("10.0.0.1" ∷ []) (pos 0 ∷ []) running.host_map
      ≡ ok (ports', m'))
    × (length ports' ≡ 1)
    × IsClaimed ("10.0.0.1" ∷ []) running.host_map m'
unfolding count free_at lookup
claim_all_example =
    claim_all_lem ("10.0.0.1" ∷ []) (pos 0 ∷ []) running.host_map refl running_valid one_slot
  where
    one_slot : (ip : String) → count ip ("10.0.0.1" ∷ []) ≤ free_at ip running.host_map
    one_slot ip = ground arith

abbrev pub finished_worker : Host
finished_worker = record worker {
  used_slots = 0;
  mpi_ports = free_port 8020 ∷ free_port 8021 ∷ free_port 8022 ∷ [];
}

-- The message is done.
abbrev pub finished : List (ℤ × List String) → PlannerState
finished waiters = record running {
  host_map = ("10.0.0.1", finished_worker) ∷ [];
  app_results = (pos 7, (pos 100, message (pos 100) "") ∷ []) ∷ [];
  app_result_waiters = waiters;
  in_flight_reqs = [];
}

abbrev pub waited : List (ℤ × List String)
waited = (pos 100, "10.0.0.9" ∷ []) ∷ []

abbrev pub running_waited : PlannerState
running_waited = record running { app_result_waiters = waited }

abbrev pub told : List (String × Message)
told = ("10.0.0.9", message (pos 100) "") ∷ []

abbrev caller : String
caller = "10.0.0.1"

pub finish_run :
    set_message_result (message (pos 100) "") running_waited
    ≡ ok (finished waited, ("10.0.0.9", message (pos 100) "") ∷ [])
unfolding set_message_result release_once store_result remove_in_flight leave_flight put_back
    take_out notify_waiters waiters_of results_of change_host host_at release_host_slots
    release_host_mpi_port release_port lookup insert erase remove_message find_index
finish_run = refl

set_result_example :
    (poll_result (message (pos 100) "") (finished waited) ≡ some (message (pos 100) ""))
    × (told ≡ map (λ host. (host, message (pos 100) "")) (waiters_of (pos 100) waited))
    × ReleasesOnce
        (message (pos 100) "")
        running_waited.host_map
        (poll_result (message (pos 100) "") running_waited)
        (finished waited).host_map
set_result_example =
    set_message_result_lem (message (pos 100) "") running_waited (finished waited)
      (("10.0.0.9", message (pos 100) "") ∷ []) refl refl finish_run

abbrev no_calls : RpcDependencyGraph
no_calls = record { placement = []; edges = []; last_recommended_at = [] }

abbrev pub echo_on : String → ServiceEndpoint
echo_on host = record { service_name = "echo"; host = host; app_id = pos 7; message_id = pos 100 }

abbrev serving : PlannerState
serving = record running { ready_services = ("echo", echo_on "10.0.0.1" ∷ []) ∷ [] }

discover_example :
    (e : ServiceEndpoint) × ((discover_service "echo" "10.0.0.1" serving).0 ≡ some e)
    × (caller ≢ ""
        → local_endpoints "10.0.0.1" (endpoints_of "echo" serving.ready_services) ≢ []
        → e.host ≡ "10.0.0.1")
unfolding endpoints_of lookup
discover_example = discover_service_lem "echo" "10.0.0.1" serving one_endpoint
  where
    one_endpoint : (echo_on "10.0.0.1" ∷ []) ≢ []
    one_endpoint e = cc

ready_example :
    (instances (pos 7) (pos 100) (
        endpoints_of "echo"
          (notify_service_ready "echo" "10.0.0.2"
            (pos 7)
            (pos 100)
            serving
            no_calls).0.ready_services)
      ≡ 1)
    × (instances_on "10.0.0.2" (pos 7) (pos 100) (
          endpoints_of "echo"
            (notify_service_ready "echo" "10.0.0.2"
              (pos 7)
              (pos 100)
              serving
              no_calls).0.ready_services)
        ≡ 1)
unfolding instances endpoints_of lookup
ready_example =
    notify_service_ready_lem "echo" "10.0.0.2" (pos 7) (pos 100) serving no_calls (omega arith)

stopped_example :
    instances (pos 7) (pos 100) (
      endpoints_of "echo"
        (notify_service_stopped "echo" (pos 7) (pos 100) serving no_calls).0.ready_services)
    ≡ 0
stopped_example = notify_service_stopped_lem "echo" (pos 7) (pos 100) serving no_calls

abbrev pub gids : ℕ → ℤ
gids n = pos (1000 + n)
