-- ===== src/Planner/Call/Place.antt =====
-- What `callBatch` does to the state once there is a placement: a frozen app thaws, and each type of
-- decision changes the hosts and the requests in flight.
use faabric.Prelude.{
  ◌+◌, Bool, true, false, ◌&&◌, not, none, some, List, [], ◌∷◌, ◌++◌, String, map, length, drop,
  ◌==◌, if◌then◌else◌, name_key, same_name,
}
use faabric.Prelude.Int.{ℤ, pos, negsuc, int_eq, int_key}
use faabric.Prelude.Maps.{lookup, insert, erase}
use faabric.Prelude.Results.{Result, throws, ok, ◌>>=◌}
use faabric.Batch.{Message, BatchExecuteRequest, update_batch_exec_group_id}
use faabric.Scheduler.Decision.{SchedulingDecision, remove_message, insert_all}
use faabric.Scheduler.Hosts.{DecisionType, new, scale_change, dist_change}
use faabric.Planner.{
  PlannerState, PlannerError, assert_failed, missing_key, unrecognised_decision_type,
}
use faabric.Planner.Results.{lift}
use faabric.Planner.Call.{Called, set_and_send_mappings, send_mappings}
use faabric.Planner.Call.Prepare.{first_of}
use faabric.Planner.Call.Choose.{is_new, is_dist_change, first_is_mpi}
use faabric.Planner.Call.Claims.{
  claim_all, claim_slots_of, release_moved, occupy_moved, add_to_decision,
}

abbrev pub fixed_size_preloaded_decision_group_id : ℤ
fixed_size_preloaded_decision_group_id = negsuc 98

-- The first evicted message with the group index gives its id and what the restore needs.
unfoldable pub amend_message : List Message → Message → Message
amend_message [] msg = msg
amend_message (frozen ∷ rest) msg =
    let other = amend_message rest msg in
    if int_eq msg.group_idx frozen.group_idx
    then record msg {
      id = frozen.id;
      func_ptr = frozen.func_ptr;
      input_data = frozen.input_data;
      snapshot_key = frozen.snapshot_key;
    }
    else other

-- The assert on the size of the second step, with `int`s.
abbrev pub is_rest_of_world : List Message → Message → Bool
is_rest_of_world msgs msg = int_eq (pos (length msgs + 1)) msg.mpi_world_size

unfoldable pub thaw :
    DecisionType
    → BatchExecuteRequest
    → BatchExecuteRequest
    → PlannerState
    → Result PlannerError (BatchExecuteRequest × PlannerState)
unfolding first_of amend_message
thaw kind req evicted s =
    if is_new kind && first_is_mpi req.messages
    then (first_of req.messages >>= λ msg. ok (record req { messages = msg ∷ [] }, s))
    else if first_is_mpi req.messages && not (is_dist_change kind)
    then (first_of req.messages >>= λ msg.
        if is_rest_of_world req.messages msg
        then ok (
          record req { messages = map (amend_message (drop 1 evicted.messages)) req.messages },
          record s { evicted_requests = erase req.app_id s.evicted_requests },
        )
        else throws assert_failed)
    else ok (req, s)

-- A frozen app that got a placement.
unfoldable pub un_freeze :
    DecisionType
    → BatchExecuteRequest
    → PlannerState
    → Result PlannerError (BatchExecuteRequest × PlannerState)
unfolding thaw
un_freeze kind req s = elim (lookup req.app_id s.evicted_requests) [
  | none ↦ ok (req, s)
  | some evicted ↦ thaw kind req evicted s
]

unfoldable pub remove_messages :
    List ℤ → SchedulingDecision → Result PlannerError SchedulingDecision
remove_messages [] d = ok d
remove_messages (id ∷ ids) d =
    lift (remove_message id d) >>= λ (port, smaller). remove_messages ids smaller

-- A decision for the known size is kept for later, and all but its first message leave it.
unfoldable pub keep_for_later :
    Bool
    → ℤ
    → SchedulingDecision
    → PlannerState
    → Result PlannerError (SchedulingDecision × PlannerState)
unfolding remove_messages
keep_for_later false app_id d s = ok (d, s)
keep_for_later true app_id d s = remove_messages (drop 1 d.message_ids) d >>= λ smaller. ok (
  smaller,
  record s {
    preloaded_scheduling_decisions =
        insert app_id (record d { group_id = fixed_size_preloaded_decision_group_id })
          s.preloaded_scheduling_decisions;
  },
)

-- The case of a new request.
unfoldable pub place_new :
    Bool → BatchExecuteRequest → SchedulingDecision → PlannerState → Result PlannerError Called
unfolding claim_all keep_for_later
place_new is_known req d s = claim_all d.hosts d.mpi_ports s.host_map >>= λ (ports, hosts).
    if length d.hosts == length ports
    then (keep_for_later is_known req.app_id (record d { mpi_ports = ports })
          (record s { host_map = hosts })
        >>= λ (e, t). ok (record {
          decision = e;
          state = record t { in_flight_reqs = insert req.app_id (req, e) t.in_flight_reqs };
          sent = set_and_send_mappings e ∷ [];
        }))
    else throws assert_failed

-- The case of a request that adds messages to the app `old_req`.
unfoldable pub place_grown :
    Bool
    → ℤ
    → BatchExecuteRequest
    → SchedulingDecision
    → BatchExecuteRequest
    → SchedulingDecision
    → PlannerState
    → Result PlannerError Called
unfolding claim_slots_of add_to_decision update_batch_exec_group_id
place_grown skip_claim group_id req d old_req old_dec s =
    (if skip_claim then ok s.host_map else claim_slots_of d.hosts s.host_map)
    >>= (λ claimed.
        add_to_decision skip_claim req.messages d.hosts d.mpi_ports
          (record old_dec { group_id = group_id }) claimed)
    >>= λ (grown, hosts). ok (record {
      decision = d;
      state = record s {
        host_map = hosts;
        in_flight_reqs =
            insert req.app_id
              (
                record (update_batch_exec_group_id old_req group_id) {
                  messages = (update_batch_exec_group_id old_req group_id).messages ++ req.messages;
                },
                grown,
              )
              s.in_flight_reqs;
      };
      sent = set_and_send_mappings grown ∷ [];
    })

-- `std::set_difference` of the two lists when sorted: each new host takes one old host of its name away.
unfoldable pub take_away : String → List String → List String
take_away h [] = []
take_away h (x ∷ xs) = let rest = take_away h xs in if same_name x h then xs else x ∷ rest

unfoldable pub hosts_left : List String → List String → List String
unfolding take_away
hosts_left old_hosts [] = old_hosts
hosts_left old_hosts (h ∷ new_hosts) = hosts_left (take_away h old_hosts) new_hosts

abbrev evicted_hosts : List String → List String → List String
evicted_hosts old_hosts new_hosts = map (λ e. e.0) (insert_all (hosts_left old_hosts new_hosts) [])

-- The case of a migration.
unfoldable pub place_moved :
    ℤ
    → BatchExecuteRequest
    → SchedulingDecision
    → BatchExecuteRequest
    → SchedulingDecision
    → PlannerState
    → Result PlannerError Called
unfolding release_moved occupy_moved update_batch_exec_group_id hosts_left
place_moved group_id req d old_req old_dec s =
    if length d.hosts == length old_dec.hosts
    then (release_moved old_dec.hosts d.hosts old_dec.mpi_ports s.host_map
        >>= (λ released. occupy_moved d.hosts old_dec.hosts d.mpi_ports old_dec.mpi_ports released)
        >>= λ (ports, hosts). ok (record {
          decision = record d { mpi_ports = ports };
          state = record s {
            host_map = hosts;
            num_migrations = s.num_migrations + 1;
            in_flight_reqs =
                insert req.app_id
                  (update_batch_exec_group_id old_req group_id, record d { mpi_ports = ports })
                  s.in_flight_reqs;
          };
          sent =
              set_and_send_mappings (record d { mpi_ports = ports })
              ∷ send_mappings (record d { mpi_ports = ports }) (evicted_hosts old_dec.hosts d.hosts)
              ∷ [];
        }))
    else throws assert_failed

-- The switch on the type of the decision; `in_flight.at(app)` in the last two cases.
unfoldable pub place :
    DecisionType
    → Bool
    → Bool
    → ℤ
    → BatchExecuteRequest
    → SchedulingDecision
    → PlannerState
    → Result PlannerError Called
unfolding place_new place_grown place_moved
place new is_known skip_claim group_id req d s = place_new is_known req d s
place scale_change is_known skip_claim group_id req d s =
    elim (lookup req.app_id s.in_flight_reqs) [
      | none ↦ throws missing_key
      | some (old_req, old_dec) ↦ place_grown skip_claim group_id req d old_req old_dec s
    ]
place dist_change is_known skip_claim group_id req d s = elim (lookup req.app_id s.in_flight_reqs) [
  | none ↦ throws missing_key
  | some (old_req, old_dec) ↦ place_moved group_id req d old_req old_dec s
]
place other is_known skip_claim group_id req d s = throws unrecognised_decision_type
