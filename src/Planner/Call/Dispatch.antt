-- ===== src/Planner/Call/Dispatch.antt =====
-- `dispatchSchedulingDecision` and `callBatch` of src/planner/Planner.cpp. The snapshots that are
-- pushed before a request is sent are left out.
use faabric.Prelude.{
  ℕ, Bool, ◌&&◌, Option, none, some, List, [], ◌∷◌, ◌++◌, String, length, ◌==◌, if◌then◌else◌,
  name_key,
}
use faabric.Prelude.Int.{ℤ, int_eq, int_key, to_u32, to_i32}
use faabric.Prelude.Maps.{Map, lookup, insert}
use faabric.Prelude.Results.{Result, throws, ok, ◌>>=◌}
use faabric.Batch.{
  Message, BatchExecuteRequest, is_batch_exec_request_valid, update_batch_exec_group_id,
}
use faabric.Scheduler.Decision.{SchedulingDecision, Error, is_single_host}
use faabric.Scheduler.Hosts.{HostMap, InFlightReqs, DecisionType, get_decision_type}
use faabric.Planner.{PlannerState, PlannerError, assert_failed}
use faabric.Planner.Call.{Sent, Called, execute_functions, convert_to_batch_sched_host_map}
use faabric.Planner.Call.Prepare.{set_owed_aside}
use faabric.Planner.Call.Choose.{
  prepare_request, first_is_omp, choose_decision, refusal, is_dist_change,
}
use faabric.Planner.Call.Place.{place, un_freeze, fixed_size_preloaded_decision_group_id}

-- The request for one host, without messages.
unfoldable pub host_request :
    BatchExecuteRequest → SchedulingDecision → Message → BatchExecuteRequest
host_request req d msg = record {
  app_id = to_i32 d.app_id;
  group_id = d.group_id;
  user = msg.user;
  function = msg.function;
  type = req.type;
  messages = [];
  sub_type = req.sub_type;
  single_host_hint = req.single_host_hint;
  elastic_scale_hint = req.elastic_scale_hint;
  context_data = req.context_data;
  single_host = is_single_host d;
  snapshot_key = req.snapshot_key;
}

-- `hostRequests[host]`, which a first message for the host makes.
unfoldable pub request_at :
    BatchExecuteRequest
    → SchedulingDecision
    → Message
    → Option BatchExecuteRequest
    → BatchExecuteRequest
unfolding host_request
request_at req d msg none = host_request req d msg
request_at req d msg (some r) = r

-- The loop over the messages and their hosts.
unfoldable pub host_requests :
    BatchExecuteRequest
    → SchedulingDecision
    → List Message
    → List String
    → Map String BatchExecuteRequest
    → Map String BatchExecuteRequest
unfolding request_at
host_requests req d (msg ∷ msgs) (host ∷ hosts) m =
    let r = request_at req d msg (lookup host m) in
    host_requests req d msgs hosts (insert host (record r { messages = r.messages ++ msg ∷ [] }) m)
host_requests req d msgs hosts m = m

-- The loop over the requests of the hosts; each must be valid.
unfoldable pub send_requests : Map String BatchExecuteRequest → Result PlannerError (List Sent)
send_requests [] = ok []
send_requests ((host, r) ∷ m) =
    let rest = send_requests m in
    if is_batch_exec_request_valid r
    then (rest >>= λ sent. ok (execute_functions host r ∷ sent))
    else throws assert_failed

unfoldable pub dispatch_scheduling_decision :
    BatchExecuteRequest → SchedulingDecision → Result PlannerError (List Sent)
unfolding host_requests send_requests
dispatch_scheduling_decision req d =
    if length req.messages == length d.hosts
    then send_requests (host_requests req d req.messages d.hosts [])
    else throws assert_failed

-- The asserts before the dispatch.
unfoldable pub is_consistent : BatchExecuteRequest → SchedulingDecision → Bool
is_consistent req d =
    length req.messages == length d.hosts
    && to_u32 req.app_id == d.app_id
    && int_eq req.group_id d.group_id

-- The end of `callBatch`: the state is placed, and new messages are sent to their hosts.
unfoldable pub dispatch_called :
    DecisionType → BatchExecuteRequest → Called → Result PlannerError Called
unfolding dispatch_scheduling_decision is_consistent
dispatch_called kind req c =
    if is_consistent req c.decision
    then (if is_dist_change kind
        then ok c
        else (dispatch_scheduling_decision req c.decision >>= λ sent.
            ok (record c { sent = c.sent ++ sent })))
    else throws assert_failed

-- From a decision on: it is refused, or placed under the new group id.
unfoldable pub accept :
    ℤ
    → DecisionType
    → BatchExecuteRequest
    → SchedulingDecision
    → Bool
    → PlannerState
    → Option (SchedulingDecision × PlannerState)
    → Result PlannerError Called
unfolding un_freeze place update_batch_exec_group_id dispatch_called
accept group_id kind req d is_known s (some (e, t)) =
    ok (record { decision = e; state = t; sent = [] })
accept group_id kind req d is_known s none = un_freeze kind req s >>= λ (thawed, t).
    (place kind is_known (int_eq d.group_id fixed_size_preloaded_decision_group_id) group_id
        (update_batch_exec_group_id thawed group_id) (record d { group_id = group_id }) t
      >>= dispatch_called kind (update_batch_exec_group_id thawed group_id))

-- `callBatch` once there is a decision.
unfoldable pub call_decided :
    {W : Type 0}
    → ℤ
    → DecisionType
    → BatchExecuteRequest
    → SchedulingDecision × Bool × PlannerState × W
    → Result PlannerError (Called × W)
unfolding refusal accept
call_decided group_id kind req (d, is_known, t, w) =
    refusal d req t >>= accept group_id kind req d is_known t >>= λ called. ok (called, w)

-- The host map that the scheduler may fill.
unfoldable pub scheduler_hosts : BatchExecuteRequest → PlannerState → Result PlannerError HostMap
unfolding set_owed_aside
scheduler_hosts req s =
    let host_map = convert_to_batch_sched_host_map s.host_map s.next_evicted_host_ips in
    if first_is_omp req.messages
    then set_owed_aside req.app_id s.in_flight_reqs host_map
    else ok host_map

-- `callBatch` for this type of decision, with the request prepared.
unfoldable pub call_prepared :
    {W : Type 0}
    → (HostMap → InFlightReqs → BatchExecuteRequest → W → Result Error (SchedulingDecision × W))
    → ℤ
    → DecisionType
    → PlannerState
    → W
    → BatchExecuteRequest
    → Result PlannerError (Called × W)
unfolding scheduler_hosts choose_decision call_decided
call_prepared make group_id kind s w req = scheduler_hosts req s >>= λ hosts.
    (choose_decision (make hosts s.in_flight_reqs) kind req s w >>= call_decided group_id kind req)

-- `callBatch`: `make` is `makeSchedulingDecision` of the scheduler, which keeps a state of its own; the
-- ids that `generateGid` draws are `gids` for new messages and `group_id` for the group.
unfoldable pub call_batch :
    {W : Type 0}
    → (HostMap → InFlightReqs → BatchExecuteRequest → W → Result Error (SchedulingDecision × W))
    → (ℕ → ℤ)
    → ℤ
    → BatchExecuteRequest
    → PlannerState
    → W
    → Result PlannerError (Called × W)
unfolding prepare_request call_prepared
call_batch make gids group_id req s w =
    let kind = get_decision_type s.in_flight_reqs req in
    prepare_request gids kind req s >>= call_prepared make group_id kind s w
