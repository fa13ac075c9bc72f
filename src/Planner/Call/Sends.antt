-- ===== src/Planner/Call/Sends.antt =====
-- What `dispatchSchedulingDecision` sends to which host.
use mathlib.Core.List.{append-nil, append_assoc}
use faabric.Prelude.{
  ◌≡◌, refl, sym, ◌∙◌, ap, Option, none, some, List, [], ◌∷◌, ◌++◌, String, arith, if◌then◌else◌,
  name_key, same_name, same_name_iff, Bool-cases, map, length, ◌==◌, inl, inr,
}
use faabric.Prelude.Maps.{Map, lookup, insert, lookup-insert}
use faabric.Prelude.Maps.Entries.{IsMapOf, insert-IsMapOf}
use faabric.Prelude.Results.{throws, ok, Ensures, Ensures-ok, Ensures-if, Ensures-bind}
use faabric.Batch.{Message, BatchExecuteRequest, is_batch_exec_request_valid}
use faabric.Planner.{PlannerError, assert_failed}
use faabric.Planner.Call.{Sent, execute_functions}
use faabric.Scheduler.Decision.{SchedulingDecision}
use faabric.Planner.Call.Dispatch.{
  host_requests, request_at, host_request, send_requests, dispatch_scheduling_decision,
}

-- The messages whose host is `ip`.
unfoldable pub messages_for : String → List Message → List String → List Message
messages_for ip (msg ∷ msgs) (host ∷ hosts) =
    let rest = messages_for ip msgs hosts in if same_name host ip then msg ∷ rest else rest
messages_for ip msgs hosts = []

-- The messages of the request for a host.
unfoldable pub messages_at : String → Map String BatchExecuteRequest → List Message
messages_at ip m = elim (lookup ip m) [ none ↦ [] | some r ↦ r.messages ]

messages_at-insert :
    (host ip : String) (r : BatchExecuteRequest) (m : Map String BatchExecuteRequest)
    → messages_at ip (insert host r m)
      ≡ (if same_name host ip then r.messages else messages_at ip m)
unfolding messages_at
messages_at-insert host ip r m = ground (arith, lookup-insert host ip r m)

request_at-messages :
    (req : BatchExecuteRequest) (d : SchedulingDecision) (msg : Message) (host : String)
    (m : Map String BatchExecuteRequest)
    → (request_at req d msg (lookup host m)).messages ≡ messages_at host m
unfolding messages_at request_at host_request
request_at-messages req d msg host m = by_lookup (lookup host m)
  where
    by_lookup :
        (o : Option BatchExecuteRequest)
        → (request_at req d msg o).messages ≡ (elim o [ none ↦ [] | some r ↦ r.messages ])
    by_lookup none = refl
    by_lookup (some r) = refl

-- The requests that the hosts get: added to those that are there, each host gets the messages of its
-- places in the decision, in the order of the request.
pub host_requests_lem :
    (req : BatchExecuteRequest) (d : SchedulingDecision) (msgs : List Message) (hosts : List String)
    (m : Map String BatchExecuteRequest) (ip : String)
    → messages_at ip (host_requests req d msgs hosts m)
      ≡ messages_at ip m ++ messages_for ip msgs hosts
unfolding host_requests messages_for
host_requests_lem req d [] hosts m ip = sym (append-nil (messages_at ip m))
host_requests_lem req d (msg ∷ msgs) [] m ip = sym (append-nil (messages_at ip m))
host_requests_lem req d (msg ∷ msgs) (host ∷ hosts) m ip =
    host_requests_lem req d msgs hosts
      (insert host (record r { messages = r.messages ++ msg ∷ [] }) m) ip
    ∙ ap (λ ms. ms ++ messages_for ip msgs hosts)
        (messages_at-insert host ip (record r { messages = r.messages ++ msg ∷ [] }) m)
    ∙ here
  where
    r : BatchExecuteRequest
    r = request_at req d msg (lookup host m)

    here :
        (if same_name host ip then r.messages ++ msg ∷ [] else messages_at ip m)
          ++ messages_for ip msgs hosts
        ≡ messages_at ip m
          ++ (if same_name host ip
              then msg ∷ messages_for ip msgs hosts
              else messages_for ip msgs hosts)
    here = elim (Bool-cases (same_name host ip)) [
      | inr other ↦ rw other refl
      | inl same ↦ rw same (
          ap (λ ms. (ms ++ msg ∷ []) ++ messages_for ip msgs hosts)
            (request_at-messages req d msg host m
              ∙ ap (λ h. messages_at h m) ((same_name_iff host ip).0 same))
          ∙ append_assoc (messages_at ip m) (msg ∷ []) (messages_for ip msgs hosts))
    ]

host_requests-IsMapOf :
    (req : BatchExecuteRequest) (d : SchedulingDecision) (msgs : List Message) (hosts : List String)
    (m : Map String BatchExecuteRequest)
    → IsMapOf (λ host r. Unit) m
    → IsMapOf (λ host r. Unit) (host_requests req d msgs hosts m)
unfolding host_requests
host_requests-IsMapOf req d [] hosts m h = h
host_requests-IsMapOf req d (msg ∷ msgs) [] m h = h
host_requests-IsMapOf req d (msg ∷ msgs) (host ∷ hosts) m h =
    host_requests-IsMapOf req d msgs hosts _
      (insert-IsMapOf (λ host r. Unit) host (record r { messages = r.messages ++ msg ∷ [] }) m h tt)
  where
    r : BatchExecuteRequest
    r = request_at req d msg (lookup host m)

sent_of : Map String BatchExecuteRequest → List Sent
sent_of m = map (λ e. execute_functions e.0 e.1) m

send_requests-sent_of :
    (m : Map String BatchExecuteRequest) → Ensures (λ sent. sent ≡ sent_of m) (send_requests m)
unfolding send_requests Ensures sent_of
send_requests-sent_of [] = refl
send_requests-sent_of ((host, r) ∷ m) =
    Ensures-if (λ sent. sent ≡ sent_of ((host, r) ∷ m)) (is_batch_exec_request_valid r) _ _
      (λ valid.
        Ensures-bind (λ sent. sent ≡ sent_of m) (λ sent. sent ≡ sent_of ((host, r) ∷ m))
          (send_requests m) _ (send_requests-sent_of m)
          (λ sent e. ap (λ s. execute_functions host r ∷ s) e))
      (λ bad. tt)

-- When dispatchSchedulingDecision does not fail, what it sends are the requests of a map, one to each of
-- its hosts, and the messages of the request for a host are those whose place in the decision names this
-- host, in the order of the request; a host without a request has no such message.
pub dispatch_scheduling_decision_lem :
    (req : BatchExecuteRequest) (d : SchedulingDecision) (sent : List Sent)
    → dispatch_scheduling_decision req d ≡ ok sent
    → (m : Map String BatchExecuteRequest) × (sent ≡ map (λ e. execute_functions e.0 e.1) m)
      × IsMapOf (λ host r. Unit) m
      × ((ip : String) → messages_at ip m ≡ messages_for ip req.messages d.hosts)
unfolding dispatch_scheduling_decision sent_of messages_at lookup Ensures IsMapOf
dispatch_scheduling_decision_lem req d sent run = (
  all,
  Ensures-ok (λ s. s ≡ sent_of all) (dispatch_scheduling_decision req d) sent
      (Ensures-if (λ s. s ≡ sent_of all) (length req.messages == length d.hosts) (send_requests all)
        (throws assert_failed) (λ e. send_requests-sent_of all) (λ e. fails))
      run,
  host_requests-IsMapOf req d req.messages d.hosts [] tt,
  λ ip. host_requests_lem req d req.messages d.hosts [] ip,
)
  where
    all : Map String BatchExecuteRequest
    all = host_requests req d req.messages d.hosts []

    fails : Ensures {E = PlannerError} (λ s. s ≡ sent_of all) (throws assert_failed)
    fails = tt
