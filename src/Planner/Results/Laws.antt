-- ===== src/Planner/Results/Laws.antt =====
-- What setting a result does to the results, the waiting hosts and the slots.
use faabric.Prelude.{
  ◌+◌, ◌≡◌, refl, ◌∙◌, ap, false, not, Option, none, some, List, [], String, map, arith,
  if◌then◌else◌, name_key, same_name, ◌==◌, length, ◌||◌,
}
use faabric.Prelude.Int.{ℤ, int_key}
use faabric.Prelude.Maps.{Map, lookup, contains, insert}
use faabric.Prelude.Maps.Entries.{lookup-insert_same}
use faabric.Prelude.Results.{
  Result, throws, ok, ◌>>=◌, Ensures, Ensures-bind, Ensures-ok, Ensures-any, Ensures-if,
  Ensures-option, Ensures-map,
}
use faabric.Batch.{Message, BatchExecuteRequest}
use faabric.Scheduler.Decision.{SchedulingDecision, remove_message}
use faabric.Planner.{PlannerState, PlannerError, AppResults, Host, MpiPort, Hosts, change_host}
use faabric.Planner.Slots.{release_host_slots}
use faabric.Planner.Ports.{release_host_mpi_port, release_port}
use faabric.Planner.Change.{used_at, used_at-release, used_at-keeps}
use faabric.Planner.Results.{
  set_message_result, release_once, store_result, remove_in_flight, leave_flight, put_back,
  notify_waiters, waiters_of, results_of, poll_result, is_migrated_msg, is_frozen_msg, lift,
  take_out, is_empty_decision,
}

-- The results and the waiting hosts are the same, and each host has the same used slots.
abbrev IsQuiet : PlannerState → PlannerState → Type 0
IsQuiet s t =
    (t.app_results ≡ s.app_results)
    × (t.app_result_waiters ≡ s.app_result_waiters)
    × ((ip : String) → used_at ip t.host_map ≡ used_at ip s.host_map)

put_back-IsQuiet :
    (app_id : ℤ) (req : BatchExecuteRequest) (d : SchedulingDecision) (s t : PlannerState)
    → IsQuiet s t
    → Ensures (IsQuiet s) (put_back app_id req d t)
unfolding put_back Ensures
put_back-IsQuiet app_id req d s t q =
    Ensures-if (IsQuiet s) (length req.messages == 0) _ _
      (λ e. Ensures-if (IsQuiet s) (is_empty_decision d) _ _ (λ f. q) (λ f. tt)) (λ e. q)

pub release_host_mpi_port-used :
    (port : ℤ) (host : Host)
    → Ensures (λ changed. changed.used_slots ≡ host.used_slots) (release_host_mpi_port port host)
unfolding release_host_mpi_port Ensures
release_host_mpi_port-used port host = go (release_port port host.mpi_ports)
  where
    go :
        (r : Result PlannerError (List MpiPort))
        → Ensures
            (λ changed. changed.used_slots ≡ host.used_slots)
            (r >>= λ ports. ok (record host { mpi_ports = ports }))
    go (throws e) = tt
    go (ok ports) = refl

leave_flight-IsQuiet :
    (msg : Message) (req : BatchExecuteRequest) (d : SchedulingDecision) (left : List Message)
    (s : PlannerState)
    → Ensures (IsQuiet s) (leave_flight msg req d left s)
unfolding leave_flight Ensures
leave_flight-IsQuiet msg req d left s =
    Ensures-bind (λ p. Unit) (IsQuiet s) (lift (remove_message msg.id d)) _
      (Ensures-any (lift (remove_message msg.id d)))
      (λ p u.
        Ensures-bind (λ hosts. (ip : String) → used_at ip hosts ≡ used_at ip s.host_map) (IsQuiet s)
          (change_host msg.executed_host (release_host_mpi_port p.0) s.host_map) _
          (used_at-keeps msg.executed_host (release_host_mpi_port p.0) s.host_map
            (release_host_mpi_port-used p.0))
          (λ hosts same.
            put_back-IsQuiet msg.app_id (record req { messages = left }) p.1 s
              (record s { host_map = hosts }) (refl, refl, same)))

remove_in_flight-IsQuiet :
    (msg : Message) (s : PlannerState) → Ensures (IsQuiet s) (remove_in_flight msg s)
unfolding remove_in_flight Ensures
remove_in_flight-IsQuiet msg s =
    Ensures-option (IsQuiet s) (lookup msg.app_id s.in_flight_reqs) (ok s) _
      (λ e. (refl, refl, λ ip. refl))
      (λ p e.
        Ensures-option (IsQuiet s) (take_out msg.id p.0.messages) (ok s) _
          (λ f. (refl, refl, λ ip. refl)) (λ left f. leave_flight-IsQuiet msg p.0 p.1 left s))

-- One slot of the host that ran the message is given back, if this is the first result.
abbrev pub ReleasesOnce : Message → Hosts → Option Message → Hosts → Type 0
ReleasesOnce msg hosts before hosts' =
    (ip : String)
    → used_at ip hosts
      ≡ used_at ip hosts'
        + (if same_name msg.executed_host ip then elim before [ none ↦ 1 | some m ↦ 0 ] else 0)

abbrev Released : Message → PlannerState → PlannerState → Type 0
Released msg s t =
    (t.app_result_waiters ≡ s.app_result_waiters)
    × ReleasesOnce msg s.host_map (poll_result msg s) t.host_map

release_once-Released :
    (msg : Message) (s : PlannerState) → Ensures (Released msg s) (release_once false msg s)
unfolding release_once Ensures poll_result
release_once-Released msg s =
    Ensures-if (Released msg s) (contains msg.executed_host s.host_map) _ _
      (λ e.
        Ensures-if (Released msg s)
          (not (contains msg.id (results_of msg.app_id s.app_results)) || false) _ _
          (λ first.
            Ensures-bind
              (λ hosts.
                (i : String)
                → used_at i s.host_map
                  ≡ used_at i hosts + (if same_name msg.executed_host i then 1 else 0))
              (Released msg s) (change_host msg.executed_host (release_host_slots 1) s.host_map) _
              (used_at-release msg.executed_host 1 s.host_map)
              (λ hosts u. (refl, λ ip. ground (arith, u ip, first))))
          (λ again. (refl, λ ip. ground (arith, again))))
      (λ e. tt)

results_of-insert :
    (app_id : ℤ) (r : Map ℤ Message) (results : AppResults)
    → results_of app_id (insert app_id r results) ≡ r
unfolding results_of
results_of-insert app_id r results =
    ap (λ o. elim o [ none ↦ [] | some r ↦ r ]) (lookup-insert_same app_id r results)

poll_result-store_result :
    (msg : Message) (s : PlannerState) → poll_result msg (store_result msg s) ≡ some msg
unfolding poll_result store_result
poll_result-store_result msg s =
    ap (lookup msg.id) (
      results_of-insert msg.app_id (insert msg.id msg (results_of msg.app_id s.app_results))
        s.app_results)
    ∙ lookup-insert_same msg.id msg (results_of msg.app_id s.app_results)

-- After a result is set: it is there, the waiting hosts have not changed, one slot is released.
abbrev IsResultKept : Message → PlannerState → PlannerState → Type 0
IsResultKept msg s t =
    (poll_result msg t ≡ some msg)
    × (t.app_result_waiters ≡ s.app_result_waiters)
    × ReleasesOnce msg s.host_map (poll_result msg s) t.host_map

remove_in_flight-IsResultKept :
    (msg : Message) (s t : PlannerState)
    → Released msg s t
    → Ensures (IsResultKept msg s) (remove_in_flight msg (store_result msg t))
unfolding store_result poll_result
remove_in_flight-IsResultKept msg s t r =
    Ensures-map (IsQuiet (store_result msg t)) (IsResultKept msg s)
      (remove_in_flight msg (store_result msg t))
      (remove_in_flight-IsQuiet msg (store_result msg t))
      (λ u q. (
        same u q.0 ∙ poll_result-store_result msg t,
        q.1 ∙ r.0,
        λ ip. r.1 ip ∙ ground (arith, q.2 ip),
      ))
  where
    same :
        (u : PlannerState)
        → u.app_results ≡ (store_result msg t).app_results
        → poll_result msg u ≡ poll_result msg (store_result msg t)
    same u e = ap (λ results. lookup msg.id (results_of msg.app_id results)) e

abbrev IsResultSent : Message → PlannerState → PlannerState × List (String × Message) → Type 0
IsResultSent msg s (t, sent) =
    (poll_result msg t ≡ some msg)
    × (sent ≡ map (λ host. (host, msg)) (waiters_of msg.id s.app_result_waiters))
    × ReleasesOnce msg s.host_map (poll_result msg s) t.host_map

set_message_result-IsResultSent :
    (msg : Message) (s : PlannerState)
    → is_migrated_msg msg ≡ false
    → is_frozen_msg msg ≡ false
    → Ensures (IsResultSent msg s) (set_message_result msg s)
unfolding set_message_result Ensures notify_waiters
set_message_result-IsResultSent msg s e f =
    rw (e, f)
      (Ensures-bind (IsResultKept msg s) (IsResultSent msg s)
        (release_once false msg s >>= λ t. remove_in_flight msg (store_result msg t)) _
        (Ensures-bind (Released msg s) (IsResultKept msg s) (release_once false msg s) _
          (release_once-Released msg s) (remove_in_flight-IsResultKept msg s))
        (λ t q. (q.0, ap (λ w. map (λ host. (host, msg)) (waiters_of msg.id w)) q.1, q.2)))

-- For a message that is neither migrated nor frozen, when setMessageResult does not throw: polling
-- for the message gives this result; what was sent is the message, to each waiting host in order; and
-- one slot of the host that ran it is released if there was no result before, and none otherwise.
pub set_message_result_lem :
    (msg : Message) (s t : PlannerState) (sent : List (String × Message))
    → is_migrated_msg msg ≡ false
    → is_frozen_msg msg ≡ false
    → set_message_result msg s ≡ ok (t, sent)
    → (poll_result msg t ≡ some msg)
      × (sent ≡ map (λ host. (host, msg)) (waiters_of msg.id s.app_result_waiters))
      × ReleasesOnce msg s.host_map (poll_result msg s) t.host_map
set_message_result_lem msg s t sent e f run =
    Ensures-ok (IsResultSent msg s) (set_message_result msg s) (t, sent)
      (set_message_result-IsResultSent msg s e f) run
