-- ===== src/Planner/Call/Prepare.antt =====
-- The part of `callBatch` before the scheduling: the request grows by the free slots of the main host,
-- or takes the messages in flight, and the slots that OpenMP apps are owed are set aside.
use faabric.Prelude.{
  ℕ, zero, suc, ◌+◌, ◌-◌, none, some, List, [], ◌∷◌, ◌++◌, String, length, leb, ◌==◌, if◌then◌else◌,
  name_key, same_name,
}
use faabric.Prelude.Int.{ℤ, pos, int_eq, int_key, pos_part, plus_nat}
use faabric.Prelude.Maps.{lookup, insert}
use faabric.Prelude.Results.{Result, throws, ok, ◌>>=◌}
use faabric.Batch.{Message, BatchExecuteRequest}
use faabric.Scheduler.Decision.{SchedulingDecision}
use faabric.Scheduler.Hosts.{HostMap, InFlightReqs}
use faabric.Planner.{Hosts, PlannerState, PlannerError, assert_failed, missing_key, host_at}

-- `v.at(0)`; also `messages(0)` of a request, which must have a message.
unfoldable pub first_of : {A : Type 0} → List A → Result PlannerError A
first_of [] = throws missing_key
first_of (x ∷ xs) = ok x

-- The slots that an app in flight has asked for and does not use, 0 when it has grown past them.
unfoldable pub owed_slots : BatchExecuteRequest → Result PlannerError ℕ
unfolding first_of
owed_slots req =
    first_of req.messages >>= λ msg. ok (pos_part msg.omp_num_threads - length req.messages)

-- The loop of `availableOpenMpSlots`: what the other apps with the same main host are owed.
unfoldable pub owed_at : ℤ → String → InFlightReqs → Result PlannerError ℕ
unfolding owed_slots
owed_at app_id main_host [] = ok 0
owed_at app_id main_host ((this_app_id, (req, decision)) ∷ m) =
    let rest = owed_at app_id main_host m in
    if int_eq app_id this_app_id
    then rest
    else (first_of decision.hosts >>= λ host.
        if same_name host main_host
        then (owed_slots req >>= λ n. (rest >>= λ k. ok (n + k)))
        else rest)

-- `availableOpenMpSlots`: the first assert says that the host has a used slot, the second that no more
-- is owed than is free.
unfoldable pub available_open_mp_slots : ℤ → String → Hosts → InFlightReqs → Result PlannerError ℕ
unfolding owed_at
available_open_mp_slots app_id main_host hosts in_flight = host_at main_host hosts >>= λ host.
    if host.used_slots == 0
    then throws assert_failed
    else (owed_at app_id main_host in_flight >>= λ owed.
        if leb (host.used_slots + owed) host.slots
        then ok (host.slots - host.used_slots - owed)
        else throws assert_failed)

-- What the new messages are copied from, and the group index that they count on from: the last message
-- of the request, or the first message of the app in flight, which then runs the function that the
-- group id of the request stands for.
unfoldable pub elastic_template :
    BatchExecuteRequest
    → BatchExecuteRequest
    → String
    → List Message
    → Result PlannerError (Message × ℤ)
unfolding first_of
elastic_template req old_req main_host [] = first_of old_req.messages >>= λ msg.
    ok (record msg { main_host = main_host; func_ptr = req.group_id }, pos 0)
elastic_template req old_req main_host (msg ∷ []) = ok (msg, msg.group_idx)
elastic_template req old_req main_host (msg ∷ other ∷ msgs) =
    elastic_template req old_req main_host (other ∷ msgs)

-- `n` copies from number `itr` on, each with a new id and the next index.
unfoldable pub elastic_messages : Message → ℤ → (ℕ → ℤ) → ℕ → ℕ → List Message
elastic_messages template base gids itr zero = []
elastic_messages template base gids itr (suc n) =
    record template {
      id = gids itr;
      app_idx = plus_nat base (itr + 1);
      group_idx = plus_nat base (itr + 1);
    }
    ∷ elastic_messages template base gids (suc itr) n

unfoldable pub add_elastic :
    (ℕ → ℤ)
    → BatchExecuteRequest
    → BatchExecuteRequest
    → String
    → ℕ
    → Result PlannerError BatchExecuteRequest
unfolding elastic_template elastic_messages
add_elastic gids req old_req main_host zero = ok req
add_elastic gids req old_req main_host (suc n) =
    elastic_template req old_req main_host req.messages >>= λ (template, base).
    ok (record req { messages = req.messages ++ elastic_messages template base gids 0 (suc n) })

-- The request grows to the slots that are available on the main host of the app.
unfoldable pub scale_elastically :
    (ℕ → ℤ)
    → BatchExecuteRequest
    → BatchExecuteRequest
    → SchedulingDecision
    → PlannerState
    → Result PlannerError BatchExecuteRequest
unfolding first_of available_open_mp_slots add_elastic
scale_elastically gids req old_req old_dec s = first_of old_dec.hosts >>= λ main_host.
    (available_open_mp_slots req.app_id main_host s.host_map s.in_flight_reqs >>= λ avail.
    add_elastic gids req old_req main_host (avail - length req.messages))

-- A migration is about the messages in flight, whatever the request brings.
unfoldable pub take_messages : BatchExecuteRequest → BatchExecuteRequest → BatchExecuteRequest
take_messages req old_req = record req { sub_type = old_req.sub_type; messages = old_req.messages }

-- What other apps are owed counts as used in the copy of the host map.
unfoldable pub set_owed_aside : ℤ → InFlightReqs → HostMap → Result PlannerError HostMap
unfolding owed_slots first_of
set_owed_aside app_id [] m = ok m
set_owed_aside app_id ((this_app_id, (req, decision)) ∷ others) m =
    let skipped = set_owed_aside app_id others m in
    if int_eq this_app_id app_id
    then skipped
    else (owed_slots req >>= λ n.
        if n == 0
        then skipped
        else (first_of decision.hosts >>= λ host. (elim (lookup host m) [
          | none ↦ throws missing_key
          | some h ↦
              set_owed_aside app_id others
                (insert host (record h { used_slots = h.used_slots + n }) m)
        ])))
