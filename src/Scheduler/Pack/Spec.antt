-- ===== src/Scheduler/Pack/Spec.antt =====
-- What the bin-pack loop computes: the messages, in order, over the list of free slots.
use mathlib.Core.List.{append-nil, append_assoc, map-append}
use native.Mathlib.Nat.{add_assoc, add-zero, zero-add, suc-add, min-zero}
use faabric.Prelude.{
  ℕ, zero, suc, ◌+◌, ◌≡◌, refl, sym, ap, min, List, [], ◌∷◌, ◌++◌, String, arith, ◌==◌,
  if◌then◌else◌, length, take, drop, replicate, map, length-append,
}
use faabric.Prelude.Int.{pos}
use faabric.Batch.{Message}
use faabric.Scheduler.Decision.{SchedulingDecision, add_message}
use faabric.Scheduler.Hosts.{HostState, num_slots_available}
use faabric.Scheduler.Pack.{assign, pack}

-- Each free slot of the hosts, in their order, by the name of its host.
unfoldable pub free_slot_list : List HostState → List String
free_slot_list [] = []
free_slot_list (host ∷ hosts) = replicate (num_slots_available host) host.ip ++ free_slot_list hosts

-- A decision that took the messages `msgs` on the hosts `ips` after what `d` had.
abbrev pub extend : SchedulingDecision → List String → List Message → SchedulingDecision
extend d ips msgs = record d {
  n_functions = d.n_functions + length ips;
  hosts = d.hosts ++ ips;
  message_ids = d.message_ids ++ map (λ m. m.id) msgs;
  app_idxs = d.app_idxs ++ map (λ m. m.app_idx) msgs;
  group_idxs = d.group_idxs ++ map (λ m. m.group_idx) msgs;
  mpi_ports = d.mpi_ports ++ replicate (length ips) (pos 0);
}

extend-nil : (d : SchedulingDecision) → extend d [] [] ≡ d
extend-nil d = simp (append-nil, add-zero)

replicate-add {ℓ} :
    {A : Type ℓ} (m n : ℕ) (a : A) → replicate m a ++ replicate n a ≡ replicate (m + n) a
replicate-add zero n a = rw zero-add refl
replicate-add (suc m) n a = rw (suc-add, replicate-add m n a) refl

extend-extend :
    (d : SchedulingDecision) (ips ips' : List String) (msgs msgs' : List Message)
    → extend (extend d ips msgs) ips' msgs' ≡ extend d (ips ++ ips') (msgs ++ msgs')
extend-extend d ips ips' msgs msgs' =
    simp (append_assoc, add_assoc, map-append, length-append, replicate-add)

add_message_lem :
    (ip : String) (msg : Message) (d : SchedulingDecision)
    → add_message ip msg d ≡ extend d (ip ∷ []) (msg ∷ [])
unfolding add_message
add_message_lem ip msg d = refl

-- The reference: one slot and one message at a time.
pub fill : List String → List Message → SchedulingDecision → List Message × SchedulingDecision
fill [] msgs d = (msgs, d)
fill (ip ∷ ips) [] d = ([], d)
fill (ip ∷ ips) (msg ∷ msgs) d = fill ips msgs (add_message ip msg d)

fill-no_slots : (msgs : List Message) (d : SchedulingDecision) → fill [] msgs d ≡ (msgs, d)
unfolding fill
fill-no_slots msgs d = refl

fill-no_messages : (ips : List String) (d : SchedulingDecision) → fill ips [] d ≡ ([], d)
unfolding fill
fill-no_messages [] d = refl
fill-no_messages (ip ∷ ips) d = refl

fill-append :
    (ips ips' : List String) (msgs : List Message) (d : SchedulingDecision)
    → fill (ips ++ ips') msgs d ≡ (let (left, d') = fill ips msgs d in fill ips' left d')
unfolding fill
fill-append [] ips' msgs d = refl
fill-append (ip ∷ ips) ips' [] d = sym (fill-no_messages ips' d)
fill-append (ip ∷ ips) ips' (msg ∷ msgs) d = fill-append ips ips' msgs (add_message ip msg d)

min-suc-suc : (a b : ℕ) → min (suc a) (suc b) ≡ suc (min a b)
min-suc-suc a b = omega arith

zero_min : (n : ℕ) → min 0 n ≡ 0
zero_min n = omega arith

fill-replicate :
    (n : ℕ) (ip : String) (msgs : List Message) (d : SchedulingDecision)
    → fill (replicate n ip) msgs d ≡ assign (min (length msgs) n) ip msgs d
unfolding fill assign
fill-replicate zero ip [] d = refl
fill-replicate zero ip (msg ∷ msgs) d = rw min-zero refl
fill-replicate (suc n) ip [] d = rw (zero_min (suc n)) refl
fill-replicate (suc n) ip (msg ∷ msgs) d =
    rw (min-suc-suc (length msgs) n) (fill-replicate n ip msgs (add_message ip msg d))

stop_early :
    (hosts : List HostState) (left : List Message) (d : SchedulingDecision)
    → pack hosts left d ≡ fill (free_slot_list hosts) left d
    → (let rest = pack hosts left d in if length left == 0 then (left, d) else rest)
      ≡ fill (free_slot_list hosts) left d
stop_early hosts [] d h = sym (fill-no_messages (free_slot_list hosts) d)
stop_early hosts (msg ∷ left) d h = ground (arith, h)

-- The loop, which works out how many messages each host can take and stops when none is left, does
-- what the reference does on the list of the free slots of all hosts.
pub pack-eq-fill :
    (hosts : List HostState) (msgs : List Message) (d : SchedulingDecision)
    → pack hosts msgs d ≡ fill (free_slot_list hosts) msgs d
unfolding pack free_slot_list
pack-eq-fill [] msgs d = sym (fill-no_slots msgs d)
pack-eq-fill (host ∷ hosts) msgs d =
    rw
      (
        fill-append (replicate n host.ip) (free_slot_list hosts) msgs d,
        fill-replicate n host.ip msgs d,
      )
      (stop_early hosts left d' (pack-eq-fill hosts left d'))
  where
    n : ℕ
    n = num_slots_available host

    left : List Message
    left = (assign (min (length msgs) n) host.ip msgs d).0

    d' : SchedulingDecision
    d' = (assign (min (length msgs) n) host.ip msgs d).1

-- The first message takes the first slot, and so on, until there is no message or no slot.
pub fill_lem :
    (ips : List String) (msgs : List Message) (d : SchedulingDecision)
    → fill ips msgs d
      ≡ (drop (length ips) msgs, extend d (take (length msgs) ips) (take (length ips) msgs))
unfolding fill
fill_lem [] [] d = ap (λ e. ([], e)) (sym (extend-nil d))
fill_lem [] (m ∷ msgs) d = ap (λ e. (m ∷ msgs, e)) (sym (extend-nil d))
fill_lem (ip ∷ ips) [] d = ap (λ e. ([], e)) (sym (extend-nil d))
fill_lem (ip ∷ ips) (msg ∷ msgs) d =
    rw (fill_lem ips msgs (add_message ip msg d), add_message_lem ip msg d)
      (ap (λ e. (drop (length ips) msgs, e))
        (extend-extend d (ip ∷ []) (take (length msgs) ips) (msg ∷ []) (take (length ips) msgs)))
