-- ===== src/Scheduler/Pack.antt =====
-- The bin-pack loop that the four policies share: `makeSchedulingDecision` of BinPackScheduler.cpp,
-- CompactScheduler.cpp, SpotScheduler.cpp and ForcedMigrationScheduler.cpp assigns slots from the
-- sorted hosts by the same statements. `msgIdx` is the place where the rest of the messages begins.
pub mod Spec
use faabric.Prelude.{ℕ, zero, suc, min, Bool, List, [], ◌∷◌, String, ◌==◌, if◌then◌else◌, length}
use faabric.Batch.{Message}
use faabric.Scheduler.Decision.{SchedulingDecision, add_message}
use faabric.Scheduler.Hosts.{HostState, num_slots_available}

-- The inner loop: the next `n` messages go to this host.
pub assign : ℕ → String → List Message → SchedulingDecision → List Message × SchedulingDecision
assign zero ip msgs d = (msgs, d)
assign (suc n) ip [] d = ([], d)
assign (suc n) ip (msg ∷ msgs) d = assign n ip msgs (add_message ip msg d)

-- The outer loop. The result has the messages that are left to schedule.
pub pack : List HostState → List Message → SchedulingDecision → List Message × SchedulingDecision
unfolding assign
pack [] msgs d = (msgs, d)
pack (host ∷ hosts) msgs d =
    let (left, d') = assign (min (length msgs) (num_slots_available host)) host.ip msgs d in
    let rest = pack hosts left d' in if length left == 0 then (left, d') else rest
