-- ===== src/Scheduler/Minimise.antt =====
-- `minimiseNumOfMigrations` of BinPackScheduler.cpp, CompactScheduler.cpp and SpotScheduler.cpp: a
-- decision with the hosts of the new decision that leaves as many messages as possible in place.
pub mod Columns
pub mod Spec
pub mod Refine
pub mod Passes
pub mod Correct
use faabric.Prelude.{
  ℕ, suc, Bool, true, false, ◌||◌, List, [], ◌∷◌, String, leb, if◌then◌else◌, get_or, same_name,
}
use faabric.Prelude.Int.{ℤ, pos, negsuc}
use faabric.Prelude.Results.{Result, ok, ◌>>=◌}
use faabric.Scheduler.Decision.{SchedulingDecision, Error, new_decision, add_message_in_position}
use faabric.Scheduler.Histogram.{
  Histogram, has_slot, take_slot, next_host_with_slots, get_host_freq_count,
}

-- `addMessageInPosition` with the fields that the old decision has for message `i`.
pub place_at : SchedulingDecision → ℕ → String → ℤ → SchedulingDecision → SchedulingDecision
place_at old i host mpi_port d =
    add_message_in_position i host (get_or old.message_ids i (pos 0))
      (get_or old.app_idxs i (pos 0)) (get_or old.group_idxs i (pos 0)) mpi_port d

-- One round of the first loop: the message stays on its host if the histogram has a slot there.
pub keep_host :
    SchedulingDecision
    → ℕ
    → String
    → SchedulingDecision × Histogram
    → SchedulingDecision × Histogram
unfolding place_at
keep_host old i old_host (d, hist) =
    if has_slot old_host hist
    then (place_at old i old_host (get_or old.mpi_ports i (pos 0)) d, take_slot old_host hist)
    else (d, hist)

-- The first loop, from index `i` on, over the old hosts that are left.
pub keep_hosts :
    SchedulingDecision
    → ℕ
    → List String
    → SchedulingDecision × Histogram
    → SchedulingDecision × Histogram
unfolding keep_host
keep_hosts old i [] s = s
keep_hosts old i (old_host ∷ old_hosts) s =
    keep_hosts old (suc i) old_hosts (keep_host old i old_host s)

-- The test of the second loop: message `i` has no host yet.
pub needs_host : ℕ → SchedulingDecision → Bool
needs_host i d = leb d.n_functions i || same_name (get_or d.hosts i "") ""

pub move_host :
    SchedulingDecision
    → ℕ
    → SchedulingDecision × Histogram
    → Result Error (SchedulingDecision × Histogram)
unfolding place_at
move_host old i (d, hist) = elim (needs_host i d) [
  | true ↦ next_host_with_slots hist >>= λ next_host.
      ok (place_at old i next_host (negsuc 0) d, take_slot next_host hist)
  | false ↦ ok (d, hist)
]

-- The second loop.
pub move_hosts :
    SchedulingDecision
    → ℕ
    → List String
    → SchedulingDecision × Histogram
    → Result Error (SchedulingDecision × Histogram)
unfolding move_host needs_host
move_hosts old i [] s = ok s
move_hosts old i (old_host ∷ old_hosts) s =
    move_host old i s >>= λ s'. move_hosts old (suc i) old_hosts s'

pub minimise_num_of_migrations :
    SchedulingDecision → SchedulingDecision → Result Error SchedulingDecision
unfolding keep_hosts move_hosts
minimise_num_of_migrations new_dec old =
    move_hosts old 0 old.hosts (
      keep_hosts old 0 old.hosts
        (new_decision old.app_id old.group_id, get_host_freq_count new_dec))
    >>= λ s. ok s.0
