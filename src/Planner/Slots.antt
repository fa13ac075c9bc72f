-- ===== src/Planner/Slots.antt =====
-- `claimHostSlots` and `releaseHostSlots` of src/planner/Planner.cpp. The asserts on the used slots
-- are errors.
use faabric.Prelude.{ℕ, ◌+◌, ◌-◌, leb, if◌then◌else◌}
use faabric.Prelude.Results.{Result, throws, ok}
use faabric.Planner.{Host, PlannerError, assert_failed}

unfoldable pub claim_host_slots : ℕ → Host → Result PlannerError Host
claim_host_slots slots_to_claim host =
    if leb (host.used_slots + slots_to_claim) host.slots
    then ok (record host { used_slots = host.used_slots + slots_to_claim })
    else throws assert_failed

unfoldable pub release_host_slots : ℕ → Host → Result PlannerError Host
release_host_slots slots_to_release host =
    if leb slots_to_release host.used_slots
    then ok (record host { used_slots = host.used_slots - slots_to_release })
    else throws assert_failed
