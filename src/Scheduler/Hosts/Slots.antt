-- ===== src/Scheduler/Hosts/Slots.antt =====
-- Claiming and freeing the slots of a host.
use faabric.Prelude.{ℕ, ◌+◌, ◌-◌, ◌≤◌, ◌≡◌, ap, min, arith}
use faabric.Scheduler.Hosts.{HostState, num_slots_available, claim_slots, free_slots}

-- On a host that has not more used slots than slots, claiming slots keeps that bound; when there are
-- enough free slots, just so many fewer are free after it, and freeing as many gives the host back.
pub free_slots-claim_slots :
    (host : HostState) (n : ℕ)
    → host.used_slots ≤ host.slots
    → ((claim_slots host n).used_slots ≤ host.slots)
      × (n ≤ num_slots_available host
          → (num_slots_available (claim_slots host n) + n ≡ num_slots_available host)
            × (free_slots (claim_slots host n) n ≡ host))
unfolding claim_slots free_slots num_slots_available
free_slots-claim_slots host n within =
    (omega arith, λ room. (omega arith, ap (λ used. record host { used_slots = used }) (same room)))
  where
    same : n ≤ num_slots_available host → min host.slots (host.used_slots + n) - n ≡ host.used_slots
    same room = unfold num_slots_available in omega (arith, room)
