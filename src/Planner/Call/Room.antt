-- ===== src/Planner/Call/Room.antt =====
-- The host map that the scheduler sees, and the free slots in it.
use faabric.Prelude.{
  ◌≡◌, refl, sym, ◌∙◌, ap, true, none, [], ◌∷◌, String, arith, name_key, same_name, same_name_iff,
  Bool-cases, inl, inr,
}
use faabric.Prelude.Maps.{lookup}
use faabric.Prelude.Maps.Entries.{IsMapOf}
use faabric.Scheduler.Hosts.{map_values, num_slots_available}
use faabric.Scheduler.Placement.{slots_at}
use faabric.Planner.{Hosts}
use faabric.Planner.Registry.Laws.{IsValidHosts}
use faabric.Planner.Call.{convert_to_batch_sched_host_map}
use faabric.Planner.Call.Claims.Slots.{free_at}

slots_at_absent :
    (ip : String) (m : Hosts)
    → IsValidHosts m
    → lookup ip m ≡ none
    → slots_at ip (map_values (convert_to_batch_sched_host_map m [])) ≡ 0
unfolding slots_at map_values convert_to_batch_sched_host_map lookup IsMapOf
slots_at_absent ip [] valid e = refl
slots_at_absent ip ((i, host) ∷ m) valid e =
    ground (arith, e, ap (λ n. same_name n ip) (valid.1.named), slots_at_absent ip m valid.2)

-- With no hosts to evict, each well-formed host has as many free slots for the scheduler as it has.
pub slots_at-convert_to_batch_sched_host_map :
    (ip : String) (m : Hosts)
    → IsValidHosts m
    → slots_at ip (map_values (convert_to_batch_sched_host_map m [])) ≡ free_at ip m
unfolding slots_at map_values convert_to_batch_sched_host_map lookup IsMapOf free_at
    num_slots_available
slots_at-convert_to_batch_sched_host_map ip [] valid = refl
slots_at-convert_to_batch_sched_host_map ip ((i, host) ∷ m) valid =
    elim (Bool-cases (same_name i ip)) [
      | inl same ↦ ground (
        arith,
        same,
        ap (λ n. same_name n ip) valid.1.named,
        slots_at_absent ip m valid.2 (absent same),
      )
      | inr other ↦ ground (
        arith,
        other,
        ap (λ n. same_name n ip) valid.1.named,
        slots_at-convert_to_batch_sched_host_map ip m valid.2,
      )
    ]
  where
    absent : same_name i ip ≡ true → lookup ip m ≡ none
    absent same = ap (λ j. lookup j m) (sym ((same_name_iff i ip).0 same)) ∙ valid.0
