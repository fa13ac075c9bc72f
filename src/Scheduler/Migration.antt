-- ===== src/Scheduler/Migration.antt =====
-- Migrations in general: a bin-packed decision for the messages of an app in flight, carried over to
-- the old decision.
use faabric.Prelude.{
  ◌≡◌, ◌≢◌, refl, ap, ◌∙◌, inl, inr, List, [], ◌∷◌, String, arith, if◌then◌else◌, length,
  same_name_iff, Bool-cases, length-map, ◌<◌, ◌⊎◌, Bool, true, false,
}
use faabric.Prelude.Results.{Result, ok}
use faabric.Prelude.Counts.{count}
use faabric.Batch.{Message}
use faabric.Scheduler.Decision.{SchedulingDecision, Error, do_not_migrate_decision}
use faabric.Scheduler.Hosts.{HostState, HostMap, map_values}
use faabric.Scheduler.Histogram.{Histogram}
use faabric.Scheduler.Sorting.{free_app_slots}
use faabric.Scheduler.Placement.{IsPlacement, Packed, slots_at, capacity}
use faabric.Scheduler.Minimise.{minimise_num_of_migrations}
use faabric.Scheduler.Minimise.Spec.{AllNamed}
use faabric.Scheduler.Minimise.Correct.{IsAligned, IsRelocation, minimised}

-- No host of the map has the empty name.
abbrev pub NamedHosts : HostMap → Type 0
NamedHosts [] = Unit {0}
NamedHosts ((key, host) ∷ m) = (host.ip ≢ "") × NamedHosts m

pub slots_at-NamedHosts : (m : HostMap) → NamedHosts m → slots_at "" (map_values m) ≡ 0
unfolding slots_at map_values
slots_at-NamedHosts [] n = refl
slots_at-NamedHosts ((key, host) ∷ m) n =
    ground (arith, same_name_iff host.ip "", n.0, slots_at-NamedHosts m n.1)

pub free_app_slots-NamedHosts :
    (hist : Histogram) (m : HostMap) → NamedHosts m → NamedHosts (free_app_slots hist m)
unfolding free_app_slots
free_app_slots-NamedHosts hist [] n = tt
free_app_slots-NamedHosts hist ((key, host) ∷ m) n =
    (ground (arith, n.0), free_app_slots-NamedHosts hist m n.1)

AllNamed-count : (hs : List String) → count "" hs ≡ 0 → AllNamed hs
unfolding count
AllNamed-count [] e = tt
AllNamed-count (h ∷ hs) e =
    (λ q. absurd (ground (arith, (same_name_iff h "").1 q)), AllNamed-count hs (ground arith))

-- A placement of the old decision's messages is carried over to the old decision.
relocate :
    (hosts : List HostState) (msgs : List Message) (packed old : SchedulingDecision)
    → IsPlacement hosts msgs packed
    → slots_at "" hosts ≡ 0
    → IsAligned old
    → AllNamed old.hosts
    → length msgs ≡ length old.hosts
    → (d : SchedulingDecision) × (minimise_num_of_migrations packed old ≡ ok d)
      × IsRelocation packed old d
relocate hosts msgs packed old p named a old_named same =
    minimised packed old a (AllNamed-count packed.hosts (omega (arith, p.within "", named)))
      old_named
      (omega
        (arith, p.aligned.counted, p.aligned.ids, ap length p.ids, length-map msgs (λ m. m.id)))

-- What a migration request comes to, where `better` tells whether a placement is worth the move:
-- no room, or a placement that is not worth it, or one that is carried over to the old decision.
abbrev pub Migration :
    (SchedulingDecision → Bool)
    → SchedulingDecision
    → List HostState
    → List Message
    → SchedulingDecision
    → SchedulingDecision
    → Type 0
Migration better no_room hosts msgs old d =
    ((capacity hosts < length msgs) × (d ≡ no_room))
    ⊎ ((packed : SchedulingDecision) × IsPlacement hosts msgs packed
        × (((better packed ≡ false) × (d ≡ do_not_migrate_decision))
            ⊎ ((better packed ≡ true) × IsRelocation packed old d)))

module _ (hosts : List HostState) (msgs : List Message) (old : SchedulingDecision) where
  -- The last steps of a migration, in the form that the policies share.
  pub migrate :
      (better : SchedulingDecision → Bool) (no_room : SchedulingDecision)
      (choose : SchedulingDecision → Result Error SchedulingDecision)
      (last : List Message × SchedulingDecision → Result Error SchedulingDecision)
      → ((d : SchedulingDecision)
          → choose d
            ≡ (if better d then minimise_num_of_migrations d old else ok do_not_migrate_decision))
      → ((m : Message) (ms : List Message) (d : SchedulingDecision) → last (m ∷ ms, d) ≡ ok no_room)
      → ((d : SchedulingDecision) → last ([], d) ≡ choose d)
      → slots_at "" hosts ≡ 0
      → IsAligned old
      → AllNamed old.hosts
      → length msgs ≡ length old.hosts
      → (r : List Message × SchedulingDecision) → Packed hosts msgs r
      → (d : SchedulingDecision) × (last r ≡ ok d) × Migration better no_room hosts msgs old d
  migrate better no_room choose last by_better full empty named a old_named same (left, d)
        (inl (more, (m, ms, e))) =
      (no_room, ap (λ l. last (l, d)) e ∙ full m ms d, inl (more, refl))
  migrate better no_room choose last by_better full empty named a old_named same (left, d)
        (inr (fits, e, p)) =
      elim (Bool-cases (better d)) [
        | inl yes_better ↦
            let (d', run, moved) = relocate hosts msgs d old p named a old_named same in
            (
              d',
              ap (λ l. last (l, d)) e ∙ empty d ∙ by_better d ∙ rw yes_better run,
              inr (d, p, inr (yes_better, moved)),
            )
        | inr not_better ↦ (
          do_not_migrate_decision,
          ap (λ l. last (l, d)) e ∙ empty d ∙ by_better d ∙ rw not_better refl,
          inr (d, p, inl (not_better, refl)),
        )
      ]
