-- ===== src/Scheduler/Decision/Mappings.antt =====
-- The decision of a list of point-to-point mappings.
use mathlib.Core.List.{append-nil, append_assoc}
use faabric.Prelude.{
  ℕ, zero, suc, ◌+◌, ◌-◌, ◌≡◌, refl, sym, ap, ◌∙◌, List, [], ◌∷◌, ◌++◌, String, arith, length, set,
  map, length-append, length-map,
}
use faabric.Prelude.Int.{ℤ, pos, to_u32}
use faabric.Scheduler.Decision.{
  SchedulingDecision, PointToPointMapping, add_mappings, add_message_fields, new_decision,
  from_point_to_point_mappings,
}
use faabric.Scheduler.Minimise.Correct.{IsAligned}

-- What the mappings add to a decision.
abbrev extended : List PointToPointMapping → SchedulingDecision → SchedulingDecision
extended ms d = record d {
  n_functions = d.n_functions + length ms;
  hosts = d.hosts ++ map (λ m. m.host) ms;
  message_ids = d.message_ids ++ map (λ m. m.message_id) ms;
  app_idxs = d.app_idxs ++ map (λ m. m.app_idx) ms;
  group_idxs = d.group_idxs ++ map (λ m. m.group_idx) ms;
  mpi_ports = d.mpi_ports ++ map (λ m. m.mpi_port) ms;
}

set-append :
    {A : Type 0} (xs : List A) (n : ℕ) (y z : A)
    → n ≡ length xs
    → set (xs ++ y ∷ []) n z ≡ xs ++ z ∷ []
set-append [] zero y z e = refl
set-append [] (suc n) y z e = absurd (omega arith)
set-append (x ∷ xs) zero y z e = absurd (omega arith)
set-append (x ∷ xs) (suc n) y z e = ap (◌∷◌ x) (set-append xs n y z (omega arith))

SchedulingDecision-eq :
    (d : SchedulingDecision) {n k : ℕ} {hs hs' : List String} {is is' xs xs' gs gs' ps ps' : List ℤ}
    → n ≡ k
    → hs ≡ hs'
    → is ≡ is'
    → xs ≡ xs'
    → gs ≡ gs'
    → ps ≡ ps'
    → record d {
      n_functions = n;
      hosts = hs;
      message_ids = is;
      app_idxs = xs;
      group_idxs = gs;
      mpi_ports = ps;
    }
      ≡ record d {
        n_functions = k;
        hosts = hs';
        message_ids = is';
        app_idxs = xs';
        group_idxs = gs';
        mpi_ports = ps';
      }
SchedulingDecision-eq d e f g h i j = rw (e, f, g, h, i, j) refl

added :
    (m : PointToPointMapping) (d : SchedulingDecision)
    → length d.mpi_ports ≡ d.n_functions
    → set (d.mpi_ports ++ pos 0 ∷ []) (d.n_functions + 1 - 1) m.mpi_port
      ≡ d.mpi_ports ++ m.mpi_port ∷ []
added m d e = set-append d.mpi_ports (d.n_functions + 1 - 1) (pos 0) m.mpi_port (omega (arith, e))

add_mappings_lem :
    (ms : List PointToPointMapping) (d : SchedulingDecision)
    → length d.mpi_ports ≡ d.n_functions
    → add_mappings ms d ≡ extended ms d
unfolding add_mappings add_message_fields
add_mappings_lem [] d e =
    SchedulingDecision-eq d (omega arith) (sym (append-nil d.hosts))
      (sym (append-nil d.message_ids)) (sym (append-nil d.app_idxs)) (sym (append-nil d.group_idxs))
      (sym (append-nil d.mpi_ports))
add_mappings_lem (m ∷ ms) d e =
    ap
      (λ ports.
        add_mappings ms (record (add_message_fields m.host m.message_id m.app_idx m.group_idx d) {
          mpi_ports = ports;
        }))
      (added m d e)
    ∙ add_mappings_lem ms
        (record (add_message_fields m.host m.message_id m.app_idx m.group_idx d) {
          mpi_ports = d.mpi_ports ++ m.mpi_port ∷ [];
        })
        (omega (arith, length-append d.mpi_ports (m.mpi_port ∷ []), e))
    ∙ SchedulingDecision-eq d (omega arith) (append_assoc d.hosts _ _)
        (append_assoc d.message_ids _ _) (append_assoc d.app_idxs _ _)
        (append_assoc d.group_idxs _ _) (append_assoc d.mpi_ports _ _)

-- The decision of a list of mappings has one message for each, and its five columns, which are
-- parallel, are the fields of the mappings in their order.
pub from_point_to_point_mappings_lem :
    (app_id group_id : ℤ) (ms : List PointToPointMapping)
    → (d : SchedulingDecision) × (from_point_to_point_mappings app_id group_id ms ≡ d)
      × IsAligned d
      × (d.hosts ≡ map (λ m. m.host) ms)
      × (d.message_ids ≡ map (λ m. m.message_id) ms)
      × (d.app_idxs ≡ map (λ m. m.app_idx) ms)
      × (d.group_idxs ≡ map (λ m. m.group_idx) ms)
      × (d.mpi_ports ≡ map (λ m. m.mpi_port) ms)
unfolding from_point_to_point_mappings new_decision
from_point_to_point_mappings_lem app_id group_id ms = (
  extended ms (new_decision (to_u32 app_id) group_id),
  add_mappings_lem ms (new_decision (to_u32 app_id) group_id) refl,
  record {
    counted = omega (arith, length-map ms (λ m. m.host));
    ids = omega (arith, length-map ms (λ m. m.message_id));
    apps = omega (arith, length-map ms (λ m. m.app_idx));
    groups = omega (arith, length-map ms (λ m. m.group_idx));
    ports = omega (arith, length-map ms (λ m. m.mpi_port));
  },
  refl,
  refl,
  refl,
  refl,
  refl,
)
