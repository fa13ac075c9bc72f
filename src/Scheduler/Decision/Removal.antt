-- ===== src/Scheduler/Decision/Removal.antt =====
-- `removeMessage` of src/batch-scheduler/SchedulingDecision.cpp.
use faabric.Prelude.{
  ℕ, zero, suc, ◌+◌, ◌-◌, ◌<◌, ◌≡◌, refl, ap, ap₂, ◌∙◌, inl, inr, ◌⊎◌, Bool, true, false, none,
  some, List, [], ◌∷◌, ◌++◌, String, arith, if◌then◌else◌, length, get_or, remove_at, Option-cases,
  Bool-cases, length-remove_at,
}
use faabric.Prelude.Int.{ℤ, pos, int_eq, int_key}
use faabric.Prelude.Results.{ok, throws}
use faabric.Scheduler.Decision.{
  SchedulingDecision, removing_non_existant_message, find_index, remove_message, add_message_fields,
}
use faabric.Scheduler.Minimise.Correct.{IsAligned}

find_index-cons :
    (id x : ℤ) (xs : List ℤ)
    → int_eq x id ≡ false
    → find_index id (x ∷ xs) ≡ (elim (find_index id xs) [ none ↦ none | some i ↦ some (suc i) ])
unfolding find_index
find_index-cons id x xs e = rw e refl

find_index-append :
    (id : ℤ) (xs : List ℤ)
    → find_index id xs ≡ none
    → find_index id (xs ++ id ∷ []) ≡ some (length xs)
unfolding find_index
find_index-append id [] e = ground (arith, int_key.beq_iff id id)
find_index-append id (x ∷ xs) e = ground (arith, find_index-append id xs, e)

remove_at-append :
    {A : Type 0} (xs : List A) (n : ℕ) (y : A) → n ≡ length xs → remove_at (xs ++ y ∷ []) n ≡ xs
remove_at-append [] zero y e = refl
remove_at-append [] (suc n) y e = absurd (omega arith)
remove_at-append (x ∷ xs) zero y e = absurd (omega arith)
remove_at-append (x ∷ xs) (suc n) y e = ap (◌∷◌ x) (remove_at-append xs n y (omega arith))

get_or-append :
    {A : Type 0} (xs : List A) (n : ℕ) (y z : A) → n ≡ length xs → get_or (xs ++ y ∷ []) n z ≡ y
get_or-append [] zero y z e = refl
get_or-append [] (suc n) y z e = absurd (omega arith)
get_or-append (x ∷ xs) zero y z e = absurd (omega arith)
get_or-append (x ∷ xs) (suc n) y z e = get_or-append xs n y z (omega arith)

find_index-lt : (id : ℤ) (xs : List ℤ) (i : ℕ) → find_index id xs ≡ some i → i < length xs
unfolding find_index
find_index-lt id [] i e = absurd (cc)
find_index-lt id (x ∷ xs) i e = elim (Option-cases (find_index id xs)) [
  | inl none_left ↦ ground (arith, e, none_left)
  | inr (j, found) ↦ ground (arith, e, found, find_index-lt id xs j found)
]

-- The decision has a message with this id.
unfoldable pub has_message : ℤ → List ℤ → Bool
has_message id [] = false
has_message id (x ∷ xs) = if int_eq x id then true else has_message id xs

find_index-none : (id : ℤ) (xs : List ℤ) → has_message id xs ≡ false → find_index id xs ≡ none
unfolding find_index has_message
find_index-none id [] e = refl
find_index-none id (x ∷ xs) e = ground (arith, e, find_index-none id xs)

find_index-some :
    (id : ℤ) (xs : List ℤ) → has_message id xs ≡ true → (i : ℕ) × (find_index id xs ≡ some i)
unfolding has_message
find_index-some id [] e = absurd (cc)
find_index-some id (x ∷ xs) e = elim (Bool-cases (int_eq x id)) [
  | inl same ↦ (0, unfold find_index in rw same refl)
  | inr other ↦
      let (i, found) = find_index-some id xs (ground (arith, e, other)) in
      (suc i, find_index-cons id x xs other ∙ rw found refl)
]

abbrev without : ℕ → SchedulingDecision → SchedulingDecision
without i d = record d {
  n_functions = d.n_functions - 1;
  hosts = remove_at d.hosts i;
  message_ids = remove_at d.message_ids i;
  app_idxs = remove_at d.app_idxs i;
  group_idxs = remove_at d.group_idxs i;
  mpi_ports = remove_at d.mpi_ports i;
}

remove_message_found :
    (id : ℤ) (d : SchedulingDecision) (i : ℕ)
    → find_index id d.message_ids ≡ some i
    → remove_message id d ≡ ok (get_or d.mpi_ports i (pos 0), without i d)
unfolding remove_message
remove_message_found id d i e = rw (e, remove_message) refl

remove_message_absent :
    (id : ℤ) (d : SchedulingDecision)
    → find_index id d.message_ids ≡ none
    → remove_message id d ≡ throws removing_non_existant_message
unfolding remove_message
remove_message_absent id d e = rw (e, remove_message) refl

without-add_message_fields :
    (d : SchedulingDecision) (host : String) (id app_idx group_idx : ℤ)
    → IsAligned d
    → without (length d.message_ids) (add_message_fields host id app_idx group_idx d) ≡ d
unfolding add_message_fields
without-add_message_fields d host id app_idx group_idx a =
    rw
      (
        remove_at-append d.hosts (length d.message_ids) host (omega (arith, a.ids, a.counted)),
        remove_at-append d.message_ids (length d.message_ids) id refl,
        remove_at-append d.app_idxs (length d.message_ids) app_idx (omega (arith, a.ids, a.apps)),
        remove_at-append d.group_idxs (length d.message_ids) group_idx
            (omega (arith, a.ids, a.groups)),
        remove_at-append d.mpi_ports (length d.message_ids) (pos 0) (omega (arith, a.ids, a.ports)),
      )
      (ap (λ n. record d { n_functions = n }) back)
  where
    back : d.n_functions + 1 - 1 ≡ d.n_functions
    back = omega arith

vacated :
    (d : SchedulingDecision) (host : String) (id app_idx group_idx : ℤ)
    → IsAligned d
    → get_or
        (add_message_fields host id app_idx group_idx d).mpi_ports
        (length d.message_ids)
        (pos 0)
      ≡ pos 0
unfolding add_message_fields
vacated d host id app_idx group_idx a =
    get_or-append d.mpi_ports (length d.message_ids) (pos 0) (pos 0) (omega (arith, a.ids, a.ports))

found_last :
    (d : SchedulingDecision) (host : String) (id app_idx group_idx : ℤ)
    → has_message id d.message_ids ≡ false
    → find_index id (add_message_fields host id app_idx group_idx d).message_ids
      ≡ some (length d.message_ids)
unfolding add_message_fields
found_last d host id app_idx group_idx fresh =
    find_index-append id d.message_ids (find_index-none id d.message_ids fresh)

-- Adding a message with an id that the decision, whose columns are parallel, does not have, and
-- removing it again gives the decision back, with the MPI port 0.
pub remove_message-add_message_fields :
    (d : SchedulingDecision) (host : String) (id app_idx group_idx : ℤ)
    → IsAligned d
    → has_message id d.message_ids ≡ false
    → remove_message id (add_message_fields host id app_idx group_idx d) ≡ ok (pos 0, d)
remove_message-add_message_fields d host id app_idx group_idx a fresh =
    remove_message_found id (add_message_fields host id app_idx group_idx d) (length d.message_ids)
      (found_last d host id app_idx group_idx fresh)
    ∙ ap₂ (λ p e. ok (p, e)) (vacated d host id app_idx group_idx a)
        (without-add_message_fields d host id app_idx group_idx a)

removed-IsAligned :
    (d : SchedulingDecision) (i : ℕ) → IsAligned d → i < d.n_functions → IsAligned (without i d)
removed-IsAligned d i a h = record {
  counted = shorter d.hosts a.counted;
  ids = shorter d.message_ids a.ids;
  apps = shorter d.app_idxs a.apps;
  groups = shorter d.group_idxs a.groups;
  ports = shorter d.mpi_ports a.ports;
}
  where
    shorter :
        {A : Type 0} (xs : List A)
        → length xs ≡ d.n_functions
        → length (remove_at xs i) ≡ d.n_functions - 1
    shorter xs e = omega (arith, length-remove_at xs i (omega arith))

-- On a decision whose columns are parallel, removing a message fails exactly when no message has the
-- id; else the columns stay parallel and there is one message less.
pub remove_message_cases :
    (d : SchedulingDecision) (id : ℤ)
    → IsAligned d
    → ((has_message id d.message_ids ≡ false)
        × (remove_message id d ≡ throws removing_non_existant_message))
      ⊎ ((has_message id d.message_ids ≡ true)
          × ((port : ℤ) × (d' : SchedulingDecision) × (remove_message id d ≡ ok (port, d'))
              × IsAligned d'
              × (d'.n_functions + 1 ≡ d.n_functions)))
remove_message_cases d id a = elim (Bool-cases (has_message id d.message_ids)) [
  | inr absent ↦ inl (absent, remove_message_absent id d (find_index-none id d.message_ids absent))
  | inl present ↦
      let (i, found) = find_index-some id d.message_ids present in
      let h : i < d.n_functions = omega (arith, find_index-lt id d.message_ids i found, a.ids) in
      inr (
        present,
        (
          get_or d.mpi_ports i (pos 0),
          without i d,
          remove_message_found id d i found,
          removed-IsAligned d i a h,
          omega (arith, h),
        ),
      )
]
