-- ===== src/Scheduler/Minimise/Correct.antt =====
-- `minimiseNumOfMigrations` as a whole.
use faabric.Prelude.{
  ℕ, ◌≡◌, ◌≢◌, refl, sym, ap, ◌∙◌, List, [], ◌∷◌, arith, length, replicate, String, same_name,
  same_name_iff, Bool-cases, inl, inr,
}
use faabric.Prelude.Int.{ℤ, pos}
use faabric.Prelude.Results.{ok, ◌>>=◌}
use faabric.Prelude.Counts.{count, count-replicate}
use faabric.Scheduler.Decision.{SchedulingDecision, new_decision}
use faabric.Scheduler.Histogram.{Histogram, get_host_freq_count, freq-get_host_freq_count}
use faabric.Scheduler.Histogram.Totals.{
  total-get_host_freq_count, get_host_freq_count-IsDistinct, freq-le-total,
}
use faabric.Scheduler.Minimise.{minimise_num_of_migrations, keep_hosts, move_hosts}
use faabric.Scheduler.Minimise.Columns.{pad, pad-full, pad-nil}
use faabric.Scheduler.Minimise.Spec.{
  kept, kept_left, Fills, AllNamed, moved-Fills, count-kept, total-kept_left, length-kept,
  freq-kept_left-le, kept_left-IsDistinct,
}
use faabric.Scheduler.Minimise.Refine.{Reps, Copied, Copied-eq, Copied-holes}
use faabric.Scheduler.Minimise.Passes.{keep_hosts-Reps, move_hosts-Reps}

-- The columns run in parallel, one entry for each message.
pub record IsAligned (d : SchedulingDecision) : Type 0 where
  pub counted : length d.hosts ≡ d.n_functions
  pub ids : length d.message_ids ≡ d.n_functions
  pub apps : length d.app_idxs ≡ d.n_functions
  pub groups : length d.group_idxs ≡ d.n_functions
  pub ports : length d.mpi_ports ≡ d.n_functions

-- What a migration to the hosts of `new_dec` may do to the decision `old`.
pub record IsRelocation (new_dec old d : SchedulingDecision) : Type 0 where
  pub aligned : IsAligned d
  pub app : d.app_id ≡ old.app_id
  pub group : d.group_id ≡ old.group_id
  pub same_ids : d.message_ids ≡ old.message_ids
  pub same_apps : d.app_idxs ≡ old.app_idxs
  pub same_groups : d.group_idxs ≡ old.group_idxs
  pub same_hosts : (h : String) → count h d.hosts ≡ count h new_dec.hosts

count-AllNamed : (hs : List String) → AllNamed hs → count "" hs ≡ 0
unfolding count
count-AllNamed [] n = refl
count-AllNamed (h ∷ hs) n = ground (arith, same_name_iff h "", n.0, count-AllNamed hs n.1)

holes-Copied : (n : ℕ) (ys : List ℤ) → length ys ≡ n → Copied (replicate n "") (pad n (pos 0) []) ys
holes-Copied n ys e = rw (pad-nil n (pos 0), ← e) (Copied-holes (pos 0) ys)

start-Reps :
    (old : SchedulingDecision)
    → IsAligned old
    → Reps old
        (new_decision old.app_id old.group_id)
        (length old.hosts)
        (replicate (length old.hosts) "")
unfolding new_decision
start-Reps old a = record {
  host_column = pad-nil (length old.hosts) "";
  same_ids = refl;
  same_app_idxs = refl;
  same_group_idxs = refl;
  same_ports = refl;
  size_le = omega arith;
  counted_le = omega arith;
  counted = ground (arith, count-replicate "" "" (length old.hosts), same_name_iff "" "");
  ids = holes-Copied (length old.hosts) old.message_ids (a.ids ∙ sym a.counted);
  apps = holes-Copied (length old.hosts) old.app_idxs (a.apps ∙ sym a.counted);
  groups = holes-Copied (length old.hosts) old.group_idxs (a.groups ∙ sym a.counted);
  app = refl;
  group = refl;
}

-- A decision whose places all have a host is complete.
complete-IsRelocation :
    (new_dec old d : SchedulingDecision) (rs : List String)
    → IsAligned old
    → Reps old d (length old.hosts) rs
    → count "" rs ≡ 0
    → ((h : String) → count h rs ≡ count h new_dec.hosts)
    → IsRelocation new_dec old d × (d.hosts ≡ rs)
complete-IsRelocation new_dec old d rs a s full same = (
  record {
    aligned = record {
      counted = omega arith;
      ids = omega (arith, s.same_ids);
      apps = omega (arith, s.same_app_idxs);
      groups = omega (arith, s.same_group_idxs);
      ports = omega (arith, s.same_ports);
    };
    app = s.app;
    group = s.group;
    same_ids = column d.message_ids old.message_ids s.same_ids s.ids;
    same_apps = column d.app_idxs old.app_idxs s.same_app_idxs s.apps;
    same_groups = column d.group_idxs old.group_idxs s.same_group_idxs s.groups;
    same_hosts = λ h. ap (count h) host_column ∙ same h;
  },
  host_column,
)
  where
    n : ℕ
    n = length old.hosts

    all_counted : d.n_functions ≡ n
    all_counted = omega (arith, s.counted)

    grown : length d.hosts ≡ n
    grown = omega (arith, s.size_le, s.counted_le)

    host_column : d.hosts ≡ rs
    host_column = sym (pad-full n "" d.hosts (omega (arith, grown))) ∙ s.host_column

    column :
        (xs ys : List ℤ) → length xs ≡ length d.hosts → Copied rs (pad n (pos 0) xs) ys → xs ≡ ys
    column xs ys e c =
        sym (pad-full n (pos 0) xs (omega (arith, grown)))
        ∙ Copied-eq rs (pad n (pos 0) xs) ys full c

module _ (new_dec old : SchedulingDecision) where
  abbrev hist : Histogram
  hist = get_host_freq_count new_dec

  count_moved :
      (rs : List String) (left : Histogram)
      → AllNamed new_dec.hosts
      → AllNamed old.hosts
      → Fills (kept old.hosts hist) (kept_left old.hosts hist) rs left
      → (h : String) → count h rs ≡ count h new_dec.hosts
  count_moved rs left named old_named f h = elim (Bool-cases (same_name h "")) [
    | inl e ↦ rw ((same_name_iff h "").0 e) (f.no_holes ∙ sym (count-AllNamed new_dec.hosts named))
    | inr e ↦
        let ne : h ≢ "" = (λ q. cc ((same_name_iff h "").1 q)) in
        omega (
          arith,
          f.counts h ne,
          count-kept h old.hosts hist ne,
          freq-le-total h left,
          f.all_used,
          freq-get_host_freq_count h new_dec,
        )
  ]

  -- For an old decision with parallel columns, and a new one with as many hosts, both without an
  -- empty host name, `minimiseNumOfMigrations` returns, with no exception, a decision with parallel
  -- columns, the ids and the messages of the old decision in their order, and each host as often as
  -- the new decision has it.
  pub minimised :
      IsAligned old
      → AllNamed new_dec.hosts
      → AllNamed old.hosts
      → length new_dec.hosts ≡ length old.hosts
      → (d : SchedulingDecision) × (minimise_num_of_migrations new_dec old ≡ ok d)
        × IsRelocation new_dec old d
  unfolding minimise_num_of_migrations count
  minimised a named old_named same =
      let n = length old.hosts in
      let ks = kept old.hosts hist in
      let ks_left = kept_left old.hosts hist in
      let start = new_decision old.app_id old.group_id in
      let first = keep_hosts old 0 old.hosts (start, hist) in
      let (first_Reps, first_left) =
        keep_hosts-Reps old n [] old.hosts start hist 0 refl old_named (omega arith)
          (start-Reps old a) in
      let (rs, left, f) =
        moved-Fills ks ks_left
          (kept_left-IsDistinct old.hosts hist (get_host_freq_count-IsDistinct new_dec))
          (omega (
            arith,
            freq-kept_left-le "" old.hosts hist,
            freq-get_host_freq_count "" new_dec,
            count-AllNamed new_dec.hosts named,
          ))
          (omega
            (arith, total-kept_left old.hosts hist old_named, total-get_host_freq_count new_dec)) in
      let (d, run, s) =
        move_hosts-Reps old n [] old.hosts ks rs first.0 ks_left left 0 refl refl
          (sym (length-kept old.hosts hist)) (omega (arith, length-kept old.hosts hist)) f.run
          first_Reps in
      (
        d,
        ap (λ r. r >>= λ s. ok s.0)
            (ap (λ l. move_hosts old 0 old.hosts (first.0, l)) first_left ∙ run),
        (complete-IsRelocation new_dec old d rs a s f.no_holes
            (count_moved rs left named old_named f)).0,
      )
