-- ===== src/Scheduler/Minimise/Refine.antt =====
-- The loops over the columns of a decision, and `kept` and `moved` on the list of hosts.
use faabric.Prelude.{
  ℕ, suc, ◌+◌, ◌<◌, ◌≤◌, ◌≡◌, ◌≢◌, refl, sym, ap, ap₂, ◌∙◌, max, List, [], ◌∷◌, ◌++◌, arith, ltb,
  length, set, get_or, replicate, String, same_name, same_name_iff,
}
use faabric.Prelude.Int.{ℤ, pos}
use faabric.Prelude.Counts.{count, count-append}
use faabric.Scheduler.Decision.{SchedulingDecision, add_message_in_position, put_column}
use faabric.Scheduler.Minimise.{place_at, needs_host}
use faabric.Scheduler.Minimise.Columns.{pad, get_or-pad, pad-put_column, length-put_column}

count-le-length : (a : String) (xs : List String) → count a xs ≤ length xs
unfolding count
count-le-length a [] = omega arith
count-le-length a (x ∷ xs) = ground (arith, count-le-length a xs)

-- Where a host stands, the column has the entry of the old decision.
abbrev pub Copied : {A : Type 0} → List String → List A → List A → Type 0
Copied [] [] [] = Unit
Copied (h ∷ hs) (x ∷ xs) (y ∷ ys) = (h ≢ "" → x ≡ y) × Copied hs xs ys
Copied hs xs ys = ⊥

-- A decision that is being filled in, `n` messages in all, with the hosts `hosts` so far.
pub record Reps (old d : SchedulingDecision) (n : ℕ) (hosts : List String) : Type 0 where
  pub host_column : pad n "" d.hosts ≡ hosts
  pub same_ids : length d.message_ids ≡ length d.hosts
  pub same_app_idxs : length d.app_idxs ≡ length d.hosts
  pub same_group_idxs : length d.group_idxs ≡ length d.hosts
  pub same_ports : length d.mpi_ports ≡ length d.hosts
  pub size_le : length d.hosts ≤ n
  pub counted_le : d.n_functions ≤ length d.hosts
  pub counted : d.n_functions + count "" hosts ≡ n
  pub ids : Copied hosts (pad n (pos 0) d.message_ids) old.message_ids
  pub apps : Copied hosts (pad n (pos 0) d.app_idxs) old.app_idxs
  pub groups : Copied hosts (pad n (pos 0) d.group_idxs) old.group_idxs
  pub app : d.app_id ≡ old.app_id
  pub group : d.group_id ≡ old.group_id

Copied-set :
    {A : Type 0} (p r : List String) (h : String) (xs ys : List A) (a : A)
    → Copied (p ++ "" ∷ r) xs ys
    → Copied (p ++ h ∷ r) (set xs (length p) (get_or ys (length p) a)) ys
Copied-set [] r h (x ∷ xs) (y ∷ ys) a c = ((λ n. refl), c.1)
Copied-set (g ∷ p) r h (x ∷ xs) (y ∷ ys) a c = (c.0, Copied-set p r h xs ys a c.1)
Copied-set [] r h [] [] a c = elim c [ ]
Copied-set [] r h [] (y ∷ ys) a c = elim c [ ]
Copied-set [] r h (x ∷ xs) [] a c = elim c [ ]
Copied-set (g ∷ p) r h [] [] a c = elim c [ ]
Copied-set (g ∷ p) r h [] (y ∷ ys) a c = elim c [ ]
Copied-set (g ∷ p) r h (x ∷ xs) [] a c = elim c [ ]

-- With a host everywhere the column is the old one.
pub Copied-eq :
    {A : Type 0} (hs : List String) (xs ys : List A) → count "" hs ≡ 0 → Copied hs xs ys → xs ≡ ys
unfolding count
Copied-eq [] [] [] z c = refl
Copied-eq (h ∷ hs) (x ∷ xs) (y ∷ ys) z c =
    ap₂ ◌∷◌ (c.0 (ground (arith, same_name_iff h ""))) (Copied-eq hs xs ys (ground arith) c.1)
Copied-eq [] [] (y ∷ ys) z c = elim c [ ]
Copied-eq [] (x ∷ xs) [] z c = elim c [ ]
Copied-eq [] (x ∷ xs) (y ∷ ys) z c = elim c [ ]
Copied-eq (h ∷ hs) [] [] z c = elim c [ ]
Copied-eq (h ∷ hs) [] (y ∷ ys) z c = elim c [ ]
Copied-eq (h ∷ hs) (x ∷ xs) [] z c = elim c [ ]

pub Copied-holes :
    {A : Type 0} (a : A) (ys : List A)
    → Copied (replicate (length ys) "") (replicate (length ys) a) ys
Copied-holes a [] = tt
Copied-holes a (y ∷ ys) = ((λ n. absurd (n refl)), Copied-holes a ys)

set-hole : (p r : List String) (h : String) → set (p ++ "" ∷ r) (length p) h ≡ p ++ h ∷ r
set-hole [] r h = refl
set-hole (g ∷ p) r h = ap (◌∷◌ g) (set-hole p r h)

get_or-hole : (p r : List String) (h : String) → get_or (p ++ h ∷ r) (length p) "" ≡ h
get_or-hole [] r h = refl
get_or-hole (g ∷ p) r h = get_or-hole p r h

count-fill_hole :
    (p r : List String) (h : String) → h ≢ "" → count "" (p ++ "" ∷ r) ≡ count "" (p ++ h ∷ r) + 1
unfolding count
count-fill_hole [] r h n = ground (arith, same_name_iff "" "", same_name_iff h "")
count-fill_hole (g ∷ p) r h n = ground (arith, count-fill_hole p r h n)

-- A column of the old decision, copied to the first place after `p`.
copy_column :
    (n size len : ℕ) (p r : List String) (h : String) (xs ys : List ℤ)
    → length xs ≡ len
    → size ≤ n
    → length p < size
    → Copied (p ++ "" ∷ r) (pad n (pos 0) xs) ys
    → Copied
        (p ++ h ∷ r)
        (pad n
          (pos 0)
          (put_column (ltb len size) size (pos 0) (length p) (get_or ys (length p) (pos 0)) xs))
        ys
copy_column n size len p r h xs ys same fits inside c =
    rw
      (pad-put_column n size len (length p) (pos 0) (get_or ys (length p) (pos 0)) xs same fits
        inside)
      (Copied-set p r h (pad n (pos 0) xs) ys (pos 0) c)

module _ (old d : SchedulingDecision) (n : ℕ) (p r : List String) (h : String) (port : ℤ) where
  -- `addMessageInPosition` at the first place after `p`.
  pub place_at-Reps :
      h ≢ ""
      → n ≡ length p + suc (length r)
      → Reps old d n (p ++ "" ∷ r)
      → Reps old (place_at old (length p) h port d) n (p ++ h ∷ r)
  unfolding place_at add_message_in_position
  place_at-Reps named total_length s = record {
    host_column =
        pad-put_column n size len i "" h d.hosts refl fits inside
        ∙ ap (λ xs. set xs i h) s.host_column
        ∙ set-hole p r h;
    same_ids = grown d.message_ids (get_or old.message_ids i (pos 0)) s.same_ids;
    same_app_idxs = grown d.app_idxs (get_or old.app_idxs i (pos 0)) s.same_app_idxs;
    same_group_idxs = grown d.group_idxs (get_or old.group_idxs i (pos 0)) s.same_group_idxs;
    same_ports = grown d.mpi_ports port s.same_ports;
    size_le = omega (arith, host_length, s.size_le, fits);
    counted_le = omega (arith, host_length);
    counted = omega (arith, s.counted, count-fill_hole p r h named);
    ids = copy_column n size len p r h d.message_ids old.message_ids s.same_ids fits inside s.ids;
    apps = copy_column n size len p r h d.app_idxs old.app_idxs s.same_app_idxs fits inside s.apps;
    groups =
        copy_column n size len p r h d.group_idxs old.group_idxs s.same_group_idxs fits inside
          s.groups;
    app = s.app;
    group = s.group;
  }
    where
      i : ℕ
      i = length p

      size : ℕ
      size = max (length p + 1) (d.n_functions + 1)

      len : ℕ
      len = length d.hosts

      fits : size ≤ n
      fits = omega (arith, s.counted, count-fill_hole p r h named)

      inside : length p < size
      inside = omega arith

      host_length : length (put_column (ltb len size) size "" i h d.hosts) ≡ max len size
      host_length = length-put_column size len i "" h d.hosts refl

      grown :
          (xs : List ℤ) (v : ℤ)
          → length xs ≡ len
          → length (put_column (ltb len size) size (pos 0) i v xs)
            ≡ length (put_column (ltb len size) size "" i h d.hosts)
      grown xs v same = length-put_column size len i (pos 0) v xs same ∙ sym host_length

-- The test of the second loop finds the places without a host.
pub needs_host_lem :
    (old d : SchedulingDecision) (n : ℕ) (p r : List String) (h : String)
    → n ≡ length p + suc (length r)
    → count "" p ≡ 0
    → Reps old d n (p ++ h ∷ r)
    → needs_host (length p) d ≡ same_name h ""
unfolding needs_host count
needs_host_lem old d n p r h total_length full s = ground (
  arith,
  get_or-pad n (length p) "" d.hosts,
  ap (λ xs. get_or xs (length p) "") s.host_column,
  get_or-hole p r h,
  s.counted,
  count-append "" p (h ∷ r),
  count-le-length "" r,
)
