-- ===== src/Scheduler/Minimise/Spec.antt =====
-- What the two loops do to the list of hosts, on lists: first the messages that stay, with the empty
-- name at the places of the others, then the hosts for those places.
use faabric.Prelude.{
  ◌+◌, ◌≡◌, ◌≢◌, refl, inl, inr, List, [], ◌∷◌, true, false, arith, ap, suc, ◌<◌, ◌≤◌,
  if◌then◌else◌, length, String, same_name, same_name_iff, Bool-cases,
}
use faabric.Prelude.Results.{ok}
use faabric.Prelude.Counts.{count}
use faabric.Scheduler.Histogram.{
  Histogram, freq, has_slot, take_slot, next_host_with_slots, freq-take_slot,
}
use faabric.Scheduler.Histogram.Totals.{
  total, IsDistinct, take_slot-IsDistinct, total-take_slot, has_slot_lem,
  next_host_with_slots-total,
}

-- The histogram after a message on `h` was looked at.
unfoldable pub after_keep : String → Histogram → Histogram
after_keep h m = if has_slot h m then take_slot h m else m

unfoldable pub kept : List String → Histogram → List String
unfolding after_keep
kept [] m = []
kept (h ∷ hs) m = (if has_slot h m then h else "") ∷ kept hs (after_keep h m)

-- The slots that the first loop leaves.
unfoldable pub kept_left : List String → Histogram → Histogram
unfolding after_keep
kept_left [] m = m
kept_left (h ∷ hs) m = kept_left hs (after_keep h m)

-- The second loop on lists: the empty names give way to the next host with slots.
pub data Moved : List String → Histogram → List String → Histogram → Type 0 where
  done : {m : Histogram} → Moved [] m [] m
  moves :
      {h n : String} {hs rs : List String} {m left : Histogram}
      → same_name h "" ≡ true
      → next_host_with_slots m ≡ ok n
      → n ≢ ""
      → Moved hs (take_slot n m) rs left
      → Moved (h ∷ hs) m (n ∷ rs) left
  stays :
      {h : String} {hs rs : List String} {m left : Histogram}
      → same_name h "" ≡ false
      → Moved hs m rs left
      → Moved (h ∷ hs) m (h ∷ rs) left

abbrev pub AllNamed : List String → Type 0
AllNamed [] = Unit {0}
AllNamed (h ∷ hs) = (h ≢ "") × AllNamed hs

pub length-kept : (hs : List String) (m : Histogram) → length (kept hs m) ≡ length hs
unfolding kept
length-kept [] m = refl
length-kept (h ∷ hs) m = ap suc (length-kept hs (after_keep h m))

after_keep-IsDistinct : (h : String) (m : Histogram) → IsDistinct m → IsDistinct (after_keep h m)
unfolding after_keep
after_keep-IsDistinct h m d = elim (Bool-cases (has_slot h m)) [
  | inl e ↦ rw e (take_slot-IsDistinct h m d)
  | inr e ↦ rw e d
]

pub kept_left-IsDistinct :
    (hs : List String) (m : Histogram) → IsDistinct m → IsDistinct (kept_left hs m)
unfolding kept_left
kept_left-IsDistinct [] m d = d
kept_left-IsDistinct (h ∷ hs) m d =
    kept_left-IsDistinct hs (after_keep h m) (after_keep-IsDistinct h m d)

-- A host that keeps messages gives up as many slots.
pub count-kept :
    (h : String) (hs : List String) (m : Histogram)
    → h ≢ ""
    → count h (kept hs m) + freq h (kept_left hs m) ≡ freq h m
unfolding kept kept_left count after_keep
count-kept h [] m n = omega arith
count-kept h (g ∷ hs) m n = ground (
  arith,
  has_slot_lem g m,
  same_name_iff g h,
  same_name_iff "" h,
  freq-take_slot g h m,
  count-kept h hs m n,
  count-kept h hs (take_slot g m) n,
)

-- The slots that are left are as many as the places without a host.
pub total-kept_left :
    (hs : List String) (m : Histogram)
    → AllNamed hs
    → total (kept_left hs m) + length hs ≡ total m + count "" (kept hs m)
unfolding kept kept_left count after_keep
total-kept_left [] m n = omega arith
total-kept_left (h ∷ hs) m n = elim (Bool-cases (has_slot h m)) [
  | inl e ↦ rw e (
      ground (
        arith,
        has_slot_lem h m,
        same_name_iff h "",
        total-take_slot h m,
        n.0,
        total-kept_left hs (take_slot h m) n.1,
      ))
  | inr e ↦ rw e (ground (arith, same_name_iff "" "", total-kept_left hs m n.1))
]

-- The second loop's result: a host everywhere, no slot left, and each host's slots used on it.
pub record Fills (hs : List String) (m : Histogram) (rs : List String) (left : Histogram)
    : Type 0 where
  pub run : Moved hs m rs left
  same_length : length rs ≡ length hs
  pub no_holes : count "" rs ≡ 0
  pub all_used : total left ≡ 0
  pub counts : (h : String) → h ≢ "" → count h rs + freq h left ≡ count h hs + freq h m

moves-Fills :
    (h n : String) (hs : List String) (m : Histogram) (rs : List String) (left : Histogram)
    → same_name h "" ≡ true
    → next_host_with_slots m ≡ ok n
    → 0 < freq n m
    → freq "" m ≡ 0
    → Fills hs (take_slot n m) rs left
    → Fills (h ∷ hs) m (n ∷ rs) left
unfolding count
moves-Fills h n hs m rs left hole found some_left z f = record {
  run = moves hole found named f.run;
  same_length = ap suc f.same_length;
  no_holes = ground (arith, same_name_iff n "");
  all_used = f.all_used;
  counts = λ i ne. ground (
    arith,
    f.counts i ne,
    freq-take_slot n i m,
    same_name_iff n i,
    same_name_iff h i,
    same_name_iff h "",
  );
}
  where
    named : n ≢ ""
    named e = absurd (not_named e)
      where
        not_named : n ≡ "" → ⊥
        not_named e = ground (arith, some_left, z, ap (λ k. freq k m) e)

stays-Fills :
    (h : String) (hs : List String) (m : Histogram) (rs : List String) (left : Histogram)
    → same_name h "" ≡ false
    → Fills hs m rs left
    → Fills (h ∷ hs) m (h ∷ rs) left
unfolding count
stays-Fills h hs m rs left named f = record {
  run = stays named f.run;
  same_length = ap suc f.same_length;
  no_holes = ground arith;
  all_used = f.all_used;
  counts = λ i ne. ground (arith, f.counts i ne);
}

pub moved-Fills :
    (hs : List String) (m : Histogram)
    → IsDistinct m
    → freq "" m ≡ 0
    → total m ≡ count "" hs
    → (rs : List String) × (left : Histogram) × Fills hs m rs left
unfolding count
moved-Fills [] m d z t = (
  [],
  m,
  record { run = done; same_length = refl; no_holes = refl; all_used = t; counts = λ h n. refl },
)
moved-Fills (h ∷ hs) m d z t = elim (Bool-cases (same_name h "")) [
  | inl hole ↦
      let (n, found, some_left) = next_host_with_slots-total m d (ground (arith, hole)) in
      let (rs, left, f) =
        moved-Fills hs (take_slot n m) (take_slot-IsDistinct n m d)
          (ground (arith, freq-take_slot n "" m)) (ground (arith, hole, total-take_slot n m)) in
      (n ∷ rs, left, moves-Fills h n hs m rs left hole found some_left z f)
  | inr named ↦
      let (rs, left, f) = moved-Fills hs m d z (ground (arith, named)) in
      (h ∷ rs, left, stays-Fills h hs m rs left named f)
]

pub freq-kept_left-le :
    (h : String) (hs : List String) (m : Histogram) → freq h (kept_left hs m) ≤ freq h m
unfolding kept_left after_keep
freq-kept_left-le h [] m = omega arith
freq-kept_left-le h (g ∷ hs) m =
    ground (
      arith,
      freq-take_slot g h m,
      freq-kept_left-le h hs m,
      freq-kept_left-le h hs (take_slot g m),
    )
