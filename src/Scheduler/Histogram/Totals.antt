-- ===== src/Scheduler/Histogram/Totals.antt =====
-- The slots that a histogram holds in all, and the search for a host with slots.
use faabric.Prelude.{
  ℕ, zero, suc, ◌+◌, ◌-◌, ◌<◌, ◌≤◌, ◌≡◌, refl, none, List, [], ◌∷◌, String, arith, ltb, length,
  same_name_iff, name_key,
}
use faabric.Prelude.Maps.{lookup, insert, lookup-insert}
use faabric.Prelude.Results.{ok}
use faabric.Scheduler.Decision.{SchedulingDecision}
use faabric.Scheduler.Histogram.{
  Histogram, freq, bump, count_hosts, get_host_freq_count, has_slot, take_slot,
  next_host_with_slots,
}

pub total : Histogram → ℕ
total [] = 0
total ((h, n) ∷ m) = n + total m

-- Each host has one entry.
abbrev pub IsDistinct : Histogram → Type 0
IsDistinct [] = Unit {0}
IsDistinct ((h, n) ∷ m) = (lookup h m ≡ none) × IsDistinct m

total-insert : (h : String) (v : ℕ) (m : Histogram) → total (insert h v m) + freq h m ≡ total m + v
unfolding total insert freq lookup
total-insert h v [] = omega arith
total-insert h v ((j, n) ∷ m) = ground (arith, same_name_iff j h, total-insert h v m)

insert-IsDistinct : (h : String) (v : ℕ) (m : Histogram) → IsDistinct m → IsDistinct (insert h v m)
unfolding insert lookup
insert-IsDistinct h v [] d = (refl, tt)
insert-IsDistinct h v ((j, n) ∷ m) d = ground (
  arith,
  same_name_iff j h,
  same_name_iff h j,
  lookup-insert h j v m,
  insert-IsDistinct h v m d.1,
)

total-count_hosts :
    (hs : List String) (m : Histogram) → total (count_hosts hs m) ≡ total m + length hs
unfolding count_hosts bump
total-count_hosts [] m = omega arith
total-count_hosts (h ∷ hs) m =
    omega (arith, total-count_hosts hs (insert h (freq h m + 1) m), total-insert h (freq h m + 1) m)

count_hosts-IsDistinct :
    (hs : List String) (m : Histogram) → IsDistinct m → IsDistinct (count_hosts hs m)
unfolding count_hosts bump
count_hosts-IsDistinct [] m d = d
count_hosts-IsDistinct (h ∷ hs) m d =
    count_hosts-IsDistinct hs (insert h (freq h m + 1) m) (insert-IsDistinct h (freq h m + 1) m d)

-- The map of a decision has a slot for each of its messages.
pub total-get_host_freq_count :
    (d : SchedulingDecision) → total (get_host_freq_count d) ≡ length d.hosts
unfolding get_host_freq_count total
total-get_host_freq_count d = omega (arith, total-count_hosts d.hosts [])

pub get_host_freq_count-IsDistinct : (d : SchedulingDecision) → IsDistinct (get_host_freq_count d)
unfolding get_host_freq_count
get_host_freq_count-IsDistinct d = count_hosts-IsDistinct d.hosts [] tt

pub freq-le-total : (h : String) (m : Histogram) → freq h m ≤ total m
unfolding freq total lookup
freq-le-total h [] = omega arith
freq-le-total h ((j, n) ∷ m) = ground (arith, freq-le-total h m)

pub take_slot-IsDistinct : (h : String) (m : Histogram) → IsDistinct m → IsDistinct (take_slot h m)
unfolding take_slot
take_slot-IsDistinct h m d = insert-IsDistinct h (freq h m - 1) m d

pub total-take_slot :
    (h : String) (m : Histogram) → 0 < freq h m → total (take_slot h m) + 1 ≡ total m
unfolding take_slot
total-take_slot h m p = omega (arith, total-insert h (freq h m - 1) m)

-- The two tests of `contains(h) && at(h) > 0` come to one.
pub has_slot_lem : (h : String) (m : Histogram) → has_slot h m ≡ ltb 0 (freq h m)
unfolding has_slot freq
has_slot_lem h m = ground arith

-- While the map holds a slot, the search finds a host that has one.
pub next_host_with_slots-total :
    (m : Histogram)
    → IsDistinct m
    → 0 < total m
    → (h : String) × (next_host_with_slots m ≡ ok h) × (0 < freq h m)
unfolding next_host_with_slots total freq lookup
next_host_with_slots-total [] d p = absurd (omega arith)
next_host_with_slots-total ((j, zero) ∷ m) d p =
    let (h, found, some_left) = next_host_with_slots-total m d.1 (omega arith) in
    (h, found, ground (arith, same_name_iff j h))
next_host_with_slots-total ((j, suc n) ∷ m) d p =
    (j, ground arith, ground (arith, same_name_iff j j))
