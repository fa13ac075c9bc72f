-- ===== src/Scheduler/Histogram.antt =====
-- `getHostFreqCount` of the schedulers: how many messages of a decision each host runs, as a map in
-- the order of the host names, and the loops that take slots out of such a map.
pub mod Totals
use faabric.Prelude.{
  ℕ, zero, suc, ◌+◌, ◌-◌, ◌<◌, ◌≤◌, ◌≡◌, refl, ◌∙◌, Bool, true, false, ◌&&◌, Option, none, some,
  List, [], ◌∷◌, String, arith, ltb, if◌then◌else◌, length, same_name, same_name_iff, name_key,
}
use faabric.Prelude.Maps.{Map, lookup, insert, contains, lookup-insert}
use faabric.Prelude.Counts.{count}
use faabric.Prelude.Results.{Result, ok, throws}
use faabric.Scheduler.Decision.{SchedulingDecision, Error, no_next_host_with_slots}

abbrev pub Histogram : Type 0
Histogram = Map String ℕ

-- The count of a host, 0 where the map has no entry.
unfoldable pub freq : String → Histogram → ℕ
freq h m = elim (lookup h m) [ none ↦ 0 | some n ↦ n ]

-- `hostFreqCount[host] += 1`
pub bump : String → Histogram → Histogram
unfolding freq
bump h m = insert h (freq h m + 1) m

count_hosts : List String → Histogram → Histogram
count_hosts [] m = m
count_hosts (h ∷ hs) m = count_hosts hs (bump h m)

pub get_host_freq_count : SchedulingDecision → Histogram
unfolding count_hosts
get_host_freq_count decision = count_hosts decision.hosts []

-- `hostFreqCount.contains(h) && hostFreqCount.at(h) > 0`
pub has_slot : String → Histogram → Bool
unfolding freq
has_slot h m = contains h m && ltb 0 (freq h m)

-- `hostFreqCount.at(h) -= 1`, where the entry is there and above 0.
pub take_slot : String → Histogram → Histogram
unfolding freq
take_slot h m = insert h (freq h m - 1) m

-- `nextHostWithSlots`: the first host of the map, in the order of the names, with slots left.
pub next_host_with_slots : Histogram → Result Error String
next_host_with_slots [] = throws no_next_host_with_slots
next_host_with_slots ((ip, slots) ∷ m) = if ltb 0 slots then ok ip else next_host_with_slots m

freq-bump :
    (h i : String) (m : Histogram)
    → freq i (bump h m) ≡ (if same_name h i then freq i m + 1 else freq i m)
unfolding freq bump
freq-bump h i m = ground (arith, lookup-insert h i (freq h m + 1) m, same_name_iff h i)

freq-count_hosts :
    (i : String) (hs : List String) (m : Histogram)
    → freq i (count_hosts hs m) ≡ freq i m + count i hs
unfolding count_hosts count
freq-count_hosts i [] m = omega arith
freq-count_hosts i (h ∷ hs) m = ground (arith, freq-count_hosts i hs (bump h m), freq-bump h i m)

pub freq-take_slot :
    (h i : String) (m : Histogram)
    → freq i (take_slot h m) ≡ (if same_name h i then freq i m - 1 else freq i m)
unfolding freq take_slot
freq-take_slot h i m = ground (arith, lookup-insert h i (freq h m - 1) m, same_name_iff h i)

-- The map of a decision counts each host as often as the decision lists it.
pub freq-get_host_freq_count :
    (h : String) (d : SchedulingDecision) → freq h (get_host_freq_count d) ≡ count h d.hosts
unfolding get_host_freq_count freq lookup
freq-get_host_freq_count h d = omega (arith, freq-count_hosts h d.hosts [])
