-- ===== src/Scheduler/Sorting.antt =====
-- The orders in which the policies fill the hosts, and `std::sort` by them. Each comparison is a
-- lambda of `getSortedHosts`; the four schedulers have the same `isFirstHostLarger`.
use faabric.Prelude.{Bool, List, [], ◌∷◌, not, ltb, ◌==◌, if◌then◌else◌, name_before, name_key}
use faabric.Prelude.Maps.{contains}
use faabric.Scheduler.Hosts.{HostState, HostMap, num_slots_available, free_slots}
use faabric.Scheduler.Histogram.{Histogram, freq}

-- More free slots first, then more slots, then the later name.
pub is_first_host_larger : HostState → HostState → Bool
is_first_host_larger a b =
    if not (num_slots_available a == num_slots_available b)
    then ltb (num_slots_available b) (num_slots_available a)
    else if not (a.slots == b.slots)
    then ltb b.slots a.slots
    else name_before b.ip a.ip

-- More messages of the app first.
pub is_first_host_larger_with_freq : Histogram → HostState → HostState → Bool
unfolding freq is_first_host_larger
is_first_host_larger_with_freq hist a b =
    if not (freq a.ip hist == freq b.ip hist)
    then ltb (freq b.ip hist) (freq a.ip hist)
    else is_first_host_larger a b

-- More free slots first, then more messages of the app.
pub is_first_host_larger_with_freq_taint : Histogram → HostState → HostState → Bool
unfolding is_first_host_larger_with_freq
is_first_host_larger_with_freq_taint hist a b =
    if not (num_slots_available a == num_slots_available b)
    then ltb (num_slots_available b) (num_slots_available a)
    else is_first_host_larger_with_freq hist a b

-- More used slots first.
pub is_first_host_fuller : HostState → HostState → Bool
unfolding is_first_host_larger
is_first_host_fuller a b =
    if not (a.used_slots == b.used_slots)
    then ltb b.used_slots a.used_slots
    else is_first_host_larger a b

-- `std::sort`, by insertion.
unfoldable pub insert_sorted :
    (HostState → HostState → Bool) → HostState → List HostState → List HostState
insert_sorted first h [] = h ∷ []
insert_sorted first h (g ∷ gs) =
    let rest = insert_sorted first h gs in if first g h then g ∷ rest else h ∷ g ∷ gs

unfoldable pub sort : (HostState → HostState → Bool) → List HostState → List HostState
unfolding insert_sorted
sort first [] = []
sort first (h ∷ hs) = insert_sorted first h (sort first hs)

-- The loop of DIST_CHANGE that takes the app's messages out of the hosts. The sorted hosts are the
-- host states that the map points to, so the map changes with them.
unfoldable pub free_app_slots : Histogram → HostMap → HostMap
unfolding freq free_slots
free_app_slots hist [] = []
free_app_slots hist ((key, host) ∷ m) =
    (key, if contains host.ip hist then free_slots host (freq host.ip hist) else host)
    ∷ free_app_slots hist m
