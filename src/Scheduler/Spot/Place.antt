-- ===== src/Scheduler/Spot/Place.antt =====
-- The spot policy for a request that is new or grows.
use faabric.Prelude.{◌≡◌, ◌≢◌, refl, ap, ◌∙◌, inl, inr, List, [], ◌∷◌, arith}
use faabric.Prelude.Int.{pos, to_u32}
use faabric.Prelude.Results.{Result, ok, ◌>>=◌}
use faabric.Prelude.Maps.{Map}
use faabric.Prelude.Counts.{count}
use faabric.Prelude.{String}
use faabric.Batch.{Message, BatchExecuteRequest}
use faabric.Scheduler.Decision.{SchedulingDecision, Error, new_decision, not_enough_slots_decision}
use faabric.Scheduler.Hosts.{
  HostState, HostMap, InFlightReqs, DecisionType, new, dist_change, scale_change, get_decision_type,
  old_decision_of, map_values,
}
use faabric.Scheduler.Hosts.Kinds.{get_decision_type-cases}
use faabric.Scheduler.Pack.{pack}
use faabric.Scheduler.Sorting.{sort, is_first_host_larger, is_first_host_larger_with_freq}
use faabric.Scheduler.Histogram.{get_host_freq_count}
use faabric.Scheduler.Placement.{
  Packed, SameSlots, Outcome, sort-SameSlots, Packed-SameSlots, pack-Packed,
}
use faabric.Scheduler.Spot.{
  filter_hosts, get_sorted_hosts, finish, make_scheduling_decision, must_evict_ip,
}
use faabric.Scheduler.Spot.Evicted.{slots_at-filter_hosts}

finish-Outcome :
    (evicted : Map String (Unit {0})) (in_flight : InFlightReqs) (req : BatchExecuteRequest)
    (kind : DecisionType) (hosts : List HostState) (left : List Message) (d : SchedulingDecision)
    → kind ≢ dist_change
    → Packed hosts req.messages (left, d)
    → (d' : SchedulingDecision) × (finish evicted in_flight req kind (left, d) ≡ ok d')
      × Outcome hosts req.messages d'
unfolding finish
finish-Outcome v in_flight req dist_change hosts left d ne packed = absurd (ne refl)
finish-Outcome v in_flight req kind hosts [] d ne (inl (more, (g, ms, e))) = absurd (cc)
finish-Outcome v in_flight req kind hosts (g ∷ ms) d ne (inr (fits, e, p)) = absurd (cc)
finish-Outcome v in_flight req _ hosts (g ∷ ms) d ne (inl (more, some_left)) =
    (_, refl, inl (more, refl))
finish-Outcome v in_flight req _ hosts [] d ne (inr (fits, e, p)) = (d, refl, inr (fits, p))

sorted_lem :
    (host_map : HostMap) (in_flight : InFlightReqs) (req : BatchExecuteRequest)
    → get_decision_type in_flight req ≢ dist_change
    → (hosts : List HostState) × (get_sorted_hosts host_map in_flight req
          (get_decision_type in_flight req)
        ≡ ok hosts)
      × SameSlots hosts (map_values host_map)
sorted_lem host_map in_flight req ne = elim (get_decision_type-cases in_flight req) [
  | inl e ↦ (_, ap (get_sorted_hosts host_map in_flight req) e ∙ new_hosts, sort-SameSlots _ _)
  | inr (inl (e, (old, same))) ↦
      (_, ap (get_sorted_hosts host_map in_flight req) e ∙ grown_hosts old same, sort-SameSlots _ _)
  | inr (inr (e, old)) ↦ absurd (ne e)
]
  where
    new_hosts :
        get_sorted_hosts host_map in_flight req new
        ≡ ok (sort is_first_host_larger (map_values host_map))
    new_hosts = unfold get_sorted_hosts in refl

    grown_hosts :
        (old : SchedulingDecision)
        → old_decision_of in_flight req ≡ ok old
        → get_sorted_hosts host_map in_flight req scale_change
          ≡ ok (
              sort (is_first_host_larger_with_freq (get_host_freq_count old)) (map_values host_map))
    grown_hosts old same = unfold get_sorted_hosts in rw same refl

pub bind_hosts :
    {A B : Type 0} (rest : A → Result Error B) (sorted : Result Error A) {a : A} {r : B}
    → sorted ≡ ok a
    → rest a ≡ ok r
    → (sorted >>= rest) ≡ ok r
bind_hosts rest sorted e f = rw e f

-- A request that is new or adds messages to an app is refused exactly when it has more messages than
-- the hosts that are not to be evicted have free slots in all, and else every message is placed, in
-- order, with no host given more than its free slots. No exception is thrown, and in both cases no
-- message is placed on a host with the mark of one to be evicted.
pub spot_places :
    (host_map : HostMap) (in_flight : InFlightReqs) (req : BatchExecuteRequest)
    → get_decision_type in_flight req ≢ dist_change
    → (d : SchedulingDecision) × (make_scheduling_decision host_map in_flight req ≡ ok d)
      × Outcome (map_values (filter_hosts host_map).0) req.messages d
      × (count must_evict_ip d.hosts ≡ 0)
unfolding make_scheduling_decision
spot_places host_map in_flight req ne =
    let filtered = (filter_hosts host_map).0 in
    let (hosts, e, same) = sorted_lem filtered in_flight req ne in
    let r = pack hosts req.messages (new_decision (to_u32 req.app_id) (pos 0)) in
    let (d, e', out) =
      finish-Outcome (filter_hosts host_map).1 in_flight req (get_decision_type in_flight req)
        (map_values filtered) r.0 r.1 ne
        (Packed-SameSlots hosts (map_values filtered) req.messages r same
          (pack-Packed hosts req.messages (to_u32 req.app_id))) in
    (
      d,
      bind_hosts
          (λ x.
            finish (filter_hosts host_map).1 in_flight req (get_decision_type in_flight req)
              (pack x req.messages (new_decision (to_u32 req.app_id) (pos 0))))
          (get_sorted_hosts filtered in_flight req (get_decision_type in_flight req)) e e',
      out,
      unmarked d out,
    )
  where
    unmarked :
        (d : SchedulingDecision)
        → Outcome (map_values (filter_hosts host_map).0) req.messages d
        → count must_evict_ip d.hosts ≡ 0
    unmarked d (inl (more, e)) = ap (λ x. count must_evict_ip x.hosts) e ∙ no_hosts
      where
        no_hosts : count must_evict_ip not_enough_slots_decision.hosts ≡ 0
        no_hosts = unfold new_decision count in refl
    unmarked d (inr (fits, p)) =
        omega (arith, p.within must_evict_ip, slots_at-filter_hosts host_map)
