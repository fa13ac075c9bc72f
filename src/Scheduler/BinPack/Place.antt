-- ===== src/Scheduler/BinPack/Place.antt =====
-- The bin-pack policy for a request that is new or grows.
use faabric.Prelude.{◌≡◌, ◌≢◌, refl, ap, ◌∙◌, inl, inr, false, List, [], ◌∷◌}
use faabric.Prelude.Int.{pos, to_u32, int_key}
use faabric.Prelude.Results.{Result, ok, ◌>>=◌}
use faabric.Batch.{Message, BatchExecuteRequest}
use faabric.Scheduler.Decision.{SchedulingDecision, Error, new_decision}
use faabric.Scheduler.Hosts.{
  HostState, HostMap, InFlightReqs, DecisionType, new, dist_change, scale_change, get_decision_type,
  old_decision_of, map_values,
}
use faabric.Scheduler.Hosts.Kinds.{get_decision_type-cases}
use faabric.Scheduler.Pack.{pack}
use faabric.Scheduler.Sorting.{sort, is_first_host_larger, is_first_host_larger_with_freq}
use faabric.Scheduler.Histogram.{get_host_freq_count}
use faabric.Scheduler.Placement.{
  Packed, SameSlots, Outcome, sort-SameSlots, Packed-SameSlots, pack-Packed,
}
use faabric.Scheduler.BinPack.{get_sorted_hosts, restrict_hosts, finish, make_scheduling_decision}

finish-Outcome :
    (in_flight : InFlightReqs) (req : BatchExecuteRequest) (kind : DecisionType)
    (hosts : List HostState) (left : List Message) (d : SchedulingDecision)
    → kind ≢ dist_change
    → Packed hosts req.messages (left, d)
    → (d' : SchedulingDecision) × (finish in_flight req kind (left, d) ≡ ok d')
      × Outcome hosts req.messages d'
unfolding finish
finish-Outcome in_flight req kind hosts [] d ne (inl (more, (m, ms, e))) = absurd (cc)
finish-Outcome in_flight req kind hosts (m ∷ ms) d ne (inl (more, some_left)) =
    (_, refl, inl (more, refl))
finish-Outcome in_flight req kind hosts (m ∷ ms) d ne (inr (fits, e, p)) = absurd (cc)
finish-Outcome in_flight req dist_change hosts [] d ne (inr (fits, e, p)) = absurd (ne refl)
finish-Outcome in_flight req _ hosts [] d ne (inr (fits, e, p)) = (d, refl, inr (fits, p))

-- The hosts of the map, in some order.
sorted_lem :
    (host_map : HostMap) (in_flight : InFlightReqs) (req : BatchExecuteRequest)
    → get_decision_type in_flight req ≢ dist_change
    → (hosts : List HostState) × (get_sorted_hosts host_map in_flight req
          (get_decision_type in_flight req)
        ≡ ok (host_map, hosts))
      × SameSlots hosts (map_values host_map)
sorted_lem host_map in_flight req ne = elim (get_decision_type-cases in_flight req) [
  | inl e ↦ (_, ap (get_sorted_hosts host_map in_flight req) e ∙ new_hosts, sort-SameSlots _ _)
  | inr (inl (e, (old, same))) ↦
      (_, ap (get_sorted_hosts host_map in_flight req) e ∙ grown_hosts old same, sort-SameSlots _ _)
  | inr (inr (e, old)) ↦ absurd (ne e)
]
  where
    new_hosts :
        get_sorted_hosts host_map in_flight req new
        ≡ ok (host_map, sort is_first_host_larger (map_values host_map))
    new_hosts = unfold get_sorted_hosts in refl

    grown_hosts :
        (old : SchedulingDecision)
        → old_decision_of in_flight req ≡ ok old
        → get_sorted_hosts host_map in_flight req scale_change
          ≡ ok (
            host_map,
            sort (is_first_host_larger_with_freq (get_host_freq_count old)) (map_values host_map),
          )
    grown_hosts old same = unfold get_sorted_hosts in rw same refl

pub unrestricted :
    (req : BatchExecuteRequest) (hosts : List HostState)
    → req.single_host_hint ≡ false
    → restrict_hosts req hosts ≡ ok hosts
unfolding restrict_hosts
unrestricted req hosts hint = rw hint refl

pub bind_two :
    {M A B : Type 0} (restrict : A → Result Error A) (rest : A → Result Error B)
    (sorted : Result Error (M × A)) {m : M} {a b : A} {r : B}
    → sorted ≡ ok (m, a)
    → restrict a ≡ ok b
    → rest b ≡ ok r
    → (sorted >>= λ p. restrict p.1 >>= rest) ≡ ok r
bind_two restrict rest sorted e f g = rw (e, f) g

-- With no single-host hint, a request that is new or adds messages to an app is refused exactly when
-- it has more messages than the hosts have free slots in all, and else every message is placed, in
-- order, with no host given more than its free slots. No exception is thrown.
pub bin_pack_places :
    (host_map : HostMap) (in_flight : InFlightReqs) (req : BatchExecuteRequest)
    → get_decision_type in_flight req ≢ dist_change
    → req.single_host_hint ≡ false
    → (d : SchedulingDecision) × (make_scheduling_decision host_map in_flight req ≡ ok d)
      × Outcome (map_values host_map) req.messages d
unfolding make_scheduling_decision
bin_pack_places host_map in_flight req ne hint =
    let (hosts, e, same) = sorted_lem host_map in_flight req ne in
    let r = pack hosts req.messages (new_decision (to_u32 req.app_id) (pos 0)) in
    let (d, e', out) =
      finish-Outcome in_flight req (get_decision_type in_flight req) (map_values host_map) r.0 r.1
        ne
        (Packed-SameSlots hosts (map_values host_map) req.messages r same
          (pack-Packed hosts req.messages (to_u32 req.app_id))) in
    (
      d,
      bind_two (restrict_hosts req)
          (λ x.
            finish in_flight req (get_decision_type in_flight req)
              (pack x req.messages (new_decision (to_u32 req.app_id) (pos 0))))
          (get_sorted_hosts host_map in_flight req (get_decision_type in_flight req)) e
          (unrestricted req hosts hint) e',
      out,
    )
