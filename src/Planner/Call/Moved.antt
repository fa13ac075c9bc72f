-- ===== src/Planner/Call/Moved.antt =====
-- `callBatch` on a migration: the slots of the old hosts and of the new ones.
use faabric.Prelude.{
  ℕ, ◌+◌, ◌≡◌, refl, ◌∙◌, ap, Option, some, List, [], ◌∷◌, String, arith, length, ◌==◌,
  if◌then◌else◌, name_key, same_name, same_name_iff, Bool-cases, inl, inr,
}
use faabric.Prelude.Int.{ℤ, int_key}
use faabric.Prelude.Counts.{count}
use faabric.Prelude.Maps.{lookup}
use faabric.Prelude.Maps.Entries.{lookup-insert_same}
use faabric.Prelude.Results.{
  Result, throws, ok, Ensures, Ensures-ok, Ensures-if, Ensures-any, Ensures-bind, Ensures-map,
}
use faabric.Batch.{BatchExecuteRequest, update_batch_exec_group_id}
use faabric.Scheduler.Decision.{SchedulingDecision}
use faabric.Planner.{Host, Hosts, PlannerState, PlannerError, change_host, host_at}
use faabric.Planner.Slots.{claim_host_slots, release_host_slots}
use faabric.Planner.Ports.{claim_host_mpi_port, release_host_mpi_port}
use faabric.Planner.Change.{
  used_at, used_at-insert, used_at-release, used_at-claim, used_at-keeps, moved_at, host_at-Ensures,
}
use faabric.Planner.Results.Laws.{release_host_mpi_port-used}
use faabric.Planner.Call.{Called}
use faabric.Planner.Call.Prepare.{first_of}
use faabric.Planner.Call.Claims.{
  occupy, claimed_port, release_one, release_moved, occupy_one, occupy_moved, tail,
}
use faabric.Planner.Call.Claims.Slots.{HasSameSlots, claim_host_mpi_port-HasSameSlots}
use faabric.Planner.Call.Place.{place_moved}

-- The messages that leave a host, and the ones that come to it.
moved_from : String → List String → List String → ℕ
moved_from ip [] news = 0
moved_from ip (o ∷ os) [] = 0
moved_from ip (o ∷ os) (n ∷ ns) =
    (if same_name n o then 0 else if same_name o ip then 1 else 0) + moved_from ip os ns

moved_to : String → List String → List String → ℕ
moved_to ip [] olds = 0
moved_to ip (n ∷ ns) [] = 0
moved_to ip (n ∷ ns) (o ∷ os) =
    (if same_name n o then 0 else if same_name n ip then 1 else 0) + moved_to ip ns os

-- The messages that stay count on both sides.
moved_balance :
    (ip : String) (olds news : List String)
    → length news ≡ length olds
    → moved_from ip olds news + count ip news ≡ moved_to ip news olds + count ip olds
unfolding moved_from moved_to count
moved_balance ip [] [] e = refl
moved_balance ip [] (n ∷ ns) e = absurd (omega arith)
moved_balance ip (o ∷ os) [] e = absurd (omega arith)
moved_balance ip (o ∷ os) (n ∷ ns) e = elim (Bool-cases (same_name n o)) [
  | inl same ↦ ground (
    arith,
    same,
    ap (λ x. same_name x ip) ((same_name_iff n o).0 same),
    moved_balance ip os ns (omega (arith, e)),
  )
  | inr other ↦ ground (arith, other, moved_balance ip os ns (omega (arith, e)))
]

release_one-used :
    (o n : String) (ports : List ℤ) (m : Hosts)
    → Ensures
        (λ m'.
          (ip : String)
          → used_at ip m
            ≡ used_at ip m' + (if same_name n o then 0 else if same_name o ip then 1 else 0))
        (release_one o n ports m)
unfolding release_one Ensures
release_one-used o n ports m =
    Ensures-if P (same_name n o) (ok m) _ (λ same ip. ground (arith, same))
      (λ other.
        Ensures-bind
          (λ r. (ip : String) → used_at ip m ≡ used_at ip r + (if same_name o ip then 1 else 0)) P
          (change_host o (release_host_slots 1) m) _ (used_at-release o 1 m)
          (λ r u.
            Ensures-bind (λ p. Unit) P (first_of ports) _ (Ensures-any (first_of ports))
              (λ port t.
                Ensures-map (λ m'. (ip : String) → used_at ip m' ≡ used_at ip r) P
                  (change_host o (release_host_mpi_port port) r)
                  (used_at-keeps o (release_host_mpi_port port) r (release_host_mpi_port-used port))
                  (λ m' k ip. ground (arith, other, u ip, k ip)))))
  where
    P : Hosts → Type 0
    P m' =
        (ip : String)
        → used_at ip m
          ≡ used_at ip m' + (if same_name n o then 0 else if same_name o ip then 1 else 0)

release_moved-used :
    (olds news : List String) (ports : List ℤ) (m : Hosts)
    → Ensures
        (λ m'. (ip : String) → used_at ip m ≡ used_at ip m' + moved_from ip olds news)
        (release_moved olds news ports m)
unfolding release_moved moved_from Ensures
release_moved-used [] news ports m = λ ip. omega arith
release_moved-used (o ∷ os) [] ports m = tt
release_moved-used (o ∷ os) (n ∷ ns) ports m =
    Ensures-bind _ _ (release_one o n ports m) (release_moved os ns (tail ports))
      (release_one-used o n ports m)
      (λ r u.
        Ensures-map _ _ (release_moved os ns (tail ports) r)
          (release_moved-used os ns (tail ports) r) (λ m' k ip. omega (arith, u ip, k ip)))

-- What a host without the claimed port has: the used slots are as they were.
claimed_port-used :
    (ip : String) (m : Hosts) (host : Host) (r : Result PlannerError (ℤ × Host))
    → lookup ip m ≡ some host
    → Ensures (λ p. p.1.used_slots ≡ host.used_slots) r
    → (i : String) → used_at i (claimed_port ip m r).1 ≡ used_at i m
unfolding claimed_port Ensures
claimed_port-used ip m host (throws e) found same i = refl
claimed_port-used ip m host (ok (port, changed)) found same i = elim (Bool-cases (same_name ip i)) [
  | inl q ↦ ground (arith, used_at-insert ip i changed m, same, moved_at ip i host m found q)
  | inr q ↦ ground (arith, used_at-insert ip i changed m)
]

abbrev Took : String → Hosts → Option ℤ × Hosts → Type 0
Took ip m r = (i : String) → used_at i r.1 ≡ used_at i m + (if same_name ip i then 1 else 0)

occupy-used : (ip : String) (m : Hosts) → Ensures (Took ip m) (occupy ip m)
unfolding occupy Ensures
occupy-used ip m =
    Ensures-bind (λ c. (i : String) → used_at i c ≡ used_at i m + (if same_name ip i then 1 else 0))
      (Took ip m) (change_host ip (claim_host_slots 1) m) _ (used_at-claim ip 1 m)
      (λ c u.
        Ensures-bind (λ host. lookup ip c ≡ some host) (Took ip m) (host_at ip c) _
          (host_at-Ensures ip c)
          (λ host found i.
            claimed_port-used ip c host (claim_host_mpi_port host) found
              (Ensures-map (λ p. HasSameSlots host p.1) (λ p. p.1.used_slots ≡ host.used_slots)
                (claim_host_mpi_port host) (claim_host_mpi_port-HasSameSlots host) (λ p q. q.2))
              i
            ∙ u i))

occupy_one-used :
    (n o : String) (ports : List ℤ) (m : Hosts)
    → Ensures
        (λ r.
          (ip : String)
          → used_at ip r.1
            ≡ used_at ip m + (if same_name n o then 0 else if same_name n ip then 1 else 0))
        (occupy_one n o ports m)
unfolding occupy_one Ensures
occupy_one-used n o ports m =
    Ensures-if P (same_name n o) _ (occupy n m)
      (λ same.
        Ensures-bind (λ p. Unit) P (first_of ports) _ (Ensures-any (first_of ports))
          (λ port t ip. ground (arith, same)))
      (λ other.
        Ensures-map (Took n m) P (occupy n m) (occupy-used n m)
          (λ r u ip. ground (arith, other, u ip)))
  where
    P : Option ℤ × Hosts → Type 0
    P r =
        (ip : String)
        → used_at ip r.1
          ≡ used_at ip m + (if same_name n o then 0 else if same_name n ip then 1 else 0)

occupy_moved-used :
    (news olds : List String) (new_ports old_ports : List ℤ) (m : Hosts)
    → Ensures
        (λ r. (ip : String) → used_at ip r.1 ≡ used_at ip m + moved_to ip news olds)
        (occupy_moved news olds new_ports old_ports m)
unfolding occupy_moved moved_to Ensures
occupy_moved-used [] olds new_ports old_ports m = λ ip. omega arith
occupy_moved-used (n ∷ ns) [] new_ports old_ports m = tt
occupy_moved-used (n ∷ ns) (o ∷ os) [] old_ports m =
    Ensures-if _ (same_name n o) _ _ (λ same. tt)
      (λ other. Ensures-bind (Took n m) _ (occupy n m) _ (occupy-used n m) (λ r u.
        Ensures-map (λ q. (ip : String) → used_at ip q.1 ≡ used_at ip r.1 + moved_to ip ns os) _
          (occupy_moved ns os [] (tail old_ports) r.1)
          (occupy_moved-used ns os [] (tail old_ports) r.1)
          (λ q k ip. ground (arith, other, u ip, k ip))))
occupy_moved-used (n ∷ ns) (o ∷ os) (p ∷ ps) old_ports m =
    Ensures-bind _ _ (occupy_one n o old_ports m) _ (occupy_one-used n o old_ports m) (λ r u.
      Ensures-bind (λ q. (ip : String) → used_at ip q.1 ≡ used_at ip r.1 + moved_to ip ns os) _
        (occupy_moved ns os ps (tail old_ports) r.1) _
        (occupy_moved-used ns os ps (tail old_ports) r.1) (λ q k ip. omega (arith, u ip, k ip)))

-- After a migration: the app is in flight with the new decision, and the slots moved with its messages.
abbrev IsMoved :
    ℤ
    → BatchExecuteRequest
    → SchedulingDecision
    → BatchExecuteRequest
    → SchedulingDecision
    → PlannerState
    → Called
    → Type 0
IsMoved group_id req d old_req old_dec s c =
    ((ip : String)
      → used_at ip c.state.host_map + count ip old_dec.hosts
        ≡ used_at ip s.host_map + count ip d.hosts)
    × (c.decision.hosts ≡ d.hosts)
    × (lookup req.app_id c.state.in_flight_reqs
        ≡ some (update_batch_exec_group_id old_req group_id, c.decision))

-- When the planner carries out a migration without failing, the used slots of each host change by the
-- messages of the app that it gets less those that it had, and the app is in flight with the messages
-- that it had, under the new group id, and the new decision.
pub place_moved_lem :
    (group_id : ℤ) (req : BatchExecuteRequest) (d : SchedulingDecision)
    (old_req : BatchExecuteRequest) (old_dec : SchedulingDecision) (s : PlannerState) (c : Called)
    → place_moved group_id req d old_req old_dec s ≡ ok c
    → ((ip : String)
        → used_at ip c.state.host_map + count ip old_dec.hosts
          ≡ used_at ip s.host_map + count ip d.hosts)
      × (c.decision.hosts ≡ d.hosts)
      × (lookup req.app_id c.state.in_flight_reqs
          ≡ some (update_batch_exec_group_id old_req group_id, c.decision))
unfolding place_moved Ensures
place_moved_lem group_id req d old_req old_dec s c run =
    Ensures-ok P (place_moved group_id req d old_req old_dec s) c
      (Ensures-if P (length d.hosts == length old_dec.hosts) _ _
        (λ e.
          Ensures-bind
            (λ r.
              (ip : String)
              → used_at ip r.1 + count ip old_dec.hosts ≡ used_at ip s.host_map + count ip d.hosts)
            P _ _
            (Ensures-bind
              (λ m.
                (ip : String)
                → used_at ip s.host_map ≡ used_at ip m + moved_from ip old_dec.hosts d.hosts)
              _ (release_moved old_dec.hosts d.hosts old_dec.mpi_ports s.host_map) _
              (release_moved-used old_dec.hosts d.hosts old_dec.mpi_ports s.host_map)
              (λ m u.
                Ensures-map
                  (λ r.
                    (ip : String)
                    → used_at ip r.1 ≡ used_at ip m + moved_to ip d.hosts old_dec.hosts)
                  _ (occupy_moved d.hosts old_dec.hosts d.mpi_ports old_dec.mpi_ports m)
                  (occupy_moved-used d.hosts old_dec.hosts d.mpi_ports old_dec.mpi_ports m)
                  (λ r k ip. omega (
                    arith,
                    u ip,
                    k ip,
                    moved_balance ip old_dec.hosts d.hosts (ground (arith, e)),
                  ))))
            (λ r u. (
              u,
              refl,
              lookup-insert_same req.app_id
                  (update_batch_exec_group_id old_req group_id, record d { mpi_ports = r.0 })
                  s.in_flight_reqs,
            )))
        (λ e. tt))
      run
  where
    P : Called → Type 0
    P = IsMoved group_id req d old_req old_dec s
