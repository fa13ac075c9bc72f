-- ===== src/Scheduler/Compact/Others.antt =====
-- The hosts that the compact policy leaves out: those where another user's messages run.
use faabric.Prelude.{
  ◌≡◌, refl, inl, inr, Bool, false, not, ◌&&◌, ◌||◌, ltb, none, List, [], ◌∷◌, String, arith,
  if◌then◌else◌, same_name, name_key, Bool-cases,
}
use faabric.Prelude.Int.{int_eq}
use faabric.Prelude.Maps.{lookup, erase, lookup-erase}
use faabric.Prelude.Counts.{count}
use faabric.Batch.{BatchExecuteRequest}
use faabric.Scheduler.Hosts.{HostMap, InFlightReqs}
use faabric.Scheduler.Compact.{filter_hosts, erase_all}
use faabric.Scheduler.Migration.{NamedHosts}

erase-NamedHosts : (ip : String) (m : HostMap) → NamedHosts m → NamedHosts (erase ip m)
unfolding erase
erase-NamedHosts ip [] n = tt
erase-NamedHosts ip ((key, host) ∷ m) n = elim (Bool-cases (same_name key ip)) [
  | inl e ↦ rw e (erase-NamedHosts ip m n.1)
  | inr e ↦ rw e (n.0, erase-NamedHosts ip m n.1)
]

erase_all-NamedHosts :
    (ips : List String) (m : HostMap) → NamedHosts m → NamedHosts (erase_all ips m)
unfolding erase_all
erase_all-NamedHosts [] m n = n
erase_all-NamedHosts (ip ∷ ips) m n =
    erase_all-NamedHosts ips (erase ip m) (erase-NamedHosts ip m n)

pub filter_hosts-NamedHosts :
    (m : HostMap) (in_flight : InFlightReqs) (req : BatchExecuteRequest)
    → NamedHosts m
    → NamedHosts (filter_hosts m in_flight req)
unfolding filter_hosts
filter_hosts-NamedHosts m [] req n = n
filter_hosts-NamedHosts m ((app_id, (other, decision)) ∷ in_flight) req n =
    elim (Bool-cases (int_eq other.sub_type req.sub_type)) [
      | inl e ↦ rw e (filter_hosts-NamedHosts m in_flight req n)
      | inr e ↦ rw e (
          filter_hosts-NamedHosts (erase_all decision.hosts m) in_flight req
            (erase_all-NamedHosts decision.hosts m n))
    ]

-- The host `ip` runs a message of an app in flight of another user.
pub runs_other_user : String → InFlightReqs → BatchExecuteRequest → Bool
unfolding count
runs_other_user ip [] req = false
runs_other_user ip ((app_id, (other, decision)) ∷ in_flight) req =
    (not (int_eq other.sub_type req.sub_type) && ltb 0 (count ip decision.hosts))
    || runs_other_user ip in_flight req

lookup-erase_all :
    (ip : String) (ips : List String) (m : HostMap)
    → lookup ip (erase_all ips m) ≡ (if ltb 0 (count ip ips) then none else lookup ip m)
unfolding erase_all count
lookup-erase_all ip [] m = refl
lookup-erase_all ip (h ∷ ips) m =
    ground (arith, lookup-erase_all ip ips (erase h m), lookup-erase h ip m)

-- The compact policy looks at exactly the hosts of the map that run no message of an app in flight
-- with another sub-type (another user): they keep their state, and the others are taken out.
pub filter_hosts_users_lem :
    (ip : String) (m : HostMap) (in_flight : InFlightReqs) (req : BatchExecuteRequest)
    → lookup ip (filter_hosts m in_flight req)
      ≡ (if runs_other_user ip in_flight req then none else lookup ip m)
unfolding filter_hosts runs_other_user
filter_hosts_users_lem ip m [] req = refl
filter_hosts_users_lem ip m ((app_id, (other, decision)) ∷ in_flight) req = ground (
  arith,
  filter_hosts_users_lem ip m in_flight req,
  lookup-erase_all ip decision.hosts m,
  filter_hosts_users_lem ip (erase_all decision.hosts m) in_flight req,
)
