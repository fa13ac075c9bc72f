-- ===== src/Planner/Registry/Valid.antt =====
-- `registerHost` and `removeHost`: well-formed host maps, and what is available after them.
use mathlib.Core.Path.{subst}
use faabric.Prelude.{
  ℕ, zero, suc, ◌≡◌, ◌≤◌, ◌<◌, ◌+◌, ◌*◌, refl, ◌∙◌, sym, ap, inl, inr, Bool, false, Option, none,
  some, [], String, arith, if◌then◌else◌, name_key, Bool-cases, leb,
}
use faabric.Prelude.Int.{ℤ, pos, negsuc, int_key}
use faabric.Prelude.Maps.{lookup, insert}
use faabric.Prelude.Maps.Entries.{lookup-insert_same, lookup-IsMapOf, insert-IsMapOf, erase-IsMapOf}
use faabric.Planner.{Host, PlannerState}
use faabric.Planner.Ports.Laws.{HasDistinctPorts, has_port}
use faabric.Planner.Registry.{
  HostIn, get_available_hosts, is_host_expired, register_host, register_slots, registered, new_host,
  overwritten, ports_from, remove_host,
}
use faabric.Planner.Registry.Laws.{
  IsValidHost, IsValidHosts, HasDistinctKeys, get_available_hosts_lem, keep_live,
}

has_port-ports_from :
    (i n j used : ℕ) → i < j → has_port (pos (8020 + i)) (ports_from n j used) ≡ false
unfolding has_port ports_from
has_port-ports_from i zero j used h = refl
has_port-ports_from i (suc n) j used h =
    ground (arith, has_port-ports_from i n (suc j) used (omega arith))

ports_from-HasDistinctPorts : (n i used : ℕ) → HasDistinctPorts (ports_from n i used)
unfolding HasDistinctPorts ports_from
ports_from-HasDistinctPorts zero i used = tt
ports_from-HasDistinctPorts (suc n) i used =
    (has_port-ports_from i n (suc i) used (omega arith), ports_from-HasDistinctPorts n (suc i) used)

-- What a request to register must bring: no ports of its own, and no more used slots than slots.
abbrev pub IsHostRequest : HostIn → Type 0
IsHostRequest host_in =
    ((slots : ℕ) → host_in.slots ≡ pos slots → host_in.used_slots ≤ slots)
    × (host_in.mpi_ports ≡ [])

module _ (timeout now stamp : ℕ) (overwrite : Bool) (slots : ℕ) (host_in : HostIn) where
  stamped : Option Host → Host
  stamped o = record (registered timeout now overwrite slots host_in o) { register_ts = stamp }

  new_host-IsValidHost :
      host_in.used_slots ≤ slots
      → host_in.mpi_ports ≡ []
      → IsValidHost host_in.ip (record (new_host slots host_in) { register_ts = stamp })
  unfolding new_host
  new_host-IsValidHost within none_yet = record {
    named = refl;
    within = within;
    distinct = rw none_yet (ports_from-HasDistinctPorts slots 0 0);
  }

  stamped-IsValidHost :
      (o : Option Host)
      → host_in.used_slots ≤ slots
      → host_in.mpi_ports ≡ []
      → ((host : Host) → o ≡ some host → IsValidHost host_in.ip host)
      → IsValidHost host_in.ip (stamped o)
  unfolding stamped registered overwritten
  stamped-IsValidHost none within none_yet old = new_host-IsValidHost within none_yet
  stamped-IsValidHost (some host) within none_yet old =
      elim (Bool-cases (is_host_expired timeout now 0 host)) [
        | inl expired ↦ rw expired (new_host-IsValidHost within none_yet)
        | inr live ↦ elim (Bool-cases overwrite) [
          | inl over ↦
              rw (live, over)
                (record {
                  named = (old host refl).named;
                  within = within;
                  distinct = ports_from-HasDistinctPorts slots 0 host_in.used_slots;
                })
          | inr keep ↦
              rw (live, keep)
                (record {
                  named = (old host refl).named;
                  within = (old host refl).within;
                  distinct = (old host refl).distinct;
                })
        ]
      ]

registered_map :
    (timeout now stamp slots : ℕ) (host_in : HostIn) (overwrite : Bool) (s : PlannerState)
    → host_in.slots ≡ pos slots
    → (register_host timeout now stamp host_in overwrite s).1.host_map
      ≡ insert host_in.ip
          (stamped timeout now stamp overwrite slots host_in (lookup host_in.ip s.host_map))
          s.host_map
unfolding register_host register_slots stamped
registered_map timeout now stamp slots host_in overwrite s e =
    ap (λ n. (register_slots timeout now stamp host_in overwrite s n).1.host_map) e

unregistered_map :
    (timeout now stamp n : ℕ) (host_in : HostIn) (overwrite : Bool) (s : PlannerState)
    → host_in.slots ≡ negsuc n
    → (register_host timeout now stamp host_in overwrite s).1.host_map ≡ s.host_map
unfolding register_host register_slots
unregistered_map timeout now stamp n host_in overwrite s e =
    ap (λ n. (register_slots timeout now stamp host_in overwrite s n).1.host_map) e

-- For a well-formed host map, registerHost, with a request whose used slots are within its slots and
-- which brings no ports, and removeHost leave a well-formed host map.
pub register_host-IsValidHosts :
    (timeout now stamp : ℕ) (host_in : HostIn) (overwrite : Bool) (ip : String) (s : PlannerState)
    → IsHostRequest host_in
    → IsValidHosts s.host_map
    → IsValidHosts (register_host timeout now stamp host_in overwrite s).1.host_map
      × IsValidHosts (remove_host ip s).host_map
unfolding remove_host
register_host-IsValidHosts timeout now stamp host_in overwrite ip s q h =
    (by_slots host_in.slots refl, erase-IsMapOf IsValidHost ip s.host_map h)
  where
    by_slots :
        (n : ℤ)
        → host_in.slots ≡ n
        → IsValidHosts (register_host timeout now stamp host_in overwrite s).1.host_map
    by_slots (negsuc n) e =
        subst IsValidHosts (sym (unregistered_map timeout now stamp n host_in overwrite s e)) h
    by_slots (pos n) e =
        subst IsValidHosts (sym (registered_map timeout now stamp n host_in overwrite s e)) (
          insert-IsMapOf IsValidHost host_in.ip
            (stamped timeout now stamp overwrite n host_in (lookup host_in.ip s.host_map))
            s.host_map h
            (stamped-IsValidHost timeout now stamp overwrite n host_in
              (lookup host_in.ip s.host_map) (q.0 n e) q.1
              (λ host f. lookup-IsMapOf IsValidHost host_in.ip host s.host_map h f)))

-- For a host map with each key once, a host that registers with slots and used slots that are not
-- negative is available up to its timeout after the time stamp, with the stamp in its entry, and after
-- that it is not.
pub get_available_hosts-register_host :
    (timeout now stamp later slots : ℕ) (host_in : HostIn) (overwrite : Bool) (s : PlannerState)
    → host_in.slots ≡ pos slots
    → HasDistinctKeys s.host_map
    → lookup host_in.ip
        (get_available_hosts timeout later
          (register_host timeout now stamp host_in overwrite s).1).1.host_map
      ≡ (if leb later (timeout * 1000 + stamp)
          then some
              (record (registered timeout now overwrite slots host_in
                (lookup host_in.ip s.host_map)) { register_ts = stamp })
          else none)
unfolding is_host_expired stamped
get_available_hosts-register_host timeout now stamp later slots host_in overwrite s e h =
    (get_available_hosts_lem timeout later (register_host timeout now stamp host_in overwrite s).1
        distinct).1
      host_in.ip
    ∙ ap (keep_live timeout later) (
        ap (lookup host_in.ip) (registered_map timeout now stamp slots host_in overwrite s e)
        ∙ lookup-insert_same host_in.ip entry s.host_map)
    ∙ ground arith
  where
    entry : Host
    entry = stamped timeout now stamp overwrite slots host_in (lookup host_in.ip s.host_map)

    distinct : HasDistinctKeys (register_host timeout now stamp host_in overwrite s).1.host_map
    distinct =
        subst HasDistinctKeys (sym (registered_map timeout now stamp slots host_in overwrite s e))
          (insert-IsMapOf (λ ip host. Unit) host_in.ip entry s.host_map h tt)
