-- ===== src/Planner/Registry.antt =====
-- The hosts that the planner knows: `getAvailableHosts`, `registerHost`, `removeHost` and
-- `isHostExpired` of src/planner/Planner.cpp. The clock is an argument,
-- in milliseconds, and so is the timeout of the configuration, in seconds.
pub mod Laws
pub mod Valid
use faabric.Prelude.{
  ℕ, zero, suc, ◌+◌, ◌*◌, Bool, true, false, Option, none, some, List, [], ◌∷◌, ◌++◌, String, ltb,
  ◌==◌, if◌then◌else◌, name_key,
}
use faabric.Prelude.Int.{ℤ, pos, negsuc}
use faabric.Prelude.Maps.{lookup, insert, erase}
use faabric.Planner.{Host, Hosts, MpiPort, PlannerState}

-- A host in a request: the number of slots may be negative. The used slots are at zero or more here;
-- the planner does not look at their sign.
pub record HostIn : Type 0 where
  pub ip : String
  pub slots : ℤ
  pub used_slots : ℕ
  pub register_ts : ℕ
  pub mpi_ports : List MpiPort

abbrev mpi_base_port : ℕ
mpi_base_port = 8020

-- `isHostExpired(host, epochTimeMs)`; the time 0 stands for now.
unfoldable pub is_host_expired : ℕ → ℕ → ℕ → Host → Bool
is_host_expired timeout now epoch_time_ms host =
    ltb (timeout * 1000 + host.register_ts) (if epoch_time_ms == 0 then now else epoch_time_ms)

-- The loop of `getAvailableHosts`: the hosts to remove, and the ones that are available.
split_hosts : ℕ → ℕ → Hosts → List String × List Host
split_hosts timeout now [] = ([], [])
split_hosts timeout now ((ip, host) ∷ m) =
    let (to_remove, available) = split_hosts timeout now m in
    if is_host_expired timeout now now host
    then (ip ∷ to_remove, available)
    else (to_remove, host ∷ available)

erase_hosts : List String → Hosts → Hosts
erase_hosts [] m = m
erase_hosts (ip ∷ ips) m = erase_hosts ips (erase ip m)

unfoldable pub get_available_hosts : ℕ → ℕ → PlannerState → List Host × PlannerState
unfolding split_hosts erase_hosts
get_available_hosts timeout now s =
    let (to_remove, available) = split_hosts timeout now s.host_map in
    (available, record s { host_map = erase_hosts to_remove s.host_map })

-- `n` ports from number `8020 + i` on, the ones below `used` marked as used.
unfoldable pub ports_from : ℕ → ℕ → ℕ → List MpiPort
ports_from zero i used = []
ports_from (suc n) i used =
    record { port = pos (mpi_base_port + i); used = ltb i used } ∷ ports_from n (suc i) used

-- A host that is new to the planner: the host of the request, and a free port for each slot.
unfoldable pub new_host : ℕ → HostIn → Host
new_host slots host_in = record {
  ip = host_in.ip;
  slots = slots;
  used_slots = host_in.used_slots;
  register_ts = host_in.register_ts;
  mpi_ports = host_in.mpi_ports ++ ports_from slots 0 0;
}

-- A host overwritten: the first ports are marked as used.
unfoldable pub overwritten : ℕ → HostIn → Host → Host
overwritten slots host_in host = record host {
  slots = slots;
  used_slots = host_in.used_slots;
  mpi_ports = ports_from slots 0 host_in.used_slots;
}

-- The host that the branches of `registerHost` leave in the map under the ip of the request.
unfoldable pub registered : ℕ → ℕ → Bool → ℕ → HostIn → Option Host → Host
registered timeout now overwrite slots host_in none = new_host slots host_in
registered timeout now overwrite slots host_in (some host) =
    if is_host_expired timeout now 0 host
    then new_host slots host_in
    else if overwrite
    then overwritten slots host_in host
    else host

-- `registerHost` of a request with this number of slots, which is refused when negative; `now` is the
-- time of the test and `stamp` the time at the end.
unfoldable pub register_slots : ℕ → ℕ → ℕ → HostIn → Bool → PlannerState → ℤ → Bool × PlannerState
register_slots timeout now stamp host_in overwrite s (negsuc n) = (false, s)
register_slots timeout now stamp host_in overwrite s (pos slots) = (
  true,
  record s {
    host_map =
        insert host_in.ip
          (record (registered timeout now overwrite slots host_in (lookup host_in.ip s.host_map)) {
            register_ts = stamp;
          })
          s.host_map;
  },
)

unfoldable pub register_host : ℕ → ℕ → ℕ → HostIn → Bool → PlannerState → Bool × PlannerState
unfolding register_slots
register_host timeout now stamp host_in overwrite s =
    register_slots timeout now stamp host_in overwrite s host_in.slots

unfoldable pub remove_host : String → PlannerState → PlannerState
remove_host ip s = record s { host_map = erase ip s.host_map }
