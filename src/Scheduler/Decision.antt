-- ===== src/Scheduler/Decision.antt =====
-- `SchedulingDecision` of src/batch-scheduler/SchedulingDecision.cpp and its header. The five
-- vectors run in parallel: entry i of each is about the i-th message of the decision.
pub mod Removal
pub mod Mappings
use faabric.Prelude.{
  ℕ, suc, ◌+◌, ◌-◌, max, Bool, Option, none, some, List, [], ◌∷◌, ◌++◌, String, ltb, leb,
  if◌then◌else◌, length, set, take, replicate, remove_at, get_or, name_key,
}
use faabric.Prelude.Int.{ℤ, pos, negsuc, int_eq, int_key, to_u32}
use faabric.Prelude.Maps.{Map, insert}
use faabric.Prelude.Results.{Result, ok, throws}
use faabric.Batch.{Message}

pub data Error : Type 0 where
  removing_non_existant_message : Error
  no_next_host_with_slots : Error
  no_host_with_free_slots : Error
  out_of_range : Error
  not_supported : Error
  undefined_behaviour : Error

pub record SchedulingDecision : Type 0 where
  pub app_id : ℕ
  pub group_id : ℤ
  pub n_functions : ℕ
  pub hosts : List String
  pub message_ids : List ℤ
  pub app_idxs : List ℤ
  pub group_idxs : List ℤ
  pub mpi_ports : List ℤ
  pub return_host : String

-- The constructor; the first argument is converted to `uint32_t`.
unfoldable pub new_decision : ℕ → ℤ → SchedulingDecision
new_decision app_id group_id = record {
  app_id = app_id;
  group_id = group_id;
  n_functions = 0;
  hosts = [];
  message_ids = [];
  app_idxs = [];
  group_idxs = [];
  mpi_ports = [];
  return_host = "";
}

abbrev pub do_not_migrate_decision : SchedulingDecision
do_not_migrate_decision = new_decision (to_u32 (negsuc 97)) (negsuc 97)

abbrev pub not_enough_slots_decision : SchedulingDecision
not_enough_slots_decision = new_decision (to_u32 (negsuc 98)) (negsuc 98)

abbrev pub must_freeze_decision : SchedulingDecision
must_freeze_decision = new_decision (to_u32 (negsuc 96)) (negsuc 96)

-- `addMessage(host, messageId, appIdx, groupIdx)`
pub add_message_fields : String → ℤ → ℤ → ℤ → SchedulingDecision → SchedulingDecision
add_message_fields host message_id app_idx group_idx d = record d {
  n_functions = d.n_functions + 1;
  hosts = d.hosts ++ host ∷ [];
  message_ids = d.message_ids ++ message_id ∷ [];
  app_idxs = d.app_idxs ++ app_idx ∷ [];
  group_idxs = d.group_idxs ++ group_idx ∷ [];
  mpi_ports = d.mpi_ports ++ pos 0 ∷ [];
}

-- `addMessage(host, msg)`
unfoldable pub add_message : String → Message → SchedulingDecision → SchedulingDecision
unfolding add_message_fields
add_message host msg d = add_message_fields host msg.id msg.app_idx msg.group_idx d

-- `v.resize(n)`, with the value-initialised element.
unfoldable pub resize {ℓ} : {A : Type ℓ} → ℕ → A → List A → List A
resize n a xs = take n xs ++ replicate (n - length xs) a

-- A column of `addMessageInPosition`: resized where the decision must grow, then written at `pos`.
unfoldable pub put_column {ℓ} : {A : Type ℓ} → Bool → ℕ → A → ℕ → A → List A → List A
unfolding resize
put_column must_resize desired_size a position v xs =
    set (if must_resize then resize desired_size a xs else xs) position v

unfoldable pub add_message_in_position :
    ℕ → String → ℤ → ℤ → ℤ → ℤ → SchedulingDecision → SchedulingDecision
unfolding put_column
add_message_in_position position host message_id app_idx group_idx mpi_port d = record d {
  n_functions = n_functions;
  hosts = put_column must_resize desired_size "" position host d.hosts;
  message_ids = put_column must_resize desired_size (pos 0) position message_id d.message_ids;
  app_idxs = put_column must_resize desired_size (pos 0) position app_idx d.app_idxs;
  group_idxs = put_column must_resize desired_size (pos 0) position group_idx d.group_idxs;
  mpi_ports = put_column must_resize desired_size (pos 0) position mpi_port d.mpi_ports;
}
  where
    n_functions : ℕ
    n_functions = d.n_functions + 1

    desired_size : ℕ
    desired_size = max (position + 1) n_functions

    must_resize : Bool
    must_resize = ltb (length d.hosts) desired_size

pub record PointToPointMapping : Type 0 where
  pub host : String
  pub message_id : ℤ
  pub app_idx : ℤ
  pub group_idx : ℤ
  pub mpi_port : ℤ

pub add_mappings : List PointToPointMapping → SchedulingDecision → SchedulingDecision
unfolding add_message_fields
add_mappings [] d = d
add_mappings (m ∷ ms) d =
    let e = add_message_fields m.host m.message_id m.app_idx m.group_idx d in
    add_mappings ms (record e { mpi_ports = set e.mpi_ports (e.n_functions - 1) m.mpi_port })

-- `fromPointToPointMappings`, on the fields of the mappings.
pub from_point_to_point_mappings : ℤ → ℤ → List PointToPointMapping → SchedulingDecision
unfolding new_decision add_mappings
from_point_to_point_mappings app_id group_id ms =
    add_mappings ms (new_decision (to_u32 app_id) group_id)

-- `std::find` on the ids: the position of the first match.
unfoldable pub find_index : ℤ → List ℤ → Option ℕ
find_index id [] = none
find_index id (x ∷ xs) =
    if int_eq x id
    then some 0
    else (elim (find_index id xs) [ none ↦ none | some i ↦ some (suc i) ])

-- `removeMessage`: the decision without the message, and the MPI port that it had.
unfoldable pub remove_message : ℤ → SchedulingDecision → Result Error (ℤ × SchedulingDecision)
unfolding find_index
remove_message message_id d = elim (find_index message_id d.message_ids) [
  | none ↦ throws removing_non_existant_message
  | some idx ↦ ok (
    get_or d.mpi_ports idx (pos 0),
    record d {
      n_functions = d.n_functions - 1;
      hosts = remove_at d.hosts idx;
      message_ids = remove_at d.message_ids idx;
      app_idxs = remove_at d.app_idxs idx;
      group_idxs = remove_at d.group_idxs idx;
      mpi_ports = remove_at d.mpi_ports idx;
    },
  )
]

-- `std::set<std::string>` of a range: the keys of a map with no values.
unfoldable pub insert_all : List String → Map String (Unit {0}) → Map String (Unit {0})
insert_all [] s = s
insert_all (h ∷ hs) s = insert_all hs (insert h tt s)

unique_hosts : SchedulingDecision → Map String (Unit {0})
unfolding insert_all
unique_hosts d = insert_all d.hosts []

unfoldable pub is_single_host : SchedulingDecision → Bool
unfolding insert_all
is_single_host d = leb (length (insert_all d.hosts [])) 1
