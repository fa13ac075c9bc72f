-- ===== src/Batch.antt =====
-- The batch execute requests and messages of src/proto/faabric.proto, with the fields that the
-- modelled code reads or writes, and src/util/batch.cpp. An `int32` of the protocol is an integer;
-- a repeated field is a list.
pub mod Validity
mod Tests
use faabric.Prelude.{
  ℕ, ◌+◌, Bool, true, false, ◌||◌, ◌&&◌, not, List, [], ◌∷◌, String, map, length, ◌==◌,
  if◌then◌else◌, same_name,
}
use faabric.Prelude.Int.{ℤ, pos, negsuc, int_eq}

pub record Message : Type 0 where
  pub id : ℤ
  pub app_id : ℤ
  pub app_idx : ℤ
  pub user : String
  pub function : String
  pub return_value : ℤ
  pub group_id : ℤ
  pub group_idx : ℤ
  pub is_mpi : Bool
  pub is_omp : Bool
  pub is_rpc : Bool
  pub is_long_running : Bool
  pub executed_host : String
  pub main_host : String
  pub func_ptr : ℤ
  pub input_data : String
  pub snapshot_key : String
  pub mpi_world_size : ℤ
  pub omp_num_threads : ℤ

pub data BatchExecuteType : Type 0 where
  functions threads processes migration service : BatchExecuteType

pub record BatchExecuteRequest : Type 0 where
  pub app_id : ℤ
  pub group_id : ℤ
  pub user : String
  pub function : String
  pub type : BatchExecuteType
  pub messages : List Message
  pub sub_type : ℤ
  pub single_host_hint : Bool
  pub elastic_scale_hint : Bool
  pub context_data : String
  pub single_host : Bool
  pub snapshot_key : String

pub record BatchExecuteRequestStatus : Type 0 where
  pub app_id : ℤ
  pub finished : Bool
  pub message_results : List Message

abbrev pub migrated_function_return_value : ℤ
migrated_function_return_value = negsuc 98

abbrev pub frozen_function_return_value : ℤ
frozen_function_return_value = negsuc 97

-- One round of the loop over the messages: the test of a malformed message.
unfoldable pub is_malformed : BatchExecuteRequest → Message → Bool
is_malformed ber msg =
    not (same_name msg.user ber.user)
    || same_name msg.function ""
    || not (int_eq msg.app_id ber.app_id)

unfoldable pub no_malformed : BatchExecuteRequest → List Message → Bool
no_malformed ber [] = true
no_malformed ber (msg ∷ msgs) = if is_malformed ber msg then false else no_malformed ber msgs

-- `isBatchExecRequestValid` of a request that is not null.
unfoldable pub is_batch_exec_request_valid : BatchExecuteRequest → Bool
is_batch_exec_request_valid ber =
    if length ber.messages == 0 && int_eq ber.app_id (pos 0)
    then false
    else if same_name ber.user "" || same_name ber.function ""
    then false
    else no_malformed ber ber.messages

abbrev set_app_id : ℤ → Message → Message
set_app_id new_app_id msg = record msg { app_id = new_app_id }

abbrev set_group_id : ℤ → Message → Message
set_group_id new_group_id msg = record msg { group_id = new_group_id }

pub update_batch_exec_app_id : BatchExecuteRequest → ℤ → BatchExecuteRequest
update_batch_exec_app_id ber new_app_id = record ber {
  app_id = new_app_id;
  messages = map (set_app_id new_app_id) ber.messages;
}

unfoldable pub update_batch_exec_group_id : BatchExecuteRequest → ℤ → BatchExecuteRequest
update_batch_exec_group_id ber new_group_id = record ber {
  group_id = new_group_id;
  messages = map (set_group_id new_group_id) ber.messages;
}

unfoldable pub batch_exec_status_factory : ℤ → BatchExecuteRequestStatus
batch_exec_status_factory app_id = record {
  app_id = app_id;
  finished = false;
  message_results = [];
}

count_finished : ℕ → List Message → ℕ
count_finished num [] = num
count_finished num (msg ∷ msgs) =
    count_finished (if int_eq msg.return_value migrated_function_return_value then num else num + 1)
      msgs

get_num_finished_messages_in_batch : BatchExecuteRequestStatus → ℕ
unfolding count_finished
get_num_finished_messages_in_batch status = count_finished 0 status.message_results
