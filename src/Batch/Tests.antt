-- ===== src/Batch/Tests.antt =====
-- Runs of the tests on requests.
use faabric.Prelude.{◌≡◌, ◌≢◌, ◌⊎◌, ◌↔◌, refl, true, false, [], ◌∷◌}
use faabric.Prelude.Int.{pos, int_key}
use faabric.Batch.{
  Message, BatchExecuteRequest, functions, is_batch_exec_request_valid, update_batch_exec_app_id,
  no_malformed, is_malformed,
}
use faabric.Batch.Validity.{
  WellFormed, is_batch_exec_request_valid_lem, is_batch_exec_request_valid-update_batch_exec_app_id,
}

abbrev one_message : Message
one_message = record {
  id = pos 100;
  app_id = pos 7;
  app_idx = pos 0;
  user = "demo";
  function = "echo";
  return_value = pos 0;
  group_id = pos 5;
  group_idx = pos 0;
  is_mpi = false;
  is_omp = false;
  is_rpc = false;
  is_long_running = false;
  executed_host = "10.0.0.1";
  main_host = "10.0.0.1";
  func_ptr = pos 0;
  input_data = "";
  snapshot_key = "";
  mpi_world_size = pos 0;
  omp_num_threads = pos 0;
}

abbrev one_request : BatchExecuteRequest
one_request = record {
  app_id = pos 7;
  group_id = pos 5;
  user = "demo";
  function = "echo";
  type = functions;
  messages = one_message ∷ [];
  sub_type = pos 1;
  single_host_hint = false;
  elastic_scale_hint = false;
  context_data = "";
  single_host = false;
  snapshot_key = "";
}

valid_example : (is_batch_exec_request_valid one_request ≡ true) ↔ (
    ((one_request.messages ≢ []) ⊎ (one_request.app_id ≢ pos 0))
    × (one_request.user ≢ "")
    × (one_request.function ≢ "")
    × WellFormed one_request one_request.messages)
valid_example = is_batch_exec_request_valid_lem one_request

new_app_id_example :
    (is_batch_exec_request_valid (update_batch_exec_app_id one_request (pos 8)) ≡ true)
    × WellFormed
        (update_batch_exec_app_id one_request (pos 8))
        (update_batch_exec_app_id one_request (pos 8)).messages
unfolding is_batch_exec_request_valid no_malformed is_malformed
new_app_id_example =
    is_batch_exec_request_valid-update_batch_exec_app_id one_request (pos 8) refl
      (λ q. not_zero ((int_key.beq_iff (pos 8) (pos 0)).1 q))
  where
    not_zero : false ≢ true
    not_zero e = cc
