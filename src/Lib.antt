-- ===== src/Lib.antt =====
-- Verification library of faabric, a distributed runtime that places batches of function messages
-- on hosts (include/faabric, src).
--
-- The planner gets a batch execute request (BER), asks a batch scheduler for a decision on the hosts
-- with free slots, and sends the decision to the hosts as point-to-point mappings. A request for an
-- app that is in flight either adds messages to it or asks to migrate it.
--
-- Files and the code they model:
-- - Prelude: lists, keys, `std::map` as a list of entries (Maps), integers (Int), how often a name
--   occurs (Counts) and results that may be an exception (Results).
-- - Batch: the messages of src/proto/faabric.proto and src/util/batch.cpp. Batch/Validity has the
--   laws of `isBatchExecRequestValid`.
-- - Scheduler/Decision: `SchedulingDecision` (include/faabric/batch-scheduler/SchedulingDecision.h,
--   src/batch-scheduler/SchedulingDecision.cpp); its child modules have the laws of `removeMessage`
--   and `fromPointToPointMappings`.
-- - Scheduler/Hosts: include/faabric/batch-scheduler/BatchScheduler.h and
--   src/batch-scheduler/BatchScheduler.cpp: host states, the requests in flight, `getDecisionType`.
-- - Scheduler/Histogram, Sorting, Pack and Minimise: the parts that the schedulers' files each repeat:
--   `getHostFreqCount`, the comparisons of hosts, the bin-pack loop and `minimiseNumOfMigrations`.
--   Minimise/Spec has the loops on plain lists, Refine and Passes tie the code to them, and Correct
--   puts them together.
-- - Scheduler/Placement and Migration: what a policy promises of a decision, for any order of the
--   hosts, and of a migration.
-- - Scheduler/BinPack, Compact, Spot and Forced: the policies (BinPackScheduler.cpp,
--   CompactScheduler.cpp, SpotScheduler.cpp, ForcedMigrationScheduler.cpp of src/batch-scheduler).
-- - Scheduler/Cache: src/batch-scheduler/DecisionCache.cpp, with its laws in Cache/Laws.
-- - Delta: the delta codec. Bytes has the helpers of include/faabric/util/bytes.h, Format the settings
--   and commands of include/faabric/util/delta.h, Encode and Decode the two functions of
--   src/util/delta.cpp; the other files prove the round trip, one region after the other.
--
-- - Rpc: src/rpc/RpcDependencyGraph.cpp: who calls whom, where services are placed, and telemetry.
--   Recommend has the graph queries and `recommendHost`; Best, Laws and Effect are about what it
--   recommends and what following it does.
-- - Scheduler/Service: ServiceLocalityScheduler.cpp, which moves a service to the host that the graph
--   recommends and leaves the rest to BinPack.
-- - Planner: src/planner/Planner.cpp with the state of include/faabric/planner/PlannerState.h. Slots and
--   Ports claim and release at one host, Change says what that does to the map of hosts, Registry has
--   the hosts that are known, Results `setMessageResult` and `getMessageResult`, Services the discovery
--   of services (Turns its round robin), Preloaded the preloaded decisions, Flush the flushes, Polls
--   `getBatchResults`. Call is `callBatch`: Prepare and Choose come to a decision, Claims and Place
--   change the state, Dispatch sends and puts them together; Room and New follow a new request from
--   the scheduler to the claimed slots, Moved a migration, and Sends what is dispatched. Steps has
--   the planner as a system of steps: its files go through the loops and the calls, and Reach puts
--   them together.
--
-- How state is modelled. A scheduler keeps no state but the counter of ForcedMigrationScheduler.cpp,
-- which is passed in and returned. `hostMap` is a map from keys to host states. The hosts that
-- `getSortedHosts` sorts are pointers to those states, and `freeSlots` on them changes the map: where
-- the code reads the map after that (CompactScheduler.cpp), `get_sorted_hosts` returns it. The
-- decision is the result; the changed map is not, since the planner builds the host map for one call.
-- An exception is a value of an error type. `std::sort` is insertion by the same
-- comparison. An `int` that counts messages or slots is a natural number; message ids, app ids and
-- ports are integers; the conversion of an app id to `uint32_t` is written out. The loops run over
-- lists, but for the two of the codec: `encode_pages` has one unit of fuel for each byte of the new
-- data, which is enough where the page size is not 0, and `apply_delta` takes its fuel, one unit for
-- each command. The zstd library is a pair of functions, the callbacks of `applyDelta` are one.
--
-- The planner's state is a record that its operations take and return. An operation that throws returns
-- the error and no state: what it had changed by then is not modelled. Failed asserts of the planner are
-- errors too. The clock, the ids that `generateGid` draws and the scheduler of `callBatch`, with a state
-- of its own, are arguments. An operation that holds the planner's lock to its end is one step.
-- `getMessageResult` takes two locks and reads two states; `getBatchResults` reads three, one of them
-- without a lock; `reset` takes two locks, and what other calls do in between is an argument. What is
-- sent to other hosts is returned. The asserts that are errors here are absent where NDEBUG is defined.
-- The used slots of a host are a natural number: a request to register a host with a negative number
-- of used slots, which the planner does not refuse, is outside the model.
--
-- Not modelled: logging and the asserts outside the planner; the network, MPI, RPC calls, state and
-- snapshots beside the codec; of the planner, the snapshots pushed before a request is sent, the
-- choice of the scheduler by the policy, and the configuration.
pub mod Prelude
pub mod Batch
pub mod Scheduler
pub mod Delta
pub mod Planner
pub mod Rpc
