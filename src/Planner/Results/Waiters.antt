-- ===== src/Planner/Results/Waiters.antt =====
-- A query by `getMessageResult` that finds no result, followed at once by `setMessageResult`.
use faabric.Prelude.{List, name_key}
use faabric.Prelude.Int.{int_key}
