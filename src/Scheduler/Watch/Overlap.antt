-- ===== src/Scheduler/Watch/Overlap.antt =====
-- Two calls of GetTaskResultUpdateChan that overlap (scheduler/task_state.go): both hold the lock of the
-- result for reading, under which the channel is written.
use assertoor.Prelude.{nat_key, string_key}
