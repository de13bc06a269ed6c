-- ===== src/Scheduler/Database.antt =====
-- The database record of a task (scheduler/task_state.go updateTaskState, db/task_states.go).
use assertoor.Prelude.{
  ℕ, ◌+◌, String, Bool, true, false, not, Option, none, some, List, [], ◌∷◌, ◌==◌, if◌then◌else◌,
  nat_key, string_key, lookup, insert,
}
use assertoor.Vars.{end, get_vars_map}
use assertoor.Types.{result_code}
use assertoor.Scheduler.State.{DbTaskState, TaskState, Database, no_database, database, World, Env}

pub data StatusField : Type 0 where
  title run_flags start_time stop_time task_config task_status task_result task_error : StatusField

abbrev pub flag : Bool → ℕ → ℕ
flag b n = if b then n else 0

-- The flags are single bits, so that their sum is their bitwise or.
unfoldable pub task_run_flags : TaskState → ℕ
task_run_flags t =
    flag t.is_cleanup 0x01
    + flag t.is_started 0x02
    + flag t.is_running 0x04
    + flag t.is_skipped 0x08
    + flag t.is_timeout 0x10

abbrev pub time_or : Option ℕ → ℕ → ℕ
time_or none old = old
time_or (some new) old = new

abbrev pub text_or : Option String → String → String
text_or none old = old
text_or (some new) old = new

-- One column of the row is set from the record.
unfoldable pub write_field : DbTaskState → StatusField → DbTaskState → DbTaskState
write_field d title row = record row { title = d.title }
write_field d run_flags row = record row { run_flags = d.run_flags }
write_field d start_time row = record row { start_time = d.start_time }
write_field d stop_time row = record row { stop_time = d.stop_time }
write_field d task_config row = record row { task_config = d.task_config }
write_field d task_status row = record row { task_status = d.task_status }
write_field d task_result row = record row { task_result = d.task_result }
write_field d task_error row = record row { task_error = d.task_error }

unfoldable pub write_fields : DbTaskState → List StatusField → DbTaskState → DbTaskState
unfolding write_field
write_fields d [] row = row
write_fields d (f ∷ fs) row = write_fields d fs (write_field d f row)

-- `UPDATE task_states SET … WHERE run_id = … AND task_id = …` changes nothing if there is no row.
unfoldable pub update_task_state_status : DbTaskState → List StatusField → Database → Database
unfolding write_fields
update_task_state_status d fields no_database = no_database
update_task_state_status d fields (database rows true) = database rows true
update_task_state_status d fields (database rows false) = elim (lookup d.task_id rows) [
  | none ↦ database rows false
  | some row ↦ database (insert d.task_id (write_fields d fields row) rows) false
]

-- The fields that are compared before anything is encoded.
unfoldable pub plain_record : String → TaskState → DbTaskState → DbTaskState
unfolding task_run_flags
plain_record text t d = record d {
  title = text;
  run_flags = task_run_flags t;
  start_time = time_or t.start_time d.start_time;
  stop_time = time_or t.stop_time d.stop_time;
}

unfoldable pub full_record : TaskState → String → String → DbTaskState → DbTaskState
full_record t config status d = record d {
  task_config = config;
  task_status = status;
  task_result = result_code t.task_result;
  task_error = text_or t.task_error d.task_error;
}

abbrev pub when : Bool → StatusField → List StatusField → List StatusField
when changed f fs = if changed then f ∷ fs else fs

-- The names of the fields in which `new` differs from `old`, in the order of the source.
unfoldable pub changed_fields : DbTaskState → DbTaskState → List StatusField
changed_fields old new = when (not (string_key.beq new.title old.title)) title (
    when (not (new.run_flags == old.run_flags)) run_flags (
      when (not (new.start_time == old.start_time)) start_time (
        when (not (new.stop_time == old.stop_time)) stop_time (
          when (not (string_key.beq new.task_config old.task_config)) task_config (
            when (not (string_key.beq new.task_status old.task_status)) task_status (
              when (not (new.task_result == old.task_result)) task_result
                (when (not (string_key.beq new.task_error old.task_error)) task_error [])))))))

-- The record in memory after an update: what was set before an encoder failed stays set.
unfoldable pub synced_record : Env → TaskState → World → DbTaskState → DbTaskState
unfolding plain_record full_record
synced_record env t w d =
    let text = env.resolve_placeholders w.heap t.task_vars t.options.title in
    let plain = plain_record text t d in
    elim (env.marshal_config t.task_config) [
      | none ↦ plain
      | some config ↦
          elim (env.marshal_status
            (get_vars_map env.map_depth w.heap t.task_status_vars end false)) [
              | none ↦ record plain { task_config = config }
              | some status ↦ full_record t config status plain
            ]
    ]

abbrev pub encodes : Env → TaskState → World → Bool
encodes env t w = elim (env.marshal_config t.task_config) [
  | none ↦ false
  | some config ↦
      elim (env.marshal_status (get_vars_map env.map_depth w.heap t.task_status_vars end false)) [
        | none ↦ false
        | some status ↦ true
      ]
]

-- `updateTaskState`, the record in memory and the table; the callers only log its error.
unfoldable pub update_record : Env → TaskState → World → Option DbTaskState
unfolding synced_record
update_record env t w = elim t.db_task_state [
  | none ↦ none
  | some d ↦ some (synced_record env t w d)
]

unfoldable pub update_store : Env → TaskState → World → Database
unfolding synced_record changed_fields update_task_state_status
update_store env t w = elim t.db_task_state [
  | none ↦ w.store
  | some d ↦
      if encodes env t w
      then update_task_state_status (synced_record env t w d)
          (changed_fields d (synced_record env t w d)) w.store
      else w.store
]

unfoldable pub update_task_state : Env → TaskState → World → TaskState × World
unfolding update_record update_store
update_task_state env t w =
    (record t { db_task_state = update_record env t w }, record w { store = update_store env t w })
