-- ===== src/Scheduler/Sync.antt =====
-- The record of a task in memory and its row (scheduler/task_state.go updateTaskState).
use assertoor.Types.{result_code}
use assertoor.Scheduler.State.{DbTaskState, TaskState, Database, no_database, database, World, Env}
use assertoor.Scheduler.Database.{
  StatusField, title, run_flags, start_time, stop_time, task_config, task_status, task_result,
  task_error, write_field, write_fields, update_task_state_status, synced_record, plain_record,
  full_record, changed_fields, when, text_or, encodes, task_run_flags, update_record, update_store,
  update_task_state,
}
use assertoor.Vars.{end, get_vars_map}
use assertoor.Prelude.{
  ℕ, String, ◌≡◌, refl, sym, ap, ◌∙◌, ◌≢◌, inl, inr, Bool, true, false, not, Option, none, some,
  List, arith, ◌==◌, if◌then◌else◌, Option-cases, nat_key, string_key, lookup, insert,
  lookup-insert,
}

write_fields-when :
    (d row : DbTaskState) (b : Bool) (f : StatusField) (fs : List StatusField)
    → write_fields d (when b f fs) row ≡ write_fields d fs (if b then write_field d f row else row)
unfolding write_fields
write_fields-when d row true f fs = refl
write_fields-when d row false f fs = refl

-- A field that is not written has the new value already.
skip_text :
    (new old : String) (row row' : DbTaskState)
    → (new ≡ old → row ≡ row')
    → (if not (string_key.beq new old) then row' else row) ≡ row'
skip_text new old row row' same = ground (arith, string_key.beq_iff new old, same)

skip_number :
    (new old : ℕ) (row row' : DbTaskState)
    → (new ≡ old → row ≡ row')
    → (if not (new == old) then row' else row) ≡ row'
skip_number new old row row' same = ground (arith, same)

-- All fields written.
write_all : DbTaskState → DbTaskState → DbTaskState
write_all new old = record old {
  title = new.title;
  run_flags = new.run_flags;
  start_time = new.start_time;
  stop_time = new.stop_time;
  task_config = new.task_config;
  task_status = new.task_status;
  task_result = new.task_result;
  task_error = new.task_error;
}

-- A field that is compared and written brings the row to where it is written.
write_step :
    (new row : DbTaskState) (b : Bool) (f : StatusField) (fs : List StatusField)
    → (if b then write_field new f row else row) ≡ write_field new f row
    → write_fields new (when b f fs) row ≡ write_fields new fs (write_field new f row)
write_step new row b f fs e = write_fields-when new row b f fs ∙ ap (write_fields new fs) e

write_fields-changed_fields :
    (new old : DbTaskState) → write_fields new (changed_fields old new) old ≡ write_all new old
unfolding changed_fields write_fields write_field write_all
write_fields-changed_fields new old =
    write_step new _ _ title _
      (skip_text new.title old.title _ _ (λ e. ap (λ x. record old { title = x }) (sym e)))
    ∙ write_step new _ _ run_flags _ (
        skip_number new.run_flags old.run_flags _ _
          (λ e. ap (λ x. record old { title = new.title; run_flags = x }) (sym e)))
    ∙ write_step new _ _ start_time _ (
        skip_number new.start_time old.start_time _ _ (λ e.
          ap (λ x. record old { title = new.title; run_flags = new.run_flags; start_time = x })
            (sym e)))
    ∙ write_step new _ _ stop_time _ (
        skip_number new.stop_time old.stop_time _ _ (λ e.
          ap
            (λ x. record old {
              title = new.title;
              run_flags = new.run_flags;
              start_time = new.start_time;
              stop_time = x;
            })
            (sym e)))
    ∙ write_step new _ _ task_config _ (
        skip_text new.task_config old.task_config _ _ (λ e.
          ap
            (λ x. record old {
              title = new.title;
              run_flags = new.run_flags;
              start_time = new.start_time;
              stop_time = new.stop_time;
              task_config = x;
            })
            (sym e)))
    ∙ write_step new _ _ task_status _ (
        skip_text new.task_status old.task_status _ _ (λ e.
          ap
            (λ x. record old {
              title = new.title;
              run_flags = new.run_flags;
              start_time = new.start_time;
              stop_time = new.stop_time;
              task_config = new.task_config;
              task_status = x;
            })
            (sym e)))
    ∙ write_step new _ _ task_result _ (
        skip_number new.task_result old.task_result _ _ (λ e.
          ap
            (λ x. record old {
              title = new.title;
              run_flags = new.run_flags;
              start_time = new.start_time;
              stop_time = new.stop_time;
              task_config = new.task_config;
              task_status = new.task_status;
              task_result = x;
            })
            (sym e)))
    ∙ write_step new _ _ task_error _ (
        skip_text new.task_error old.task_error _ _ (λ e.
          ap
            (λ x. record old {
              title = new.title;
              run_flags = new.run_flags;
              start_time = new.start_time;
              stop_time = new.stop_time;
              task_config = new.task_config;
              task_status = new.task_status;
              task_result = new.task_result;
              task_error = x;
            })
            (sym e)))

module _ (env : Env) (t : TaskState) (w : World) (d : DbTaskState) where
  status_text : Option String
  status_text = env.marshal_status (get_vars_map env.map_depth w.heap t.task_status_vars end false)

  -- What an update with both texts encoded gives.
  synced_record-full_record :
      (config status : String)
      → env.marshal_config t.task_config ≡ some config
      → status_text ≡ some status
      → synced_record env t w d
        ≡ full_record t config status
            (plain_record (env.resolve_placeholders w.heap t.task_vars t.options.title) t d)
  unfolding status_text synced_record
  synced_record-full_record config status c s = rw (c, synced_record) (rw (s, synced_record))

  encodes-cases :
      encodes env t w ≡ true
      → (config : String) × (status : String) × (env.marshal_config t.task_config ≡ some config)
        × (status_text ≡ some status)
  unfolding status_text
  encodes-cases h = elim (Option-cases (env.marshal_config t.task_config)) [
    | inl c ↦ absurd (ground (arith, c))
    | inr (config, c) ↦ elim (Option-cases status_text) [
      | inl n ↦ absurd (ground (arith, c, n))
      | inr (status, n) ↦ (config, status, c, n)
    ]
  ]

  -- Such an update keeps what identifies the row.
  write_all-synced_record :
      encodes env t w ≡ true
      → (write_all (synced_record env t w d) d ≡ synced_record env t w d)
        × ((synced_record env t w d).task_id ≡ d.task_id)
  unfolding write_all full_record plain_record
  write_all-synced_record h =
      let (config, status, c, n) = encodes-cases h in
      rw (synced_record-full_record config status c n) (refl, refl)

  stored_update :
      (new : DbTaskState) (rows : List (ℕ × DbTaskState))
      → write_all new d ≡ new
      → new.task_id ≡ d.task_id
      → lookup d.task_id rows ≡ some d
      → update_task_state_status new (changed_fields d new) (database rows false)
        ≡ database (insert d.task_id new rows) false
  unfolding update_task_state_status
  stored_update new rows same id synced =
      let there : lookup new.task_id rows ≡ some d = ap (λ i. lookup i rows) id ∙ synced in
      rw (there, update_task_state_status)
        (ap (λ x. database (insert new.task_id x rows) false)
            (write_fields-changed_fields new d ∙ same)
          ∙ ap (λ i. database (insert i new rows) false) id)

  update_store-encodes :
      (rows : List (ℕ × DbTaskState))
      → t.db_task_state ≡ some d
      → w.store ≡ database rows false
      → lookup d.task_id rows ≡ some d
      → encodes env t w ≡ true
      → update_store env t w ≡ database (insert d.task_id (synced_record env t w d) rows) false
  unfolding update_store
  update_store-encodes rows mirrored online synced h =
      let (same, id) = write_all-synced_record h in
      rw (mirrored, update_store)
        (rw (h, online) (stored_update (synced_record env t w d) rows same id synced))

-- A row of the table, if the database has it.
abbrev pub stored : ℕ → Database → Option DbTaskState
stored id no_database = none
stored id (database rows fails) = lookup id rows

insert_here :
    (i : ℕ) (new : DbTaskState) (rows : List (ℕ × DbTaskState))
    → lookup i (insert i new rows) ≡ some new
insert_here i new rows = ground (arith, lookup-insert i i new rows)

insert_there :
    (i j : ℕ) (new : DbTaskState) (rows : List (ℕ × DbTaskState))
    → j ≢ i
    → lookup j (insert i new rows) ≡ lookup j rows
insert_there i j new rows other = ground (arith, lookup-insert i j new rows)

-- An update of a task, with a database that works and encoders that succeed: if the row was the
-- record in memory before, it is the record again afterwards, which has the task's flags, result
-- and error, and no other row has changed.
pub update_task_state-stored :
    (env : Env) (t : TaskState) (w : World) (d : DbTaskState) (rows : List (ℕ × DbTaskState))
    (j : ℕ)
    → t.db_task_state ≡ some d
    → w.store ≡ database rows false
    → lookup d.task_id rows ≡ some d
    → encodes env t w ≡ true
    → j ≢ d.task_id
    → let r = update_task_state env t w in
      (d' : DbTaskState) × (r.0.db_task_state ≡ some d')
      × (stored d.task_id r.1.store ≡ some d')
      × (stored j r.1.store ≡ lookup j rows)
      × (d'.run_flags ≡ task_run_flags t)
      × (d'.task_result ≡ result_code t.task_result)
      × (d'.task_error ≡ text_or t.task_error d.task_error)
unfolding update_task_state update_record full_record plain_record
update_task_state-stored env t w d rows j mirrored online synced h other =
    let (config, status, c, n) = encodes-cases env t w d h in
    let full = synced_record-full_record env t w d config status c n in
    let new = synced_record env t w d in
    let kept = update_store-encodes env t w d rows mirrored online synced h in
    (
      new,
      rw (mirrored, update_record),
      ap (stored d.task_id) kept ∙ insert_here d.task_id new rows,
      ap (stored j) kept ∙ insert_there d.task_id j new rows other,
      ap DbTaskState.run_flags full,
      ap DbTaskState.task_result full,
      ap DbTaskState.task_error full,
    )
