-- ===== src/Logger/DbWriter.antt =====
-- The buffered log writer of logger/dbwriter.go, with the rows of its task in the table `task_logs`
-- (db/task_logs.go). `fails` says whether the transaction fails. A failed transaction is logged to
-- the writer itself, by a goroutine that holds the lock of the flush and perhaps that of the buffer.
pub mod Flushed
pub mod Stored
mod Examples
use assertoor.Logger.MemBuf.{Entry, TaskLog, u64, task_log, at_most}
use assertoor.Prelude.{
  ℕ, ◌+◌, ◌-◌, String, Bool, true, false, not, ◌&&◌, ◌||◌, Option, none, some, List, [], ◌∷◌, ◌++◌,
  arith, leb, ◌==◌, if◌then◌else◌, length, take, drop, filterb, nat_key, string_key,
}

-- `flushing_chan` says whether the channel, if there is one, is closed.
pub record LogDbWriter : Type 0 where
  pub run_id : ℕ
  pub task_id : ℕ
  pub buffer_size : ℕ
  pub last_idx : ℕ
  pub flush_idx : ℕ
  pub buf_idx : ℕ
  pub buf : List TaskLog
  pub flushing : Bool
  pub flushing_chan : Option Bool
  pub rows : List TaskLog

unfoldable pub new_log_db_writer : ℕ → ℕ → ℕ → LogDbWriter
new_log_db_writer run_id task_id size = record {
  run_id = run_id;
  task_id = task_id;
  buffer_size = size;
  last_idx = 0;
  flush_idx = 0;
  buf_idx = 0;
  buf = [];
  flushing = false;
  flushing_chan = none;
  rows = [];
}

-- A call returns, panics (a channel is closed twice), or waits for a lock that it holds itself.
pub data Outcome : Type 0 where
  returns : LogDbWriter → Outcome
  panics blocks : Outcome

unfoldable pub and_then : Outcome → (LogDbWriter → Outcome) → Outcome
and_then (returns s) k = k s
and_then panics k = panics
and_then blocks k = blocks

-- A row with the same index is replaced.
unfoldable pub insert_task_log : TaskLog → List TaskLog → List TaskLog
insert_task_log log [] = log ∷ []
insert_task_log log (row ∷ rows) =
    if row.log_index == log.log_index then log ∷ rows else row ∷ insert_task_log log rows

unfoldable pub insert_task_logs : List TaskLog → List TaskLog → List TaskLog
unfolding insert_task_log
insert_task_logs [] rows = rows
insert_task_logs (log ∷ logs) rows = insert_task_logs logs (insert_task_log log rows)

-- `close(flushingChan)`.
unfoldable pub close_flushing : LogDbWriter → Outcome
close_flushing s = elim s.flushing_chan [
  | none ↦ returns s
  | some true ↦ panics
  | some false ↦ returns (record s { flushing_chan = some true })
]

-- The transaction, and what follows it.
unfoldable pub insert_buffer : LogDbWriter → LogDbWriter
unfolding insert_task_logs
insert_buffer s = record s { rows = insert_task_logs s.buf s.rows }

unfoldable pub clear_buffer : LogDbWriter → LogDbWriter
clear_buffer s = record s { buf = []; buf_idx = 0; flush_idx = s.last_idx }

abbrev pub is_empty {ℓ} : {A : Type ℓ} → List A → Bool
is_empty [] = true
is_empty (x ∷ xs) = false

-- `Lock` of a lock that the goroutine may hold itself, and what follows.
unfoldable pub lock : (held : Bool) → Outcome → Outcome
lock held next = if held then blocks else next

-- The message on a failed transaction is a call of `Fire` of this writer, from under the lock of the
-- flush: it takes the lock of the buffer, and where the buffer is full that of the flush. `append` is
-- the rest of that call.
unfoldable report_failure :
    (holds_buf : Bool) → (append : LogDbWriter → LogDbWriter) → LogDbWriter → Outcome
unfolding lock
report_failure holds_buf append s =
    lock holds_buf
      (if leb s.buffer_size s.buf_idx then lock true (returns (append s)) else returns (append s))

-- `flushToDB`; its caller may hold the lock of the buffer.
unfoldable pub flush_to_db :
    (holds_buf fails : Bool) → (append : LogDbWriter → LogDbWriter) → LogDbWriter → Outcome
unfolding close_flushing insert_buffer clear_buffer and_then report_failure
flush_to_db holds_buf fails append s = and_then (close_flushing s) λ s1.
    if is_empty s1.buf
    then returns s1
    else if fails
    then report_failure holds_buf append s1
    else returns (clear_buffer (insert_buffer s1))

-- `flushToDB` from `Fire` or after the delay, with the lock of the buffer: no message is appended.
abbrev pub flush_locked : (fails : Bool) → LogDbWriter → Outcome
flush_locked fails s = flush_to_db true fails (λ t. t) s

unfoldable pub flush_delayed : LogDbWriter → LogDbWriter
flush_delayed s = if s.flushing then s else record s { flushing = true; flushing_chan = some false }

module _ {D : Type 0} (len : D → ℕ) (marshal : D → Option String) where
  -- The entry is appended; the rest of `Fire` after the flush.
  unfoldable pub append_entry : Entry D → LogDbWriter → LogDbWriter
  unfolding flush_delayed
  append_entry entry s =
      let log_idx = u64 (s.last_idx + 1) in
      flush_delayed (record s {
        last_idx = log_idx;
        buf = s.buf ++ task_log len marshal s.run_id s.task_id log_idx entry ∷ [];
        buf_idx = u64 (s.buf_idx + 1);
      })

  unfoldable pub fire : (fails : Bool) → Entry D → LogDbWriter → Outcome
  unfolding append_entry flush_to_db and_then
  fire fails entry s =
      let flushed = flush_locked fails s in
      and_then (if leb s.buffer_size s.buf_idx then flushed else returns s)
        λ s1. returns (append_entry entry s1)

  -- `Flush` of the log scope, which does not take the lock of the buffer.
  unfoldable pub flush : (fails : Bool) → (message : Entry D) → LogDbWriter → Outcome
  unfolding append_entry flush_to_db
  flush fails message s = flush_to_db false fails (append_entry message) s

-- The goroutine of `flushDelayed`: its channel has been closed, or its delay is over.
unfoldable pub wake : LogDbWriter → LogDbWriter
wake s = elim s.flushing_chan [
  | some true ↦ record s { flushing_chan = none; flushing = false }
  | _ ↦ s
]

unfoldable pub time_out : (fails : Bool) → LogDbWriter → Outcome
unfolding flush_to_db and_then
time_out fails s =
    let flushed = flush_locked fails (record s { flushing_chan = none }) in
    if s.flushing
    then and_then flushed (λ s1. returns (record s1 { flushing = false }))
    else returns s

unfoldable pub get_log_entry_count : LogDbWriter → ℕ
get_log_entry_count s = s.last_idx

-- `GetTaskLogs`: the first `limit` rows from an index on; the rows are kept in the order of indices.
unfoldable pub get_task_logs : ℕ → ℕ → List TaskLog → List TaskLog
get_task_logs from limit rows = take limit (filterb (λ r. leb from r.log_index) rows)

abbrev first_index : List TaskLog → ℕ
first_index [] = 0
first_index (e ∷ es) = e.log_index

abbrev pub last_index : List TaskLog → ℕ
last_index [] = 0
last_index (e ∷ []) = e.log_index
last_index (e ∷ f ∷ es) = last_index (f ∷ es)

-- The entries of the table, and those of the buffer that are not among them.
unfoldable join_entries : ℕ → List TaskLog → List TaskLog → List TaskLog
join_entries limit stored buffered =
    let overlap = last_index stored - first_index buffered + 1 in
    let fresh =
      if not (is_empty stored) && leb (first_index buffered) (last_index stored)
      then drop overlap buffered
      else buffered in
    if (length stored == limit) || is_empty buffered then stored else take limit (stored ++ fresh)

-- The first branch is taken where the buffer starts at `from` or above.
unfoldable pub get_log_entries : LogDbWriter → ℕ → ℕ → List TaskLog
unfolding get_task_logs join_entries
get_log_entries s from limit =
    if not (is_empty s.buf) && leb from (first_index s.buf)
    then at_most limit (drop (first_index s.buf - from) s.buf)
    else join_entries limit (get_task_logs from limit s.rows) s.buf
