-- ===== src/Logger/DbReader.antt =====
-- The reader of the log entries that are in the database (logger/dbreader.go, db/task_logs.go).
-- `rows` are those of its task; `fails` says whether the query fails.
pub mod Written
use assertoor.Logger.MemBuf.{TaskLog}
use assertoor.Logger.DbWriter.{get_task_logs}
use assertoor.Prelude.{
  ℕ, Bool, Option, none, some, List, [], ◌∷◌, arith, ltb, if◌then◌else◌, nat_key, string_key,
}

pub record LogDbReader : Type 0 where
  pub last_idx : Option ℕ

unfoldable pub new_log_db_reader : LogDbReader
new_log_db_reader = record { last_idx = none }

-- `COALESCE(MAX(log_idx), 0)`.
unfoldable pub get_last_log_index : List TaskLog → ℕ
get_last_log_index [] = 0
get_last_log_index (row ∷ rows) =
    let last = get_last_log_index rows in if ltb last row.log_index then row.log_index else last

-- The count is kept from the first query that succeeds on.
unfoldable pub read_log_entry_count : (fails : Bool) → List TaskLog → LogDbReader → LogDbReader × ℕ
unfolding get_last_log_index
read_log_entry_count fails rows r = elim r.last_idx [
  | some last ↦ (r, last)
  | none ↦
      if fails
      then (r, 0)
      else (record { last_idx = some (get_last_log_index rows) }, get_last_log_index rows)
]

unfoldable pub read_log_entries : (fails : Bool) → List TaskLog → (from limit : ℕ) → List TaskLog
unfolding get_task_logs
read_log_entries fails rows from limit = if fails then [] else get_task_logs from limit rows
