-- ===== src/Logger/DbWriter/Examples.antt =====
-- A log writer with a buffer of two entries (logger/dbwriter.go).
use assertoor.Prelude.{
  ℕ, ◌≤◌, String, ◌≡◌, false, Option, some, List, [], ◌∷◌, ◌++◌, arith, leb, length, take, filterb,
  nat_key, string_key,
}
use assertoor.Logger.MemBuf.{Entry, task_log}
use assertoor.Logger.MemBuf.Query.{logs}
use assertoor.Logger.DbWriter.{LogDbWriter, returns, new_log_db_writer, get_log_entry_count, flush}
use assertoor.Logger.DbWriter.Stored.{Action, fires, times_out, apply_actions, apply_actions-stored}
use assertoor.Logger.DbReader.{new_log_db_reader, read_log_entry_count, read_log_entries}
use assertoor.Logger.DbReader.Written.{flush-read_log_entries}

abbrev line : ℕ → Entry (List String)
line t = record { time_ms = t; level = 4; message = "block seen"; fields = [] }

abbrev encode : List String → Option String
encode fields = some "fields"

abbrev three_lines : List (Action (List String))
three_lines = fires (line 10) ∷ fires (line 11) ∷ fires (line 12) ∷ times_out ∷ []

apply_actions-stored_example :
    (s : LogDbWriter) × (apply_actions length encode
        (line 99)
        1
        2
        2
        three_lines
        (new_log_db_writer 1 2 2)
      ≡ returns s)
    × (s.rows ++ s.buf ≡ logs (task_log length encode 1 2) 1 (line 10 ∷ line 11 ∷ line 12 ∷ []))
    × (get_log_entry_count s ≡ 3)
    × (length s.buf ≤ 2)
apply_actions-stored_example =
    apply_actions-stored length encode (line 99) 1 2 2 three_lines (omega arith) (omega arith)
      (omega arith)

flush-read_log_entries_example :
    (s : LogDbWriter) × (s' : LogDbWriter) × (apply_actions length encode
        (line 99)
        1
        2
        2
        three_lines
        (new_log_db_writer 1 2 2)
      ≡ returns s)
    × (flush length encode false (line 99) s ≡ returns s')
    × (read_log_entries false s'.rows 2 1
        ≡ take 1 (
            filterb
              (λ r. leb 2 r.log_index)
              (logs (task_log length encode 1 2) 1 (line 10 ∷ line 11 ∷ line 12 ∷ []))))
    × ((read_log_entry_count false s'.rows new_log_db_reader).1 ≡ 3)
flush-read_log_entries_example =
    flush-read_log_entries length encode (line 99) 1 2 2 three_lines 2 1 (omega arith) (omega arith)
      (omega arith)
