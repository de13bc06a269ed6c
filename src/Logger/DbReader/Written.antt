-- ===== src/Logger/DbReader/Written.antt =====
-- What was logged is read (logger/dbwriter.go and logger/dbreader.go).
use assertoor.Logger.MemBuf.{Entry, TaskLog, task_log}
use assertoor.Logger.MemBuf.Query.{logs, length-logs}
use assertoor.Logger.DbWriter.{LogDbWriter, new_log_db_writer, returns, flush, get_task_logs}
use assertoor.Logger.DbWriter.Flushed.{Numbered}
use assertoor.Logger.DbWriter.Stored.{Action, apply_actions, fired, flush-rows}
use assertoor.Logger.DbReader.{
  new_log_db_reader, get_last_log_index, read_log_entry_count, read_log_entries,
}
use assertoor.Prelude.{
  ℕ, suc, ◌+◌, ◌^◌, ◌<◌, String, ◌≡◌, refl, ap, ◌∙◌, false, Option, List, [], ◌∷◌, arith, leb, ◌==◌,
  if◌then◌else◌, length, take, filterb, nat_key, string_key,
}

last-Numbered :
    (i : ℕ) (rows : List TaskLog)
    → Numbered (suc i) rows
    → get_last_log_index rows ≡ (if length rows == 0 then 0 else i + length rows)
unfolding get_last_log_index
last-Numbered i [] v = refl
last-Numbered i (row ∷ rows) (here, v) =
    let last = last-Numbered (suc i) rows v in ground (arith, last, here)

module _ {D : Type 0} (len : D → ℕ) (marshal : D → Option String) (message : Entry D)
    (run task size : ℕ) where
  -- While the transactions succeed: after any actions on a new writer and a `Flush`, a new reader of
  -- the task finds the first entries, up to the limit, of those logged that have the wanted index or
  -- a higher one, and counts all that were logged.
  pub flush-read_log_entries :
      (rest : List (Action D)) (from limit : ℕ)
      → length (fired rest) < 2 ^ 64
      → 0 < size
      → size < 2 ^ 64
      → (s : LogDbWriter) × (s' : LogDbWriter) × (apply_actions len marshal message run task size
            rest
            (new_log_db_writer run task size)
          ≡ returns s)
        × (flush len marshal false message s ≡ returns s')
        × (read_log_entries false s'.rows from limit
            ≡ take limit (
                filterb
                  (λ r. leb from r.log_index)
                  (logs (task_log len marshal run task) 1 (fired rest))))
        × ((read_log_entry_count false s'.rows new_log_db_reader).1 ≡ length (fired rest))
  unfolding read_log_entries read_log_entry_count get_task_logs new_log_db_reader
  flush-read_log_entries rest from limit small pos narrow =
      let (s, s', eq, flushed, same, numbered) =
        flush-rows len marshal message run task size rest small pos narrow in
      let count : get_last_log_index s'.rows ≡ length s'.rows =
        last-Numbered 0 s'.rows numbered ∙ ground arith in
      (
        s,
        s',
        eq,
        flushed,
        ap (λ rows. take limit (filterb (λ r. leb from r.log_index) rows)) same,
        count ∙ ap length same ∙ length-logs (task_log len marshal run task) 1 (fired rest),
      )
