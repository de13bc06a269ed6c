-- ===== src/Logger/MemBuf.antt =====
-- The bounded log buffer of pkg/coordinator/logger/membuf.go. The fields of a log entry and their
-- YAML encoder come from outside: `len` and `marshal` are parameters.
mod Ring
pub mod Query
mod Examples
use assertoor.Prelude.{
  ℕ, suc, ◌+◌, ◌-◌, ◌%◌, ◌^◌, String, Option, none, some, List, [], ◌∷◌, ◌++◌, not, ◌&&◌, ltb, leb,
  ◌==◌, if◌then◌else◌, length, set, take, drop,
}

pub record Entry (D : Type 0) : Type 0 where
  pub time_ms : ℕ
  pub level : ℕ
  pub message : String
  pub fields : D

pub record TaskLog : Type 0 where
  pub run_id : ℕ
  pub task_id : ℕ
  pub log_index : ℕ
  pub log_time : ℕ
  pub log_level : ℕ
  pub log_message : String
  pub log_fields : String

pub record LogMemBuffer : Type 0 where
  pub run_id : ℕ
  pub task_id : ℕ
  pub buffer_size : ℕ
  pub buf_idx : ℕ
  pub buf : List TaskLog
  pub last_idx : ℕ

abbrev pub u64 : ℕ → ℕ
u64 n = n % 2 ^ 64

unfoldable pub new_log_mem_buffer : ℕ → ℕ → ℕ → LogMemBuffer
new_log_mem_buffer run_id task_id size = record {
  run_id = run_id;
  task_id = task_id;
  buffer_size = size;
  buf_idx = 0;
  buf = [];
  last_idx = 0;
}

-- Overwrite the oldest entry of a full buffer, or append.
unfoldable pub push : ℕ → ℕ → List TaskLog → TaskLog → List TaskLog
push size idx buf log = if leb size idx then set buf (idx % size) log else buf ++ log ∷ []

module _ {D : Type 0} (len : D → ℕ) (marshal : D → Option String) where
  pub fields_yaml : D → String
  fields_yaml d = if ltb 0 (len d) then elim (marshal d) [ none ↦ "" | some text ↦ text ] else ""

  unfoldable pub task_log : ℕ → ℕ → ℕ → Entry D → TaskLog
  task_log run task idx entry = record {
    run_id = run;
    task_id = task;
    log_index = idx;
    log_time = entry.time_ms;
    log_level = entry.level % 2 ^ 32;
    log_message = entry.message;
    log_fields = fields_yaml entry.fields;
  }

  -- A buffer of size 0 makes the source divide by zero; the theorems ask for a positive size.
  unfoldable pub fire : LogMemBuffer → Entry D → LogMemBuffer
  fire lmb entry =
      let log_idx = u64 (lmb.last_idx + 1) in
      let log = task_log lmb.run_id lmb.task_id log_idx entry in
      record lmb {
        last_idx = log_idx;
        buf = push lmb.buffer_size lmb.buf_idx lmb.buf log;
        buf_idx = u64 (lmb.buf_idx + 1);
      }

  unfoldable pub fire_all : LogMemBuffer → List (Entry D) → LogMemBuffer
  fire_all lmb [] = lmb
  fire_all lmb (e ∷ es) = fire_all (fire lmb e) es

unfoldable pub get_log_entry_count : LogMemBuffer → ℕ
get_log_entry_count lmb = lmb.last_idx

-- The copy of the buffer, oldest entry first.
pub ordered : ℕ → ℕ → List TaskLog → List TaskLog
ordered size idx buf =
    if leb size idx then drop (idx % size) buf ++ take (idx % size) buf else take idx buf

-- Skip to index `from`; the indices in the buffer are consecutive.
pub skip_to : ℕ → List TaskLog → List TaskLog
skip_to from [] = []
skip_to from (e ∷ es) =
    if ltb e.log_index from
    then (if leb (length (e ∷ es)) (from - e.log_index)
        then []
        else drop (from - e.log_index) (e ∷ es))
    else e ∷ es

pub at_most : ℕ → List TaskLog → List TaskLog
at_most limit es = if not (limit == 0) && ltb limit (length es) then take limit es else es

unfoldable pub get_log_entries : LogMemBuffer → ℕ → ℕ → List TaskLog
unfolding ordered skip_to at_most
get_log_entries lmb from limit =
    at_most limit (skip_to from (ordered lmb.buffer_size lmb.buf_idx lmb.buf))
