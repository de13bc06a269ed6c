-- ===== src/Logger/DbWriter/Flushed.antt =====
-- What a flush of the log writer keeps (logger/dbwriter.go, flushToDB).
use mathlib.Core.List.{append_assoc, append-nil}
use assertoor.Logger.MemBuf.{TaskLog}
use assertoor.Logger.DbWriter.{
  LogDbWriter, Outcome, returns, and_then, insert_task_log, insert_task_logs, close_flushing,
  insert_buffer, clear_buffer, is_empty, flush_to_db,
}
use assertoor.Prelude.{
  ℕ, suc, ◌+◌, ◌≤◌, ◌≡◌, refl, sym, ap, ◌∙◌, ◌≢◌, inl, inr, Bool, true, false, Option, none, some,
  List, [], ◌∷◌, ◌++◌, arith, ◌==◌, Bool-cases, Option-cases, length, nat_key, string_key,
}

-- The indices of the entries are consecutive, from `i` on.
abbrev pub Numbered : ℕ → List TaskLog → Type 0
Numbered i [] = Unit
Numbered i (e ∷ es) = (e.log_index ≡ i) × Numbered (suc i) es

insert_task_log-fresh :
    (i : ℕ) (log : TaskLog) (rows : List TaskLog)
    → Numbered i rows
    → log.log_index ≡ i + length rows
    → insert_task_log log rows ≡ rows ++ log ∷ []
unfolding insert_task_log
insert_task_log-fresh i log [] v e = refl
insert_task_log-fresh i log (row ∷ rows) v e =
    let rest = insert_task_log-fresh (suc i) log rows v.1 (omega arith) in
    let other : (row.log_index == log.log_index) ≡ false = ground arith in
    rw other (ap (◌∷◌ row) rest)

Numbered-append :
    (i : ℕ) (es fs : List TaskLog)
    → Numbered i (es ++ fs)
    → Numbered i es × Numbered (i + length es) fs
Numbered-append i [] fs v = let at : i + 0 ≡ i = omega arith in (tt, rw at v)
Numbered-append i (e ∷ es) fs v =
    let at : i + suc (length es) ≡ suc i + length es = omega arith in
    let (h, t) = Numbered-append (suc i) es fs v.1 in ((v.0, h), rw at t)

pub Numbered-snoc :
    (i : ℕ) (es : List TaskLog) (e : TaskLog)
    → Numbered i es
    → e.log_index ≡ i + length es
    → Numbered i (es ++ e ∷ [])
Numbered-snoc i [] e v h = (omega (arith, h), tt)
Numbered-snoc i (f ∷ es) e v h = (v.0, Numbered-snoc (suc i) es e v.1 (omega (arith, h)))

insert_task_logs-fresh :
    (i : ℕ) (rows buf : List TaskLog)
    → Numbered i (rows ++ buf)
    → insert_task_logs buf rows ≡ rows ++ buf
unfolding insert_task_logs
insert_task_logs-fresh i rows [] v = sym (append-nil rows)
insert_task_logs-fresh i rows (log ∷ buf) v =
    let tail = Numbered-append i rows (log ∷ buf) v in
    let regroup = append_assoc rows (log ∷ []) buf in
    rw (insert_task_log-fresh i log rows tail.0 tail.1.0)
      (insert_task_logs-fresh i (rows ++ log ∷ []) buf (rw regroup v) ∙ regroup)

-- The rows and the buffer are together the entries `h`, in order and numbered from 1.
pub record Holds (run task size : ℕ) (s : LogDbWriter) (h : List TaskLog) : Type 0 where
  pub run_eq : s.run_id ≡ run
  pub task_eq : s.task_id ≡ task
  pub size_eq : s.buffer_size ≡ size
  pub kept : s.rows ++ s.buf ≡ h
  pub numbered : Numbered 1 h
  pub indexed : s.last_idx ≡ length h
  pub counted : s.buf_idx ≡ length s.buf
  pub bounded : length s.buf ≤ size

-- The goroutine has taken notice of its channel.
abbrev pub IsOpen : LogDbWriter → Type 0
IsOpen s = s.flushing_chan ≢ some true

module _ (run task size : ℕ) where
  pub cleared :
      (s : LogDbWriter) (h : List TaskLog)
      → Holds run task size s h
      → Holds run task size (clear_buffer (insert_buffer s)) h
  unfolding clear_buffer insert_buffer
  cleared s h v = record {
    run_eq = v.run_eq;
    task_eq = v.task_eq;
    size_eq = v.size_eq;
    kept =
        append-nil (insert_task_logs s.buf s.rows)
        ∙ insert_task_logs-fresh 1 s.rows s.buf (rw v.kept v.numbered)
        ∙ v.kept;
    numbered = v.numbered;
    indexed = v.indexed;
    counted = refl;
    bounded = omega arith;
  }

  -- A flush with its outcome: what is held stays so, and the buffer is empty.
  unfoldable pub Flushed : LogDbWriter → List TaskLog → Outcome → Type 0
  Flushed s h o = (s' : LogDbWriter) × (o ≡ returns s') × Holds run task size s' h × (s'.buf ≡ [])

  pub closed_Holds :
      (s : LogDbWriter) (h : List TaskLog) (f : Bool) (c : Option Bool)
      → Holds run task size s h
      → Holds run task size (record s { flushing = f; flushing_chan = c }) h
  closed_Holds s h f c v = record {
    run_eq = v.run_eq;
    task_eq = v.task_eq;
    size_eq = v.size_eq;
    kept = v.kept;
    numbered = v.numbered;
    indexed = v.indexed;
    counted = v.counted;
    bounded = v.bounded;
  }

  close_flushing-open :
      (s : LogDbWriter)
      → IsOpen s
      → (c : Option Bool) × (close_flushing s ≡ returns (record s { flushing_chan = c }))
  unfolding close_flushing
  close_flushing-open s open_chan = elim (Option-cases s.flushing_chan) [
    | inl e ↦ (none, rw (e, close_flushing) (ap (λ c. returns (record s { flushing_chan = c })) e))
    | inr (true, e) ↦ absurd (open_chan e)
    | inr (false, e) ↦ (some true, rw (e, close_flushing))
  ]

  is_empty-nil : (buf : List TaskLog) → is_empty buf ≡ true → buf ≡ []
  is_empty-nil [] e = refl
  is_empty-nil (x ∷ buf) e = cc

  pub flush_to_db-Flushed :
      (holds_buf : Bool) (append : LogDbWriter → LogDbWriter) (s : LogDbWriter) (h : List TaskLog)
      → IsOpen s
      → Holds run task size s h
      → Flushed s h (flush_to_db holds_buf false append s)
  unfolding flush_to_db and_then Flushed
  flush_to_db-Flushed holds_buf append s h open_chan v =
      let (c, e) = close_flushing-open s open_chan in
      let s1 = record s { flushing_chan = c } in
      let v1 = closed_Holds s h s.flushing c v in
      elim (Bool-cases (is_empty s.buf)) [
        | inl none_left ↦ (s1, rw (e, and_then) (rw none_left), v1, is_empty-nil s.buf none_left)
        | inr some_left ↦ (
          clear_buffer (insert_buffer s1),
          rw (e, and_then) (rw some_left),
          cleared s1 h v1,
          refl,
        )
      ]
