-- ===== src/Logger/DbWriter/Stored.antt =====
-- What the log writer keeps while its database works (logger/dbwriter.go).
use mathlib.Core.List.{append_assoc, append-nil}
use assertoor.Logger.MemBuf.{Entry, TaskLog, u64, task_log}
use assertoor.Logger.MemBuf.Query.{logs, length-logs}
use assertoor.Logger.DbWriter.{
  LogDbWriter, new_log_db_writer, Outcome, returns, and_then, get_log_entry_count, insert_buffer,
  clear_buffer, flush_to_db, flush_locked, flush_delayed, append_entry, fire, flush, wake, time_out,
}
use assertoor.Logger.DbWriter.Flushed.{
  Numbered, Numbered-snoc, Holds, IsOpen, cleared, Flushed, closed_Holds, flush_to_db-Flushed,
}
use assertoor.Prelude.{
  ℕ, suc, ◌+◌, ◌^◌, ◌≤◌, ◌<◌, String, ◌≡◌, refl, sym, ap, ◌∙◌, ◌⊎◌, inl, inr, true, false, Option,
  none, some, List, [], ◌∷◌, ◌++◌, arith, leb, Bool-cases, Option-cases, length, length-append,
  nat_key, string_key,
}

-- What is done to a writer whose database works.
pub data Action (D : Type 0) : Type 0 where
  fires : Entry D → Action D
  flushes times_out : Action D

-- The entries that are logged by a sequence of actions.
abbrev pub fired : {D : Type 0} → List (Action D) → List (Entry D)
fired [] = []
fired (fires e ∷ rest) = e ∷ fired rest
fired (flushes ∷ rest) = fired rest
fired (times_out ∷ rest) = fired rest

module _ {D : Type 0} (len : D → ℕ) (marshal : D → Option String) (message : Entry D)
    (run task size : ℕ) where
  number : ℕ → Entry D → TaskLog
  number = task_log len marshal run task

  flush_delayed-cases :
      (s : LogDbWriter)
      → (flush_delayed s ≡ s)
        ⊎ (flush_delayed s ≡ record s { flushing = true; flushing_chan = some false })
  unfolding flush_delayed
  flush_delayed-cases s = ground arith

  flush_delayed-Holds :
      (s : LogDbWriter) (h : List TaskLog)
      → Holds run task size s h
      → Holds run task size (flush_delayed s) h
  flush_delayed-Holds s h v = elim (flush_delayed-cases s) [
    | inl same ↦ rw same v
    | inr new ↦ rw new (closed_Holds run task size s h true (some false) v)
  ]

  append_entry-Holds :
      (s : LogDbWriter) (h : List TaskLog) (e : Entry D)
      → length h + 1 < 2 ^ 64
      → length s.buf < size
      → size < 2 ^ 64
      → Holds run task size s h
      → Holds run task size (append_entry len marshal e s) (h ++ number (suc (length h)) e ∷ [])
  unfolding append_entry number task_log
  append_entry-Holds s h e small room narrow v =
      let at : u64 (s.last_idx + 1) ≡ suc (length h) = omega (arith, v.indexed) in
      let same : task_log len marshal s.run_id s.task_id (u64 (s.last_idx + 1)) e
          ≡ number (suc (length h)) e =
        rw (v.run_eq, v.task_eq, at) in
      let new = number (suc (length h)) e in
      let made = task_log len marshal s.run_id s.task_id (u64 (s.last_idx + 1)) e in
      let grown = length-append s.buf (made ∷ []) in
      flush_delayed-Holds _ (h ++ new ∷ []) (record {
        run_eq = v.run_eq;
        task_eq = v.task_eq;
        size_eq = v.size_eq;
        kept =
            sym (append_assoc s.rows s.buf (made ∷ []))
            ∙ ap (λ l. l ++ made ∷ []) v.kept
            ∙ ap (λ y. h ++ y ∷ []) same;
        numbered = Numbered-snoc 1 h new v.numbered (omega arith);
        indexed = at ∙ omega (arith, length-append h (new ∷ []));
        counted = omega (arith, v.counted, grown);
        bounded = omega (arith, grown);
      })

  -- A new entry is held after the old ones.
  fire-Holds :
      (s : LogDbWriter) (h : List TaskLog) (e : Entry D)
      → length h + 1 < 2 ^ 64
      → 0 < size
      → size < 2 ^ 64
      → IsOpen s
      → Holds run task size s h
      → (s' : LogDbWriter) × (fire len marshal false e s ≡ returns s')
        × Holds run task size s' (h ++ number (suc (length h)) e ∷ [])
  unfolding fire and_then Flushed
  fire-Holds s h e small pos narrow open_chan v = elim (Bool-cases (leb s.buffer_size s.buf_idx)) [
    | inr room ↦ (
      append_entry len marshal e s,
      rw room,
      append_entry-Holds s h e small (ground (arith, v.size_eq, v.counted)) narrow v,
    )
    | inl full ↦
        let (s1, eq, v1, none_left) =
          flush_to_db-Flushed run task size true (λ t. t) s h open_chan v in
        (
          append_entry len marshal e s1,
          rw (full, eq),
          append_entry-Holds s1 h e small (omega (arith, ap length none_left)) narrow v1,
        )
  ]

  flush-Holds :
      (s : LogDbWriter) (h : List TaskLog)
      → IsOpen s
      → Holds run task size s h
      → (s' : LogDbWriter) × (flush len marshal false message s ≡ returns s')
        × Holds run task size s' h
  unfolding flush flush_to_db Flushed
  flush-Holds s h open_chan v =
      let (s', eq, v', none_left) =
        flush_to_db-Flushed run task size false (append_entry len marshal message) s h open_chan
          v in
      (s', eq, v')

  time_out-idle : (s : LogDbWriter) → s.flushing ≡ false → time_out false s ≡ returns s
  unfolding time_out
  time_out-idle s idle = simp (idle, time_out)

  time_out-busy :
      (s : LogDbWriter)
      → s.flushing ≡ true
      → time_out false s
        ≡ and_then
            (flush_locked false (record s { flushing_chan = none }))
            (λ s2. returns (record s2 { flushing = false }))
  unfolding time_out
  time_out-busy s busy = simp (busy, time_out)

  time_out-Holds :
      (s : LogDbWriter) (h : List TaskLog)
      → Holds run task size s h
      → (s' : LogDbWriter) × (time_out false s ≡ returns s') × Holds run task size s' h
  unfolding and_then Flushed
  time_out-Holds s h v = elim (Bool-cases s.flushing) [
    | inr idle ↦ (s, time_out-idle s idle, v)
    | inl busy ↦
        let s0 = record s { flushing_chan = none } in
        let (s1, eq, v1, none_left) =
          flush_to_db-Flushed run task size true (λ t. t) s0 h (λ e. cc)
            (closed_Holds run task size s h s.flushing none v) in
        (
          record s1 { flushing = false },
          time_out-busy s busy
              ∙ ap (λ o. and_then o (λ s2. returns (record s2 { flushing = false }))) eq,
          closed_Holds run task size s1 h false s1.flushing_chan v1,
        )
  ]

  wake-cases :
      (s : LogDbWriter)
      → ((wake s ≡ s) × IsOpen s) ⊎ (wake s ≡ record s { flushing_chan = none; flushing = false })
  unfolding wake
  wake-cases s = elim (Option-cases s.flushing_chan) [
    | inl e ↦ inl (simp (e, wake), λ n. cc)
    | inr (true, e) ↦ inr (simp (e, wake))
    | inr (false, e) ↦ inl (simp (e, wake), λ n. cc)
  ]

  wake-Holds :
      (s : LogDbWriter) (h : List TaskLog)
      → Holds run task size s h
      → Holds run task size (wake s) h × IsOpen (wake s)
  wake-Holds s h v = elim (wake-cases s) [
    | inl (same, open_chan) ↦ rw same (v, open_chan)
    | inr new ↦ rw new (closed_Holds run task size s h false none v, λ n. cc)
  ]

  -- An action, after which the goroutine takes notice of its channel.
  unfoldable apply_action : Action D → LogDbWriter → Outcome
  unfolding fire flush time_out wake and_then
  apply_action (fires e) s = and_then (fire len marshal false e s) (λ t. returns (wake t))
  apply_action flushes s = and_then (flush len marshal false message s) (λ t. returns (wake t))
  apply_action times_out s = and_then (time_out false s) (λ t. returns (wake t))

  unfoldable pub apply_actions : List (Action D) → LogDbWriter → Outcome
  unfolding apply_action and_then
  apply_actions [] s = returns s
  apply_actions (a ∷ rest) s = and_then (apply_action a s) (apply_actions rest)

  -- What an action leaves: the old entries and those that it logs.
  Held : LogDbWriter → List TaskLog → Outcome → Type 0
  Held s h o = (s' : LogDbWriter) × (o ≡ returns s') × Holds run task size s' h × IsOpen s'

  woken :
      (o : Outcome) (s' : LogDbWriter) (h : List TaskLog) (s : LogDbWriter)
      → o ≡ returns s'
      → Holds run task size s' h
      → Held s h (and_then o (λ t. returns (wake t)))
  unfolding Held and_then
  woken o s' h s eq v = let (v', open_chan) = wake-Holds s' h v in (wake s', rw eq, v', open_chan)

  -- The rest of a sequence, after an action that leaves `h`.
  goes_on :
      (o : Outcome) (rest : List (Action D)) (s : LogDbWriter) (h h' : List TaskLog)
      → Held s h o
      → ((s1 : LogDbWriter)
          → IsOpen s1
          → Holds run task size s1 h
          → Held s1 h' (apply_actions rest s1))
      → Held s h' (and_then o (apply_actions rest))
  unfolding Held and_then
  goes_on o rest s h h' (s1, eq, v1, open_chan) next =
      let (s2, eq2, v2, open2) = next s1 open_chan v1 in (s2, rw eq eq2, v2, open2)

  apply_actions-Held :
      (rest : List (Action D)) (s : LogDbWriter) (h : List TaskLog)
      → length h + length (fired rest) < 2 ^ 64
      → 0 < size
      → size < 2 ^ 64
      → IsOpen s
      → Holds run task size s h
      → Held s (h ++ logs number (suc (length h)) (fired rest)) (apply_actions rest s)
  unfolding apply_actions apply_action logs Held
  apply_actions-Held [] s h small pos narrow open_chan v = (s, refl, rw (append-nil h) v, open_chan)
  apply_actions-Held (fires e ∷ rest) s h small pos narrow open_chan v =
      let (s1, eq, v1) = fire-Holds s h e (omega arith) pos narrow open_chan v in
      let new = number (suc (length h)) e in
      let grown = length-append h (new ∷ []) in
      let count : length (h ++ new ∷ []) ≡ suc (length h) = omega (arith, grown) in
      let regroup = append_assoc h (new ∷ []) (logs number (suc (suc (length h))) (fired rest)) in
      goes_on _ rest s (h ++ new ∷ []) _ (woken _ s1 (h ++ new ∷ []) s eq v1) λ s2 open2 v2.
        rw (← regroup) (
          rw count at
            (apply_actions-Held rest s2 (h ++ new ∷ []) (omega (arith, grown)) pos narrow open2 v2))
  apply_actions-Held (flushes ∷ rest) s h small pos narrow open_chan v =
      let (s1, eq, v1) = flush-Holds s h open_chan v in
      goes_on _ rest s h _ (woken _ s1 h s eq v1)
        λ s2 open2 v2. apply_actions-Held rest s2 h small pos narrow open2 v2
  apply_actions-Held (times_out ∷ rest) s h small pos narrow open_chan v =
      let (s1, eq, v1) = time_out-Holds s h v in
      goes_on _ rest s h _ (woken _ s1 h s eq v1)
        λ s2 open2 v2. apply_actions-Held rest s2 h small pos narrow open2 v2

  new_Holds : Holds run task size (new_log_db_writer run task size) []
  unfolding new_log_db_writer
  new_Holds = record {
    run_eq = refl;
    task_eq = refl;
    size_eq = refl;
    kept = refl;
    numbered = tt;
    indexed = refl;
    counted = refl;
    bounded = omega arith;
  }

  -- While the transactions succeed, and the goroutine takes notice of its channel between two
  -- actions, no action on a new writer panics or blocks. After any of them the rows followed by the
  -- buffer are the entries that were logged, in order and numbered from 1: none is lost, none is
  -- stored twice. The buffer does not outgrow its size, and the count is the number of entries.
  pub apply_actions-stored :
      (rest : List (Action D))
      → length (fired rest) < 2 ^ 64
      → 0 < size
      → size < 2 ^ 64
      → (s : LogDbWriter) × (apply_actions rest (new_log_db_writer run task size) ≡ returns s)
        × (s.rows ++ s.buf ≡ logs (task_log len marshal run task) 1 (fired rest))
        × (get_log_entry_count s ≡ length (fired rest))
        × (length s.buf ≤ size)
  unfolding new_log_db_writer Held number get_log_entry_count
  apply_actions-stored rest small pos narrow =
      let start = new_log_db_writer run task size in
      let (s, eq, v, open_chan) =
        apply_actions-Held rest start [] (omega arith) pos narrow (λ n. cc) new_Holds in
      (s, eq, v.kept, v.indexed ∙ length-logs number 1 (fired rest), v.bounded)

  -- A `Flush` after the actions leaves all entries in the table.
  pub flush-rows :
      (rest : List (Action D))
      → length (fired rest) < 2 ^ 64
      → 0 < size
      → size < 2 ^ 64
      → (s : LogDbWriter) × (s' : LogDbWriter) × (apply_actions rest
            (new_log_db_writer run task size)
          ≡ returns s)
        × (flush len marshal false message s ≡ returns s')
        × (s'.rows ≡ logs (task_log len marshal run task) 1 (fired rest))
        × Numbered 1 s'.rows
  unfolding new_log_db_writer Held number flush flush_to_db Flushed
  flush-rows rest small pos narrow =
      let start = new_log_db_writer run task size in
      let (s, eq, v, open_chan) =
        apply_actions-Held rest start [] (omega arith) pos narrow (λ n. cc) new_Holds in
      let h = logs (task_log len marshal run task) 1 (fired rest) in
      let (s', flushed, v', none_left) =
        flush_to_db-Flushed run task size false (append_entry len marshal message) s h open_chan
          v in
      let same : s'.rows ≡ h =
        sym (append-nil s'.rows) ∙ ap (λ l. s'.rows ++ l) (sym none_left) ∙ v'.kept in
      (s, s', eq, flushed, same, rw same v'.numbered)

  append_entry-rows :
      (e : Entry D) (s : LogDbWriter)
      → ((append_entry len marshal e s).rows ≡ s.rows)
        × ((append_entry len marshal e s).last_idx ≡ u64 (s.last_idx + 1))
  unfolding append_entry flush_delayed
  append_entry-rows e s = ground arith

  -- `Flush` does not hold the lock of the buffer. An entry that is logged between its transaction
  -- and the reset of the buffer is counted, but it is in neither the table nor the buffer.
  apply_actions-lost :
      (rest : List (Action D)) (e : Entry D)
      → length (fired rest) + 1 < 2 ^ 64
      → 0 < size
      → size < 2 ^ 64
      → (s : LogDbWriter) × (apply_actions rest (new_log_db_writer run task size) ≡ returns s)
        × (let s' = clear_buffer (append_entry len marshal e (insert_buffer s)) in
            (s'.rows ++ s'.buf ≡ logs (task_log len marshal run task) 1 (fired rest))
            × (get_log_entry_count s' ≡ suc (length (fired rest))))
  unfolding new_log_db_writer Held number get_log_entry_count clear_buffer insert_buffer
  apply_actions-lost rest e small pos narrow =
      let start = new_log_db_writer run task size in
      let (s, eq, v, open_chan) =
        apply_actions-Held rest start [] (omega arith) pos narrow (λ n. cc) new_Holds in
      let kept = (cleared run task size s _ v).kept in
      let (rows, last) = append_entry-rows e (insert_buffer s) in
      let count = v.indexed ∙ length-logs number 1 (fired rest) in
      (s, eq, (ap (λ l. l ++ []) rows ∙ kept, last ∙ omega (arith, count)))
