-- ===== src/Logger/MemBuf/Query.antt =====
-- What a query of the log buffer returns (logger/membuf.go).
use assertoor.Prelude.{
  ℕ, zero, suc, ◌+◌, ◌-◌, ◌^◌, ◌<◌, String, ◌≡◌, refl, sym, ap, ◌∙◌, inl, inr, Bool, Option, List,
  [], ◌∷◌, ◌++◌, arith, leb, Bool-cases, length, drop, filterb, length-append, drop_all, nat_key,
  string_key,
}
use mathlib.Core.List.{append_assoc, append-nil}
use Prim.Native.Nat.{min}
use assertoor.Logger.MemBuf.{
  Entry, TaskLog, LogMemBuffer, new_log_mem_buffer, task_log, fire, fire_all, ordered, u64, skip_to,
  at_most, get_log_entries, get_log_entry_count,
}
use assertoor.Logger.MemBuf.Ring.{push-ordered, length-push}

-- The buffer belongs to one task, counts all entries of `h` and holds the last ones.
record Holds (run task size : ℕ) (lmb : LogMemBuffer) (h : List TaskLog) : Type 0 where
  run_eq : lmb.run_id ≡ run
  task_eq : lmb.task_id ≡ task
  size_eq : lmb.buffer_size ≡ size
  indexed : lmb.last_idx ≡ length h
  counted : lmb.buf_idx ≡ length h
  filled : length lmb.buf ≡ min (length h) size
  newest : ordered size (length h) lmb.buf ≡ drop (length h - size) h

fresh_Holds : (run task size : ℕ) → Holds run task size (new_log_mem_buffer run task size) []
unfolding new_log_mem_buffer ordered
fresh_Holds run task size = record {
  run_eq = refl;
  task_eq = refl;
  size_eq = refl;
  indexed = refl;
  counted = refl;
  filled = omega arith;
  newest = ground arith;
}

-- The entries that were logged, numbered from `i`.
unfoldable pub logs : {D : Type 0} → (ℕ → Entry D → TaskLog) → ℕ → List (Entry D) → List TaskLog
logs number i [] = []
logs number i (e ∷ es) = number i e ∷ logs number (suc i) es

pub length-logs :
    {D : Type 0} (number : ℕ → Entry D → TaskLog) (i : ℕ) (es : List (Entry D))
    → length (logs number i es) ≡ length es
unfolding logs
length-logs number i [] = refl
length-logs number i (e ∷ es) = ap suc (length-logs number (suc i) es)

module _ {D : Type 0} (len : D → ℕ) (marshal : D → Option String) (run task size : ℕ) where
  fire-Holds :
      (lmb : LogMemBuffer) (h : List TaskLog) (e : Entry D)
      → 0 < size
      → length h + 1 < 2 ^ 64
      → Holds run task size lmb h
      → Holds run task size
          (fire len marshal lmb e)
          (h ++ task_log len marshal run task (suc (length h)) e ∷ [])
  unfolding fire
  fire-Holds lmb h e pos small v =
      let x = task_log len marshal run task (suc (length h)) e in
      let next : length (h ++ x ∷ []) ≡ length h + 1 = length-append h (x ∷ []) in
      let idx : u64 (lmb.last_idx + 1) ≡ suc (length h) = omega (arith, v.indexed) in
      let count : u64 (lmb.buf_idx + 1) ≡ length h + 1 = omega (arith, v.counted) in
      record {
        run_eq = v.run_eq;
        task_eq = v.task_eq;
        size_eq = v.size_eq;
        indexed = omega (arith, idx, next);
        counted = count ∙ sym next;
        filled =
            rw (v.run_eq, v.task_eq, v.size_eq, v.counted, idx, next)
              (length-push size (length h) lmb.buf x v.filled);
        newest =
            rw (v.run_eq, v.task_eq, v.size_eq, v.counted, idx, next)
              (push-ordered size lmb.buf h x pos v.filled v.newest);
      }

  fire_all-Holds :
      (lmb : LogMemBuffer) (h : List TaskLog) (es : List (Entry D))
      → 0 < size
      → length h + length es < 2 ^ 64
      → Holds run task size lmb h
      → Holds run task size
          (fire_all len marshal lmb es)
          (h ++ logs (task_log len marshal run task) (suc (length h)) es)
  unfolding fire_all logs
  fire_all-Holds lmb h [] pos small v = rw (append-nil h) v
  fire_all-Holds lmb h (e ∷ es) pos small v =
      let x = task_log len marshal run task (suc (length h)) e in
      let next : length (h ++ x ∷ []) ≡ suc (length h) = omega (arith, length-append h (x ∷ [])) in
      rw (next, append_assoc h (x ∷ [])) at
        (fire_all-Holds (fire len marshal lmb e) (h ++ x ∷ []) es pos (omega arith)
          (fire-Holds lmb h e pos (omega arith) v))

-- The indices of a list of entries run from `i` without a gap.
abbrev Consecutive : ℕ → List TaskLog → Type 0
Consecutive i [] = Unit
Consecutive i (x ∷ xs) = (x.log_index ≡ i) × Consecutive (suc i) xs

abbrev reaches : ℕ → TaskLog → Bool
reaches from l = leb from l.log_index

filterb-drop :
    (from i : ℕ) (xs : List TaskLog)
    → Consecutive i xs
    → filterb (reaches from) xs ≡ drop (from - i) xs
filterb-drop from i [] c = sym (drop_all (from - i) [] (omega arith))
filterb-drop from i (x ∷ xs) c = elim (Bool-cases (leb from i)) [
  | inl all ↦
      let none_here : from - i ≡ 0 = ground arith in
      let none_there : from - suc i ≡ 0 = ground arith in
      rw (c.0, all, none_here, filterb-drop from (suc i) xs c.1, none_there)
  | inr later ↦
      let one_more : from - i ≡ suc (from - suc i) = ground arith in
      rw (c.0, later, one_more) (filterb-drop from (suc i) xs c.1)
]

-- On consecutive entries the arithmetic skip is the test of every index.
skip_to-filterb :
    (from i : ℕ) (xs : List TaskLog)
    → Consecutive i xs
    → skip_to from xs ≡ filterb (reaches from) xs
unfolding skip_to
skip_to-filterb from i [] c = refl
skip_to-filterb from i (x ∷ xs) c =
    let skipped : skip_to from (x ∷ xs) ≡ drop (from - i) (x ∷ xs) =
      ground (arith, drop_all (from - i) (x ∷ xs)) in
    skipped ∙ sym (filterb-drop from i (x ∷ xs) c)

logs-Consecutive :
    {D : Type 0} (len : D → ℕ) (marshal : D → Option String) (run task i : ℕ) (es : List (Entry D))
    → Consecutive i (logs (task_log len marshal run task) i es)
unfolding logs task_log
logs-Consecutive len marshal run task i [] = tt
logs-Consecutive len marshal run task i (e ∷ es) =
    (refl, logs-Consecutive len marshal run task (suc i) es)

drop-Consecutive :
    (n i : ℕ) (xs : List TaskLog) → Consecutive i xs → (j : ℕ) × Consecutive j (drop n xs)
drop-Consecutive zero i xs c = (i, c)
drop-Consecutive (suc n) i [] c = (i, tt)
drop-Consecutive (suc n) i (x ∷ xs) c = drop-Consecutive n (suc i) xs c.1

-- After any number of log calls on a fresh buffer of positive size (fewer than 2^64), a query from
-- index `from` returns, in order and cut at `limit` unless that is 0, exactly the entries with an
-- index of at least `from` among the last `size` entries logged, which are numbered from 1; and
-- the entry count is the number of calls.
pub fire_all-get_log_entries :
    {D : Type 0} (len : D → ℕ) (marshal : D → Option String) (run task size from limit : ℕ)
    (es : List (Entry D))
    → 0 < size
    → length es < 2 ^ 64
    → let lmb = fire_all len marshal (new_log_mem_buffer run task size) es in
      (get_log_entries lmb from limit
        ≡ at_most limit (
            filterb
              (λ l. leb from l.log_index)
              (drop (length es - size) (logs (task_log len marshal run task) 1 es))))
      × (get_log_entry_count lmb ≡ length es)
unfolding get_log_entries get_log_entry_count new_log_mem_buffer
fire_all-get_log_entries len marshal run task size from limit es pos small =
    let all = logs (task_log len marshal run task) 1 es in
    let held =
      fire_all-Holds len marshal run task size (new_log_mem_buffer run task size) [] es pos
        (omega arith) (fresh_Holds run task size) in
    let count : length all ≡ length es = length-logs (task_log len marshal run task) 1 es in
    let (j, gapless) =
      drop-Consecutive (length es - size) 1 all (logs-Consecutive len marshal run task 1 es) in
    (
      rw (held.size_eq, held.counted, held.newest, count)
          (ap (at_most limit) (skip_to-filterb from j (drop (length es - size) all) gapless)),
      held.indexed ∙ count,
    )
