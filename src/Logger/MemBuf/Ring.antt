-- ===== src/Logger/MemBuf/Ring.antt =====
-- The ring of log entries against the list of all entries ever logged (logger/membuf.go).
use mathlib.Core.List.{append_assoc, append-nil}
use native.Mathlib.Nat.{mod-lt, mod_self}
use Prim.Native.Nat.{min}
use assertoor.Prelude.{
  ℕ, suc, ◌+◌, ◌-◌, ◌%◌, ◌≤◌, ◌<◌, ◌≡◌, sym, ap, ◌∙◌, inl, inr, List, [], ◌∷◌, ◌++◌, arith, ltb,
  ltb→lt, Bool-cases, length, set, take, drop, length-append, length-set, drop_all, take_all,
  drop-append_le, drop_head, drop-drop, drop-set, take-set, nat_key, string_key,
}
use assertoor.Logger.MemBuf.{TaskLog, push, ordered}

abbrev rotated {ℓ} : {A : Type ℓ} → ℕ → List A → List A
rotated i xs = drop i xs ++ take i xs

-- Writing at the head of the rotation and moving the head by one drops the oldest entry and appends.
rotated-set {ℓ} :
    {A : Type ℓ} (i : ℕ) (xs : List A) (v : A)
    → suc i ≤ length xs
    → rotated (suc i) (set xs i v) ≡ drop 1 (rotated i xs) ++ v ∷ []
rotated-set i xs v h =
    let (x, e) = drop_head i xs h in
    rw (drop-set i xs v, take-set i xs v h, e)
      (sym (append_assoc (drop (suc i) xs) (take i xs) (v ∷ [])))

mod_suc : (n k : ℕ) → 0 < k → suc (n % k) < k → (n + 1) % k ≡ suc (n % k)
mod_suc n k pos h = grind arith

mod_wrap : (n k : ℕ) → 0 < k → suc (n % k) ≡ k → (n + 1) % k ≡ 0
mod_wrap n k pos h = grind arith

-- The head moves by one, or wraps where the rotation by the size is the rotation by 0.
rotated_next {ℓ} :
    {A : Type ℓ} (n k : ℕ) (xs : List A)
    → 0 < k
    → length xs ≡ k
    → rotated ((n + 1) % k) xs ≡ rotated (suc (n % k)) xs
rotated_next n k xs pos full = elim (Bool-cases (ltb (suc (n % k)) k)) [
  | inl more ↦ rw (mod_suc n k pos (ltb→lt _ _ more))
  | inr last ↦
      let at_end : suc (n % k) ≡ k = ground (arith, mod-lt n pos) in
      rw
        (
          mod_wrap n k pos at_end,
          drop_all (suc (n % k)) xs (omega arith),
          take_all (suc (n % k)) xs (omega arith),
        )
        (append-nil xs)
]

ordered_full :
    (size n : ℕ) (buf : List TaskLog) → size ≤ n → ordered size n buf ≡ rotated (n % size) buf
unfolding ordered
ordered_full size n buf h = ground arith

ordered_part : (size n : ℕ) (buf : List TaskLog) → n < size → ordered size n buf ≡ take n buf
unfolding ordered
ordered_part size n buf h = ground arith

push_full :
    (size n : ℕ) (buf : List TaskLog) (x : TaskLog)
    → size ≤ n
    → push size n buf x ≡ set buf (n % size) x
unfolding push
push_full size n buf x h = ground arith

push_part :
    (size n : ℕ) (buf : List TaskLog) (x : TaskLog) → n < size → push size n buf x ≡ buf ++ x ∷ []
unfolding push
push_part size n buf x h = ground arith

-- While the buffer fills up it is the log itself.
append-ordered :
    (size : ℕ) (h : List TaskLog) (x : TaskLog)
    → length h < size
    → ordered size (length h + 1) (h ++ x ∷ []) ≡ h ++ x ∷ []
append-ordered size h x room = elim (Bool-cases (ltb (length h + 1) size)) [
  | inl more ↦
      rw (ordered_part size (length h + 1) (h ++ x ∷ []) (ltb→lt _ _ more))
        (take_all (length h + 1) (h ++ x ∷ []) (omega (arith, length-append h (x ∷ []))))
  | inr last ↦
      let full : length h + 1 ≡ size = ground arith in
      rw (full, ordered_full size size (h ++ x ∷ []) (omega arith), mod_self size)
        (append-nil (h ++ x ∷ []))
]

-- One write keeps the newest `size` of all entries.
pub push-ordered :
    (size : ℕ) (buf h : List TaskLog) (x : TaskLog)
    → 0 < size
    → length buf ≡ min (length h) size
    → ordered size (length h) buf ≡ drop (length h - size) h
    → ordered size (length h + 1) (push size (length h) buf x)
      ≡ drop (length h + 1 - size) (h ++ x ∷ [])
push-ordered size buf h x pos filled newest = elim (Bool-cases (ltb (length h) size)) [
  | inl part ↦
      let room = ltb→lt _ _ part in
      let none_lost : length h - size ≡ 0 = omega arith in
      let still_none : length h + 1 - size ≡ 0 = omega arith in
      let same : buf ≡ h =
        sym (take_all (length h) buf (omega arith))
        ∙ sym (ordered_part size (length h) buf room)
        ∙ newest
        ∙ ap (λ k. drop k h) none_lost in
      rw (push_part size (length h) buf x room, same, still_none) (append-ordered size h x room)
  | inr full ↦
      let over : size ≤ length h = ground arith in
      let whole : length buf ≡ size = omega arith in
      let inside : suc (length h % size) ≤ length buf = omega (arith, mod-lt (length h) pos) in
      let moved : length h + 1 - size ≡ length h - size + 1 = omega arith in
      rw
        (
          push_full size (length h) buf x over,
          ordered_full size (length h + 1) (set buf (length h % size) x) (omega arith),
          rotated_next (length h) size (set buf (length h % size) x) pos
              (length-set buf (length h % size) x ∙ whole),
          rotated-set (length h % size) buf x inside,
          ← ordered_full size (length h) buf over,
          newest,
          drop-drop 1 (length h - size) h,
          moved,
        )
        (sym (drop-append_le (length h - size + 1) h (x ∷ []) (omega arith)))
]

pub length-push :
    (size n : ℕ) (buf : List TaskLog) (x : TaskLog)
    → length buf ≡ min n size
    → length (push size n buf x) ≡ min (n + 1) size
unfolding push
length-push size n buf x h = ground (arith, length-set buf (n % size) x, length-append buf (x ∷ []))
