-- ===== src/Flow/Chain.antt =====
-- The goroutines of tasks/run_task_matrix/task.go when the children do not run concurrently: each
-- waits for the one before it, by a channel that the other closes on its way out.
use assertoor.Prelude.{
  ℕ, zero, suc, ◌≡◌, ◌≢◌, some, List, [], ◌∷◌, get_elem?, set, nat_key, string_key,
}

-- A child waits, runs, is done (it has run, or was passed over once its context was cancelled), or
-- has given up waiting.
pub data Child : Type 0 where
  waiting running done gave_up : Child

-- The channel that child `i` waits on is closed; the first child has none.
abbrev pub IsFree : List Child → ℕ → Type 0
IsFree cs zero = Unit
IsFree cs (suc i) = get_elem? cs i ≡ some done

pub data Step : List Child → List Child → Type 0 where
  start :
      (cs : List Child) (i : ℕ)
      → get_elem? cs i ≡ some waiting
      → IsFree cs i
      → Step cs (set cs i running)
  skip :
      (cs : List Child) (i : ℕ)
      → get_elem? cs i ≡ some waiting
      → IsFree cs i
      → Step cs (set cs i done)
  finish : (cs : List Child) (i : ℕ) → get_elem? cs i ≡ some running → Step cs (set cs i done)
  give_up :
      (cs : List Child) (i : ℕ)
      → get_elem? cs (suc i) ≡ some waiting
      → Step cs (set cs (suc i) gave_up)

pub data Reach (from : List Child) : List Child → Type 0 where
  here : Reach from from
  next : {cs ds : List Child} → Reach from cs → Step cs ds → Reach from ds

abbrev pub all_waiting : ℕ → List Child
all_waiting zero = []
all_waiting (suc n) = waiting ∷ all_waiting n

-- No child has started.
abbrev pub Unstarted : List Child → Type 0
Unstarted [] = Unit
Unstarted (waiting ∷ cs) = Unstarted cs
Unstarted (gave_up ∷ cs) = Unstarted cs
Unstarted (running ∷ cs) = ⊥
Unstarted (done ∷ cs) = ⊥

-- First the children that are done, then at most one that runs, then none that has started.
abbrev pub IsSerial : List Child → Type 0
IsSerial [] = Unit
IsSerial (done ∷ cs) = IsSerial cs
IsSerial (running ∷ cs) = Unstarted cs
IsSerial (waiting ∷ cs) = Unstarted cs
IsSerial (gave_up ∷ cs) = Unstarted cs

Unstarted-IsSerial : (cs : List Child) → Unstarted cs → IsSerial cs
Unstarted-IsSerial [] u = tt
Unstarted-IsSerial (waiting ∷ cs) u = u
Unstarted-IsSerial (gave_up ∷ cs) u = u
Unstarted-IsSerial (running ∷ cs) u = elim u [ ]
Unstarted-IsSerial (done ∷ cs) u = elim u [ ]

not_done : (cs : List Child) (i : ℕ) → Unstarted cs → get_elem? cs i ≢ some done
not_done [] i u = λ e. cc
not_done (waiting ∷ cs) zero u = λ e. cc
not_done (gave_up ∷ cs) zero u = λ e. cc
not_done (waiting ∷ cs) (suc i) u = not_done cs i u
not_done (gave_up ∷ cs) (suc i) u = not_done cs i u
not_done (running ∷ cs) i u = elim u [ ]
not_done (done ∷ cs) i u = elim u [ ]

not_running : (cs : List Child) (i : ℕ) → Unstarted cs → get_elem? cs i ≢ some running
not_running [] i u = λ e. cc
not_running (waiting ∷ cs) zero u = λ e. cc
not_running (gave_up ∷ cs) zero u = λ e. cc
not_running (waiting ∷ cs) (suc i) u = not_running cs i u
not_running (gave_up ∷ cs) (suc i) u = not_running cs i u
not_running (running ∷ cs) i u = elim u [ ]
not_running (done ∷ cs) i u = elim u [ ]

set-Unstarted : (cs : List Child) (i : ℕ) → Unstarted cs → Unstarted (set cs i gave_up)
set-Unstarted [] i u = tt
set-Unstarted (waiting ∷ cs) zero u = u
set-Unstarted (gave_up ∷ cs) zero u = u
set-Unstarted (waiting ∷ cs) (suc i) u = set-Unstarted cs i u
set-Unstarted (gave_up ∷ cs) (suc i) u = set-Unstarted cs i u
set-Unstarted (running ∷ cs) i u = elim u [ ]
set-Unstarted (done ∷ cs) i u = elim u [ ]

-- A child that is free to start stands right behind the ones that are done.
abbrev Entered : Child → Type 0
Entered waiting = ⊥
Entered gave_up = ⊥
Entered running = Unit
Entered done = Unit

enter-IsSerial :
    (cs : List Child) (i : ℕ) (c : Child)
    → Entered c
    → IsSerial cs
    → get_elem? cs i ≡ some waiting
    → IsFree cs i
    → IsSerial (set cs i c)
enter-IsSerial [] i c n s e f = cc
enter-IsSerial (waiting ∷ cs) zero running n s e f = s
enter-IsSerial (waiting ∷ cs) zero done n s e f = Unstarted-IsSerial cs s
enter-IsSerial (running ∷ cs) zero c n s e f = cc
enter-IsSerial (done ∷ cs) zero c n s e f = cc
enter-IsSerial (gave_up ∷ cs) zero c n s e f = cc
enter-IsSerial (done ∷ cs) (suc zero) c n s e f = enter-IsSerial cs zero c n s e tt
enter-IsSerial (done ∷ cs) (suc (suc i)) c n s e f = enter-IsSerial cs (suc i) c n s e f
enter-IsSerial (waiting ∷ cs) (suc zero) c n s e f = cc
enter-IsSerial (running ∷ cs) (suc zero) c n s e f = cc
enter-IsSerial (gave_up ∷ cs) (suc zero) c n s e f = cc
enter-IsSerial (waiting ∷ cs) (suc (suc i)) c n s e f = absurd (not_done cs i s f)
enter-IsSerial (running ∷ cs) (suc (suc i)) c n s e f = absurd (not_done cs i s f)
enter-IsSerial (gave_up ∷ cs) (suc (suc i)) c n s e f = absurd (not_done cs i s f)
enter-IsSerial (waiting ∷ cs) zero waiting n s e f = elim n [ ]
enter-IsSerial (waiting ∷ cs) zero gave_up n s e f = elim n [ ]

finish-IsSerial :
    (cs : List Child) (i : ℕ)
    → IsSerial cs
    → get_elem? cs i ≡ some running
    → IsSerial (set cs i done)
finish-IsSerial [] i s e = cc
finish-IsSerial (running ∷ cs) zero s e = Unstarted-IsSerial cs s
finish-IsSerial (waiting ∷ cs) zero s e = cc
finish-IsSerial (done ∷ cs) zero s e = cc
finish-IsSerial (gave_up ∷ cs) zero s e = cc
finish-IsSerial (done ∷ cs) (suc i) s e = finish-IsSerial cs i s e
finish-IsSerial (running ∷ cs) (suc i) s e = absurd (not_running cs i s e)
finish-IsSerial (waiting ∷ cs) (suc i) s e = absurd (not_running cs i s e)
finish-IsSerial (gave_up ∷ cs) (suc i) s e = absurd (not_running cs i s e)

give_up-IsSerial :
    (cs : List Child) (i : ℕ)
    → IsSerial cs
    → get_elem? cs i ≡ some waiting
    → IsSerial (set cs i gave_up)
give_up-IsSerial [] i s e = tt
give_up-IsSerial (waiting ∷ cs) zero s e = s
give_up-IsSerial (gave_up ∷ cs) zero s e = s
give_up-IsSerial (running ∷ cs) zero s e = cc
give_up-IsSerial (done ∷ cs) zero s e = cc
give_up-IsSerial (done ∷ cs) (suc i) s e = give_up-IsSerial cs i s e
give_up-IsSerial (waiting ∷ cs) (suc i) s e = set-Unstarted cs i s
give_up-IsSerial (running ∷ cs) (suc i) s e = set-Unstarted cs i s
give_up-IsSerial (gave_up ∷ cs) (suc i) s e = set-Unstarted cs i s

Step-IsSerial : {cs ds : List Child} → Step cs ds → IsSerial cs → IsSerial ds
Step-IsSerial (start cs i e f) s = enter-IsSerial cs i running tt s e f
Step-IsSerial (skip cs i e f) s = enter-IsSerial cs i done tt s e f
Step-IsSerial (finish cs i e) s = finish-IsSerial cs i s e
Step-IsSerial (give_up cs i e) s = give_up-IsSerial cs (suc i) s e

all_waiting-IsSerial : (n : ℕ) → Unstarted (all_waiting n)
all_waiting-IsSerial zero = tt
all_waiting-IsSerial (suc n) = all_waiting-IsSerial n

-- However the goroutines of a matrix of n children that is not concurrent are scheduled, and
-- whenever its context is cancelled: at most one child runs, all before it are done, and none
-- behind it has started.
pub Reach-IsSerial : (n : ℕ) {cs : List Child} → Reach (all_waiting n) cs → IsSerial cs
Reach-IsSerial n here = Unstarted-IsSerial (all_waiting n) (all_waiting-IsSerial n)
Reach-IsSerial n (next r st) = Step-IsSerial st (Reach-IsSerial n r)
