-- ===== src/Controller/Parallel.antt =====
-- internal/controller/apply.go (applyConfigParallel): the phases of a round on goroutines of an
-- errgroup, with a channel of `ReconcileMax` slots as a semaphore.
pub mod Steps
pub mod Ends
pub mod Outcome
pub mod Phases
use pangolin_kube_controller.Prelude.{
  ℕ, zero, suc, ◌+◌, ◌≡◌, Option, none, some, List, [], ◌∷◌, Bool, true, false, ltb, if◌then◌else◌,
  ℤ, pos, ◌<ℤ◌, to_ℕ,
}
use pangolin_kube_controller.Result.{Error, Result, ok, err}

-- Where a goroutine is: before `sem <- struct{}{}`, in its phase, behind the release of its slot,
-- and over, when the errgroup has its error.
pub data Status : Type 0 where
  waiting running returned reported : Status

-- The errgroup: its goroutines, and the first error that one of them has returned, if any.
pub record Group : Type 0 where
  pub statuses : List Status
  pub first : Option Error

-- A goroutine takes a slot, ends its phase and gives its slot back, or returns to the errgroup.
pub data Move : Type 0 where
  acquire finish report : Move

-- `concurrency`
unfoldable pub concurrency : ℤ → ℕ
concurrency reconcile_max = if reconcile_max <ℤ pos 1 then 1 else to_ℕ reconcile_max

abbrev pub slot_of : Status → ℕ
slot_of running = 1
slot_of _ = 0

-- The slots of the channel that are taken.
abbrev pub slots_taken : List Status → ℕ
slots_taken [] = 0
slots_taken (s ∷ ss) = slot_of s + slots_taken ss

-- The status after a move; none where the goroutine cannot make it. `free` says that the channel
-- has a slot left.
unfoldable pub next_status : Bool → Move → Status → Option Status
next_status true acquire waiting = some running
next_status free finish running = some returned
next_status free report returned = some reported
next_status free m s = none

-- A change of one goroutine.
unfoldable pub change_at : ℕ → (Status → Option Status) → List Status → Option (List Status)
change_at i f [] = none
change_at zero f (s ∷ ss) = elim (f s) [ none ↦ none | some s' ↦ some (s' ∷ ss) ]
change_at (suc i) f (s ∷ ss) = elim (change_at i f ss) [ none ↦ none | some ss' ↦ some (s ∷ ss') ]

abbrev pub error_of : Result (Unit {0}) → Option Error
error_of (ok u) = none
error_of (err e) = some e

-- The error that the goroutine of that number returns.
abbrev pub error_at : ℕ → List (Result (Unit {0})) → Option Error
error_at i [] = none
error_at zero (r ∷ rs) = error_of r
error_at (suc i) (r ∷ rs) = error_at i rs

-- The errgroup keeps the first error.
abbrev pub keep_first : Option Error → Option Error → Option Error
keep_first (some e) new = some e
keep_first none new = new

abbrev pub first_after : Move → ℕ → List (Result (Unit {0})) → Option Error → Option Error
first_after report i outcomes first = keep_first first (error_at i outcomes)
first_after _ i outcomes first = first

module _ (slots : ℕ) (outcomes : List (Result (Unit {0}))) where
  -- One move of the goroutine of that number; the phase of each ends with its outcome.
  unfoldable pub group_step : Move → ℕ → Group → Option Group
  unfolding next_status change_at
  group_step m i g =
      elim (change_at i (next_status (ltb (slots_taken g.statuses) slots) m) g.statuses) [
        | none ↦ none
        | some ss ↦ some (record { statuses = ss; first = first_after m i outcomes g.first })
      ]

  -- A run, in any order of the moves.
  unfoldable pub group_run : List (Move × ℕ) → Group → Option Group
  group_run [] g = some g
  group_run ((m, i) ∷ moves) g = elim (group_step m i g) [
    | none ↦ none
    | some g' ↦ group_run moves g'
  ]

abbrev all_waiting : List (Result (Unit {0})) → List Status
all_waiting [] = []
all_waiting (r ∷ rs) = waiting ∷ all_waiting rs

-- The group when the last `g.Go` has returned.
abbrev pub new_group : List (Result (Unit {0})) → Group
new_group outcomes = record { statuses = all_waiting outcomes; first = none }

abbrev pub AllReported : List Status → Type 0
AllReported [] = Unit
AllReported (s ∷ ss) = (s ≡ reported) × AllReported ss

-- What `g.Wait` returns once every goroutine is over.
abbrev pub wait : Group → Result (Unit {0})
wait g = elim g.first [ none ↦ ok tt | some e ↦ err e ]
