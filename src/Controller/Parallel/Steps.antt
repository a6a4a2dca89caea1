-- ===== src/Controller/Parallel/Steps.antt =====
-- internal/controller/apply.go (applyConfigParallel): what one move of a goroutine changes, and the bounds
-- that every run keeps.
use pangolin_kube_controller.Prelude.{
  ℕ, zero, suc, ◌+◌, ◌≤◌, ◌≡◌, refl, sym, ◌∙◌, inl, inr, Option-cases, some, List, [], ◌∷◌, Bool,
  true, false, ltb, length, arith,
}
use pangolin_kube_controller.Result.{Result}
use pangolin_kube_controller.Controller.Parallel.{
  Status, waiting, running, returned, reported, Group, Move, acquire, finish, report, slot_of,
  slots_taken, next_status, change_at, first_after, group_step, group_run,
}

-- The moves that a goroutine has before it.
abbrev pub moves_left_of : Status → ℕ
moves_left_of waiting = 3
moves_left_of running = 2
moves_left_of returned = 1
moves_left_of reported = 0

abbrev pub moves_left : List Status → ℕ
moves_left [] = 0
moves_left (s ∷ ss) = moves_left_of s + moves_left ss

-- A slot that is left.
abbrev pub room : Bool → ℕ
room true = 1
room false = 0

-- What one move of one goroutine does to its status.
pub next_status_lem :
    (free : Bool) (m : Move) (s s' : Status)
    → next_status free m s ≡ some s'
    → (moves_left_of s ≡ moves_left_of s' + 1) × (slot_of s' ≤ slot_of s + room free)
unfolding next_status
next_status_lem true acquire waiting s' e = ground arith
next_status_lem free finish running s' e = ground arith
next_status_lem free report returned s' e = ground arith
next_status_lem free m s s' e = cc

pub change_at_lem :
    (i : ℕ) (free : Bool) (m : Move) (ss ss' : List Status)
    → change_at i (next_status free m) ss ≡ some ss'
    → (moves_left ss ≡ moves_left ss' + 1) × (slots_taken ss' ≤ slots_taken ss + room free)
unfolding change_at
change_at_lem i free m [] ss' e = cc
change_at_lem zero free m (s ∷ ss) ss' e = elim (Option-cases (next_status free m s)) [
  | inl none_left ↦ cc
  | inr (s', moved) ↦ ground (arith, next_status_lem free m s s' moved)
]
change_at_lem (suc i) free m (s ∷ ss) ss' e =
    elim (Option-cases (change_at i (next_status free m) ss)) [
      | inl none_left ↦ cc
      | inr (rest, moved) ↦ ground (arith, change_at_lem i free m ss rest moved)
    ]

-- The slots are never overdrawn.
module _ (slots : ℕ) (outcomes : List (Result (Unit {0}))) where
  pub group_step_lem :
      (m : Move) (i : ℕ) (g g' : Group)
      → group_step slots outcomes m i g ≡ some g'
      → (change_at i (next_status (ltb (slots_taken g.statuses) slots) m) g.statuses
          ≡ some g'.statuses)
        × (g'.first ≡ first_after m i outcomes g.first)
  unfolding group_step
  group_step_lem m i g g' e = ground arith

  pub group_step_bounds :
      (m : Move) (i : ℕ) (g g' : Group)
      → group_step slots outcomes m i g ≡ some g'
      → slots_taken g.statuses ≤ slots
      → (moves_left g.statuses ≡ moves_left g'.statuses + 1) × (slots_taken g'.statuses ≤ slots)
  group_step_bounds m i g g' e h =
      let (c, _) = group_step_lem m i g g' e in
      let (l, t) = change_at_lem i _ m g.statuses g'.statuses c in (l, ground arith)

  pub group_run-cons :
      (m : Move) (i : ℕ) (moves : List (Move × ℕ)) (g g' : Group)
      → group_step slots outcomes m i g ≡ some g'
      → group_run slots outcomes ((m, i) ∷ moves) g ≡ group_run slots outcomes moves g'
  unfolding group_run
  group_run-cons m i moves g g' e = rw (e, group_run) refl

  pub group_run_bounds :
      (moves : List (Move × ℕ)) (g g' : Group)
      → group_run slots outcomes moves g ≡ some g'
      → slots_taken g.statuses ≤ slots
      → (length moves + moves_left g'.statuses ≡ moves_left g.statuses)
        × (slots_taken g'.statuses ≤ slots)
  unfolding group_run
  group_run_bounds [] g g' e h = ground arith
  group_run_bounds ((m, i) ∷ moves) g g' e h =
      elim (Option-cases (group_step slots outcomes m i g)) [
        | inl stuck ↦ cc
        | inr (g1, stepped) ↦
            let (l, t) = group_step_bounds m i g g1 stepped h in
            let (l', t') =
              group_run_bounds moves g1 g' (sym (group_run-cons m i moves g g1 stepped) ∙ e) t in
            (omega arith, t')
      ]
