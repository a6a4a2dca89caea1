-- ===== src/Controller/Parallel/Outcome.antt =====
-- internal/controller/apply.go (applyConfigParallel): what `g.Wait` returns.
use mathlib.Core.Path.{subst}
use pangolin_kube_controller.Prelude.{
  ℕ, zero, suc, ◌≡◌, refl, sym, ◌∙◌, ◌⊎◌, inl, inr, Option-cases, Option, none, some, List, [], ◌∷◌,
  Bool, true, Among, All,
}
use pangolin_kube_controller.Result.{Error, Result, ok, err}
use pangolin_kube_controller.Controller.Parallel.{
  Status, waiting, running, returned, reported, Group, Move, acquire, finish, report, next_status,
  change_at, first_after, group_step, group_run, new_group, all_waiting, AllReported, wait,
}
use pangolin_kube_controller.Controller.Parallel.Steps.{group_run-cons, group_step_lem}

-- A goroutine that is over has returned no error.
abbrev QuietAt : Status → Result (Unit {0}) → Type 0
QuietAt reported r = r ≡ ok tt
QuietAt _ r = Unit

abbrev Quiet : List Status → List (Result (Unit {0})) → Type 0
Quiet [] [] = Unit
Quiet (s ∷ ss) (r ∷ rs) = QuietAt s r × Quiet ss rs
Quiet _ _ = ⊥

-- What the errgroup knows of the errors.
abbrev Kept : List Status → List (Result (Unit {0})) → Option Error → Type 0
Kept ss rs none = Quiet ss rs
Kept ss rs (some e) = Among (err e) rs

Kept-cons :
    (s : Status) (r : Result (Unit {0})) (ss : List Status) (rs : List (Result (Unit {0})))
    (first : Option Error)
    → QuietAt s r
    → Kept ss rs first
    → Kept (s ∷ ss) (r ∷ rs) first
Kept-cons s r ss rs none q k = (q, k)
Kept-cons s r ss rs (some e) q k = inr k

first_after-suc :
    (m : Move) (i : ℕ) (r : Result (Unit {0})) (rs : List (Result (Unit {0})))
    → first_after m (suc i) (r ∷ rs) none ≡ first_after m i rs none
first_after-suc acquire i r rs = refl
first_after-suc finish i r rs = refl
first_after-suc report i r rs = refl

next_status-Kept :
    (free : Bool) (m : Move) (s s' : Status) (r : Result (Unit {0})) (ss : List Status)
    (rs : List (Result (Unit {0})))
    → next_status free m s ≡ some s'
    → Quiet ss rs
    → Kept (s' ∷ ss) (r ∷ rs) (first_after m 0 (r ∷ rs) none)
unfolding next_status
next_status-Kept true acquire waiting running r ss rs e q = (tt, q)
next_status-Kept free finish running returned r ss rs e q = (tt, q)
next_status-Kept free report returned reported (ok tt) ss rs e q = (refl, q)
next_status-Kept free report returned reported (err x) ss rs e q = inl refl
next_status-Kept free m s s' r ss rs e q = cc

change_at-Kept :
    (i : ℕ) (free : Bool) (m : Move) (ss ss' : List Status) (rs : List (Result (Unit {0})))
    → change_at i (next_status free m) ss ≡ some ss'
    → Quiet ss rs
    → Kept ss' rs (first_after m i rs none)
unfolding change_at
change_at-Kept i free m [] ss' rs e q = cc
change_at-Kept i free m (s ∷ ss) ss' [] e q = elim q [ ]
change_at-Kept zero free m (s ∷ ss) ss' (r ∷ rs) e (q, qs) =
    elim (Option-cases (next_status free m s)) [
      | inl none_left ↦ cc
      | inr (s', moved) ↦
          let changed : ss' ≡ s' ∷ ss = cc in
          rw changed (next_status-Kept free m s s' r ss rs moved qs)
    ]
change_at-Kept (suc i) free m (s ∷ ss) ss' (r ∷ rs) e (q, qs) =
    elim (Option-cases (change_at i (next_status free m) ss)) [
      | inl none_left ↦ cc
      | inr (rest, moved) ↦
          let changed : ss' ≡ s ∷ rest = cc in
          rw (changed, first_after-suc m i r rs)
            (Kept-cons s r rest rs (first_after m i rs none) q
              (change_at-Kept i free m ss rest rs moved qs))
    ]

Quiet-new : (outcomes : List (Result (Unit {0}))) → Quiet (all_waiting outcomes) outcomes
Quiet-new [] = tt
Quiet-new (r ∷ rs) = (tt, Quiet-new rs)

Quiet-All :
    (ss : List Status) (rs : List (Result (Unit {0})))
    → Quiet ss rs
    → AllReported ss
    → All (λ r. r ≡ ok tt) rs
Quiet-All [] [] q over = tt
Quiet-All [] (r ∷ rs) q over = elim q [ ]
Quiet-All (s ∷ ss) [] q over = elim q [ ]
Quiet-All (reported ∷ ss) (r ∷ rs) (q, qs) (e, over) = (q, Quiet-All ss rs qs over)
Quiet-All (s ∷ ss) (r ∷ rs) (q, qs) (e, over) = cc

module _ (slots : ℕ) (outcomes : List (Result (Unit {0}))) where
  keeps_first :
      (m : Move) (i : ℕ) (ss ss' : List Status) (first : Option Error)
      → Kept ss outcomes first
      → (first ≡ none → Kept ss' outcomes (first_after m i outcomes none))
      → Kept ss' outcomes (first_after m i outcomes first)
  keeps_first m i ss ss' none k f = f refl
  keeps_first acquire i ss ss' (some e) k f = k
  keeps_first finish i ss ss' (some e) k f = k
  keeps_first report i ss ss' (some e) k f = k

  Kept-of_none :
      (ss : List Status) (first : Option Error)
      → first ≡ none
      → Kept ss outcomes first
      → Quiet ss outcomes
  Kept-of_none ss none e k = k
  Kept-of_none ss (some x) e k = cc

  group_step-Kept :
      (m : Move) (i : ℕ) (g g' : Group)
      → group_step slots outcomes m i g ≡ some g'
      → Kept g.statuses outcomes g.first
      → Kept g'.statuses outcomes g'.first
  group_step-Kept m i g g' e k =
      let (c, f) = group_step_lem slots outcomes m i g g' e in
      rw f (
        keeps_first m i g.statuses g'.statuses g.first k (λ n.
          change_at-Kept i _ m g.statuses g'.statuses outcomes c
            (Kept-of_none g.statuses g.first n k)))

  group_run-Kept :
      (moves : List (Move × ℕ)) (g g' : Group)
      → group_run slots outcomes moves g ≡ some g'
      → Kept g.statuses outcomes g.first
      → Kept g'.statuses outcomes g'.first
  unfolding group_run
  group_run-Kept [] g g' e k =
      let same : g ≡ g' = cc in subst (λ (x : Group). Kept x.statuses outcomes x.first) same k
  group_run-Kept ((m, i) ∷ moves) g g' e k = elim (Option-cases (group_step slots outcomes m i g)) [
    | inl stuck ↦ cc
    | inr (g1, stepped) ↦
        group_run-Kept moves g1 g' (sym (group_run-cons slots outcomes m i moves g g1 stepped) ∙ e)
          (group_step-Kept m i g g1 stepped k)
  ]

  -- What `g.Wait` returns tells what the phases have returned.
  abbrev pub Tells : Result (Unit {0}) → Type 0
  Tells w =
      ((w ≡ ok tt) × All (λ r. r ≡ ok tt) outcomes)
      ⊎ ((e : Error) × (w ≡ err e) × Among (err e) outcomes)

  wait_by_first :
      (ss : List Status) (first : Option Error)
      → Kept ss outcomes first
      → AllReported ss
      → Tells (wait (record { statuses = ss; first = first }))
  wait_by_first ss none k over = inl (refl, Quiet-All ss outcomes k over)
  wait_by_first ss (some x) k over = inr (x, refl, k)

  -- Once every goroutine is over, in whatever order they moved, either `g.Wait` returns no error and
  -- every phase has returned none, or it returns an error that one of the phases has returned.
  pub wait_lem :
      (moves : List (Move × ℕ)) (g : Group)
      → group_run slots outcomes moves (new_group outcomes) ≡ some g
      → AllReported g.statuses
      → Tells (wait g)
  wait_lem moves g e over =
      wait_by_first g.statuses g.first
        (group_run-Kept moves (new_group outcomes) g e (Quiet-new outcomes)) over

  pub wait-ok :
      (moves : List (Move × ℕ)) (g : Group)
      → group_run slots outcomes moves (new_group outcomes) ≡ some g
      → AllReported g.statuses
      → wait g ≡ ok tt
      → All (λ r. r ≡ ok tt) outcomes
  wait-ok moves g e over w = elim (wait_lem moves g e over) [
    | inl (_, fine) ↦ fine
    | inr (x, failed, _) ↦ cc
  ]
