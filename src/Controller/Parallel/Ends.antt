-- ===== src/Controller/Parallel/Ends.antt =====
-- internal/controller/apply.go (applyConfigParallel): the goroutines never hold more slots than there are
-- and always come to an end.
use pangolin_kube_controller.Prelude.{
  ℕ, zero, suc, ◌*◌, ◌≤◌, ◌≡◌, refl, sym, ◌∙◌, ◌⊎◌, inl, inr, Option-cases, some, List, [], ◌∷◌,
  ◌++◌, Bool, true, false, ltb, length, length-append, arith, ℤ, pos, negsuc,
}
use pangolin_kube_controller.Result.{Result}
use pangolin_kube_controller.Controller.Parallel.{
  Status, waiting, running, returned, reported, Group, Move, acquire, finish, report, slots_taken,
  next_status, change_at, first_after, group_step, group_run, new_group, all_waiting, AllReported,
  concurrency,
}
use pangolin_kube_controller.Controller.Parallel.Steps.{
  moves_left, group_step_bounds, group_run-cons, group_run_bounds,
}

-- A move that some goroutine can make.
abbrev Able : Bool → List Status → Type 0
Able free ss =
    (m : Move) × (i : ℕ) × (ss' : List Status) × (change_at i (next_status free m) ss ≡ some ss')

finish_running : (free : Bool) → next_status free finish running ≡ some returned
unfolding next_status
finish_running true = refl
finish_running false = refl

report_returned : (free : Bool) → next_status free report returned ≡ some reported
unfolding next_status
report_returned true = refl
report_returned false = refl

first-Able :
    (free : Bool) (m : Move) (s s' : Status) (ss : List Status)
    → next_status free m s ≡ some s'
    → Able free (s ∷ ss)
unfolding change_at
first-Able free m s s' ss e = (m, 0, s' ∷ ss, rw (e, change_at) refl)

later-Able : (free : Bool) (s : Status) (ss : List Status) → Able free ss → Able free (s ∷ ss)
unfolding change_at
later-Able free s ss (m, i, ss', e) = (m, suc i, s ∷ ss', rw (e, change_at) refl)

-- Some goroutine can go on without a slot; or no slot is taken, and all are over or some
-- goroutine can go on if there is a slot.
who_moves :
    (ss : List Status)
    → ((free : Bool) → Able free ss) ⊎ ((slots_taken ss ≡ 0) × (AllReported ss ⊎ Able true ss))
unfolding next_status
who_moves [] = inr (refl, inl tt)
who_moves (running ∷ ss) =
    inl (λ free. first-Able free finish running returned ss (finish_running free))
who_moves (returned ∷ ss) =
    inl (λ free. first-Able free report returned reported ss (report_returned free))
who_moves (waiting ∷ ss) = elim (who_moves ss) [
  | inl f ↦ inl (λ free. later-Able free waiting ss (f free))
  | inr (z, _) ↦ inr (omega arith, inr (first-Able true acquire waiting running ss refl))
]
who_moves (reported ∷ ss) = elim (who_moves ss) [
  | inl f ↦ inl (λ free. later-Able free reported ss (f free))
  | inr (z, inl over) ↦ inr (omega arith, inl (refl, over))
  | inr (z, inr able) ↦ inr (omega arith, inr (later-Able true reported ss able))
]

AllReported-of_zero : (ss : List Status) → moves_left ss ≡ 0 → AllReported ss
AllReported-of_zero [] e = tt
AllReported-of_zero (waiting ∷ ss) e = absurd (omega arith)
AllReported-of_zero (running ∷ ss) e = absurd (omega arith)
AllReported-of_zero (returned ∷ ss) e = absurd (omega arith)
AllReported-of_zero (reported ∷ ss) e = (refl, AllReported-of_zero ss (omega arith))

moves_left_of_AllReported : (ss : List Status) → AllReported ss → moves_left ss ≡ 0
moves_left_of_AllReported [] over = refl
moves_left_of_AllReported (waiting ∷ ss) (e, over) = cc
moves_left_of_AllReported (running ∷ ss) (e, over) = cc
moves_left_of_AllReported (returned ∷ ss) (e, over) = cc
moves_left_of_AllReported (reported ∷ ss) (e, over) =
    omega (arith, moves_left_of_AllReported ss over)

moves_left_new :
    (outcomes : List (Result (Unit {0})))
    → (moves_left (all_waiting outcomes) ≡ 3 * length outcomes)
      × (slots_taken (all_waiting outcomes) ≡ 0)
moves_left_new [] = (refl, refl)
moves_left_new (r ∷ rs) = let (l, t) = moves_left_new rs in (omega arith, omega arith)

module _ (slots : ℕ) (outcomes : List (Result (Unit {0}))) where
  Able-step :
      (g : Group)
      → Able (ltb (slots_taken g.statuses) slots) g.statuses
      → (m : Move) × (i : ℕ) × (g' : Group) × (group_step slots outcomes m i g ≡ some g')
  unfolding group_step
  Able-step g (m, i, ss', e) = (
    m,
    i,
    record { statuses = ss'; first = first_after m i outcomes g.first },
    rw (e, group_step) refl,
  )

  -- While a goroutine is left, some goroutine can move.
  no_deadlock :
      (g : Group)
      → 1 ≤ slots
      → AllReported g.statuses
        ⊎ ((m : Move) × (i : ℕ) × (g' : Group) × (group_step slots outcomes m i g ≡ some g'))
  no_deadlock g h = elim (who_moves g.statuses) [
    | inl f ↦ inr (Able-step g (f _))
    | inr (z, inl over) ↦ inl over
    | inr (z, inr able) ↦
        let free : ltb (slots_taken g.statuses) slots ≡ true = ground arith in
        inr (Able-step g (rw free able))
  ]

  abbrev Finishes : Group → Type 0
  Finishes g =
      (rest : List (Move × ℕ)) × (g' : Group) × (group_run slots outcomes rest g ≡ some g')
      × AllReported g'.statuses
      × (length rest ≡ moves_left g.statuses)

  finishes :
      (n : ℕ) (g : Group)
      → moves_left g.statuses ≡ n
      → slots_taken g.statuses ≤ slots
      → 1 ≤ slots
      → Finishes g
  unfolding group_run
  finishes zero g e t h = ([], g, refl, AllReported-of_zero g.statuses e, sym e)
  finishes (suc n) g e t h = elim (no_deadlock g h) [
    | inl over ↦ absurd (omega (arith, moves_left_of_AllReported g.statuses over))
    | inr (m, i, g', stepped) ↦
        let (l, t') = group_step_bounds slots outcomes m i g g' stepped t in
        let (rest, g'', run, over, count) = finishes n g' (omega arith) t' h in
        (
          (m, i) ∷ rest,
          g'',
          group_run-cons slots outcomes m i rest g g' stepped ∙ run,
          over,
          omega arith,
        )
  ]

  group_run-append :
      (moves rest : List (Move × ℕ)) (g g1 : Group)
      → group_run slots outcomes moves g ≡ some g1
      → group_run slots outcomes (moves ++ rest) g ≡ group_run slots outcomes rest g1
  unfolding group_run
  group_run-append [] rest g g1 e = ground arith
  group_run-append ((m, i) ∷ moves) rest g g1 e =
      elim (Option-cases (group_step slots outcomes m i g)) [
        | inl stuck ↦ cc
        | inr (g', stepped) ↦
            group_run-cons slots outcomes m i (moves ++ rest) g g' stepped
            ∙ group_run-append moves rest g' g1
                (sym (group_run-cons slots outcomes m i moves g g' stepped) ∙ e)
      ]

concurrency_pos : (reconcile_max : ℤ) → 1 ≤ concurrency reconcile_max
unfolding concurrency
concurrency_pos (pos n) = ground arith
concurrency_pos (negsuc n) = ground arith

-- However the goroutines have been scheduled so far, they hold at most as many slots as the channel
-- has, they have made at most three moves each, and they can go on until every one of them has
-- returned to the errgroup: no order of the moves leads to a deadlock.
pub parallel_ends :
    (reconcile_max : ℤ) (outcomes : List (Result (Unit {0}))) (moves : List (Move × ℕ)) (g : Group)
    → group_run (concurrency reconcile_max) outcomes moves (new_group outcomes) ≡ some g
    → (slots_taken g.statuses ≤ concurrency reconcile_max)
      × (length moves ≤ 3 * length outcomes)
      × ((rest : List (Move × ℕ)) × (g' : Group) × (group_run
              (concurrency reconcile_max)
              outcomes
              (moves ++ rest)
              (new_group outcomes)
            ≡ some g')
          × AllReported g'.statuses
          × (length (moves ++ rest) ≡ 3 * length outcomes))
parallel_ends reconcile_max outcomes moves g e =
    let slots = concurrency reconcile_max in
    let (l, t) = moves_left_new outcomes in
    let (made, taken) =
      group_run_bounds slots outcomes moves (new_group outcomes) g e (omega arith) in
    let (rest, g', run, over, count) =
      finishes slots outcomes (moves_left g.statuses) g refl taken
        (concurrency_pos reconcile_max) in
    (
      taken,
      omega arith,
      (
        rest,
        g',
        group_run-append slots outcomes moves rest (new_group outcomes) g e ∙ run,
        over,
        omega (arith, length-append {0} moves rest),
      ),
    )
