-- ===== src/Orchestration/Blocks.antt =====
-- internal/orchestration/run.go: what it takes for the process to end.
use pangolin_kube_controller.Prelude.{ℕ, ◌≡◌, refl, true, false, none, List, [], ◌∷◌, All, arith}
use pangolin_kube_controller.Config.{Config}
use pangolin_kube_controller.Orchestration.{
  Process, Happening, interrupt, server_returns, monitor_returns, lose_leadership, stop_polling,
  happen, happen_all, group_done, run_result, started, run_controller,
}

-- Neither a signal nor an error of the server or the monitor.
abbrev pub IsQuiet : Happening → Type 0
IsQuiet interrupt = ⊥
IsQuiet (server_returns e) = e ≡ none
IsQuiet (monitor_returns e) = e ≡ none
IsQuiet lose_leadership = Unit
IsQuiet stop_polling = Unit

module _ (fold : ℕ → ℕ) (cfg : Config) where
  happen_quiet :
      (e : Happening) (p : Process)
      → IsQuiet e
      → group_done p ≡ false
      → group_done (happen fold cfg e p) ≡ false
  unfolding happen
  happen_quiet interrupt p q g = elim q [ ]
  happen_quiet (server_returns e) p q g = ground arith
  happen_quiet (monitor_returns e) p q g = ground arith
  happen_quiet lose_leadership p q g = ground arith
  happen_quiet stop_polling p q g = ground arith

  happen_all_quiet :
      (es : List Happening) (p : Process)
      → All IsQuiet es
      → group_done p ≡ false
      → group_done (happen_all fold cfg es p) ≡ false
  unfolding happen_all
  happen_all_quiet [] p q g = g
  happen_all_quiet (e ∷ es) p (q, qs) g =
      happen_all_quiet es (happen fold cfg e p) qs (happen_quiet e p q g)

  -- Without a signal and without an error of the HTTP server or the monitor, the process never
  -- ends, also when the leadership is lost and the settings ask for an exit.
  pub loss_of_leadership-waits :
      (happenings : List Happening)
      → All IsQuiet happenings
      → run_controller fold cfg true true happenings ≡ none
  unfolding run_controller run_result
  loss_of_leadership-waits happenings q = rw (happen_all_quiet happenings started q refl) refl
