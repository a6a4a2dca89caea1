-- ===== src/Orchestration/Standalone.antt =====
-- internal/orchestration/run.go (runHTTPOnlyWithStarter, RunWithStarter): the process that serves HTTP
-- only, and the choice between it and the controller.
use pangolin_kube_controller.Prelude.{
  ℕ, ◌≡◌, ◌≢◌, ◌↔◌, refl, Bool, true, false, Option, List, if◌then◌else◌, ◌⊎◌, inl, inr,
}
use pangolin_kube_controller.Config.{Config}
use pangolin_kube_controller.Orchestration.{RunError, Happening, run_controller}

-- What `startFn` returns: no error, ErrServerClosed, a cancelled context, or another error.
pub data ServerEnd : Type 0 where
  returned closed context_cancelled failed : ServerEnd

-- What the process returns: no error, ErrHTTPServerImmediateExit, or the error of the server.
pub data Ending : Type 0 where
  well immediate_exit : Ending
  with_error : ServerEnd → Ending

-- The end of `runHTTPOnlyWithStarter`, once the group has no error but a cancelled context.
abbrev pub after_exit : Bool → ServerEnd → Ending
after_exit false end = well
after_exit true returned = immediate_exit
after_exit true end = with_error end

-- runHTTPOnlyWithStarter, by what the server ends with, and whether it was the server that ended
-- first, before the context was done. ErrServerClosed is no error of the group. An error that a
-- shutdown returns is logged.
unfoldable pub run_http_only_with_starter : Bool → ServerEnd → Ending
run_http_only_with_starter exited_early failed = with_error failed
run_http_only_with_starter exited_early end = after_exit exited_early end

-- RunWithStarter: the mode that the settings choose.
unfoldable pub run_with_starter :
    (ℕ → ℕ)
    → Config
    → Bool
    → ServerEnd
    → Bool
    → Bool
    → List Happening
    → Ending ⊎ Option (Option RunError)
unfolding run_http_only_with_starter
run_with_starter fold cfg exited_early end has_clients has_label happenings =
    if cfg.standalone_http_only
    then inl (run_http_only_with_starter exited_early end)
    else inr (run_controller fold cfg has_clients has_label happenings)

-- The process that serves HTTP only returns no error exactly if its context was done first and the
-- server did not fail.
pub ends_well :
    (exited_early : Bool) (end : ServerEnd)
    → (run_http_only_with_starter exited_early end ≡ well)
      ↔ ((exited_early ≡ false) × (end ≢ failed))
unfolding run_http_only_with_starter
ends_well exited_early failed = (λ e. cc, λ (e, n). absurd (n refl))
ends_well false returned = (λ e. (refl, cc), λ h. refl)
ends_well false closed = (λ e. (refl, cc), λ h. refl)
ends_well false context_cancelled = (λ e. (refl, cc), λ h. refl)
ends_well true returned = (λ e. cc, λ (e, n). cc)
ends_well true closed = (λ e. cc, λ (e, n). cc)
ends_well true context_cancelled = (λ e. cc, λ (e, n). cc)
