-- ===== src/Controller/Loop/Waits.antt =====
-- internal/controller/loop.go: many rounds of the polling loop, with the waits between them.
use pangolin_kube_controller.Prelude.{
  ℕ, zero, suc, ◌+◌, ◌≡◌, ap, ◌∙◌, none, List, [], ◌∷◌, All, length, arith, ℤ,
}
use pangolin_kube_controller.Text.{Text}
use pangolin_kube_controller.Json.{Codec}
use pangolin_kube_controller.Kube.{Api, History}
use pangolin_kube_controller.Sanitize.Name.{NameLib}
use pangolin_kube_controller.Protocol.Servers.{NetLib}
use pangolin_kube_controller.Config.{Config}
use pangolin_kube_controller.Controller.Backoff.{compute_backoff_duration}
use pangolin_kube_controller.Controller.Loop.{
  World, LoopState, Outcome, failed, unchanged, applied, with_errors, fetch_config_once, answered,
  round,
}

module _ (lib : NameLib) (net : NetLib) (codec : Codec) (jitter : ℤ → ℤ) (cfg : Config) where
  -- sleepWithBackoff at the end of a round
  abbrev pub wait_after : Outcome → ℕ → ℤ
  wait_after failed errors = compute_backoff_duration jitter cfg errors
  wait_after unchanged errors = compute_backoff_duration jitter cfg 0
  wait_after applied errors = compute_backoff_duration jitter cfg 0

  -- The loop of `runLoop` for the rounds until the context is cancelled: the waits, and what is left.
  -- Each round has its own surroundings.
  unfoldable pub run_loop : List World → LoopState → Api → History → List ℤ × LoopState × History
  run_loop [] s k h = ([], s, h)
  run_loop (world ∷ worlds) s k h =
      let out = round lib net codec cfg world s k h in
      let rest = run_loop worlds out.0 k out.2 in
      (wait_after out.1 out.0.consecutive_errors ∷ rest.0, rest.1, rest.2)

  -- The waits after the errors with the numbers from `suc errors` on.
  abbrev pub backoffs : ℕ → ℕ → List ℤ
  backoffs errors zero = []
  backoffs errors (suc n) =
      compute_backoff_duration jitter cfg (suc errors) ∷ backoffs (suc errors) n

  -- A round in which the endpoint gives no answer.
  abbrev pub Unreachable : World → Type 0
  Unreachable world = (url etag : Text) → world.fetch url etag ≡ none

  fetch_config_once-none :
      (world : World) (etag : Text)
      → Unreachable world
      → fetch_config_once lib cfg world etag ≡ none
  unfolding fetch_config_once
  fetch_config_once-none world etag u = ground (arith, u cfg.endpoint etag)

  round_of_Unreachable :
      (world : World) (s : LoopState) (k : Api) (h : History)
      → Unreachable world
      → round lib net codec cfg world s k h ≡ (with_errors (suc s.consecutive_errors) s, failed, h)
  unfolding round
  round_of_Unreachable world s k h u =
      ap (answered lib net codec cfg world s k h) (fetch_config_once-none world _ u)

  -- As long as the endpoint gives no answer, the controller makes no call and keeps the ETag and the
  -- hash that it remembers, and the n-th wait is that of n errors more than there were before.
  pub run_loop_of_Unreachable :
      (worlds : List World) (s : LoopState) (k : Api) (h : History)
      → All Unreachable worlds
      → run_loop worlds s k h ≡ (
        backoffs s.consecutive_errors (length worlds),
        with_errors (s.consecutive_errors + length worlds) s,
        h,
      )
  unfolding run_loop
  run_loop_of_Unreachable [] s k h us = ap (λ (n : ℕ). ([], with_errors n s, h)) (omega arith)
  run_loop_of_Unreachable (world ∷ worlds) s k h (u, us) =
      let errors = s.consecutive_errors in
      let wait = compute_backoff_duration jitter cfg (suc errors) in
      rw (round_of_Unreachable world s k h u) (
        ap (λ (r : List ℤ × LoopState × History). (wait ∷ r.0, r.1, r.2))
          (run_loop_of_Unreachable worlds (with_errors (suc errors) s) k h us)
        ∙ ap (λ (n : ℕ). (wait ∷ backoffs (suc errors) (length worlds), with_errors n s, h))
            (omega arith))
