-- ===== src/Controller/Loop/Endings.antt =====
-- internal/controller/loop.go: how a round goes on from a decision.
use pangolin_kube_controller.Prelude.{inl, inr, ◌≡◌, refl, ℕ, suc, Option, none, some, Bool-cases}
use pangolin_kube_controller.Result.{Result, ok, err}
use pangolin_kube_controller.Json.{Codec}
use pangolin_kube_controller.Kube.{Api, History}
use pangolin_kube_controller.Sanitize.Name.{NameLib}
use pangolin_kube_controller.Sanitize.Config.{TraefikConfig}
use pangolin_kube_controller.Protocol.Servers.{NetLib}
use pangolin_kube_controller.Config.{Config}
use pangolin_kube_controller.Controller.Reconcile.{apply_config}
use pangolin_kube_controller.Controller.Loop.{
  Response, World, LoopState, Decision, Outcome, failed, unchanged, applied, with_errors, decide,
  answered, after_apply, process_and_apply, should_proceed_after_status,
  update_signatures_after_success, Round,
}

module _ (lib : NameLib) (net : NetLib) (codec : Codec) (cfg : Config) (world : World) where
  -- The configuration of a body was applied, with no error, and is what is remembered.
  abbrev pub Applied : Decision → LoopState → Api → History → Round → Type 0
  Applied d s k h out =
      (config : TraefikConfig) × (world.parse_config d.body ≡ some config)
      × (apply_config lib net codec cfg (some config) k h ≡ (ok tt, out.2))
      × (out.0 ≡ update_signatures_after_success lib d.etag d.body (with_errors 0 s))

  -- The three ways in which a round goes on from a decision.
  abbrev pub Ends : Decision → LoopState → Api → History → Round → Outcome → Type 0
  Ends d s k h out applied = Applied d s k h out
  Ends d s k h out unchanged = (out.0 ≡ with_errors 0 s) × (out.2 ≡ h)
  Ends d s k h out failed = (n : ℕ) × (out.0 ≡ with_errors n s)

  Ends-after :
      (d : Decision) (s : LoopState) (k : Api) (h : History) (config : TraefikConfig)
      (r : Result (Unit {0})) (h' : History)
      → world.parse_config d.body ≡ some config
      → apply_config lib net codec cfg (some config) k h ≡ (r, h')
      → let out = after_apply lib net codec cfg world d (with_errors 0 s) (r, h') in
        Ends d s k h out out.1
  Ends-after d s k h config (ok u) h' p q = (config, p, q, refl)
  Ends-after d s k h config (err e) h' p q = (1, refl)

  Ends-process :
      (d : Decision) (s : LoopState) (k : Api) (h : History) (o : Option TraefikConfig)
      → world.parse_config d.body ≡ o
      → let out = process_and_apply lib net codec cfg world d (with_errors 0 s) o k h in
        Ends d s k h out out.1
  Ends-process d s k h none p = (1, refl)
  Ends-process d s k h (some config) p =
      Ends-after d s k h config (apply_config lib net codec cfg (some config) k h).0
        (apply_config lib net codec cfg (some config) k h).1 p refl

  Ends-decide :
      (d : Decision) (s : LoopState) (k : Api) (h : History)
      → let out = decide lib net codec cfg world d s k h in Ends d s k h out out.1
  unfolding decide
  Ends-decide d s k h = elim (Bool-cases d.accepted) [
    | inr f ↦ rw f (suc s.consecutive_errors, refl)
    | inl t ↦ elim (Bool-cases d.proceed) [
      | inr f ↦ rw (t, f) (refl, refl)
      | inl p ↦ rw (t, p) (Ends-process d s k h (world.parse_config d.body) refl)
    ]
  ]

  pub Ends-answered :
      (s : LoopState) (k : Api) (h : History) (r : Response)
      → let out = answered lib net codec cfg world s k h (some r) in
        Ends (should_proceed_after_status lib r s) s k h out out.1
  Ends-answered s k h r = Ends-decide (should_proceed_after_status lib r s) s k h
