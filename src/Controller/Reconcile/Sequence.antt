-- ===== src/Controller/Reconcile/Sequence.antt =====
-- internal/controller/apply.go (applyConfigSequential): what a phase ensures, the round ensures.
use mathlib.Core.Path.{subst}
use pangolin_kube_controller.Prelude.{◌≡◌, refl, sym, ap, ◌∙◌, some, []}
use pangolin_kube_controller.Result.{Result, ok}
use pangolin_kube_controller.Json.{Codec}
use pangolin_kube_controller.Sanitize.Name.{NameLib}
use pangolin_kube_controller.Sanitize.Config.{TraefikConfig, sanitize_traefik_config}
use pangolin_kube_controller.Kube.{History, Api}
use pangolin_kube_controller.Kube.Prog.{Prog, lift, ◌>>◌}
use pangolin_kube_controller.Kube.Prog.Emits.{Emits, Emits-then}
use pangolin_kube_controller.Kube.Prog.Runs.{bind-ok, then-ok}
use pangolin_kube_controller.Protocol.Servers.{NetLib}
use pangolin_kube_controller.Config.{Config}
use pangolin_kube_controller.Controller.Reconcile.{
  reconcile_tcp, reconcile_udp, apply_config_sequential, apply_sanitized, apply_config,
}
use pangolin_kube_controller.Controller.Reconcile.Failure.{tcp_udp_phases_idle}
use pangolin_kube_controller.Controller.Reconcile.Writes.{Adds-Later}
use pangolin_kube_controller.Kube.History.{Later}
use pangolin_kube_controller.Controller.Reconcile.Writes.Round.{
  Phase, middleware, router, transport, service, program, Emits-program,
}

-- What holds of the calls of a stretch also holds when there are more calls before it or behind it.
pub record IsKept (Q : History → History → Type 0) : Type 0 where
  pub sooner : (h₀ h h' : History) → Later h₀ h → Q h h' → Q h₀ h'
  pub later : (h h' h'' : History) → Q h h' → Later h' h'' → Q h h''

module _ (lib : NameLib) (net : NetLib) (codec : Codec) (cfg : Config) (sanitized : TraefikConfig)
    (k : Api) (Q : History → History → Type 0) (kept : IsKept Q) where
  -- A run of the program without an error makes calls of which `Q` holds.
  abbrev pub Ensures : Prog Unit → Type 0
  Ensures m = (h : History) → (m k h).0 ≡ ok tt → Q h (m k h).1

  Ensures-first : (m n : Prog Unit) → Ensures m → Emits (λ _. Unit {0}) n → Ensures (m >> n)
  Ensures-first m n holds others h e =
      let (u, done, eq) = then-ok m n k h e in
      subst (λ (out : Result (Unit {0}) × History). Q h out.1) (sym eq)
        (kept.later h (m k h).1 _ (holds h done) (Adds-Later (others.at k (m k h).1)))

  Ensures-second : (m n : Prog Unit) → Emits (λ _. Unit {0}) m → Ensures n → Ensures (m >> n)
  Ensures-second m n others holds h e =
      let (u, done, eq) = then-ok m n k h e in
      subst (λ (out : Result (Unit {0}) × History). Q h out.1) (sym eq)
        (kept.sooner h (m k h).1 _ (Adds-Later (others.at k h))
          (holds (m k h).1 (sym (ap (λ z. z.0) eq) ∙ e)))

  module _ (config : TraefikConfig)
      (made : sanitize_traefik_config lib codec (some config) ≡ ok (some sanitized)) where
    Emits-tcp : Emits (λ _. Unit {0}) (reconcile_tcp lib net codec cfg sanitized)
    Emits-tcp = record {
      at = λ k' h.
          let (idle, _) = tcp_udp_phases_idle lib net codec cfg config sanitized k' h made in
          rw idle ([], refl, tt);
    }

    Emits-udp : Emits (λ _. Unit {0}) (reconcile_udp lib net codec cfg sanitized)
    Emits-udp = record {
      at = λ k' h.
          let (_, idle) = tcp_udp_phases_idle lib net codec cfg config sanitized k' h made in
          rw idle ([], refl, tt);
    }

    abbrev phase_at : Phase → Prog Unit
    phase_at p = program lib net codec cfg sanitized p

    emits : (p : Phase) → Emits (λ _. Unit {0}) (phase_at p)
    emits p = Emits-program lib net codec cfg sanitized p

    -- The four phases that write objects, whichever of them ensures it.
    Ensures-http :
        (p : Phase)
        → Ensures (phase_at p)
        → Ensures (phase_at middleware >> phase_at router >> phase_at transport >> phase_at service)
    Ensures-http middleware holds =
        Ensures-first _ _
          (Ensures-first _ _ (Ensures-first _ _ holds (emits router)) (emits transport))
          (emits service)
    Ensures-http router holds =
        Ensures-first _ _
          (Ensures-first _ _ (Ensures-second _ _ (emits middleware) holds) (emits transport))
          (emits service)
    Ensures-http transport holds =
        Ensures-first _ _
          (Ensures-second _ _ (Emits-then _ _ (emits middleware) (emits router)) holds)
          (emits service)
    Ensures-http service holds =
        Ensures-second _ _
          (Emits-then _ _ (Emits-then _ _ (emits middleware) (emits router)) (emits transport))
          holds

    -- If a run of one phase without an error ensures it, so does a round of `applyConfig`.
    pub apply_config-Ensures :
        (p : Phase) → Ensures (phase_at p) → Ensures (apply_config lib net codec cfg (some config))
    unfolding apply_config apply_config_sequential lift
    apply_config-Ensures p holds h e =
        let (s, q, eq) =
          bind-ok (lift (sanitize_traefik_config lib codec (some config)))
            (apply_sanitized lib net codec cfg) k h e in
        let other : ok (some sanitized) ≡ ok s = sym made ∙ q in
        let same : some sanitized ≡ s = cc in
        let run : apply_config lib net codec cfg (some config) k h
            ≡ apply_config_sequential lib net codec cfg sanitized k h =
          eq ∙ ap (λ x. apply_sanitized lib net codec cfg x k h) (sym same) in
        subst (λ (out : Result (Unit {0}) × History). Q h out.1) (sym run)
          (Ensures-first _ _ (Ensures-first _ _ (Ensures-http p holds) Emits-tcp) Emits-udp h
            (sym (ap (λ z. z.0) run) ∙ e))
