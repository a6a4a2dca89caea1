-- ===== src/Controller/Reconcile/Converges.antt =====
-- internal/controller/apply.go (applyConfig): a round without an error has written the objects of the
-- configuration and removed the stale ones.
use pangolin_kube_controller.Prelude.{◌≡◌, false, some, Among}
use pangolin_kube_controller.Text.{Text}
use pangolin_kube_controller.Result.{ok}
use pangolin_kube_controller.Maps.{keys}
use pangolin_kube_controller.Json.{Codec}
use pangolin_kube_controller.Sanitize.Name.{NameLib}
use pangolin_kube_controller.Sanitize.Config.{Raw, TraefikConfig, sanitize_traefik_config}
use pangolin_kube_controller.Kube.{History, Api}
use pangolin_kube_controller.Protocol.Servers.{NetLib}
use pangolin_kube_controller.Config.{Config}
use pangolin_kube_controller.Apply.Objects.Accepting.{Accepted-from, Accepted-then}
use pangolin_kube_controller.Controller.Reconcile.{apply_config}
use pangolin_kube_controller.Prelude.{some}
use pangolin_kube_controller.Sanitize.Config.Laws.{sanitize_keeps_transports}
use pangolin_kube_controller.Controller.Reconcile.Writes.Round.{
  Phase, resource, desired, Written, phase-Written,
}
use pangolin_kube_controller.Controller.Reconcile.Sequence.{apply_config-Ensures}
use pangolin_kube_controller.Controller.Reconcile.Cleans.{
  kind, Cleaned, Cleaned-IsKept, phase-Cleaned,
}

module _ (lib : NameLib) (net : NetLib) (codec : Codec) (cfg : Config) (sanitized : TraefikConfig)
    (k : Api) (config : TraefikConfig)
    (made : sanitize_traefik_config lib codec (some config) ≡ ok (some sanitized)) (p : Phase)
    (h : History) where
  -- A round in sequence that returns no error, of a controller that is not read only, has
  -- written every Middleware, IngressRoute, ServersTransport and TraefikService of the sanitized
  -- configuration: its text stands for a spec, and the server has accepted a call of this round
  -- that creates the object of that name with the spec, or patches it with an object that has
  -- the spec.
  pub apply_config-Written :
      (name : Text) (raw : Raw)
      → cfg.read_only ≡ false
      → Among (name, raw) (desired lib net codec cfg sanitized p)
      → (apply_config lib net codec cfg (some config) k h).0 ≡ ok tt
      → Written lib net codec cfg sanitized k p name raw h
          (apply_config lib net codec cfg (some config) k h).1
  apply_config-Written name raw w m e =
      apply_config-Ensures lib net codec cfg sanitized k
        (Written lib net codec cfg sanitized k p name raw)
        (record {
          sooner = λ h₀ h₁ h₂ l (spec, s, a). (spec, s, Accepted-from k l a);
          later = λ h₀ h₁ h₂ (spec, s, a) l. (spec, s, Accepted-then k a l);
        })
        config made p (λ h' e'. phase-Written lib net codec cfg sanitized p name raw k h' w m e') h
        e

  -- In a round in sequence that returns no error, of a controller that is not read only, the server
  -- has listed the IngressRoutes, Middlewares, ServersTransports and TraefikServices with the
  -- controller's label, and for each of these that has the controller's annotation and is not in
  -- the sanitized configuration the round has, behind that list call, made the call that deletes
  -- it, and the server has carried that out or has answered that it has no such object; with a
  -- grace period the round has asked for a later deletion instead.
  pub apply_config-Cleaned :
      cfg.read_only ≡ false
      → (apply_config lib net codec cfg (some config) k h).0 ≡ ok tt
      → Cleaned cfg k
          (resource p)
          (kind p)
          (keys (desired lib net codec cfg sanitized p))
          h
          (apply_config lib net codec cfg (some config) k h).1
  apply_config-Cleaned w e =
      apply_config-Ensures lib net codec cfg sanitized k _ (Cleaned-IsKept cfg k _ _ _) config made
        p
        (λ h' e'.
          phase-Cleaned lib net codec cfg sanitized k p h'
            (sanitize_keeps_transports lib codec config sanitized made) w e')
        h e
