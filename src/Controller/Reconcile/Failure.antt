-- ===== src/Controller/Reconcile/Failure.antt =====
-- internal/controller/apply.go: what a phase does that fails.
use pangolin_kube_controller.Prelude.{◌≡◌, refl, ap, some, [], ◌∷◌, Among}
use pangolin_kube_controller.Text.{Text}
use pangolin_kube_controller.Result.{Error, ok, err}
use pangolin_kube_controller.Maps.{Map}
use pangolin_kube_controller.Json.{Codec}
use pangolin_kube_controller.Kube.{
  Resource, middlewares, Call, get_object, create_object, patch_object, KeepsObjects, History, Api,
}
use pangolin_kube_controller.Kube.Prog.{Prog, pure, lift, ◌>>=◌, ◌>>◌}
use pangolin_kube_controller.Kube.Prog.Emits.{
  Adds, Emits, Emits-mono, Emits-pure, Emits-if, Emits-then,
}
use pangolin_kube_controller.Sanitize.Name.{NameLib}
use pangolin_kube_controller.Sanitize.Config.{Raw, TraefikConfig, sanitize_traefik_config}
use pangolin_kube_controller.Sanitize.Config.Laws.{sanitize_drops_tcp_udp}
use pangolin_kube_controller.Routing.{transform_router_to_ingress_route}
use pangolin_kube_controller.Protocol.Servers.{NetLib}
use pangolin_kube_controller.Apply.Objects.Reading.{Touches, Emits-apply_unstructured}
use pangolin_kube_controller.Config.{Config}
use pangolin_kube_controller.Controller.Routers.{router_cfg}
use pangolin_kube_controller.Controller.Routers.Failing.{transform_routers-fails}
use pangolin_kube_controller.Controller.Reconcile.{
  apply_all, apply_desired_objects, reconcile_middlewares, reconcile_routers, reconcile_tcp,
  reconcile_tcp_part, reconcile_udp, reconcile_udp_part,
}

Touches-keeps : (r : Resource) (n : Text) (c : Call) → Touches r n c → KeepsObjects c
Touches-keeps r n (get_object r' n') t = tt
Touches-keeps r n (create_object r' u b) t = tt
Touches-keeps r n (patch_object r' n' u o) t = tt
Touches-keeps r n _ t = elim t [ ]

-- A sequence whose first part fails is that part.
fails_first :
    {A B : Type 0} (m : Prog A) (f : A → Prog B) (k : Api) (h : History) {e : Error}
    → (m k h).0 ≡ err e
    → (m >>= f) k h ≡ (err e, (m k h).1)
unfolding ◌>>=◌
fails_first m f k h q = rw q refl

module _ (codec : Codec) (cfg : Config) where
  pub apply_all_keeps :
      (r : Resource) (objects : Map Raw) → Emits KeepsObjects (apply_all codec cfg r objects)
  unfolding apply_all
  apply_all_keeps r [] = Emits-pure tt
  apply_all_keeps r ((name, raw) ∷ objects) =
      Emits-then _ _
        (Emits-mono _ (Touches-keeps r name)
          (Emits-apply_unstructured codec r cfg.namespace cfg.ssa_force name raw _))
        (apply_all_keeps r objects)

  pub desired_keeps :
      (r : Resource) (objects : Map Raw)
      → Emits KeepsObjects (apply_desired_objects codec cfg r objects)
  unfolding apply_desired_objects
  desired_keeps r objects =
      Emits-if cfg.read_only _ _ (λ _. Emits-pure tt) (λ _. apply_all_keeps r objects)

  -- If a Middleware cannot be applied, then the phase of the Middlewares returns that error, and
  -- it has neither deleted an object nor scheduled a deletion.
  pub failed_middleware_keeps :
      (objects : Map Raw) (k : Api) (h : History) (e : Error)
      → (apply_desired_objects codec cfg middlewares objects k h).0 ≡ err e
      → ((reconcile_middlewares codec cfg objects k h).0 ≡ err e)
        × Adds KeepsObjects h (reconcile_middlewares codec cfg objects k h).1
  unfolding reconcile_middlewares ◌>>◌
  failed_middleware_keeps objects k h e q =
      let stops : reconcile_middlewares codec cfg objects k h
          ≡ (err e, (apply_desired_objects codec cfg middlewares objects k h).1) =
        fails_first (apply_desired_objects codec cfg middlewares objects) _ k h q in
      rw stops (refl, (desired_keeps middlewares objects).at k h)

  -- If one router cannot be turned into an IngressRoute, then the phase of the routers returns an
  -- error and makes no call at all: no route is applied, and none is deleted.
  pub bad_router_stops :
      (routers : Map Raw) (name : Text) (raw : Raw) (e : Error) (k : Api) (h : History)
      → Among (name, raw) routers
      → transform_router_to_ingress_route codec name raw (router_cfg codec cfg) ≡ err e
      → (e' : Error) × (reconcile_routers codec cfg routers k h ≡ (err e', h))
  unfolding reconcile_routers lift
  bad_router_stops routers name raw e k h m q =
      let (e', eq) = transform_routers-fails codec cfg routers name raw e m q in
      (e', fails_first _ _ k h eq)

module _ (lib : NameLib) (net : NetLib) (codec : Codec) (cfg : Config) where
  -- The phases of TCP and UDP do nothing in a round: for a configuration that was sanitized they
  -- make no call, whatever TCP and UDP parts it came with.
  pub tcp_udp_phases_idle :
      (config sanitized : TraefikConfig) (k : Api) (h : History)
      → sanitize_traefik_config lib codec (some config) ≡ ok (some sanitized)
      → (reconcile_tcp lib net codec cfg sanitized k h ≡ (ok tt, h))
        × (reconcile_udp lib net codec cfg sanitized k h ≡ (ok tt, h))
  unfolding reconcile_tcp reconcile_udp pure
  tcp_udp_phases_idle config sanitized k h q =
      let (t, u) = sanitize_drops_tcp_udp lib codec config sanitized q in
      (
        ap (λ x. reconcile_tcp_part lib net codec cfg sanitized x k h) t,
        ap (λ x. reconcile_udp_part lib net codec cfg sanitized x k h) u,
      )
