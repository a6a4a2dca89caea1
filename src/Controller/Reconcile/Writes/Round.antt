-- ===== src/Controller/Reconcile/Writes/Round.antt =====
-- internal/controller/apply.go: a phase that returns no error has written each of its objects.
use pangolin_kube_controller.Prelude.{◌≡◌, false, none, some, Among}
use pangolin_kube_controller.Text.{Text, codes}
use pangolin_kube_controller.Result.{ok}
use pangolin_kube_controller.Maps.{Map, GoMap, entries, keys}
use pangolin_kube_controller.Json.{Codec, Value, Fields, get, unmarshal_map}
use pangolin_kube_controller.Sanitize.Name.{NameLib}
use pangolin_kube_controller.Sanitize.Config.{Raw, TraefikConfig}
use pangolin_kube_controller.Kube.{
  Resource, middlewares, ingress_routes, servers_transports, traefik_services, History, Api,
}
use pangolin_kube_controller.Kube.Prog.{Prog, ◌>>◌}
use pangolin_kube_controller.Kube.Prog.Emits.{Emits, Emits-mono, Emits-then, Emits-pure}
use pangolin_kube_controller.Protocol.Servers.{NetLib}
use pangolin_kube_controller.Protocol.Conversion.Rewrite.{process_services}
use pangolin_kube_controller.Routing.{transform_router_to_ingress_route}
use pangolin_kube_controller.Config.{Config}
use pangolin_kube_controller.Apply.Objects.Accepting.{Accepted}
use pangolin_kube_controller.Controller.Gc.{gc_stale_objects}
use pangolin_kube_controller.Controller.Routers.{router_cfg}
use pangolin_kube_controller.Controller.Reconcile.{
  apply_desired_objects, reconcile_middlewares, reconcile_routers, reconcile_servers_transports,
  reconcile_services,
}
use pangolin_kube_controller.Controller.Reconcile.Failure.{desired_keeps}
use pangolin_kube_controller.Controller.Reconcile.Writes.{
  Emits-gc, phase-Accepted, reconcile_middlewares-Accepted,
}
use pangolin_kube_controller.Controller.Reconcile.Writes.Routers.{
  Emits-reconcile_routers, reconcile_routers-Accepted,
}

-- The phases that write objects of a sanitized configuration.
pub data Phase : Type 0 where
  middleware router transport service : Phase

abbrev pub resource : Phase → Resource
resource middleware = middlewares
resource router = ingress_routes
resource transport = servers_transports
resource service = traefik_services

module _ (lib : NameLib) (net : NetLib) (codec : Codec) (cfg : Config)
    (sanitized : TraefikConfig) where
  -- The objects that the phase is to write, by name, as texts.
  abbrev pub desired : Phase → Map Raw
  desired middleware = entries sanitized.http.middlewares
  desired router = entries sanitized.http.routers
  desired transport = entries sanitized.http.servers_transports
  desired service = entries (process_services net codec cfg sanitized.http.services)

  -- The spec of the object that a text stands for: for a router that of its route, and for any
  -- other object what is decoded.
  abbrev pub StandsFor : Phase → Text → Raw → Value → Type 0
  StandsFor router name raw spec =
      (u : Fields) × (transform_router_to_ingress_route codec name raw (router_cfg codec cfg)
        ≡ ok u)
      × (get (codes "spec") u ≡ some spec)
  StandsFor _ name raw spec = unmarshal_map codec raw ≡ ok spec

  -- Among the calls made since `h` there is one that the server accepted and that creates or patches
  -- the object of that name, with the spec that the text stands for.
  abbrev pub Written : Api → Phase → Text → Raw → History → History → Type 0
  Written k p name raw h h' =
      (spec : Value) × StandsFor p name raw spec × Accepted k (resource p) name spec h h'

  abbrev pub program : Phase → Prog Unit
  program middleware = reconcile_middlewares codec cfg (entries sanitized.http.middlewares)
  program router = reconcile_routers codec cfg (entries sanitized.http.routers)
  program transport = reconcile_servers_transports codec cfg sanitized.http.servers_transports
  program service = reconcile_services lib net codec cfg sanitized.http.services

  transports-Written :
      (transports : GoMap Raw) (name : Text) (raw : Raw) (k : Api) (h : History)
      → cfg.read_only ≡ false
      → Among (name, raw) (entries transports)
      → (reconcile_servers_transports codec cfg transports k h).0 ≡ ok tt
      → Written k transport name raw h (reconcile_servers_transports codec cfg transports k h).1
  unfolding reconcile_servers_transports
  transports-Written none name raw k h w m e = elim m [ ]
  transports-Written (some objects) name raw k h w m e =
      phase-Accepted codec cfg servers_transports (codes "ServersTransport") objects name raw k h w
        m e

  -- A phase that returns no error has written each of its objects.
  pub phase-Written :
      (p : Phase) (name : Text) (raw : Raw) (k : Api) (h : History)
      → cfg.read_only ≡ false
      → Among (name, raw) (desired p)
      → (program p k h).0 ≡ ok tt
      → Written k p name raw h (program p k h).1
  unfolding reconcile_services
  phase-Written middleware name raw k h w m e =
      reconcile_middlewares-Accepted codec cfg _ name raw k h w m e
  phase-Written router name raw k h w m e =
      let (u, spec, made, has, done) = reconcile_routers-Accepted codec cfg _ name raw k h w m e in
      (spec, (u, made, has), done)
  phase-Written transport name raw k h w m e =
      transports-Written sanitized.http.servers_transports name raw k h w m e
  phase-Written service name raw k h w m e =
      phase-Accepted codec cfg traefik_services (codes "TraefikService") _ name raw k h w m e

  Emits-desired :
      (r : Resource) (kind : Text) (objects : Map Raw)
      → Emits
          (λ _. Unit {0})
          (apply_desired_objects codec cfg r objects >> gc_stale_objects cfg r kind (keys objects))
  Emits-desired r kind objects =
      Emits-then _ _ (Emits-mono _ (λ _ _. tt) (desired_keeps codec cfg r objects))
        (Emits-gc cfg r kind (keys objects))

  Emits-transports :
      (transports : GoMap Raw)
      → Emits (λ _. Unit {0}) (reconcile_servers_transports codec cfg transports)
  unfolding reconcile_servers_transports
  Emits-transports none = Emits-pure tt
  Emits-transports (some objects) = Emits-desired _ _ objects

  pub Emits-program : (p : Phase) → Emits (λ _. Unit {0}) (program p)
  unfolding reconcile_services reconcile_middlewares
  Emits-program middleware = Emits-desired _ _ _
  Emits-program router = Emits-reconcile_routers codec cfg _
  Emits-program transport = Emits-transports sanitized.http.servers_transports
  Emits-program service = Emits-desired _ _ _
