-- ===== src/Controller/Reconcile/ReadOnly.antt =====
-- internal/controller/apply.go: a controller that is read only.
use pangolin_kube_controller.Prelude.{◌≡◌, true, false, Option, none, some, List, [], ◌∷◌, is_empty}
use pangolin_kube_controller.Text.{Text}
use pangolin_kube_controller.Maps.{Map, GoMap, keys}
use pangolin_kube_controller.Json.{Fields, Codec}
use pangolin_kube_controller.Kube.{Resource, Reads}
use pangolin_kube_controller.Kube.Prog.{Prog}
use pangolin_kube_controller.Kube.Prog.Emits.{
  Emits, Emits-pure, Emits-lift, Emits-if, Emits-bind, Emits-then,
}
use pangolin_kube_controller.Sanitize.Name.{NameLib}
use pangolin_kube_controller.Sanitize.Config.{Raw, TcpUdpConfig, TraefikConfig}
use pangolin_kube_controller.Protocol.Servers.{NetLib}
use pangolin_kube_controller.Protocol.TcpUdp.{Service, EndpointSlice, Transformed}
use pangolin_kube_controller.Apply.Objects.{apply_ingress_route, apply_single, object_name}
use pangolin_kube_controller.Config.{Config}
use pangolin_kube_controller.Controller.Gc.{gc_stale_objects}
use pangolin_kube_controller.Controller.Gc.Calls.{
  Emits-gc_stale_objects, Emits-gc_stale_core_services, Emits-gc_stale_endpoint_slices,
}
use pangolin_kube_controller.Controller.Core.{
  apply_core_service, apply_endpoint_slice, apply_protocol_services, apply_protocol_slices,
}
use pangolin_kube_controller.Controller.Reconcile.{
  meta_cfg, apply_desired_objects, reconcile_middlewares, apply_routers, reconcile_routers,
  reconcile_servers_transports, apply_protocol_ingress_routes, apply_protocol_artifacts,
  reconcile_artifacts, reconcile_services, reconcile_servers_transport_tcp, reconcile_tcp,
  reconcile_tcp_part, reconcile_udp, reconcile_udp_part, apply_sanitized, apply_config_sequential,
  apply_config,
}

module _ (cfg : Config) (w : cfg.read_only ≡ true) where
  writes_nothing : (m : Prog (Unit {0})) → cfg.read_only ≡ false → Emits Reads m
  writes_nothing m f = cc

  gc-Reads :
      (r : Resource) (kind : Text) (desired : List Text)
      → Emits Reads (gc_stale_objects cfg r kind desired)
  gc-Reads r kind desired =
      Emits-gc_stale_objects cfg r kind desired tt (λ items c (o, m, d, a, n, e). cc)

  core_service-Reads : (svc : Service) → Emits Reads (apply_core_service cfg svc)
  unfolding apply_core_service
  core_service-Reads svc = Emits-if cfg.read_only _ _ (λ _. Emits-pure tt) (λ f. cc)

  slice-Reads : (es : EndpointSlice) → Emits Reads (apply_endpoint_slice cfg es)
  unfolding apply_endpoint_slice
  slice-Reads es = Emits-if cfg.read_only _ _ (λ _. Emits-pure tt) (λ f. cc)

  services_read : (svcs : List Service) → Emits Reads (apply_protocol_services cfg svcs)
  unfolding apply_protocol_services
  services_read [] = Emits-pure tt
  services_read (svc ∷ svcs) = Emits-then _ _ (core_service-Reads svc) (services_read svcs)

  slices_read : (slices : List EndpointSlice) → Emits Reads (apply_protocol_slices cfg slices)
  unfolding apply_protocol_slices
  slices_read [] = Emits-pure tt
  slices_read (es ∷ slices) = Emits-then _ _ (slice-Reads es) (slices_read slices)

module _ (codec : Codec) (cfg : Config) (w : cfg.read_only ≡ true) where
  desired_read :
      (r : Resource) (objects : Map Raw) → Emits Reads (apply_desired_objects codec cfg r objects)
  unfolding apply_desired_objects
  desired_read r objects = Emits-if cfg.read_only _ _ (λ _. Emits-pure tt) (λ f. cc)

  pub middlewares_read : (objects : Map Raw) → Emits Reads (reconcile_middlewares codec cfg objects)
  unfolding reconcile_middlewares
  middlewares_read objects =
      Emits-then _ _ (desired_read _ objects) (gc-Reads cfg w _ _ (keys objects))

  apply_routers-Reads : (m : Map Fields) → Emits Reads (apply_routers codec cfg m)
  unfolding apply_routers apply_ingress_route
  apply_routers-Reads [] = Emits-pure tt
  apply_routers-Reads ((name, u) ∷ m) =
      Emits-then _ _ (Emits-if cfg.read_only _ _ (λ _. Emits-pure tt) (λ f. cc))
        (apply_routers-Reads m)

  pub routers_read : (routers : Map Raw) → Emits Reads (reconcile_routers codec cfg routers)
  unfolding reconcile_routers
  routers_read routers =
      Emits-bind _ _ (Emits-lift _)
        (λ m. Emits-then _ _ (apply_routers-Reads m) (gc-Reads cfg w _ _ (keys routers)))

  pub transports_read :
      (transports : GoMap Raw) → Emits Reads (reconcile_servers_transports codec cfg transports)
  unfolding reconcile_servers_transports
  transports_read none = Emits-pure tt
  transports_read (some m) = Emits-then _ _ (desired_read _ m) (gc-Reads cfg w _ _ (keys m))

  route-Reads :
      (r : Resource) (kind : Text) (m : Fields)
      → Emits Reads (apply_single codec cfg.read_only r cfg.namespace m kind (meta_cfg codec cfg))
  unfolding apply_single
  route-Reads r kind m =
      Emits-if (is_empty (object_name codec m)) _ _ (λ _. Emits-pure tt)
        (λ _. Emits-if cfg.read_only _ _ (λ _. Emits-pure tt) (λ f. writes_nothing cfg w _ f))

  routes_read :
      (r : Resource) (kind : Text) (routes : List Fields)
      → Emits Reads (apply_protocol_ingress_routes codec cfg r kind routes)
  unfolding apply_protocol_ingress_routes
  routes_read r kind [] = Emits-pure tt
  routes_read r kind (m ∷ routes) =
      Emits-then _ _ (route-Reads r kind m) (routes_read r kind routes)

  artifacts_read :
      (r : Resource) (kind : Text) (t : Transformed)
      → Emits Reads (reconcile_artifacts codec cfg r kind t)
  unfolding reconcile_artifacts apply_protocol_artifacts
  artifacts_read r kind t =
      Emits-then _ _
        (Emits-then _ _
          (Emits-then _ _
            (Emits-then _ _
              (Emits-then _ _ (services_read cfg w t.svcs) (slices_read cfg w t.slices))
              (routes_read r kind t.routes))
            (gc-Reads cfg w _ _ _))
          (Emits-gc_stale_core_services cfg _ tt (λ items c (o, m, d, a, n, e). cc)))
        (Emits-gc_stale_endpoint_slices cfg _ tt (λ items c (o, m, d, a, n, e). cc))

module _ (lib : NameLib) (net : NetLib) (codec : Codec) (cfg : Config)
    (w : cfg.read_only ≡ true) where
  pub http_services_read :
      (services : GoMap Raw) → Emits Reads (reconcile_services lib net codec cfg services)
  unfolding reconcile_services
  http_services_read services = Emits-then _ _ (desired_read codec cfg w _ _) (gc-Reads cfg w _ _ _)

  transport_tcp-Reads :
      (m : GoMap Raw) → Emits Reads (reconcile_servers_transport_tcp lib net codec cfg m)
  unfolding reconcile_servers_transport_tcp
  transport_tcp-Reads none = Emits-pure tt
  transport_tcp-Reads (some m) =
      Emits-then _ _ (desired_read codec cfg w _ _) (gc-Reads cfg w _ _ _)

  pub tcp-Reads :
      (c : TraefikConfig) (part : Option TcpUdpConfig)
      → Emits Reads (reconcile_tcp_part lib net codec cfg c part)
  tcp-Reads c none = Emits-pure tt
  tcp-Reads c (some part) =
      Emits-then _ _ (transport_tcp-Reads part.servers_transports)
        (Emits-bind _ _ (Emits-lift _) (λ t. artifacts_read codec cfg w _ _ t))

  pub udp-Reads :
      (c : TraefikConfig) (part : Option TcpUdpConfig)
      → Emits Reads (reconcile_udp_part lib net codec cfg c part)
  udp-Reads c none = Emits-pure tt
  udp-Reads c (some part) = Emits-bind _ _ (Emits-lift _) (λ t. artifacts_read codec cfg w _ _ t)

  sequence-Reads : (c : TraefikConfig) → Emits Reads (apply_config_sequential lib net codec cfg c)
  unfolding apply_config_sequential reconcile_tcp reconcile_udp
  sequence-Reads c =
      Emits-then _ _
        (Emits-then _ _
          (Emits-then _ _
            (Emits-then _ _
              (Emits-then _ _ (middlewares_read codec cfg w _) (routers_read codec cfg w _))
              (transports_read codec cfg w _))
            (http_services_read _))
          (tcp-Reads c c.tcp))
        (udp-Reads c c.udp)

  sanitized-Reads : (c : Option TraefikConfig) → Emits Reads (apply_sanitized lib net codec cfg c)
  sanitized-Reads none = Emits-pure tt
  sanitized-Reads (some c) = sequence-Reads c

-- A controller that is read only changes nothing: whatever the configuration and whatever the
-- server answers, every call of a round is a get or a list call.
pub apply_config-Reads :
    (lib : NameLib) (net : NetLib) (codec : Codec) (cfg : Config) (config : Option TraefikConfig)
    → cfg.read_only ≡ true
    → Emits Reads (apply_config lib net codec cfg config)
unfolding apply_config
apply_config-Reads lib net codec cfg config w =
    Emits-bind _ _ (Emits-lift _) (λ c. sanitized-Reads lib net codec cfg w c)
