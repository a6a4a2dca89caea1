-- ===== src/Controller/Reconcile.antt =====
-- internal/controller/apply.go: one round of reconciliation, phase by phase.
pub mod ReadOnly
pub mod Writes
pub mod Sequence
pub mod Cleans
pub mod Converges
pub mod Failure
use pangolin_kube_controller.Prelude.{
  Option, none, some, List, [], ◌∷◌, map, if◌then◌else◌, is_empty,
}
use pangolin_kube_controller.Text.{Text, codes}
use pangolin_kube_controller.Result.{Result}
use pangolin_kube_controller.Maps.{Map, GoMap, entries, keys, insert}
use pangolin_kube_controller.Json.{Fields, Codec}
use pangolin_kube_controller.Kube.{
  Resource, middlewares, ingress_routes, traefik_services, servers_transports, ingress_route_tcps,
  ingress_route_udps, servers_transport_tcps,
}
use pangolin_kube_controller.Kube.Prog.{Prog, pure, lift, ◌>>=◌, ◌>>◌}
use pangolin_kube_controller.Sanitize.Name.{NameLib, sanitize_resource_name}
use pangolin_kube_controller.Sanitize.Config.{
  Raw, TcpUdpConfig, TraefikConfig, sanitize_traefik_config,
}
use pangolin_kube_controller.Controller.Routers.{transform_routers}
use pangolin_kube_controller.Protocol.Servers.{NetLib}
use pangolin_kube_controller.Protocol.TcpUdp.{Service, EndpointSlice, Transformed}
use pangolin_kube_controller.Protocol.TcpUdp.Routes.{transform_tcp, transform_udp}
use pangolin_kube_controller.Protocol.Conversion.Rewrite.{process_services}
use pangolin_kube_controller.Apply.Metadata.{MetadataConfig}
use pangolin_kube_controller.Apply.Objects.{
  apply_unstructured, apply_ingress_route, apply_single, object_name,
}
use pangolin_kube_controller.Config.{Config}
use pangolin_kube_controller.Controller.Gc.{
  gc_stale_objects, gc_stale_core_services, gc_stale_endpoint_slices,
}
use pangolin_kube_controller.Controller.Core.{apply_protocol_services, apply_protocol_slices}

module _ (codec : Codec) (cfg : Config) where
  -- The metadata of every object that the controller applies; no instance label is set.
  abbrev pub meta_cfg : MetadataConfig
  meta_cfg = record {
    managed_label_key = cfg.managed_label_key;
    managed_label_value = cfg.managed_label_value;
    traefik_instance_label_key = [];
    traefik_instance_label_value = [];
    managed_anno_key = cfg.managed_anno_key;
    managed_anno_value = cfg.managed_anno_value;
    ingress_class = cfg.ingress_class;
  }

  -- The loop of `applyDesiredObjects`
  unfoldable pub apply_all : Resource → Map Raw → Prog Unit
  apply_all r [] = pure tt
  apply_all r ((name, raw) ∷ objects) =
      apply_unstructured codec r cfg.namespace cfg.ssa_force name raw meta_cfg
      >> apply_all r objects

  -- applyDesiredObjects
  unfoldable pub apply_desired_objects : Resource → Map Raw → Prog Unit
  unfolding apply_all
  apply_desired_objects r objects = if cfg.read_only then pure tt else apply_all r objects

  -- reconcileMiddlewares
  unfoldable pub reconcile_middlewares : Map Raw → Prog Unit
  reconcile_middlewares objects =
      apply_desired_objects middlewares objects
      >> gc_stale_objects cfg middlewares (codes "Middleware") (keys objects)

  -- The second loop, with applyIngressRoute
  unfoldable pub apply_routers : Map Fields → Prog Unit
  apply_routers [] = pure tt
  apply_routers ((name, u) ∷ transformed) =
      apply_ingress_route codec cfg.read_only cfg.namespace name u meta_cfg
      >> apply_routers transformed

  -- reconcileRouters
  unfoldable pub reconcile_routers : Map Raw → Prog Unit
  unfolding transform_routers apply_routers
  reconcile_routers routers = do
    transformed ← lift (transform_routers codec cfg routers)
    apply_routers transformed
    gc_stale_objects cfg ingress_routes (codes "IngressRoute") (keys routers)

  -- reconcileServersTransports
  unfoldable pub reconcile_servers_transports : GoMap Raw → Prog Unit
  reconcile_servers_transports none = pure tt
  reconcile_servers_transports (some transports) =
      apply_desired_objects servers_transports transports
      >> gc_stale_objects cfg servers_transports (codes "ServersTransport") (keys transports)

  -- applyProtocolIngressRoutes
  unfoldable pub apply_protocol_ingress_routes : Resource → Text → List Fields → Prog Unit
  apply_protocol_ingress_routes r kind [] = pure tt
  apply_protocol_ingress_routes r kind (m ∷ routes) =
      apply_single codec cfg.read_only r cfg.namespace m kind meta_cfg
      >> apply_protocol_ingress_routes r kind routes

  -- applyProtocolArtifacts
  unfoldable pub apply_protocol_artifacts : Resource → Text → Transformed → Prog Unit
  apply_protocol_artifacts r kind t =
      apply_protocol_services cfg t.svcs
      >> apply_protocol_slices cfg t.slices
      >> apply_protocol_ingress_routes r kind t.routes

  -- The names of `desiredRoutes`, without "".
  unfoldable pub route_names : List Fields → List Text
  route_names [] = []
  route_names (m ∷ routes) =
      let rest = route_names routes in
      if is_empty (object_name codec m) then rest else object_name codec m ∷ rest

  abbrev service_names : List Service → List Text
  service_names [] = []
  service_names (s ∷ ss) = s.name ∷ service_names ss

  abbrev slice_names : List EndpointSlice → List Text
  slice_names [] = []
  slice_names (s ∷ ss) = s.name ∷ slice_names ss

  -- What `reconcileTCP` and `reconcileUDP` do with the objects they have made.
  unfoldable pub reconcile_artifacts : Resource → Text → Transformed → Prog Unit
  unfolding apply_protocol_artifacts route_names
  reconcile_artifacts r kind t =
      apply_protocol_artifacts r kind t
      >> gc_stale_objects cfg r kind (route_names t.routes)
      >> gc_stale_core_services cfg (service_names t.svcs)
      >> gc_stale_endpoint_slices cfg (slice_names t.slices)

module _ (lib : NameLib) (net : NetLib) (codec : Codec) (cfg : Config) where
  -- reconcileServices
  unfoldable pub reconcile_services : GoMap Raw → Prog Unit
  unfolding apply_desired_objects
  reconcile_services services =
      let processed = entries (process_services net codec cfg services) in
      apply_desired_objects codec cfg traefik_services processed
      >> gc_stale_objects cfg traefik_services (codes "TraefikService") (keys processed)

  abbrev sanitized_keys : Map Raw → Map Raw
  sanitized_keys [] = []
  sanitized_keys ((name, raw) ∷ objects) =
      insert (sanitize_resource_name lib name) raw (sanitized_keys objects)

  -- reconcileServersTransportTCP
  unfoldable pub reconcile_servers_transport_tcp : GoMap Raw → Prog Unit
  reconcile_servers_transport_tcp none = pure tt
  reconcile_servers_transport_tcp (some transports) =
      apply_desired_objects codec cfg servers_transport_tcps (sanitized_keys transports)
      >> gc_stale_objects cfg servers_transport_tcps (codes "ServersTransportTCP")
          (keys (sanitized_keys transports))

  abbrev pub reconcile_tcp_part : TraefikConfig → Option TcpUdpConfig → Prog Unit
  reconcile_tcp_part sanitized none = pure tt
  reconcile_tcp_part sanitized (some part) =
      reconcile_servers_transport_tcp part.servers_transports
      >> (lift (transform_tcp lib net codec cfg.namespace (some sanitized))
          >>= reconcile_artifacts codec cfg ingress_route_tcps (codes "IngressRouteTCP"))

  -- reconcileTCP; the configuration is not nil here
  unfoldable pub reconcile_tcp : TraefikConfig → Prog Unit
  unfolding reconcile_servers_transport_tcp
  reconcile_tcp sanitized = reconcile_tcp_part sanitized sanitized.tcp

  abbrev pub reconcile_udp_part : TraefikConfig → Option TcpUdpConfig → Prog Unit
  reconcile_udp_part sanitized none = pure tt
  reconcile_udp_part sanitized (some part) =
      lift (transform_udp lib net codec cfg.namespace (some sanitized))
      >>= reconcile_artifacts codec cfg ingress_route_udps (codes "IngressRouteUDP")

  -- reconcileUDP
  unfoldable pub reconcile_udp : TraefikConfig → Prog Unit
  reconcile_udp sanitized = reconcile_udp_part sanitized sanitized.udp

  -- applyConfigSequential
  unfoldable pub apply_config_sequential : TraefikConfig → Prog Unit
  unfolding reconcile_services reconcile_tcp reconcile_udp
  apply_config_sequential sanitized =
      reconcile_middlewares codec cfg (entries sanitized.http.middlewares)
      >> reconcile_routers codec cfg (entries sanitized.http.routers)
      >> reconcile_servers_transports codec cfg sanitized.http.servers_transports
      >> reconcile_services sanitized.http.services
      >> reconcile_tcp sanitized
      >> reconcile_udp sanitized

  abbrev pub apply_sanitized : Option TraefikConfig → Prog Unit
  apply_sanitized none = pure tt
  apply_sanitized (some sanitized) = apply_config_sequential sanitized

  -- applyConfig, where `ReconcileParallel` is off
  unfoldable pub apply_config : Option TraefikConfig → Prog Unit
  unfolding apply_config_sequential
  apply_config config = lift (sanitize_traefik_config lib codec config) >>= apply_sanitized
