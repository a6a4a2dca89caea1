-- ===== src/Protocol/TcpUdp/Routes.antt =====
-- internal/transform/protocol/tcp_udp.go: the IngressRouteTCP and IngressRouteUDP objects, and the
-- two transformations.
use pangolin_kube_controller.Prelude.{
  ℕ, ◌||◌, Option, none, some, List, [], ◌∷◌, if◌then◌else◌, or_else, is_empty,
}
use pangolin_kube_controller.Text.{Text, codes}
use pangolin_kube_controller.Result.{
  Result, ok, err, ◌>>=◌, missing_rule_and_service, missing_service, unknown_service,
}
use pangolin_kube_controller.Maps.{Map, entries, lookup, sort_keys}
use pangolin_kube_controller.Json.{
  Value, null, str, arr, obj, Items, nil, cons, Fields, Codec, get, put, as_str, as_arr, on_arr,
  on_obj, update, fields_of, unmarshal_map, literal, number, strings, str_items,
}
use pangolin_kube_controller.Sanitize.Name.{NameLib, sanitize_resource_name}
use pangolin_kube_controller.Sanitize.Config.{Raw, TraefikConfig, TcpUdpConfig}
use pangolin_kube_controller.Protocol.Ports.{derive_port_from_name}
use pangolin_kube_controller.Protocol.Servers.{NetLib}
use pangolin_kube_controller.Protocol.TcpUdp.{
  tcp, udp, SvcInfo, Transformed, nothing_transformed, no_artifacts, build_tcp_service_index,
  build_udp_service_index, build_kube_artifacts,
}

abbrev pub group_version : Text
group_version = codes "traefik.io/v1alpha1"

-- f on the first item
abbrev on_first : (Value → Value) → Items → Items
on_first f nil = nil
on_first f (cons v vs) = cons (f v) vs

-- A nil slice is null.
abbrev pub null_or_arr : Items → Value
null_or_arr nil = null
null_or_arr (cons v t) = arr (cons v t)

-- The entry points of a router that are strings, `epsIfc`
abbrev pub entry_points : Fields → Value
entry_points r =
    null_or_arr (str_items (strings (or_else (as_arr (get (codes "entryPoints") r)) nil)))

abbrev pub text_at : Text → Fields → Text
text_at k r = or_else (as_str (get k r)) []

-- The entry of a route for its service.
abbrev pub svc_entry : Text → ℕ → Value
svc_entry kube_name svc_port =
    obj (literal ((codes "name", str kube_name) ∷ (codes "port", number svc_port) ∷ []))

module _ (lib : NameLib) where
  -- injectServersTransport
  unfoldable pub inject_servers_transport : Text → Fields → Fields
  inject_servers_transport transport = update (codes "spec") (
      on_obj (
        update (codes "routes") (
          on_arr (
            on_first (
              on_obj (
                update (codes "services") (
                  on_arr (
                    on_first (
                      on_obj (
                        put (codes "serversTransport")
                          (str (sanitize_resource_name lib transport))))))))))))

  -- The object that a router becomes.
  abbrev pub route_object : Text → Text → Text → Value → Fields → Fields
  route_object kind namespace name eps route = literal (
      (codes "apiVersion", str group_version)
      ∷ (codes "kind", str kind)
      ∷ (
        codes "metadata",
        obj (
            literal (
              (codes "name", str (sanitize_resource_name lib name))
              ∷ (codes "namespace", str namespace)
              ∷ [])),
      )
      ∷ (
        codes "spec",
        obj (
            literal
              ((codes "entryPoints", eps) ∷ (codes "routes", arr (cons (obj route) nil)) ∷ [])),
      )
      ∷ [])

module _ (lib : NameLib) (codec : Codec) where
  -- The rest of `transformRouterTCPToIngressRouteTCP`, of a decoded router.
  unfoldable pub tcp_router_object : Text → Text → Map Text → Fields → Result (Fields × Text)
  tcp_router_object namespace name dyn_to_kube r =
      let rule = text_at (codes "rule") r in
      let svc_name = text_at (codes "service") r in
      let mapped = or_else (lookup svc_name dyn_to_kube) [] in
      let kube_name = if is_empty mapped then sanitize_resource_name lib svc_name else mapped in
      if is_empty rule || is_empty svc_name then err missing_rule_and_service else do
        svc_port ← derive_port_from_name kube_name
        ok (
          route_object lib (codes "IngressRouteTCP") namespace name (entry_points r) (
              literal (
                (codes "match", str rule)
                ∷ (codes "services", arr (cons (svc_entry kube_name svc_port) nil))
                ∷ [])),
          svc_name,
        )

  -- transformRouterTCPToIngressRouteTCP
  unfoldable pub transform_router_tcp : Text → Text → Map Text → Raw → Result (Fields × Text)
  unfolding tcp_router_object
  transform_router_tcp namespace name dyn_to_kube raw = do
    v ← unmarshal_map codec raw
    tcp_router_object namespace name dyn_to_kube (fields_of v)

  abbrev with_transport : Option SvcInfo → Fields → Fields
  with_transport none u = u
  with_transport (some meta) u =
      if is_empty meta.transport then u else inject_servers_transport lib meta.transport u

  -- buildTCPRoutes
  unfoldable pub build_tcp_routes : Text → Map Raw → Map Text → Map SvcInfo → Result (List Fields)
  build_tcp_routes namespace [] name_map svc_info = ok []
  build_tcp_routes namespace ((name, raw) ∷ routers) name_map svc_info = do
    us ← transform_router_tcp namespace name name_map raw
    rest ← build_tcp_routes namespace routers name_map svc_info
    ok (with_transport (lookup us.1 svc_info) us.0 ∷ rest)

  -- The body of the loop of `buildUDPRoutes`, of a decoded router.
  unfoldable pub udp_router_object : Text → Text → Map Text → Fields → Result Fields
  udp_router_object namespace name name_map r =
      let svc_name = text_at (codes "service") r in
      let kube_name = or_else (lookup svc_name name_map) [] in
      if is_empty svc_name
      then err missing_service
      else if is_empty kube_name
      then err unknown_service
      else do
        svc_port ← derive_port_from_name kube_name
        ok (
            route_object lib (codes "IngressRouteUDP") namespace name (entry_points r)
              (literal ((codes "services", arr (cons (svc_entry kube_name svc_port) nil)) ∷ [])))

  -- buildUDPRoutes
  unfoldable pub build_udp_routes : Map Raw → Map Text → Text → Result (List Fields)
  unfolding udp_router_object
  build_udp_routes [] name_map namespace = ok []
  build_udp_routes ((name, raw) ∷ routers) name_map namespace = do
    v ← unmarshal_map codec raw
    u ← udp_router_object namespace name name_map (fields_of v)
    rest ← build_udp_routes routers name_map namespace
    ok (u ∷ rest)

module _ (lib : NameLib) (net : NetLib) (codec : Codec) (namespace : Text) where
  -- TransformTCP with a TCP part
  unfoldable pub transform_tcp_part : TcpUdpConfig → Result Transformed
  transform_tcp_part part = do
    tcp_info ← build_tcp_service_index net codec (entries part.services) []
    a ← build_kube_artifacts lib net tcp namespace tcp_info (sort_keys tcp_info) no_artifacts
    routes ← build_tcp_routes lib codec namespace (entries part.routers) a.name_map tcp_info
    ok (record { routes = routes; svcs = a.svcs; slices = a.slices })

  -- TransformTCP
  unfoldable pub transform_tcp : Option TraefikConfig → Result Transformed
  unfolding transform_tcp_part
  transform_tcp none = ok nothing_transformed
  transform_tcp (some cfg) = elim cfg.tcp [
    | none ↦ ok nothing_transformed
    | some part ↦ transform_tcp_part part
  ]

  -- TransformUDP with a UDP part
  unfoldable pub transform_udp_part : TcpUdpConfig → Result Transformed
  transform_udp_part part = do
    udp_info ← build_udp_service_index net codec (entries part.services) []
    a ← build_kube_artifacts lib net udp namespace udp_info (sort_keys udp_info) no_artifacts
    routes ← build_udp_routes lib codec (entries part.routers) a.name_map namespace
    ok (record { routes = routes; svcs = a.svcs; slices = a.slices })

  -- TransformUDP
  unfoldable pub transform_udp : Option TraefikConfig → Result Transformed
  unfolding transform_udp_part
  transform_udp none = ok nothing_transformed
  transform_udp (some cfg) = elim cfg.udp [
    | none ↦ ok nothing_transformed
    | some part ↦ transform_udp_part part
  ]
