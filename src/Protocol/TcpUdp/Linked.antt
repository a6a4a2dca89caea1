-- ===== src/Protocol/TcpUdp/Linked.antt =====
-- The routes of a protocol refer to its Services, by name and port.
use pangolin_kube_controller.Prelude.{
  ℕ, or_else, ◌≤◌, ◌<◌, ◌≡◌, refl, ◌≢◌, false, List, [], ◌∷◌, length, is_empty,
}
use pangolin_kube_controller.Text.{Text, codes}
use pangolin_kube_controller.Result.{ok}
use pangolin_kube_controller.Maps.{Map}
use pangolin_kube_controller.Maps.Laws.{In}
use pangolin_kube_controller.Json.{
  Codec, Value, Fields, null, str, arr, obj, cons, nil, literal, number, get, as_arr, strings,
  str_items,
}
use pangolin_kube_controller.Sanitize.Name.{NameLib, HasDigest, sanitize_resource_name}
use pangolin_kube_controller.Sanitize.Name.Valid.{sanitize_resource_name-IsK8sName}
use pangolin_kube_controller.Protocol.Ports.{derive_port_from_name}
use pangolin_kube_controller.Protocol.Ports.RoundTrip.{base, derive_port_from_name-sanitize}
use pangolin_kube_controller.Protocol.Servers.{NetLib}
use pangolin_kube_controller.Protocol.TcpUdp.{
  Transport, udp, SvcInfo, Artifacts, no_artifacts, info_at, kube_name, build_kube_artifacts,
}
use pangolin_kube_controller.Protocol.TcpUdp.Routes.{
  text_at, entry_points, svc_entry, route_object, udp_router_object,
}
use pangolin_kube_controller.Protocol.TcpUdp.Pairing.{name_made}

-- A list of texts, or null if it is empty.
abbrev points : List Text → Value
points [] = null
points (p ∷ ps) = arr (str_items (p ∷ ps))

-- The entry points of a router that are texts.
abbrev pub points_of : Fields → Value
points_of r = points (strings (or_else (as_arr (get (codes "entryPoints") r)) nil))

-- An IngressRouteTCP with one route to one service, at a port.
abbrev pub tcp_route : NameLib → Text → Text → Value → Text → Text → ℕ → Fields
tcp_route lib namespace name entry_points rule service port = literal (
    (codes "apiVersion", str (codes "traefik.io/v1alpha1"))
    ∷ (codes "kind", str (codes "IngressRouteTCP"))
    ∷ (
      codes "metadata",
      obj (
          literal (
            (codes "name", str (sanitize_resource_name lib name))
            ∷ (codes "namespace", str namespace)
            ∷ [])),
    )
    ∷ (
      codes "spec",
      obj (
          literal (
            (codes "entryPoints", entry_points)
            ∷ (
              codes "routes",
              arr (
                  cons
                    (obj (
                      literal (
                        (codes "match", str rule)
                        ∷ (
                          codes "services",
                          arr (
                              cons
                                (obj (
                                  literal (
                                    (codes "name", str service)
                                    ∷ (codes "port", number port)
                                    ∷ [])))
                                nil),
                        )
                        ∷ [])))
                    nil),
            )
            ∷ [])),
    )
    ∷ [])

module _ (lib : NameLib) (net : NetLib) (namespace : Text) (info : Map SvcInfo) where
  -- A service that gets a port behind its name: the name has a letter or a digit in lower case and
  -- at most 247 characters, and the port is one.
  pub record IsServed (svc : Text) : Type 0 where
    pub letters : base lib svc (info_at svc info).port ≢ []
    pub short : length svc ≤ 247
    pub some_port : 0 < (info_at svc info).port
    pub port_bound : (info_at svc info).port ≤ 65535

  kube_name-port :
      (proto : Transport) (svc : Text)
      → IsServed svc
      → derive_port_from_name (kube_name lib net proto namespace info svc)
        ≡ ok (info_at svc info).port
  kube_name-port proto svc s =
      derive_port_from_name-sanitize lib svc (info_at svc info).port s.letters s.short s.some_port
        s.port_bound

  not_empty : (s : Text) → s ≢ [] → is_empty s ≡ false
  not_empty [] h = absurd (h refl)
  not_empty (c ∷ s) h = refl

  module _ (ax : HasDigest lib) (codec : Codec) (keys : List Text) (a : Artifacts) (svc : Text)
      (listed : In svc keys) (served : IsServed svc) where
    kube_name-nonempty :
        (proto : Transport) → is_empty (kube_name lib net proto namespace info svc) ≡ false
    kube_name-nonempty proto = not_empty _ (sanitize_resource_name-IsK8sName lib ax _).nonempty

    -- A UDP router, whose service is among those that artifacts were built for, becomes a route to
    -- the Service of that service, at the port of the service.
    pub udp_route_port :
        build_kube_artifacts lib net udp namespace info keys no_artifacts ≡ ok a
        → (name : Text) (r : Fields) → text_at (codes "service") r ≡ svc
        → svc ≢ []
        → udp_router_object lib codec namespace name a.name_map r
          ≡ ok (
              route_object lib (codes "IngressRouteUDP") namespace name (entry_points r) (
                literal (
                  (
                    codes "services",
                    arr (
                        cons
                          (svc_entry
                            (kube_name lib net udp namespace info svc)
                            (info_at svc info).port)
                          nil),
                  )
                  ∷ [])))
    unfolding udp_router_object
    udp_route_port built name r same ne = rw (
      same,
      not_empty svc ne,
      name_made lib net udp namespace info svc keys no_artifacts a listed built,
      kube_name-nonempty udp,
      kube_name-port udp svc served,
    )
