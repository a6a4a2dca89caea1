-- ===== src/Protocol/TcpUdp.antt =====
-- internal/transform/protocol/tcp_udp.go: Services, EndpointSlices and routes for TCP and UDP.
pub mod Routes
pub mod Pairing
pub mod Linked
use pangolin_kube_controller.Prelude.{
  ℕ, Option, none, some, List, [], ◌∷◌, ◌++◌, if◌then◌else◌, or_else, is_empty,
}
use pangolin_kube_controller.Text.{Text, codes}
use pangolin_kube_controller.Result.{Result, ok, err, ◌>>=◌}
use pangolin_kube_controller.Maps.{Map, GoMap, entries, lookup, insert, sort_keys}
use pangolin_kube_controller.Json.{Value, Codec, get, as_str, fields_of, unmarshal_map, Fields}
use pangolin_kube_controller.Sanitize.Name.{NameLib, sanitize_resource_name}
use pangolin_kube_controller.Sanitize.Config.{Raw, TraefikConfig, TcpUdpConfig}
use pangolin_kube_controller.Protocol.Ports.{name_with_port}
use pangolin_kube_controller.Protocol.Servers.{
  NetLib, AddressType, choose_address_type, extract_lb_addresses_port,
}

-- corev1.Protocol
pub data Transport : Type 0 where
  tcp udp : Transport

-- The part of corev1.ServiceSpec that the program writes.
pub record ServiceSpec : Type 0 where
  pub cluster_ip : Text
  pub ports : List (ℕ × Transport)

-- corev1.Service
pub record Service : Type 0 where
  pub namespace : Text
  pub name : Text
  pub labels : GoMap Text
  pub annotations : GoMap Text
  pub spec : ServiceSpec

-- discoveryv1.EndpointSlice; an endpoint is the list of its addresses.
pub record EndpointSlice : Type 0 where
  pub namespace : Text
  pub name : Text
  pub labels : GoMap Text
  pub annotations : GoMap Text
  pub address_type : AddressType
  pub endpoints : List (List Text)
  pub ports : List (ℕ × Transport)

-- tcpSvcInfo, and udpSvcInfo with an empty transport.
pub record SvcInfo : Type 0 where
  pub port : ℕ
  pub hosts : List Text
  pub transport : Text

unfoldable pub build_headless_service : Text → Text → ℕ → Transport → Service
build_headless_service ns name port proto = record {
  namespace = ns;
  name = name;
  labels = none;
  annotations = none;
  spec = record { cluster_ip = codes "None"; ports = (port, proto) ∷ [] };
}

-- One endpoint for each host.
unfoldable pub endpoints_of : List Text → List (List Text)
endpoints_of [] = []
endpoints_of (h ∷ hosts) = (h ∷ []) ∷ endpoints_of hosts

module _ (net : NetLib) where
  unfoldable pub build_endpoint_slice :
      Text → Text → ℕ → List Text → Transport → Result EndpointSlice
  unfolding endpoints_of
  build_endpoint_slice ns base port hosts proto = do
    address_type ← choose_address_type net hosts
    ok (record {
      namespace = ns;
      name = base ++ codes "-eps";
      labels = none;
      annotations = none;
      address_type = address_type;
      endpoints = endpoints_of hosts;
      ports = (port, proto) ∷ [];
    })

module _ (codec : Codec) where
  abbrev transport_of : Result Value → Text
  transport_of (err e) = []
  transport_of (ok v) = or_else (as_str (get (codes "serversTransport") (fields_of v))) []

  -- extractServersTransportName; "" stands for none
  unfoldable pub extract_servers_transport_name : Raw → Text
  extract_servers_transport_name raw = transport_of (unmarshal_map codec raw)

module _ (net : NetLib) (codec : Codec) where
  unfoldable pub build_tcp_service_index : Map Raw → Map SvcInfo → Result (Map SvcInfo)
  build_tcp_service_index [] out = ok out
  build_tcp_service_index ((name, raw) ∷ services) out = do
    hp ← extract_lb_addresses_port net codec raw
    build_tcp_service_index services (
        insert name
          (record {
            port = hp.1;
            hosts = hp.0;
            transport = extract_servers_transport_name codec raw;
          })
          out)

  unfoldable pub build_udp_service_index : Map Raw → Map SvcInfo → Result (Map SvcInfo)
  build_udp_service_index [] out = ok out
  build_udp_service_index ((name, raw) ∷ services) out = do
    hp ← extract_lb_addresses_port net codec raw
    build_udp_service_index services
        (insert name (record { port = hp.1; hosts = hp.0; transport = [] }) out)

-- The named results of `buildTCPKubeArtifacts` and `buildUDPKubeArtifacts`.
pub record Artifacts : Type 0 where
  pub name_map : Map Text
  pub svcs : List Service
  pub slices : List EndpointSlice

-- `info[dyn]`, the zero value for a missing name
abbrev pub info_at : Text → Map SvcInfo → SvcInfo
info_at dyn info = or_else (lookup dyn info) (record { port = 0; hosts = []; transport = [] })

module _ (lib : NameLib) (net : NetLib) (proto : Transport) (namespace : Text)
    (info : Map SvcInfo) where
  -- SanitizeResourceName(fmt.Sprintf("%s-%d", dyn, meta.port))
  abbrev pub kube_name : Text → Text
  kube_name dyn = sanitize_resource_name lib (name_with_port dyn (info_at dyn info).port)

  -- buildTCPKubeArtifacts and buildUDPKubeArtifacts, which differ in the protocol.
  unfoldable pub build_kube_artifacts : List Text → Artifacts → Result Artifacts
  build_kube_artifacts [] a = ok a
  build_kube_artifacts (dyn ∷ keys) a = do
    let meta = info_at dyn info
    slice ← build_endpoint_slice net namespace (kube_name dyn) meta.port meta.hosts proto
    build_kube_artifacts keys (record {
      name_map = insert dyn (kube_name dyn) a.name_map;
      svcs = a.svcs ++ build_headless_service namespace (kube_name dyn) meta.port proto ∷ [];
      slices = a.slices ++ slice ∷ [];
    })

abbrev pub no_artifacts : Artifacts
no_artifacts = record { name_map = []; svcs = []; slices = [] }

-- The results of `TransformTCP` and `TransformUDP`.
pub record Transformed : Type 0 where
  pub routes : List Fields
  pub svcs : List Service
  pub slices : List EndpointSlice

abbrev pub nothing_transformed : Transformed
nothing_transformed = record { routes = []; svcs = []; slices = [] }
