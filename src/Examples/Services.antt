-- ===== src/Examples/Services.antt =====
-- The services and routes of TCP, UDP and HTTP at concrete inputs.
use pangolin_kube_controller.Text.Decimal.{parse_int, format}
use pangolin_kube_controller.Prelude.{
  Option, ◌≡◌, ◌≢◌, ◌<◌, ◌≤◌, refl, arith, none, some, List, [], ◌∷◌,
}
use pangolin_kube_controller.Text.{
  codes, text_eq, has_prefix, trim_space, trim, lower_rune, contains, has_suffix, split,
}
use pangolin_kube_controller.Result.{Result, ok, err}
use pangolin_kube_controller.Maps.{Map, lookup, insert}
use pangolin_kube_controller.Json.{
  get, Value, str, obj, arr, nil, cons, Fields, end, literal, values, size,
}
use pangolin_kube_controller.Sanitize.Name.{build_base_name, sanitize_resource_name}
use pangolin_kube_controller.Protocol.Ports.{
  derive_port_from_name, name_with_port, parse_port32, set_or_validate_port,
}
use pangolin_kube_controller.Protocol.Ports.RoundTrip.{base, derive_port_from_name-sanitize}
use pangolin_kube_controller.Protocol.Servers.{
  address_ipv4, choose_address_type, extract_lb_addresses_port, server_address, pick_server_address,
  split_host_port_flexible,
}
use pangolin_kube_controller.Protocol.Servers.Laws.{AllAt, Servers, extract_sound, extract_complete}
use pangolin_kube_controller.Protocol.Servers.Families.{Chosen, choose_address_type-Chosen}
use pangolin_kube_controller.Protocol.TcpUdp.{
  Transport, tcp, udp, SvcInfo, Artifacts, no_artifacts, build_headless_service,
  build_kube_artifacts, build_endpoint_slice,
}
use pangolin_kube_controller.Protocol.TcpUdp.Pairing.{Paired, artifacts-Paired}
use pangolin_kube_controller.Protocol.Conversion.Targets.{
  KubeServiceTarget, parse_uniform_service_targets,
}
use pangolin_kube_controller.Protocol.Conversion.Rewrite.{convert_load_balancer_to_k8s_service}
use pangolin_kube_controller.Protocol.Conversion.Rewrite.Converted.{
  Converts, convert_load_balancer-Converts,
}
use pangolin_kube_controller.Routing.{router_object}
use pangolin_kube_controller.Controller.Routers.{router_cfg}
use pangolin_kube_controller.Examples.Data.{lib, net, codec, cfg, tcp_raw, tcp_server}

base_found : base lib (codes "Db") 5432 ≡ codes "db"
unfolding build_base_name lower_rune
base_found = refl

base_nonempty : base lib (codes "Db") 5432 ≢ []
base_nonempty = λ e. cc (base_found, e)

derive_port_from_name-sanitize_example :
    derive_port_from_name (sanitize_resource_name lib (name_with_port (codes "Db") 5432)) ≡ ok 5432
derive_port_from_name-sanitize_example =
    derive_port_from_name-sanitize lib (codes "Db") 5432 base_nonempty (omega arith) (omega arith)
      (omega arith)

extracted : extract_lb_addresses_port net codec tcp_raw ≡ ok (codes "10.0.0.1" ∷ [], 5432)
unfolding extract_lb_addresses_port text_eq get values server_address pick_server_address
    split_host_port_flexible has_prefix trim_space parse_port32 parse_int set_or_validate_port
extracted = refl

extract_sound_example :
    (srvs : List Value) × Servers net codec tcp_raw srvs
    × AllAt net 5432 srvs (codes "10.0.0.1" ∷ [])
    × (0 < 5432)
    × (5432 ≤ 65535)
extract_sound_example = extract_sound net codec tcp_raw extracted

tcp-Servers : Servers net codec tcp_raw (tcp_server ∷ [])
unfolding extract_lb_addresses_port text_eq get values
tcp-Servers = (_, refl, refl)

tcp-AllAt : AllAt net 5432 (tcp_server ∷ []) (codes "10.0.0.1" ∷ [])
unfolding extract_lb_addresses_port server_address pick_server_address get text_eq
    split_host_port_flexible has_prefix trim_space parse_port32 parse_int
tcp-AllAt = (refl, tt)

extract_complete_example :
    extract_lb_addresses_port net codec tcp_raw ≡ ok (codes "10.0.0.1" ∷ [], 5432)
extract_complete_example =
    extract_complete net codec tcp_raw (tcp_server ∷ []) (codes "10.0.0.1" ∷ []) 5432 tcp-Servers
      tcp-AllAt

choose_address_type-Chosen_example :
    Chosen net
      (codes "10.0.0.1" ∷ codes "db.example" ∷ [])
      (choose_address_type net (codes "10.0.0.1" ∷ codes "db.example" ∷ []))
choose_address_type-Chosen_example =
    choose_address_type-Chosen net (codes "10.0.0.1" ∷ codes "db.example" ∷ [])

abbrev info : Map SvcInfo
info = (codes "Db", record { port = 5432; hosts = codes "10.0.0.1" ∷ []; transport = [] }) ∷ []

abbrev artifacts : Transport → Artifacts
artifacts proto = record {
  name_map = (codes "Db", codes "db-5432") ∷ [];
  svcs = build_headless_service (codes "pangolin") (codes "db-5432") 5432 proto ∷ [];
  slices =
      record {
        namespace = codes "pangolin";
        name = codes "db-5432-eps";
        labels = none;
        annotations = none;
        address_type = address_ipv4;
        endpoints = (codes "10.0.0.1" ∷ []) ∷ [];
        ports = (5432, proto) ∷ [];
      }
      ∷ [];
}

tcp_built :
    build_kube_artifacts lib net tcp (codes "pangolin") info (codes "Db" ∷ []) no_artifacts
    ≡ ok (artifacts tcp)
unfolding build_kube_artifacts build_endpoint_slice choose_address_type lookup text_eq insert
    sanitize_resource_name trim name_with_port lower_rune format
tcp_built = refl

udp_built_test :
    build_kube_artifacts lib net udp (codes "pangolin") info (codes "Db" ∷ []) no_artifacts
    ≡ ok (artifacts udp)
unfolding build_kube_artifacts build_endpoint_slice choose_address_type lookup text_eq insert
    sanitize_resource_name trim name_with_port lower_rune format
udp_built_test = refl

artifacts-Paired_example :
    Paired lib net tcp
      (codes "pangolin")
      info
      (codes "Db" ∷ [])
      (artifacts tcp).svcs
      (artifacts tcp).slices
artifacts-Paired_example =
    artifacts-Paired lib net tcp (codes "pangolin") info (codes "Db" ∷ []) (artifacts tcp) tcp_built

abbrev db_router : Fields
db_router =
    literal ((codes "rule", str (codes "HostSNI(`*`)")) ∷ (codes "service", str (codes "Db")) ∷ [])

abbrev web_server : Value
web_server = obj (literal ((codes "url", str (codes "http://web.shop.svc:8080")) ∷ []))

abbrev web_target : KubeServiceTarget
web_target = record {
  name = codes "web";
  namespace = codes "shop";
  port = 8080;
  scheme = codes "http";
}

uniform_test : parse_uniform_service_targets net (web_server ∷ []) none ≡ some web_target
unfolding parse_uniform_service_targets size get text_eq contains has_suffix split parse_int
uniform_test = refl

abbrev web_router : Fields
web_router = literal (
    (codes "rule", str (codes "Host(`a`)"))
    ∷ (codes "service", str (codes "web"))
    ∷ (codes "entryPoints", arr (cons (str (codes " websecure ")) nil))
    ∷ [])

abbrev result_of : Result Fields → Fields
result_of (ok u) = u
result_of (err e) = end

abbrev web_route : Fields
web_route = result_of (router_object (codes "web") (router_cfg codec cfg) web_router)

web_route_test : router_object (codes "web") (router_cfg codec cfg) web_router ≡ ok web_route
unfolding router_object get text_eq
web_route_test = refl

abbrev web_spec : Fields
web_spec =
    literal (
      (codes "loadBalancer", obj (literal ((codes "servers", arr (cons web_server nil)) ∷ [])))
      ∷ [])

abbrev fields_or_end : Option Fields → Fields
fields_or_end none = end
fields_or_end (some o) = o

abbrev web_spec_converted : Fields
web_spec_converted = fields_or_end (convert_load_balancer_to_k8s_service net cfg web_spec)

web_spec_converts : convert_load_balancer_to_k8s_service net cfg web_spec ≡ some web_spec_converted
unfolding convert_load_balancer_to_k8s_service get text_eq size values contains has_suffix split
web_spec_converts = refl

convert_load_balancer-Converts_example : Converts net cfg web_spec web_spec_converted
convert_load_balancer-Converts_example =
    convert_load_balancer-Converts net cfg web_spec web_spec_converted web_spec_converts
