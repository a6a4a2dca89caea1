-- ===== src/Examples/Data.antt =====
-- What the examples share: the libraries, a codec, a configuration and servers.
use pangolin_kube_controller.Sanitize.References.{
  sanitize_middleware_raw, sanitize_raw, sanitize_service_raw, sanitize_router_raw,
}
use pangolin_kube_controller.Maps.{sort_keys, lookup, insert}
use pangolin_kube_controller.Prelude.{
  ℕ, ◌*◌, ◌≡◌, refl, ◌&&◌, arith, Bool, true, false, none, some, List, [], ◌∷◌, All, pos,
  if◌then◌else◌,
}
use pangolin_kube_controller.Text.{Text, codes, text_eq, trim, lower_rune}
use pangolin_kube_controller.Json.{Value, str, obj, arr, nil, cons, literal, Codec}
use pangolin_kube_controller.Kube.{Object, Api, answer, refused}
use pangolin_kube_controller.Result.{ok, not_found}
use pangolin_kube_controller.Sanitize.Config.{TraefikConfig, sanitize_traefik_config}
use pangolin_kube_controller.Config.{Config}
use pangolin_kube_controller.Sanitize.Name.{NameLib, HasDigest, is_hex, sanitize_resource_name}
use pangolin_kube_controller.Protocol.Servers.{NetLib, Url, ipv4, address_ipv4}
use pangolin_kube_controller.Protocol.TcpUdp.{Service, EndpointSlice}

-- The digest of every text.
abbrev pub digest : Text
digest = codes "0123456789abcdef0123456789abcdef0123456789abcdef0123456789abcdef"

abbrev pub lib : NameLib
lib = record { lower_beyond = λ c. c; sha256_hex = λ s. digest }

abbrev all_hex : Text → Bool
all_hex [] = true
all_hex (c ∷ s) = is_hex c && all_hex s

hex_of_All : (s : Text) → all_hex s ≡ true → All (λ r. is_hex r ≡ true) s
hex_of_All [] h = tt
hex_of_All (c ∷ s) h = (ground arith, hex_of_All s (ground arith))

pub lib-HasDigest : HasDigest lib
lib-HasDigest = record { digits = λ s. refl; hex = λ s. hex_of_All digest refl }

abbrev pub url_at : Text → Text → Text → Text → Url
url_at scheme host hostname port = record {
  scheme = scheme;
  host = host;
  hostname = hostname;
  port = port;
  path = [];
  raw_query = [];
}

abbrev pub service_url : Url
service_url =
    url_at (codes "http") (codes "web.shop.svc:8080") (codes "web.shop.svc") (codes "8080")

abbrev pub net : NetLib
net = record {
  parse_url = λ s. none;
  parse_request_uri =
      λ s. if text_eq s (codes "http://web.shop.svc:8080") then some service_url else none;
  split_host_port = λ s.
      if text_eq s (codes "10.0.0.1:5432") then some (codes "10.0.0.1", codes "5432") else none;
  parse_ip = λ s. if text_eq s (codes "10.0.0.1") then some ipv4 else none;
}

-- A router, a TCP service and an object without a field; every value is printed as "{}".
abbrev pub router_raw : Text
router_raw = codes "{\"rule\":\"Host(`a`)\",\"service\":\"Web App\"}"

abbrev pub tcp_raw : Text
tcp_raw = codes "{\"loadBalancer\":{\"servers\":[{\"address\":\"10.0.0.1:5432\"}]}}"

abbrev pub router_value : Value
router_value = obj (
    literal
      ((codes "rule", str (codes "Host(`a`)")) ∷ (codes "service", str (codes "Web App")) ∷ []))

abbrev pub tcp_server : Value
tcp_server = obj (literal ((codes "address", str (codes "10.0.0.1:5432")) ∷ []))

abbrev pub tcp_value : Value
tcp_value = obj (
    literal (
      (codes "loadBalancer", obj (literal ((codes "servers", arr (cons tcp_server nil)) ∷ [])))
      ∷ []))

abbrev pub codec : Codec
codec = record {
  decode = λ s.
      if text_eq s router_raw
      then some router_value
      else if text_eq s tcp_raw
      then some tcp_value
      else some (obj (literal []));
  encode = λ v. some (codes "{}");
}

abbrev pub second : ℕ
second = 1000000000

abbrev pub cfg : Config
cfg = record {
  poll_interval = pos (30 * second);
  endpoint = codes "https://pangolin/api/v1/traefik-config";
  namespace = codes "pangolin";
  max_backoff = pos (300 * second);
  leader_enabled = true;
  lease_lock_name = codes "leader";
  lease_lock_namespace = codes "pangolin";
  lease_duration = pos (15 * second);
  renew_deadline = pos (10 * second);
  retry_period = pos (2 * second);
  read_only = false;
  standalone_http_only = false;
  log_traefik_config = false;
  log_config_preview = true;
  on_lose_behavior = codes "exit";
  max_config_log_bytes = pos 1000;
  ingress_class = codes "traefik";
  ingress_class_provided = false;
  managed_anno_key = codes "pangolin.io/managed-by";
  managed_anno_value = codes "pangolin";
  managed_label_key = codes "app.kubernetes.io/managed-by";
  managed_label_value = codes "pangolin";
  ssa_force = true;
  traefik_instance_label_key = [];
  traefik_instance_label_value = [];
  ingress_class_label_verify_interval = pos 0;
  ingress_class_label_strict = false;
  config_file = [];
  fetch_timeout = pos (30 * second);
  fetch_log_interval = pos (60 * second);
  auth_header = codes "Bearer x";
  ca_file = [];
  client_cert_file = [];
  client_key_file = [];
  tls_skip_verify = false;
  max_response_body_bytes = pos 52428800;
  http_max_idle_conns = pos 100;
  http_max_idle_conns_per_host = pos 100;
  http_idle_conn_timeout = pos (90 * second);
  client_burst = pos 0;
  allow_insecure_http = false;
  reconcile_parallel = false;
  reconcile_max = pos 4;
  gc_workers = pos 2;
  gc_grace_period = pos 0;
  gc_grace_queue_size = pos 256;
  traefik_lb_url = [];
  traefik_lb_ip = [];
  traefik_lb_scheme = codes "http";
  traefik_lb_port = codes "80";
  gateway_service_name = [];
  gateway_service_port = pos 3002;
  metrics_addr = codes ":9090";
  disable_livez = false;
  enable_pprof = false;
  metrics_tls_cert_file = [];
  metrics_tls_key_file = [];
  metrics_plaintext_ok = false;
  metrics_read_header_timeout = pos (3 * second);
  certificate_secrets = [];
}

abbrev pub managed : List (Text × Text)
managed = (codes "pangolin.io/managed-by", codes "pangolin") ∷ []

abbrev pub stale_object : Object
stale_object = record { name = codes "old"; labels = none; annotations = some managed }

abbrev pub stale_service : Service
stale_service = record {
  namespace = codes "pangolin";
  name = codes "old";
  labels = none;
  annotations = some managed;
  spec = record { cluster_ip = codes "None"; ports = [] };
}

abbrev pub stale_slice : EndpointSlice
stale_slice = record {
  namespace = codes "pangolin";
  name = codes "old-eps";
  labels = none;
  annotations = some managed;
  address_type = address_ipv4;
  endpoints = [];
  ports = [];
}

-- A server that lists one stale object of each kind, has no other object, and carries out every
-- call.
abbrev pub server : Api
server = record {
  object = λ h r n. refused not_found;
  objects = λ h r selector. answer (stale_object ∷ []);
  service = λ h n. refused not_found;
  services = λ h selector. answer (stale_service ∷ []);
  slice = λ h n. refused not_found;
  slices = λ h selector. answer (stale_slice ∷ []);
  done = λ h c. answer tt;
  cancelled = λ h. false;
}

-- The same server, which refuses every change.
abbrev pub server_refusing : Api
server_refusing = record server { done = λ h c. refused not_found }

-- A configuration with a router, its service and a middleware, and a TCP service.
abbrev pub config : TraefikConfig
config = record {
  http = record {
    middlewares = some ((codes "Auth", codes "{}") ∷ []);
    routers = some ((codes "Web Router", router_raw) ∷ []);
    services = some ((codes "Web App", codes "{}") ∷ []);
    servers_transports = none;
  };
  tcp = some (record {
    routers = none;
    services = some ((codes "Db", tcp_raw) ∷ []);
    servers_transports = none;
  });
  udp = none;
}

abbrev pub sanitized_config : TraefikConfig
sanitized_config = record {
  http = record {
    middlewares = some ((codes "auth", codes "{}") ∷ []);
    routers = some ((codes "web-router", codes "{}") ∷ []);
    services = some ((codes "web-app", codes "{}") ∷ []);
    servers_transports = some [];
  };
  tcp = none;
  udp = none;
}

pub config_sanitized : sanitize_traefik_config lib codec (some config) ≡ ok (some sanitized_config)
unfolding sanitize_traefik_config sort_keys sanitize_middleware_raw sanitize_raw lookup text_eq
    sanitize_service_raw sanitize_router_raw insert sanitize_resource_name trim lower_rune
config_sanitized = refl
