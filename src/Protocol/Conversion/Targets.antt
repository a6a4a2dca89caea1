-- ===== src/Protocol/Conversion/Targets.antt =====
-- internal/transform/protocol/http_conversion.go: the Service of Kubernetes that the servers of a
-- load balancer point to.
pub mod Uniform
use pangolin_kube_controller.Prelude.{
  ℕ, ℤ, Bool, true, false, not, ◌&&◌, ◌||◌, Option, none, some, List, [], ◌∷◌, ◌++◌, map, is_empty,
  is_some, if◌then◌else◌, or_else, ◌==◌, is_positive, to_ℕ,
}
use pangolin_kube_controller.Text.{Text, codes, text_eq, trim_space, contains, has_suffix, split}
use pangolin_kube_controller.Text.Decimal.{atoi}
use pangolin_kube_controller.Result.{Result, ok, err}
use pangolin_kube_controller.Maps.{GoMap, Map}
use pangolin_kube_controller.Json.{
  Value, str, obj, arr, Items, nil, cons, Fields, end, field, Codec, get, put, remove, size, as_str,
  as_arr, as_obj, literal, number, values, fields_of, unmarshal_map, marshal_value,
}
use pangolin_kube_controller.Sanitize.Config.{Raw}
use pangolin_kube_controller.Protocol.Servers.{Url, NetLib}

-- kubeServiceTarget
pub record KubeServiceTarget : Type 0 where
  pub name : Text
  pub namespace : Text
  pub port : ℕ
  pub scheme : Text

-- kubeServiceTarget.equals, of two targets that are there
unfoldable pub equals : KubeServiceTarget → KubeServiceTarget → Bool
equals t other =
    text_eq t.name other.name
    && text_eq t.namespace other.namespace
    && t.port == other.port
    && text_eq t.scheme other.scheme

-- The port that `derivePort` reads, if it is a positive number.
abbrev positive_port : Option ℤ → Option ℕ
positive_port none = none
positive_port (some n) = if is_positive n then some (to_ℕ n) else none

-- derivePort
unfoldable pub derive_port : Url → ℕ
derive_port parsed =
    or_else (positive_port (atoi parsed.port))
      (if text_eq parsed.scheme (codes "https") then 443 else 80)

abbrev pub is_http : Url → Bool
is_http u = text_eq u.scheme (codes "http") || text_eq u.scheme (codes "https")

-- validateParsedServiceURL: whether there is no error
unfoldable pub validate_parsed_service_url : Url → Bool
validate_parsed_service_url parsed =
    is_http parsed
    && (is_empty parsed.path || text_eq parsed.path (codes "/"))
    && is_empty parsed.raw_query
    && not (is_empty parsed.hostname)
    && (contains parsed.hostname (codes ".svc.") || has_suffix parsed.hostname (codes ".svc"))

-- The labels of the host of a Service: a name, a namespace and `svc`.
abbrev target_of_parts : Url → List Text → Option KubeServiceTarget
target_of_parts parsed (name ∷ namespace ∷ svc ∷ rest) =
    if not (is_empty name) && not (is_empty namespace) && text_eq svc (codes "svc")
    then some (record {
      name = name;
      namespace = namespace;
      port = derive_port parsed;
      scheme = parsed.scheme;
    })
    else none
target_of_parts parsed _ = none

unfoldable pub target_of_url : Url → Option KubeServiceTarget
unfolding derive_port validate_parsed_service_url
target_of_url parsed =
    if validate_parsed_service_url parsed
    then target_of_parts parsed (split b'.' parsed.hostname)
    else none

-- extractLBServers: the only key is `loadBalancer`, whose only key is `servers`.
unfoldable pub extract_lb_servers : Fields → Option (List Value)
extract_lb_servers spec = elim (as_obj (get (codes "loadBalancer") spec)) [
  | none ↦ none
  | some lb ↦ elim (as_arr (get (codes "servers") lb)) [
    | none ↦ none
    | some servers ↦
        if size spec == 1 && not (is_empty (values servers)) && size lb == 1
        then some (values servers)
        else none
  ]
]

-- The text of `url` of a server; "" where it has none.
abbrev pub server_url : Value → Text
server_url (obj srv) = or_else (as_str (get (codes "url") srv)) []
server_url _ = []

module _ (net : NetLib) where
  abbrev target_of_parsed : Option Url → Option KubeServiceTarget
  target_of_parsed none = none
  target_of_parsed (some u) = target_of_url u

  -- parseKubeServiceURL
  unfoldable pub parse_kube_service_url : Text → Option KubeServiceTarget
  unfolding target_of_url
  parse_kube_service_url raw = target_of_parsed (net.parse_request_uri raw)

  -- The target of a server: an object whose only key is `url`.
  unfoldable pub server_target : Value → Option KubeServiceTarget
  unfolding parse_kube_service_url
  server_target (obj srv) =
      if size srv == 1 && not (is_empty (server_url (obj srv)))
      then parse_kube_service_url (server_url (obj srv))
      else none
  server_target _ = none

  -- The step of the loop of `parseUniformServiceTargets`
  abbrev same_target :
      Option KubeServiceTarget → Option KubeServiceTarget → Option (Option KubeServiceTarget)
  same_target target none = none
  same_target none (some parsed) = some (some parsed)
  same_target (some t) (some parsed) = if equals t parsed then some (some t) else none

  abbrev then_rest :
      Option (Option KubeServiceTarget)
      → (Option KubeServiceTarget → Option KubeServiceTarget)
      → Option KubeServiceTarget
  then_rest none f = none
  then_rest (some t) f = f t

  -- parseUniformServiceTargets, with the target that the servers before have
  unfoldable pub parse_uniform_service_targets :
      List Value → Option KubeServiceTarget → Option KubeServiceTarget
  unfolding server_target equals
  parse_uniform_service_targets [] target = target
  parse_uniform_service_targets (srv ∷ servers) target =
      then_rest (same_target target (server_target srv)) (parse_uniform_service_targets servers)

  abbrev qualified : Text → Url → Text
  qualified namespace u =
      let fqdn = u.hostname ++ (codes "." ++ (namespace ++ codes ".svc")) in
      u.scheme ++ (codes "://" ++ (if is_empty u.port then fqdn else fqdn ++ (codes ":" ++ u.port)))

  -- A server of `rewriteShortNameHosts`: none where the function gives up.
  abbrev rewritten_server : Text → Fields → Option Url → Option (Value × Bool)
  rewritten_server namespace srv none = none
  rewritten_server namespace srv (some u) =
      if is_empty u.hostname || contains u.hostname (codes ".")
      then some (obj srv, false)
      else some (obj (put (codes "url") (str (qualified namespace u)) srv), true)

  unfoldable pub rewrite_server : Text → Value → Option (Value × Bool)
  rewrite_server namespace (obj srv) =
      if is_empty (server_url (obj srv))
      then none
      else rewritten_server namespace srv (net.parse_request_uri (server_url (obj srv)))
  rewrite_server namespace _ = none

  abbrev add_server :
      Option (Value × Bool) → Option (List Value × Bool) → Option (List Value × Bool)
  add_server (some (v, changed)) (some (vs, any)) = some (v ∷ vs, changed || any)
  add_server _ _ = none

  -- rewriteShortNameHosts: the servers, and whether one of them is changed. The program changes
  -- them in place, which shows only where the whole list is rewritten.
  unfoldable pub rewrite_short_name_hosts : Text → List Value → Option (List Value × Bool)
  unfolding rewrite_server
  rewrite_short_name_hosts namespace [] = some ([], false)
  rewrite_short_name_hosts namespace (srv ∷ servers) =
      add_server (rewrite_server namespace srv) (rewrite_short_name_hosts namespace servers)

  abbrev pub retry_targets : Option (List Value × Bool) → Option KubeServiceTarget
  retry_targets (some (servers, true)) = parse_uniform_service_targets servers none
  retry_targets _ = none

  -- The target of the servers, at once or with the short names qualified.
  unfoldable pub find_target : Text → List Value → Option KubeServiceTarget
  unfolding parse_uniform_service_targets rewrite_short_name_hosts
  find_target namespace servers =
      let again =
        if is_empty namespace
        then none
        else retry_targets (rewrite_short_name_hosts namespace servers) in
      elim (parse_uniform_service_targets servers none) [ some t ↦ some t | none ↦ again ]
