-- ===== src/Protocol/Conversion/Rewrite.antt =====
-- internal/transform/protocol/http_conversion.go: the rewriting of load balancers, and the filling of
-- empty services.
pub mod Converted
use pangolin_kube_controller.Prelude.{
  ℕ, Bool, false, not, ◌&&◌, ◌||◌, Option, none, some, [], ◌∷◌, ◌++◌, is_empty, if◌then◌else◌, ◌==◌,
}
use pangolin_kube_controller.Text.{Text, codes, text_eq, trim_space}
use pangolin_kube_controller.Result.{Result, ok, err}
use pangolin_kube_controller.Maps.{GoMap, Map}
use pangolin_kube_controller.Json.{
  Value, str, obj, arr, nil, cons, Fields, Codec, get, put, remove, size, as_arr, as_obj, literal,
  number, int_number, values, fields_of, unmarshal_map, marshal_value,
}
use pangolin_kube_controller.Sanitize.Config.{Raw}
use pangolin_kube_controller.Protocol.Servers.{Url, NetLib}
use pangolin_kube_controller.Config.{Config}
use pangolin_kube_controller.Protocol.Conversion.Targets.{
  KubeServiceTarget, is_http, extract_lb_servers, find_target,
}

-- getTraefikEnvURL
unfoldable pub get_traefik_env_url : Config → Text
get_traefik_env_url cfg =
    let url = cfg.traefik_lb_scheme ++ (codes "://" ++ cfg.traefik_lb_ip) in
    if not (is_empty cfg.traefik_lb_url)
    then cfg.traefik_lb_url
    else if is_empty cfg.traefik_lb_ip
    then []
    else if is_empty cfg.traefik_lb_port
    then url
    else url ++ (codes ":" ++ cfg.traefik_lb_port)

-- isEmptyLoadBalancer
unfoldable pub is_empty_load_balancer : Fields → Bool
is_empty_load_balancer spec = elim (as_obj (get (codes "loadBalancer") spec)) [
  | none ↦ false
  | some lb ↦ elim (as_arr (get (codes "servers") lb)) [
    | none ↦ false
    | some servers ↦ size spec == 1 && size lb == 1 && is_empty (values servers)
  ]
]

-- A weighted spec with one service in the place of the load balancer.
abbrev pub weighted_spec : Fields → Fields → Fields
weighted_spec entry spec = remove (codes "loadBalancer") (
    put (codes "weighted") (obj (literal ((codes "services", arr (cons (obj entry) nil)) ∷ [])))
      spec)

abbrev pub service_entry : Text → Text → Value → Fields
service_entry name namespace port = literal (
    (codes "name", str name)
    ∷ (codes "namespace", str namespace)
    ∷ (codes "kind", str (codes "Service"))
    ∷ (codes "port", port)
    ∷ [])

abbrev pub target_entry : KubeServiceTarget → Fields
target_entry t =
    let entry = service_entry t.name t.namespace (number t.port) in
    if text_eq t.scheme (codes "https")
    then put (codes "scheme") (str (codes "https")) entry
    else entry

-- rewriteAsGatewayService: the new spec, if it is rewritten
unfoldable pub rewrite_as_gateway_service : Config → Fields → Option Fields
rewrite_as_gateway_service cfg spec =
    if is_empty cfg.gateway_service_name || is_empty cfg.namespace
    then none
    else some (
        weighted_spec
          (service_entry cfg.gateway_service_name cfg.namespace
            (int_number cfg.gateway_service_port))
          spec)

module _ (net : NetLib) where
  abbrev pub converted : Fields → Option KubeServiceTarget → Option Fields
  converted spec none = none
  converted spec (some t) = some (weighted_spec (target_entry t) spec)

  -- convertLoadBalancerToK8sService: the new spec, if it is converted
  unfoldable pub convert_load_balancer_to_k8s_service : Config → Fields → Option Fields
  unfolding find_target extract_lb_servers
  convert_load_balancer_to_k8s_service cfg spec = elim (extract_lb_servers spec) [
    | none ↦ none
    | some servers ↦ converted spec (find_target net cfg.namespace servers)
  ]

module _ (net : NetLib) (codec : Codec) (cfg : Config) where
  abbrev or_raw : Raw → Result Text → Raw
  or_raw raw (ok b) = b
  or_raw raw (err e) = raw

  -- What `processNonEmptyService` makes of a decoded spec, if it rewrites it.
  unfoldable pub rewritten_spec : Fields → Option Fields
  unfolding convert_load_balancer_to_k8s_service is_empty_load_balancer rewrite_as_gateway_service
  rewritten_spec spec = elim (convert_load_balancer_to_k8s_service net cfg spec) [
    | some new ↦ some new
    | none ↦ if is_empty_load_balancer spec then rewrite_as_gateway_service cfg spec else none
  ]

  abbrev printed : Raw → Option Fields → Raw
  printed raw none = raw
  printed raw (some spec) = or_raw raw (marshal_value codec (obj spec))

  abbrev of_decoded : Raw → Result Value → Raw
  of_decoded raw (err e) = raw
  of_decoded raw (ok v) = printed raw (rewritten_spec (fields_of v))

  -- processNonEmptyService
  unfoldable pub process_non_empty_service : Raw → Raw
  unfolding rewritten_spec
  process_non_empty_service raw = of_decoded raw (unmarshal_map codec raw)

  -- buildTraefikServiceSpec
  unfoldable pub build_traefik_service_spec : Text → Raw
  build_traefik_service_spec url =
      let server = obj (literal ((codes "url", str url) ∷ [])) in
      or_raw (codes "{}") (
        marshal_value codec (
          obj (
            literal (
              (codes "loadBalancer", obj (literal ((codes "servers", arr (cons server nil)) ∷ [])))
              ∷ []))))

  abbrev filled : Raw → Text → Option Url → Raw
  filled raw url none = raw
  filled raw url (some parsed) =
      if not (is_empty parsed.host) && is_http parsed then build_traefik_service_spec url else raw

  -- processEmptyService
  unfoldable pub process_empty_service : Raw → Raw
  unfolding build_traefik_service_spec get_traefik_env_url
  process_empty_service raw =
      let url = get_traefik_env_url cfg in
      if is_empty url then raw else filled raw url (net.parse_request_uri url)

  -- processSingleService
  unfoldable pub process_single_service : Raw → Raw
  unfolding process_non_empty_service process_empty_service
  process_single_service raw =
      let trim = trim_space raw in
      if not (is_empty trim) && not (text_eq trim (codes "{}"))
      then process_non_empty_service raw
      else process_empty_service raw

  unfoldable pub process_all : Map Raw → Map Raw
  unfolding process_single_service
  process_all [] = []
  process_all ((name, raw) ∷ services) = (name, process_single_service raw) ∷ process_all services

  -- ProcessServices
  unfoldable pub process_services : GoMap Raw → GoMap Raw
  unfolding process_all
  process_services none = none
  process_services (some services) = some (process_all services)
