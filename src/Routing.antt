-- ===== src/Routing.antt =====
-- internal/transform/routing/routing.go: from a router to an IngressRoute.
pub mod Laws
pub mod Mirror
use pangolin_kube_controller.Prelude.{
  ℕ, ◌/◌, ◌^◌, Bool, true, false, not, ◌&&◌, ◌||◌, Option, none, some, List, [], ◌∷◌, ◌==◌,
  if◌then◌else◌, or_else, is_empty,
}
use pangolin_kube_controller.Text.{Text, codes, trim_space, join}
use pangolin_kube_controller.Result.{
  Result, ok, err, ◌>>=◌, missing_rule_and_service, missing_rule, missing_service,
}
use pangolin_kube_controller.Json.{
  Value, null, num, str, arr, obj, Items, nil, cons, Fields, end, Number, Codec, get, put, as_str,
  as_arr, as_obj, as_num, fields_of, unmarshal_map, literal, strings, str_items,
}
use pangolin_kube_controller.Sanitize.Config.{Raw}

abbrev pub ingress_class_annotation : Text
ingress_class_annotation = codes "traefikconfig.ingress.kubernetes.io/router.ingressclass"

abbrev pub router_entry_points_annotation : Text
router_entry_points_annotation = codes "traefikconfig.ingress.kubernetes.io/router.entrypoints"

pub record RouterConfig : Type 0 where
  pub namespace : Text
  pub managed_label_key : Text
  pub managed_label_value : Text
  pub managed_anno_key : Text
  pub managed_anno_value : Text
  pub ingress_class : Text

-- parseEntryPointsFromInterface and parseEntryPointsFromStrings: trimmed, and not empty. A list of
-- strings and a list of values that are strings are the same value here.
unfoldable pub parse_entry_points : List Text → List Text
parse_entry_points [] = []
parse_entry_points (s ∷ ss) =
    let rest = parse_entry_points ss in
    let t = trim_space s in if is_empty t then rest else t ∷ rest

-- extractEntryPoints; `none` is the nil slice.
unfoldable pub extract_entry_points : Fields → Option (List Text)
unfolding parse_entry_points
extract_entry_points spec = elim (as_arr (get (codes "entryPoints") spec)) [
  | none ↦ none
  | some v ↦ some (parse_entry_points (strings v))
]

-- The annotations of `meta`, with one more.
abbrev pub with_annotation : Text → Text → Fields → Fields
with_annotation key value meta =
    put (codes "annotations")
      (obj (put key (str value) (or_else (as_obj (get (codes "annotations") meta)) end))) meta

-- The rest of `AnnotateRouterEntryPointsIfPresent` for the entry points of the spec.
abbrev pub annotate_entry_points : List Text → Fields → Fields
annotate_entry_points [] meta = meta
annotate_entry_points (e ∷ es) meta =
    with_annotation router_entry_points_annotation (join (codes ",") (e ∷ es)) meta

-- AnnotateRouterEntryPointsIfPresent: the new `meta` of the object `u`.
unfoldable pub annotate_router_entry_points_if_present : Fields → Fields → Fields
unfolding extract_entry_points
annotate_router_entry_points_if_present u meta = elim (as_obj (get (codes "spec") u)) [
  | none ↦ meta
  | some spec ↦ annotate_entry_points (or_else (extract_entry_points spec) []) meta
]

-- parseMiddlewares
unfoldable pub parse_middlewares : Fields → List Text
parse_middlewares r = strings (or_else (as_arr (get (codes "middlewares") r)) nil)

abbrev middleware_refs : List Text → Items
middleware_refs [] = nil
middleware_refs (mw ∷ mws) =
    cons (obj (literal ((codes "name", str mw) ∷ []))) (middleware_refs mws)

-- `priorityVal != 0`, for a number that is 0 where the router has none
abbrev pub has_priority : Option Number → Bool
has_priority none = false
has_priority (some n) = not (n.digits == 0)

-- int(priorityVal)
abbrev pub truncated : Option Number → Number
truncated none = record { negative = false; digits = 0; scale = 0 }
truncated (some n) =
    let whole = n.digits / 10 ^ n.scale in
    record { negative = n.negative && not (whole == 0); digits = whole; scale = 0 }

abbrev route_services : Text → Value
route_services service_name = arr (
    cons
      (obj (
        literal
          ((codes "name", str service_name) ∷ (codes "kind", str (codes "TraefikService")) ∷ [])))
      nil)

-- buildRoute
unfoldable pub build_route : Text → Text → List Text → Option Number → Fields
build_route rule service_name mws priority =
    let route = literal (
      (codes "match", str rule)
      ∷ (codes "kind", str (codes "Rule"))
      ∷ (codes "services", route_services service_name)
      ∷ []) in
    let with_mws =
      if is_empty mws then route else put (codes "middlewares") (arr (middleware_refs mws)) route in
    if has_priority priority
    then put (codes "priority") (num (truncated priority)) with_mws
    else with_mws

-- The value of a []string: a nil slice is null.
abbrev pub slice_value : Option (List Text) → Value
slice_value none = null
slice_value (some ss) = arr (str_items ss)

-- The first part of `TransformRouterToIngressRoute`: the metadata.
unfoldable pub router_metadata : Text → RouterConfig → Fields
router_metadata name cfg =
    let label_key = trim_space cfg.managed_label_key in
    let anno_key = trim_space cfg.managed_anno_key in
    let meta = literal ((codes "name", str name) ∷ (codes "namespace", str cfg.namespace) ∷ []) in
    let labelled =
      if is_empty label_key
      then meta
      else put (codes "labels") (obj (literal ((label_key, str cfg.managed_label_value) ∷ [])))
          meta in
    let managed =
      if is_empty anno_key
      then labelled
      else with_annotation anno_key cfg.managed_anno_value labelled in
    if is_empty cfg.ingress_class
    then managed
    else with_annotation ingress_class_annotation cfg.ingress_class managed

-- `spec` of the object
unfoldable pub router_spec : Fields → Text → Text → Fields
unfolding build_route parse_middlewares
router_spec r rule service_name =
    let route =
      build_route rule service_name (parse_middlewares r) (as_num (get (codes "priority") r)) in
    let spec = literal (
      (codes "entryPoints", slice_value (extract_entry_points r))
      ∷ (codes "routes", arr (cons (obj route) nil))
      ∷ []) in
    elim (as_obj (get (codes "tls") r)) [
      | none ↦ spec
      | some end ↦ spec
      | some tls ↦ put (codes "tls") (obj tls) spec
    ]

-- The object of a decoded router.
unfoldable pub router_object : Text → RouterConfig → Fields → Result Fields
unfolding router_spec router_metadata annotate_router_entry_points_if_present
router_object name cfg r =
    let rule = or_else (as_str (get (codes "rule") r)) [] in
    let service_name = or_else (as_str (get (codes "service") r)) [] in
    let spec = router_spec r rule service_name in
    let u = λ (meta : Fields). literal (
      (codes "apiVersion", str (codes "traefik.io/v1alpha1"))
      ∷ (codes "kind", str (codes "IngressRoute"))
      ∷ (codes "metadata", obj meta)
      ∷ (codes "spec", obj spec)
      ∷ []) in
    let meta = router_metadata name cfg in
    if is_empty rule && is_empty service_name
    then err missing_rule_and_service
    else if is_empty rule
    then err missing_rule
    else if is_empty service_name
    then err missing_service
    else ok (u (annotate_router_entry_points_if_present (u meta) meta))

module _ (codec : Codec) where
  -- TransformRouterToIngressRoute
  unfoldable pub transform_router_to_ingress_route : Text → Raw → RouterConfig → Result Fields
  unfolding router_object
  transform_router_to_ingress_route name raw cfg = do
    v ← unmarshal_map codec raw
    router_object name cfg (fields_of v)
