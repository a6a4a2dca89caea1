-- ===== src/Sanitize/References.antt =====
-- internal/transform/sanitize/sanitize.go: the references to other objects inside an object.
use pangolin_kube_controller.Prelude.{if◌then◌else◌, or_else, is_empty}
use pangolin_kube_controller.Text.{Text, codes}
use pangolin_kube_controller.Result.{Result, ok, ◌>>=◌}
use pangolin_kube_controller.Maps.{Map, lookup}
use pangolin_kube_controller.Json.{
  Value, Fields, Codec, update, map_items, on_str, on_arr, on_obj, unmarshal_map, marshal_value,
}
use pangolin_kube_controller.Sanitize.Name.{NameLib, sanitize_resource_name}

-- nameMappings
pub record NameMappings : Type 0 where
  pub middlewares : Map Text
  pub services : Map Text
  pub transports : Map Text

module _ (lib : NameLib) where
  -- sanitizeReference
  unfoldable pub sanitize_reference : Text → Map Text → Text
  sanitize_reference name mapping = or_else (lookup name mapping) (sanitize_resource_name lib name)

module _ (lib : NameLib) (mappings : NameMappings) where
  abbrev service_ref : Value → Value
  service_ref = on_str (λ name. sanitize_reference lib name mappings.services)

  abbrev middleware_ref : Value → Value
  middleware_ref = on_str (λ name. sanitize_reference lib name mappings.middlewares)

  abbrev transport_ref : Value → Value
  transport_ref = on_str (λ name. sanitize_reference lib name mappings.transports)

  -- A list of objects, each with a reference in its field "name".
  abbrev named_services : Value → Value
  named_services = on_arr (map_items (on_obj (update (codes "name") service_ref)))

  -- The body of `sanitizeRouterRaw`
  unfoldable pub sanitize_router_fields : Fields → Fields
  sanitize_router_fields o =
      update (codes "middlewares") (on_arr (map_items middleware_ref))
        (update (codes "service") service_ref o)

  -- The body of `sanitizeMiddlewareRaw`
  unfoldable pub sanitize_middleware_fields : Fields → Fields
  sanitize_middleware_fields =
      update (codes "chain")
        (on_obj (update (codes "middlewares") (on_arr (map_items middleware_ref))))

  -- sanitizeWeightedSection
  unfoldable pub sanitize_weighted_section : Fields → Fields
  sanitize_weighted_section =
      update (codes "weighted") (on_obj (update (codes "services") named_services))

  -- sanitizeMirroringSection, with sanitizeMirroringPrimaryService and sanitizeMirroringMirrors
  unfoldable pub sanitize_mirroring_section : Fields → Fields
  sanitize_mirroring_section = update (codes "mirroring") (
      on_obj (λ mirroring.
        update (codes "mirrors") named_services (update (codes "service") service_ref mirroring)))

  -- sanitizeFailoverSection
  unfoldable pub sanitize_failover_section : Fields → Fields
  sanitize_failover_section = update (codes "failover") (
      on_obj (λ failover.
        update (codes "fallback") service_ref (update (codes "service") service_ref failover)))

  -- The body of `sanitizeServiceRaw`
  unfoldable pub sanitize_service_fields : Fields → Fields
  unfolding sanitize_weighted_section sanitize_mirroring_section sanitize_failover_section
  sanitize_service_fields o =
      update (codes "loadBalancer") (on_obj (update (codes "serversTransport") transport_ref))
        (sanitize_failover_section (sanitize_mirroring_section (sanitize_weighted_section o)))

module _ (codec : Codec) where
  -- What the three `sanitize…Raw` share: an empty message is passed on, any other is decoded,
  -- rewritten and encoded again.
  unfoldable pub sanitize_raw : (Fields → Fields) → Text → Result Text
  sanitize_raw rewrite raw =
      if is_empty raw
      then ok raw
      else do v ← unmarshal_map codec raw; marshal_value codec (on_obj rewrite v)

module _ (lib : NameLib) (codec : Codec) (mappings : NameMappings) where
  unfoldable pub sanitize_router_raw : Text → Result Text
  sanitize_router_raw = sanitize_raw codec (sanitize_router_fields lib mappings)

  unfoldable pub sanitize_middleware_raw : Text → Result Text
  sanitize_middleware_raw = sanitize_raw codec (sanitize_middleware_fields lib mappings)

  unfoldable pub sanitize_service_raw : Text → Result Text
  sanitize_service_raw = sanitize_raw codec (sanitize_service_fields lib mappings)
