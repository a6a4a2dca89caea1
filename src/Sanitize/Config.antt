-- ===== src/Sanitize/Config.antt =====
-- internal/transform/config/config.go, and SanitizeTraefikConfig of
-- internal/transform/sanitize/sanitize.go.
pub mod Loop
pub mod Laws
use pangolin_kube_controller.Prelude.{Option, none, some, List, [], ◌∷◌, if◌then◌else◌, or_else}
use pangolin_kube_controller.Text.{Text}
use pangolin_kube_controller.Result.{Result, ok, err, ◌>>=◌}
use pangolin_kube_controller.Maps.{Map, GoMap, entries, lookup, insert, sort_keys}
use pangolin_kube_controller.Json.{Codec}
use pangolin_kube_controller.Sanitize.Name.{NameLib, sanitize_resource_name}
use pangolin_kube_controller.Sanitize.References.{
  NameMappings, sanitize_middleware_raw, sanitize_service_raw, sanitize_router_raw,
}

-- A json.RawMessage: the text of an object, not decoded.
abbrev pub Raw : Type 0
Raw = Text

pub record HttpConfig : Type 0 where
  pub middlewares : GoMap Raw
  pub routers : GoMap Raw
  pub services : GoMap Raw
  pub servers_transports : GoMap Raw

pub record TcpUdpConfig : Type 0 where
  pub routers : GoMap Raw
  pub services : GoMap Raw
  pub servers_transports : GoMap Raw

-- Config; `tcp` and `udp` are pointers.
pub record TraefikConfig : Type 0 where
  pub http : HttpConfig
  pub tcp : Option TcpUdpConfig
  pub udp : Option TcpUdpConfig

-- One loop of `buildNameMappings`
unfoldable pub build_mapping : (Text → Text) → List Text → Map Text → Map Text
build_mapping sanitize [] out = out
build_mapping sanitize (name ∷ names) out =
    build_mapping sanitize names (insert name (sanitize name) out)

-- The loop of the four `populateSanitized…`: `rename` gives the key, `rewrite` the object.
unfoldable pub populate :
    (Text → Text) → (Raw → Result Raw) → Map Raw → List Text → Map Raw → Result (Map Raw)
populate rename rewrite objects [] out = ok out
populate rename rewrite objects (name ∷ names) out = do
  sanitized_raw ← rewrite (or_else (lookup name objects) [])
  populate rename rewrite objects names (insert (rename name) sanitized_raw out)

module _ (lib : NameLib) where
  -- The names of one map, sanitized.
  unfoldable pub name_mapping : GoMap Raw → Map Text
  unfolding build_mapping
  name_mapping m = build_mapping (sanitize_resource_name lib) (sort_keys (entries m)) []

  -- buildNameMappings
  unfoldable pub build_name_mappings : TraefikConfig → NameMappings
  unfolding name_mapping
  build_name_mappings cfg = record {
    middlewares = name_mapping cfg.http.middlewares;
    services = name_mapping cfg.http.services;
    transports = name_mapping cfg.http.servers_transports;
  }

-- `mappings.middlewares[name]`, which is "" for a missing name
abbrev mapped : Map Text → Text → Text
mapped mapping name = or_else (lookup name mapping) []

module _ (lib : NameLib) (codec : Codec) (cfg : TraefikConfig) (mappings : NameMappings) where
  unfoldable pub populate_sanitized_middlewares : Result (Map Raw)
  unfolding populate
  populate_sanitized_middlewares =
      populate (mapped mappings.middlewares) (sanitize_middleware_raw lib codec mappings)
        (entries cfg.http.middlewares) (sort_keys (entries cfg.http.middlewares)) []

  unfoldable pub populate_sanitized_services : Result (Map Raw)
  unfolding populate
  populate_sanitized_services =
      populate (mapped mappings.services) (sanitize_service_raw lib codec mappings)
        (entries cfg.http.services) (sort_keys (entries cfg.http.services)) []

  -- serversTransport objects are passed through
  unfoldable pub populate_sanitized_transports : Result (Map Raw)
  unfolding populate
  populate_sanitized_transports =
      populate (mapped mappings.transports) ok (entries cfg.http.servers_transports)
        (sort_keys (entries cfg.http.servers_transports)) []

  unfoldable pub populate_sanitized_routers : Result (Map Raw)
  unfolding populate
  populate_sanitized_routers =
      populate (sanitize_resource_name lib) (sanitize_router_raw lib codec mappings)
        (entries cfg.http.routers) (sort_keys (entries cfg.http.routers)) []

module _ (lib : NameLib) (codec : Codec) where
  unfoldable pub sanitize_config : TraefikConfig → Result TraefikConfig
  unfolding populate_sanitized_middlewares populate_sanitized_services populate_sanitized_transports
      populate_sanitized_routers build_name_mappings
  sanitize_config cfg = do
    let mappings = build_name_mappings lib cfg
    middlewares ← populate_sanitized_middlewares lib codec cfg mappings
    services ← populate_sanitized_services lib codec cfg mappings
    transports ← populate_sanitized_transports lib codec cfg mappings
    routers ← populate_sanitized_routers lib codec cfg mappings
    ok (record {
      http = record {
        middlewares = some middlewares;
        routers = some routers;
        services = some services;
        servers_transports = some transports;
      };
      tcp = none;
      udp = none;
    })

  -- SanitizeTraefikConfig; a nil configuration is passed on.
  unfoldable pub sanitize_traefik_config : Option TraefikConfig → Result (Option TraefikConfig)
  unfolding sanitize_config
  sanitize_traefik_config none = ok none
  sanitize_traefik_config (some cfg) = do sanitized ← sanitize_config cfg; ok (some sanitized)
