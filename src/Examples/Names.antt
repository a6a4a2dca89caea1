-- ===== src/Examples/Names.antt =====
-- The sanitizing of names and of configurations at concrete inputs.
use pangolin_kube_controller.Prelude.{none, ◌≡◌, refl, true, some, is_some, [], ◌∷◌}
use pangolin_kube_controller.Text.{Text, codes, trim, lower_rune, text_eq}
use pangolin_kube_controller.Maps.{lookup, entries, sort_keys, insert}
use pangolin_kube_controller.Json.{str, literal, get}
use pangolin_kube_controller.Sanitize.Name.{sanitize_resource_name}
use pangolin_kube_controller.Sanitize.Name.Valid.{IsK8sName, sanitize_resource_name-IsK8sName}
use pangolin_kube_controller.Sanitize.References.{
  sanitize_reference, sanitize_router_fields, sanitize_service_raw, sanitize_raw,
}
use pangolin_kube_controller.Result.{ok}
use pangolin_kube_controller.Sanitize.Config.{
  TraefikConfig, sanitize_traefik_config, build_name_mappings,
}
use pangolin_kube_controller.Sanitize.Config.Laws.{sanitize_reference_lem, router_service_resolves}
use pangolin_kube_controller.Examples.Data.{
  lib, lib-HasDigest, codec, config, sanitized_config, config_sanitized,
}

sanitize_resource_name-IsK8sName_example :
    IsK8sName (sanitize_resource_name lib (codes "My Web@App"))
sanitize_resource_name-IsK8sName_example =
    sanitize_resource_name-IsK8sName lib lib-HasDigest (codes "My Web@App")

sanitized_test : sanitize_resource_name lib (codes "My Web@App") ≡ codes "my-web-app"
unfolding sanitize_resource_name trim lower_rune
sanitized_test = refl

-- A name with no letter or digit is a digest.
hashed_test : sanitize_resource_name lib (codes "@@") ≡ codes "x-0123456789"
unfolding sanitize_resource_name trim lower_rune
hashed_test = refl

sanitize_reference_lem_example :
    (sanitize_reference lib (codes "Web App") (build_name_mappings lib config).middlewares
      ≡ sanitize_resource_name lib (codes "Web App"))
    × (sanitize_reference lib (codes "Web App") (build_name_mappings lib config).services
        ≡ sanitize_resource_name lib (codes "Web App"))
    × (sanitize_reference lib (codes "Web App") (build_name_mappings lib config).transports
        ≡ sanitize_resource_name lib (codes "Web App"))
sanitize_reference_lem_example = sanitize_reference_lem lib config (codes "Web App")

service_named :
    get (codes "service") (literal ((codes "service", str (codes "Web App")) ∷ []))
    ≡ some (str (codes "Web App"))
unfolding get text_eq
service_named = refl

service_listed : lookup (codes "Web App") (entries config.http.services) ≡ some (codes "{}")
unfolding lookup text_eq
service_listed = refl

router_service_resolves_example :
    (t : Text) × (get (codes "service") (
        sanitize_router_fields lib
          (build_name_mappings lib config)
          (literal ((codes "service", str (codes "Web App")) ∷ [])))
      ≡ some (str t))
    × (is_some (lookup t (entries sanitized_config.http.services)) ≡ true)
router_service_resolves_example =
    router_service_resolves lib codec config sanitized_config config_sanitized
      (literal ((codes "service", str (codes "Web App")) ∷ [])) (codes "Web App") service_named
      service_listed

abbrev colliding : TraefikConfig
colliding = record {
  http = record {
    middlewares = none;
    routers = none;
    services = some ((codes "Web App", codes "{}") ∷ (codes "web-app", codes "{}") ∷ []);
    servers_transports = none;
  };
  tcp = none;
  udp = none;
}

abbrev merged : TraefikConfig
merged = record {
  http = record {
    middlewares = some [];
    routers = some [];
    services = some ((codes "web-app", codes "{}") ∷ []);
    servers_transports = some [];
  };
  tcp = none;
  udp = none;
}

-- Of two services whose sanitized names are the same, one is left.
collision_test : sanitize_traefik_config lib codec (some colliding) ≡ ok (some merged)
unfolding sanitize_traefik_config sort_keys sanitize_service_raw sanitize_raw lookup text_eq insert
    sanitize_resource_name trim lower_rune
collision_test = refl
