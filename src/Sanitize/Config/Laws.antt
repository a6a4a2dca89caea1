-- ===== src/Sanitize/Config/Laws.antt =====
-- The references of a sanitized configuration lead to the objects that they led to before.

use pangolin_kube_controller.Prelude.{
  ◌≡◌, refl, sym, inl, inr, true, none, some, [], arith, is_some, or_else, Option-cases, ap,
}
use pangolin_kube_controller.Text.{Text, codes, text_eq}
use pangolin_kube_controller.Result.{ok, >>=-eq-ok}
use pangolin_kube_controller.Maps.{Map, GoMap, entries, lookup, sort_keys}
use pangolin_kube_controller.Maps.Laws.{In, In-sort_keys}
use pangolin_kube_controller.Json.{str, Fields, Codec, get}
use pangolin_kube_controller.Json.Laws.{get-update}
use pangolin_kube_controller.Sanitize.Name.{NameLib, sanitize_resource_name}
use pangolin_kube_controller.Sanitize.References.{
  NameMappings, sanitize_reference, sanitize_router_fields, sanitize_middleware_raw,
  sanitize_service_raw, sanitize_router_raw,
}
use pangolin_kube_controller.Sanitize.Config.{
  Raw, TraefikConfig, name_mapping, build_name_mappings, mapped, populate_sanitized_middlewares,
  populate_sanitized_services, populate_sanitized_transports, populate_sanitized_routers,
  sanitize_config, sanitize_traefik_config,
}
use pangolin_kube_controller.Sanitize.Config.Loop.{
  Agrees, build_mapping-Agrees, lookup-build_mapping, populate_complete, populate_sound, ComesFrom,
}

module _ (lib : NameLib) where
  name_mapping-Agrees : (m : GoMap Raw) → Agrees (sanitize_resource_name lib) (name_mapping lib m)
  unfolding name_mapping lookup
  name_mapping-Agrees m =
      build_mapping-Agrees (sanitize_resource_name lib) (sort_keys (entries m)) [] (λ k t e. cc)

  reference_lem :
      (name : Text) (mapping : Map Text)
      → Agrees (sanitize_resource_name lib) mapping
      → sanitize_reference lib name mapping ≡ sanitize_resource_name lib name
  unfolding sanitize_reference
  reference_lem name mapping h = elim (Option-cases (lookup name mapping)) [
    | inl e ↦ rw e
    | inr (t, e) ↦ rw e (h name t e)
  ]

  -- A reference is rewritten to the sanitized name, through each of the three tables of names and
  -- whether or not the table has the name.
  pub sanitize_reference_lem :
      (cfg : TraefikConfig) (name : Text)
      → (sanitize_reference lib name (build_name_mappings lib cfg).middlewares
          ≡ sanitize_resource_name lib name)
        × (sanitize_reference lib name (build_name_mappings lib cfg).services
            ≡ sanitize_resource_name lib name)
        × (sanitize_reference lib name (build_name_mappings lib cfg).transports
            ≡ sanitize_resource_name lib name)
  unfolding build_name_mappings
  sanitize_reference_lem cfg name = (
    reference_lem name _ (name_mapping-Agrees cfg.http.middlewares),
    reference_lem name _ (name_mapping-Agrees cfg.http.services),
    reference_lem name _ (name_mapping-Agrees cfg.http.servers_transports),
  )

  mapped_name :
      (m : GoMap Raw) (name : Text)
      → In name (sort_keys (entries m))
      → mapped (name_mapping lib m) name ≡ sanitize_resource_name lib name
  unfolding name_mapping
  mapped_name m name h =
      ap (λ o. or_else o [])
        (lookup-build_mapping (sanitize_resource_name lib) name (sort_keys (entries m)) [] h)

-- The kinds of objects that others refer to, with their map and their table of names.
pub data Referenced : Type 0 where
  middleware service transport : Referenced

abbrev pub objects : Referenced → TraefikConfig → Map Raw
objects middleware c = entries c.http.middlewares
objects service c = entries c.http.services
objects transport c = entries c.http.servers_transports

abbrev pub table : Referenced → NameMappings → Map Text
table middleware m = m.middlewares
table service m = m.services
table transport m = m.transports

module _ (lib : NameLib) (codec : Codec) (cfg out : TraefikConfig)
    (done : sanitize_traefik_config lib codec (some cfg) ≡ ok (some out)) where
  abbrev mappings : NameMappings
  mappings = build_name_mappings lib cfg

  -- The maps of the result are those that the loops have filled.
  record Filled : Type 0 where
    middlewares : Map Raw
    services : Map Raw
    transports : Map Raw
    routers : Map Raw
    middlewares_lem : populate_sanitized_middlewares lib codec cfg mappings ≡ ok middlewares
    services_lem : populate_sanitized_services lib codec cfg mappings ≡ ok services
    transports_lem : populate_sanitized_transports lib codec cfg mappings ≡ ok transports
    routers_lem : populate_sanitized_routers lib codec cfg mappings ≡ ok routers
    out_lem : out ≡ record {
      http = record {
        middlewares = some middlewares;
        routers = some routers;
        services = some services;
        servers_transports = some transports;
      };
      tcp = none;
      udp = none;
    }

  filled : Filled
  unfolding sanitize_traefik_config
  filled =
      let (cfg', e, same) = >>=-eq-ok (sanitize_config lib codec cfg) _ done in
      let (mw, e1, r1) = >>=-eq-ok (populate_sanitized_middlewares lib codec cfg mappings) _ e in
      let (sv, e2, r2) = >>=-eq-ok (populate_sanitized_services lib codec cfg mappings) _ r1 in
      let (tr, e3, r3) = >>=-eq-ok (populate_sanitized_transports lib codec cfg mappings) _ r2 in
      let (rt, e4, r4) = >>=-eq-ok (populate_sanitized_routers lib codec cfg mappings) _ r3 in
      record {
        middlewares = mw;
        services = sv;
        transports = tr;
        routers = rt;
        middlewares_lem = e1;
        services_lem = e2;
        transports_lem = e3;
        routers_lem = e4;
        out_lem = ground arith;
      }

  -- After a successful sanitizing, a reference to a middleware, a service or a transport of the
  -- configuration is rewritten to the name of an object of the result.
  pub references_resolve :
      (kind : Referenced) (name : Text) {raw : Raw}
      → lookup name (objects kind cfg) ≡ some raw
      → is_some (lookup (sanitize_reference lib name (table kind mappings)) (objects kind out))
        ≡ true
  unfolding populate_sanitized_middlewares populate_sanitized_services populate_sanitized_transports
      build_name_mappings
  references_resolve middleware name {raw} h =
      let there = In-sort_keys name (entries cfg.http.middlewares) h in
      rw
        (
          ap (λ c. objects middleware c) filled.out_lem,
          (sanitize_reference_lem lib cfg name).0,
          sym (mapped_name lib cfg.http.middlewares name there),
        )
        (populate_complete (mapped mappings.middlewares)
          (sanitize_middleware_raw lib codec mappings) (entries cfg.http.middlewares) name _ []
          filled.middlewares there filled.middlewares_lem)
  references_resolve service name {raw} h =
      let there = In-sort_keys name (entries cfg.http.services) h in
      rw
        (
          ap (λ c. objects service c) filled.out_lem,
          (sanitize_reference_lem lib cfg name).1,
          sym (mapped_name lib cfg.http.services name there),
        )
        (populate_complete (mapped mappings.services) (sanitize_service_raw lib codec mappings)
          (entries cfg.http.services) name _ [] filled.services there filled.services_lem)
  references_resolve transport name {raw} h =
      let there = In-sort_keys name (entries cfg.http.servers_transports) h in
      rw
        (
          ap (λ c. objects transport c) filled.out_lem,
          (sanitize_reference_lem lib cfg name).2,
          sym (mapped_name lib cfg.http.servers_transports name there),
        )
        (populate_complete (mapped mappings.transports) ok (entries cfg.http.servers_transports)
          name _ [] filled.transports there filled.transports_lem)

  -- A sanitized configuration has no TCP part and no UDP part, whatever the configuration had.
  pub sanitize_drops_tcp_udp : (out.tcp ≡ none) × (out.udp ≡ none)
  sanitize_drops_tcp_udp = (ap (λ c. c.tcp) filled.out_lem, ap (λ c. c.udp) filled.out_lem)

  -- A sanitized configuration has a map of transports, which may be empty.
  pub sanitize_keeps_transports :
      (transports : Map Raw) × (out.http.servers_transports ≡ some transports)
  sanitize_keeps_transports =
      (filled.transports, ap (λ c. c.http.servers_transports) filled.out_lem)

  -- Every router of the result stands under the sanitized name of a router of the configuration,
  -- and is that router with its references rewritten.
  pub routers_come_from :
      (k : Text) (v : Raw)
      → lookup k (entries out.http.routers) ≡ some v
      → ComesFrom
          (sanitize_resource_name lib)
          (sanitize_router_raw lib codec mappings)
          (entries cfg.http.routers)
          (sort_keys (entries cfg.http.routers))
          k
          v
  unfolding populate_sanitized_routers lookup
  routers_come_from k v h =
      elim (populate_sound (sanitize_resource_name lib) (sanitize_router_raw lib codec mappings)
        (entries cfg.http.routers) k v (sort_keys (entries cfg.http.routers)) [] filled.routers
        filled.routers_lem (rw (ap (λ c. entries c.http.routers) filled.out_lem) at h)) [
          | inl e ↦ absurd (cc)
          | inr found ↦ found
        ]

  -- The service that a router of the configuration refers to by name is, in the rewritten router,
  -- referred to by a name that the result has a service under.
  pub router_service_resolves :
      (o : Fields) (name : Text) {raw : Raw}
      → get (codes "service") o ≡ some (str name)
      → lookup name (entries cfg.http.services) ≡ some raw
      → (t : Text) × (get (codes "service") (sanitize_router_fields lib mappings o) ≡ some (str t))
        × (is_some (lookup t (entries out.http.services)) ≡ true)
  unfolding sanitize_router_fields
  router_service_resolves o name h there = (
    sanitize_reference lib name mappings.services,
    rw (get-update, get-update, h) (unfold text_eq in refl),
    references_resolve service name there,
  )
