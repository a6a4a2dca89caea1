-- ===== src/Examples/Collection.antt =====
-- The deletions of stale objects, and the rounds of the reconciliation, at concrete inputs.
use pangolin_kube_controller.Protocol.Conversion.Rewrite.{process_services}
use pangolin_kube_controller.Sanitize.Name.{sanitize_resource_name}
use pangolin_kube_controller.Sanitize.References.{sanitize_middleware_raw, sanitize_raw}
use pangolin_kube_controller.Json.{get}
use pangolin_kube_controller.Apply.Patch.{create_unstructured}
use pangolin_kube_controller.Apply.Objects.{apply_unstructured}
use pangolin_kube_controller.Kube.Prog.{◌>>=◌, call, ◌>>◌, on_result, pure, lift}
use pangolin_kube_controller.Prelude.{none, ◌≡◌, refl, ℕ, ◌+◌, true, some, List, [], ◌∷◌, inl, pos}
use pangolin_kube_controller.Text.{codes, text_eq, trim, lower_rune}
use pangolin_kube_controller.Result.{Error, ok, err, api, not_found, missing_rule_and_service}
use pangolin_kube_controller.Maps.{keys, Map, entries, lookup, sort_keys, insert}
use pangolin_kube_controller.Kube.{
  middlewares, list_objects, delete_object, answer, Reads, KeepsObjects,
}
use pangolin_kube_controller.Kube.Prog.Emits.{Adds, Emits}
use pangolin_kube_controller.Sanitize.Config.{Raw, TraefikConfig, sanitize_traefik_config}
use pangolin_kube_controller.Routing.{transform_router_to_ingress_route}
use pangolin_kube_controller.Controller.Routers.{router_cfg}
use pangolin_kube_controller.Controller.Reconcile.{
  apply_desired_objects, reconcile_middlewares, reconcile_routers, reconcile_tcp, reconcile_udp,
  apply_config, reconcile_servers_transports,
}
use pangolin_kube_controller.Controller.Reconcile.ReadOnly.{apply_config-Reads}
use pangolin_kube_controller.Controller.Reconcile.Failure.{
  failed_middleware_keeps, bad_router_stops, tcp_udp_phases_idle,
}
use pangolin_kube_controller.Controller.Gc.{selector, gc_stale_objects}
use pangolin_kube_controller.Controller.Gc.Safety.{Removes, gc_stale_objects-Removes}
use pangolin_kube_controller.Controller.Gc.Pool.{
  Request, Pool, Event, offer, refuse, done, dropped, abandoned, sent, take_next, wake, cancel,
  give_up, new_pool, pool_run, pool_step, take_at, gvr_for_kind,
}
use pangolin_kube_controller.Controller.Gc.Pool.Account.{Accounted}
use pangolin_kube_controller.Controller.Gc.Pool.Ledger.{held, given_over, pool_run_keeps_requests}
use pangolin_kube_controller.Controller.Reconcile.Writes.Round.{
  middleware, resource, desired, Written,
}
use pangolin_kube_controller.Controller.Reconcile.Cleans.{kind, Cleaned}
use pangolin_kube_controller.Controller.Reconcile.Converges.{
  apply_config-Written, apply_config-Cleaned,
}
use pangolin_kube_controller.Examples.Data.{
  lib, net, codec, cfg, config, sanitized_config, config_sanitized, stale_object, server,
  server_refusing,
}

gc_stale_objects-Removes_example :
    Adds
      (Removes cfg middlewares (codes "Middleware") [] (stale_object ∷ []))
      (list_objects middlewares (selector cfg) ∷ [])
      (gc_stale_objects cfg middlewares (codes "Middleware") [] server []).1
gc_stale_objects-Removes_example =
    gc_stale_objects-Removes cfg middlewares (codes "Middleware") [] server [] (stale_object ∷ [])
      refl

collected_test : (gc_stale_objects cfg middlewares (codes "Middleware") [] server []).0 ≡ ok tt
unfolding gc_stale_objects ◌>>=◌ call text_eq lookup ◌>>◌ on_result pure
collected_test = refl

apply_config-Reads_example :
    Emits Reads (apply_config lib net codec (record cfg { read_only = true }) (some config))
apply_config-Reads_example =
    apply_config-Reads lib net codec (record cfg { read_only = true }) (some config) refl

abbrev desired_middlewares : Map Raw
desired_middlewares = entries config.http.middlewares

middleware_refused :
    (apply_desired_objects codec cfg middlewares desired_middlewares server_refusing []).0
    ≡ err (api not_found)
unfolding apply_desired_objects ◌>>◌ apply_unstructured lift text_eq on_result call
    create_unstructured
middleware_refused = refl

failed_middleware_keeps_example :
    ((reconcile_middlewares codec cfg desired_middlewares server_refusing []).0
      ≡ err (api not_found))
    × Adds KeepsObjects []
        (reconcile_middlewares codec cfg desired_middlewares server_refusing []).1
failed_middleware_keeps_example =
    failed_middleware_keeps codec cfg desired_middlewares server_refusing [] (api not_found)
      middleware_refused

-- A configuration with one Middleware, and what is made of it.
abbrev auth_config : TraefikConfig
auth_config = record {
  http = record {
    middlewares = some ((codes "Auth", codes "{}") ∷ []);
    routers = none;
    services = none;
    servers_transports = none;
  };
  tcp = none;
  udp = none;
}

abbrev auth_sanitized : TraefikConfig
auth_sanitized = record {
  http = record {
    middlewares = some ((codes "auth", codes "{}") ∷ []);
    routers = some [];
    services = some [];
    servers_transports = some [];
  };
  tcp = none;
  udp = none;
}

auth_made : sanitize_traefik_config lib codec (some auth_config) ≡ ok (some auth_sanitized)
unfolding sanitize_traefik_config sort_keys sanitize_middleware_raw sanitize_raw lookup text_eq
    insert sanitize_resource_name trim lower_rune
auth_made = refl

auth_done : (apply_config lib net codec cfg (some auth_config) server []).0 ≡ ok tt
unfolding apply_config ◌>>=◌ lift sanitize_traefik_config sort_keys sanitize_middleware_raw
    sanitize_raw lookup text_eq ◌>>◌ reconcile_middlewares insert apply_unstructured on_result call
    create_unstructured pure gc_stale_objects sanitize_resource_name trim lower_rune
    reconcile_routers reconcile_servers_transports process_services
auth_done = refl

apply_config-Written_example :
    Written lib net codec cfg auth_sanitized server middleware
      (codes "auth")
      (codes "{}")
      []
      (apply_config lib net codec cfg (some auth_config) server []).1
apply_config-Written_example =
    apply_config-Written lib net codec cfg auth_sanitized server auth_config auth_made middleware []
      (codes "auth") (codes "{}") refl (inl refl) auth_done

apply_config-Cleaned_example :
    Cleaned cfg server
      (resource middleware)
      (kind middleware)
      (keys (desired lib net codec cfg auth_sanitized middleware))
      []
      (apply_config lib net codec cfg (some auth_config) server []).1
apply_config-Cleaned_example =
    apply_config-Cleaned lib net codec cfg auth_sanitized server auth_config auth_made middleware []
      refl auth_done

empty_router_refused :
    transform_router_to_ingress_route codec (codes "web") (codes "{}") (router_cfg codec cfg)
    ≡ err missing_rule_and_service
unfolding transform_router_to_ingress_route text_eq get
empty_router_refused = refl

bad_router_stops_example :
    (e' : Error) × (reconcile_routers codec cfg ((codes "web", codes "{}") ∷ []) server []
      ≡ (err e', []))
bad_router_stops_example =
    bad_router_stops codec cfg ((codes "web", codes "{}") ∷ []) (codes "web") (codes "{}")
      missing_rule_and_service server [] (inl refl) empty_router_refused

tcp_udp_phases_idle_example :
    (reconcile_tcp lib net codec cfg sanitized_config server [] ≡ (ok tt, []))
    × (reconcile_udp lib net codec cfg sanitized_config server [] ≡ (ok tt, []))
tcp_udp_phases_idle_example =
    tcp_udp_phases_idle lib net codec cfg config sanitized_config server [] config_sanitized

-- A request with a grace period: one is deleted, one is given up once the context is cancelled, and
-- one does not get into the queue after that.
abbrev request : Request
request = record { kind = codes "Middleware"; name = codes "old"; delay = pos 30 }

abbrev events : List Event
events =
    offer request
    ∷ offer request
    ∷ take_next
    ∷ wake 0
    ∷ take_next
    ∷ done 0 (answer tt)
    ∷ cancel
    ∷ give_up 0
    ∷ refuse request
    ∷ []

abbrev last_pool : Pool
last_pool = record (new_pool 2) {
  over = (request, dropped) ∷ (request, abandoned) ∷ (request, sent (answer tt)) ∷ [];
  cancelled = true;
  made = delete_object middlewares (codes "old") ∷ [];
}

events_run : pool_run 256 2 (new_pool 2) events ≡ some last_pool
unfolding pool_run pool_step take_at gvr_for_kind text_eq
events_run = refl

abbrev one_each : Request → ℕ
one_each r = 1

pool_run_keeps_requests_example :
    (held one_each last_pool ≡ given_over one_each 256 2 events + held one_each (new_pool 2))
    × Accounted last_pool.over last_pool.made
pool_run_keeps_requests_example =
    pool_run_keeps_requests one_each 256 2 events (new_pool 2) last_pool refl events_run
