-- ===== src/Examples/Rounds.antt =====
-- The metadata, the patches, the settings and the rounds of the polling loop at concrete inputs.
use pangolin_kube_controller.Protocol.Conversion.Rewrite.{process_services}
use pangolin_kube_controller.Sanitize.Name.{sanitize_resource_name}
use pangolin_kube_controller.Controller.Gc.{gc_stale_objects}
use pangolin_kube_controller.Apply.Objects.{apply_unstructured}
use pangolin_kube_controller.Sanitize.References.{sanitize_middleware_raw, sanitize_raw}
use pangolin_kube_controller.Maps.{sort_keys, lookup, insert}
use pangolin_kube_controller.Kube.Prog.{◌>>=◌, lift, ◌>>◌, on_result, call, pure}
use pangolin_kube_controller.Prelude.{
  Bool, ◌<◌, ◌⊎◌, false, ◌≡◌, ◌≢◌, ◌↔◌, ◌≤◌, ◌*◌, ◌^◌, refl, ap, arith, ℕ, pos, true, some, none,
  [], ◌∷◌,
}
use pangolin_kube_controller.Text.{Text, codes, text_eq, lower_rune, has_prefix, trim}
use pangolin_kube_controller.Json.{end}
use pangolin_kube_controller.Kube.{Api, answer, middlewares, patch_object}
use pangolin_kube_controller.Config.Validate.{validate}
use pangolin_kube_controller.Config.Validate.Exact.{IsSound, validate-IsSound}
use pangolin_kube_controller.Routing.{ingress_class_annotation}
use pangolin_kube_controller.Sanitize.Config.{TraefikConfig, sanitize_traefik_config}
use pangolin_kube_controller.Apply.Patch.{ssa_options, apply_ssa_with_retry, create_unstructured}
use pangolin_kube_controller.Apply.Patch.Retry.{Attempts, apply_ssa_with_retry-Attempts}
use pangolin_kube_controller.Apply.Metadata.{MetadataConfig, read, build_metadata_for_apply}
use pangolin_kube_controller.Apply.Metadata.Drift.{has_instance}
use pangolin_kube_controller.Apply.Objects.Forced.{Patched, apply_unstructured-Patched}
use pangolin_kube_controller.Apply.Metadata.Repair.{after_apply, Repairs, build_metadata-Repairs}
use pangolin_kube_controller.Controller.Backoff.{compute_backoff_duration}
use pangolin_kube_controller.Controller.Backoff.Growth.{backoff_growth}
use pangolin_kube_controller.Controller.Reconcile.{
  apply_config, reconcile_middlewares, reconcile_routers, reconcile_servers_transports,
}
use pangolin_kube_controller.Controller.Loop.{
  Response, World, LoopState, applied, unchanged, failed, with_errors, round, answered,
  should_proceed_after_status, decide,
}
use pangolin_kube_controller.Controller.Loop.Rounds.{Leaves, round_remembers_applied}
use pangolin_kube_controller.Controller.Loop.Settles.{applied_then_settles}
use pangolin_kube_controller.Controller.Loop.Waits.{run_loop, backoffs, run_loop_of_Unreachable}
use pangolin_kube_controller.Examples.Data.{
  lib, lib-HasDigest, net, codec, cfg, second, server, server_refusing, stale_object,
}

abbrev metadata_cfg : MetadataConfig
metadata_cfg = record {
  managed_label_key = codes "app.kubernetes.io/managed-by";
  managed_label_value = codes "pangolin";
  traefik_instance_label_key = codes "traefik.io/instance";
  traefik_instance_label_value = codes "main";
  managed_anno_key = codes "pangolin.io/managed-by";
  managed_anno_value = codes "pangolin";
  ingress_class = codes "traefik";
}

apply_ssa_with_retry-Attempts_example :
    Attempts server
      (patch_object middlewares (codes "auth") end (ssa_options (codes "Middleware") true))
      true
      4
      []
      (apply_ssa_with_retry middlewares (codes "auth") end (codes "Middleware") true server [])
apply_ssa_with_retry-Attempts_example =
    apply_ssa_with_retry-Attempts middlewares (codes "auth") end (codes "Middleware") true server []

-- A server that has the object.
abbrev server_with_old : Api
server_with_old = record server { object = λ h r n. answer stale_object }

apply_unstructured-Patched_example :
    Patched codec server_with_old middlewares
      (codes "old")
      false
      stale_object
      metadata_cfg
      (codes "{}")
      []
      (apply_unstructured codec middlewares
        (codes "pangolin")
        false
        (codes "old")
        (codes "{}")
        metadata_cfg
        server_with_old
        [])
apply_unstructured-Patched_example =
    apply_unstructured-Patched codec middlewares (codes "pangolin") false (codes "old") metadata_cfg
      server_with_old stale_object (codes "{}") [] refl

labels_apart : metadata_cfg.traefik_instance_label_key ≢ metadata_cfg.managed_label_key
labels_apart = cc

abbrev first : Text → ℕ
first [] = 0
first (c ∷ s) = c

annotations_apart : ingress_class_annotation ≢ metadata_cfg.managed_anno_key
annotations_apart = λ e. absurd (omega (arith, ap first e))

-- The label of the instance is owned by the earlier patches.
abbrev owned : Text → Text → Bool
owned section key = text_eq key metadata_cfg.traefik_instance_label_key

build_metadata-Repairs_example :
    let meta =
      (build_metadata_for_apply
        (some stale_object)
        (codes "old")
        (codes "pangolin")
        (codes "IngressRoute")
        metadata_cfg).0 in
    let label = λ (k v : Text).
      Repairs
        (owned (codes "labels") k)
        (read stale_object.labels k)
        v
        (after_apply owned (codes "labels") k meta stale_object.labels) in
    let annotation = λ (k v : Text).
      Repairs
        (owned (codes "annotations") k)
        (read stale_object.annotations k)
        v
        (after_apply owned (codes "annotations") k meta stale_object.annotations) in
    label metadata_cfg.managed_label_key metadata_cfg.managed_label_value
    × ((has_instance metadata_cfg ≡ false)
        ⊎ label metadata_cfg.traefik_instance_label_key metadata_cfg.traefik_instance_label_value)
    × annotation metadata_cfg.managed_anno_key metadata_cfg.managed_anno_value
    × ((text_eq (codes "IngressRoute") (codes "IngressRoute") ≡ false)
        ⊎ annotation ingress_class_annotation metadata_cfg.ingress_class)
build_metadata-Repairs_example =
    build_metadata-Repairs owned (some stale_object) (codes "old") (codes "pangolin")
      (codes "IngressRoute") metadata_cfg labels_apart annotations_apart

validate-IsSound_example : (validate (λ c. c) cfg ≡ none) ↔ IsSound (λ c. c) cfg
validate-IsSound_example = validate-IsSound (λ c. c) cfg

accepted_test : validate (λ c. c) cfg ≡ none
unfolding validate text_eq lower_rune
accepted_test = refl

backoff_growth_example :
    (w w' : ℕ) × (compute_backoff_duration (λ d. d) cfg 3 ≡ pos w)
    × (compute_backoff_duration (λ d. d) cfg 4 ≡ pos w')
    × (w ≤ 300 * second)
    × ((w ≡ 300 * second) ⊎ ((w ≡ 2 ^ 2 * (30 * second)) × (2 ^ 2 * (30 * second) < 300 * second)))
    × (w ≤ w')
    × (compute_backoff_duration (λ d. d) cfg 0 ≡ pos (30 * second))
backoff_growth_example =
    backoff_growth (λ d. d) cfg 2 (300 * second) (30 * second) refl refl (omega arith)

abbrev response : Response
response = record { etag = codes "\"v1\""; body = codes "{}"; status = 200 }

abbrev auth_config : TraefikConfig
auth_config = record {
  http = record {
    middlewares = some ((codes "auth", codes "{}") ∷ []);
    routers = none;
    services = none;
    servers_transports = none;
  };
  tcp = none;
  udp = none;
}

-- An endpoint that always answers with the same configuration.
abbrev world : World
world = record {
  fetch = λ url if_none_match. some response;
  env_allow_http = false;
  parse_config = λ body. some auth_config;
}

abbrev first_state : LoopState
first_state = record {
  last_etag = [];
  last_hash = [];
  last_etag_is_header = false;
  consecutive_errors = 3;
}

round_remembers_applied_example :
    Leaves lib net codec cfg world first_state server_refusing []
      (round lib net codec cfg world first_state server_refusing [])
round_remembers_applied_example =
    round_remembers_applied lib net codec cfg world first_state server_refusing []

first_applied : (answered lib net codec cfg world first_state server [] (some response)).1 ≡ applied
unfolding decide should_proceed_after_status has_prefix apply_config ◌>>=◌ lift
    sanitize_traefik_config sort_keys sanitize_middleware_raw sanitize_raw lookup text_eq ◌>>◌
    reconcile_middlewares insert apply_unstructured on_result call create_unstructured pure
    gc_stale_objects sanitize_resource_name trim lower_rune reconcile_routers
    reconcile_servers_transports process_services
first_applied = refl

applied_then_settles_example :
    let s' = (answered lib net codec cfg world first_state server [] (some response)).0 in
    answered lib net codec cfg world s' server_refusing [] (some response)
    ≡ (with_errors 0 s', unchanged, [])
applied_then_settles_example =
    applied_then_settles lib net codec cfg world lib-HasDigest first_state response server []
      first_applied server_refusing []

refused_test :
    (answered lib net codec cfg world first_state server_refusing [] (some response)).1 ≡ failed
unfolding decide should_proceed_after_status has_prefix apply_config ◌>>=◌ lift
    sanitize_traefik_config sort_keys sanitize_middleware_raw sanitize_raw lookup text_eq ◌>>◌
    reconcile_middlewares insert apply_unstructured on_result call create_unstructured
refused_test = refl

abbrev unreachable : World
unreachable = record world { fetch = λ url if_none_match. none }

run_loop_of_Unreachable_example :
    run_loop lib net codec (λ d. d) cfg (unreachable ∷ unreachable ∷ []) first_state server []
    ≡ (backoffs lib net codec (λ d. d) cfg 3 2, with_errors 5 first_state, [])
run_loop_of_Unreachable_example =
    run_loop_of_Unreachable lib net codec (λ d. d) cfg (unreachable ∷ unreachable ∷ []) first_state
      server [] (λ url etag. refl, (λ url etag. refl, tt))
