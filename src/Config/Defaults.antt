-- ===== src/Config/Defaults.antt =====
-- internal/config/defaults.go: each setting from its variable, with its default.
use pangolin_kube_controller.Prelude.{ℕ, ◌*◌, false, Option, [], ℤ, pos}
use pangolin_kube_controller.Text.{Text, codes}
use pangolin_kube_controller.Config.{Config}
use pangolin_kube_controller.Config.Env.{
  Env, env_string, env_duration, env_bool, env_int, env_int64, parse_certificate_secrets_env,
}

abbrev second : ℕ
second = 1000000000

abbrev minute : ℕ
minute = 60 * second

abbrev hour : ℕ
hour = 60 * minute

module _ (fold : ℕ → ℕ) (parse_duration : Text → Option ℤ) (env : Env) where
  -- newDefaults
  unfoldable pub new_defaults : Config
  unfolding env_string env_duration env_bool env_int env_int64 parse_certificate_secrets_env
  new_defaults = record {
    poll_interval = env_duration parse_duration env (codes "POLL_INTERVAL") (pos (15 * second));
    endpoint =
        env_string env (codes "CONFIG_ENDPOINT")
          (codes "https://pangolin:3001/api/v1/traefik-config");
    namespace = env_string env (codes "TARGET_NAMESPACE") (codes "pangolin");
    max_backoff = env_duration parse_duration env (codes "MAX_BACKOFF") (pos (2 * minute));
    leader_enabled = env_bool fold env (codes "ENABLE_LEADER_ELECTION") false;
    lease_lock_name =
        env_string env (codes "LEASE_LOCK_NAME") (codes "pangolin-kube-controller-leader");
    lease_lock_namespace =
        env_string env (codes "LEASE_LOCK_NAMESPACE")
          (env_string env (codes "TARGET_NAMESPACE") (codes "pangolin"));
    lease_duration = env_duration parse_duration env (codes "LEASE_DURATION") (pos (30 * second));
    renew_deadline = env_duration parse_duration env (codes "RENEW_DEADLINE") (pos (20 * second));
    retry_period = env_duration parse_duration env (codes "RETRY_PERIOD") (pos (5 * second));
    read_only = env_bool fold env (codes "READ_ONLY") false;
    standalone_http_only = env_bool fold env (codes "STANDALONE_HTTP_ONLY") false;
    log_traefik_config = env_bool fold env (codes "LOG_TRAEFIK_CONFIG") false;
    log_config_preview = env_bool fold env (codes "CONFIG_LOG_PREVIEW") false;
    on_lose_behavior = env_string env (codes "ON_LOSE") (codes "exit");
    max_config_log_bytes = env_int env (codes "MAX_CONFIG_LOG_BYTES") (pos 0);
    ingress_class = env_string env (codes "INGRESS_CLASS") (codes "traefik");
    ingress_class_provided = false;
    managed_anno_key =
        env_string env (codes "MANAGED_ANNOTATION_KEY") (codes "pangolin.io/managed-by");
    managed_anno_value =
        env_string env (codes "MANAGED_ANNOTATION_VALUE") (codes "pangolin-kube-controller");
    managed_label_key =
        env_string env (codes "MANAGED_LABEL_KEY") (codes "app.kubernetes.io/managed-by");
    managed_label_value =
        env_string env (codes "MANAGED_LABEL_VALUE") (codes "pangolin-kube-controller");
    ssa_force = env_bool fold env (codes "SSA_FORCE") false;
    traefik_instance_label_key = [];
    traefik_instance_label_value = [];
    ingress_class_label_verify_interval =
        env_duration parse_duration env (codes "INGRESS_CLASS_LABEL_VERIFY_INTERVAL")
          (pos (3 * hour));
    ingress_class_label_strict = env_bool fold env (codes "INGRESS_CLASS_LABEL_STRICT") false;
    config_file = env_string env (codes "CONFIG_FILE") [];
    fetch_timeout = env_duration parse_duration env (codes "FETCH_TIMEOUT") (pos (30 * second));
    fetch_log_interval =
        env_duration parse_duration env (codes "FETCH_LOG_INTERVAL") (pos (5 * minute));
    auth_header = env_string env (codes "CONFIG_AUTH_HEADER") [];
    ca_file = env_string env (codes "CONFIG_CA_FILE") [];
    client_cert_file = env_string env (codes "CONFIG_CLIENT_CERT_FILE") [];
    client_key_file = env_string env (codes "CONFIG_CLIENT_KEY_FILE") [];
    tls_skip_verify = env_bool fold env (codes "CONFIG_TLS_SKIP_VERIFY") false;
    max_response_body_bytes =
        env_int64 env (codes "MAX_RESPONSE_BODY_BYTES") (pos (50 * 1024 * 1024));
    http_max_idle_conns = env_int env (codes "HTTP_MAX_IDLE_CONNS") (pos 100);
    http_max_idle_conns_per_host = env_int env (codes "HTTP_MAX_IDLE_CONNS_PER_HOST") (pos 100);
    http_idle_conn_timeout =
        env_duration parse_duration env (codes "HTTP_IDLE_CONN_TIMEOUT") (pos (90 * second));
    client_burst = env_int env (codes "CLIENT_BURST") (pos 0);
    reconcile_parallel = env_bool fold env (codes "RECONCILE_PARALLEL") false;
    reconcile_max = env_int env (codes "RECONCILE_MAX") (pos 3);
    gc_workers = env_int env (codes "GC_WORKERS") (pos 2);
    gc_grace_period = env_duration parse_duration env (codes "GC_GRACE_PERIOD") (pos 0);
    gc_grace_queue_size = env_int env (codes "GC_GRACE_QUEUE_SIZE") (pos 256);
    traefik_lb_url = env_string env (codes "TRAEFIK_LB_URL") [];
    traefik_lb_ip = env_string env (codes "TRAEFIK_LB_IP") [];
    traefik_lb_scheme = env_string env (codes "TRAEFIK_LB_SCHEME") (codes "http");
    traefik_lb_port = env_string env (codes "TRAEFIK_LB_PORT") [];
    gateway_service_name = env_string env (codes "GATEWAY_SERVICE_NAME") [];
    gateway_service_port = env_int env (codes "GATEWAY_SERVICE_PORT") (pos 3002);
    metrics_addr = env_string env (codes "METRICS_ADDR") (codes ":9090");
    disable_livez = env_bool fold env (codes "DISABLE_LIVEZ") false;
    enable_pprof = env_bool fold env (codes "ENABLE_PPROF") false;
    metrics_tls_cert_file = env_string env (codes "METRICS_TLS_CERT_FILE") [];
    metrics_tls_key_file = env_string env (codes "METRICS_TLS_KEY_FILE") [];
    metrics_plaintext_ok = env_bool fold env (codes "METRICS_PLAINTEXT_OK") false;
    metrics_read_header_timeout =
        env_duration parse_duration env (codes "METRICS_READ_HEADER_TIMEOUT") (pos (3 * second));
    allow_insecure_http = env_bool fold env (codes "CONFIG_ALLOW_INSECURE_HTTP") false;
    certificate_secrets =
        parse_certificate_secrets_env (env_string env (codes "CERTIFICATE_SECRETS") []);
  }
