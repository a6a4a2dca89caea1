-- ===== src/Config/File/Documented.antt =====
-- internal/config/defaults.go: the settings without a file, one by one: a variable that is set, is not
-- empty and can be read, or else the default.
use pangolin_kube_controller.Prelude.{
  ◌≡◌, refl, ap, ◌∙◌, ℕ, ◌*◌, Bool, true, false, ◌||◌, Option, none, some, List, [], if◌then◌else◌,
  is_empty, or_else, ℤ, pos,
}
use pangolin_kube_controller.Text.{Text, codes, text_eq, equal_fold}
use pangolin_kube_controller.Text.Decimal.{parse_int, atoi}
use pangolin_kube_controller.Config.{Config, CertificateSecretRef}
use pangolin_kube_controller.Config.Env.{
  Env, getenv, env_string, env_duration, env_bool, env_int, env_int64,
  parse_certificate_secrets_env,
}
use pangolin_kube_controller.Config.Defaults.{new_defaults}

-- A variable that is read in a way of its own, with a default.
abbrev pub setting {ℓ} : {A : Type ℓ} → (Text → Option A) → Option Text → A → A
setting read none def = def
setting read (some v) def = if is_empty v then def else or_else (read v) def

-- The words for true and for false
abbrev pub read_flag : (ℕ → ℕ) → Text → Option Bool
read_flag fold v =
    if equal_fold fold v (codes "true") || text_eq v (codes "1") || equal_fold fold v (codes "yes")
    then some true
    else if equal_fold fold v (codes "false")
        || text_eq v (codes "0")
        || equal_fold fold v (codes "no")
    then some false
    else none

abbrev second : ℕ
second = 1000000000

abbrev minute : ℕ
minute = 60 * second

abbrev hour : ℕ
hour = 60 * minute

-- The table of the variables and the defaults, over the ways to read one.
module _ (string : Text → Text → Text) (duration : Text → ℤ → ℤ) (flag : Text → Bool → Bool)
    (int long : Text → ℤ → ℤ) (references : Text → List CertificateSecretRef) where
  abbrev settings_by : Config
  settings_by = record {
    poll_interval = duration (codes "POLL_INTERVAL") (pos (15 * second));
    endpoint =
        string (codes "CONFIG_ENDPOINT") (codes "https://pangolin:3001/api/v1/traefik-config");
    namespace = string (codes "TARGET_NAMESPACE") (codes "pangolin");
    max_backoff = duration (codes "MAX_BACKOFF") (pos (2 * minute));
    leader_enabled = flag (codes "ENABLE_LEADER_ELECTION") false;
    lease_lock_name = string (codes "LEASE_LOCK_NAME") (codes "pangolin-kube-controller-leader");
    lease_lock_namespace =
        string (codes "LEASE_LOCK_NAMESPACE")
          (string (codes "TARGET_NAMESPACE") (codes "pangolin"));
    lease_duration = duration (codes "LEASE_DURATION") (pos (30 * second));
    renew_deadline = duration (codes "RENEW_DEADLINE") (pos (20 * second));
    retry_period = duration (codes "RETRY_PERIOD") (pos (5 * second));
    read_only = flag (codes "READ_ONLY") false;
    standalone_http_only = flag (codes "STANDALONE_HTTP_ONLY") false;
    log_traefik_config = flag (codes "LOG_TRAEFIK_CONFIG") false;
    log_config_preview = flag (codes "CONFIG_LOG_PREVIEW") false;
    on_lose_behavior = string (codes "ON_LOSE") (codes "exit");
    max_config_log_bytes = int (codes "MAX_CONFIG_LOG_BYTES") (pos 0);
    ingress_class = string (codes "INGRESS_CLASS") (codes "traefik");
    ingress_class_provided = false;
    managed_anno_key = string (codes "MANAGED_ANNOTATION_KEY") (codes "pangolin.io/managed-by");
    managed_anno_value =
        string (codes "MANAGED_ANNOTATION_VALUE") (codes "pangolin-kube-controller");
    managed_label_key = string (codes "MANAGED_LABEL_KEY") (codes "app.kubernetes.io/managed-by");
    managed_label_value = string (codes "MANAGED_LABEL_VALUE") (codes "pangolin-kube-controller");
    ssa_force = flag (codes "SSA_FORCE") false;
    traefik_instance_label_key = [];
    traefik_instance_label_value = [];
    ingress_class_label_verify_interval =
        duration (codes "INGRESS_CLASS_LABEL_VERIFY_INTERVAL") (pos (3 * hour));
    ingress_class_label_strict = flag (codes "INGRESS_CLASS_LABEL_STRICT") false;
    config_file = string (codes "CONFIG_FILE") [];
    fetch_timeout = duration (codes "FETCH_TIMEOUT") (pos (30 * second));
    fetch_log_interval = duration (codes "FETCH_LOG_INTERVAL") (pos (5 * minute));
    auth_header = string (codes "CONFIG_AUTH_HEADER") [];
    ca_file = string (codes "CONFIG_CA_FILE") [];
    client_cert_file = string (codes "CONFIG_CLIENT_CERT_FILE") [];
    client_key_file = string (codes "CONFIG_CLIENT_KEY_FILE") [];
    tls_skip_verify = flag (codes "CONFIG_TLS_SKIP_VERIFY") false;
    max_response_body_bytes = long (codes "MAX_RESPONSE_BODY_BYTES") (pos (50 * 1024 * 1024));
    http_max_idle_conns = int (codes "HTTP_MAX_IDLE_CONNS") (pos 100);
    http_max_idle_conns_per_host = int (codes "HTTP_MAX_IDLE_CONNS_PER_HOST") (pos 100);
    http_idle_conn_timeout = duration (codes "HTTP_IDLE_CONN_TIMEOUT") (pos (90 * second));
    client_burst = int (codes "CLIENT_BURST") (pos 0);
    reconcile_parallel = flag (codes "RECONCILE_PARALLEL") false;
    reconcile_max = int (codes "RECONCILE_MAX") (pos 3);
    gc_workers = int (codes "GC_WORKERS") (pos 2);
    gc_grace_period = duration (codes "GC_GRACE_PERIOD") (pos 0);
    gc_grace_queue_size = int (codes "GC_GRACE_QUEUE_SIZE") (pos 256);
    traefik_lb_url = string (codes "TRAEFIK_LB_URL") [];
    traefik_lb_ip = string (codes "TRAEFIK_LB_IP") [];
    traefik_lb_scheme = string (codes "TRAEFIK_LB_SCHEME") (codes "http");
    traefik_lb_port = string (codes "TRAEFIK_LB_PORT") [];
    gateway_service_name = string (codes "GATEWAY_SERVICE_NAME") [];
    gateway_service_port = int (codes "GATEWAY_SERVICE_PORT") (pos 3002);
    metrics_addr = string (codes "METRICS_ADDR") (codes ":9090");
    disable_livez = flag (codes "DISABLE_LIVEZ") false;
    enable_pprof = flag (codes "ENABLE_PPROF") false;
    metrics_tls_cert_file = string (codes "METRICS_TLS_CERT_FILE") [];
    metrics_tls_key_file = string (codes "METRICS_TLS_KEY_FILE") [];
    metrics_plaintext_ok = flag (codes "METRICS_PLAINTEXT_OK") false;
    metrics_read_header_timeout = duration (codes "METRICS_READ_HEADER_TIMEOUT") (pos (3 * second));
    allow_insecure_http = flag (codes "CONFIG_ALLOW_INSECURE_HTTP") false;
    certificate_secrets = references (string (codes "CERTIFICATE_SECRETS") []);
  }

module _ (fold : ℕ → ℕ) (parse_duration : Text → Option ℤ) (env : Env) where
  -- The settings that the environment alone gives.
  abbrev pub documented : Config
  documented =
      settings_by (λ k def. setting some (env k) def) (λ k def. setting parse_duration (env k) def)
        (λ k def. setting (read_flag fold) (env k) def) (λ k def. setting atoi (env k) def)
        (λ k def. setting (parse_int 63) (env k) def) parse_certificate_secrets_env

  by_read {ℓ} :
      {A : Type ℓ} (read : Text → Option A) (v : Option Text) (def : A)
      → (if is_empty (or_else v []) then def else or_else (read (or_else v [])) def)
        ≡ setting read v def
  by_read read none def = refl
  by_read read (some v) def = refl

  string-setting : (k def : Text) → env_string env k def ≡ setting some (env k) def
  unfolding env_string
  string-setting k def = by_read some (env k) def

  duration-setting :
      (k : Text) (def : ℤ)
      → env_duration parse_duration env k def ≡ setting parse_duration (env k) def
  unfolding env_duration
  duration-setting k def = by_read parse_duration (env k) def

  by_words :
      (b c def : Bool)
      → (if b then true else if c then false else def)
        ≡ or_else (if b then some true else if c then some false else none) def
  by_words true c def = refl
  by_words false true def = refl
  by_words false false def = refl

  flag-setting :
      (k : Text) (def : Bool) → env_bool fold env k def ≡ setting (read_flag fold) (env k) def
  unfolding env_bool
  flag-setting k def =
      ap (λ x. if is_empty (getenv env k) then def else x)
        (by_words
          (equal_fold fold (getenv env k) (codes "true")
            || text_eq (getenv env k) (codes "1")
            || equal_fold fold (getenv env k) (codes "yes"))
          (equal_fold fold (getenv env k) (codes "false")
            || text_eq (getenv env k) (codes "0")
            || equal_fold fold (getenv env k) (codes "no"))
          def)
      ∙ by_read (read_flag fold) (env k) def

  int-setting : (k : Text) (def : ℤ) → env_int env k def ≡ setting atoi (env k) def
  unfolding env_int
  int-setting k def = by_read atoi (env k) def

  long-setting : (k : Text) (def : ℤ) → env_int64 env k def ≡ setting (parse_int 63) (env k) def
  unfolding env_int64
  long-setting k def = by_read (parse_int 63) (env k) def

  pub new_defaults_lem : new_defaults fold parse_duration env ≡ documented
  unfolding new_defaults
  new_defaults_lem = λ i.
      settings_by (λ k def. string-setting k def i) (λ k def. duration-setting k def i)
        (λ k def. flag-setting k def i) (λ k def. int-setting k def i)
        (λ k def. long-setting k def i) parse_certificate_secrets_env
