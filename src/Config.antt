-- ===== src/Config.antt =====
-- internal/config: config.go, validate.go and normalize.go.
pub mod Validate
pub mod Env
pub mod Defaults
pub mod File
use pangolin_kube_controller.Prelude.{Bool, List, ℤ}
use pangolin_kube_controller.Text.{Text}

-- CertificateSecretRef
pub record CertificateSecretRef : Type 0 where
  pub secret_name : Text
  pub namespace : Text

-- The fields of `Config`, but for ClientQPS, which is a float64 that is only handed to client-go.
-- A time.Duration is in nanoseconds.
pub record Config : Type 0 where
  pub poll_interval : ℤ
  pub endpoint : Text
  pub namespace : Text
  pub max_backoff : ℤ
  pub leader_enabled : Bool
  pub lease_lock_name : Text
  pub lease_lock_namespace : Text
  pub lease_duration : ℤ
  pub renew_deadline : ℤ
  pub retry_period : ℤ
  pub read_only : Bool
  pub standalone_http_only : Bool
  pub log_traefik_config : Bool
  pub log_config_preview : Bool
  pub on_lose_behavior : Text
  pub max_config_log_bytes : ℤ
  pub ingress_class : Text
  pub ingress_class_provided : Bool
  pub managed_anno_key : Text
  pub managed_anno_value : Text
  pub managed_label_key : Text
  pub managed_label_value : Text
  pub ssa_force : Bool
  pub traefik_instance_label_key : Text
  pub traefik_instance_label_value : Text
  pub ingress_class_label_verify_interval : ℤ
  pub ingress_class_label_strict : Bool
  pub config_file : Text
  pub fetch_timeout : ℤ
  pub fetch_log_interval : ℤ
  pub auth_header : Text
  pub ca_file : Text
  pub client_cert_file : Text
  pub client_key_file : Text
  pub tls_skip_verify : Bool
  pub max_response_body_bytes : ℤ
  pub http_max_idle_conns : ℤ
  pub http_max_idle_conns_per_host : ℤ
  pub http_idle_conn_timeout : ℤ
  pub client_burst : ℤ
  pub reconcile_parallel : Bool
  pub reconcile_max : ℤ
  pub gc_workers : ℤ
  pub gc_grace_period : ℤ
  pub gc_grace_queue_size : ℤ
  pub traefik_lb_url : Text
  pub traefik_lb_ip : Text
  pub traefik_lb_scheme : Text
  pub traefik_lb_port : Text
  pub gateway_service_name : Text
  pub gateway_service_port : ℤ
  pub metrics_addr : Text
  pub disable_livez : Bool
  pub enable_pprof : Bool
  pub metrics_tls_cert_file : Text
  pub metrics_tls_key_file : Text
  pub metrics_plaintext_ok : Bool
  pub metrics_read_header_timeout : ℤ
  pub allow_insecure_http : Bool
  pub certificate_secrets : List CertificateSecretRef
