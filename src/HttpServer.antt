-- ===== src/HttpServer.antt =====
-- internal/httpserver (server.go, routes.go, tls.go) and cmd/healthcheck/main.go: the endpoints for
-- health, metrics and profiling, and the probe that asks for readiness.
pub mod Plaintext
use pangolin_kube_controller.Prelude.{
  ℕ, Bool, true, false, not, ◌&&◌, ◌||◌, Option, none, some, ◌++◌, if◌then◌else◌, is_empty,
  is_positive, ℤ, pos, ◌==◌,
}
use pangolin_kube_controller.Text.{Text, codes, text_eq, has_prefix, trim_space}
use pangolin_kube_controller.Config.{Config}

-- How `Start` listens: with TLS, over plain HTTP, or not at all.
pub data Listen : Type 0 where
  tls : Text → Text → Text → Listen
  plain : Text → Listen
  refused_pprof : Listen

-- computeBindAddr
unfoldable pub compute_bind_addr : Text → Text
compute_bind_addr addr =
    if is_empty addr
    then codes ":9090"
    else if has_prefix addr (codes ":")
    then codes "0.0.0.0" ++ addr
    else addr

-- checkPprofPlaintextAllowed
unfoldable pub check_pprof_plaintext_allowed : Config → Bool
check_pprof_plaintext_allowed cfg = not (cfg.enable_pprof && not cfg.metrics_plaintext_ok)

-- Start
unfoldable pub start : Config → Listen
unfolding compute_bind_addr check_pprof_plaintext_allowed
start cfg =
    if not (is_empty cfg.metrics_tls_cert_file) && not (is_empty cfg.metrics_tls_key_file)
    then tls cfg.metrics_addr cfg.metrics_tls_cert_file cfg.metrics_tls_key_file
    else if not (check_pprof_plaintext_allowed cfg)
    then refused_pprof
    else plain (compute_bind_addr cfg.metrics_addr)

-- Serve; `addr` is that of the listener.
unfoldable pub serve : Config → Text → Listen
unfolding check_pprof_plaintext_allowed
serve cfg addr =
    if not (is_empty cfg.metrics_tls_cert_file) && not (is_empty cfg.metrics_tls_key_file)
    then tls cfg.metrics_addr cfg.metrics_tls_cert_file cfg.metrics_tls_key_file
    else if not (check_pprof_plaintext_allowed cfg)
    then refused_pprof
    else plain addr

-- timeoutOrDefault
unfoldable pub timeout_or_default : ℤ → ℤ → ℤ
timeout_or_default d def = if is_positive d then d else def

-- The handlers that are registered.
pub data Handler : Type 0 where
  metrics live ready certificates pprof : Handler

-- The paths of newServeMux and RegisterCertificatesHandler, each with the handler that answers it.
-- net/http gives a pattern that ends in a slash all paths below it.
unfoldable pub route : Config → Bool → Bool → Text → Option Handler
route cfg has_metrics has_certificates path =
    if has_metrics && text_eq path (codes "/metrics")
    then some metrics
    else if not cfg.disable_livez
        && (text_eq path (codes "/livez") || text_eq path (codes "/health/live"))
    then some live
    else if text_eq path (codes "/healthz")
        || text_eq path (codes "/readyz")
        || text_eq path (codes "/health/ready")
    then some ready
    else if cfg.enable_pprof && has_prefix path (codes "/debug/pprof/")
    then some pprof
    else if has_certificates && text_eq path (codes "/api/v1/certificates")
    then some certificates
    else none

-- The status of readyHandler
unfoldable pub ready_status : Bool → ℕ
ready_status readiness = if readiness then 200 else 503

-- The URL that the probe asks, by its argument and METRICS_ADDR
unfoldable pub probe_url : Text → Text → Text
probe_url arg metrics_addr =
    let url = trim_space arg in
    let addr = if is_empty metrics_addr then codes ":9090" else metrics_addr in
    let host = if has_prefix addr (codes ":") then codes "localhost" ++ addr else addr in
    if is_empty url || not (has_prefix url (codes "http"))
    then codes "http://" ++ (host ++ codes "/health/ready")
    else url

-- The exit code of the probe, by the status of the answer, if there is one
unfoldable pub probe_exit : Option ℕ → ℕ
probe_exit answer = elim answer [ none ↦ 1 | some status ↦ if status == 200 then 0 else 1 ]
