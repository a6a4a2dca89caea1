-- ===== src/HttpServer/Plaintext.antt =====
-- internal/httpserver: profiling is not served over plain HTTP unless that is allowed.
use pangolin_kube_controller.Prelude.{◌≡◌, ◌⊎◌, inl, inr, Bool, true, some, arith}
use pangolin_kube_controller.Text.{Text}
use pangolin_kube_controller.Config.{Config}
use pangolin_kube_controller.HttpServer.{
  plain, check_pprof_plaintext_allowed, start, serve, route, pprof,
}

-- A server that listens over plain HTTP, by `Start` or by `Serve`.
abbrev pub ListensPlain : Config → Type 0
ListensPlain cfg =
    ((addr : Text) × (start cfg ≡ plain addr))
    ⊎ ((addr : Text) × (listener : Text) × (serve cfg listener ≡ plain addr))

start_allowed :
    (cfg : Config) (addr : Text) → start cfg ≡ plain addr → check_pprof_plaintext_allowed cfg ≡ true
unfolding start
start_allowed cfg addr e = ground arith

serve_allowed :
    (cfg : Config) (addr listener : Text)
    → serve cfg listener ≡ plain addr
    → check_pprof_plaintext_allowed cfg ≡ true
unfolding serve
serve_allowed cfg addr listener e = ground arith

route_enabled :
    (cfg : Config) (has_metrics has_certificates : Bool) (path : Text)
    → route cfg has_metrics has_certificates path ≡ some pprof
    → cfg.enable_pprof ≡ true
unfolding route
route_enabled cfg has_metrics has_certificates path e = ground arith

-- If the server listens over plain HTTP, by `Start` or by `Serve`, and some path is answered by a
-- handler of pprof, then METRICS_PLAINTEXT_OK is set.
pub pprof-plaintext_ok :
    (cfg : Config) (has_metrics has_certificates : Bool) (path : Text)
    → ListensPlain cfg
    → route cfg has_metrics has_certificates path ≡ some pprof
    → cfg.metrics_plaintext_ok ≡ true
unfolding check_pprof_plaintext_allowed
pprof-plaintext_ok cfg has_metrics has_certificates path l e =
    let enabled = route_enabled cfg has_metrics has_certificates path e in
    let ok : check_pprof_plaintext_allowed cfg ≡ true = elim l [
      | inl (addr, s) ↦ start_allowed cfg addr s
      | inr (addr, listener, s) ↦ serve_allowed cfg addr listener s
    ] in
    ground arith
