-- ===== src/Controller/Fetch.antt =====
-- internal/controller/fetch.go: the client that fetches the configuration. The files, the parsing of
-- certificates, net/http and the reader of a body are parameters.
pub mod Redirects
pub mod Limit
use pangolin_kube_controller.Prelude.{
  ℕ, ◌+◌, Bool, true, false, not, ◌&&◌, ◌||◌, Option, none, some, List, [], ◌∷◌, ◌++◌, map, ltb,
  leb, length, if◌then◌else◌, is_empty, ℤ, is_positive, to_ℕ,
}
use pangolin_kube_controller.Text.{Text, codes, text_eq, equal_fold}
use pangolin_kube_controller.Config.{Config}
use pangolin_kube_controller.Controller.Loop.{Response}

-- The parts of an *http.Request that the code reads and writes. An absent header is "".
pub record Request : Type 0 where
  pub scheme : Text
  pub host : Text
  pub if_none_match : Text
  pub authorization : Text

module _ (fold : ℕ → ℕ) (cfg : Config) where
  abbrev pub same_site : Request → Request → Bool
  same_site r orig = equal_fold fold r.host orig.host && equal_fold fold r.scheme orig.scheme

  abbrev pub keep_if_none_match : Request → Request → Request
  keep_if_none_match orig req =
      if is_empty orig.if_none_match then req else record req { if_none_match = orig.if_none_match }

  abbrev pub authorize : Request → Request → Request
  authorize orig req =
      if not (is_empty cfg.auth_header) && same_site req orig
      then record req { authorization = cfg.auth_header }
      else record req { authorization = [] }

  -- client.CheckRedirect of buildHTTPClientFromConfig: the request as it is changed, unless the
  -- redirect is refused. `via` are the requests before, the first one first.
  unfoldable pub check_redirect : Request → List Request → Option Request
  check_redirect req [] = some req
  check_redirect req (orig ∷ via) =
      if leb 10 (length (orig ∷ via))
      then none
      else some (authorize orig (keep_if_none_match orig req))

  -- The requests that `client.Do` sends: each redirect is a target, for which net/http prepares a
  -- request in a way of its own, and a redirect that is refused ends the chain.
  unfoldable pub follow :
      (List Request → Text × Text → Request) → List Request → List (Text × Text) → List Request
  unfolding check_redirect
  follow prepare via [] = via
  follow prepare via (target ∷ targets) = elim (check_redirect (prepare via target) via) [
    | none ↦ via
    | some req ↦ follow prepare (via ++ req ∷ []) targets
  ]

  -- The request of fetchConditional; "" is no value for If-None-Match.
  unfoldable pub first_request : Text → Text → Text → Request
  first_request scheme host if_none_match = record {
    scheme = scheme;
    host = host;
    if_none_match = if_none_match;
    authorization = cfg.auth_header;
  }

-- How a read of a body ends.
pub data ReadEnd : Type 0 where
  more eof broken : ReadEnd

-- The reads that a reader answers, each with its bytes; behind the last one it is at its end.
abbrev pub Reader : Type 0
Reader = List (Text × ReadEnd)

pub data ReadError : Type 0 where
  too_large failed : ReadError

-- The results of readWithLimit, but for the total.
pub record Read : Type 0 where
  pub result : Text
  pub error : Option ReadError

-- io.ReadAll
unfoldable pub read_all : Text → Reader → Read
read_all result [] = record { result = result; error = none }
read_all result ((d, more) ∷ reads) = read_all (result ++ d) reads
read_all result ((d, eof) ∷ reads) = record { result = result ++ d; error = none }
read_all result ((d, broken) ∷ reads) = record { result = result ++ d; error = some failed }

-- `n > 0` and `total > limit` behind a read
abbrev pub exceeds : ℕ → ℕ → Text → Bool
exceeds limit total d = ltb 0 (length d) && ltb limit (total + length d)

-- The end of a round of the loop, by the error that the read has returned
abbrev pub after_read : ReadEnd → Text → Read → Read
after_read more result rest = rest
after_read eof result rest = record { result = result; error = none }
after_read broken result rest = record { result = result; error = some failed }

-- The loop of readWithLimit
unfoldable pub read_loop : ℕ → ℕ → Text → Reader → Read
read_loop limit total result [] = record { result = result; error = none }
read_loop limit total result ((d, e) ∷ reads) =
    let rest = read_loop limit (total + length d) (result ++ d) reads in
    if exceeds limit total d
    then record { result = result ++ d; error = some too_large }
    else after_read e (result ++ d) rest

-- readWithLimit
unfoldable pub read_with_limit : Reader → ℤ → Read
unfolding read_all read_loop
read_with_limit r limit = if is_positive limit then read_loop (to_ℕ limit) 0 [] r else read_all [] r

-- The tls.Config that is built: whether certificates are not verified, the text of the CA file
-- whose certificates are trusted beside the system's, and the client's certificate.
pub record TlsConfig : Type 0 where
  pub insecure_skip_verify : Bool
  pub root_cas : Option Text
  pub certificate : Option Text

module _ (fold : ℕ → ℕ) (cfg : Config) where
  -- applySkipVerifyWithAck; `ack` is I_UNDERSTAND_CONFIG_TLS_SKIP_VERIFY_IS_INSECURE.
  unfoldable pub apply_skip_verify_with_ack : Text → TlsConfig → TlsConfig
  apply_skip_verify_with_ack ack tls =
      if not cfg.tls_skip_verify
      then tls
      else if not (equal_fold fold ack (codes "true"))
          && not (text_eq ack (codes "1"))
          && not (equal_fold fold ack (codes "yes"))
      then tls
      else record tls { insecure_skip_verify = true }

  -- loadCustomCA; `read_file` is os.ReadFile.
  unfoldable pub load_custom_ca : (Text → Option Text) → TlsConfig → TlsConfig
  load_custom_ca read_file tls =
      if is_empty cfg.ca_file then tls else elim (read_file cfg.ca_file) [
        | none ↦ tls
        | some pem ↦ record tls { root_cas = some pem }
      ]

  -- loadClientCert; `load_pair` is tls.LoadX509KeyPair.
  unfoldable pub load_client_cert : (Text → Text → Option Text) → TlsConfig → TlsConfig
  load_client_cert load_pair tls =
      if is_empty cfg.client_cert_file || is_empty cfg.client_key_file
      then tls
      else elim (load_pair cfg.client_cert_file cfg.client_key_file) [
        | none ↦ tls
        | some cert ↦ record tls { certificate = some cert }
      ]

  -- buildTLSConfigFromConfig
  unfoldable pub build_tls_config_from_config :
      Text → (Text → Option Text) → (Text → Text → Option Text) → TlsConfig
  unfolding apply_skip_verify_with_ack load_custom_ca load_client_cert
  build_tls_config_from_config ack read_file load_pair = load_client_cert load_pair (
      load_custom_ca read_file (
        apply_skip_verify_with_ack ack
          (record { insecure_skip_verify = false; root_cas = none; certificate = none })))

  -- What `client.Do` returns, where it returns no error: the status, the ETag and the body.
  abbrev pub Exchange : Type 0
  Exchange = Request → Option (ℕ × Text × Reader)

  abbrev received : ℕ → Text → Read → Option Response
  received status etag (r) = elim r.error [
    | none ↦ some (record { etag = etag; body = r.result; status = status })
    | some e ↦ none
  ]

  -- fetchConditional; an error of the request or of the body is `none`.
  unfoldable pub fetch_conditional : Exchange → Text → Text → Text → Option Response
  unfolding first_request read_with_limit
  fetch_conditional exchange scheme host if_none_match =
      elim (exchange (first_request fold cfg scheme host if_none_match)) [
        | none ↦ none
        | some (status, etag, body) ↦
            received status etag (read_with_limit body cfg.max_response_body_bytes)
      ]
