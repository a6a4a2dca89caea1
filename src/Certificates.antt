-- ===== src/Certificates.antt =====
-- internal/certificates/certificates.go: the endpoint that hands out TLS certificates from Secrets.
pub mod Serves
use pangolin_kube_controller.Prelude.{
  ℕ, Bool, true, false, not, ◌&&◌, ◌||◌, Option, none, some, List, [], ◌∷◌, if◌then◌else◌, is_empty,
}
use pangolin_kube_controller.Text.{Text, codes, text_eq, has_prefix, trim_space}
use pangolin_kube_controller.Config.{CertificateSecretRef}
use pangolin_kube_controller.Config.Env.{cons_some}

-- CertificateResponse
pub record CertificateResponse : Type 0 where
  pub wildcard : Bool
  pub alt_name : Text
  pub cert_name : Text
  pub common_name : Text
  pub cert_file : Text
  pub key_file : Text

-- What is read of a Secret; a missing key of its data is `none`.
pub record Secret : Type 0 where
  pub kind : Text
  pub tls_crt : Option Text
  pub tls_key : Option Text

-- What is read of an *x509.Certificate.
pub record Certificate : Type 0 where
  pub common_name : Text
  pub dns_names : List Text

-- The Kubernetes client, by namespace and name, and pem.Decode and x509.ParseCertificate.
pub record CertLib : Type 0 where
  pub secret : Text → Text → Option Secret
  pub pem_block : Text → Option Text
  pub parse_x509 : Text → Option Certificate

-- ControllerNamespace; `file` is the content of the service account's namespace file.
unfoldable pub controller_namespace : Option Text → Text → Text
controller_namespace none fallback = fallback
controller_namespace (some b) fallback = if is_empty (trim_space b) then fallback else trim_space b

-- firstDNSSAN
unfoldable pub first_dns_san : Certificate → Text
first_dns_san cert = elim cert.dns_names [ [] ↦ [] | san ∷ sans ↦ san ]

abbrev any_wildcard : List Text → Bool
any_wildcard [] = false
any_wildcard (san ∷ sans) = has_prefix san (codes "*.") || any_wildcard sans

-- isWildcard
unfoldable pub is_wildcard : Certificate → Bool
is_wildcard cert = has_prefix cert.common_name (codes "*.") || any_wildcard cert.dns_names

-- `len` of a value of the data; a missing one has no bytes.
abbrev pub is_missing : Option Text → Bool
is_missing none = true
is_missing (some b) = is_empty b

abbrev pub content_of : Option Text → Text
content_of none = []
content_of (some b) = b

-- The response for a certificate that was parsed
abbrev pub response_for : Text → Text → Text → Certificate → CertificateResponse
response_for name crt key cert = record {
  wildcard = is_wildcard cert;
  alt_name = if is_empty (first_dns_san cert) then cert.common_name else first_dns_san cert;
  cert_name = name;
  common_name = cert.common_name;
  cert_file = crt;
  key_file = key;
}

module _ (lib : CertLib) where
  abbrev pub parse_block : Option Text → Option Certificate
  parse_block none = none
  parse_block (some block) = lib.parse_x509 block

  -- parseCertificate
  unfoldable pub parse_certificate : Text → Option Certificate
  parse_certificate pem = parse_block (lib.pem_block pem)

  abbrev pub parsed_response : Text → Secret → Option Certificate → Option CertificateResponse
  parsed_response name s none = none
  parsed_response name s (some cert) =
      some (response_for name (content_of s.tls_crt) (content_of s.tls_key) cert)

  -- fetchOne, once the Secret was found
  abbrev pub from_secret : Text → Secret → Option CertificateResponse
  from_secret name s =
      if not (text_eq s.kind (codes "kubernetes.io/tls"))
      then none
      else if is_missing s.tls_crt
      then none
      else if is_missing s.tls_key
      then none
      else parsed_response name s (parse_certificate (content_of s.tls_crt))

  abbrev pub from_found : Text → Option Secret → Option CertificateResponse
  from_found name none = none
  from_found name (some s) = from_secret name s

  -- fetchOne; a Secret that cannot be served is logged and left out.
  unfoldable pub fetch_one : Text → Text → Option CertificateResponse
  unfolding parse_certificate is_wildcard first_dns_san
  fetch_one name namespace = from_found name (lib.secret namespace name)

  abbrev pub namespace_of : Text → CertificateSecretRef → Text
  namespace_of controller ref = if is_empty ref.namespace then controller else ref.namespace

  -- FetchAll
  unfoldable pub fetch_all : List CertificateSecretRef → Text → List CertificateResponse
  unfolding fetch_one
  fetch_all [] controller = []
  fetch_all (ref ∷ refs) controller =
      cons_some (fetch_one ref.secret_name (namespace_of controller ref))
        (fetch_all refs controller)

  -- Handler: the status, and the certificates that are written as JSON
  unfoldable pub handler : List CertificateSecretRef → Text → Text → ℕ × List CertificateResponse
  unfolding fetch_all
  handler refs controller method =
      if not (text_eq method (codes "GET")) && not (text_eq method (codes "HEAD"))
      then (405, [])
      else (200, fetch_all refs controller)
