-- ===== src/Examples/Startup.antt =====
-- The settings, the fetching, the log, the certificates and the start-up at concrete inputs.
use mathlib.Core.Option
use pangolin_kube_controller.Prelude.{
  ℕ, ◌+◌, ◌≡◌, ◌≤◌, ◌⊎◌, ◌↔◌, ◌&&◌, ◌||◌, refl, true, false, none, some, List, [], ◌∷◌, All, Among,
  if◌then◌else◌, length, ltb, ◌==◌, pos, is_positive, to_ℕ, arith,
}
use pangolin_kube_controller.Text.{Text, codes, text_eq, is_space}
use pangolin_kube_controller.Json.{Value, str, obj, literal}
use pangolin_kube_controller.Config.{CertificateSecretRef}
use pangolin_kube_controller.Config.Validate.{normalize}
use pangolin_kube_controller.Config.Env.{Env, parse_certificate_secrets_env}
use pangolin_kube_controller.Config.Env.Refs.{
  IsPlain, IsRef, print_refs, parse_certificate_secrets-print,
}
use pangolin_kube_controller.Config.File.Documented.{documented}
use pangolin_kube_controller.Config.File.{FileConfig, Loader, config_file_of, load_from_env}
use pangolin_kube_controller.Config.File.Parts.{resolved}
use pangolin_kube_controller.Config.File.Resolved.{load_from_env_lem}
use pangolin_kube_controller.Controller.Fetch.{
  Request, follow, more, eof, too_large, Reader, read_with_limit,
}
use pangolin_kube_controller.Controller.Fetch.Redirects.{CarriesOn, redirects-CarriesOn}
use pangolin_kube_controller.Controller.Fetch.Limit.{
  FitsBuffer, content, end_error, read_with_limit_lem,
}
use pangolin_kube_controller.Logging.{redact_any, redacted, logged_preview}
use pangolin_kube_controller.Logging.Masks.{Step, key, at_path, passes_sensitive, redact_any_lem}
use pangolin_kube_controller.Logging.Preview.{Redacted, logged_preview-Redacted}
use pangolin_kube_controller.Certificates.{CertificateResponse, CertLib, fetch_all}
use pangolin_kube_controller.Certificates.Serves.{Serves, Among-fetch_all}
use pangolin_kube_controller.Orchestration.{
  Happening, lose_leadership, server_returns, run_controller,
}
use pangolin_kube_controller.Orchestration.Blocks.{loss_of_leadership-waits}
use pangolin_kube_controller.Examples.Data.{cfg, codec}

-- The references of CERTIFICATE_SECRETS: "tls,shop/web".
abbrev refs : List CertificateSecretRef
refs =
    record { secret_name = codes "tls"; namespace = [] }
    ∷ record { secret_name = codes "web"; namespace = codes "shop" }
    ∷ []

plain : (c : ℕ) → (c == b'/') ≡ false → (c == b',') ≡ false → is_space c ≡ false → IsPlain c
plain c s m w = record { no_slash = s; no_comma = m; no_space = w }

refs-IsRef : All IsRef refs
unfolding is_space
refs-IsRef = (
  record {
    plain_namespace = tt;
    plain_name =
        (plain b't' refl refl refl, (plain b'l' refl refl refl, (plain b's' refl refl refl, tt)));
    named = refl;
  },
  (
    record {
      plain_namespace = (
        plain b's' refl refl refl,
        (plain b'h' refl refl refl, (plain b'o' refl refl refl, (plain b'p' refl refl refl, tt))),
      );
      plain_name =
          (plain b'w' refl refl refl, (plain b'e' refl refl refl, (plain b'b' refl refl refl, tt)));
      named = refl;
    },
    tt,
  ),
)

parse_certificate_secrets-print_example : parse_certificate_secrets_env (print_refs refs) ≡ refs
parse_certificate_secrets-print_example = parse_certificate_secrets-print refs refs-IsRef

-- An environment that sets the class and names a file.
abbrev env : Env
env k =
    if text_eq k (codes "INGRESS_CLASS")
    then some (codes "traefik")
    else if text_eq k (codes "CONFIG_FILE")
    then some (codes "/etc/controller.yaml")
    else none

abbrev file : FileConfig
file = record {
  traefik_instance_label = codes "app=edge";
  traefik_instance_label_key = [];
  traefik_instance_label_value = [];
  ingress_class = codes "other";
  ingress_class_label_verify_int = [];
  ingress_class_label_strict = some true;
  certificate_secrets = refs;
}

abbrev loader : Loader
loader = record {
  fold = λ c. c;
  parse_duration = λ t. none;
  read_file = λ t. some (codes "yaml");
  parse_yaml = λ t. some file;
}

load_from_env_lem_example :
    let d = documented loader.fold loader.parse_duration env in
    load_from_env loader env
    ≡ normalize (resolved loader.parse_duration env d (config_file_of loader env d))
load_from_env_lem_example = load_from_env_lem loader env

abbrev first_sent : Request
first_sent = record {
  scheme = codes "https";
  host = codes "pangolin";
  if_none_match = codes "v1";
  authorization = cfg.auth_header;
}

-- What net/http prepares: the target, with the headers of the first request.
abbrev prepare : List Request → Text × Text → Request
prepare via (scheme, host) = record first_sent { scheme = scheme; host = host }

abbrev targets : List (Text × Text)
targets = (codes "https", codes "pangolin") ∷ (codes "https", codes "elsewhere") ∷ []

redirects-CarriesOn_example :
    (sent : List Request) × (follow (λ c. c) cfg prepare (first_sent ∷ []) targets
      ≡ first_sent ∷ sent)
    × All (CarriesOn (λ c. c) cfg first_sent) sent
    × (length (first_sent ∷ sent) ≤ 10)
redirects-CarriesOn_example = redirects-CarriesOn (λ c. c) cfg first_sent prepare targets

abbrev body : Reader
body = (codes "hello", more) ∷ (codes "world", eof) ∷ []

body-FitsBuffer : FitsBuffer body
body-FitsBuffer = (omega arith, (omega arith, tt))

read_with_limit_lem_example :
    (((is_positive (pos 7) && ltb (to_ℕ (pos 7)) (length (content body))) ≡ false)
      × (read_with_limit body (pos 7) ≡ record { result = content body; error = end_error body }))
    ⊎ (((is_positive (pos 7) && ltb (to_ℕ (pos 7)) (length (content body))) ≡ true)
        × ((read_with_limit body (pos 7)).error ≡ some too_large)
        × (length (read_with_limit body (pos 7)).result ≤ to_ℕ (pos 7) + 8192))
read_with_limit_lem_example = read_with_limit_lem body (pos 7) body-FitsBuffer

abbrev password : Value
password =
    obj (literal ((codes "db", obj (literal ((codes "Password", str (codes "x")) ∷ []))) ∷ []))

abbrev to_password : List Step
to_password = key (codes "db") ∷ key (codes "Password") ∷ []

redact_any_lem_example :
    ((passes_sensitive (λ c. c) to_password ≡ true)
      × ((at_path to_password (redact_any (λ c. c) password) ≡ none)
          ⊎ (at_path to_password (redact_any (λ c. c) password) ≡ some (str redacted))))
    ⊎ ((passes_sensitive (λ c. c) to_password ≡ false)
        × (at_path to_password (redact_any (λ c. c) password)
            ≡ Option.map (redact_any (λ c. c)) (at_path to_password password)))
redact_any_lem_example = redact_any_lem (λ c. c) to_password password

preview_written : logged_preview (λ c. c) codec cfg (codes "{}") ≡ some (codes "{}")
unfolding logged_preview text_eq
preview_written = refl

logged_preview-Redacted_example :
    ((cfg.log_config_preview || cfg.log_traefik_config) ≡ true)
    × Redacted (λ c. c) codec cfg (codes "{}") (codes "{}")
logged_preview-Redacted_example =
    logged_preview-Redacted (λ c. c) codec cfg (codes "{}") (codes "{}") preview_written

-- A cluster whose Secrets all hold one certificate.
abbrev cert_lib : CertLib
cert_lib = record {
  secret = λ namespace name. some (record {
    kind = codes "kubernetes.io/tls";
    tls_crt = some (codes "crt");
    tls_key = some (codes "key");
  });
  pem_block = λ t. some t;
  parse_x509 = λ t. some (record { common_name = codes "*.shop"; dns_names = [] });
}

abbrev web_response : CertificateResponse
web_response = record {
  wildcard = true;
  alt_name = codes "*.shop";
  cert_name = codes "web";
  common_name = codes "*.shop";
  cert_file = codes "crt";
  key_file = codes "key";
}

Among-fetch_all_example : Among web_response (fetch_all cert_lib refs (codes "pangolin")) ↔ (
    (ref : CertificateSecretRef) × Among ref refs
    × Serves cert_lib (codes "pangolin") ref web_response)
Among-fetch_all_example = Among-fetch_all cert_lib (codes "pangolin") refs web_response

abbrev quiet : List Happening
quiet = server_returns none ∷ lose_leadership ∷ []

loss_of_leadership-waits_example : run_controller (λ c. c) cfg true true quiet ≡ none
loss_of_leadership-waits_example = loss_of_leadership-waits (λ c. c) cfg quiet (refl, (tt, tt))
