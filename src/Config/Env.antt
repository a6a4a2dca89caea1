-- ===== src/Config/Env.antt =====
-- internal/config/env.go and internal/config/defaults.go: the settings from the environment.
pub mod Refs
use pangolin_kube_controller.Prelude.{
  ℕ, ◌+◌, ◌*◌, Bool, true, false, ◌&&◌, ◌||◌, Option, none, some, List, [], ◌∷◌, if◌then◌else◌,
  is_empty, is_some, or_else, ◌==◌, ℤ, pos, suc,
}
use pangolin_kube_controller.Text.{Text, codes, text_eq, equal_fold, split, trim_space}
use pangolin_kube_controller.Text.Decimal.{parse_int, atoi}
use pangolin_kube_controller.Config.{Config, CertificateSecretRef}

-- os.LookupEnv; an unset variable reads as "" by os.Getenv.
abbrev pub Env : Type 0
Env = Text → Option Text

abbrev pub getenv : Env → Text → Text
getenv env k = or_else (env k) []

-- strings.Count of one character
unfoldable pub count : ℕ → Text → ℕ
count sep [] = 0
count sep (c ∷ s) = (if c == sep then 1 else 0) + count sep s

-- strings.Cut at one character, and strings.SplitN into two
unfoldable pub cut : ℕ → Text → Option (Text × Text)
cut sep [] = none
cut sep (c ∷ s) = elim (c == sep) [
  | true ↦ some ([], s)
  | false ↦ elim (cut sep s) [ none ↦ none | some (before, after) ↦ some (c ∷ before, after) ]
]

-- envString
unfoldable pub env_string : Env → Text → Text → Text
env_string env k def = if is_empty (getenv env k) then def else getenv env k

-- envDuration; `parse_duration` is time.ParseDuration, in nanoseconds.
unfoldable pub env_duration : (Text → Option ℤ) → Env → Text → ℤ → ℤ
env_duration parse_duration env k def =
    if is_empty (getenv env k) then def else or_else (parse_duration (getenv env k)) def

-- envBool; `fold` is that of equal_fold.
unfoldable pub env_bool : (ℕ → ℕ) → Env → Text → Bool → Bool
env_bool fold env k def =
    let v = getenv env k in
    if is_empty v
    then def
    else if equal_fold fold v (codes "true")
        || text_eq v (codes "1")
        || equal_fold fold v (codes "yes")
    then true
    else if equal_fold fold v (codes "false")
        || text_eq v (codes "0")
        || equal_fold fold v (codes "no")
    then false
    else def

-- envInt and envInt64
unfoldable pub env_int : Env → Text → ℤ → ℤ
env_int env k def = if is_empty (getenv env k) then def else or_else (atoi (getenv env k)) def

unfoldable pub env_int64 : Env → Text → ℤ → ℤ
env_int64 env k def =
    if is_empty (getenv env k) then def else or_else (parse_int 63 (getenv env k)) def

-- markIngressClassProvided
unfoldable pub mark_ingress_class_provided : Env → Config → Config
mark_ingress_class_provided env cfg =
    if is_some (env (codes "INGRESS_CLASS"))
    then record cfg { ingress_class_provided = true }
    else cfg

abbrev pub with_instance_label : Text → Text → Config → Config
with_instance_label k v cfg = record cfg {
  traefik_instance_label_key = k;
  traefik_instance_label_value = v;
}

-- applyKVPair
unfoldable pub apply_kv_pair : Text → Config → Config
unfolding cut
apply_kv_pair kv cfg = elim (cut b'=' kv) [
  | none ↦ cfg
  | some (k, v) ↦ with_instance_label (trim_space k) (trim_space v) cfg
]

abbrev instance_label_from : Option Text → Option Text → Option Text → Config → Config
instance_label_from (some k) none kv cfg = cfg
instance_label_from none (some v) kv cfg = cfg
instance_label_from (some k) (some v) kv cfg = with_instance_label (trim_space k) (trim_space v) cfg
instance_label_from none none (some kv) cfg = apply_kv_pair kv cfg
instance_label_from none none none cfg = cfg

-- populateInstanceLabelFromEnv
unfoldable pub populate_instance_label_from_env : Env → Config → Config
unfolding apply_kv_pair
populate_instance_label_from_env env cfg =
    instance_label_from (env (codes "TRAEFIK_INSTANCE_LABEL_KEY"))
      (env (codes "TRAEFIK_INSTANCE_LABEL_VALUE")) (env (codes "TRAEFIK_INSTANCE_LABEL")) cfg

-- A token with one slash; both parts must be there.
abbrev pub qualified : Option (Text × Text) → Option CertificateSecretRef
qualified none = none
qualified (some (ns, name)) =
    if is_empty (trim_space ns) || is_empty (trim_space name)
    then none
    else some (record { secret_name = trim_space name; namespace = trim_space ns })

-- One round of the loop of parseCertificateSecretsEnv; `none` is a token that is skipped.
unfoldable pub parse_ref : Text → Option CertificateSecretRef
unfolding count cut
parse_ref part =
    let p = trim_space part in
    if is_empty p
    then none
    else if count b'/' p == 0
    then some (record { secret_name = p; namespace = [] })
    else if count b'/' p == 1
    then qualified (cut b'/' p)
    else none

abbrev pub cons_some {ℓ} : {A : Type ℓ} → Option A → List A → List A
cons_some none l = l
cons_some (some a) l = a ∷ l

unfoldable pub parse_refs : List Text → List CertificateSecretRef
unfolding parse_ref
parse_refs [] = []
parse_refs (p ∷ parts) = cons_some (parse_ref p) (parse_refs parts)

-- parseCertificateSecretsEnv; a nil slice is the empty list.
unfoldable pub parse_certificate_secrets_env : Text → List CertificateSecretRef
unfolding parse_refs
parse_certificate_secrets_env raw =
    if is_empty (trim_space raw) then [] else parse_refs (split b',' (trim_space raw))
