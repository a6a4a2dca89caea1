-- ===== src/Config/File/Sources.antt =====
-- internal/config/file.go and internal/config/env.go: where each setting comes from.
use pangolin_kube_controller.Prelude.{
  ◌≡◌, refl, not, ◌&&◌, ◌||◌, inl, inr, Bool-cases, Option, Option-cases, none, some, List,
  if◌then◌else◌, is_empty, is_some, or_else, ℤ,
}
use pangolin_kube_controller.Text.{Text, codes, trim_space}
use pangolin_kube_controller.Config.{Config, CertificateSecretRef}
use pangolin_kube_controller.Config.Env.{
  Env, cut, mark_ingress_class_provided, populate_instance_label_from_env, apply_kv_pair,
  with_instance_label,
}
use pangolin_kube_controller.Config.File.{
  FileConfig, merge_file_ingress_class, merge_file_verify_interval, merge_file_strict,
  merge_file_instance_label, merge_file_certificate_secrets,
}

-- A text that is set.
abbrev pub nonblank : Text → Option Text
nonblank t = if is_empty t then none else some t

abbrev pub first_of {ℓ} : {A : Type ℓ} → Option A → Option A → Option A
first_of (some a) b = some a
first_of none b = b

abbrev pub chain {ℓ κ} : {A : Type ℓ} {B : Type κ} → (A → Option B) → Option A → Option B
chain f none = none
chain f (some a) = f a

-- The value of the file counts only where the variable is not set.
abbrev pub unless_set {ℓ} : {A : Type ℓ} → Option Text → Option A → Option A
unless_set (some v) file = none
unless_set none file = file

abbrev pub some_refs : List CertificateSecretRef → Option (List CertificateSecretRef)
some_refs refs = if is_empty refs then none else some refs

-- The pair in a text "key=value".
abbrev pub pair_in : Text → Option (Text × Text)
pair_in kv = chain (λ (p : Text × Text). some (trim_space p.0, trim_space p.1)) (cut b'=' kv)

-- The pair of the environment: a key or a value alone does not count.
abbrev pub env_pair : Option Text → Option Text → Option Text → Option (Text × Text)
env_pair (some k) (some v) kv = some (trim_space k, trim_space v)
env_pair none none kv = chain pair_in kv
env_pair k v kv = none

abbrev pub with_pair : Option (Text × Text) → Config → Config
with_pair none cfg = cfg
with_pair (some (k, v)) cfg = with_instance_label k v cfg

pub apply_kv_pair_lem :
    (kv : Text) (cfg : Config) → apply_kv_pair kv cfg ≡ with_pair (pair_in kv) cfg
unfolding apply_kv_pair
apply_kv_pair_lem kv cfg = elim (Option-cases (cut b'=' kv)) [
  | inl e ↦ rw (e, apply_kv_pair) refl
  | inr (p, e) ↦ rw (e, apply_kv_pair) refl
]

module _ (fc : FileConfig) (cfg : Config) where
  pub merge_file_ingress_class_lem : merge_file_ingress_class fc cfg ≡ record cfg {
    ingress_class =
        if cfg.ingress_class_provided
        then cfg.ingress_class
        else or_else (nonblank (trim_space fc.ingress_class)) cfg.ingress_class;
    ingress_class_provided =
        cfg.ingress_class_provided || is_some (nonblank (trim_space fc.ingress_class));
  }
  unfolding merge_file_ingress_class
  merge_file_ingress_class_lem = elim (Bool-cases cfg.ingress_class_provided) [
    | inl p ↦ rw p refl
    | inr p ↦ elim (Bool-cases (is_empty (trim_space fc.ingress_class))) [
      | inl e ↦ rw (p, e) refl
      | inr e ↦ rw (p, e) refl
    ]
  ]

  -- The pair that counts: one with a key and a value, of the configuration or of the two fields of
  -- the file, before that of the one field.
  abbrev pub file_pair : Option (Text × Text)
  file_pair =
      if not (is_empty cfg.traefik_instance_label_key)
        && not (is_empty cfg.traefik_instance_label_value)
      then none
      else if not (is_empty (trim_space fc.traefik_instance_label_key))
          && not (is_empty (trim_space fc.traefik_instance_label_value))
      then some
          (trim_space fc.traefik_instance_label_key, trim_space fc.traefik_instance_label_value)
      else chain pair_in (nonblank (trim_space fc.traefik_instance_label))

  pub merge_file_instance_label_lem : merge_file_instance_label fc cfg ≡ with_pair file_pair cfg
  unfolding merge_file_instance_label
  merge_file_instance_label_lem =
      elim (Bool-cases (
        not (is_empty cfg.traefik_instance_label_key)
        && not (is_empty cfg.traefik_instance_label_value))) [
          | inl e ↦ rw e refl
          | inr e ↦
              elim (Bool-cases (
                not (is_empty (trim_space fc.traefik_instance_label_key))
                && not (is_empty (trim_space fc.traefik_instance_label_value)))) [
                  | inl f ↦ rw (e, f) refl
                  | inr f ↦ elim (Bool-cases (is_empty (trim_space fc.traefik_instance_label))) [
                    | inl g ↦ rw (e, f, g) refl
                    | inr g ↦
                        rw (e, f, g) (apply_kv_pair_lem (trim_space fc.traefik_instance_label) cfg)
                  ]
                ]
        ]

module _ (env : Env) (fc : FileConfig) (cfg : Config) where
  pub merge_file_strict_lem : merge_file_strict env fc cfg ≡ record cfg {
    ingress_class_label_strict =
        or_else
          (unless_set (env (codes "INGRESS_CLASS_LABEL_STRICT")) fc.ingress_class_label_strict)
          cfg.ingress_class_label_strict;
  }
  unfolding merge_file_strict
  merge_file_strict_lem = elim (Option-cases (env (codes "INGRESS_CLASS_LABEL_STRICT"))) [
    | inr (v, set) ↦ rw set refl
    | inl unset ↦ elim (Option-cases fc.ingress_class_label_strict) [
      | inl n ↦ rw (unset, n) refl
      | inr (b, y) ↦ rw (unset, y) refl
    ]
  ]

  pub merge_file_certificate_secrets_lem : merge_file_certificate_secrets env fc cfg ≡ record cfg {
    certificate_secrets =
        or_else
          (unless_set (env (codes "CERTIFICATE_SECRETS")) (some_refs fc.certificate_secrets))
          cfg.certificate_secrets;
  }
  unfolding merge_file_certificate_secrets
  merge_file_certificate_secrets_lem = elim (Option-cases (env (codes "CERTIFICATE_SECRETS"))) [
    | inr (v, set) ↦ rw set refl
    | inl unset ↦ elim (Bool-cases (is_empty fc.certificate_secrets)) [
      | inl e ↦ rw (unset, e) refl
      | inr e ↦ rw (unset, e) refl
    ]
  ]

module _ (parse_duration : Text → Option ℤ) (env : Env) (fc : FileConfig) (cfg : Config) where
  pub merge_file_verify_interval_lem :
      merge_file_verify_interval parse_duration env fc cfg ≡ record cfg {
        ingress_class_label_verify_interval =
            or_else
              (unless_set
                (env (codes "INGRESS_CLASS_LABEL_VERIFY_INTERVAL"))
                (chain parse_duration (nonblank (trim_space fc.ingress_class_label_verify_int))))
              cfg.ingress_class_label_verify_interval;
      }
  unfolding merge_file_verify_interval
  merge_file_verify_interval_lem =
      elim (Option-cases (env (codes "INGRESS_CLASS_LABEL_VERIFY_INTERVAL"))) [
        | inr (v, set) ↦ rw set refl
        | inl unset ↦ elim (Bool-cases (is_empty (trim_space fc.ingress_class_label_verify_int))) [
          | inl e ↦ rw (unset, e) refl
          | inr e ↦
              elim (Option-cases (parse_duration (trim_space fc.ingress_class_label_verify_int))) [
                | inl n ↦ rw (unset, e, n) refl
                | inr (d, y) ↦ rw (unset, e, y) refl
              ]
        ]
      ]

module _ (env : Env) (cfg : Config) where
  pub populate_lem :
      populate_instance_label_from_env env cfg
      ≡ with_pair
          (env_pair
            (env (codes "TRAEFIK_INSTANCE_LABEL_KEY"))
            (env (codes "TRAEFIK_INSTANCE_LABEL_VALUE"))
            (env (codes "TRAEFIK_INSTANCE_LABEL")))
          cfg
  unfolding populate_instance_label_from_env
  populate_lem = elim (Option-cases (env (codes "TRAEFIK_INSTANCE_LABEL_KEY"))) [
    | inl k ↦ elim (Option-cases (env (codes "TRAEFIK_INSTANCE_LABEL_VALUE"))) [
      | inl v ↦ elim (Option-cases (env (codes "TRAEFIK_INSTANCE_LABEL"))) [
        | inl n ↦ rw (k, v, n) refl
        | inr (kv, y) ↦ rw (k, v, y) (apply_kv_pair_lem kv cfg)
      ]
      | inr (v, y) ↦ rw (k, y) refl
    ]
    | inr (k, y) ↦ elim (Option-cases (env (codes "TRAEFIK_INSTANCE_LABEL_VALUE"))) [
      | inl v ↦ rw (y, v) refl
      | inr (v, z) ↦ rw (y, z) refl
    ]
  ]

  pub mark_lem : mark_ingress_class_provided env cfg ≡ record cfg {
    ingress_class_provided = is_some (env (codes "INGRESS_CLASS")) || cfg.ingress_class_provided;
  }
  unfolding mark_ingress_class_provided
  mark_lem = elim (Option-cases (env (codes "INGRESS_CLASS"))) [
    | inl e ↦ rw e refl
    | inr (v, e) ↦ rw e refl
  ]
