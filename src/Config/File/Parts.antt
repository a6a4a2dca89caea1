-- ===== src/Config/File/Parts.antt =====
-- internal/config: the parts of the settings that depend on the environment and the file.
use pangolin_kube_controller.Prelude.{
  ◌≡◌, refl, ap, ◌∙◌, Bool, not, ◌&&◌, ◌||◌, inl, inr, Bool-cases, Option, none, some, List, [],
  if◌then◌else◌, is_empty, is_some, or_else, ℤ,
}
use pangolin_kube_controller.Text.{Text, codes, trim_space}
use pangolin_kube_controller.Config.{Config, CertificateSecretRef}
use pangolin_kube_controller.Config.Env.{
  Env, mark_ingress_class_provided, populate_instance_label_from_env,
}
use pangolin_kube_controller.Config.File.{
  FileConfig, Loader, merged, merge_file_ingress_class, merge_file_verify_interval,
  merge_file_strict, merge_file_instance_label, merge_file_certificate_secrets,
}
use pangolin_kube_controller.Config.File.Sources.{
  nonblank, chain, unless_set, some_refs, pair_in, env_pair, with_pair, file_pair,
  merge_file_ingress_class_lem, merge_file_instance_label_lem, merge_file_strict_lem,
  merge_file_certificate_secrets_lem, merge_file_verify_interval_lem, populate_lem, mark_lem,
}

-- The parts of the file that count.
abbrev pub file_class : FileConfig → Option Text
file_class fc = nonblank (trim_space fc.ingress_class)

-- The pair of the file: its two fields if both are set, and else that in its one field.
abbrev pub file_label : FileConfig → Option (Text × Text)
file_label fc =
    if not (is_empty (trim_space fc.traefik_instance_label_key))
      && not (is_empty (trim_space fc.traefik_instance_label_value))
    then some (trim_space fc.traefik_instance_label_key, trim_space fc.traefik_instance_label_value)
    else chain pair_in (nonblank (trim_space fc.traefik_instance_label))

-- A pair with a key and a value is kept; over any other the file comes first.
abbrev pub label_over : Text × Text → Option (Text × Text) → Text × Text
label_over p file = if not (is_empty p.0) && not (is_empty p.1) then p else or_else file p

module _ (parse_duration : Text → Option ℤ) (env : Env) where
  abbrev pub label_of : Option FileConfig → Text × Text
  label_of file =
      label_over
        (or_else
          (env_pair (env (codes "TRAEFIK_INSTANCE_LABEL_KEY"))
            (env (codes "TRAEFIK_INSTANCE_LABEL_VALUE")) (env (codes "TRAEFIK_INSTANCE_LABEL")))
          ([], []))
        (chain file_label file)

  -- The settings of the environment, over those of the file, over the defaults.
  abbrev pub resolved : Config → Option FileConfig → Config
  resolved d file = record d {
    ingress_class =
        or_else (unless_set (env (codes "INGRESS_CLASS")) (chain file_class file)) d.ingress_class;
    ingress_class_provided =
        is_some (env (codes "INGRESS_CLASS")) || is_some (chain file_class file);
    traefik_instance_label_key = (label_of file).0;
    traefik_instance_label_value = (label_of file).1;
    ingress_class_label_verify_interval =
        or_else
          (unless_set (env (codes "INGRESS_CLASS_LABEL_VERIFY_INTERVAL")) (
            chain
              (λ (fc : FileConfig).
                chain parse_duration (nonblank (trim_space fc.ingress_class_label_verify_int)))
              file))
          d.ingress_class_label_verify_interval;
    ingress_class_label_strict =
        or_else
          (unless_set (env (codes "INGRESS_CLASS_LABEL_STRICT"))
            (chain (λ (fc : FileConfig). fc.ingress_class_label_strict) file))
          d.ingress_class_label_strict;
    certificate_secrets =
        or_else
          (unless_set (env (codes "CERTIFICATE_SECRETS"))
            (chain (λ (fc : FileConfig). some_refs fc.certificate_secrets) file))
          d.certificate_secrets;
  }

-- A configuration whose parts that depend on environment and file are these.
abbrev pub with_parts :
    Config → Text → Bool → Text × Text → ℤ → Bool → List CertificateSecretRef → Config
with_parts d class provided label interval strict secrets = record d {
  ingress_class = class;
  ingress_class_provided = provided;
  traefik_instance_label_key = label.0;
  traefik_instance_label_value = label.1;
  ingress_class_label_verify_interval = interval;
  ingress_class_label_strict = strict;
  certificate_secrets = secrets;
}

pub with_pair_parts :
    (d : Config) (class : Text) (provided : Bool) (label : Text × Text) (interval : ℤ)
    (strict : Bool) (secrets : List CertificateSecretRef) (o : Option (Text × Text))
    → with_pair o (with_parts d class provided label interval strict secrets)
      ≡ with_parts d class provided (or_else o label) interval strict secrets
with_pair_parts d class provided label interval strict secrets none = refl
with_pair_parts d class provided label interval strict secrets (some p) = refl

pub pair_over :
    (label : Text × Text) (file : Option (Text × Text))
    → or_else (if not (is_empty label.0) && not (is_empty label.1) then none else file) label
      ≡ label_over label file
pair_over label file = elim (Bool-cases (not (is_empty label.0) && not (is_empty label.1))) [
  | inl e ↦ rw e refl
  | inr e ↦ rw e refl
]

module _ (lib : Loader) (env : Env) (fc : FileConfig) where
  pub merged_parts :
      (d : Config) (class : Text) (provided : Bool) (label : Text × Text) (interval : ℤ)
      (strict : Bool) (secrets : List CertificateSecretRef)
      → merged lib env (some fc) (with_parts d class provided label interval strict secrets)
        ≡ with_parts d
            (if provided then class else or_else (file_class fc) class)
            (provided || is_some (file_class fc))
            (label_over label (file_label fc))
            (or_else
              (unless_set (env (codes "INGRESS_CLASS_LABEL_VERIFY_INTERVAL")) (
                chain lib.parse_duration (nonblank (trim_space fc.ingress_class_label_verify_int))))
              interval)
            (or_else
              (unless_set (env (codes "INGRESS_CLASS_LABEL_STRICT")) fc.ingress_class_label_strict)
              strict)
            (or_else
              (unless_set (env (codes "CERTIFICATE_SECRETS")) (some_refs fc.certificate_secrets))
              secrets)
  merged_parts d class provided label interval strict secrets =
      let c1 = with_parts d class provided label interval strict secrets in
      let class' : Text = if provided then class else or_else (file_class fc) class in
      let provided' : Bool = provided || is_some (file_class fc) in
      let c2 : Config = with_parts d class' provided' label interval strict secrets in
      let interval' : ℤ =
        or_else
          (unless_set (env (codes "INGRESS_CLASS_LABEL_VERIFY_INTERVAL"))
            (chain lib.parse_duration (nonblank (trim_space fc.ingress_class_label_verify_int))))
          interval in
      let c3 : Config = with_parts d class' provided' label interval' strict secrets in
      let strict' : Bool =
        or_else
          (unless_set (env (codes "INGRESS_CLASS_LABEL_STRICT")) fc.ingress_class_label_strict)
          strict in
      let c4 : Config = with_parts d class' provided' label interval' strict' secrets in
      let label' : Text × Text = label_over label (file_label fc) in
      let c5 : Config = with_parts d class' provided' label' interval' strict' secrets in
      let e1 : merge_file_ingress_class fc c1 ≡ c2 = merge_file_ingress_class_lem fc c1 in
      let e2 : merge_file_verify_interval lib.parse_duration env fc c2 ≡ c3 =
        merge_file_verify_interval_lem lib.parse_duration env fc c2 in
      let e3 : merge_file_strict env fc c3 ≡ c4 = merge_file_strict_lem env fc c3 in
      let e4 : merge_file_instance_label fc c4 ≡ c5 =
        merge_file_instance_label_lem fc c4
        ∙ with_pair_parts d class' provided' label interval' strict' secrets (file_pair fc c4)
        ∙ ap (λ l. with_parts d class' provided' l interval' strict' secrets)
            (pair_over label (file_label fc)) in
      ap
        (λ c. merge_file_certificate_secrets env fc (
          merge_file_instance_label fc
            (merge_file_strict env fc (merge_file_verify_interval lib.parse_duration env fc c))))
        e1
      ∙ ap
          (λ c.
            merge_file_certificate_secrets env fc
              (merge_file_instance_label fc (merge_file_strict env fc c)))
          e2
      ∙ ap (λ c. merge_file_certificate_secrets env fc (merge_file_instance_label fc c)) e3
      ∙ ap (λ c. merge_file_certificate_secrets env fc c) e4
      ∙ merge_file_certificate_secrets_lem env fc c5

pub before_file :
    (env : Env) (d : Config)
    → populate_instance_label_from_env env (mark_ingress_class_provided env d)
      ≡ with_parts d d.ingress_class
          (is_some (env (codes "INGRESS_CLASS")) || d.ingress_class_provided)
          (or_else
            (env_pair
              (env (codes "TRAEFIK_INSTANCE_LABEL_KEY"))
              (env (codes "TRAEFIK_INSTANCE_LABEL_VALUE"))
              (env (codes "TRAEFIK_INSTANCE_LABEL")))
            (d.traefik_instance_label_key, d.traefik_instance_label_value))
          d.ingress_class_label_verify_interval
          d.ingress_class_label_strict
          d.certificate_secrets
before_file env d =
    ap (populate_instance_label_from_env env) (mark_lem env d)
    ∙ populate_lem env _
    ∙ with_pair_parts d _ _ _ _ _ _ _
