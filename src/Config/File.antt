-- ===== src/Config/File.antt =====
-- internal/config/file.go, and LoadFromEnv of internal/config/config.go: the settings of a file are
-- merged into those of the environment.
pub mod Sources
pub mod Parts
pub mod Documented
pub mod Resolved
use pangolin_kube_controller.Prelude.{
  ℕ, Bool, true, false, not, ◌&&◌, ◌||◌, Option, none, some, List, [], ◌∷◌, if◌then◌else◌, is_empty,
  is_some, ℤ,
}
use pangolin_kube_controller.Text.{Text, codes, trim_space}
use pangolin_kube_controller.Config.{Config, CertificateSecretRef}
use pangolin_kube_controller.Config.Validate.{normalize}
use pangolin_kube_controller.Config.Env.{
  Env, mark_ingress_class_provided, populate_instance_label_from_env, apply_kv_pair,
  with_instance_label,
}
use pangolin_kube_controller.Config.Defaults.{new_defaults}

-- fileConfig
pub record FileConfig : Type 0 where
  pub traefik_instance_label : Text
  pub traefik_instance_label_key : Text
  pub traefik_instance_label_value : Text
  pub ingress_class : Text
  pub ingress_class_label_verify_int : Text
  pub ingress_class_label_strict : Option Bool
  pub certificate_secrets : List CertificateSecretRef

-- mergeFileIngressClass
unfoldable pub merge_file_ingress_class : FileConfig → Config → Config
merge_file_ingress_class fc cfg =
    if cfg.ingress_class_provided || is_empty (trim_space fc.ingress_class)
    then cfg
    else record cfg { ingress_class = trim_space fc.ingress_class; ingress_class_provided = true }

abbrev with_verify_interval : Option ℤ → Config → Config
with_verify_interval none cfg = cfg
with_verify_interval (some d) cfg = record cfg { ingress_class_label_verify_interval = d }

-- mergeFileVerifyInterval; `parse_duration` is time.ParseDuration.
unfoldable pub merge_file_verify_interval : (Text → Option ℤ) → Env → FileConfig → Config → Config
merge_file_verify_interval parse_duration env fc cfg =
    if is_some (env (codes "INGRESS_CLASS_LABEL_VERIFY_INTERVAL"))
      || is_empty (trim_space fc.ingress_class_label_verify_int)
    then cfg
    else with_verify_interval (parse_duration (trim_space fc.ingress_class_label_verify_int)) cfg

abbrev with_strict : Option Bool → Config → Config
with_strict none cfg = cfg
with_strict (some b) cfg = record cfg { ingress_class_label_strict = b }

-- mergeFileStrict
unfoldable pub merge_file_strict : Env → FileConfig → Config → Config
merge_file_strict env fc cfg =
    if is_some (env (codes "INGRESS_CLASS_LABEL_STRICT"))
    then cfg
    else with_strict fc.ingress_class_label_strict cfg

-- mergeFileInstanceLabel
unfoldable pub merge_file_instance_label : FileConfig → Config → Config
unfolding apply_kv_pair
merge_file_instance_label fc cfg =
    let key = trim_space fc.traefik_instance_label_key in
    let val = trim_space fc.traefik_instance_label_value in
    let single = trim_space fc.traefik_instance_label in
    if not (is_empty cfg.traefik_instance_label_key)
      && not (is_empty cfg.traefik_instance_label_value)
    then cfg
    else if not (is_empty key) && not (is_empty val)
    then with_instance_label key val cfg
    else if not (is_empty single)
    then apply_kv_pair single cfg
    else cfg

-- mergeFileCertificateSecrets
unfoldable pub merge_file_certificate_secrets : Env → FileConfig → Config → Config
merge_file_certificate_secrets env fc cfg =
    if is_some (env (codes "CERTIFICATE_SECRETS")) || is_empty fc.certificate_secrets
    then cfg
    else record cfg { certificate_secrets = fc.certificate_secrets }

-- What LoadFromEnv takes from the libraries and the system: time.ParseDuration, the classes of
-- unicode.SimpleFold, os.ReadFile, and syaml.Unmarshal into a fileConfig.
pub record Loader : Type 0 where
  pub fold : ℕ → ℕ
  pub parse_duration : Text → Option ℤ
  pub read_file : Text → Option Text
  pub parse_yaml : Text → Option FileConfig

module _ (lib : Loader) (env : Env) where
  abbrev parsed : Option Text → Option FileConfig
  parsed none = none
  parsed (some b) = lib.parse_yaml b

  -- The file of `CONFIG_FILE`, where it can be read and parsed.
  abbrev pub config_file_of : Config → Option FileConfig
  config_file_of cfg =
      if is_empty cfg.config_file then none else parsed (lib.read_file cfg.config_file)

  abbrev pub merged : Option FileConfig → Config → Config
  merged none cfg = cfg
  merged (some fc) cfg = merge_file_certificate_secrets env fc (
      merge_file_instance_label fc (
        merge_file_strict env fc
          (merge_file_verify_interval lib.parse_duration env fc (merge_file_ingress_class fc cfg))))

  -- mergeConfigFile
  unfoldable pub merge_config_file : Config → Config
  unfolding merge_file_ingress_class merge_file_verify_interval merge_file_strict
      merge_file_instance_label merge_file_certificate_secrets
  merge_config_file cfg = merged (config_file_of cfg) cfg

  -- LoadFromEnv
  unfoldable pub load_from_env : Config
  unfolding new_defaults mark_ingress_class_provided populate_instance_label_from_env
      merge_config_file normalize
  load_from_env = normalize (
      merge_config_file (
        populate_instance_label_from_env env
          (mark_ingress_class_provided env (new_defaults lib.fold lib.parse_duration env))))
