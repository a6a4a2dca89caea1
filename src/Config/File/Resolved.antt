-- ===== src/Config/File/Resolved.antt =====
-- internal/config: LoadFromEnv as a whole. A variable of the environment comes before the file, and the
-- file before the default.
use pangolin_kube_controller.Prelude.{
  ◌≡◌, refl, sym, ap, ◌∙◌, Bool, true, false, not, ◌&&◌, ◌||◌, inl, inr, Bool-cases, Option, none,
  some, [], if◌then◌else◌, is_empty, is_some, or_else,
}
use pangolin_kube_controller.Text.{Text, codes}
use pangolin_kube_controller.Config.{Config}
use pangolin_kube_controller.Config.Validate.{normalize}
use pangolin_kube_controller.Config.Env.{
  Env, mark_ingress_class_provided, populate_instance_label_from_env,
}
use pangolin_kube_controller.Config.Defaults.{new_defaults}
use pangolin_kube_controller.Config.File.{
  FileConfig, Loader, config_file_of, merged, merge_config_file, load_from_env,
}
use pangolin_kube_controller.Config.File.Documented.{documented, new_defaults_lem}
use pangolin_kube_controller.Config.File.Sources.{chain, unless_set, env_pair}
use pangolin_kube_controller.Config.File.Parts.{
  file_class, file_label, label_over, resolved, with_parts, merged_parts, before_file,
}

class_over :
    (set : Option Text) (class : Text) (file : Option Text)
    → (if is_some set then class else or_else file class) ≡ or_else (unless_set set file) class
class_over none class file = refl
class_over (some v) class file = refl

label_over-none : (p : Text × Text) → label_over p none ≡ p
label_over-none p = elim (Bool-cases (not (is_empty p.0) && not (is_empty p.1))) [
  | inl e ↦ rw e refl
  | inr e ↦ rw e refl
]

unless_set-none {ℓ} : {A : Type ℓ} (set : Option Text) (a : A) → a ≡ or_else (unless_set set none) a
unless_set-none none a = refl
unless_set-none (some v) a = refl

or-false : (b : Bool) → b ≡ (b || false)
or-false true = refl
or-false false = refl

module _ (lib : Loader) (env : Env) (d : Config) (label : Text × Text) where
  over_file :
      (file : Option FileConfig)
      → merged lib env file (
          with_parts d d.ingress_class
            (is_some (env (codes "INGRESS_CLASS")))
            label
            d.ingress_class_label_verify_interval
            d.ingress_class_label_strict
            d.certificate_secrets)
        ≡ with_parts d
            (or_else
              (unless_set (env (codes "INGRESS_CLASS")) (chain file_class file))
              d.ingress_class)
            (is_some (env (codes "INGRESS_CLASS")) || is_some (chain file_class file))
            (label_over label (chain file_label file))
            (resolved lib.parse_duration env d file).ingress_class_label_verify_interval
            (resolved lib.parse_duration env d file).ingress_class_label_strict
            (resolved lib.parse_duration env d file).certificate_secrets
  over_file (some fc) =
      merged_parts lib env fc d _ _ label _ _ _
      ∙ ap
          (λ c.
            with_parts d c (is_some (env (codes "INGRESS_CLASS")) || is_some (file_class fc))
              (label_over label (file_label fc))
              (resolved lib.parse_duration env d (some fc)).ingress_class_label_verify_interval
              (resolved lib.parse_duration env d (some fc)).ingress_class_label_strict
              (resolved lib.parse_duration env d (some fc)).certificate_secrets)
          (class_over (env (codes "INGRESS_CLASS")) d.ingress_class (file_class fc))
  over_file none = λ i.
      with_parts d (unless_set-none (env (codes "INGRESS_CLASS")) d.ingress_class i)
        (or-false (is_some (env (codes "INGRESS_CLASS"))) i) (sym (label_over-none label) i)
        (unless_set-none (env (codes "INGRESS_CLASS_LABEL_VERIFY_INTERVAL"))
          d.ingress_class_label_verify_interval i)
        (unless_set-none (env (codes "INGRESS_CLASS_LABEL_STRICT")) d.ingress_class_label_strict i)
        (unless_set-none (env (codes "CERTIFICATE_SECRETS")) d.certificate_secrets i)

by_defaults :
    (lib : Loader) (env : Env)
    → load_from_env lib env
      ≡ normalize (
          resolved lib.parse_duration env
            (new_defaults lib.fold lib.parse_duration env)
            (config_file_of lib env (new_defaults lib.fold lib.parse_duration env)))
unfolding load_from_env merge_config_file new_defaults
by_defaults lib env =
    let d = new_defaults lib.fold lib.parse_duration env in
    let label : Text × Text =
      or_else
        (env_pair (env (codes "TRAEFIK_INSTANCE_LABEL_KEY"))
          (env (codes "TRAEFIK_INSTANCE_LABEL_VALUE")) (env (codes "TRAEFIK_INSTANCE_LABEL")))
        ([], []) in
    let before = populate_instance_label_from_env env (mark_ingress_class_provided env d) in
    let whole : Config =
      with_parts d d.ingress_class (is_some (env (codes "INGRESS_CLASS"))) label
        d.ingress_class_label_verify_interval d.ingress_class_label_strict d.certificate_secrets in
    let e : before ≡ whole =
      before_file env d
      ∙ ap
          (λ b.
            with_parts d d.ingress_class b label d.ingress_class_label_verify_interval
              d.ingress_class_label_strict d.certificate_secrets)
          (sym (or-false (is_some (env (codes "INGRESS_CLASS"))))) in
    ap (λ c. normalize (merged lib env (config_file_of lib env c) c)) e
    ∙ ap normalize (over_file lib env d label (config_file_of lib env d))

-- The settings of `LoadFromEnv`, each by its variable and its default. A variable of the environment,
-- where it is set and can be read, gives its setting, and else the default is taken. For the class,
-- the label, its interval and strictness and the references, a variable that is set comes before
-- the file of CONFIG_FILE, and the file before the default; of the label's pair in the environment
-- it is enough that a part is missing or blank for the file to come first; the file changes no other
-- setting.
pub load_from_env_lem :
    (lib : Loader) (env : Env)
    → let d = documented lib.fold lib.parse_duration env in
      load_from_env lib env
      ≡ normalize (resolved lib.parse_duration env d (config_file_of lib env d))
load_from_env_lem lib env =
    by_defaults lib env
    ∙ ap (λ d. normalize (resolved lib.parse_duration env d (config_file_of lib env d)))
        (new_defaults_lem lib.fold lib.parse_duration env)
