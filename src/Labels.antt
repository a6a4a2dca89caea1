-- ===== src/Labels.antt =====
-- internal/kube/labels/resolver.go: the label of the Traefik instance, configured or found on an
-- IngressClass.
pub mod Resolved
use pangolin_kube_controller.Prelude.{
  ◌⊎◌, inl, inr, Bool, true, false, not, ◌&&◌, ◌||◌, Option, none, some, List, [], ◌∷◌,
  if◌then◌else◌, or_else, is_empty, ℕ, ◌*◌, ℤ, pos, is_positive,
}
use pangolin_kube_controller.Text.{Text, codes, text_eq, trim_space}
use pangolin_kube_controller.Maps.{GoMap, entries, lookup}
use pangolin_kube_controller.Kube.{Answer, answer, refused}
use pangolin_kube_controller.Config.{Config}

-- The package validation of k8s.io/apimachinery: whether it returns no error.
pub record LabelLib : Type 0 where
  pub is_qualified_name : Text → Bool
  pub is_valid_label_value : Text → Bool

-- What is read of a networkingv1.IngressClass; `controller` is that of its spec.
pub record IngressClass : Type 0 where
  pub name : Text
  pub controller : Text
  pub labels : GoMap Text

-- The calls of the client of IngressClasses.
pub record ClassServer : Type 0 where
  pub class_at : Text → Answer IngressClass
  pub classes : Answer (List IngressClass)

pub data LabelError : Type 0 where
  empty_label invalid_key invalid_value : LabelError
  no_preferred class_failed no_class many_classes mismatch : LabelError

abbrev pub traefik_controller_id : Text
traefik_controller_id = codes "traefik.io/ingress-controller"

abbrev pub instance_label_key : Text
instance_label_key = codes "app.kubernetes.io/instance"

-- A label with its key, and the IngressClass that it was found on.
pub record Found : Type 0 where
  pub key : Text
  pub value : Text
  pub class_name : Text

module _ (lib : LabelLib) where
  -- validateKV: the error, if there is one
  unfoldable pub validate_kv : Text → Text → Option LabelError
  validate_kv key value =
      let k = trim_space key in
      let v = trim_space value in
      if is_empty k || is_empty v
      then some empty_label
      else if not (lib.is_qualified_name k)
      then some invalid_key
      else if not (lib.is_valid_label_value v)
      then some invalid_value
      else none

  abbrev pub unless_invalid : {A : Type 0} → Option LabelError → A → LabelError ⊎ A
  unless_invalid none a = inr a
  unless_invalid (some e) a = inl e

  -- One of the two blocks of `pickPreferredLabel`: none where it does not return.
  abbrev pub pick_value : IngressClass → Text → Option Text → Option (LabelError ⊎ Found)
  pick_value ic key none = none
  pick_value ic key (some v) =
      if is_empty (trim_space v)
      then none
      else some (
          unless_invalid (validate_kv key (trim_space v))
            (record { key = key; value = trim_space v; class_name = ic.name }))

  unfoldable pub pick_label : IngressClass → Text → Option (LabelError ⊎ Found)
  unfolding validate_kv
  pick_label ic key = pick_value ic key (lookup key (entries ic.labels))

  -- pickPreferredLabel
  unfoldable pub pick_preferred_label : IngressClass → LabelError ⊎ Found
  unfolding pick_label
  pick_preferred_label ic =
      or_else (pick_label ic (codes "app"))
        (or_else (pick_label ic instance_label_key) (inl no_preferred))

  -- The loop of `resolveFromIngressClass`
  unfoldable pub candidates : List IngressClass → List IngressClass
  candidates [] = []
  candidates (ic ∷ ics) =
      let rest = candidates ics in
      if text_eq ic.controller traefik_controller_id then ic ∷ rest else rest

  abbrev pub only_candidate : List IngressClass → LabelError ⊎ Found
  only_candidate [] = inl no_class
  only_candidate (ic ∷ []) = pick_preferred_label ic
  only_candidate (ic ∷ ic' ∷ ics) = inl many_classes

  abbrev pub of_class : Answer IngressClass → LabelError ⊎ Found
  of_class (answer ic) = pick_preferred_label ic
  of_class (refused e) = inl class_failed

  abbrev pub of_classes : Answer (List IngressClass) → LabelError ⊎ Found
  of_classes (answer ics) = only_candidate (candidates ics)
  of_classes (refused e) = inl class_failed

  -- resolveFromIngressClass
  unfoldable pub resolve_from_ingress_class : ClassServer → Text → Bool → LabelError ⊎ Found
  unfolding pick_preferred_label candidates
  resolve_from_ingress_class server class true = of_class (server.class_at class)
  resolve_from_ingress_class server class false = of_classes server.classes

  -- The settings with the label that was found.
  abbrev pub with_found : Config → LabelError ⊎ Found → LabelError ⊎ Config
  with_found cfg (inl e) = inl e
  with_found cfg (inr f) = inr (record cfg {
    traefik_instance_label_key = f.key;
    traefik_instance_label_value = f.value;
    ingress_class = f.class_name;
  })

  -- ResolveInstanceLabel: an error, or the new settings
  unfoldable pub resolve_instance_label : ClassServer → Config → LabelError ⊎ Config
  unfolding resolve_from_ingress_class
  resolve_instance_label server cfg =
      let key = cfg.traefik_instance_label_key in
      let value = cfg.traefik_instance_label_value in
      if not (is_empty key) && not (is_empty value)
      then unless_invalid (validate_kv key value) cfg
      else with_found cfg
          (resolve_from_ingress_class server cfg.ingress_class cfg.ingress_class_provided)

abbrev pub verify_class : Config → Answer IngressClass → Option LabelError
verify_class cfg (refused e) = some class_failed
verify_class cfg (answer ic) =
    let actual = or_else (lookup cfg.traefik_instance_label_key (entries ic.labels)) [] in
    if text_eq (trim_space actual) (trim_space cfg.traefik_instance_label_value)
    then none
    else some mismatch

-- verifyIngressClassLabel: the error, if there is one
unfoldable pub verify_ingress_class_label : ClassServer → Config → Option LabelError
verify_ingress_class_label server cfg = verify_class cfg (server.class_at cfg.ingress_class)

abbrev ends_monitor : Bool → Option LabelError → Option LabelError → Option LabelError
ends_monitor strict none rest = rest
ends_monitor strict (some e) rest = if strict then some e else rest

-- The loop of Monitor, by what the cluster answers at each tick until the context is cancelled
unfoldable pub monitor_loop : Config → List ClassServer → Option LabelError
unfolding verify_ingress_class_label
monitor_loop cfg [] = none
monitor_loop cfg (server ∷ ticks) =
    ends_monitor cfg.ingress_class_label_strict (verify_ingress_class_label server cfg)
      (monitor_loop cfg ticks)

-- Monitor: the error that it returns, if there is one
unfoldable pub monitor : Config → List ClassServer → Option LabelError
unfolding monitor_loop
monitor cfg ticks =
    if is_empty cfg.ingress_class || is_empty cfg.traefik_instance_label_key
    then none
    else monitor_loop cfg ticks

-- The time between two ticks, three hours by default
unfoldable pub monitor_interval : Config → ℤ
monitor_interval cfg =
    if is_positive cfg.ingress_class_label_verify_interval
    then cfg.ingress_class_label_verify_interval
    else pos (3 * 3600 * 1000000000)
