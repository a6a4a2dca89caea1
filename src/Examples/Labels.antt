-- ===== src/Examples/Labels.antt =====
-- The label of the Traefik instance at a concrete input.
use pangolin_kube_controller.Maps.{lookup}
use pangolin_kube_controller.Prelude.{
  ◌≡◌, refl, ap, sym, ◌∙◌, inl, inr, true, none, some, List, [], ◌∷◌, if◌then◌else◌, Among,
  Bool-cases,
}
use pangolin_kube_controller.Text.{codes, text_eq, trim_space}
use pangolin_kube_controller.Text.Equality.{text_eq_iff}
use pangolin_kube_controller.Result.{not_found}
use pangolin_kube_controller.Kube.{answer, refused}
use pangolin_kube_controller.Config.{Config}
use pangolin_kube_controller.Labels.{
  LabelLib, IngressClass, ClassServer, Found, with_found, resolve_instance_label,
  verify_ingress_class_label,
}
use pangolin_kube_controller.Labels.Resolved.{
  Selected, Picked, Consistent, resolve_instance_label-verified,
}
use pangolin_kube_controller.Examples.Data.{cfg}

abbrev labels_lib : LabelLib
labels_lib = record { is_qualified_name = λ k. true; is_valid_label_value = λ v. true }

abbrev traefik_class : IngressClass
traefik_class = record {
  name = codes "traefik";
  controller = codes "traefik.io/ingress-controller";
  labels = some ((codes "app", codes " traefik ") ∷ []);
}

abbrev class_server : ClassServer
class_server = record {
  class_at = λ n. if text_eq (codes "traefik") n then answer traefik_class else refused not_found;
  classes = answer (traefik_class ∷ []);
}

one_listed :
    (ics : List IngressClass) (ic : IngressClass)
    → class_server.classes ≡ answer ics
    → Among ic ics
    → class_server.class_at ic.name ≡ answer ic
unfolding text_eq
one_listed [] ic e m = absurd m
one_listed (x ∷ []) ic e (inl q) = let same : traefik_class ≡ ic = cc in rw⁻¹ same refl
one_listed (x ∷ []) ic e (inr m) = absurd m
one_listed (x ∷ y ∷ ics) ic e m = cc

class_server-Consistent : Consistent labels_lib class_server
class_server-Consistent = record {
  own_name = λ n ic e. elim (Bool-cases (text_eq (codes "traefik") n)) [
    | inl t ↦
        let same : traefik_class ≡ ic = cc (rw t at e) in
        ap (λ (c : IngressClass). c.name) (sym same) ∙ (text_eq_iff (codes "traefik") n).0 t
    | inr t ↦ cc (rw t at e)
  ];
  listed = one_listed;
}

abbrev resolved_cfg : Config
resolved_cfg = record cfg {
  traefik_instance_label_key = codes "app";
  traefik_instance_label_value = codes "traefik";
  ingress_class = codes "traefik";
}

class_resolved : resolve_instance_label labels_lib class_server cfg ≡ inr resolved_cfg
unfolding resolve_instance_label text_eq lookup trim_space
class_resolved = refl

resolve_instance_label-verified_example :
    (f : Found) × (ic : IngressClass) × Selected labels_lib class_server cfg.ingress_class
      cfg.ingress_class_provided ic
    × Picked labels_lib ic f
    × (with_found labels_lib cfg (inr f) ≡ inr resolved_cfg)
    × (verify_ingress_class_label class_server resolved_cfg ≡ none)
resolve_instance_label-verified_example =
    resolve_instance_label-verified labels_lib class_server cfg resolved_cfg class_server-Consistent
      refl class_resolved
