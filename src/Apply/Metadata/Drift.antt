-- ===== src/Apply/Metadata/Drift.antt =====
-- internal/apply/metadata.go: when the metadata asks for a forced patch.
use pangolin_kube_controller.Prelude.{
  ◌≡◌, ◌↔◌, ◌⊎◌, inl, inr, refl, Bool, true, false, not, ◌&&◌, ◌||◌, Option, none, some, arith,
  if◌then◌else◌, is_empty,
}
use pangolin_kube_controller.Text.{Text, codes, text_eq}
use pangolin_kube_controller.Text.Equality.{text_eq_iff}
use pangolin_kube_controller.Maps.{Map, GoMap}
use pangolin_kube_controller.Kube.{Object}
use pangolin_kube_controller.Routing.{ingress_class_annotation}
use pangolin_kube_controller.Apply.Metadata.{
  MetadataConfig, read, holds, needs_update, update_metadata_field, build_metadata_for_apply,
}

-- The configuration has both parts of the label of a Traefik instance.
abbrev pub has_instance : MetadataConfig → Bool
has_instance cfg =
    not (is_empty cfg.traefik_instance_label_key) && not (is_empty cfg.traefik_instance_label_value)

-- The object has the configured label, the label of the instance where one is configured, the
-- annotation, and the class where it is an IngressRoute.
abbrev pub CarriesAll : Object → Text → MetadataConfig → Type 0
CarriesAll o kind cfg =
    (read o.labels cfg.managed_label_key ≡ some cfg.managed_label_value)
    × ((has_instance cfg ≡ false)
        ⊎ (read o.labels cfg.traefik_instance_label_key ≡ some cfg.traefik_instance_label_value))
    × (read o.annotations cfg.managed_anno_key ≡ some cfg.managed_anno_value)
    × ((text_eq kind (codes "IngressRoute") ≡ false)
        ⊎ (read o.annotations ingress_class_annotation ≡ some cfg.ingress_class))

holds_iff : (o : Option Text) (value : Text) → (holds o value ≡ true) ↔ (o ≡ some value)
holds_iff none value = (λ h. cc, λ h. cc)
holds_iff (some v) value = ground (arith, text_eq_iff v value)

pub needs_update_iff :
    (m : GoMap Text) (key value : Text)
    → (needs_update m key value ≡ false) ↔ (read m key ≡ some value)
unfolding needs_update
needs_update_iff m key value = ground (arith, holds_iff (read m key) value)

update_iff :
    (m : GoMap Text) (key value : Text) (target : Map Text)
    → ((update_metadata_field m key value target).1 ≡ false) ↔ (read m key ≡ some value)
unfolding update_metadata_field
update_iff m key value target = ground (arith, needs_update_iff m key value)

-- A step that is made under a test.
if_iff :
    {P : Type 0} (b : Bool) (x : Map Text × Bool) (t : Map Text)
    → (x.1 ≡ false) ↔ P
    → ((if b then x else (t, false)).1 ≡ false) ↔ ((b ≡ false) ⊎ P)
if_iff true x t e = (λ h. inr (e.0 h), λ f. elim f [ inl q ↦ cc | inr p ↦ e.1 p ])
if_iff false x t e = (λ h. inl refl, λ f. refl)

none_of_four :
    {P Q R S : Type 0} (a b c d : Bool)
    → (a ≡ false) ↔ P
    → (b ≡ false) ↔ Q
    → (c ≡ false) ↔ R
    → (d ≡ false) ↔ S
    → (a || b || c || d ≡ false) ↔ (P × Q × R × S)
none_of_four a b c d p q r s = (
  λ h. (p.0 (ground arith), q.0 (ground arith), r.0 (ground arith), s.0 (ground arith)),
  λ t. all_false (p.1 t.0) (q.1 t.1) (r.1 t.2) (s.1 t.3),
)
  where
    all_false : a ≡ false → b ≡ false → c ≡ false → d ≡ false → a || b || c || d ≡ false
    all_false u v w x = rw (u, v, w, x)

-- For an object that is there, BuildMetadataForApply asks for force exactly when the object lacks one
-- of the configured labels and annotations, or has another value for it.
pub build_metadata_force :
    (o : Object) (name ns kind : Text) (cfg : MetadataConfig)
    → ((build_metadata_for_apply (some o) name ns kind cfg).1 ≡ false) ↔ CarriesAll o kind cfg
unfolding build_metadata_for_apply
build_metadata_force o name ns kind cfg =
    none_of_four _ _ _ _ (update_iff _ _ _ _) (if_iff (has_instance cfg) _ _ (update_iff _ _ _ _))
      (update_iff _ _ _ _) (if_iff (text_eq kind (codes "IngressRoute")) _ _ (update_iff _ _ _ _))
