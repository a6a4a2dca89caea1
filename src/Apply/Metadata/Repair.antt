-- ===== src/Apply/Metadata/Repair.antt =====
-- internal/apply/metadata.go: what the metadata of a patch leaves on the object.
use pangolin_kube_controller.Prelude.{
  ◌≡◌, ◌≢◌, ◌⊎◌, ◌↔◌, refl, sym, Bool, true, false, Option, none, some, [], ◌∷◌, arith, Bool-cases,
  inl, inr, if◌then◌else◌,
}
use pangolin_kube_controller.Text.{Text, codes, text_eq}
use pangolin_kube_controller.Text.Equality.{text_eq_refl, text_eq_ne}
use pangolin_kube_controller.Maps.{Map, GoMap, lookup}
use pangolin_kube_controller.Maps.Laws.{lookup-insert}
use pangolin_kube_controller.Json.{str, Fields, get, put, as_str, literal, text_in}
use pangolin_kube_controller.Kube.{Object}
use pangolin_kube_controller.Routing.{ingress_class_annotation}
use pangolin_kube_controller.Apply.Metadata.{
  MetadataConfig, read, needs_update, update_metadata_field, text_fields, with_map, labels_of,
  annotations_of, build_metadata_for_apply,
}
use pangolin_kube_controller.Apply.Metadata.Drift.{has_instance, needs_update_iff}

-- What an object has at a key of a section once it is applied on the server, by what the patch
-- writes there, by whether the field is owned by the earlier patches of this field manager and by no
-- other manager, and by what the object had: a field that is owned so and left out is removed.
abbrev pub applied_field : Option Text → Bool → Option Text → Option Text
applied_field (some v) owned before = some v
applied_field none true before = none
applied_field none false before = before

abbrev pub after_apply : (Text → Text → Bool) → Text → Text → Fields → GoMap Text → Option Text
after_apply owned section key meta before =
    applied_field (text_in section key meta) (owned section key) (read before key)

-- What becomes of a configured entry: it has its value, unless it had it before in a field that is
-- owned, which is removed then.
abbrev pub Repairs : Bool → Option Text → Text → Option Text → Type 0
Repairs owned before v after =
    (((owned ≡ false) ⊎ (before ≢ some v)) × (after ≡ some v))
    ⊎ ((owned ≡ true) × (before ≡ some v) × (after ≡ none))

-- An entry that is written where it is missing.
abbrev written_if : Bool → Text → Option Text
written_if needed v = if needed then some v else none

Repairs-written_if :
    (needed owned : Bool) (before : Option Text) (v : Text)
    → (needed ≡ false) ↔ (before ≡ some v)
    → Repairs owned before v (applied_field (written_if needed v) owned before)
Repairs-written_if true owned before v e = inl (inr (λ h. let f = e.1 h in cc), refl)
Repairs-written_if false true before v e = inr (refl, e.0 refl, refl)
Repairs-written_if false false before v e = inl (inl refl, e.0 refl)

lookup-update :
    (m : GoMap Text) (key desired k : Text) (target : Map Text)
    → lookup k (update_metadata_field m key desired target).0 ≡ (
        if needs_update m key desired
        then (if text_eq key k then some desired else lookup k target)
        else lookup k target)
unfolding update_metadata_field
lookup-update m key desired k target = elim (Bool-cases (needs_update m key desired)) [
  | inl t ↦ rw t (lookup-insert key k desired target)
  | inr f ↦ rw f
]

get-text_fields : (k : Text) (m : Map Text) → as_str (get k (text_fields m)) ≡ lookup k m
unfolding get lookup
get-text_fields k [] = refl
get-text_fields k ((j, v) ∷ m) = elim (Bool-cases (text_eq j k)) [
  | inl t ↦ rw t
  | inr f ↦ rw f (get-text_fields k m)
]

-- The two sections of the metadata hold the two maps.
module _ (name ns : Text) where
  abbrev meta_with : Map Text → Map Text → Fields
  meta_with labels annotations = with_map (codes "annotations") annotations (
      with_map (codes "labels") labels
        (literal ((codes "name", str name) ∷ (codes "namespace", str ns) ∷ [])))

  labels-meta :
      (k : Text) (labels annotations : Map Text)
      → text_in (codes "labels") k (meta_with labels annotations) ≡ lookup k labels
  unfolding get put text_eq
  labels-meta k [] [] = get-text_fields k []
  labels-meta k [] (x ∷ xs) = get-text_fields k []
  labels-meta k (l ∷ ls) [] = get-text_fields k (l ∷ ls)
  labels-meta k (l ∷ ls) (x ∷ xs) = get-text_fields k (l ∷ ls)

  annotations-meta :
      (k : Text) (labels annotations : Map Text)
      → text_in (codes "annotations") k (meta_with labels annotations) ≡ lookup k annotations
  unfolding get put text_eq
  annotations-meta k [] [] = get-text_fields k []
  annotations-meta k [] (x ∷ xs) = get-text_fields k (x ∷ xs)
  annotations-meta k (l ∷ ls) [] = get-text_fields k []
  annotations-meta k (l ∷ ls) (x ∷ xs) = get-text_fields k (x ∷ xs)

lookup-nil : (k : Text) → lookup {V = Text} k [] ≡ none
unfolding lookup
lookup-nil k = refl

-- Two entries that are written where they are missing; the second one only under a test.
module _ (before : GoMap Text) (k1 v1 k2 v2 : Text) (apart : k2 ≢ k1) where
  abbrev first : Map Text
  first = (update_metadata_field before k1 v1 []).0

  first_written : lookup k1 first ≡ written_if (needs_update before k1 v1) v1
  first_written = ground (arith, lookup-update before k1 v1 k1 [], text_eq_refl k1, lookup-nil k1)

  first_kept :
      lookup k1 (update_metadata_field before k2 v2 first).0
      ≡ written_if (needs_update before k1 v1) v1
  first_kept =
      ground (arith, first_written, lookup-update before k2 v2 k1 first, text_eq_ne k2 k1 apart)

  second_written :
      lookup k2 (update_metadata_field before k2 v2 first).0
      ≡ written_if (needs_update before k2 v2) v2
  second_written = ground (
    arith,
    lookup-update before k2 v2 k2 first,
    text_eq_refl k2,
    lookup-update before k1 v1 k2 [],
    text_eq_ne k1 k2 (λ e. apart (sym e)),
    lookup-nil k2,
  )

  abbrev both : Bool → Map Text
  both b = (if b then update_metadata_field before k2 v2 first else (first, false)).0

  repaired :
      (o : Bool) (k v : Text) (after : Option Text)
      → after ≡ written_if (needs_update before k v) v
      → Repairs o (read before k) v (applied_field after o (read before k))
  repaired o k v after e = rw e (
      Repairs-written_if (needs_update before k v) o (read before k) v
        (needs_update_iff before k v))

  both-Repairs :
      (b : Bool) (o1 o2 : Bool)
      → Repairs o1 (read before k1) v1 (applied_field (lookup k1 (both b)) o1 (read before k1))
        × ((b ≡ false)
            ⊎ Repairs o2
                (read before k2)
                v2
                (applied_field (lookup k2 (both b)) o2 (read before k2)))
  both-Repairs true o1 o2 =
      (repaired o1 k1 v1 _ first_kept, inr (repaired o2 k2 v2 _ second_written))
  both-Repairs false o1 o2 = (repaired o1 k1 v1 _ first_written, inl refl)

-- Whether the object is there or not: once the metadata is applied on the server, the configured
-- label, the label of the instance where one is configured, the annotation, and the class where
-- it is an IngressRoute, each have their value, but for those that had it already in a field
-- that only the earlier patches of the field manager own: these are gone. It is so if the keys of the
-- two labels differ, and those of the two annotations.
pub build_metadata-Repairs :
    (owned : Text → Text → Bool) (existing : Option Object) (name ns kind : Text)
    (cfg : MetadataConfig)
    → cfg.traefik_instance_label_key ≢ cfg.managed_label_key
    → ingress_class_annotation ≢ cfg.managed_anno_key
    → let meta = (build_metadata_for_apply existing name ns kind cfg).0 in
      let label = λ (k v : Text).
        Repairs
          (owned (codes "labels") k)
          (read (labels_of existing) k)
          v
          (after_apply owned (codes "labels") k meta (labels_of existing)) in
      let annotation = λ (k v : Text).
        Repairs
          (owned (codes "annotations") k)
          (read (annotations_of existing) k)
          v
          (after_apply owned (codes "annotations") k meta (annotations_of existing)) in
      label cfg.managed_label_key cfg.managed_label_value
      × ((has_instance cfg ≡ false)
          ⊎ label cfg.traefik_instance_label_key cfg.traefik_instance_label_value)
      × annotation cfg.managed_anno_key cfg.managed_anno_value
      × ((text_eq kind (codes "IngressRoute") ≡ false)
          ⊎ annotation ingress_class_annotation cfg.ingress_class)
unfolding build_metadata_for_apply
build_metadata-Repairs owned existing name ns kind cfg p q =
    let l = codes "labels" in
    let a = codes "annotations" in
    let ls =
      both-Repairs (labels_of existing) cfg.managed_label_key cfg.managed_label_value
        cfg.traefik_instance_label_key cfg.traefik_instance_label_value p (has_instance cfg)
        (owned l cfg.managed_label_key) (owned l cfg.traefik_instance_label_key) in
    let as' =
      both-Repairs (annotations_of existing) cfg.managed_anno_key cfg.managed_anno_value
        ingress_class_annotation cfg.ingress_class q (text_eq kind (codes "IngressRoute"))
        (owned a cfg.managed_anno_key) (owned a ingress_class_annotation) in
    (
      rw (labels-meta name ns) (ls.0),
      rw (labels-meta name ns) (ls.1),
      rw (annotations-meta name ns) (as'.0),
      rw (annotations-meta name ns) (as'.1),
    )
