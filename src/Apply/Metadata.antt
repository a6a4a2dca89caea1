-- ===== src/Apply/Metadata.antt =====
-- internal/apply/metadata.go: the labels and annotations that an object is applied with.
pub mod Drift
pub mod Repair
use pangolin_kube_controller.Prelude.{
  Bool, true, false, not, ◌&&◌, ◌||◌, Option, none, some, List, [], ◌∷◌, if◌then◌else◌, or_else,
  is_empty, is_some,
}
use pangolin_kube_controller.Text.{Text, codes, text_eq}
use pangolin_kube_controller.Maps.{Map, GoMap, lookup, insert}
use pangolin_kube_controller.Json.{
  Value, str, obj, Fields, end, field, get, put, as_str, as_obj, literal,
}
use pangolin_kube_controller.Kube.{Object}
use pangolin_kube_controller.Routing.{ingress_class_annotation}

pub record MetadataConfig : Type 0 where
  pub managed_label_key : Text
  pub managed_label_value : Text
  pub traefik_instance_label_key : Text
  pub traefik_instance_label_value : Text
  pub managed_anno_key : Text
  pub managed_anno_value : Text
  pub ingress_class : Text

-- `existing[key]` is there and has the value; a nil map has nothing.
abbrev pub holds : Option Text → Text → Bool
holds none value = false
holds (some v) value = text_eq v value

abbrev pub read : GoMap Text → Text → Option Text
read none key = none
read (some m) key = lookup key m

-- The test of `UpdateMetadataField`
unfoldable pub needs_update : GoMap Text → Text → Text → Bool
needs_update existing key value = not (holds (read existing key) value)

-- UpdateMetadataField: the target and the result.
unfoldable pub update_metadata_field : GoMap Text → Text → Text → Map Text → Map Text × Bool
unfolding needs_update
update_metadata_field existing key desired target =
    if needs_update existing key desired then (insert key desired target, true) else (target, false)

abbrev pub labels_of : Option Object → GoMap Text
labels_of none = none
labels_of (some o) = o.labels

abbrev pub annotations_of : Option Object → GoMap Text
annotations_of none = none
annotations_of (some o) = o.annotations

abbrev pub text_fields : Map Text → Fields
text_fields [] = end
text_fields ((k, v) ∷ m) = field k (str v) (text_fields m)

abbrev pub with_map : Text → Map Text → Fields → Fields
with_map key m meta = if is_empty m then meta else put key (obj (text_fields m)) meta

-- BuildMetadataForApply; `kind` is compared with "IngressRoute".
unfoldable pub build_metadata_for_apply :
    Option Object → Text → Text → Text → MetadataConfig → Fields × Bool
unfolding update_metadata_field
build_metadata_for_apply existing name ns kind cfg =
    let has_instance =
      not (is_empty cfg.traefik_instance_label_key)
      && not (is_empty cfg.traefik_instance_label_value) in
    let is_route = text_eq kind (codes "IngressRoute") in
    let (labels1, managed) =
      update_metadata_field (labels_of existing) cfg.managed_label_key cfg.managed_label_value [] in
    let (labels, instanced) =
      if has_instance
      then update_metadata_field (labels_of existing) cfg.traefik_instance_label_key
          cfg.traefik_instance_label_value labels1
      else (labels1, false) in
    let (annotations1, annotated) =
      update_metadata_field (annotations_of existing) cfg.managed_anno_key cfg.managed_anno_value
        [] in
    let (annotations, classed) =
      if is_route
      then update_metadata_field (annotations_of existing) ingress_class_annotation
          cfg.ingress_class annotations1
      else (annotations1, false) in
    let meta = literal ((codes "name", str name) ∷ (codes "namespace", str ns) ∷ []) in
    (
      with_map (codes "annotations") annotations (with_map (codes "labels") labels meta),
      is_some existing && (managed || instanced || annotated || classed),
    )

-- NeedsForceOnMapChange; a value that is no string is read as "".
unfoldable pub needs_force_on_map_change : GoMap Text → Fields → Bool
unfolding needs_update
needs_force_on_map_change none desired = false
needs_force_on_map_change (some m) end = false
needs_force_on_map_change (some m) (field k v desired) =
    needs_update (some m) k (or_else (as_str (some v)) [])
    || needs_force_on_map_change (some m) desired

abbrev changed_map : GoMap Text → Option Fields → Bool
changed_map existing none = false
changed_map existing (some desired) = needs_force_on_map_change existing desired

-- ForceNeededForMetadata
unfoldable pub force_needed_for_metadata : Option Object → Fields → Bool
unfolding needs_force_on_map_change
force_needed_for_metadata none desired = false
force_needed_for_metadata (some o) desired = elim (as_obj (get (codes "metadata") desired)) [
  | none ↦ false
  | some meta ↦
      changed_map o.labels (as_obj (get (codes "labels") meta))
      || changed_map o.annotations (as_obj (get (codes "annotations") meta))
]
