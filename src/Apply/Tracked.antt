-- ===== src/Apply/Tracked.antt =====
-- internal/apply/endpointslice.go and internal/apply/service.go: Services and EndpointSlices that
-- keep track of the labels and annotations that were written to them.
pub mod Update
pub mod RoundTrip
use pangolin_kube_controller.Prelude.{
  Bool, true, false, not, ◌&&◌, ◌||◌, Option, none, some, List, [], ◌∷◌, if◌then◌else◌, or_else,
  is_empty, is_some,
}
use pangolin_kube_controller.Text.{Text, codes, text_eq}
use pangolin_kube_controller.Result.{Result, ok, err, is_not_found}
use pangolin_kube_controller.Maps.{Map, GoMap, entries, lookup, insert, delete, sort_keys}
use pangolin_kube_controller.Json.{Value, null, str, arr, Items, nil, cons, Codec, str_items}
use pangolin_kube_controller.Kube.{create_service, update_service, create_slice, update_slice}
use pangolin_kube_controller.Kube.Prog.{
  Prog, pure, fail, on_result, perform, fetch_service, fetch_slice,
}
use pangolin_kube_controller.Protocol.TcpUdp.{Service, EndpointSlice}

abbrev pub managed_label_keys_annotation : Text
managed_label_keys_annotation = codes "pangolin-kube-controller/managed-label-keys"

abbrev pub managed_anno_keys_annotation : Text
managed_anno_keys_annotation = codes "pangolin-kube-controller/managed-annotation-keys"

-- EndpointSliceOps and ServiceOps, which have the same settings.
pub record ManagedOps : Type 0 where
  pub managed_label_key : Text
  pub managed_label_value : Text
  pub traefik_instance_label_key : Text
  pub traefik_instance_label_value : Text
  pub managed_anno_key : Text
  pub managed_anno_value : Text
  pub read_only : Bool

-- mergeStringMap; a nil source has no entries.
unfoldable pub merge_string_map : Map Text → Map Text → Map Text
merge_string_map dst [] = dst
merge_string_map dst ((k, v) ∷ src) = insert k v (merge_string_map dst src)

-- m[key] = value under a test
abbrev pub insert_if : Bool → Text → Text → Map Text → Map Text
insert_if true key value m = insert key value m
insert_if false key value m = m

-- ensureManagedMeta: the labels and the annotations
unfoldable pub ensure_managed_labels : ManagedOps → GoMap Text → Map Text
ensure_managed_labels o labels =
    insert_if
      (not (is_empty o.traefik_instance_label_key) && not (is_empty o.traefik_instance_label_value))
      o.traefik_instance_label_key o.traefik_instance_label_value
      (insert_if (not (is_empty o.managed_label_key)) o.managed_label_key o.managed_label_value
        (entries labels))

unfoldable pub ensure_managed_annotations : ManagedOps → GoMap Text → Map Text
ensure_managed_annotations o annotations =
    insert_if (not (is_empty o.managed_anno_key)) o.managed_anno_key o.managed_anno_value
      (entries annotations)

unfoldable pub listed : Text → List Text → Bool
listed k [] = false
listed k (j ∷ ks) = text_eq j k || listed k ks

-- The loops of `ensureManagedKeysTracking` over the allowed keys and the entries.
unfoldable pub keep_keys : List Text → Map Text → Map Text
unfolding listed
keep_keys allowed [] = []
keep_keys allowed ((k, v) ∷ m) =
    let rest = keep_keys allowed m in
    if listed k allowed && not (is_empty k) then (k, v) ∷ rest else rest

unfoldable pub without_tracking : Map Text → Map Text
without_tracking m = delete managed_anno_keys_annotation (delete managed_label_keys_annotation m)

-- `json.Unmarshal` into a slice of strings, where `null` is read as ""; an error for another value.
unfoldable pub string_slice : Items → Option (List Text)
string_slice nil = some []
string_slice (cons (str s) vs) = elim (string_slice vs) [ none ↦ none | some ss ↦ some (s ∷ ss) ]
string_slice (cons null vs) = elim (string_slice vs) [ none ↦ none | some ss ↦ some ([] ∷ ss) ]
string_slice (cons v vs) = none

-- The keys of the set, without "".
unfoldable pub nonempty_keys : List Text → List Text
nonempty_keys [] = []
nonempty_keys (k ∷ ks) = let rest = nonempty_keys ks in if is_empty k then rest else k ∷ rest

abbrev pub decoded_keys : Option Value → List Text
decoded_keys (some (arr vs)) = nonempty_keys (or_else (string_slice vs) [])
decoded_keys _ = []

-- The loop of `removeManagedKeys`
unfoldable pub remove_keys : Map Text → List Text → Map Text → Map Text
remove_keys desired [] existing = existing
remove_keys desired (k ∷ managed) existing =
    let rest = remove_keys desired managed existing in
    if is_empty k || is_some (lookup k desired) then rest else delete k rest

-- removeManagedKeys
unfoldable pub remove_managed_keys : Map Text → GoMap Text → List Text → Map Text
unfolding remove_keys
remove_managed_keys existing desired managed =
    if is_empty existing || is_empty managed
    then existing
    else remove_keys (entries desired) managed existing

module _ (codec : Codec) where
  -- parseManagedKeys; the nil set has no keys.
  unfoldable pub parse_managed_keys : Text → List Text
  unfolding string_slice nonempty_keys
  parse_managed_keys raw = if is_empty raw then [] else decoded_keys (codec.decode raw)

  -- marshalManagedKeys
  unfoldable pub marshal_managed_keys : Map Text → Text
  unfolding nonempty_keys
  marshal_managed_keys m =
      if is_empty m
      then codes "[]"
      else or_else (codec.encode (arr (str_items (nonempty_keys (sort_keys m))))) (codes "[]")

  -- ensureManagedKeysTracking: the annotations
  unfoldable pub ensure_managed_keys_tracking :
      List Text → List Text → Map Text → Map Text → Map Text
  unfolding marshal_managed_keys keep_keys without_tracking
  ensure_managed_keys_tracking label_keys anno_keys labels annotations =
      let tracked =
        insert managed_label_keys_annotation (marshal_managed_keys (keep_keys label_keys labels))
          annotations in
      insert managed_anno_keys_annotation
        (marshal_managed_keys (keep_keys anno_keys (without_tracking tracked))) tracked

  -- The labels or the annotations that `updateExisting` writes.
  unfoldable pub updated_entries : GoMap Text → GoMap Text → Text → Map Text
  unfolding remove_managed_keys merge_string_map parse_managed_keys
  updated_entries existing desired tracked =
      merge_string_map (remove_managed_keys (entries existing) desired (parse_managed_keys tracked))
        (entries desired)

  abbrev pub annotation_value : EndpointSlice → Text → Text
  annotation_value es key = or_else (lookup key (entries es.annotations)) []

  -- updateExisting: the slice that is written
  unfoldable pub tracked_update : EndpointSlice → EndpointSlice → EndpointSlice
  unfolding updated_entries
  tracked_update existing es = record existing {
    endpoints = es.endpoints;
    ports = es.ports;
    address_type = es.address_type;
    labels = some (
        updated_entries existing.labels es.labels
          (annotation_value existing managed_label_keys_annotation));
    annotations = some (
        updated_entries existing.annotations es.annotations
          (annotation_value existing managed_anno_keys_annotation));
  }

  -- The slice of `EndpointSliceOps.Apply` with its labels and annotations.
  unfoldable pub tracked_slice : ManagedOps → EndpointSlice → EndpointSlice
  unfolding ensure_managed_keys_tracking ensure_managed_labels ensure_managed_annotations
  tracked_slice o es =
      let labels = ensure_managed_labels o es.labels in
      record es {
        labels = some labels;
        annotations = some (
            ensure_managed_keys_tracking (o.managed_label_key ∷ o.traefik_instance_label_key ∷ [])
              (o.managed_anno_key ∷ []) labels (ensure_managed_annotations o es.annotations));
      }

  abbrev pub write_tracked_slice : EndpointSlice → Result EndpointSlice → Prog Unit
  write_tracked_slice es (ok existing) = perform (update_slice (tracked_update existing es))
  write_tracked_slice es (err e) = if is_not_found e then perform (create_slice es) else fail e

  -- EndpointSliceOps.Apply
  unfoldable pub slice_ops_apply : ManagedOps → EndpointSlice → Prog Unit
  unfolding tracked_slice tracked_update
  slice_ops_apply o es =
      if o.read_only
      then pure tt
      else on_result (fetch_slice es.name) (write_tracked_slice (tracked_slice o es))

abbrev pub write_managed_service : Service → Result Service → Prog Unit
write_managed_service svc (ok existing) = perform (
    update_service
      (record existing { spec = svc.spec; labels = svc.labels; annotations = svc.annotations }))
write_managed_service svc (err e) = if is_not_found e then perform (create_service svc) else fail e

-- ServiceOps.Apply
unfoldable pub service_ops_apply : ManagedOps → Service → Prog Unit
unfolding ensure_managed_labels ensure_managed_annotations
service_ops_apply o svc =
    let managed = record svc {
      labels = some (ensure_managed_labels o svc.labels);
      annotations = some (ensure_managed_annotations o svc.annotations);
    } in
    if o.read_only
    then pure tt
    else on_result (fetch_service svc.name) (write_managed_service managed)
