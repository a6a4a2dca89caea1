-- ===== src/Apply/Tracked/Update.antt =====
-- internal/apply/endpointslice.go: what an update leaves of the labels and annotations.
use mathlib.Core.Path.{subst}
use pangolin_kube_controller.Prelude.{
  ◌≡◌, ◌≢◌, refl, sym, ◌∙◌, inl, inr, Bool, true, false, not, ◌&&◌, ◌||◌, Option, none, some, List,
  [], ◌∷◌, if◌then◌else◌, is_empty, is_some, Bool-cases, arith,
}
use pangolin_kube_controller.Text.{Text, text_eq}
use pangolin_kube_controller.Text.Equality.{text_eq_iff, text_eq_refl}
use pangolin_kube_controller.Maps.{Map, GoMap, entries, lookup, delete}
use pangolin_kube_controller.Maps.Laws.{lookup-insert, lookup-delete}
use pangolin_kube_controller.Json.{Codec}
use pangolin_kube_controller.Protocol.TcpUdp.{EndpointSlice}
use pangolin_kube_controller.Apply.Tracked.{
  merge_string_map, listed, remove_keys, remove_managed_keys, parse_managed_keys, updated_entries,
  annotation_value, tracked_update, managed_label_keys_annotation, managed_anno_keys_annotation,
}

-- The value that is written, or else the one that was there.
abbrev written_or : Option Text → Option Text → Option Text
written_or none before = before
written_or (some v) before = some v

lookup-merge_string_map :
    (k : Text) (dst src : Map Text)
    → lookup k (merge_string_map dst src) ≡ written_or (lookup k src) (lookup k dst)
unfolding merge_string_map lookup
lookup-merge_string_map k dst [] = refl
lookup-merge_string_map k dst ((j, v) ∷ src) =
    rw (lookup-insert j k v (merge_string_map dst src))
      (by_key (lookup-merge_string_map k dst src) (text_eq j k))
  where
    by_key :
        lookup k (merge_string_map dst src) ≡ written_or (lookup k src) (lookup k dst)
        → (b : Bool)
        → (if b then some v else lookup k (merge_string_map dst src))
          ≡ written_or (if b then some v else lookup k src) (lookup k dst)
    by_key ih true = refl
    by_key ih false = ih

nonempty-is_empty : (k : Text) → k ≢ [] → is_empty k ≡ false
nonempty-is_empty [] h = absurd (h refl)
nonempty-is_empty (c ∷ k) h = refl

-- What is left of the entries that were there.
abbrev kept : Text → List Text → Map Text → Map Text → Option Text
kept k managed desired existing =
    if listed k managed && not (is_some (lookup k desired)) then none else lookup k existing

lookup-remove_keys :
    (k : Text) (desired : Map Text) (managed : List Text) (existing : Map Text)
    → k ≢ []
    → lookup k (remove_keys desired managed existing) ≡ kept k managed desired existing
unfolding remove_keys listed
lookup-remove_keys k desired [] existing ne = refl
lookup-remove_keys k desired (j ∷ managed) existing ne =
    let ih = lookup-remove_keys k desired managed existing ne in
    elim (Bool-cases (text_eq j k)) [
      | inl t ↦
          subst
            (λ i.
              lookup k (
                if is_empty i || is_some (lookup i desired)
                then remove_keys desired managed existing
                else delete i (remove_keys desired managed existing))
              ≡ kept k (i ∷ managed) desired existing)
            (sym ((text_eq_iff j k).0 t)) (removed ih (is_some (lookup k desired)) refl)
      | inr t ↦ other ih t (is_empty j || is_some (lookup j desired))
    ]
  where
    removed :
        lookup k (remove_keys desired managed existing) ≡ kept k managed desired existing
        → (b : Bool) → is_some (lookup k desired) ≡ b
        → lookup k (
            if is_empty k || is_some (lookup k desired)
            then remove_keys desired managed existing
            else delete k (remove_keys desired managed existing))
          ≡ kept k (k ∷ managed) desired existing
    removed ih true e = rw (nonempty-is_empty k ne, e, text_eq_refl k) (ground (arith, ih))
    removed ih false e =
        rw (nonempty-is_empty k ne, e, text_eq_refl k)
          (lookup-delete k k (remove_keys desired managed existing) ∙ rw (text_eq_refl k) refl)

    other :
        lookup k (remove_keys desired managed existing) ≡ kept k managed desired existing
        → text_eq j k ≡ false
        → (b : Bool)
        → lookup k (
            if b
            then remove_keys desired managed existing
            else delete j (remove_keys desired managed existing))
          ≡ kept k (j ∷ managed) desired existing
    other ih t true = rw t ih
    other ih t false = rw (lookup-delete j k (remove_keys desired managed existing), t) ih

lookup-remove_managed_keys :
    (k : Text) (existing : Map Text) (desired : GoMap Text) (managed : List Text)
    → k ≢ []
    → lookup k (remove_managed_keys existing desired managed)
      ≡ kept k managed (entries desired) existing
unfolding remove_managed_keys lookup listed
lookup-remove_managed_keys k [] desired managed ne = ground arith
lookup-remove_managed_keys k (x ∷ existing) desired [] ne = refl
lookup-remove_managed_keys k (x ∷ existing) desired (m ∷ managed) ne =
    lookup-remove_keys k (entries desired) (m ∷ managed) (x ∷ existing) ne

-- What an object has at a key after an update: the new value; or else what it had, unless the key
-- was tracked.
abbrev pub after_update : Option Text → Bool → Option Text → Option Text
after_update desired tracked before = written_or desired (if tracked then none else before)

module _ (codec : Codec) where
  lookup-updated_entries :
      (k : Text) (existing desired : GoMap Text) (tracked : Text)
      → k ≢ []
      → lookup k (updated_entries codec existing desired tracked)
        ≡ after_update
            (lookup k (entries desired))
            (listed k (parse_managed_keys codec tracked))
            (lookup k (entries existing))
  unfolding updated_entries
  lookup-updated_entries k existing desired tracked ne =
      lookup-merge_string_map k _ (entries desired)
      ∙ rw (lookup-remove_managed_keys k (entries existing) desired _ ne)
          (both (lookup k (entries desired)) (listed k (parse_managed_keys codec tracked)))
    where
      both :
          (d : Option Text) (l : Bool)
          → written_or d (if l && not (is_some d) then none else lookup k (entries existing))
            ≡ after_update d l (lookup k (entries existing))
      both none true = refl
      both none false = refl
      both (some v) l = refl

  -- An update of an EndpointSlice leaves, at each key of the labels that is not empty: the new label;
  -- where there is none, no label if the slice says that the key was written by the controller, and
  -- otherwise the label of somebody else, as it was. The same holds of the annotations.
  pub tracked_update-keeps :
      (k : Text) (existing es : EndpointSlice)
      → k ≢ []
      → (lookup k (entries (tracked_update codec existing es).labels)
          ≡ after_update
              (lookup k (entries es.labels))
              (listed k (
                parse_managed_keys codec
                  (annotation_value codec existing managed_label_keys_annotation)))
              (lookup k (entries existing.labels)))
        × (lookup k (entries (tracked_update codec existing es).annotations)
            ≡ after_update
                (lookup k (entries es.annotations))
                (listed k (
                  parse_managed_keys codec
                    (annotation_value codec existing managed_anno_keys_annotation)))
                (lookup k (entries existing.annotations)))
  unfolding tracked_update
  tracked_update-keeps k existing es ne = (
    lookup-updated_entries k existing.labels es.labels _ ne,
    lookup-updated_entries k existing.annotations es.annotations _ ne,
  )
