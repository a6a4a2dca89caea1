-- ===== src/Routing/Mirror.antt =====
-- internal/transform/routing/routing.go: the annotations of a route.
use mathlib.Core.Path.{subst}
use pangolin_kube_controller.Prelude.{
  ◌⊎◌, inl, inr, ◌≡◌, ◌≢◌, refl, sym, ap, ◌∙◌, false, Option, none, some, List, [], ◌∷◌,
  if◌then◌else◌, or_else, is_empty,
}
use pangolin_kube_controller.Text.{Text, codes, text_eq, join}
use pangolin_kube_controller.Text.Equality.{text_eq_refl}
use pangolin_kube_controller.Result.{ok}
use pangolin_kube_controller.Json.{Fields, end, field, get, put, as_obj, as_arr, Items, strings}
use pangolin_kube_controller.Routing.{
  RouterConfig, ingress_class_annotation, router_entry_points_annotation, annotate_entry_points,
  annotate_router_entry_points_if_present, extract_entry_points, router_metadata, router_spec,
  router_object, slice_value, parse_entry_points,
}
use pangolin_kube_controller.Routing.Laws.{
  annotation_at, annotation-with, metadata_of, rule_of, service_of, object_with, final_metadata,
  accepted_parts, object_of_accepted, parse_entry_points_idem, strings-str_items, is_empty_iff,
}

parsed_again :
    (r : Fields) (ss : List Text) → extract_entry_points r ≡ some ss → parse_entry_points ss ≡ ss
parsed_again r ss e = go (as_arr (get (codes "entryPoints") r)) refl
  where
    go : (o : Option Items) → as_arr (get (codes "entryPoints") r) ≡ o → parse_entry_points ss ≡ ss
    go none q =
        let n : extract_entry_points r ≡ none =
          unfold extract_entry_points in rw (q, extract_entry_points) in
        cc
    go (some v) q =
        let n : extract_entry_points r ≡ some (parse_entry_points (strings v)) =
          unfold extract_entry_points in rw (q, extract_entry_points) in
        subst (λ x. parse_entry_points x ≡ x) (ap (λ o. or_else o []) (sym n ∙ e))
          (parse_entry_points_idem (strings v))

-- The entry points of the spec that is built are those of the router.
slice_points :
    (o : Option (List Text)) (rest r : Fields)
    → extract_entry_points r ≡ o
    → or_else (extract_entry_points (field (codes "entryPoints") (slice_value o) rest)) []
      ≡ or_else o []
unfolding extract_entry_points get text_eq
slice_points none rest r e = refl
slice_points (some ss) rest r e = rw (strings-str_items ss) (parsed_again r ss e)

spec_points :
    (r : Fields) (rule service : Text)
    → or_else (extract_entry_points (router_spec r rule service)) []
      ≡ or_else (extract_entry_points r) []
unfolding router_spec put text_eq
spec_points r rule service = by_tls (as_obj (get (codes "tls") r)) refl
  where
    by_tls :
        (o : Option Fields)
        → as_obj (get (codes "tls") r) ≡ o
        → or_else (extract_entry_points (router_spec r rule service)) []
          ≡ or_else (extract_entry_points r) []
    by_tls none e = rw (e, router_spec) (slice_points (extract_entry_points r) _ r refl)
    by_tls (some end) e = rw (e, router_spec) (slice_points (extract_entry_points r) _ r refl)
    by_tls (some (field k v fs)) e =
        rw (e, router_spec) (slice_points (extract_entry_points r) _ r refl)

annotation-annotate :
    (es : List Text) (j : Text) (meta : Fields)
    → annotation_at j (annotate_entry_points es meta) ≡ (
        if is_empty es
        then annotation_at j meta
        else if text_eq router_entry_points_annotation j
        then some (join (codes ",") es)
        else annotation_at j meta)
annotation-annotate [] j meta = refl
annotation-annotate (e ∷ es) j meta = annotation-with router_entry_points_annotation _ j meta

-- The metadata of an accepted router, before and after the entry points are written.
final-annotation :
    (name : Text) (cfg : RouterConfig) (r : Fields) (j : Text)
    → annotation_at j (final_metadata name cfg r)
      ≡ annotation_at j
          (annotate_entry_points (or_else (extract_entry_points r) []) (router_metadata name cfg))
unfolding annotate_router_entry_points_if_present get text_eq
final-annotation name cfg r j =
    ap (λ es. annotation_at j (annotate_entry_points es (router_metadata name cfg)))
      (spec_points r (rule_of r) (service_of r))

classed :
    (name : Text) (cfg : RouterConfig)
    → is_empty cfg.ingress_class ≡ false
    → annotation_at ingress_class_annotation (router_metadata name cfg) ≡ some cfg.ingress_class
unfolding router_metadata
classed name cfg f = rw (
  f,
  annotation-with ingress_class_annotation cfg.ingress_class ingress_class_annotation,
  text_eq_refl ingress_class_annotation,
)

final-metadata_of :
    (name : Text) (cfg : RouterConfig) (r u : Fields)
    → router_object name cfg r ≡ ok u
    → metadata_of u ≡ final_metadata name cfg r
unfolding get text_eq
final-metadata_of name cfg r u o =
    let (p, q) = accepted_parts name cfg r u o in
    let e : ok u ≡ ok (object_with name cfg r (final_metadata name cfg r)) =
      sym o ∙ object_of_accepted name cfg r p q in
    let same : u ≡ object_with name cfg r (final_metadata name cfg r) = cc in ap metadata_of same

class-ne-points : text_eq router_entry_points_annotation ingress_class_annotation ≡ false
unfolding text_eq
class-ne-points = refl

class_kept :
    (es : List Text) (meta : Fields)
    → annotation_at ingress_class_annotation (annotate_entry_points es meta)
      ≡ annotation_at ingress_class_annotation meta
class_kept [] meta = refl
class_kept (e ∷ es) meta = rw (annotation-annotate (e ∷ es), class-ne-points)

-- The route of an accepted router carries the configured class of the ingress, if it is not empty,
-- and the entry points of the router, each trimmed and the empty ones left out, joined by commas,
-- if there is one at least; and the router is accepted only with a rule and a service.
pub route_annotations :
    (name : Text) (cfg : RouterConfig) (r u : Fields)
    → router_object name cfg r ≡ ok u
    → ((cfg.ingress_class ≡ [])
        ⊎ (annotation_at ingress_class_annotation (metadata_of u) ≡ some cfg.ingress_class))
      × ((or_else (extract_entry_points r) [] ≡ [])
          ⊎ (annotation_at router_entry_points_annotation (metadata_of u)
              ≡ some (join (codes ",") (or_else (extract_entry_points r) []))))
      × (rule_of r ≢ [])
      × (service_of r ≢ [])
route_annotations name cfg r u o =
    let (p, q) = accepted_parts name cfg r u o in
    (
      with_class cfg.ingress_class refl,
      with_points (or_else (extract_entry_points r) []) refl,
      (is_empty_iff (rule_of r)).0 p,
      (is_empty_iff (service_of r)).0 q,
    )
  where
    with_class :
        (class : Text)
        → cfg.ingress_class ≡ class
        → (cfg.ingress_class ≡ [])
          ⊎ (annotation_at ingress_class_annotation (metadata_of u) ≡ some cfg.ingress_class)
    with_class [] e = inl e
    with_class (c ∷ cs) e = inr (
        rw
          (
            final-metadata_of name cfg r u o,
            final-annotation name cfg r,
            class_kept (or_else (extract_entry_points r) []) (router_metadata name cfg),
          )
          (classed name cfg (rw e refl)))

    with_points :
        (points : List Text)
        → or_else (extract_entry_points r) [] ≡ points
        → (or_else (extract_entry_points r) [] ≡ [])
          ⊎ (annotation_at router_entry_points_annotation (metadata_of u)
              ≡ some (join (codes ",") (or_else (extract_entry_points r) [])))
    with_points [] e = inl e
    with_points (x ∷ xs) e = inr (
        rw (
          final-metadata_of name cfg r u o,
          final-annotation name cfg r,
          e,
          annotation-annotate (x ∷ xs),
          text_eq_refl router_entry_points_annotation,
        ))
