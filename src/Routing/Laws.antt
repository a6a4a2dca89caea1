-- ===== src/Routing/Laws.antt =====
-- internal/transform/routing/routing.go: which routers are accepted, and the metadata of a route.
use pangolin_kube_controller.Prelude.{
  ◌≡◌, ◌≢◌, ◌↔◌, refl, ap, true, false, Option, some, List, [], ◌∷◌, Bool-cases, inl, inr,
  if◌then◌else◌, or_else, is_empty,
}
use pangolin_kube_controller.Text.{Text, codes, text_eq, trim_space}
use pangolin_kube_controller.Text.Trim.{trim_space_idem}
use pangolin_kube_controller.Text.Equality.{text_eq_refl}
use pangolin_kube_controller.Result.{ok}
use pangolin_kube_controller.Json.{
  str, obj, Fields, end, get, put, as_str, as_obj, literal, text_in, strings, str_items,
}
use pangolin_kube_controller.Json.Laws.{get-put}
use pangolin_kube_controller.Routing.{
  RouterConfig, with_annotation, annotate_router_entry_points_if_present, parse_entry_points,
  router_metadata, router_spec, router_object,
}

abbrev pub annotation_at : Text → Fields → Option Text
annotation_at = text_in (codes "annotations")

pub annotation-with :
    (key value j : Text) (meta : Fields)
    → annotation_at j (with_annotation key value meta)
      ≡ (if text_eq key j then some value else annotation_at j meta)
annotation-with key value j meta =
    let e =
      get-put (codes "annotations") (codes "annotations")
        (obj (put key (str value) (or_else (as_obj (get (codes "annotations") meta)) end))) meta in
    let t : text_eq (codes "annotations") (codes "annotations") ≡ true = text_eq_refl _ in
    elim (Bool-cases (text_eq key j)) [
      | inl y ↦ rw (e, t, get-put key j (str value) _, y)
      | inr n ↦ rw (e, t, get-put key j (str value) _, n)
    ]

abbrev pub metadata_of : Fields → Fields
metadata_of u = or_else (as_obj (get (codes "metadata") u)) end

abbrev pub rule_of : Fields → Text
rule_of r = or_else (as_str (get (codes "rule") r)) []

abbrev pub service_of : Fields → Text
service_of r = or_else (as_str (get (codes "service") r)) []

-- The object before its metadata is annotated with the entry points.
abbrev pub object_with : Text → RouterConfig → Fields → Fields → Fields
object_with name cfg r meta = literal (
    (codes "apiVersion", str (codes "traefik.io/v1alpha1"))
    ∷ (codes "kind", str (codes "IngressRoute"))
    ∷ (codes "metadata", obj meta)
    ∷ (codes "spec", obj (router_spec r (rule_of r) (service_of r)))
    ∷ [])

abbrev pub final_metadata : Text → RouterConfig → Fields → Fields
final_metadata name cfg r =
    let meta = router_metadata name cfg in
    annotate_router_entry_points_if_present (object_with name cfg r meta) meta

pub object_of_accepted :
    (name : Text) (cfg : RouterConfig) (r : Fields)
    → is_empty (rule_of r) ≡ false
    → is_empty (service_of r) ≡ false
    → router_object name cfg r ≡ ok (object_with name cfg r (final_metadata name cfg r))
unfolding router_object
object_of_accepted name cfg r p q = rw (p, q)

pub is_empty_iff : (t : Text) → (is_empty t ≡ false) ↔ (t ≢ [])
is_empty_iff [] = (λ h. cc, λ h. absurd (h refl))
is_empty_iff (x ∷ xs) = (λ h e. cc, λ h. refl)

pub accepted_parts :
    (name : Text) (cfg : RouterConfig) (r u : Fields)
    → router_object name cfg r ≡ ok u
    → (is_empty (rule_of r) ≡ false) × (is_empty (service_of r) ≡ false)
unfolding router_object
accepted_parts name cfg r u o = elim (Bool-cases (is_empty (rule_of r))) [
  | inl t ↦ elim (Bool-cases (is_empty (service_of r))) [
    | inl t' ↦ cc (rw (t, t') at o)
    | inr f' ↦ cc (rw (t, f') at o)
  ]
  | inr f ↦ elim (Bool-cases (is_empty (service_of r))) [
    | inl t' ↦ cc (rw (f, t') at o)
    | inr f' ↦ (f, f')
  ]
]

-- A router is accepted exactly when it has a rule and a service, neither of them empty.
pub router_accepted :
    (name : Text) (cfg : RouterConfig) (r : Fields)
    → ((u : Fields) × (router_object name cfg r ≡ ok u)) ↔ ((rule_of r ≢ []) × (service_of r ≢ []))
router_accepted name cfg r = (
  λ (u, o).
      let (p, q) = accepted_parts name cfg r u o in
      ((is_empty_iff (rule_of r)).0 p, (is_empty_iff (service_of r)).0 q),
  λ (p, q). (
    object_with name cfg r (final_metadata name cfg r),
    object_of_accepted name cfg r ((is_empty_iff (rule_of r)).1 p)
        ((is_empty_iff (service_of r)).1 q),
  ),
)

-- A list of entry points that was trimmed is read as it is.
pub parse_entry_points_idem :
    (ss : List Text) → parse_entry_points (parse_entry_points ss) ≡ parse_entry_points ss
unfolding parse_entry_points
parse_entry_points_idem [] = refl
parse_entry_points_idem (s ∷ ss) = elim (Bool-cases (is_empty (trim_space s))) [
  | inl t ↦ rw t (parse_entry_points_idem ss)
  | inr f ↦ rw (f, trim_space_idem s, f, parse_entry_points_idem ss)
]

pub strings-str_items : (ss : List Text) → strings (str_items ss) ≡ ss
unfolding strings str_items
strings-str_items [] = refl
strings-str_items (s ∷ ss) = ap (λ t. s ∷ t) (strings-str_items ss)
