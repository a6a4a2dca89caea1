-- ===== src/Apply/Objects/Accepting/Routes.antt =====
-- internal/apply/ingressroute.go: a route that is applied without an error was written.
use pangolin_kube_controller.Prelude.{
  ◌≡◌, refl, ◌∙◌, inl, inr, false, Option, Option-cases, some, List, [], ◌∷◌, or_else,
}
use pangolin_kube_controller.Text.{Text, codes, text_eq}
use pangolin_kube_controller.Result.{ok}
use pangolin_kube_controller.Json.{Value, obj, Fields, Codec, get, put, as_str, as_obj, text_in}
use pangolin_kube_controller.Json.Laws.{get-put}
use pangolin_kube_controller.Kube.{ingress_routes, History, Api}
use pangolin_kube_controller.Apply.Metadata.{MetadataConfig}
use pangolin_kube_controller.Routing.{
  annotate_entry_points, annotate_router_entry_points_if_present, extract_entry_points,
}
use pangolin_kube_controller.Apply.Objects.{apply_ingress_route}
use pangolin_kube_controller.Apply.Objects.Accepting.{
  Accepted, metadata-name, fetched-Accepted, create-Accepted, patch_unstructured-Accepted,
}

abbrev name_in : Fields → Option Text
name_in meta = as_str (get (codes "name") meta)

-- The entry points are annotations and leave the name as it is.
annotate_entry_points-name :
    (es : List Text) (meta : Fields) → name_in (annotate_entry_points es meta) ≡ name_in meta
unfolding text_eq
annotate_entry_points-name [] meta = refl
annotate_entry_points-name (e ∷ es) meta =
    rw (get-put (codes "annotations") (codes "name") _ meta) refl

annotate-name :
    (u meta : Fields) → name_in (annotate_router_entry_points_if_present u meta) ≡ name_in meta
unfolding annotate_router_entry_points_if_present
annotate-name u meta = elim (Option-cases (as_obj (get (codes "spec") u))) [
  | inl n ↦ rw (n, annotate_router_entry_points_if_present) refl
  | inr (spec, y) ↦
      rw (y, annotate_router_entry_points_if_present)
        (annotate_entry_points-name (or_else (extract_entry_points spec) []) meta)
]

-- Metadata that are put into an object do not change its spec, and their name is the object's.
spec-put_metadata :
    (u meta : Fields)
    → get (codes "spec") (put (codes "metadata") (obj meta) u) ≡ get (codes "spec") u
unfolding text_eq
spec-put_metadata u meta = rw (get-put (codes "metadata") (codes "spec") (obj meta) u) refl

name-put_metadata :
    (u meta : Fields)
    → text_in (codes "metadata") (codes "name") (put (codes "metadata") (obj meta) u) ≡ name_in meta
unfolding text_eq
name-put_metadata u meta = rw (get-put (codes "metadata") (codes "metadata") (obj meta) u) refl

module _ (codec : Codec) where
  pub apply_ingress_route-Accepted :
      (ns name : Text) (u : Fields) (cfg : MetadataConfig) (k : Api) (h : History) (spec : Value)
      {x : Unit {0}}
      → get (codes "spec") u ≡ some spec
      → (apply_ingress_route codec false ns name u cfg k h).0 ≡ ok x
      → Accepted k ingress_routes name spec h (apply_ingress_route codec false ns name u cfg k h).1
  unfolding apply_ingress_route
  apply_ingress_route-Accepted ns name u cfg k h spec q e =
      fetched-Accepted ingress_routes name _ _ k h spec
        (λ h' g.
          create-Accepted codec ingress_routes name _ (codes "IngressRoute") k h' spec
            (name-put_metadata u _
              ∙ (annotate-name u _ ∙ metadata-name name ns (codes "IngressRoute") cfg))
            (spec-put_metadata u _ ∙ q) g)
        (λ o h' g.
          patch_unstructured-Accepted codec ingress_routes name _ (some o) (codes "IngressRoute") _
            false k h' spec (spec-put_metadata u _ ∙ q) g)
        e
