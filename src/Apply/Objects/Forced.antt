-- ===== src/Apply/Objects/Forced.antt =====
-- internal/apply/unstructured.go: when the patch of an object that exists is forced.
use pangolin_kube_controller.Prelude.{
  ◌≡◌, sym, ◌⊎◌, ◌↔◌, refl, ap, ◌∙◌, Bool, true, false, ◌||◌, inl, inr, some, [], ◌∷◌, arith,
  if◌then◌else◌,
}
use mathlib.Core.Path.{subst}
use pangolin_kube_controller.Text.{Text, codes, text_eq}
use pangolin_kube_controller.Result.{Error, Result, ok, err}
use pangolin_kube_controller.Maps.{Map, GoMap}
use pangolin_kube_controller.Json.{
  Value, str, obj, Fields, Codec, get, literal, unmarshal_map, marshal_value,
}
use pangolin_kube_controller.Sanitize.Config.{Raw}
use pangolin_kube_controller.Kube.{Resource, Object, get_object, patch_object, History, Api, answer}
use pangolin_kube_controller.Kube.Prog.{lift, ◌>>=◌, ◌>>◌, on_result, call}
use pangolin_kube_controller.Apply.Metadata.{
  MetadataConfig, update_metadata_field, with_map, build_metadata_for_apply,
  force_needed_for_metadata,
}
use pangolin_kube_controller.Apply.Metadata.Drift.{CarriesAll, has_instance, build_metadata_force}
use pangolin_kube_controller.Apply.Patch.{ssa_options, patch_unstructured}
use pangolin_kube_controller.Apply.Patch.Retry.{Attempts, apply_ssa_with_retry-Attempts}
use pangolin_kube_controller.Apply.Objects.{kind_for, apply_unstructured}

-- Where nothing is written, the metadata has a name and a namespace only.
update_none :
    (m : GoMap Text) (key v : Text) (t : Map Text)
    → (update_metadata_field m key v t).1 ≡ false
    → (update_metadata_field m key v t).0 ≡ t
unfolding update_metadata_field
update_none m key v t h = ground arith

if_none :
    (b : Bool) (x : Map Text × Bool) (t : Map Text)
    → (x.1 ≡ false → x.0 ≡ t)
    → (if b then x else (t, false)).1 ≡ false
    → (if b then x else (t, false)).0 ≡ t
if_none true x t f h = f h
if_none false x t f h = refl

abbrev bare : Text → Text → Fields
bare name ns = literal ((codes "name", str name) ∷ (codes "namespace", str ns) ∷ [])

four_false :
    (a b c d : Bool)
    → a || b || c || d ≡ false
    → (a ≡ false) × (b ≡ false) × (c ≡ false) × (d ≡ false)
four_false a b c d h = (ground arith, ground arith, ground arith, ground arith)

metadata-bare :
    (o : Object) (name ns kind : Text) (cfg : MetadataConfig)
    → (build_metadata_for_apply (some o) name ns kind cfg).1 ≡ false
    → (build_metadata_for_apply (some o) name ns kind cfg).0 ≡ bare name ns
unfolding build_metadata_for_apply
metadata-bare o name ns kind cfg h =
    let (a, b, c, d) = four_false _ _ _ _ h in
    let labels =
      if_none (has_instance cfg) _ _ (update_none o.labels _ _ _) b
      ∙ update_none o.labels _ _ [] a in
    let annotations =
      if_none (text_eq kind (codes "IngressRoute")) _ _ (update_none o.annotations _ _ _) d
      ∙ update_none o.annotations _ _ [] c in
    λ i.
      with_map (codes "annotations") (annotations i)
        (with_map (codes "labels") (labels i) (bare name ns))

abbrev document : Text → Value → Fields → Fields
document kind spec meta = literal (
    (codes "apiVersion", str (codes "traefik.io/v1alpha1"))
    ∷ (codes "kind", str kind)
    ∷ (codes "metadata", obj meta)
    ∷ (codes "spec", spec)
    ∷ [])

bare-unforced :
    (o : Object) (name ns kind : Text) (spec : Value)
    → force_needed_for_metadata (some o) (document kind spec (bare name ns)) ≡ false
unfolding force_needed_for_metadata get text_eq
bare-unforced o name ns kind spec = refl

three_iff :
    {P : Type 0} (ssa force needed : Bool)
    → (force ≡ false) ↔ P
    → (force ≡ false → needed ≡ false)
    → (ssa || force || needed ≡ false) ↔ ((ssa ≡ false) × P)
three_iff ssa force needed e f = (
  λ h. (ground arith, e.0 (ground arith)),
  λ (s, p). let b = e.1 p in let n = f b in rw (s, b, n) refl,
)

-- What is done with an object that is there: the text is no JSON; or the patch has the spec that the
-- text stands for, and cannot be printed; or it is sent, and forced unless SSA_FORCE is off and the
-- object has all of the metadata.
abbrev pub Patched :
    Codec
    → Api
    → Resource
    → Text
    → Bool
    → Object
    → MetadataConfig
    → Raw
    → History
    → Result (Unit {0}) × History
    → Type 0
Patched codec k r name ssa_force o cfg raw h out =
    ((e : Error) × (unmarshal_map codec raw ≡ err e) × (out ≡ (err e, h)))
    ⊎ ((spec : Value) × (u : Fields) × (unmarshal_map codec raw ≡ ok spec)
        × (get (codes "spec") u ≡ some spec)
        × (((e : Error) × (marshal_value codec (obj u) ≡ err e)
              × (out ≡ (err e, get_object r name ∷ h)))
            ⊎ ((force : Bool) × ((force ≡ false)
                  ↔ ((ssa_force ≡ false) × CarriesAll o (kind_for r) cfg))
                × Attempts k (patch_object r name u (ssa_options (kind_for r) force)) force 4
                    (get_object r name ∷ h) out)))

module _ (codec : Codec) (r : Resource) (ns : Text) (ssa_force : Bool) (name : Text)
    (cfg : MetadataConfig) (k : Api) (o : Object) where
  abbrev new_metadata : Fields × Bool
  new_metadata = build_metadata_for_apply (some o) name ns (kind_for r) cfg

  abbrev new_document : Value → Fields
  new_document spec = document (kind_for r) spec new_metadata.0

  unforced :
      (spec : Value)
      → new_metadata.1 ≡ false
      → force_needed_for_metadata (some o) (new_document spec) ≡ false
  unforced spec h =
      ap (λ m. force_needed_for_metadata (some o) (document (kind_for r) spec m))
        (metadata-bare o name ns (kind_for r) cfg h)
      ∙ bare-unforced o name ns (kind_for r) spec

  patch-Patched :
      (raw : Raw) (spec : Value) (h : History) (x : Result Text)
      → unmarshal_map codec raw ≡ ok spec
      → marshal_value codec (obj (new_document spec)) ≡ x
      → Patched codec k r name ssa_force o cfg raw h (
          patch_unstructured codec r name
            (new_document spec)
            (some o)
            (kind_for r)
            new_metadata.1
            ssa_force
            k
            (get_object r name ∷ h))
  unfolding patch_unstructured ◌>>◌ ◌>>=◌ lift get text_eq
  patch-Patched raw spec h (err e) p q =
      rw q (inr (spec, new_document spec, p, refl, inl (e, q, refl)))
  patch-Patched raw spec h (ok t) p q = rw q (
      inr (
        spec,
        new_document spec,
        p,
        refl,
        inr (
          ssa_force || new_metadata.1 || force_needed_for_metadata (some o) (new_document spec),
          three_iff ssa_force new_metadata.1 _ (build_metadata_force o name ns (kind_for r) cfg)
              (unforced spec),
          apply_ssa_with_retry-Attempts r name (new_document spec) (kind_for r) _ k
              (get_object r name ∷ h),
        ),
      ))

  -- An object that is there is patched with the spec that the text stands for, unless the text
  -- is no JSON or the patch cannot be printed: this error is returned, with no call but the get. The
  -- patch is sent at least once and at most five times, and is forced exactly when SSA_FORCE is set,
  -- or the object lacks one of the configured labels and annotations or has another value for it.
  pub apply_unstructured-Patched :
      (raw : Raw) (h : History)
      → k.object h r name ≡ answer o
      → Patched codec k r name ssa_force o cfg raw h
          (apply_unstructured codec r ns ssa_force name raw cfg k h)
  unfolding apply_unstructured ◌>>=◌ lift on_result call
  apply_unstructured-Patched raw h there = by_spec (unmarshal_map codec raw) refl
    where
      out : Result (Unit {0}) × History
      out = apply_unstructured codec r ns ssa_force name raw cfg k h

      by_spec :
          (x : Result Value)
          → unmarshal_map codec raw ≡ x
          → Patched codec k r name ssa_force o cfg raw h out
      by_spec (err e) q = inl (e, q, rw q refl)
      by_spec (ok spec) q =
          let sent : out
              ≡ patch_unstructured codec r name (new_document spec) (some o) (kind_for r)
                  new_metadata.1 ssa_force k (get_object r name ∷ h) =
            rw (q, there) refl in
          subst (Patched codec k r name ssa_force o cfg raw h) (sym sent)
            (patch-Patched raw spec h _ q refl)
