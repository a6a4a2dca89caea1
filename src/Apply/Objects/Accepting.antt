-- ===== src/Apply/Objects/Accepting.antt =====
-- internal/apply/unstructured.go: an object that is applied without an error was written.
pub mod Routes
use mathlib.Core.List.{append_assoc}
use mathlib.Core.Path.{subst}
use pangolin_kube_controller.Prelude.{
  ◌≡◌, refl, sym, ap, ◌∙◌, inl, inr, ℕ, zero, suc, Bool, true, false, Option, none, some, [], ◌∷◌,
  ◌++◌, if◌then◌else◌, Bool-cases, is_empty,
}
use pangolin_kube_controller.Text.{Text, codes, text_eq}
use pangolin_kube_controller.Result.{Error, Result, ok, err, is_not_found}
use pangolin_kube_controller.Maps.{Map}
use pangolin_kube_controller.Json.{
  Value, str, obj, Fields, Codec, get, as_str, literal, text_in, unmarshal_map,
}
use pangolin_kube_controller.Json.Laws.{get-put}
use pangolin_kube_controller.Sanitize.Config.{Raw}
use pangolin_kube_controller.Kube.{
  Resource, Object, Call, get_object, create_object, patch_object, History, Api, Answer, answer,
  refused,
}
use pangolin_kube_controller.Kube.Prog.{
  Prog, fail, lift, to_result, call, on_result, perform, fetch_object,
}
use pangolin_kube_controller.Kube.History.{Later, Later-trans}
use pangolin_kube_controller.Kube.Prog.Runs.{bind-ok, then-ok}
use pangolin_kube_controller.Apply.Metadata.{MetadataConfig, build_metadata_for_apply, with_map}
use pangolin_kube_controller.Apply.Patch.{
  ssa_options, apply_ssa_with_retry, marshalled, create_unstructured, patch_unstructured,
  ignore_field_validation,
}
use pangolin_kube_controller.Apply.Patch.Retry.{calls, apply_ssa_with_retry-Attempts}
use pangolin_kube_controller.Apply.Objects.{kind_for, create_or_patch, apply_unstructured}

-- The call creates the object of that name with that spec, or patches it with an object that has
-- that spec.
abbrev pub Writes : Resource → Text → Value → Call → Type 0
Writes r n spec (create_object r' u b) =
    (r' ≡ r)
    × (text_in (codes "metadata") (codes "name") u ≡ some n)
    × (get (codes "spec") u ≡ some spec)
Writes r n spec (patch_object r' n' u o) = (r' ≡ r) × (n' ≡ n) × (get (codes "spec") u ≡ some spec)
Writes r n spec _ = ⊥

-- Among the calls made since `h` there is one that writes the object and that the server accepts.
abbrev pub Accepted : Api → Resource → Text → Value → History → History → Type 0
Accepted k r n spec h h' =
    (c : Call) × (before : History) × Writes r n spec c
    × (k.done before c ≡ answer tt)
    × Later h before
    × Later (c ∷ before) h'

pub Accepted-from :
    (k : Api) {r : Resource} {n : Text} {spec : Value} {h₀ h h' : History}
    → Later h₀ h
    → Accepted k r n spec h h'
    → Accepted k r n spec h₀ h'
Accepted-from k s (c, before, w, t, b, l) = (c, before, w, t, Later-trans s b, l)

-- A write that was accepted stays so.
pub Accepted-then :
    (k : Api) {r : Resource} {n : Text} {spec : Value} {h h' h'' : History}
    → Accepted k r n spec h h'
    → Later h' h''
    → Accepted k r n spec h h''
Accepted-then k (c, before, w, t, b, l) s = (c, before, w, t, b, Later-trans l s)

calls-Later : (m : ℕ) (c : Call) (h : History) → Later h (calls m c h)
calls-Later zero c h = ([], refl)
calls-Later (suc m) c h = let (a, e) = calls-Later m c h in (c ∷ a, ap (λ t. c ∷ t) e)

answer_of_ok : (a : Answer (Unit {0})) {u : Unit {0}} → to_result a ≡ ok u → a ≡ answer tt
answer_of_ok (answer u) e = refl
answer_of_ok (refused x) e = cc

patch-Accepted :
    (r : Resource) (name : Text) (patch : Fields) (kind : Text) (use_force : Bool) (k : Api)
    (h : History) (spec : Value) {u : Unit {0}}
    → get (codes "spec") patch ≡ some spec
    → (apply_ssa_with_retry r name patch kind use_force k h).0 ≡ ok u
    → Accepted k r name spec h (apply_ssa_with_retry r name patch kind use_force k h).1
patch-Accepted r name patch kind use_force k h spec q e =
    let (m, _, made, result, _, _) =
      apply_ssa_with_retry-Attempts r name patch kind use_force k h in
    let c = patch_object r name patch (ssa_options kind use_force) in
    (
      c,
      calls m c h,
      (refl, refl, q),
      answer_of_ok (k.done (calls m c h) c) (sym result ∙ e),
      calls-Later m c h,
      ([], made),
    )

-- The name in the metadata of an object that is created.
name_kept :
    (section : Text) (m : Map Text) (meta : Fields) (n : Text)
    → text_eq section (codes "name") ≡ false
    → as_str (get (codes "name") meta) ≡ some n
    → as_str (get (codes "name") (with_map section m meta)) ≡ some n
name_kept section m meta n ne e = elim (Bool-cases (is_empty m)) [
  | inl t ↦ rw t e
  | inr f ↦ rw (f, get-put section (codes "name"), ne) e
]

pub metadata-name :
    (name ns kind : Text) (cfg : MetadataConfig)
    → as_str (get (codes "name") (build_metadata_for_apply none name ns kind cfg).0) ≡ some name
unfolding build_metadata_for_apply get text_eq
metadata-name name ns kind cfg = search name_kept

-- Whichever of the two is run writes the object.
pub fetched-Accepted :
    (r : Resource) (name : Text) (create : Prog Unit) (patch : Object → Prog Unit) (k : Api)
    (h : History) (spec : Value) {u : Unit {0}}
    → ((h' : History) → (create k h').0 ≡ ok tt → Accepted k r name spec h' (create k h').1)
    → ((o : Object) (h' : History)
        → (patch o k h').0 ≡ ok tt
        → Accepted k r name spec h' (patch o k h').1)
    → (on_result (fetch_object r name) (create_or_patch create patch) k h).0 ≡ ok u
    → Accepted k r name spec h
        (on_result (fetch_object r name) (create_or_patch create patch) k h).1
unfolding on_result call fail
fetched-Accepted r name create patch k h spec {u} hc hp e =
    by_answer (to_result (k.object h r name)) e
  where
    created :
        (x : Error) (h' : History) (b : Bool)
        → ((if b then create else fail x) k h').0 ≡ ok u
        → Accepted k r name spec h' ((if b then create else fail x) k h').1
    created x h' true g = hc h' g
    created x h' false g = cc

    by_answer :
        (x : Result Object)
        → (create_or_patch create patch x k (get_object r name ∷ h)).0 ≡ ok u
        → Accepted k r name spec h (create_or_patch create patch x k (get_object r name ∷ h)).1
    by_answer (ok o) g =
        Accepted-from k (get_object r name ∷ [], refl) (hp o (get_object r name ∷ h) g)
    by_answer (err x) g =
        Accepted-from k (get_object r name ∷ [], refl)
          (created x (get_object r name ∷ h) (is_not_found x) g)

-- An object of that name was written, with the spec that the text stands for.
abbrev pub Applied : Codec → Api → Resource → Text → Raw → History → History → Type 0
Applied codec k r n raw h h' =
    (spec : Value) × (unmarshal_map codec raw ≡ ok spec) × Accepted k r n spec h h'

module _ (codec : Codec) where
  pub create-Accepted :
      (r : Resource) (name : Text) (o : Fields) (kind : Text) (k : Api) (h : History) (spec : Value)
      {u : Unit {0}}
      → text_in (codes "metadata") (codes "name") o ≡ some name
      → get (codes "spec") o ≡ some spec
      → (create_unstructured codec r o kind k h).0 ≡ ok u
      → Accepted k r name spec h (create_unstructured codec r o kind k h).1
  unfolding create_unstructured lift call
  create-Accepted r name o kind k h spec n q e =
      let c = create_object r o (ignore_field_validation kind) in
      let (_, _, eq) = then-ok (marshalled codec o) (perform c) k h e in
      (
        c,
        h,
        (refl, n, q),
        answer_of_ok (k.done h c) (sym (ap (λ z. z.0) eq) ∙ e),
        ([], refl),
        ([], ap (λ z. z.1) eq),
      )

  pub patch_unstructured-Accepted :
      (r : Resource) (name : Text) (o : Fields) (existing : Option Object) (kind : Text)
      (force ssa_force : Bool) (k : Api) (h : History) (spec : Value) {u : Unit {0}}
      → get (codes "spec") o ≡ some spec
      → (patch_unstructured codec r name o existing kind force ssa_force k h).0 ≡ ok u
      → Accepted k r name spec h
          (patch_unstructured codec r name o existing kind force ssa_force k h).1
  unfolding patch_unstructured lift
  patch_unstructured-Accepted r name o existing kind force ssa_force k h spec q e =
      let (_, _, eq) = then-ok (marshalled codec o) _ k h e in
      subst (λ (out : Result (Unit {0}) × History). Accepted k r name spec h out.1) (sym eq)
        (patch-Accepted r name o kind _ k h spec q (sym (ap (λ z. z.0) eq) ∙ e))

  pub apply_unstructured-Accepted :
      (r : Resource) (ns : Text) (ssa_force : Bool) (name : Text) (raw : Raw) (cfg : MetadataConfig)
      (k : Api) (h : History) {u : Unit {0}}
      → (apply_unstructured codec r ns ssa_force name raw cfg k h).0 ≡ ok u
      → Applied codec k r name raw h (apply_unstructured codec r ns ssa_force name raw cfg k h).1
  unfolding apply_unstructured on_result call get text_eq lift patch_unstructured
      create_unstructured
  apply_unstructured-Accepted r ns ssa_force name raw cfg k h e =
      let (spec, read, eq) = bind-ok (lift (unmarshal_map codec raw)) _ k h e in
      let written =
        subst (λ (out : Result (Unit {0}) × History). Accepted k r name spec h out.1) (sym eq)
          (fetched-Accepted r name _ _ k _ spec
            (λ h' g. create-Accepted r name _ (kind_for r) k h' spec (named spec) refl g)
            (λ o h' g.
              patch_unstructured-Accepted r name _ (some o) (kind_for r) _ ssa_force k h' spec refl
                g)
            (sym (ap (λ z. z.0) eq) ∙ e)) in
      (spec, read, written)
    where
      named :
          (spec : Value)
          → text_in (codes "metadata") (codes "name") (
              literal (
                (codes "apiVersion", str (codes "traefik.io/v1alpha1"))
                ∷ (codes "kind", str (kind_for r))
                ∷ (codes "metadata", obj (build_metadata_for_apply none name ns (kind_for r) cfg).0)
                ∷ (codes "spec", spec)
                ∷ []))
            ≡ some name
      named spec = metadata-name name ns (kind_for r) cfg
