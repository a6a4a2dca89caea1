-- ===== src/Apply/Objects/Reading.antt =====
-- internal/apply: which calls an object is applied with.
use pangolin_kube_controller.Prelude.{
  ◌≡◌, refl, ℕ, zero, suc, Bool, true, false, not, ◌&&◌, Option, [], if◌then◌else◌,
}
use pangolin_kube_controller.Text.{Text}
use pangolin_kube_controller.Result.{is_not_found, Error, Result, ok, err}
use pangolin_kube_controller.Json.{Fields, Codec}
use pangolin_kube_controller.Sanitize.Config.{Raw}
use pangolin_kube_controller.Kube.{
  Resource, Object, Call, get_object, create_object, patch_object, PatchOptions, History, Api,
}
use pangolin_kube_controller.Kube.Prog.{Prog}
use pangolin_kube_controller.Kube.Prog.Emits.{
  Adds, Emits, Emits-fail, Emits-lift, Emits-call, Emits-if, Emits-bind, Emits-then,
  Emits-on_result,
}
use pangolin_kube_controller.Apply.Metadata.{MetadataConfig}
use pangolin_kube_controller.Apply.Patch.{
  ssa_rounds, after_attempt, is_retried, apply_ssa_with_retry, create_unstructured,
  patch_unstructured,
}
use pangolin_kube_controller.Apply.Objects.{create_or_patch, apply_unstructured, apply_route}

-- The call reads the object of that name, creates one of the resource, or patches the one of that
-- name.
abbrev pub Touches : Resource → Text → Call → Type 0
Touches r n (get_object r' n') = (r' ≡ r) × (n' ≡ n)
Touches r n (create_object r' u b) = r' ≡ r
Touches r n (patch_object r' n' u o) = (r' ≡ r) × (n' ≡ n)
Touches r n _ = ⊥

Emits-after_attempt :
    {P : Call → Type 0} (b : Bool) (again : Prog (Unit {0})) (r : Result (Unit {0}))
    → Emits P again
    → Emits P (after_attempt b again r)
Emits-after_attempt b again (ok u) h = record { at = λ k h. ([], refl, tt) }
Emits-after_attempt {P} b again (err e) hm = record {
  at = λ k h. Adds-test (is_retried b e && not (k.cancelled h)) k h;
}
  where
    Adds-test :
        (t : Bool) (k : Api) (h : History) → Adds P h ((if t then again k h else (err e, h))).1
    Adds-test true k h = hm.at k h
    Adds-test false k h = ([], refl, tt)

Emits-ssa_rounds :
    (r : Resource) (name : Text) (patch : Fields) (opts : PatchOptions) (n : ℕ) (last : Error)
    → Emits (Touches r name) (ssa_rounds r name patch opts n last)
unfolding ssa_rounds
Emits-ssa_rounds r name patch opts zero last = Emits-fail last
Emits-ssa_rounds r name patch opts (suc n) last =
    Emits-on_result _ _ (Emits-call _ _ (refl, refl))
      (λ x. Emits-after_attempt opts.force _ x (Emits-ssa_rounds r name patch opts n _))

module _ (codec : Codec) where
  Emits-create :
      (r : Resource) (name : Text) (u : Fields) (kind : Text)
      → Emits (Touches r name) (create_unstructured codec r u kind)
  unfolding create_unstructured
  Emits-create r name u kind = Emits-then _ _ (Emits-lift _) (Emits-call _ _ refl)

  Emits-patch :
      (r : Resource) (name : Text) (u : Fields) (existing : Option Object) (kind : Text)
      (force ssa_force : Bool)
      → Emits (Touches r name) (patch_unstructured codec r name u existing kind force ssa_force)
  unfolding patch_unstructured apply_ssa_with_retry
  Emits-patch r name u existing kind force ssa_force =
      Emits-then _ _ (Emits-lift _) (Emits-ssa_rounds r name u _ 5 _)

  Emits-create_or_patch :
      {P : Call → Type 0} (create : Prog (Unit {0})) (patch : Object → Prog (Unit {0}))
      (x : Result Object)
      → Emits P create
      → ((o : Object) → Emits P (patch o))
      → Emits P (create_or_patch create patch x)
  Emits-create_or_patch create patch (ok o) hc hp = hp o
  Emits-create_or_patch create patch (err e) hc hp =
      Emits-if (is_not_found e) _ _ (λ _. hc) (λ _. Emits-fail e)

  pub Emits-apply_unstructured :
      (r : Resource) (ns : Text) (ssa_force : Bool) (name : Text) (raw : Raw) (m : MetadataConfig)
      → Emits (Touches r name) (apply_unstructured codec r ns ssa_force name raw m)
  unfolding apply_unstructured
  Emits-apply_unstructured r ns ssa_force name raw m = Emits-bind _ _ (Emits-lift _) (λ spec.
      Emits-on_result _ _ (Emits-call _ _ (refl, refl)) (λ x.
        Emits-create_or_patch _ _ x (Emits-create r name _ _) (λ o. Emits-patch r name _ _ _ _ _)))

  pub Emits-apply_route :
      (r : Resource) (ns kind : Text) (finish : Fields → Fields) (name : Text) (u : Fields)
      (m : MetadataConfig)
      → Emits (Touches r name) (apply_route codec r ns kind finish name u m)
  unfolding apply_route
  Emits-apply_route r ns kind finish name u m =
      Emits-on_result _ _ (Emits-call _ _ (refl, refl)) (λ x.
        Emits-create_or_patch _ _ x (Emits-create r name _ _) (λ o. Emits-patch r name _ _ _ _ _))
