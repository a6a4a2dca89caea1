-- ===== src/Controller/Reconcile/Writes.antt =====
-- internal/controller/apply.go: a phase that returns no error has written every desired object.
pub mod Routers
pub mod Round
use mathlib.Core.Path.{subst}
use pangolin_kube_controller.Prelude.{
  ◌≡◌, refl, sym, ap, ◌∙◌, inl, inr, false, List, [], ◌∷◌, Among,
}
use pangolin_kube_controller.Text.{Text, codes}
use pangolin_kube_controller.Result.{Result, ok}
use pangolin_kube_controller.Maps.{Map, keys}
use pangolin_kube_controller.Json.{Codec}
use pangolin_kube_controller.Sanitize.Config.{Raw}
use pangolin_kube_controller.Kube.{Resource, middlewares, Call, History, Api}
use pangolin_kube_controller.Kube.Prog.{Prog, ◌>>◌}
use pangolin_kube_controller.Kube.Prog.Emits.{Adds, Emits}
use pangolin_kube_controller.Kube.Prog.Runs.{then-ok}
use pangolin_kube_controller.Apply.Objects.{apply_unstructured}
use pangolin_kube_controller.Config.{Config}
use pangolin_kube_controller.Apply.Objects.Reading.{Emits-apply_unstructured}
use pangolin_kube_controller.Controller.Gc.{gc_stale_objects}
use pangolin_kube_controller.Controller.Gc.Calls.{Emits-gc_stale_objects}
use pangolin_kube_controller.Controller.Reconcile.{
  meta_cfg, apply_all, apply_desired_objects, reconcile_middlewares,
}
use pangolin_kube_controller.Controller.Reconcile.Failure.{apply_all_keeps}
use pangolin_kube_controller.Kube.History.{Later, Later-trans}
use pangolin_kube_controller.Apply.Objects.Accepting.{
  Applied, Accepted-from, Accepted-then, apply_unstructured-Accepted,
}

Applied-from :
    (codec : Codec) (k : Api) {r : Resource} {n : Text} (raw : Raw) {h₀ h h' : History}
    → Later h₀ h
    → Applied codec k r n raw h h'
    → Applied codec k r n raw h₀ h'
Applied-from codec k raw s (spec, u, a) = (spec, u, Accepted-from k s a)

Applied-then :
    (codec : Codec) (k : Api) {r : Resource} {n : Text} (raw : Raw) {h h' h'' : History}
    → Applied codec k r n raw h h'
    → Later h' h''
    → Applied codec k r n raw h h''
Applied-then codec k raw (spec, u, a) s = (spec, u, Accepted-then k a s)

pub Adds-Later : {P : Call → Type 0} {h h' : History} → Adds P h h' → Later h h'
Adds-Later (a, e, _) = (a, e)

-- A collection makes some calls.
pub Emits-gc :
    (cfg : Config) (r : Resource) (kind : Text) (desired : List Text)
    → Emits (λ _. Unit {0}) (gc_stale_objects cfg r kind desired)
Emits-gc cfg r kind desired = Emits-gc_stale_objects cfg r kind desired tt (λ _ _ _. tt)

module _ (codec : Codec) (cfg : Config) where
  apply_all-Accepted :
      (r : Resource) (objects : Map Raw) (name : Text) (raw : Raw) (k : Api) (h : History)
      {u : Unit {0}}
      → Among (name, raw) objects
      → (apply_all codec cfg r objects k h).0 ≡ ok u
      → Applied codec k r name raw h (apply_all codec cfg r objects k h).1
  unfolding apply_all
  apply_all-Accepted r [] name raw k h m e = elim m [ ]
  apply_all-Accepted r ((first, body) ∷ objects) name raw k h m e =
      let apply =
        apply_unstructured codec r cfg.namespace cfg.ssa_force first body (meta_cfg codec cfg) in
      let (_, done, eq) = then-ok apply (apply_all codec cfg r objects) k h e in
      let rest = sym (ap (λ z. z.0) eq) ∙ e in
      let h1 : History = (apply k h).1 in
      subst (λ (out : Result (Unit {0}) × History). Applied codec k r name raw h out.1) (sym eq)
        (elim m [
          | inl q ↦
              Applied-then codec k raw
                (subst (λ (p : Text × Raw). Applied codec k r p.0 p.1 h h1) q
                  (apply_unstructured-Accepted codec r _ _ first body _ k h done))
                (Adds-Later ((apply_all_keeps codec cfg r objects).at k h1))
          | inr q ↦
              Applied-from codec k raw
                (Adds-Later (
                  (Emits-apply_unstructured codec r cfg.namespace cfg.ssa_force first body _).at k
                    h))
                (apply_all-Accepted r objects name raw k h1 q rest)
        ])

  -- Of objects that are applied and then collected, every one has been written.
  pub phase-Accepted :
      (r : Resource) (kind : Text) (objects : Map Raw) (name : Text) (raw : Raw) (k : Api)
      (h : History)
      → cfg.read_only ≡ false
      → Among (name, raw) objects
      → ((apply_desired_objects codec cfg r objects >> gc_stale_objects cfg r kind (keys objects)) k
          h).0
        ≡ ok tt
      → Applied codec k r name raw h
          ((apply_desired_objects codec cfg r objects >> gc_stale_objects cfg r kind (keys objects))
            k h).1
  unfolding apply_desired_objects
  phase-Accepted r kind objects name raw k h w m e =
      let gc = gc_stale_objects cfg r kind (keys objects) in
      let (_, done, eq) = then-ok (apply_desired_objects codec cfg r objects) gc k h e in
      let writes : apply_desired_objects codec cfg r objects ≡ apply_all codec cfg r objects =
        rw w refl in
      let h1 : History = (apply_desired_objects codec cfg r objects k h).1 in
      subst (λ (out : Result (Unit {0}) × History). Applied codec k r name raw h out.1) (sym eq)
        (Applied-then codec k raw
          (subst (λ (p : Prog (Unit {0})). Applied codec k r name raw h (p k h).1) (sym writes)
            (apply_all-Accepted r objects name raw k h m
              (sym (ap (λ (p : Prog (Unit {0})). (p k h).0) writes) ∙ done)))
          (Adds-Later ((Emits-gc cfg r kind (keys objects)).at k h1)))

  -- If the phase of the Middlewares returns no error, and the controller is not read only, then the
  -- text of every Middleware of the configuration has been read, and the server has accepted, in
  -- this phase, a call that creates the object of that name with what was read as its spec, or
  -- patches it with an object that has that spec.
  pub reconcile_middlewares-Accepted :
      (objects : Map Raw) (name : Text) (raw : Raw) (k : Api) (h : History)
      → cfg.read_only ≡ false
      → Among (name, raw) objects
      → (reconcile_middlewares codec cfg objects k h).0 ≡ ok tt
      → Applied codec k middlewares name raw h (reconcile_middlewares codec cfg objects k h).1
  unfolding reconcile_middlewares
  reconcile_middlewares-Accepted objects = phase-Accepted middlewares (codes "Middleware") objects
