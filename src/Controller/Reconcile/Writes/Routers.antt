-- ===== src/Controller/Reconcile/Writes/Routers.antt =====
-- internal/controller/apply.go (reconcileRouters): a phase of the routers that returns no error has
-- written every route.
use mathlib.Core.Path.{subst}
use pangolin_kube_controller.Prelude.{
  ◌≡◌, sym, ap, ◌∙◌, inl, inr, true, false, Bool, some, [], ◌∷◌, Among,
}
use pangolin_kube_controller.Text.{Text, codes, text_eq}
use pangolin_kube_controller.Result.{Result, ok, >>=-eq-ok}
use pangolin_kube_controller.Maps.{Map, keys}
use pangolin_kube_controller.Json.{Codec, Fields, Value, obj, get, fields_of, unmarshal_map}
use pangolin_kube_controller.Sanitize.Config.{Raw}
use pangolin_kube_controller.Kube.{ingress_routes, History, Api}
use pangolin_kube_controller.Kube.Prog.{lift}
use pangolin_kube_controller.Kube.Prog.Emits.{
  Emits, Emits-pure, Emits-if, Emits-then, Emits-bind, Emits-lift, Emits-mono,
}
use pangolin_kube_controller.Kube.Prog.Runs.{bind-ok, then-ok}
use pangolin_kube_controller.Apply.Metadata.{MetadataConfig}
use pangolin_kube_controller.Apply.Objects.{apply_ingress_route}
use pangolin_kube_controller.Apply.Objects.Reading.{Emits-apply_route}
use pangolin_kube_controller.Apply.Objects.Accepting.{Accepted, Accepted-from, Accepted-then}
use pangolin_kube_controller.Apply.Objects.Accepting.Routes.{apply_ingress_route-Accepted}
use pangolin_kube_controller.Routing.{
  RouterConfig, annotate_router_entry_points_if_present, router_spec,
  transform_router_to_ingress_route,
}
use pangolin_kube_controller.Routing.Laws.{
  rule_of, service_of, accepted_parts, object_of_accepted, object_with, final_metadata,
}
use pangolin_kube_controller.Config.{Config}
use pangolin_kube_controller.Controller.Gc.{gc_stale_objects}
use pangolin_kube_controller.Controller.Routers.{router_cfg, transform_routers}
use pangolin_kube_controller.Controller.Reconcile.{meta_cfg, apply_routers, reconcile_routers}
use pangolin_kube_controller.Controller.Reconcile.Writes.{Adds-Later, Emits-gc}

-- Every route has a spec.
get-route :
    (codec : Codec) (name : Text) (raw : Raw) (cfg : RouterConfig) (u : Fields)
    → transform_router_to_ingress_route codec name raw cfg ≡ ok u
    → (spec : Value) × (get (codes "spec") u ≡ some spec)
unfolding transform_router_to_ingress_route get text_eq
get-route codec name raw cfg u e =
    let (v, _, made) = >>=-eq-ok (unmarshal_map codec raw) _ e in
    let r = fields_of v in
    let (has_rule, has_service) = accepted_parts name cfg r u made in
    let final = object_with name cfg r (final_metadata name cfg r) in
    let made' : ok final ≡ ok u = sym (object_of_accepted name cfg r has_rule has_service) ∙ made in
    let same : final ≡ u = cc in
    (obj (router_spec r (rule_of r) (service_of r)), ap (get (codes "spec")) (sym same))

module _ (codec : Codec) (cfg : Config) where
  -- Every router is transformed.
  transform_routers-lists :
      (routers : Map Raw) (transformed : Map Fields) (name : Text) (raw : Raw)
      → transform_routers codec cfg routers ≡ ok transformed
      → Among (name, raw) routers
      → (u : Fields) × (transform_router_to_ingress_route codec name raw (router_cfg codec cfg)
          ≡ ok u)
        × Among (name, u) transformed
  unfolding transform_routers
  transform_routers-lists [] transformed name raw e m = elim m [ ]
  transform_routers-lists ((n, r) ∷ routers) transformed name raw e m =
      let (u, made, e') =
        >>=-eq-ok (transform_router_to_ingress_route codec n r (router_cfg codec cfg)) _ e in
      let (rest, others, e'') = >>=-eq-ok (transform_routers codec cfg routers) _ e' in
      let all : ((n, u) ∷ rest) ≡ transformed = cc in
      subst
        (λ (t : Map Fields).
          (v : Fields) × (transform_router_to_ingress_route codec name raw (router_cfg codec cfg)
            ≡ ok v)
          × Among (name, v) t)
        all
        (elim m [
          | inl q ↦ (
            u,
            sym (
                  ap
                    (λ (p : Text × Raw).
                      transform_router_to_ingress_route codec p.0 p.1 (router_cfg codec cfg))
                    q)
                ∙ made,
            inl (ap (λ (p : Text × Raw). (p.0, u)) q),
          )
          | inr m' ↦
              let (v, made', among) = transform_routers-lists routers rest name raw others m' in
              (v, made', inr among)
        ])

  Emits-route :
      (read_only : Bool) (ns name : Text) (u : Fields) (m : MetadataConfig)
      → Emits (λ _. Unit {0}) (apply_ingress_route codec read_only ns name u m)
  unfolding apply_ingress_route
  Emits-route read_only ns name u m =
      Emits-if read_only _ _ (λ _. Emits-pure tt)
        (λ _.
          Emits-mono _ (λ _ _. tt)
            (Emits-apply_route codec ingress_routes ns (codes "IngressRoute")
              (annotate_router_entry_points_if_present u) name u m))

  pub Emits-apply_routers :
      (transformed : Map Fields) → Emits (λ _. Unit {0}) (apply_routers codec cfg transformed)
  unfolding apply_routers
  Emits-apply_routers [] = Emits-pure tt
  Emits-apply_routers ((name, u) ∷ transformed) =
      Emits-then _ _ (Emits-route cfg.read_only cfg.namespace name u _)
        (Emits-apply_routers transformed)

  pub Emits-reconcile_routers :
      (routers : Map Raw) → Emits (λ _. Unit {0}) (reconcile_routers codec cfg routers)
  unfolding reconcile_routers
  Emits-reconcile_routers routers =
      Emits-bind _ _ (Emits-lift _)
        (λ transformed. Emits-then _ _ (Emits-apply_routers transformed) (Emits-gc cfg _ _ _))

  apply_one-Accepted :
      (read_only : Bool) (name : Text) (u : Fields) (spec : Value) (k : Api) (h : History)
      {x : Unit {0}}
      → read_only ≡ false
      → get (codes "spec") u ≡ some spec
      → (apply_ingress_route codec read_only cfg.namespace name u (meta_cfg codec cfg) k h).0 ≡ ok x
      → Accepted k ingress_routes name spec h
          (apply_ingress_route codec read_only cfg.namespace name u (meta_cfg codec cfg) k h).1
  apply_one-Accepted true name u spec k h w q e = cc
  apply_one-Accepted false name u spec k h w q e =
      apply_ingress_route-Accepted codec cfg.namespace name u (meta_cfg codec cfg) k h spec q e

  apply_routers-Accepted :
      (transformed : Map Fields) (name : Text) (u : Fields) (spec : Value) (k : Api) (h : History)
      {x : Unit {0}}
      → cfg.read_only ≡ false
      → Among (name, u) transformed
      → get (codes "spec") u ≡ some spec
      → (apply_routers codec cfg transformed k h).0 ≡ ok x
      → Accepted k ingress_routes name spec h (apply_routers codec cfg transformed k h).1
  unfolding apply_routers
  apply_routers-Accepted [] name u spec k h w m q e = elim m [ ]
  apply_routers-Accepted ((n, v) ∷ transformed) name u spec k h w m q e =
      let apply = apply_ingress_route codec cfg.read_only cfg.namespace n v (meta_cfg codec cfg) in
      let (_, done, eq) = then-ok apply (apply_routers codec cfg transformed) k h e in
      let h1 : History = (apply k h).1 in
      subst (λ (out : Result (Unit {0}) × History). Accepted k ingress_routes name spec h out.1)
        (sym eq)
        (elim m [
          | inl p ↦
              Accepted-then k
                (subst (λ (z : Text × Fields). Accepted k ingress_routes z.0 spec h h1) p
                  (apply_one-Accepted cfg.read_only n v spec k h w
                    (ap (λ (z : Text × Fields). get (codes "spec") z.1) p ∙ q) done))
                (Adds-Later ((Emits-apply_routers transformed).at k h1))
          | inr later ↦
              Accepted-from k (Adds-Later ((Emits-route cfg.read_only cfg.namespace n v _).at k h))
                (apply_routers-Accepted transformed name u spec k h1 w later q
                  (sym (ap (λ z. z.0) eq) ∙ e))
        ])

  -- The router was transformed, and its route was written.
  abbrev pub Routed : Api → Text → Raw → History → History → Type 0
  Routed k name raw h h' =
      (u : Fields) × (spec : Value) × (transform_router_to_ingress_route codec name raw
          (router_cfg codec cfg)
        ≡ ok u)
      × (get (codes "spec") u ≡ some spec)
      × Accepted k ingress_routes name spec h h'

  pub reconcile_routers-Accepted :
      (routers : Map Raw) (name : Text) (raw : Raw) (k : Api) (h : History)
      → cfg.read_only ≡ false
      → Among (name, raw) routers
      → (reconcile_routers codec cfg routers k h).0 ≡ ok tt
      → Routed k name raw h (reconcile_routers codec cfg routers k h).1
  unfolding reconcile_routers lift
  reconcile_routers-Accepted routers name raw k h w m e =
      let gc = gc_stale_objects cfg ingress_routes (codes "IngressRoute") (keys routers) in
      let (transformed, t, eq) = bind-ok (lift (transform_routers codec cfg routers)) _ k h e in
      let (u, made, among) = transform_routers-lists routers transformed name raw t m in
      let (spec, has) = get-route codec name raw (router_cfg codec cfg) u made in
      let (_, done, eq') =
        then-ok (apply_routers codec cfg transformed) gc k h (sym (ap (λ z. z.0) eq) ∙ e) in
      (
        u,
        spec,
        made,
        has,
        subst (λ (out : Result (Unit {0}) × History). Accepted k ingress_routes name spec h out.1)
            (sym (eq ∙ eq'))
            (Accepted-then k (apply_routers-Accepted transformed name u spec k h w among has done) (
              Adds-Later (
                (Emits-gc cfg ingress_routes (codes "IngressRoute") (keys routers)).at k
                  (apply_routers codec cfg transformed k h).1))),
      )
