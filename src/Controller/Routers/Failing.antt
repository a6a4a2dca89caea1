-- ===== src/Controller/Routers/Failing.antt =====
-- internal/controller/apply.go: a router that cannot be transformed.
use pangolin_kube_controller.Prelude.{◌≡◌, refl, ap, ◌∙◌, [], ◌∷◌, Among, inl, inr}
use pangolin_kube_controller.Text.{Text}
use pangolin_kube_controller.Result.{Error, Result, ok, err, ◌>>=◌}
use pangolin_kube_controller.Maps.{Map}
use pangolin_kube_controller.Json.{Codec}
use pangolin_kube_controller.Sanitize.Config.{Raw}
use pangolin_kube_controller.Routing.{transform_router_to_ingress_route}
use pangolin_kube_controller.Config.{Config}
use pangolin_kube_controller.Controller.Routers.{router_cfg, transform_routers}

second_fails :
    {A B C : Type 0} (m : Result A) (n : Result B) (f : A → B → Result C) {e : Error}
    → n ≡ err e
    → (e' : Error) × ((m >>= λ a. n >>= f a) ≡ err e')
second_fails (ok a) n f {e} q = (e, rw q refl)
second_fails (err x) n f q = (x, refl)

module _ (codec : Codec) (cfg : Config) where
  pub transform_routers-fails :
      (routers : Map Raw) (name : Text) (raw : Raw) (e : Error)
      → Among (name, raw) routers
      → transform_router_to_ingress_route codec name raw (router_cfg codec cfg) ≡ err e
      → (e' : Error) × (transform_routers codec cfg routers ≡ err e')
  unfolding transform_routers
  transform_routers-fails [] name raw e m q = elim m [ ]
  transform_routers-fails ((n, r) ∷ routers) name raw e (inl p) q =
      let first : transform_router_to_ingress_route codec n r (router_cfg codec cfg) ≡ err e =
        ap (λ z. transform_router_to_ingress_route codec z.0 z.1 (router_cfg codec cfg)) p ∙ q in
      (e, rw first refl)
  transform_routers-fails ((n, r) ∷ routers) name raw e (inr m) q =
      let (e', rest) = transform_routers-fails routers name raw e m q in second_fails _ _ _ rest
