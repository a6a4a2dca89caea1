-- ===== src/Controller/Reconcile/Cleans.antt =====
-- internal/controller/apply.go: a phase without an error has removed the stale objects.
use mathlib.Core.Path.{subst}
use pangolin_kube_controller.Prelude.{◌≡◌, refl, sym, ap, ◌∙◌, false, none, some, [], Among}
use pangolin_kube_controller.Text.{Text, codes}
use pangolin_kube_controller.Result.{Result, ok}
use pangolin_kube_controller.Maps.{Map, GoMap, entries, keys}
use pangolin_kube_controller.Json.{Codec}
use pangolin_kube_controller.Sanitize.Name.{NameLib}
use pangolin_kube_controller.Sanitize.Config.{Raw, TraefikConfig}
use pangolin_kube_controller.Kube.{Resource, ingress_routes, servers_transports, History, Api}
use pangolin_kube_controller.Kube.Prog.{Prog, lift, ◌>>◌}
use pangolin_kube_controller.Kube.Prog.Emits.{Emits, Emits-mono}
use pangolin_kube_controller.Kube.Prog.Runs.{bind-ok, then-ok}
use pangolin_kube_controller.Protocol.Servers.{NetLib}
use pangolin_kube_controller.Config.{Config}
use pangolin_kube_controller.Controller.Gc.{gc_stale_objects}
use pangolin_kube_controller.Controller.Reconcile.{
  apply_desired_objects, reconcile_middlewares, reconcile_routers, reconcile_servers_transports,
  reconcile_services,
}
use pangolin_kube_controller.Controller.Reconcile.Failure.{desired_keeps}
use pangolin_kube_controller.Controller.Reconcile.Writes.{Adds-Later}
use pangolin_kube_controller.Prelude.{
  List, [], ◌∷◌, some, none, All, ◌⊎◌, inl, inr, Bool-cases, arith,
}
use pangolin_kube_controller.Kube.{Object, list_objects, Answer, answer, refused}
use pangolin_kube_controller.Kube.Prog.{◌>>=◌, call}
use pangolin_kube_controller.Kube.History.{Later, Later-trans}
use pangolin_kube_controller.Controller.Gc.{selector, is_stale}
use pangolin_kube_controller.Controller.Gc.Complete.{gc_removes_all, Removed, Removed-then}
use pangolin_kube_controller.Controller.Routers.{transform_routers}
use pangolin_kube_controller.Controller.Reconcile.{apply_routers}
use pangolin_kube_controller.Controller.Reconcile.Writes.Routers.{Emits-apply_routers}
use pangolin_kube_controller.Controller.Reconcile.Writes.Round.{
  Phase, middleware, router, transport, service, resource, desired, program,
}
use pangolin_kube_controller.Controller.Reconcile.Sequence.{IsKept}

-- The kind of the requests to delete an object of the phase.
abbrev pub kind : Phase → Text
kind middleware = codes "Middleware"
kind router = codes "IngressRoute"
kind transport = codes "ServersTransport"
kind service = codes "TraefikService"

All-Among : {A : Type 0} {P : A → Type 0} (l : List A) → ((x : A) → Among x l → P x) → All P l
All-Among [] f = tt
All-Among (x ∷ l) f = (f x (inl refl), All-Among l (λ y m. f y (inr m)))

module _ (cfg : Config) (k : Api) where
  -- Each object of the list is not stale, or it was removed between the histories.
  abbrev pub AllRemoved : Resource → Text → List Text → List Object → History → History → Type 0
  AllRemoved r kind names items h h' =
      All (λ o. (is_stale cfg names o ≡ false) ⊎ Removed cfg r kind o.name k h h') items

  -- The server has listed the managed objects of the resource, and each that is stale was removed
  -- behind the list call.
  abbrev pub Cleaned : Resource → Text → List Text → History → History → Type 0
  Cleaned r kind names h h' =
      (h₁ : History) × (items : List Object) × Later h h₁
      × (k.objects h₁ r (selector cfg) ≡ answer items)
      × AllRemoved r kind names items (list_objects r (selector cfg) ∷ h₁) h'

  AllRemoved-Later :
      (r : Resource) (kind : Text) (names : List Text) (items : List Object) (h : History)
      {h' h'' : History}
      → Later h' h''
      → AllRemoved r kind names items h h'
      → AllRemoved r kind names items h h''
  AllRemoved-Later r kind names [] h l a = tt
  AllRemoved-Later r kind names (o ∷ items) h l (inl fresh, a) =
      (inl fresh, AllRemoved-Later r kind names items _ l a)
  AllRemoved-Later r kind names (o ∷ items) h l (inr gone, a) =
      (inr (Removed-then cfg r kind o.name k gone l), AllRemoved-Later r kind names items _ l a)

  pub Cleaned-IsKept :
      (r : Resource) (kind : Text) (names : List Text) → IsKept (Cleaned r kind names)
  Cleaned-IsKept r kind names = record {
    sooner = λ h₀ h h' l (h₁, items, s, q, a). (h₁, items, Later-trans l s, q, a);
    later = λ h h' h'' (h₁, items, s, q, a) l.
        (h₁, items, s, q, AllRemoved-Later r kind names items _ l a);
  }

  -- A collection that returns no error was given a list.
  gc-lists :
      (r : Resource) (kind : Text) (names : List Text) (h : History)
      → (gc_stale_objects cfg r kind names k h).0 ≡ ok tt
      → (items : List Object) × (k.objects h r (selector cfg) ≡ answer items)
  unfolding gc_stale_objects ◌>>=◌ call
  gc-lists r kind names h e = by_answer (k.objects h r (selector cfg)) refl
    where
      by_answer :
          (a : Answer (List Object))
          → k.objects h r (selector cfg) ≡ a
          → (items : List Object) × (k.objects h r (selector cfg) ≡ answer items)
      by_answer (answer items) q = (items, q)
      by_answer (refused x) q = cc (rw q at e)

  gc-Cleaned :
      (r : Resource) (kind : Text) (names : List Text) (h : History)
      → cfg.read_only ≡ false
      → (gc_stale_objects cfg r kind names k h).0 ≡ ok tt
      → Cleaned r kind names h (gc_stale_objects cfg r kind names k h).1
  unfolding is_stale
  gc-Cleaned r kind names h w e =
      let (items, listed) = gc-lists r kind names h e in
      (
        h,
        items,
        ([], refl),
        listed,
        All-Among items (λ o m. elim (Bool-cases (is_stale cfg names o)) [
          | inr fresh ↦ inl fresh
          | inl stale ↦ inr (
              gc_removes_all cfg r kind names k h items listed w e o m (ground arith)
                (ground arith))
        ]),
      )

  -- A collection behind other calls
  then-Cleaned :
      (m : Prog Unit) (r : Resource) (kind : Text) (names : List Text) (h : History)
      → Emits (λ _. Unit {0}) m
      → cfg.read_only ≡ false
      → ((m >> gc_stale_objects cfg r kind names) k h).0 ≡ ok tt
      → Cleaned r kind names h ((m >> gc_stale_objects cfg r kind names) k h).1
  then-Cleaned m r kind names h emits w e =
      let (_, _, eq) = then-ok m (gc_stale_objects cfg r kind names) k h e in
      subst (λ (out : Result (Unit {0}) × History). Cleaned r kind names h out.1) (sym eq)
        ((Cleaned-IsKept r kind names).sooner h (m k h).1 _ (Adds-Later (emits.at k h))
          (gc-Cleaned r kind names (m k h).1 w (sym (ap (λ z. z.0) eq) ∙ e)))

module _ (lib : NameLib) (net : NetLib) (codec : Codec) (cfg : Config) (sanitized : TraefikConfig)
    (k : Api) where
  routers-Cleaned :
      (routers : Map Raw) (h : History)
      → cfg.read_only ≡ false
      → (reconcile_routers codec cfg routers k h).0 ≡ ok tt
      → Cleaned cfg k ingress_routes
          (codes "IngressRoute")
          (keys routers)
          h
          (reconcile_routers codec cfg routers k h).1
  unfolding reconcile_routers lift
  routers-Cleaned routers h w e =
      let (transformed, _, eq) = bind-ok (lift (transform_routers codec cfg routers)) _ k h e in
      subst
        (λ (out : Result (Unit {0}) × History).
          Cleaned cfg k ingress_routes (codes "IngressRoute") (keys routers) h out.1)
        (sym eq)
        (then-Cleaned cfg k (apply_routers codec cfg transformed) ingress_routes
          (codes "IngressRoute") (keys routers) h (Emits-apply_routers codec cfg transformed) w
          (sym (ap (λ z. z.0) eq) ∙ e))

  desired-Cleaned :
      (r : Resource) (kind : Text) (objects : Map Raw) (h : History)
      → cfg.read_only ≡ false
      → ((apply_desired_objects codec cfg r objects >> gc_stale_objects cfg r kind (keys objects)) k
          h).0
        ≡ ok tt
      → Cleaned cfg k r kind
          (keys objects)
          h
          ((apply_desired_objects codec cfg r objects >> gc_stale_objects cfg r kind (keys objects))
            k h).1
  desired-Cleaned r kind objects h w e =
      then-Cleaned cfg k (apply_desired_objects codec cfg r objects) r kind (keys objects) h
        (Emits-mono _ (λ _ _. tt) (desired_keeps codec cfg r objects)) w e

  transports-Cleaned :
      (transports : GoMap Raw) (h : History)
      → (objects : Map Raw) × (transports ≡ some objects)
      → cfg.read_only ≡ false
      → (reconcile_servers_transports codec cfg transports k h).0 ≡ ok tt
      → Cleaned cfg k servers_transports
          (codes "ServersTransport")
          (keys (entries transports))
          h
          (reconcile_servers_transports codec cfg transports k h).1
  unfolding reconcile_servers_transports
  transports-Cleaned none h (objects, q) w e = cc
  transports-Cleaned (some objects) h q w e = desired-Cleaned _ _ objects h w e

  pub phase-Cleaned :
      (p : Phase) (h : History)
      → (transports : Map Raw) × (sanitized.http.servers_transports ≡ some transports)
      → cfg.read_only ≡ false
      → (program lib net codec cfg sanitized p k h).0 ≡ ok tt
      → Cleaned cfg k
          (resource p)
          (kind p)
          (keys (desired lib net codec cfg sanitized p))
          h
          (program lib net codec cfg sanitized p k h).1
  unfolding reconcile_middlewares reconcile_services
  phase-Cleaned middleware h t w e = desired-Cleaned _ _ _ h w e
  phase-Cleaned router h t w e = routers-Cleaned _ h w e
  phase-Cleaned transport h t w e = transports-Cleaned sanitized.http.servers_transports h t w e
  phase-Cleaned service h t w e = desired-Cleaned _ _ _ h w e
