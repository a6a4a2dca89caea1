-- ===== src/Controller/Gc/Pool/Account.antt =====
-- internal/controller/apply.go: which deletions the workers of the grace period send.
use pangolin_kube_controller.Prelude.{
  ◌≡◌, ◌≢◌, refl, sym, ◌∙◌, ap, ℕ, zero, suc, Bool, true, false, Option, none, some, List, [], ◌∷◌,
  arith, if◌then◌else◌,
}
use mathlib.Core.Path.{subst}
use pangolin_kube_controller.Text.{Text, codes, text_eq}
use pangolin_kube_controller.Text.Equality.{text_eq_iff}
use pangolin_kube_controller.Kube.{
  Resource, middlewares, ingress_routes, traefik_services, servers_transports, ingress_route_tcps,
  ingress_route_udps, servers_transport_tcps, delete_object, History, Answer,
}
use pangolin_kube_controller.Apply.Objects.{kind_for}
use pangolin_kube_controller.Controller.Gc.Pool.{
  Request, Pool, Event, offer, refuse, take_next, wake, done, give_up, cancel, take_at, Fate, sent,
  unknown_kind, abandoned, dropped, gvr_for_kind, handled, enqueue, refuse_request, start, woken,
  ended, left, pool_step, pool_run,
}

-- The history has the deletions of the requests that are over with an answer, the last one first,
-- and no other call.
abbrev pub Accounted : List (Request × Fate) → History → Type 0
Accounted [] made = made ≡ []
Accounted ((r, sent a) ∷ over) made =
    (resource : Resource) × (earlier : History) × (kind_for resource ≡ r.kind)
    × (made ≡ delete_object resource r.name ∷ earlier)
    × Accounted over earlier
Accounted ((r, unknown_kind) ∷ over) made =
    ((resource : Resource) → kind_for resource ≢ r.kind) × Accounted over made
Accounted ((r, abandoned) ∷ over) made = Accounted over made
Accounted ((r, dropped) ∷ over) made = Accounted over made

-- The calls of a pool are accounted for.
abbrev pub IsAccounted : Pool → Type 0
IsAccounted p = Accounted p.over p.made

abbrev AccountedAt : Option Pool → Type 0
AccountedAt none = ⊥
AccountedAt (some p) = IsAccounted p

carried : {p q : Pool} → some p ≡ some q → IsAccounted p → IsAccounted q
carried h acc = subst AccountedAt h acc

gvr_for_kind-kind_for : (r : Resource) → gvr_for_kind (kind_for r) ≡ some r
unfolding gvr_for_kind kind_for text_eq
gvr_for_kind-kind_for ingress_routes = refl
gvr_for_kind-kind_for middlewares = refl
gvr_for_kind-kind_for traefik_services = refl
gvr_for_kind-kind_for servers_transports = refl
gvr_for_kind-kind_for ingress_route_tcps = refl
gvr_for_kind-kind_for ingress_route_udps = refl
gvr_for_kind-kind_for servers_transport_tcps = refl

kind_for-gvr_for_kind :
    (kind : Text) (r : Resource) → gvr_for_kind kind ≡ some r → kind_for r ≡ kind
unfolding gvr_for_kind kind_for
kind_for-gvr_for_kind kind r h = ground (
  arith,
  text_eq_iff kind (codes "Middleware"),
  text_eq_iff kind (codes "IngressRoute"),
  text_eq_iff kind (codes "TraefikService"),
  text_eq_iff kind (codes "ServersTransport"),
  text_eq_iff kind (codes "IngressRouteTCP"),
  text_eq_iff kind (codes "IngressRouteUDP"),
  text_eq_iff kind (codes "ServersTransportTCP"),
)

handled-Accounted :
    (o : Option Resource) (r : Request) (rest : List Request) (a : Answer (Unit {0})) (p : Pool)
    → gvr_for_kind r.kind ≡ o
    → IsAccounted p
    → IsAccounted (handled o r rest a p)
handled-Accounted none r rest a p e acc = (
  λ resource same.
      let found : some resource ≡ none =
        sym (gvr_for_kind-kind_for resource) ∙ ap gvr_for_kind same ∙ e in
      cc,
  acc,
)
handled-Accounted (some resource) r rest a p e acc =
    (resource, p.made, kind_for-gvr_for_kind r.kind resource e, refl, acc)

module _ (size workers : ℕ) where
  -- A step that the test allows and that leaves the account.
  allowed :
      (b : Bool) (p' q : Pool)
      → (if b then some q else none) ≡ some p'
      → IsAccounted q
      → IsAccounted p'
  allowed true p' q h acc = carried h acc
  allowed false p' q h acc = cc

  start-Accounted :
      (rs : List Request) (idle : ℕ) (p p' : Pool)
      → start size workers rs idle p ≡ some p'
      → IsAccounted p
      → IsAccounted p'
  start-Accounted [] idle p p' h acc = cc
  start-Accounted (r ∷ rs) zero p p' h acc = cc
  start-Accounted (r ∷ rs) (suc idle) p p' h acc = carried h acc

  woken-Accounted :
      (o : Option (Request × List Request)) (p p' : Pool)
      → woken size workers o p ≡ some p'
      → IsAccounted p
      → IsAccounted p'
  woken-Accounted none p p' h acc = cc
  woken-Accounted (some (r, rest)) p p' h acc = allowed _ p' _ h acc

  left-Accounted :
      (o : Option (Request × List Request)) (p p' : Pool)
      → left size workers o p ≡ some p'
      → IsAccounted p
      → IsAccounted p'
  left-Accounted none p p' h acc = cc
  left-Accounted (some (r, rest)) p p' h acc = allowed _ p' _ h acc

  give_up-Accounted :
      (b : Bool) (o : Option (Request × List Request)) (p p' : Pool)
      → (if b then left size workers o p else none) ≡ some p'
      → IsAccounted p
      → IsAccounted p'
  give_up-Accounted true o p p' h acc = left-Accounted o p p' h acc
  give_up-Accounted false o p p' h acc = cc

  ended-Accounted :
      (o : Option (Request × List Request)) (a : Answer (Unit {0})) (p p' : Pool)
      → ended size workers o a p ≡ some p'
      → IsAccounted p
      → IsAccounted p'
  ended-Accounted none a p p' h acc = cc
  ended-Accounted (some (r, rest)) a p p' h acc =
      carried h (handled-Accounted (gvr_for_kind r.kind) r rest a p refl acc)

  step-Accounted :
      (p p' : Pool) (e : Event)
      → pool_step size workers p e ≡ some p'
      → IsAccounted p
      → IsAccounted p'
  unfolding pool_step enqueue refuse_request
  step-Accounted p p' (offer r) h acc = allowed _ p' _ h acc
  step-Accounted p p' (refuse r) h acc = allowed _ p' _ h acc
  step-Accounted p p' take_next h acc = start-Accounted p.queue p.idle p p' h acc
  step-Accounted p p' (wake i) h acc = woken-Accounted (take_at i p.sleeping) p p' h acc
  step-Accounted p p' (done i a) h acc = ended-Accounted (take_at i p.deleting) a p p' h acc
  step-Accounted p p' (give_up i) h acc =
      give_up-Accounted p.cancelled (take_at i p.sleeping) p p' h acc
  step-Accounted p p' cancel h acc = carried h acc

  pub run-Accounted :
      (es : List Event) (p p' : Pool)
      → IsAccounted p
      → pool_run size workers p es ≡ some p'
      → IsAccounted p'
  unfolding pool_run
  run-Accounted [] p p' acc h = carried h acc
  run-Accounted (e ∷ es) p p' acc h =
      after (λ q a. run-Accounted es q p' a) (pool_step size workers p e) refl h
    where
      after :
          ((q : Pool) → IsAccounted q → pool_run size workers q es ≡ some p' → IsAccounted p')
          → (o : Option Pool) → pool_step size workers p e ≡ o
          → (elim o [ none ↦ none | some p₁ ↦ pool_run size workers p₁ es ]) ≡ some p'
          → IsAccounted p'
      after ih none t g = cc
      after ih (some p₁) t g = ih p₁ (step-Accounted p p₁ e t acc) g
