-- ===== src/Controller/Gc/Complete.antt =====
-- internal/controller/apply.go: a collection that returns no error has removed every stale object.
use pangolin_kube_controller.Prelude.{
  Among, ◌⊎◌, ◌≡◌, refl, sym, ap, ◌∙◌, inl, inr, true, false, not, ◌&&◌, List, [], ◌∷◌, is_positive,
  Bool-cases,
}
use pangolin_kube_controller.Text.{Text}
use pangolin_kube_controller.Result.{
  is_not_found, Result, ok, ApiError, not_found, conflict, timeout, server_timeout,
  too_many_requests, service_unavailable, other, api,
}
use pangolin_kube_controller.Kube.{
  Resource, Object, list_objects, delete_object, History, Api, Answer, answer, refused,
}
use pangolin_kube_controller.Kube.Prog.{◌>>=◌, ◌>>◌, pure, fail, on_result, call, to_result}
use pangolin_kube_controller.Kube.Prog.Runs.{then-ok}
use pangolin_kube_controller.Controller.Gc.Safety.{removal, Emits-gc_items}
use mathlib.Core.Path.{subst}
use pangolin_kube_controller.Kube.History.{Later, Later-trans}
use pangolin_kube_controller.Config.{Config}
use pangolin_kube_controller.Controller.Gc.{
  is_desired, is_managed, is_stale, collect, gc_items, gc_stale_objects, delete_immediate,
  schedule_grace_deletion, unless_not_found, selector,
}

module _ (cfg : Config) where
  -- Between two histories the call that removes the object was made, and the server has carried it
  -- out or has no such object; with a grace period it is the call that asks for a later deletion.
  abbrev pub Removed : Resource → Text → Text → Api → History → History → Type 0
  Removed r kind name k h h' =
      (before : History) × Later h before
      × Later (removal cfg r kind name ∷ before) h'
      × ((is_positive cfg.gc_grace_period ≡ true)
          ⊎ (k.done before (removal cfg r kind name) ≡ answer tt)
          ⊎ (k.done before (removal cfg r kind name) ≡ refused not_found))

  pub Removed-from :
      (r : Resource) (kind name : Text) (k : Api) {h₀ h h' : History}
      → Later h₀ h
      → Removed r kind name k h h'
      → Removed r kind name k h₀ h'
  Removed-from r kind name k s (before, l, l', a) = (before, Later-trans s l, l', a)

  pub Removed-then :
      (r : Resource) (kind name : Text) (k : Api) {h h' h'' : History}
      → Removed r kind name k h h'
      → Later h' h''
      → Removed r kind name k h h''
  Removed-then r kind name k (before, l, l', a) s = (before, l, Later-trans l' s, a)

  is_not_found_lem : (e : ApiError) → is_not_found (api e) ≡ true → e ≡ not_found
  is_not_found_lem not_found h = refl
  is_not_found_lem conflict h = cc
  is_not_found_lem timeout h = cc
  is_not_found_lem server_timeout h = cc
  is_not_found_lem too_many_requests h = cc
  is_not_found_lem service_unavailable h = cc
  is_not_found_lem other h = cc

  -- An immediate deletion that returns no error
  deletion-ok :
      (a : Answer (Unit {0})) (k : Api) (h : History)
      → (unless_not_found (to_result a) k h).0 ≡ ok tt
      → ((unless_not_found (to_result a) k h).1 ≡ h) × ((a ≡ answer tt) ⊎ (a ≡ refused not_found))
  unfolding pure fail
  deletion-ok (answer u) k h e = (refl, inl refl)
  deletion-ok (refused x) k h e = elim (Bool-cases (is_not_found (api x))) [
    | inl t ↦ (rw t refl, inr (ap (λ y. refused y) (is_not_found_lem x t)))
    | inr f ↦ cc (rw f at e)
  ]

  collect-removes :
      (r : Resource) (kind name : Text) (k : Api) (h : History)
      → (collect cfg r kind name k h).0 ≡ ok tt
      → Removed r kind name k h (collect cfg r kind name k h).1
  unfolding collect schedule_grace_deletion delete_immediate on_result call pure
  collect-removes r kind name k h e = elim (Bool-cases (is_positive cfg.gc_grace_period)) [
    | inl t ↦ rw t (h, ([], refl), ([], refl), inl refl)
    | inr f ↦
        let (same, done) = deletion-ok (k.done h (delete_object r name)) k _ (rw f at e) in
        rw f (h, ([], refl), ([], same), inr done)
  ]

  -- A run over the items that returns no error has removed each stale one.
  gc_items-removes :
      (r : Resource) (kind : Text) (desired : List Text) (k : Api) (h : History)
      (items : List Object)
      → (gc_items cfg r kind desired items k h).0 ≡ ok tt
      → (o : Object) → Among o items
      → is_stale cfg desired o && not cfg.read_only ≡ true
      → Removed r kind o.name k h (gc_items cfg r kind desired items k h).1
  unfolding gc_items
  gc_items-removes r kind desired k h [] e o m s = elim m [ ]
  gc_items-removes r kind desired k h (x ∷ items) e o m s =
      elim (Bool-cases (is_stale cfg desired x && not cfg.read_only)) [
        | inr f ↦ elim m [
          | inl q ↦ let stale : is_stale cfg desired x && not cfg.read_only ≡ true = rw q s in cc
          | inr later ↦
              let eq : gc_items cfg r kind desired (x ∷ items) k h
                  ≡ gc_items cfg r kind desired items k h =
                rw f refl in
              rw f
                (gc_items-removes r kind desired k h items (sym (ap (λ z. z.0) eq) ∙ e) o later s)
        ]
        | inl t ↦
            let eq : gc_items cfg r kind desired (x ∷ items) k h
                ≡ (collect cfg r kind x.name >> gc_items cfg r kind desired items) k h =
              rw t refl in
            let (u, done, eq') =
              then-ok (collect cfg r kind x.name) (gc_items cfg r kind desired items) k h
                (sym (ap (λ z. z.0) eq) ∙ e) in
            let first = collect-removes r kind x.name k h done in
            let h₁ : History = (collect cfg r kind x.name k h).1 in
            let (added, more, _) =
              (Emits-gc_items cfg r kind desired items items (λ o m. m)).at k h₁ in
            subst (λ (out : Result (Unit {0}) × History). Removed r kind o.name k h out.1)
              (sym (eq ∙ eq'))
              (elim m [
                | inl q ↦
                    subst
                      (λ (y : Object).
                        Removed r kind y.name k h (gc_items cfg r kind desired items k h₁).1)
                      q (Removed-then r kind x.name k first (added, more))
                | inr later ↦
                    let (before, l, l', _) = first in
                    Removed-from r kind o.name k
                      (Later-trans l (Later-trans (removal cfg r kind x.name ∷ [], refl) l'))
                      (gc_items-removes r kind desired k h₁ items
                        (sym (ap (λ z. z.0) (eq ∙ eq')) ∙ e) o later s)
              ])
      ]

  -- If the server lists the objects, the controller is not read only and the collection
  -- returns no error, then every listed object that has the annotation and whose name is not
  -- desired was removed: after the list call the server has carried out its deletion, or had no
  -- such object; with a grace period a later deletion was asked for.
  pub gc_removes_all :
      (r : Resource) (kind : Text) (desired : List Text) (k : Api) (h : History)
      (items : List Object)
      → k.objects h r (selector cfg) ≡ answer items
      → cfg.read_only ≡ false
      → (gc_stale_objects cfg r kind desired k h).0 ≡ ok tt
      → (o : Object) → Among o items
      → is_desired o.name desired ≡ false
      → is_managed cfg o.annotations ≡ true
      → Removed r kind o.name k
          (list_objects r (selector cfg) ∷ h)
          (gc_stale_objects cfg r kind desired k h).1
  unfolding gc_stale_objects ◌>>=◌ call is_stale
  gc_removes_all r kind desired k h items listed w e o m d a =
      let step : gc_stale_objects cfg r kind desired k h
          ≡ gc_items cfg r kind desired items k (list_objects r (selector cfg) ∷ h) =
        rw listed refl in
      rw listed (
        gc_items-removes r kind desired k (list_objects r (selector cfg) ∷ h) items
          (sym (ap (λ z. z.0) step) ∙ e) o m (rw (d, a, w) refl))
