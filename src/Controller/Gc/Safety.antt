-- ===== src/Controller/Gc/Safety.antt =====
-- internal/controller/apply.go: what the garbage collection deletes, and what it leaves.
use pangolin_kube_controller.Prelude.{
  Among, ◌≡◌, refl, inl, inr, true, false, not, ◌&&◌, ◌||◌, List, [], ◌∷◌, arith, if◌then◌else◌,
  is_positive,
}
use pangolin_kube_controller.Text.{Text}
use pangolin_kube_controller.Result.{is_not_found, Result, ok, err}
use pangolin_kube_controller.Maps.{GoMap}
use pangolin_kube_controller.Kube.{
  Resource, Object, Call, delete_object, delete_service, delete_slice, schedule_delete,
  list_objects, list_services, list_slices, History, Api, answer,
}
use pangolin_kube_controller.Kube.Prog.{◌>>=◌, call}
use pangolin_kube_controller.Kube.Prog.Emits.{
  Adds, Emits, Emits-pure, Emits-fail, Emits-call, Emits-if, Emits-then, Emits-on_result,
}
use pangolin_kube_controller.Protocol.TcpUdp.{Service, EndpointSlice}
use pangolin_kube_controller.Config.{Config}
use pangolin_kube_controller.Controller.Gc.{
  is_desired, is_managed, is_stale, collect, gc_items, gc_stale_objects, gc_named,
  gc_stale_core_services, gc_stale_endpoint_slices, delete_immediate, schedule_grace_deletion,
  unless_not_found, ignore_result, selector, service_items, slice_items,
}

Emits-unless_not_found : {P : Call → Type 0} (r : Result (Unit {0})) → Emits P (unless_not_found r)
Emits-unless_not_found (ok u) = Emits-pure tt
Emits-unless_not_found (err e) =
    Emits-if (is_not_found e) _ _ (λ _. Emits-pure tt) (λ _. Emits-fail e)

module _ (cfg : Config) where
  -- The call that removes a name from the cluster: at once, or with the grace period.
  abbrev pub removal : Resource → Text → Text → Call
  removal r kind name =
      if is_positive cfg.gc_grace_period then schedule_delete kind name else delete_object r name

  -- The call removes a listed object that is not desired and that the controller manages.
  abbrev pub Removes : Resource → Text → List Text → List Object → Call → Type 0
  Removes r kind desired items c =
      (o : Object) × Among o items
      × (is_desired o.name desired ≡ false)
      × (is_managed cfg o.annotations ≡ true)
      × (cfg.read_only ≡ false)
      × (c ≡ removal r kind o.name)

  Emits-collect :
      {P : Call → Type 0} (r : Resource) (kind name : Text)
      → ((c : Call) → c ≡ removal r kind name → P c)
      → Emits P (collect cfg r kind name)
  unfolding collect schedule_grace_deletion delete_immediate
  Emits-collect {P} r kind name p =
      Emits-if (is_positive cfg.gc_grace_period) _ _
        (λ t.
          Emits-on_result _ ignore_result (Emits-call _ _ (p _ (rw t refl))) (λ x. Emits-pure tt))
        (λ f.
          Emits-on_result _ unless_not_found (Emits-call _ _ (p _ (rw f refl)))
            Emits-unless_not_found)

  stale_parts :
      (desired : List Text) (o : Object)
      → is_stale cfg desired o && not cfg.read_only ≡ true
      → (is_desired o.name desired ≡ false)
        × (is_managed cfg o.annotations ≡ true)
        × (cfg.read_only ≡ false)
  unfolding is_stale
  stale_parts desired o h = ground arith

  pub Emits-gc_items :
      (r : Resource) (kind : Text) (desired : List Text) (all items : List Object)
      → ((o : Object) → Among o items → Among o all)
      → Emits (Removes r kind desired all) (gc_items cfg r kind desired items)
  unfolding gc_items
  Emits-gc_items r kind desired all [] sub = Emits-pure tt
  Emits-gc_items r kind desired all (o ∷ items) sub =
      let rest = Emits-gc_items r kind desired all items (λ x m. sub x (inr m)) in
      Emits-if (is_stale cfg desired o && not cfg.read_only) _ _
        (λ t.
          let (a, b, c) = stale_parts desired o t in
          Emits-then _ _ (Emits-collect r kind o.name (λ d e. (o, sub o (inl refl), a, b, c, e)))
            rest)
        (λ f. rest)

  -- Once the server has listed the objects, every call that the collection makes
  -- removes a listed object that has the annotation of the controller and whose name is not
  -- desired; there is none when the controller is read only.
  pub gc_stale_objects-Removes :
      (r : Resource) (kind : Text) (desired : List Text) (k : Api) (h : History)
      (items : List Object)
      → k.objects h r (selector cfg) ≡ answer items
      → Adds
          (Removes r kind desired items)
          (list_objects r (selector cfg) ∷ h)
          (gc_stale_objects cfg r kind desired k h).1
  unfolding gc_stale_objects ◌>>=◌ call
  gc_stale_objects-Removes r kind desired k h items e =
      rw e ((Emits-gc_items r kind desired items items (λ o m. m)).at k _)

  -- The calls that the collection of Services and EndpointSlices makes: the removal at once of a listed
  -- name with the annotation that is not desired.
  abbrev pub RemovesNamed : (Text → Call) → List Text → List (Text × GoMap Text) → Call → Type 0
  RemovesNamed remove desired items c =
      (o : Text × GoMap Text) × Among o items
      × (is_desired o.0 desired ≡ false)
      × (is_managed cfg o.1 ≡ true)
      × (cfg.read_only ≡ false)
      × (c ≡ remove o.0)

  named_parts :
      (desired : List Text) (name : Text) (annotations : GoMap Text)
      → is_desired name desired || not (is_managed cfg annotations) || cfg.read_only ≡ false
      → (is_desired name desired ≡ false)
        × (is_managed cfg annotations ≡ true)
        × (cfg.read_only ≡ false)
  named_parts desired name annotations h = ground arith

  pub Emits-gc_named :
      (remove : Text → Call) (desired : List Text) (all items : List (Text × GoMap Text))
      → ((o : Text × GoMap Text) → Among o items → Among o all)
      → Emits (RemovesNamed remove desired all) (gc_named cfg remove desired items)
  unfolding gc_named
  Emits-gc_named remove desired all [] sub = Emits-pure tt
  Emits-gc_named remove desired all ((name, annotations) ∷ items) sub =
      let rest = Emits-gc_named remove desired all items (λ x m. sub x (inr m)) in
      Emits-if (is_desired name desired || not (is_managed cfg annotations) || cfg.read_only) _ _
        (λ t. rest)
        (λ f.
          let (a, b, c) = named_parts desired name annotations f in
          Emits-then _ _
            (Emits-on_result _ unless_not_found
              (Emits-call _ _ ((name, annotations), sub _ (inl refl), a, b, c, refl))
              Emits-unless_not_found)
            rest)

  -- Once the server has listed the Services, every call that their collection makes is the deletion
  -- of a listed Service that has the annotation of the controller and is not desired; there is
  -- none when the controller is read only.
  pub gc_stale_core_services-RemovesNamed :
      (desired : List Text) (k : Api) (h : History) (items : List Service)
      → k.services h (selector cfg) ≡ answer items
      → Adds
          (RemovesNamed delete_service desired (service_items cfg items))
          (list_services (selector cfg) ∷ h)
          (gc_stale_core_services cfg desired k h).1
  unfolding gc_stale_core_services ◌>>=◌ call
  gc_stale_core_services-RemovesNamed desired k h items e =
      rw e ((Emits-gc_named delete_service desired _ (service_items cfg items) (λ o m. m)).at k _)

  -- Once the server has listed the EndpointSlices, every call that their collection makes is the
  -- deletion of a listed EndpointSlice that has the annotation of the controller and is not desired;
  -- there is none when the controller is read only.
  pub gc_stale_endpoint_slices-RemovesNamed :
      (desired : List Text) (k : Api) (h : History) (items : List EndpointSlice)
      → k.slices h (selector cfg) ≡ answer items
      → Adds
          (RemovesNamed delete_slice desired (slice_items cfg items))
          (list_slices (selector cfg) ∷ h)
          (gc_stale_endpoint_slices cfg desired k h).1
  unfolding gc_stale_endpoint_slices ◌>>=◌ call
  gc_stale_endpoint_slices-RemovesNamed desired k h items e =
      rw e ((Emits-gc_named delete_slice desired _ (slice_items cfg items) (λ o m. m)).at k _)
