-- ===== src/Controller/Gc/Calls.antt =====
-- internal/controller/apply.go: what holds of every call of a garbage collection.
use pangolin_kube_controller.Prelude.{List}
use pangolin_kube_controller.Text.{Text}
use pangolin_kube_controller.Maps.{GoMap}
use pangolin_kube_controller.Kube.{
  Resource, Object, Call, delete_service, delete_slice, list_objects, list_services, list_slices,
}
use pangolin_kube_controller.Kube.Prog.Emits.{Emits, Emits-mono, Emits-call, Emits-bind}
use pangolin_kube_controller.Config.{Config}
use pangolin_kube_controller.Controller.Gc.{
  gc_stale_objects, gc_stale_core_services, gc_stale_endpoint_slices, selector, service_items,
  slice_items,
}
use pangolin_kube_controller.Controller.Gc.Safety.{
  Removes, RemovesNamed, Emits-gc_items, Emits-gc_named,
}

module _ (cfg : Config) {P : Call → Type 0} where
  pub Emits-gc_stale_objects :
      (r : Resource) (kind : Text) (desired : List Text)
      → P (list_objects r (selector cfg))
      → ((items : List Object) (c : Call) → Removes cfg r kind desired items c → P c)
      → Emits P (gc_stale_objects cfg r kind desired)
  unfolding gc_stale_objects
  Emits-gc_stale_objects r kind desired p f =
      Emits-bind _ _ (Emits-call _ _ p)
        (λ items. Emits-mono _ (f items) (Emits-gc_items cfg r kind desired items items (λ o m. m)))

  pub Emits-gc_stale_core_services :
      (desired : List Text)
      → P (list_services (selector cfg))
      → ((items : List (Text × GoMap Text)) (c : Call)
          → RemovesNamed cfg delete_service desired items c
          → P c)
      → Emits P (gc_stale_core_services cfg desired)
  unfolding gc_stale_core_services
  Emits-gc_stale_core_services desired p f = Emits-bind _ _ (Emits-call _ _ p) (λ items.
      Emits-mono _ (f (service_items cfg items))
        (Emits-gc_named cfg delete_service desired _ (service_items cfg items) (λ o m. m)))

  pub Emits-gc_stale_endpoint_slices :
      (desired : List Text)
      → P (list_slices (selector cfg))
      → ((items : List (Text × GoMap Text)) (c : Call)
          → RemovesNamed cfg delete_slice desired items c
          → P c)
      → Emits P (gc_stale_endpoint_slices cfg desired)
  unfolding gc_stale_endpoint_slices
  Emits-gc_stale_endpoint_slices desired p f = Emits-bind _ _ (Emits-call _ _ p) (λ items.
      Emits-mono _ (f (slice_items cfg items))
        (Emits-gc_named cfg delete_slice desired _ (slice_items cfg items) (λ o m. m)))
