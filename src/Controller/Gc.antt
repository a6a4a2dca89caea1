-- ===== src/Controller/Gc.antt =====
-- internal/controller/apply.go: the deletion of objects that are no longer desired.
pub mod Safety
pub mod Complete
pub mod Calls
pub mod Pool
use pangolin_kube_controller.Prelude.{
  Bool, true, false, not, ◌&&◌, ◌||◌, Option, none, some, List, [], ◌∷◌, ◌++◌, if◌then◌else◌,
  or_else, is_positive,
}
use pangolin_kube_controller.Text.{Text, codes, text_eq}
use pangolin_kube_controller.Result.{is_not_found, Result, ok, err}
use pangolin_kube_controller.Maps.{GoMap, Map, entries, lookup}
use pangolin_kube_controller.Kube.{
  Resource, Object, Call, delete_object, delete_service, delete_slice, schedule_delete,
}
use pangolin_kube_controller.Kube.Prog.{
  Prog, pure, fail, ◌>>=◌, ◌>>◌, on_result, perform, fetch_objects, fetch_services, fetch_slices,
}
use pangolin_kube_controller.Protocol.TcpUdp.{Service, EndpointSlice}
use pangolin_kube_controller.Config.{Config}

-- `desired[name]` is there; the desired objects are given by their names.
unfoldable pub is_desired : Text → List Text → Bool
is_desired name [] = false
is_desired name (d ∷ desired) = text_eq d name || is_desired name desired

-- A missing label or annotation reads as "".
abbrev pub value_at : Text → GoMap Text → Text
value_at key m = or_else (lookup key (entries m)) []

-- An error that says that the object is not there is none.
abbrev pub unless_not_found : Result (Unit {0}) → Prog Unit
unless_not_found (ok u) = pure tt
unless_not_found (err e) = if is_not_found e then pure tt else fail e

-- The scheduling reports no error, whether the request was queued or dropped.
abbrev pub ignore_result : Result (Unit {0}) → Prog Unit
ignore_result r = pure tt

-- deleteImmediate
unfoldable pub delete_immediate : Resource → Text → Prog Unit
delete_immediate r name = on_result (perform (delete_object r name)) unless_not_found

-- scheduleGraceDeletion and enqueueGraceDeletion
unfoldable pub schedule_grace_deletion : Text → Text → Prog Unit
schedule_grace_deletion kind name = on_result (perform (schedule_delete kind name)) ignore_result

module _ (cfg : Config) where
  -- The label selector of every list call.
  abbrev pub selector : Text
  selector = cfg.managed_label_key ++ (codes "=" ++ cfg.managed_label_value)

  -- The annotation says that the controller manages the object.
  abbrev pub is_managed : GoMap Text → Bool
  is_managed annotations =
      text_eq (value_at cfg.managed_anno_key annotations) cfg.managed_anno_value

  -- staleManagedName
  unfoldable pub is_stale : List Text → Object → Bool
  unfolding is_desired
  is_stale desired o = not (is_desired o.name desired) && is_managed o.annotations

  -- One stale object
  unfoldable pub collect : Resource → Text → Text → Prog Unit
  unfolding delete_immediate schedule_grace_deletion
  collect r kind name =
      if is_positive cfg.gc_grace_period
      then schedule_grace_deletion kind name
      else delete_immediate r name

  -- The loop of `gcStaleObjects`
  unfoldable pub gc_items : Resource → Text → List Text → List Object → Prog Unit
  unfolding is_stale collect
  gc_items r kind desired [] = pure tt
  gc_items r kind desired (o ∷ items) =
      let rest = gc_items r kind desired items in
      if is_stale desired o && not cfg.read_only then collect r kind o.name >> rest else rest

  -- gcStaleObjects
  unfoldable pub gc_stale_objects : Resource → Text → List Text → Prog Unit
  unfolding gc_items
  gc_stale_objects r kind desired = do
    existing ← fetch_objects r selector
    gc_items r kind desired existing

  -- The loops of `gcStaleCoreServices` and `gcStaleEndpointSlices`, of names with annotations.
  unfoldable pub gc_named : (Text → Call) → List Text → List (Text × GoMap Text) → Prog Unit
  unfolding is_desired
  gc_named remove desired [] = pure tt
  gc_named remove desired ((name, annotations) ∷ items) =
      let rest = gc_named remove desired items in
      if is_desired name desired || not (is_managed annotations) || cfg.read_only
      then rest
      else on_result (perform (remove name)) unless_not_found >> rest

  abbrev pub service_items : List Service → List (Text × GoMap Text)
  service_items [] = []
  service_items (s ∷ ss) = (s.name, s.annotations) ∷ service_items ss

  abbrev pub slice_items : List EndpointSlice → List (Text × GoMap Text)
  slice_items [] = []
  slice_items (s ∷ ss) = (s.name, s.annotations) ∷ slice_items ss

  unfoldable pub gc_stale_core_services : List Text → Prog Unit
  unfolding gc_named
  gc_stale_core_services desired = do
    existing ← fetch_services selector
    gc_named delete_service desired (service_items existing)

  unfoldable pub gc_stale_endpoint_slices : List Text → Prog Unit
  unfolding gc_named
  gc_stale_endpoint_slices desired = do
    existing ← fetch_slices selector
    gc_named delete_slice desired (slice_items existing)
