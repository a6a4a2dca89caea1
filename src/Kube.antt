-- ===== src/Kube.antt =====
-- The Kubernetes API as the controller calls it: internal/kube/resources/resource_adapter.go and the
-- typed clients of client-go. The server is a parameter: what it answers to a call depends in any
-- way on the calls before.
pub mod History
pub mod Prog
use pangolin_kube_controller.Prelude.{ℕ, Bool, true, false, Option, none, some, List}
use pangolin_kube_controller.Text.{Text}
use pangolin_kube_controller.Result.{ApiError}
use pangolin_kube_controller.Maps.{GoMap}
use pangolin_kube_controller.Json.{Value, Fields}
use pangolin_kube_controller.Protocol.TcpUdp.{Service, EndpointSlice}

-- The resources of the group traefik.io that the controller manages.
pub data Resource : Type 0 where
  middlewares ingress_routes traefik_services servers_transports : Resource
  ingress_route_tcps ingress_route_udps servers_transport_tcps : Resource

-- What is read of an *unstructured.Unstructured; a missing map of labels is nil.
pub record Object : Type 0 where
  pub name : Text
  pub labels : GoMap Text
  pub annotations : GoMap Text

-- metav1.PatchOptions; the field manager is always the same.
pub record PatchOptions : Type 0 where
  pub force : Bool
  pub ignore_validation : Bool

-- A call, with what it carries. `schedule_delete` is no call of the API: it puts a request into the
-- queue of the garbage collection with a grace period.
pub data Call : Type 0 where
  get_object : Resource → Text → Call
  list_objects : Resource → Text → Call
  create_object : Resource → Fields → Bool → Call
  patch_object : Resource → Text → Fields → PatchOptions → Call
  delete_object : Resource → Text → Call
  get_service : Text → Call
  list_services : Text → Call
  create_service : Service → Call
  update_service : Service → Call
  delete_service : Text → Call
  get_slice : Text → Call
  list_slices : Text → Call
  create_slice : EndpointSlice → Call
  update_slice : EndpointSlice → Call
  delete_slice : Text → Call
  schedule_delete : Text → Text → Call

-- The calls that were made, the last one first.
abbrev pub History : Type 0
History = List Call

-- The answer to a call: an error of the API, or what the call returns.
pub data Answer (A : Type 0) : Type 0 where
  answer : A → Answer A
  refused : ApiError → Answer A

-- The server, and the context that the calls are made under.
pub record Api : Type 0 where
  pub object : History → Resource → Text → Answer Object
  pub objects : History → Resource → Text → Answer (List Object)
  pub service : History → Text → Answer Service
  pub services : History → Text → Answer (List Service)
  pub slice : History → Text → Answer EndpointSlice
  pub slices : History → Text → Answer (List EndpointSlice)
  pub done : History → Call → Answer (Unit {0})
  pub cancelled : History → Bool

-- The calls that change nothing in the cluster, and those that delete no object. A list call
-- carries its label selector.
abbrev pub Reads : Call → Type 0
Reads (get_object r n) = Unit
Reads (list_objects r s) = Unit
Reads (get_service n) = Unit
Reads (list_services s) = Unit
Reads (get_slice n) = Unit
Reads (list_slices s) = Unit
Reads _ = ⊥

abbrev pub KeepsObjects : Call → Type 0
KeepsObjects (delete_object r n) = ⊥
KeepsObjects (delete_service n) = ⊥
KeepsObjects (delete_slice n) = ⊥
KeepsObjects (schedule_delete kind n) = ⊥
KeepsObjects _ = Unit
