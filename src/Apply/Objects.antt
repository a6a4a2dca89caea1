-- ===== src/Apply/Objects.antt =====
-- internal/apply/unstructured.go (Apply) and internal/apply/ingressroute.go: an object is created,
-- or patched where it exists.
pub mod Reading
pub mod Accepting
pub mod Forced
use pangolin_kube_controller.Prelude.{
  Bool, true, false, Option, none, some, List, [], ◌∷◌, if◌then◌else◌, or_else, is_empty,
}
use pangolin_kube_controller.Text.{Text, codes, text_eq}
use pangolin_kube_controller.Result.{is_not_found, Result, ok, err}
use pangolin_kube_controller.Json.{
  Value, str, obj, Fields, Codec, get, put, as_str, as_obj, literal, unmarshal_map,
}
use pangolin_kube_controller.Sanitize.Config.{Raw}
use pangolin_kube_controller.Routing.{RouterConfig, annotate_router_entry_points_if_present}
use pangolin_kube_controller.Kube.{
  Resource, middlewares, ingress_routes, traefik_services, servers_transports, ingress_route_tcps,
  ingress_route_udps, servers_transport_tcps, Object,
}
use pangolin_kube_controller.Kube.Prog.{
  Prog, pure, fail, lift, ◌>>=◌, ◌>>◌, on_result, fetch_object,
}
use pangolin_kube_controller.Apply.Metadata.{MetadataConfig, build_metadata_for_apply}
use pangolin_kube_controller.Apply.Patch.{create_unstructured, patch_unstructured}

-- KindFor
unfoldable pub kind_for : Resource → Text
kind_for ingress_routes = codes "IngressRoute"
kind_for middlewares = codes "Middleware"
kind_for traefik_services = codes "TraefikService"
kind_for servers_transports = codes "ServersTransport"
kind_for ingress_route_tcps = codes "IngressRouteTCP"
kind_for ingress_route_udps = codes "IngressRouteUDP"
kind_for servers_transport_tcps = codes "ServersTransportTCP"

-- The object is created if the server has none of that name, and patched if it has one; any other
-- error is returned.
abbrev pub create_or_patch : Prog Unit → (Object → Prog Unit) → Result Object → Prog Unit
create_or_patch create patch (ok existing) = patch existing
create_or_patch create patch (err e) = if is_not_found e then create else fail e

module _ (codec : Codec) where
  -- UnstructuredOps.Apply
  unfoldable pub apply_unstructured :
      Resource → Text → Bool → Text → Raw → MetadataConfig → Prog Unit
  apply_unstructured resource namespace ssa_force name raw meta_cfg = do
    spec ← lift (unmarshal_map codec raw)
    let kind = kind_for resource
    let u = λ (meta : Fields). literal (
        (codes "apiVersion", str (codes "traefik.io/v1alpha1"))
        ∷ (codes "kind", str kind)
        ∷ (codes "metadata", obj meta)
        ∷ (codes "spec", spec)
        ∷ [])
    on_result (fetch_object resource name) (
        create_or_patch
          (create_unstructured codec resource
            (u (build_metadata_for_apply none name namespace kind meta_cfg).0) kind)
          (λ existing.
            let (meta, force) =
              build_metadata_for_apply (some existing) name namespace kind meta_cfg in
            patch_unstructured codec resource name (u meta) (some existing) kind force ssa_force))

  -- What `Apply` and `ApplySingle` of IngressRouteOps share: `finish` is applied to the new
  -- metadata.
  unfoldable pub apply_route :
      Resource → Text → Text → (Fields → Fields) → Text → Fields → MetadataConfig → Prog Unit
  apply_route resource namespace kind finish name u meta_cfg =
      on_result (fetch_object resource name) (
        create_or_patch
          (create_unstructured codec resource
            (put (codes "metadata")
              (obj (finish (build_metadata_for_apply none name namespace kind meta_cfg).0)) u)
            kind)
          (λ existing.
            let (meta, force) =
              build_metadata_for_apply (some existing) name namespace kind meta_cfg in
            patch_unstructured codec resource name (put (codes "metadata") (obj (finish meta)) u)
              (some existing) kind force false))

  -- IngressRouteOps.Apply
  unfoldable pub apply_ingress_route : Bool → Text → Text → Fields → MetadataConfig → Prog Unit
  unfolding apply_route
  apply_ingress_route read_only namespace name u meta_cfg =
      if read_only
      then pure tt
      else apply_route ingress_routes namespace (codes "IngressRoute")
          (annotate_router_entry_points_if_present u) name u meta_cfg

  -- `metadata.name` of an object, "" where there is none
  abbrev pub object_name : Fields → Text
  object_name m =
      or_else
        (as_str (get (codes "name") (or_else (as_obj (get (codes "metadata") m)) (literal [])))) []

  -- IngressRouteOps.ApplySingle; an object with no name is logged and left out.
  unfoldable pub apply_single : Bool → Resource → Text → Fields → Text → MetadataConfig → Prog Unit
  unfolding apply_route
  apply_single read_only resource namespace m kind meta_cfg =
      if is_empty (object_name m)
      then pure tt
      else if read_only
      then pure tt
      else apply_route resource namespace kind (λ meta. meta) (object_name m) m meta_cfg
