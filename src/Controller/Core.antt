-- ===== src/Controller/Core.antt =====
-- internal/controller/apply.go: Services and EndpointSlices are created, or updated.
use pangolin_kube_controller.Prelude.{not, ◌&&◌, if◌then◌else◌, is_empty, some, List, [], ◌∷◌}
use pangolin_kube_controller.Text.{Text}
use pangolin_kube_controller.Result.{is_not_found, Result, ok, err}
use pangolin_kube_controller.Maps.{Map, GoMap, entries, insert}
use pangolin_kube_controller.Kube.{create_service, update_service, create_slice, update_slice}
use pangolin_kube_controller.Kube.Prog.{
  Prog, pure, fail, ◌>>◌, on_result, perform, fetch_service, fetch_slice,
}
use pangolin_kube_controller.Protocol.TcpUdp.{Service, EndpointSlice}
use pangolin_kube_controller.Config.{Config}

module _ (cfg : Config) where
  -- The labels and annotations that `ensureManagedServiceMeta` and `ensureManagedEndpointSliceMeta`
  -- add; a nil map is made first.
  unfoldable pub managed_labels : GoMap Text → Map Text
  managed_labels labels =
      let managed = insert cfg.managed_label_key cfg.managed_label_value (entries labels) in
      if not (is_empty cfg.traefik_instance_label_key)
        && not (is_empty cfg.traefik_instance_label_value)
      then insert cfg.traefik_instance_label_key cfg.traefik_instance_label_value managed
      else managed

  unfoldable pub managed_annotations : GoMap Text → Map Text
  managed_annotations annotations =
      insert cfg.managed_anno_key cfg.managed_anno_value (entries annotations)

  -- ensureManagedServiceMeta
  unfoldable pub ensure_managed_service_meta : Service → Service
  unfolding managed_labels managed_annotations
  ensure_managed_service_meta svc = record {
    namespace = svc.namespace;
    name = svc.name;
    labels = some (managed_labels svc.labels);
    annotations = some (managed_annotations svc.annotations);
    spec = svc.spec;
  }

  -- ensureManagedEndpointSliceMeta
  unfoldable pub ensure_managed_endpoint_slice_meta : EndpointSlice → EndpointSlice
  unfolding managed_labels managed_annotations
  ensure_managed_endpoint_slice_meta es = record {
    namespace = es.namespace;
    name = es.name;
    labels = some (managed_labels es.labels);
    annotations = some (managed_annotations es.annotations);
    address_type = es.address_type;
    endpoints = es.endpoints;
    ports = es.ports;
  }

  -- The existing Service with the new spec, labels and annotations.
  abbrev pub updated_service : Service → Service → Service
  updated_service svc existing = record {
    namespace = existing.namespace;
    name = existing.name;
    labels = svc.labels;
    annotations = svc.annotations;
    spec = svc.spec;
  }

  -- The existing EndpointSlice, which keeps its type of addresses.
  abbrev pub updated_slice : EndpointSlice → EndpointSlice → EndpointSlice
  updated_slice es existing = record {
    namespace = existing.namespace;
    name = existing.name;
    labels = es.labels;
    annotations = es.annotations;
    address_type = existing.address_type;
    endpoints = es.endpoints;
    ports = es.ports;
  }

  abbrev write_service : Service → Result Service → Prog Unit
  write_service svc (ok existing) = perform (update_service (updated_service svc existing))
  write_service svc (err e) = if is_not_found e then perform (create_service svc) else fail e

  abbrev write_slice : EndpointSlice → Result EndpointSlice → Prog Unit
  write_slice es (ok existing) = perform (update_slice (updated_slice es existing))
  write_slice es (err e) = if is_not_found e then perform (create_slice es) else fail e

  -- applyCoreService
  unfoldable pub apply_core_service : Service → Prog Unit
  unfolding ensure_managed_service_meta
  apply_core_service svc =
      if cfg.read_only
      then pure tt
      else on_result (fetch_service svc.name) (write_service (ensure_managed_service_meta svc))

  -- applyEndpointSlice
  unfoldable pub apply_endpoint_slice : EndpointSlice → Prog Unit
  unfolding ensure_managed_endpoint_slice_meta
  apply_endpoint_slice es =
      if cfg.read_only
      then pure tt
      else on_result (fetch_slice es.name) (write_slice (ensure_managed_endpoint_slice_meta es))

  -- applyProtocolServices
  unfoldable pub apply_protocol_services : List Service → Prog Unit
  unfolding apply_core_service
  apply_protocol_services [] = pure tt
  apply_protocol_services (svc ∷ svcs) = apply_core_service svc >> apply_protocol_services svcs

  -- applyProtocolSlices
  unfoldable pub apply_protocol_slices : List EndpointSlice → Prog Unit
  unfolding apply_endpoint_slice
  apply_protocol_slices [] = pure tt
  apply_protocol_slices (es ∷ slices) = apply_endpoint_slice es >> apply_protocol_slices slices
