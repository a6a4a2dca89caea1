-- ===== src/Protocol/TcpUdp/Pairing.antt =====
-- The Services, EndpointSlices and routes of one protocol belong together.
use mathlib.Core.List.{append_assoc, append-nil}
use pangolin_kube_controller.Prelude.{
  map, none, ap, ◌≡◌, refl, ◌∙◌, inl, inr, some, List, [], ◌∷◌, ◌++◌, arith,
}
use pangolin_kube_controller.Text.{Text, codes}
use pangolin_kube_controller.Text.Equality.{text_eq_iff}
use pangolin_kube_controller.Result.{ok, >>=-eq-ok}
use pangolin_kube_controller.Maps.{Map, lookup}
use pangolin_kube_controller.Maps.Laws.{In, lookup-insert}
use pangolin_kube_controller.Sanitize.Name.{NameLib, sanitize_resource_name}
use mathlib.Core.Path.{subst}
use pangolin_kube_controller.Text.Decimal.{format}
use pangolin_kube_controller.Protocol.Ports.{name_with_port}
use pangolin_kube_controller.Protocol.Servers.{NetLib, choose_address_type}
use pangolin_kube_controller.Protocol.TcpUdp.{
  Transport, Service, EndpointSlice, SvcInfo, Artifacts, no_artifacts, info_at, kube_name,
  build_headless_service, endpoints_of, build_endpoint_slice, build_kube_artifacts,
}

module _ (lib : NameLib) (net : NetLib) (proto : Transport) (namespace : Text)
    (info : Map SvcInfo) where
  -- The name of a service in the cluster: its own with its port, sanitized.
  abbrev pub cluster_name : Text → Text
  cluster_name dyn = sanitize_resource_name lib (dyn ++ (b'-' ∷ format (info_at dyn info).port))

  -- The Service of a service: headless, with the one port of the service.
  pub record IsServiceOf (dyn : Text) (service : Service) : Type 0 where
    pub service_named : service.name ≡ cluster_name dyn
    pub service_placed : service.namespace ≡ namespace
    pub headless : service.spec.cluster_ip ≡ codes "None"
    pub one_port : service.spec.ports ≡ ((info_at dyn info).port, proto) ∷ []

  -- The EndpointSlice of a service: named after its Service, with the port of the Service, one
  -- endpoint for each host, and the type of addresses that the hosts have.
  pub record IsSliceOf (dyn : Text) (slice : EndpointSlice) : Type 0 where
    pub named : slice.name ≡ cluster_name dyn ++ codes "-eps"
    pub placed : slice.namespace ≡ namespace
    pub ports_lem : slice.ports ≡ ((info_at dyn info).port, proto) ∷ []
    pub hosts_lem : slice.endpoints ≡ map (λ host. host ∷ []) (info_at dyn info).hosts
    pub typed : choose_address_type net (info_at dyn info).hosts ≡ ok slice.address_type

  -- One Service and one EndpointSlice for each key, in the order of the keys.
  abbrev pub Paired : List Text → List Service → List EndpointSlice → Type 0
  Paired [] [] [] = Unit
  Paired (k ∷ ks) (s ∷ svcs) (e ∷ slices) = IsServiceOf k s × IsSliceOf k e × Paired ks svcs slices
  Paired _ _ _ = ⊥

  endpoints_of-map : (hosts : List Text) → endpoints_of hosts ≡ map (λ host. host ∷ []) hosts
  unfolding endpoints_of
  endpoints_of-map [] = refl
  endpoints_of-map (h ∷ hosts) = ap (λ l. (h ∷ []) ∷ l) (endpoints_of-map hosts)

  service-IsServiceOf :
      (dyn : Text)
      → IsServiceOf dyn (
          build_headless_service namespace
            (kube_name lib net proto namespace info dyn)
            (info_at dyn info).port
            proto)
  unfolding build_headless_service name_with_port
  service-IsServiceOf dyn = record {
    service_named = refl;
    service_placed = refl;
    headless = refl;
    one_port = refl;
  }

  slice-IsSliceOf :
      (dyn : Text) {slice : EndpointSlice}
      → build_endpoint_slice net namespace
          (kube_name lib net proto namespace info dyn)
          (info_at dyn info).port
          (info_at dyn info).hosts
          proto
        ≡ ok slice
      → IsSliceOf dyn slice
  unfolding build_endpoint_slice name_with_port
  slice-IsSliceOf dyn {slice} h =
      let (at, chosen, same) = >>=-eq-ok (choose_address_type net (info_at dyn info).hosts) _ h in
      let built : EndpointSlice = record {
        namespace = namespace;
        name = kube_name lib net proto namespace info dyn ++ codes "-eps";
        labels = none;
        annotations = none;
        address_type = at;
        endpoints = endpoints_of (info_at dyn info).hosts;
        ports = ((info_at dyn info).port, proto) ∷ [];
      } in
      let made : built ≡ slice = cc in
      subst (IsSliceOf dyn) made (record {
        named = refl;
        placed = refl;
        ports_lem = refl;
        hosts_lem = endpoints_of-map (info_at dyn info).hosts;
        typed = chosen;
      })

  build_sound :
      (keys : List Text) (a a' : Artifacts)
      → build_kube_artifacts lib net proto namespace info keys a ≡ ok a'
      → (svcs : List Service) × (slices : List EndpointSlice) × (a'.svcs ≡ a.svcs ++ svcs)
        × (a'.slices ≡ a.slices ++ slices)
        × Paired keys svcs slices
  unfolding build_kube_artifacts
  build_sound [] a a' h =
      ([], [], ground (arith, append-nil a.svcs), ground (arith, append-nil a.slices), tt)
  build_sound (dyn ∷ keys) a a' h =
      let (slice, made, rest) =
        >>=-eq-ok
          (build_endpoint_slice net namespace (kube_name lib net proto namespace info dyn)
            (info_at dyn info).port (info_at dyn info).hosts proto)
          _ h in
      let (svcs, slices, e, f, paired) = build_sound keys _ a' rest in
      (
        _ ∷ svcs,
        slice ∷ slices,
        e ∙ append_assoc a.svcs (_ ∷ []) svcs,
        f ∙ append_assoc a.slices (slice ∷ []) slices,
        (service-IsServiceOf dyn, slice-IsSliceOf dyn made, paired),
      )

  -- If the Services and EndpointSlices are built, there is one Service and one EndpointSlice for
  -- each key, in the order of the keys: both carry the key and its port in their names, sanitized;
  -- the Service has the cluster address "None" and the port of its key, and the EndpointSlice has
  -- the same port, one endpoint for each host, and the type of addresses of the hosts.
  pub artifacts-Paired :
      (keys : List Text) (a : Artifacts)
      → build_kube_artifacts lib net proto namespace info keys no_artifacts ≡ ok a
      → Paired keys a.svcs a.slices
  artifacts-Paired keys a h =
      let (svcs, slices, e, f, paired) = build_sound keys no_artifacts a h in rw (e, f) paired

  -- The table of names has the name of every key.
  abbrev Named : Text → Artifacts → Type 0
  Named k a = lookup k a.name_map ≡ some (kube_name lib net proto namespace info k)

  name_kept :
      (k : Text) (keys : List Text) (a a' : Artifacts)
      → build_kube_artifacts lib net proto namespace info keys a ≡ ok a'
      → Named k a
      → Named k a'
  unfolding build_kube_artifacts
  name_kept k [] a a' h n = ground arith
  name_kept k (dyn ∷ keys) a a' h n =
      let (slice, made, rest) =
        >>=-eq-ok
          (build_endpoint_slice net namespace (kube_name lib net proto namespace info dyn)
            (info_at dyn info).port (info_at dyn info).hosts proto)
          _ h in
      name_kept k keys _ a' rest (
        ground (
          arith,
          text_eq_iff dyn k,
          lookup-insert dyn k (kube_name lib net proto namespace info dyn) a.name_map,
        ))

  pub name_made :
      (k : Text) (keys : List Text) (a a' : Artifacts)
      → In k keys
      → build_kube_artifacts lib net proto namespace info keys a ≡ ok a'
      → Named k a'
  unfolding build_kube_artifacts
  name_made k [] a a' i h = absurd i
  name_made k (dyn ∷ keys) a a' i h =
      let (slice, made, rest) =
        >>=-eq-ok
          (build_endpoint_slice net namespace (kube_name lib net proto namespace info dyn)
            (info_at dyn info).port (info_at dyn info).hosts proto)
          _ h in
      elim i [
        | inl e ↦ name_kept k keys _ a' rest (
            ground (
              arith,
              text_eq_iff dyn k,
              lookup-insert dyn k (kube_name lib net proto namespace info dyn) a.name_map,
            ))
        | inr later ↦ name_made k keys _ a' later rest
      ]
