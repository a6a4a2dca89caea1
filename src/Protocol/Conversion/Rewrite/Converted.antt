-- ===== src/Protocol/Conversion/Rewrite/Converted.antt =====
-- internal/transform/protocol/http_conversion.go: what a converted service refers to.
use pangolin_kube_controller.Prelude.{
  ◌≡◌, ◌⊎◌, refl, ◌∙◌, inl, inr, Bool, true, false, Option, none, some, List, [], ◌∷◌,
  if◌then◌else◌, is_empty, Bool-cases,
}
use pangolin_kube_controller.Text.{Text, codes, text_eq}
use pangolin_kube_controller.Json.{
  Value, str, obj, arr, nil, cons, Fields, get, put, literal, number,
}
use pangolin_kube_controller.Json.Laws.{get-put, get-remove}
use pangolin_kube_controller.Protocol.Servers.{NetLib}
use pangolin_kube_controller.Config.{Config}
use pangolin_kube_controller.Protocol.Conversion.Targets.{
  KubeServiceTarget, extract_lb_servers, parse_uniform_service_targets, rewrite_short_name_hosts,
  retry_targets, find_target,
}
use pangolin_kube_controller.Protocol.Conversion.Targets.Uniform.{AllAt, parse_uniform_iff}
use pangolin_kube_controller.Protocol.Conversion.Rewrite.{
  weighted_spec, target_entry, converted, convert_load_balancer_to_k8s_service,
}

-- What an entry of the list of services says of a Service.
pub record RefersTo (t : KubeServiceTarget) (entry : Fields) : Type 0 where
  pub name_lem : get (codes "name") entry ≡ some (str t.name)
  pub namespace_lem : get (codes "namespace") entry ≡ some (str t.namespace)
  pub kind_lem : get (codes "kind") entry ≡ some (str (codes "Service"))
  pub port_lem : get (codes "port") entry ≡ some (number t.port)
  pub scheme_lem :
      get (codes "scheme") entry
      ≡ (if text_eq t.scheme (codes "https") then some (str (codes "https")) else none)

target_entry-RefersTo : (t : KubeServiceTarget) → RefersTo t (target_entry t)
unfolding get put text_eq
target_entry-RefersTo t = elim (Bool-cases (text_eq t.scheme (codes "https"))) [
  | inl e ↦ record {
    name_lem = rw e refl;
    namespace_lem = rw e refl;
    kind_lem = rw e refl;
    port_lem = rw e refl;
    scheme_lem = rw e refl;
  }
  | inr e ↦ record {
    name_lem = rw e refl;
    namespace_lem = rw e refl;
    kind_lem = rw e refl;
    port_lem = rw e refl;
    scheme_lem = rw e refl;
  }
]

module _ (net : NetLib) where
  -- All servers name the Service, as they stand or once the short names of hosts are completed with
  -- the namespace of the controller.
  abbrev pub AllName : Text → List Value → KubeServiceTarget → Type 0
  AllName namespace servers t =
      AllAt net t servers
      ⊎ ((completed : List Value) × (rewrite_short_name_hosts net namespace servers
            ≡ some (completed, true))
          × AllAt net t completed)

  find_target-AllName :
      (namespace : Text) (servers : List Value) (t : KubeServiceTarget)
      → find_target net namespace servers ≡ some t
      → AllName namespace servers t
  unfolding find_target
  find_target-AllName namespace servers t h =
      at_once (parse_uniform_service_targets net servers none) refl h
    where
      completed :
          (o : Option (List Value × Bool))
          → rewrite_short_name_hosts net namespace servers ≡ o
          → retry_targets net o ≡ some t
          → AllName namespace servers t
      completed none e g = cc
      completed (some (vs, false)) e g = cc
      completed (some (vs, true)) e g = inr (vs, e, ((parse_uniform_iff net vs t).0 g).1)

      again :
          (b : Bool)
          → (if b then none else retry_targets net (rewrite_short_name_hosts net namespace servers))
            ≡ some t
          → AllName namespace servers t
      again true g = cc
      again false g = completed (rewrite_short_name_hosts net namespace servers) refl g

      at_once :
          (o : Option KubeServiceTarget)
          → parse_uniform_service_targets net servers none ≡ o
          → (elim o [
            | some u ↦ some u
            | none ↦
                if is_empty namespace
                then none
                else retry_targets net (rewrite_short_name_hosts net namespace servers)
          ])
            ≡ some t
          → AllName namespace servers t
      at_once none e g = again (is_empty namespace) g
      at_once (some u) e g = inl ((parse_uniform_iff net servers t).0 (e ∙ g)).1

  -- The servers name one Service, and the new spec refers to that Service alone.
  abbrev pub Converts : Config → Fields → Fields → Type 0
  Converts cfg spec new =
      (servers : List Value) × (t : KubeServiceTarget) × (entry : Fields) × (extract_lb_servers spec
        ≡ some servers)
      × AllName cfg.namespace servers t
      × (get (codes "loadBalancer") new ≡ none)
      × (get (codes "weighted") new
          ≡ some (obj (literal ((codes "services", arr (cons (obj entry) nil)) ∷ []))))
      × RefersTo t entry

  -- A load balancer that is converted has servers that all name one Service, as they stand or once
  -- short names of hosts are completed with the namespace of the controller; the load balancer is
  -- gone, and the spec has in its place a weighted list whose only entry refers to that Service, by
  -- its name, namespace and port, with the scheme where it is https.
  pub convert_load_balancer-Converts :
      (cfg : Config) (spec new : Fields)
      → convert_load_balancer_to_k8s_service net cfg spec ≡ some new
      → Converts cfg spec new
  unfolding convert_load_balancer_to_k8s_service text_eq
  convert_load_balancer-Converts cfg spec new h = by_servers (extract_lb_servers spec) refl h
    where
      by_target :
          (servers : List Value)
          → extract_lb_servers spec ≡ some servers
          → (o : Option KubeServiceTarget) → find_target net cfg.namespace servers ≡ o
          → converted net spec o ≡ some new
          → Converts cfg spec new
      by_target servers e none f g = cc
      by_target servers e (some t) f g =
          let same : weighted_spec (target_entry t) spec ≡ new = cc in
          (
            servers,
            t,
            target_entry t,
            e,
            find_target-AllName cfg.namespace servers t f,
            rw⁻¹ same (get-remove (codes "loadBalancer") (codes "loadBalancer") _),
            rw⁻¹ same (
                get-remove (codes "loadBalancer") (codes "weighted") _
                ∙ get-put (codes "weighted") (codes "weighted") _ spec),
            target_entry-RefersTo t,
          )

      by_servers :
          (o : Option (List Value))
          → extract_lb_servers spec ≡ o
          → (elim o [
            | none ↦ none
            | some servers ↦ converted net spec (find_target net cfg.namespace servers)
          ])
            ≡ some new
          → Converts cfg spec new
      by_servers none e g = cc
      by_servers (some servers) e g =
          by_target servers e (find_target net cfg.namespace servers) refl g
