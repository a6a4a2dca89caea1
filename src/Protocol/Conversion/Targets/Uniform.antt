-- ===== src/Protocol/Conversion/Targets/Uniform.antt =====
-- internal/transform/protocol/http_conversion.go: the servers of a load balancer that all point to
-- one Service.
use pangolin_kube_controller.Prelude.{
  ◌≡◌, ◌≢◌, ◌↔◌, refl, sym, ap, ◌∙◌, true, Option, none, some, List, [], ◌∷◌, arith, All,
  Bool-cases, inl, inr,
}
use mathlib.Core.Path.{subst}
use pangolin_kube_controller.Text.Equality.{text_eq_iff, text_eq_refl}
use pangolin_kube_controller.Json.{Value}
use pangolin_kube_controller.Protocol.Servers.{NetLib}
use pangolin_kube_controller.Protocol.Conversion.Targets.{
  KubeServiceTarget, equals, server_target, parse_uniform_service_targets,
}

equals-eq : (t u : KubeServiceTarget) → equals t u ≡ true → t ≡ u
unfolding equals
equals-eq t u h =
    let a : t.name ≡ u.name = ground (arith, text_eq_iff t.name u.name) in
    let b : t.namespace ≡ u.namespace = ground (arith, text_eq_iff t.namespace u.namespace) in
    let c : t.port ≡ u.port = ground arith in
    let d : t.scheme ≡ u.scheme = ground (arith, text_eq_iff t.scheme u.scheme) in
    λ i. record { name = a i; namespace = b i; port = c i; scheme = d i }

equals_refl : (t : KubeServiceTarget) → equals t t ≡ true
unfolding equals
equals_refl t = ground (arith, text_eq_refl t.name, text_eq_refl t.namespace, text_eq_refl t.scheme)

module _ (net : NetLib) where
  -- Every server has the target.
  abbrev pub AllAt : KubeServiceTarget → List Value → Type 0
  AllAt t = All (λ srv. server_target net srv ≡ some t)

  rest_sound :
      (servers : List Value) (t u : KubeServiceTarget)
      → parse_uniform_service_targets net servers (some t) ≡ some u
      → (t ≡ u) × AllAt t servers
  unfolding parse_uniform_service_targets
  rest_sound [] t u h = (ground arith, tt)
  rest_sound (srv ∷ servers) t u h = step (rest_sound servers t u) (server_target net srv) refl
    where
      step :
          (parse_uniform_service_targets net servers (some t) ≡ some u → (t ≡ u) × AllAt t servers)
          → (o : Option KubeServiceTarget) → server_target net srv ≡ o
          → (t ≡ u) × AllAt t (srv ∷ servers)
      step rest none e = cc (rw e at h)
      step rest (some v) e = elim (Bool-cases (equals t v)) [
        | inl q ↦
            let (same, all) = rest (rw (e, q) at h) in
            (same, (e ∙ ap some (sym (equals-eq t v q)), all))
        | inr q ↦ cc (rw (e, q) at h)
      ]

  rest_complete :
      (servers : List Value) (t : KubeServiceTarget)
      → AllAt t servers
      → parse_uniform_service_targets net servers (some t) ≡ some t
  unfolding parse_uniform_service_targets
  rest_complete [] t a = refl
  rest_complete (srv ∷ servers) t (e, a) = rw (e, equals_refl t) (rest_complete servers t a)

  -- The servers of a load balancer yield a Service exactly when there is one at least and each of
  -- them is an object with the key `url` alone, whose URL names that Service at that port and
  -- scheme.
  pub parse_uniform_iff :
      (servers : List Value) (t : KubeServiceTarget)
      → (parse_uniform_service_targets net servers none ≡ some t)
        ↔ ((servers ≢ []) × AllAt t servers)
  unfolding parse_uniform_service_targets
  parse_uniform_iff [] t = (λ h. cc, λ h. absurd (h.0 refl))
  parse_uniform_iff (srv ∷ servers) t = (found (server_target net srv) refl, back)
    where
      found :
          (o : Option KubeServiceTarget)
          → server_target net srv ≡ o
          → parse_uniform_service_targets net (srv ∷ servers) none ≡ some t
          → (srv ∷ servers ≢ []) × AllAt t (srv ∷ servers)
      found none e h = cc (rw e at h)
      found (some v) e h =
          let (same, all) = rest_sound servers v t (rw e at h) in
          (λ z. cc, (e ∙ ap some same, subst (λ x. AllAt x servers) same all))

      back :
          (srv ∷ servers ≢ []) × AllAt t (srv ∷ servers)
          → parse_uniform_service_targets net (srv ∷ servers) none ≡ some t
      back (ne, (e, a)) = rw e (rest_complete servers t a)
