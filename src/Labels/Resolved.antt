-- ===== src/Labels/Resolved.antt =====
-- internal/kube/labels/resolver.go: the label that is resolved is the one that is verified.
use mathlib.Core.Path.{subst}
use pangolin_kube_controller.Prelude.{
  ◌≡◌, ◌≢◌, ◌⊎◌, refl, sym, ap, ◌∙◌, inl, inr, Bool, true, false, not, ◌&&◌, Option, none, some,
  List, [], ◌∷◌, if◌then◌else◌, or_else, is_empty, Among, Bool-cases, Option-cases,
}
use pangolin_kube_controller.Text.{Text, codes, text_eq, trim_space}
use pangolin_kube_controller.Text.Trim.{trim_space_idem}
use pangolin_kube_controller.Text.Equality.{text_eq_refl, text_eq_iff}
use pangolin_kube_controller.Maps.{entries, lookup}
use pangolin_kube_controller.Kube.{Answer, answer, refused}
use pangolin_kube_controller.Config.{Config}
use pangolin_kube_controller.Labels.{
  LabelLib, IngressClass, ClassServer, LabelError, traefik_controller_id, instance_label_key, Found,
  validate_kv, pick_value, pick_label, pick_preferred_label, candidates, only_candidate, of_class,
  of_classes, resolve_from_ingress_class, with_found, resolve_instance_label,
  verify_ingress_class_label,
}

-- A label that is missing or blank.
abbrev pub Blank : Option Text → Type 0
Blank none = Unit
Blank (some v) = trim_space v ≡ []

blank_iff : (t : Text) → is_empty t ≡ true → t ≡ []
blank_iff [] h = refl
blank_iff (c ∷ t) h = cc

filled : (t : Text) → is_empty t ≡ false → t ≢ []
filled [] h = cc
filled (c ∷ t) h = λ e. cc

module _ (lib : LabelLib) where
  -- The label is one of the IngressClass, trimmed, valid and not empty; it is the label `app`, or
  -- that of the instance where `app` is missing or blank.
  pub record Picked (ic : IngressClass) (f : Found) : Type 0 where
    pub raw : Text
    pub carried : lookup f.key (entries ic.labels) ≡ some raw
    pub trimmed : trim_space raw ≡ f.value
    pub nonempty : f.value ≢ []
    pub valid : validate_kv lib f.key f.value ≡ none
    pub named : f.class_name ≡ ic.name
    pub preferred :
        (f.key ≡ codes "app")
        ⊎ ((f.key ≡ instance_label_key) × Blank (lookup (codes "app") (entries ic.labels)))

  pick_value-none :
      (ic : IngressClass) (key : Text) (o : Option Text) → pick_value lib ic key o ≡ none → Blank o
  pick_value-none ic key none h = tt
  pick_value-none ic key (some v) h = elim (Bool-cases (is_empty (trim_space v))) [
    | inl t ↦ blank_iff (trim_space v) t
    | inr t ↦ cc (rw t at h)
  ]

  pick_value-Picked :
      (ic : IngressClass) (key : Text) (o : Option Text) (f : Found)
      → lookup key (entries ic.labels) ≡ o
      → (key ≡ codes "app")
        ⊎ ((key ≡ instance_label_key) × Blank (lookup (codes "app") (entries ic.labels)))
      → pick_value lib ic key o ≡ some (inr f)
      → Picked ic f
  pick_value-Picked ic key none f at p h = cc
  pick_value-Picked ic key (some v) f at p h = elim (Bool-cases (is_empty (trim_space v))) [
    | inl t ↦ cc (rw t at h)
    | inr t ↦ elim (Option-cases (validate_kv lib key (trim_space v))) [
      | inl e ↦
          let made : Picked ic (record { key = key; value = trim_space v; class_name = ic.name }) =
            record {
              raw = v;
              carried = at;
              trimmed = refl;
              nonempty = filled (trim_space v) t;
              valid = e;
              named = refl;
              preferred = p;
            } in
          let same : record { key = key; value = trim_space v; class_name = ic.name } ≡ f =
            cc (rw (t, e) at h) in
          subst (Picked ic) same made
      | inr (x, e) ↦ cc (rw (t, e) at h)
    ]
  ]

  pick_preferred_label-Picked :
      (ic : IngressClass) (f : Found) → pick_preferred_label lib ic ≡ inr f → Picked ic f
  unfolding pick_preferred_label
  pick_preferred_label-Picked ic f h = by_app (pick_label lib ic (codes "app")) refl h
    where
      by_instance :
          (o : Option (LabelError ⊎ Found))
          → pick_label lib ic instance_label_key ≡ o
          → Blank (lookup (codes "app") (entries ic.labels))
          → or_else o (inl LabelError.no_preferred) ≡ inr f
          → Picked ic f
      by_instance none e b g = cc
      by_instance (some x) e b g =
          pick_value-Picked ic instance_label_key _ f refl (inr (refl, b)) (e ∙ ap some g)

      by_app :
          (o : Option (LabelError ⊎ Found))
          → pick_label lib ic (codes "app") ≡ o
          → or_else o (or_else (pick_label lib ic instance_label_key) (inl LabelError.no_preferred))
            ≡ inr f
          → Picked ic f
      by_app none e g =
          by_instance (pick_label lib ic instance_label_key) refl
            (pick_value-none ic (codes "app") _ e) g
      by_app (some x) e g = pick_value-Picked ic (codes "app") _ f refl (inl refl) (e ∙ ap some g)

  candidates-Among :
      (ics : List IngressClass) (ic : IngressClass)
      → Among ic (candidates lib ics)
      → Among ic ics × (ic.controller ≡ traefik_controller_id)
  unfolding candidates
  candidates-Among [] ic h = absurd h
  candidates-Among (x ∷ ics) ic h =
      by_controller (candidates-Among ics ic) (text_eq x.controller traefik_controller_id) refl h
    where
      by_controller :
          (Among ic (candidates lib ics) → Among ic ics × (ic.controller ≡ traefik_controller_id))
          → (b : Bool) → text_eq x.controller traefik_controller_id ≡ b
          → Among ic (if b then x ∷ candidates lib ics else candidates lib ics)
          → Among ic (x ∷ ics) × (ic.controller ≡ traefik_controller_id)
      by_controller ih true e (inl q) = (
        inl q,
        ap (λ (c : IngressClass). c.controller) (sym q)
            ∙ (text_eq_iff x.controller traefik_controller_id).0 e,
      )
      by_controller ih true e (inr q) = let (m, c) = ih q in (inr m, c)
      by_controller ih false e q = let (m, c) = ih q in (inr m, c)

  -- The IngressClass is the configured one, where it is; otherwise it is the only listed one whose
  -- controller is that of Traefik.
  abbrev pub Selected : ClassServer → Text → Bool → IngressClass → Type 0
  Selected server class true ic = server.class_at class ≡ answer ic
  Selected server class false ic =
      (ics : List IngressClass) × (server.classes ≡ answer ics)
      × (candidates lib ics ≡ ic ∷ [])
      × Among ic ics
      × (ic.controller ≡ traefik_controller_id)

  resolve_from_ingress_class-Picked :
      (server : ClassServer) (class : Text) (provided : Bool) (f : Found)
      → resolve_from_ingress_class lib server class provided ≡ inr f
      → (ic : IngressClass) × Selected server class provided ic × Picked ic f
  unfolding resolve_from_ingress_class
  resolve_from_ingress_class-Picked server class true f h = by_class (server.class_at class) refl h
    where
      by_class :
          (a : Answer IngressClass)
          → server.class_at class ≡ a
          → of_class lib a ≡ inr f
          → (ic : IngressClass) × Selected server class true ic × Picked ic f
      by_class (answer ic) e g = (ic, e, pick_preferred_label-Picked ic f g)
      by_class (refused x) e g = cc
  resolve_from_ingress_class-Picked server class false f h = by_classes server.classes refl h
    where
      by_candidates :
          (ics only : List IngressClass)
          → server.classes ≡ answer ics
          → candidates lib ics ≡ only
          → only_candidate lib only ≡ inr f
          → (ic : IngressClass) × Selected server class false ic × Picked ic f
      by_candidates ics [] e c g = cc
      by_candidates ics (ic ∷ []) e c g =
          let (m, t) = candidates-Among ics ic (subst (λ l. Among ic l) (sym c) (inl refl)) in
          (ic, (ics, e, c, m, t), pick_preferred_label-Picked ic f g)
      by_candidates ics (ic ∷ x ∷ only) e c g = cc

      by_classes :
          (a : Answer (List IngressClass))
          → server.classes ≡ a
          → of_classes lib a ≡ inr f
          → (ic : IngressClass) × Selected server class false ic × Picked ic f
      by_classes (answer ics) e g = by_candidates ics (candidates lib ics) e refl g
      by_classes (refused x) e g = cc

  -- A server that returns an IngressClass by its own name, and each that it lists.
  pub record Consistent (server : ClassServer) : Type 0 where
    pub own_name :
        (name : Text) (ic : IngressClass) → server.class_at name ≡ answer ic → ic.name ≡ name
    pub listed :
        (ics : List IngressClass) (ic : IngressClass)
        → server.classes ≡ answer ics
        → Among ic ics
        → server.class_at ic.name ≡ answer ic

  class_at-Selected :
      (server : ClassServer) (class : Text) (provided : Bool) (ic : IngressClass)
      → Consistent server
      → Selected server class provided ic
      → server.class_at ic.name ≡ answer ic
  class_at-Selected server class true ic ok e = ap server.class_at (ok.own_name class ic e) ∙ e
  class_at-Selected server class false ic ok (ics, e, c, m, t) = ok.listed ics ic e m

  -- The label that is found for a controller without a configured one is a valid label of the
  -- IngressClass that is configured, or of the only one of Traefik; it is the label `app`, or that of
  -- the instance where `app` is missing or blank; and the IngressClass passes the later verification,
  -- as long as the server does not change, if it returns by its name each IngressClass that it lists.
  pub resolve_instance_label-verified :
      (server : ClassServer) (cfg cfg' : Config)
      → Consistent server
      → not (is_empty cfg.traefik_instance_label_key)
          && not (is_empty cfg.traefik_instance_label_value)
        ≡ false
      → resolve_instance_label lib server cfg ≡ inr cfg'
      → (f : Found) × (ic : IngressClass) × Selected server cfg.ingress_class
          cfg.ingress_class_provided ic
        × Picked ic f
        × (with_found lib cfg (inr f) ≡ inr cfg')
        × (verify_ingress_class_label server cfg' ≡ none)
  unfolding resolve_instance_label verify_ingress_class_label
  resolve_instance_label-verified server cfg cfg' ok b h =
      by_found (resolve_from_ingress_class lib server cfg.ingress_class cfg.ingress_class_provided)
        refl (rw b at h)
    where
      verified :
          (f : Found) (ic : IngressClass)
          → Picked ic f
          → server.class_at ic.name ≡ answer ic
          → verify_ingress_class_label server (record cfg {
            traefik_instance_label_key = f.key;
            traefik_instance_label_value = f.value;
            ingress_class = f.class_name;
          })
            ≡ none
      verified f ic p e =
          rw (p.named, e, p.carried, p.trimmed)
            (rw (sym p.trimmed, trim_space_idem p.raw, text_eq_refl (trim_space p.raw)) refl)

      by_found :
          (x : LabelError ⊎ Found)
          → resolve_from_ingress_class lib server cfg.ingress_class cfg.ingress_class_provided ≡ x
          → with_found lib cfg x ≡ inr cfg'
          → (f : Found) × (ic : IngressClass) × Selected server cfg.ingress_class
              cfg.ingress_class_provided ic
            × Picked ic f
            × (with_found lib cfg (inr f) ≡ inr cfg')
            × (verify_ingress_class_label server cfg' ≡ none)
      by_found (inl x) e g = cc
      by_found (inr f) e g =
          let (ic, sel, p) =
            resolve_from_ingress_class-Picked server cfg.ingress_class cfg.ingress_class_provided f
              e in
          let again =
            class_at-Selected server cfg.ingress_class cfg.ingress_class_provided ic ok sel in
          let made : record cfg {
            traefik_instance_label_key = f.key;
            traefik_instance_label_value = f.value;
            ingress_class = f.class_name;
          }
              ≡ cfg' =
            cc in
          (
            f,
            ic,
            sel,
            p,
            g,
            subst (λ c. verify_ingress_class_label server c ≡ none) made (verified f ic p again),
          )
