-- ===== src/Sanitize/Config/Loop.antt =====
-- The loops of `SanitizeTraefikConfig`: the tables of names, and the maps that are filled.
use pangolin_kube_controller.Prelude.{
  ◌≡◌, refl, ◌⊎◌, inl, inr, true, some, List, [], ◌∷◌, arith, is_some, or_else, Bool-cases,
}
use pangolin_kube_controller.Text.{Text, text_eq}
use pangolin_kube_controller.Text.Equality.{text_eq_iff}
use pangolin_kube_controller.Result.{Result, ok, >>=-eq-ok}
use pangolin_kube_controller.Maps.{Map, lookup, insert}
use pangolin_kube_controller.Maps.Laws.{lookup-insert, lookup-insert_self, In}
use pangolin_kube_controller.Sanitize.Config.{Raw, build_mapping, populate}

-- Every entry of the table is the sanitized key.
abbrev pub Agrees : (Text → Text) → Map Text → Type 0
Agrees sanitize m = (k t : Text) → lookup k m ≡ some t → t ≡ sanitize k

Agrees-insert :
    (sanitize : Text → Text) (name : Text) (m : Map Text)
    → Agrees sanitize m
    → Agrees sanitize (insert name (sanitize name) m)
Agrees-insert sanitize name m h k t e =
    ground (arith, lookup-insert name k (sanitize name) m, text_eq_iff name k, h k t)

pub build_mapping-Agrees :
    (sanitize : Text → Text) (names : List Text) (m : Map Text)
    → Agrees sanitize m
    → Agrees sanitize (build_mapping sanitize names m)
unfolding build_mapping
build_mapping-Agrees sanitize [] m h = h
build_mapping-Agrees sanitize (name ∷ names) m h =
    build_mapping-Agrees sanitize names _ (Agrees-insert sanitize name m h)

module _ (sanitize : Text → Text) where
  build_mapping_keeps :
      (k : Text) (names : List Text) (m : Map Text)
      → lookup k m ≡ some (sanitize k)
      → lookup k (build_mapping sanitize names m) ≡ some (sanitize k)
  unfolding build_mapping
  build_mapping_keeps k [] m h = h
  build_mapping_keeps k (name ∷ names) m h =
      build_mapping_keeps k names (insert name (sanitize name) m)
        (ground (arith, lookup-insert name k (sanitize name) m, text_eq_iff name k))

  -- Every listed name has its entry.
  pub lookup-build_mapping :
      (k : Text) (names : List Text) (m : Map Text)
      → In k names
      → lookup k (build_mapping sanitize names m) ≡ some (sanitize k)
  unfolding build_mapping
  lookup-build_mapping k [] m h = elim h [ ]
  lookup-build_mapping k (name ∷ names) m (inl e) =
      build_mapping_keeps k names (insert name (sanitize name) m)
        (ground (arith, lookup-insert name k (sanitize name) m, text_eq_iff name k))
  lookup-build_mapping k (name ∷ names) m (inr h) =
      lookup-build_mapping k names (insert name (sanitize name) m) h

module _ (rename : Text → Text) (rewrite : Raw → Result Raw) (objects : Map Raw) where
  abbrev source : Text → Raw
  source name = or_else (lookup name objects) []

  populate_keeps :
      (k : Text) (names : List Text) (out r : Map Raw)
      → populate rename rewrite objects names out ≡ ok r
      → is_some (lookup k out) ≡ true
      → is_some (lookup k r) ≡ true
  unfolding populate
  populate_keeps k [] out r e h = ground arith
  populate_keeps k (name ∷ names) out r e h =
      let (raw, _, rest) = >>=-eq-ok (rewrite (source name)) _ e in
      populate_keeps k names (insert (rename name) raw out) r rest
        (ground (arith, lookup-insert (rename name) k raw out))

  -- Every listed object is there under its new name.
  pub populate_complete :
      (k : Text) (names : List Text) (out r : Map Raw)
      → In k names
      → populate rename rewrite objects names out ≡ ok r
      → is_some (lookup (rename k) r) ≡ true
  unfolding populate
  populate_complete k [] out r h e = elim h [ ]
  populate_complete k (name ∷ names) out r (inl same) e =
      let (raw, _, rest) = >>=-eq-ok (rewrite (source name)) _ e in
      populate_keeps (rename k) names (insert (rename name) raw out) r rest
        (rw (same, lookup-insert_self (rename k) raw out))
  populate_complete k (name ∷ names) out r (inr h) e =
      let (raw, _, rest) = >>=-eq-ok (rewrite (source name)) _ e in
      populate_complete k names (insert (rename name) raw out) r h rest

  -- The object that stands under `k` comes from an object whose new name is `k`.
  abbrev pub ComesFrom : List Text → Text → Raw → Type 0
  ComesFrom names k v =
      (name : Text) × In name names × (rename name ≡ k) × (rewrite (source name) ≡ ok v)

  ComesFrom-cons :
      (name : Text) (names : List Text) (k : Text) (v : Raw)
      → ComesFrom names k v
      → ComesFrom (name ∷ names) k v
  ComesFrom-cons name names k v (n, h, e, f) = (n, inr h, e, f)

  pub populate_sound :
      (k : Text) (v : Raw) (names : List Text) (out r : Map Raw)
      → populate rename rewrite objects names out ≡ ok r
      → lookup k r ≡ some v
      → (lookup k out ≡ some v) ⊎ ComesFrom names k v
  unfolding populate
  populate_sound k v [] out r e h = inl (ground arith)
  populate_sound k v (name ∷ names) out r e h =
      let (raw, this, rest) = >>=-eq-ok (rewrite (source name)) _ e in
      elim (populate_sound k v names (insert (rename name) raw out) r rest h) [
        | inr later ↦ inr (ComesFrom-cons name names k v later)
        | inl now ↦ elim (Bool-cases (text_eq (rename name) k)) [
          | inl same ↦ inr (
            name,
            inl refl,
            (text_eq_iff (rename name) k).0 same,
            ground (arith, lookup-insert (rename name) k raw out),
          )
          | inr other ↦ inl (ground (arith, lookup-insert (rename name) k raw out))
        ]
      ]
