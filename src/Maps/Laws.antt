-- ===== src/Maps/Laws.antt =====
-- Reads after writes, and which keys there are.
use mathlib.Core.Bool.{false≢true}
use pangolin_kube_controller.Prelude.{
  Bool, true, false, is_some, sym, ◌∙◌, ◌≡◌, refl, ◌⊎◌, inl, inr, none, some, List, [], ◌∷◌, arith,
  if◌then◌else◌, Bool-cases,
}
use pangolin_kube_controller.Text.{Text, text_eq}
use pangolin_kube_controller.Text.Equality.{text_eq_iff, text_eq_refl}
use pangolin_kube_controller.Maps.{
  Map, lookup, insert, delete, keys, text_le, insert_sorted, sort_texts, sort_keys,
}

module _ {ℓ} {V : Type ℓ} where
  pub lookup-insert :
      (k j : Text) (v : V) (m : Map V)
      → lookup j (insert k v m) ≡ (if text_eq k j then some v else lookup j m)
  unfolding lookup insert
  lookup-insert k j v [] = refl
  lookup-insert k j v ((i, w) ∷ m) =
      ground (arith, text_eq_iff k j, text_eq_iff i k, text_eq_iff i j, lookup-insert k j v m)

  pub lookup-delete :
      (k j : Text) (m : Map V) → lookup j (delete k m) ≡ (if text_eq k j then none else lookup j m)
  unfolding lookup delete
  lookup-delete k j [] = ground arith
  lookup-delete k j ((i, w) ∷ m) =
      ground (arith, text_eq_iff k j, text_eq_iff i k, text_eq_iff i j, lookup-delete k j m)

  pub lookup-insert_self : (k : Text) (v : V) (m : Map V) → lookup k (insert k v m) ≡ some v
  lookup-insert_self k v m = rw (lookup-insert, text_eq_refl k)

-- `k` is one of the texts.
abbrev pub In : Text → List Text → Type 0
In k [] = ⊥
In k (j ∷ js) = (j ≡ k) ⊎ In k js

In-insert_sorted : (k j : Text) (js : List Text) → (j ≡ k) ⊎ In k js → In k (insert_sorted j js)
unfolding insert_sorted
In-insert_sorted k j [] h = h
In-insert_sorted k j (i ∷ js) (inl e) = elim (Bool-cases (text_le j i)) [
  | inl t ↦ rw t (inl e)
  | inr f ↦ rw f (inr (In-insert_sorted k j js (inl e)))
]
In-insert_sorted k j (i ∷ js) (inr (inl e)) = elim (Bool-cases (text_le j i)) [
  | inl t ↦ rw t (inr (inl e))
  | inr f ↦ rw f (inl e)
]
In-insert_sorted k j (i ∷ js) (inr (inr h)) = elim (Bool-cases (text_le j i)) [
  | inl t ↦ rw t (inr (inr h))
  | inr f ↦ rw f (inr (In-insert_sorted k j js (inr h)))
]

In-insert_sorted_inv : (k j : Text) (js : List Text) → In k (insert_sorted j js) → (j ≡ k) ⊎ In k js
unfolding insert_sorted
In-insert_sorted_inv k j [] h = h
In-insert_sorted_inv k j (i ∷ js) h = by_order (In-insert_sorted_inv k j js) (text_le j i) h
  where
    by_order :
        (In k (insert_sorted j js) → (j ≡ k) ⊎ In k js)
        → (b : Bool) → In k (if b then j ∷ i ∷ js else i ∷ insert_sorted j js)
        → (j ≡ k) ⊎ In k (i ∷ js)
    by_order ih true g = g
    by_order ih false (inl e) = inr (inl e)
    by_order ih false (inr g) = elim (ih g) [ inl e ↦ inl e | inr m ↦ inr (inr m) ]

pub In-sort_texts_inv : (k : Text) (ks : List Text) → In k (sort_texts ks) → In k ks
unfolding sort_texts
In-sort_texts_inv k [] h = h
In-sort_texts_inv k (j ∷ js) h = elim (In-insert_sorted_inv k j (sort_texts js) h) [
  | inl e ↦ inl e
  | inr m ↦ inr (In-sort_texts_inv k js m)
]

pub In-sort_texts : (k : Text) (ks : List Text) → In k ks → In k (sort_texts ks)
unfolding sort_texts
In-sort_texts k [] h = elim h [ ]
In-sort_texts k (j ∷ js) (inl e) = In-insert_sorted k j (sort_texts js) (inl e)
In-sort_texts k (j ∷ js) (inr h) = In-insert_sorted k j (sort_texts js) (inr (In-sort_texts k js h))

module _ {ℓ} {V : Type ℓ} where
  pub In-keys : (k : Text) (m : Map V) {v : V} → lookup k m ≡ some v → In k (keys m)
  unfolding lookup keys
  In-keys k [] h = cc
  In-keys k ((j, w) ∷ m) {v} h = elim (Bool-cases (text_eq j k)) [
    | inl t ↦ inl ((text_eq_iff j k).0 t)
    | inr f ↦ inr (In-keys k m {v = v} (ground arith))
  ]

  In-keys_inv : (k : Text) (m : Map V) → In k (keys m) → is_some (lookup k m) ≡ true
  unfolding lookup keys
  In-keys_inv k [] h = elim h [ ]
  In-keys_inv k ((j, w) ∷ m) h = elim (Bool-cases (text_eq j k)) [
    | inl t ↦ rw t refl
    | inr f ↦ rw f (elim h [
      | inl e ↦ absurd (false≢true (sym f ∙ (text_eq_iff j k).1 e))
      | inr g ↦ In-keys_inv k m g
    ])
  ]

  -- A key of the map is among its sorted keys.
  pub In-sort_keys : (k : Text) (m : Map V) {v : V} → lookup k m ≡ some v → In k (sort_keys m)
  unfolding sort_keys
  In-sort_keys k m h = In-sort_texts k (keys m) (In-keys k m h)

  -- The sorted keys are keys of the map.
  pub In-sort_keys_inv : (k : Text) (m : Map V) → In k (sort_keys m) → is_some (lookup k m) ≡ true
  unfolding sort_keys
  In-sort_keys_inv k m h = In-keys_inv k m (In-sort_texts_inv k (keys m) h)
