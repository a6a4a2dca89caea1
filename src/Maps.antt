-- ===== src/Maps.antt =====
-- Go maps with string keys, as association lists. A nil map is `none`. Where the program ranges
-- over a map the model takes the entries in the list's order, which is any order.
pub mod Laws
use pangolin_kube_controller.Prelude.{
  Bool, true, false, ◌&&◌, ◌||◌, Option, none, some, List, [], ◌∷◌, map, if◌then◌else◌, or_else,
  ltb, ◌==◌,
}
use pangolin_kube_controller.Text.{Text, text_eq}

abbrev pub Map {ℓ} : Type ℓ → Type ℓ
Map V = List (Text × V)

abbrev pub GoMap {ℓ} : Type ℓ → Type ℓ
GoMap V = Option (Map V)

module _ {ℓ} {V : Type ℓ} where
  -- A read, or a range over, a nil map finds nothing.
  abbrev pub entries : GoMap V → Map V
  entries none = []
  entries (some m) = m

  unfoldable pub lookup : Text → Map V → Option V
  lookup k [] = none
  lookup k ((j, v) ∷ m) = if text_eq j k then some v else lookup k m

  -- m[k] = v
  unfoldable pub insert : Text → V → Map V → Map V
  insert k v [] = (k, v) ∷ []
  insert k v ((j, w) ∷ m) = if text_eq j k then (j, v) ∷ m else (j, w) ∷ insert k v m

  -- delete(m, k)
  unfoldable pub delete : Text → Map V → Map V
  delete k [] = []
  delete k ((j, v) ∷ m) = let rest = delete k m in if text_eq j k then rest else (j, v) ∷ rest

  unfoldable pub keys : Map V → List Text
  keys [] = []
  keys ((k, v) ∷ m) = k ∷ keys m

-- `<=` on Go strings: the order of code points is that of UTF-8 bytes.
unfoldable pub text_le : Text → Text → Bool
text_le [] t = true
text_le (c ∷ s) [] = false
text_le (c ∷ s) (d ∷ t) = ltb c d || (c == d && text_le s t)

insert_sorted : Text → List Text → List Text
insert_sorted k [] = k ∷ []
insert_sorted k (j ∷ js) = if text_le k j then k ∷ j ∷ js else j ∷ insert_sorted k js

unfoldable pub sort_texts : List Text → List Text
unfolding insert_sorted text_le
sort_texts [] = []
sort_texts (k ∷ ks) = insert_sorted k (sort_texts ks)

-- sortKeys of sanitize.go, sortedKeys of tcp_udp.go
unfoldable pub sort_keys {ℓ} : {V : Type ℓ} → Map V → List Text
unfolding sort_texts keys
sort_keys m = sort_texts (keys m)
