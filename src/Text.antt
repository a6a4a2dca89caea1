-- ===== src/Text.antt =====
-- Go strings and the parts of the packages `strings` and `unicode` that the controller calls.
-- A text is the list of its code points; it is the list of its bytes where it is ASCII.
pub mod Equality
pub mod Trim
pub mod Search
pub mod Decimal
use Prim.Native.Char.{code}
use Prim.Native.String.{String}
use pangolin_kube_controller.Prelude.{
  ℕ, suc, ◌+◌, Bool, Option, none, some, true, false, ◌&&◌, ◌||◌, List, [], ◌∷◌, ◌++◌, map, ltb,
  leb, ◌==◌, is_empty, if◌then◌else◌,
}

abbrev pub Text : Type 0
Text = List ℕ

-- A literal.
abbrev pub codes : String → Text
codes String.[] = []
codes (String.◌∷◌ c s) = code c ∷ codes s

-- Go's `==` on strings.
unfoldable pub text_eq : Text → Text → Bool
text_eq [] [] = true
text_eq [] (d ∷ t) = false
text_eq (c ∷ s) [] = false
text_eq (c ∷ s) (d ∷ t) = c == d && text_eq s t

-- strings.EqualFold; `fold` is the first of the characters that unicode.SimpleFold takes to one
-- another.
unfoldable pub equal_fold : (ℕ → ℕ) → Text → Text → Bool
equal_fold fold s t = text_eq (map fold s) (map fold t)

-- unicode.IsSpace
unfoldable pub is_space : ℕ → Bool
is_space c =
    (leb 9 c && leb c 13)
    || c == 32
    || c == 0x85
    || c == 0xa0
    || c == 0x1680
    || (leb 0x2000 c && leb c 0x200a)
    || c == 0x2028
    || c == 0x2029
    || c == 0x202f
    || c == 0x205f
    || c == 0x3000

module _ (cut : ℕ → Bool) where
  -- strings.TrimLeftFunc
  unfoldable pub trim_left : Text → Text
  trim_left [] = []
  trim_left (c ∷ s) = let rest = trim_left s in if cut c then rest else c ∷ s

  -- strings.TrimRightFunc
  unfoldable pub trim_right : Text → Text
  trim_right [] = []
  trim_right (c ∷ s) = let rest = trim_right s in if cut c && is_empty rest then [] else c ∷ rest

  -- strings.TrimFunc
  unfoldable pub trim : Text → Text
  unfolding trim_left trim_right
  trim s = trim_right (trim_left s)

-- strings.TrimSpace
unfoldable pub trim_space : Text → Text
unfolding trim is_space
trim_space s = trim is_space s

-- strings.HasPrefix
unfoldable pub has_prefix : Text → Text → Bool
has_prefix s [] = true
has_prefix [] (d ∷ p) = false
has_prefix (c ∷ s) (d ∷ p) = c == d && has_prefix s p

-- strings.Contains
unfoldable pub contains : Text → Text → Bool
unfolding has_prefix
contains [] p = is_empty p
contains (c ∷ s) p = has_prefix (c ∷ s) p || contains s p

-- strings.HasSuffix
unfoldable pub has_suffix : Text → Text → Bool
unfolding text_eq
has_suffix [] p = is_empty p
has_suffix (c ∷ s) p = text_eq (c ∷ s) p || has_suffix s p

abbrev prepend : ℕ → List Text → List Text
prepend c [] = (c ∷ []) ∷ []
prepend c (s ∷ ss) = (c ∷ s) ∷ ss

-- strings.Split at one character
unfoldable pub split : ℕ → Text → List Text
split sep [] = [] ∷ []
split sep (c ∷ s) = let rest = split sep s in if c == sep then [] ∷ rest else prepend c rest

-- strings.Join
unfoldable pub join : Text → List Text → Text
join sep [] = []
join sep (s ∷ []) = s
join sep (s ∷ t ∷ ss) = s ++ (sep ++ join sep (t ∷ ss))

-- strings.ToLower, where `beyond` is unicode.ToLower above ASCII
unfoldable pub lower_rune : (ℕ → ℕ) → ℕ → ℕ
lower_rune beyond c =
    if ltb c 128 then (if leb b'A' c && leb c b'Z' then c + 32 else c) else beyond c

-- strings.LastIndex of one character
unfoldable pub last_index : ℕ → Text → Option ℕ
last_index sep [] = none
last_index sep (c ∷ s) = elim (last_index sep s) [
  | some i ↦ some (suc i)
  | none ↦ if c == sep then some 0 else none
]
