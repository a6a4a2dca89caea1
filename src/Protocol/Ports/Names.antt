-- ===== src/Protocol/Ports/Names.antt =====
-- How `buildBaseName` treats a port behind a name.
use pangolin_kube_controller.Prelude.{
  ℕ, suc, ◌≤◌, ◌≡◌, refl, ap, ◌≢◌, Bool, true, false, ◌&&◌, [], ◌∷◌, ◌++◌, map, arith, is_empty,
  length, All, if◌then◌else◌,
}
use pangolin_kube_controller.Text.{Text, trim_right, lower_rune}
use pangolin_kube_controller.Text.Decimal.{is_digit}
use pangolin_kube_controller.Sanitize.Name.{is_alpha_num, is_dash, build_base_name}
use pangolin_kube_controller.Sanitize.Name.Shape.{
  build_base_name_of_DashOk, build_base_name-DashOk, alpha_num-ne-dash, NameChar, DashOk,
  map-lower_of_NameChar,
}
use pangolin_kube_controller.Text.Trim.{EndsOk}

digit_alpha_num : (c : ℕ) → is_digit c ≡ true → (is_alpha_num c ≡ true) × (is_dash c ≡ false)
unfolding is_alpha_num is_dash
digit_alpha_num c h = ground arith

digits-All : (s : Text) → All (λ c. is_digit c ≡ true) s → All NameChar s
digits-All [] h = tt
digits-All (c ∷ s) h = (ground (arith, digit_alpha_num c), digits-All s h.1)

digits-DashOk : (last : Bool) (s : Text) → All (λ c. is_digit c ≡ true) s → DashOk last s
digits-DashOk last [] h = tt
digits-DashOk last (c ∷ s) h = (ground (arith, digit_alpha_num c), digits-DashOk (is_dash c) s h.1)

pub build_base_name_of_digits :
    (s : Text) (last : Bool) → All (λ c. is_digit c ≡ true) s → build_base_name s last ≡ s
build_base_name_of_digits s last h =
    build_base_name_of_DashOk s last (digits-All s h) (digits-DashOk last s h)

-- A base, without the dashes at its end, with a port behind a dash; a port alone if there is no
-- base.
abbrev pub glue : Text → Text → Text
glue base port = trim_right is_dash base ++ (b'-' ∷ port)

trim_right-alpha :
    (c : ℕ) (s : Text) → is_dash c ≡ false → trim_right is_dash (c ∷ s) ≡ c ∷ trim_right is_dash s
unfolding trim_right
trim_right-alpha c s h = ground arith

pub trim_right-nonempty :
    (s : Text) → DashOk true s → is_empty s ≡ false → is_empty (trim_right is_dash s) ≡ false
unfolding trim_right
trim_right-nonempty [] h e = e
trim_right-nonempty (c ∷ s) h e = ground arith

glue-dash :
    (b ds : Text)
    → DashOk true b
    → glue (b'-' ∷ b) ds ≡ b'-' ∷ (if is_empty b then ds else glue b ds)
unfolding trim_right is_dash
glue-dash [] ds h = refl
glue-dash (c ∷ b) ds h = ground (arith, trim_right-nonempty (c ∷ b) h)

-- The base name of a text with a port: the base name of the text without dashes at its end, with
-- the port behind a dash; or the port alone, where the text has no letter and no digit.
pub build_base_name-append :
    (s : Text) (last : Bool) (ds : Text)
    → All (λ c. is_digit c ≡ true) ds
    → build_base_name (s ++ b'-' ∷ ds) last
      ≡ (if last && is_empty (build_base_name s last) then ds else glue (build_base_name s last) ds)
unfolding build_base_name trim_right
build_base_name-append [] true ds h = build_base_name_of_digits ds true h
build_base_name-append [] false ds h = ap (λ s. b'-' ∷ s) (build_base_name_of_digits ds true h)
build_base_name-append (r ∷ s) true ds h = ground (
  arith,
  build_base_name-append s false ds h,
  build_base_name-append s true ds h,
  trim_right-alpha r (build_base_name s false),
  alpha_num-ne-dash r,
)
build_base_name-append (r ∷ s) false ds h = ground (
  arith,
  build_base_name-append s false ds h,
  build_base_name-append s true ds h,
  trim_right-alpha r (build_base_name s false),
  alpha_num-ne-dash r,
  glue-dash (build_base_name s true) ds (build_base_name-DashOk s true),
)

pub length-build_base_name : (s : Text) (last : Bool) → length (build_base_name s last) ≤ length s
unfolding build_base_name
length-build_base_name [] last = omega arith
length-build_base_name (r ∷ s) last =
    ground (arith, length-build_base_name s true, length-build_base_name s false)

pub length-map-lower : (beyond : ℕ → ℕ) (s : Text) → length (map (lower_rune beyond) s) ≡ length s
length-map-lower beyond [] = refl
length-map-lower beyond (c ∷ s) = ap suc (length-map-lower beyond s)

pub map-lower-append :
    (beyond : ℕ → ℕ) (s ds : Text)
    → All (λ c. is_digit c ≡ true) ds
    → map (lower_rune beyond) (s ++ b'-' ∷ ds) ≡ map (lower_rune beyond) s ++ b'-' ∷ ds
unfolding lower_rune
map-lower-append beyond [] ds h =
    ap (λ s. b'-' ∷ s) (map-lower_of_NameChar beyond ds (digits-All ds h))
map-lower-append beyond (c ∷ s) ds h =
    ap (λ t. lower_rune beyond c ∷ t) (map-lower-append beyond s ds h)

pub digits-EndsOk : (s : Text) → All (λ c. is_digit c ≡ true) s → EndsOk is_dash s
digits-EndsOk [] h = tt
digits-EndsOk (c ∷ []) h = (digit_alpha_num c h.0).1
digits-EndsOk (c ∷ d ∷ s) h = digits-EndsOk (d ∷ s) h.1

pub digits-ne-dash : (s : Text) → All (λ c. is_digit c ≡ true) s → All (λ c. c ≢ b'-') s
digits-ne-dash [] h = tt
digits-ne-dash (c ∷ s) h = (ground arith, digits-ne-dash s h.1)
