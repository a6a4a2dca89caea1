-- ===== src/Sanitize/Name/Shape.antt =====
-- The form of a name: which characters it has, and where dashes stand.
use pangolin_kube_controller.Prelude.{
  ℕ, zero, suc, ◌≡◌, refl, ◌≢◌, Bool, true, false, ◌&&◌, ◌||◌, [], ◌∷◌, ◌++◌, map, arith, take, All,
  All-take, All-append,
}
use pangolin_kube_controller.Text.{Text, trim_right, trim, lower_rune}
use pangolin_kube_controller.Text.Trim.{
  StartsOk, EndsOk, trim_right-EndsOk, All-trim_right, trim_left_of_StartsOk, trim_right_of_EndsOk,
}
use pangolin_kube_controller.Sanitize.Name.{is_alpha_num, is_dash, build_base_name}

-- A letter in lower case, a digit or a dash.
abbrev pub NameChar : ℕ → Type 0
NameChar r = (is_alpha_num r || is_dash r) ≡ true

-- No dash follows a dash; `last` says whether one stands before the text.
abbrev pub DashOk : Bool → Text → Type 0
DashOk last [] = Unit
DashOk last (c ∷ s) = ((last && is_dash c) ≡ false) × DashOk (is_dash c) s

-- A name that has been lowered, dashed and trimmed: dashes stand alone and inside.
pub record IsTrimmed (t : Text) : Type 0 where
  pub chars : All NameChar t
  pub dashes : DashOk true t
  pub ends : EndsOk is_dash t

pub build_base_name-All : (s : Text) (last : Bool) → All NameChar (build_base_name s last)
unfolding build_base_name is_dash
build_base_name-All [] last = tt
build_base_name-All (r ∷ s) last =
    ground (arith, build_base_name-All s true, build_base_name-All s false)

pub alpha_num-ne-dash : (r : ℕ) → is_alpha_num r ≡ true → is_dash r ≡ false
unfolding is_alpha_num is_dash
alpha_num-ne-dash r h = ground arith

pub build_base_name-DashOk : (s : Text) (last : Bool) → DashOk last (build_base_name s last)
unfolding build_base_name is_dash
build_base_name-DashOk [] last = tt
build_base_name-DashOk (r ∷ s) last =
    ground (arith, build_base_name-DashOk s true, build_base_name-DashOk s false)

pub DashOk-starts : (s : Text) → DashOk true s → StartsOk is_dash s
DashOk-starts [] h = tt
DashOk-starts (c ∷ s) h = h.0

DashOk-trim_right : (last : Bool) (s : Text) → DashOk last s → DashOk last (trim_right is_dash s)
unfolding trim_right
DashOk-trim_right last [] h = tt
DashOk-trim_right last (c ∷ s) h = ground (arith, DashOk-trim_right (is_dash c) s)

DashOk-take : (last : Bool) (n : ℕ) (s : Text) → DashOk last s → DashOk last (take n s)
DashOk-take last zero s h = tt
DashOk-take last (suc n) [] h = tt
DashOk-take last (suc n) (c ∷ s) h = (h.0, DashOk-take (is_dash c) n s h.1)

pub trim-IsTrimmed : (s : Text) → All NameChar s → DashOk true s → IsTrimmed (trim is_dash s)
unfolding trim
trim-IsTrimmed s h k = rw (trim_left_of_StartsOk is_dash s (DashOk-starts s k)) (record {
  chars = All-trim_right NameChar is_dash s h;
  dashes = DashOk-trim_right true s k;
  ends = trim_right-EndsOk is_dash s;
})

pub trim_of_IsTrimmed : (s : Text) → IsTrimmed s → trim is_dash s ≡ s
unfolding trim
trim_of_IsTrimmed s h =
    rw (trim_left_of_StartsOk is_dash s (DashOk-starts s h.dashes))
      (trim_right_of_EndsOk is_dash s h.ends)

-- A cut of a trimmed text is trimmed again.
pub IsTrimmed-take : (n : ℕ) (s : Text) → IsTrimmed s → IsTrimmed (trim_right is_dash (take n s))
IsTrimmed-take n s h = record {
  chars = All-trim_right NameChar is_dash _ (All-take NameChar n s h.chars);
  dashes = DashOk-trim_right true _ (DashOk-take true n s h.dashes);
  ends = trim_right-EndsOk is_dash _;
}

pub EndsOk-append :
    (cut : ℕ → Bool) (xs ys : Text) → ys ≢ [] → EndsOk cut ys → EndsOk cut (xs ++ ys)
EndsOk-append cut [] ys h k = k
EndsOk-append cut (x ∷ []) [] h k = absurd (h refl)
EndsOk-append cut (x ∷ []) (y ∷ ys) h k = k
EndsOk-append cut (x ∷ z ∷ xs) ys h k = EndsOk-append cut (z ∷ xs) ys h k

DashOk-append :
    (last : Bool) (xs ys : Text)
    → xs ≢ []
    → EndsOk is_dash xs
    → DashOk last xs
    → DashOk false ys
    → DashOk last (xs ++ ys)
DashOk-append last [] ys h e k m = absurd (h refl)
DashOk-append last (x ∷ []) ys h e k m = (k.0, rw e m)
DashOk-append last (x ∷ z ∷ xs) ys h e k m =
    (k.0, DashOk-append (is_dash x) (z ∷ xs) ys (cc) e k.1 m)

-- A name with a suffix behind a dash has the form of a name again.
pub IsTrimmed-append :
    (base suffix : Text)
    → base ≢ []
    → suffix ≢ []
    → IsTrimmed base
    → IsTrimmed suffix
    → IsTrimmed (base ++ b'-' ∷ suffix)
unfolding is_dash
IsTrimmed-append base [] b s hb hs = absurd (s refl)
IsTrimmed-append base (c ∷ suffix) b s hb hs = record {
  chars = All-append NameChar base _ hb.chars (ground arith, hs.chars);
  dashes = DashOk-append true base _ b hb.ends hb.dashes (refl, hs.dashes);
  ends = EndsOk-append is_dash base (b'-' ∷ c ∷ suffix) (cc) hs.ends;
}

-- A name in that form is what the loop makes of it.
pub build_base_name_of_DashOk :
    (s : Text) (last : Bool) → All NameChar s → DashOk last s → build_base_name s last ≡ s
unfolding build_base_name is_dash
build_base_name_of_DashOk [] last h k = refl
build_base_name_of_DashOk (r ∷ s) last h k = ground (
  arith,
  build_base_name_of_DashOk s true h.1,
  build_base_name_of_DashOk s false h.1,
  alpha_num-ne-dash r,
)

pub map-lower_of_NameChar :
    (beyond : ℕ → ℕ) (s : Text) → All NameChar s → map (lower_rune beyond) s ≡ s
unfolding lower_rune is_alpha_num is_dash
map-lower_of_NameChar beyond [] h = refl
map-lower_of_NameChar beyond (c ∷ s) h = ground (arith, map-lower_of_NameChar beyond s h.1)
