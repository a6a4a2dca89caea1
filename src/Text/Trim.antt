-- ===== src/Text/Trim.antt =====
-- Trimming keeps what holds of every character, shortens, and leaves no cut character at the ends.
use pangolin_kube_controller.Prelude.{
  ℕ, ◌≤◌, ◌≡◌, refl, Bool, false, [], ◌∷◌, arith, is_empty, length, All, Bool-cases, inl, inr, ◌&&◌,
}
use pangolin_kube_controller.Text.{Text, trim_left, trim_right, trim, trim_space, is_space}

-- The first and the last character, if there is one, is kept by `cut`.
abbrev pub StartsOk : (ℕ → Bool) → Text → Type 0
StartsOk cut [] = Unit
StartsOk cut (c ∷ s) = cut c ≡ false

abbrev pub EndsOk : (ℕ → Bool) → Text → Type 0
EndsOk cut [] = Unit
EndsOk cut (c ∷ []) = cut c ≡ false
EndsOk cut (c ∷ d ∷ s) = EndsOk cut (d ∷ s)

module _ (cut : ℕ → Bool) where
  pub trim_left-StartsOk : (s : Text) → StartsOk cut (trim_left cut s)
  unfolding trim_left
  trim_left-StartsOk [] = tt
  trim_left-StartsOk (c ∷ s) = ground (arith, trim_left-StartsOk s)

  pub trim_right-StartsOk : (s : Text) → StartsOk cut s → StartsOk cut (trim_right cut s)
  unfolding trim_right
  trim_right-StartsOk [] h = tt
  trim_right-StartsOk (c ∷ s) h = ground arith

  EndsOk-cons : (c : ℕ) (s : Text) → (cut c ≡ false) → EndsOk cut s → EndsOk cut (c ∷ s)
  EndsOk-cons c [] h k = h
  EndsOk-cons c (d ∷ s) h k = k

  EndsOk-cons_ne : (c : ℕ) (s : Text) → is_empty s ≡ false → EndsOk cut s → EndsOk cut (c ∷ s)
  EndsOk-cons_ne c [] h k = cc
  EndsOk-cons_ne c (d ∷ s) h k = k

  pub trim_right-EndsOk : (s : Text) → EndsOk cut (trim_right cut s)
  unfolding trim_right
  trim_right-EndsOk [] = tt
  trim_right-EndsOk (c ∷ s) = ground (
    arith,
    trim_right-EndsOk s,
    EndsOk-cons c (trim_right cut s),
    EndsOk-cons_ne c (trim_right cut s),
  )

  pub trim_left_of_StartsOk : (s : Text) → StartsOk cut s → trim_left cut s ≡ s
  unfolding trim_left
  trim_left_of_StartsOk [] h = refl
  trim_left_of_StartsOk (c ∷ s) h = ground arith

  pub trim_right_of_EndsOk : (s : Text) → EndsOk cut s → trim_right cut s ≡ s
  unfolding trim_right
  trim_right_of_EndsOk [] h = refl
  trim_right_of_EndsOk (c ∷ []) h = ground arith
  trim_right_of_EndsOk (c ∷ d ∷ s) h = ground (arith, trim_right_of_EndsOk (d ∷ s) h)

  pub length-trim_right : (s : Text) → length (trim_right cut s) ≤ length s
  unfolding trim_right
  length-trim_right [] = omega arith
  length-trim_right (c ∷ s) = ground (arith, length-trim_right s)

module _ {κ} (P : ℕ → Type κ) (cut : ℕ → Bool) where
  pub All-trim_left : (s : Text) → All P s → All P (trim_left cut s)
  unfolding trim_left
  All-trim_left [] h = tt
  All-trim_left (c ∷ s) h = elim (Bool-cases (cut c)) [
    | inl e ↦ rw e (All-trim_left s h.1)
    | inr e ↦ rw e h
  ]

  pub All-trim_right : (s : Text) → All P s → All P (trim_right cut s)
  unfolding trim_right
  All-trim_right [] h = tt
  All-trim_right (c ∷ s) h = elim (Bool-cases (cut c && is_empty (trim_right cut s))) [
    | inl e ↦ rw e tt
    | inr e ↦ rw e (h.0, All-trim_right s h.1)
  ]

-- Trimming a second time changes nothing.
pub trim_space_idem : (s : Text) → trim_space (trim_space s) ≡ trim_space s
unfolding trim_space trim
trim_space_idem s =
    let starts =
      trim_right-StartsOk is_space (trim_left is_space s) (trim_left-StartsOk is_space s) in
    let ends = trim_right-EndsOk is_space (trim_left is_space s) in
    rw (trim_left_of_StartsOk is_space (trim_right is_space (trim_left is_space s)) starts)
      (trim_right_of_EndsOk is_space (trim_right is_space (trim_left is_space s)) ends)
