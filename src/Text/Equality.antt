-- ===== src/Text/Equality.antt =====
-- `text_eq` decides equality.
use pangolin_kube_controller.Prelude.{◌≡◌, refl, ◌≢◌, ◌↔◌, true, false, [], ◌∷◌, arith, ==_iff}
use pangolin_kube_controller.Text.{Text, text_eq}

text_eq_sound : (s t : Text) → text_eq s t ≡ true → s ≡ t
unfolding text_eq
text_eq_sound [] [] h = refl
text_eq_sound [] (d ∷ t) h = cc
text_eq_sound (c ∷ s) [] h = cc
text_eq_sound (c ∷ s) (d ∷ t) h = ground (arith, text_eq_sound s t, ==_iff c d)

pub text_eq_refl : (s : Text) → text_eq s s ≡ true
unfolding text_eq
text_eq_refl [] = refl
text_eq_refl (c ∷ s) = ground (arith, text_eq_refl s)

pub text_eq_iff : (s t : Text) → (text_eq s t ≡ true) ↔ (s ≡ t)
text_eq_iff s t = (text_eq_sound s t, λ e. go e)
  where
    go : s ≡ t → text_eq s t ≡ true
    go e = rw e (text_eq_refl t)

pub text_eq_ne : (s t : Text) → s ≢ t → text_eq s t ≡ false
text_eq_ne s t h = ground (arith, text_eq_iff s t)
