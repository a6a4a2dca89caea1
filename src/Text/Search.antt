-- ===== src/Text/Search.antt =====
-- The last place of a character in a text.
use pangolin_kube_controller.Prelude.{
  ℕ, ◌≡◌, refl, ◌≢◌, none, some, [], ◌∷◌, ◌++◌, arith, length, All, ==_iff,
}
use pangolin_kube_controller.Text.{Text, last_index}

last_index_of_lacks : (sep : ℕ) (s : Text) → All (λ c. c ≢ sep) s → last_index sep s ≡ none
unfolding last_index
last_index_of_lacks sep [] h = refl
last_index_of_lacks sep (c ∷ s) h = ground (arith, last_index_of_lacks sep s h.1, ==_iff c sep)

-- Behind the last separator there is none.
pub last_index-append :
    (sep : ℕ) (base rest : Text)
    → All (λ c. c ≢ sep) rest
    → last_index sep (base ++ sep ∷ rest) ≡ some (length base)
unfolding last_index
last_index-append sep [] rest h = ground (arith, last_index_of_lacks sep rest h, ==_iff sep sep)
last_index-append sep (c ∷ base) rest h = ground (arith, last_index-append sep base rest h)
