-- ===== src/Controller/Fetch/Redirects.antt =====
-- internal/controller/fetch.go (CheckRedirect): what the requests of a chain of redirects carry.
use mathlib.Core.Path.{subst}
use pangolin_kube_controller.Prelude.{
  ℕ, ◌≤◌, ◌≡◌, refl, sym, true, ◌⊎◌, inl, inr, Bool-cases, Option, Option-cases, none, some, List,
  [], ◌∷◌, ◌++◌, All, All-append, length, length-append, leb, if◌then◌else◌, is_empty, arith,
}
use pangolin_kube_controller.Text.{Text}
use pangolin_kube_controller.Config.{Config}
use pangolin_kube_controller.Controller.Fetch.{
  Request, same_site, authorize, check_redirect, follow, keep_if_none_match,
}

module _ (fold : ℕ → ℕ) (cfg : Config) (orig : Request) where
  -- The request carries the configured Authorization if it goes to the host and scheme of the first
  -- one, and else none; and it carries on the first one's If-None-Match, if that has one.
  abbrev pub CarriesOn : Request → Type 0
  CarriesOn r =
      (r.authorization ≡ (if same_site fold cfg r orig then cfg.auth_header else []))
      × ((is_empty orig.if_none_match ≡ true) ⊎ (r.if_none_match ≡ orig.if_none_match))

  empty_text : (t : Text) → is_empty t ≡ true → t ≡ []
  empty_text [] e = refl
  empty_text (c ∷ t) e = cc

  authorized :
      (req : Request)
      → ((is_empty orig.if_none_match ≡ true) ⊎ (req.if_none_match ≡ orig.if_none_match))
      → CarriesOn (authorize fold cfg orig req)
  authorized req keeps = elim (Bool-cases (same_site fold cfg req orig)) [
    | inl there ↦ elim (Bool-cases (is_empty cfg.auth_header)) [
      | inl unset ↦ rw (unset, there) (sym (empty_text cfg.auth_header unset), keeps)
      | inr set ↦ rw (set, there) (rw there refl, keeps)
    ]
    | inr elsewhere ↦ elim (Bool-cases (is_empty cfg.auth_header)) [
      | inl unset ↦ rw (unset, elsewhere) (refl, keeps)
      | inr set ↦ rw (set, elsewhere) (rw elsewhere refl, keeps)
    ]
  ]

  authorize-CarriesOn :
      (req : Request) → CarriesOn (authorize fold cfg orig (keep_if_none_match fold cfg orig req))
  authorize-CarriesOn req = authorized (keep_if_none_match fold cfg orig req) kept
    where
      kept :
          (is_empty orig.if_none_match ≡ true)
          ⊎ ((keep_if_none_match fold cfg orig req).if_none_match ≡ orig.if_none_match)
      kept = elim (Bool-cases (is_empty orig.if_none_match)) [
        | inl e ↦ inl e
        | inr e ↦ inr (rw e refl)
      ]

  check_redirect-CarriesOn :
      (req r : Request) (sent : List Request)
      → check_redirect fold cfg req (orig ∷ sent) ≡ some r
      → CarriesOn r × (length sent ≤ 8)
  unfolding check_redirect
  check_redirect-CarriesOn req r sent e = elim (Bool-cases (leb 10 (length (orig ∷ sent)))) [
    | inl stop ↦ let stuck : ◌≡◌ {A = Option Request} none (some r) = rw stop at e in cc
    | inr go ↦
        let made : ◌≡◌ {A = Option Request}
            (some (authorize fold cfg orig (keep_if_none_match fold cfg orig req))) (some r) =
          rw go at e in
        let same : authorize fold cfg orig (keep_if_none_match fold cfg orig req) ≡ r = cc in
        (subst CarriesOn same (authorize-CarriesOn req), ground arith)
  ]

  follow-CarriesOn :
      (prepare : List Request → Text × Text → Request) (targets : List (Text × Text))
      (sent : List Request)
      → All CarriesOn sent
      → length sent ≤ 9
      → (sent' : List Request) × (follow fold cfg prepare (orig ∷ sent) targets ≡ orig ∷ sent')
        × All CarriesOn sent'
        × (length sent' ≤ 9)
  unfolding follow
  follow-CarriesOn prepare [] sent a l = (sent, refl, a, l)
  follow-CarriesOn prepare (target ∷ targets) sent a l =
      elim (Option-cases (check_redirect fold cfg (prepare (orig ∷ sent) target) (orig ∷ sent))) [
        | inl stop ↦ (sent, rw (stop, follow) refl, a, l)
        | inr (r, go) ↦
            let (c, few) = check_redirect-CarriesOn _ r sent go in
            let (sent', e, a', l') =
              follow-CarriesOn prepare targets (sent ++ r ∷ [])
                (All-append CarriesOn sent (r ∷ []) a (c, tt))
                (omega (arith, length-append {0} sent (r ∷ []))) in
            (sent', rw (go, follow) e, a', l')
      ]

  -- However net/http prepares the requests and wherever the redirects lead, at most ten requests
  -- are sent, and each that follows the first one carries the Authorization exactly if it goes to
  -- the first one's host and scheme, and the first one's If-None-Match if that has one.
  pub redirects-CarriesOn :
      (prepare : List Request → Text × Text → Request) (targets : List (Text × Text))
      → (sent : List Request) × (follow fold cfg prepare (orig ∷ []) targets ≡ orig ∷ sent)
        × All CarriesOn sent
        × (length (orig ∷ sent) ≤ 10)
  redirects-CarriesOn prepare targets =
      let (sent, e, a, l) = follow-CarriesOn prepare targets [] tt (omega arith) in
      (sent, e, a, omega arith)
