-- ===== src/Logging/Masks.antt =====
-- internal/observability/logging/redact.go: what is reached in a redacted value, by any path.
use mathlib.Core.Option
use pangolin_kube_controller.Prelude.{
  ℕ, zero, suc, ◌≡◌, refl, ap, ◌∙◌, ◌⊎◌, inl, inr, Bool, true, false, ◌||◌, Bool-cases,
  Option-cases, Option, none, some, List, [], ◌∷◌, if◌then◌else◌, arith,
}
use pangolin_kube_controller.Text.{Text, text_eq}
use pangolin_kube_controller.Text.Equality.{text_eq_iff}
use pangolin_kube_controller.Json.{
  Value, null, bool, num, str, arr, obj, Items, nil, cons, Fields, end, field, get,
}
use pangolin_kube_controller.Logging.{
  contains_sensitive, redacted, redact_any, redact_items, redact_map,
}

-- A step into a map or into a list.
pub data Step : Type 0 where
  key : Text → Step
  index : ℕ → Step

abbrev item_at : ℕ → Items → Option Value
item_at i nil = none
item_at zero (cons v t) = some v
item_at (suc i) (cons v t) = item_at i t

abbrev pub step_into : Step → Value → Option Value
step_into (key k) (obj m) = get k m
step_into (index i) (arr t) = item_at i t
step_into s v = none

abbrev and_then : Option Value → (Value → Option Value) → Option Value
and_then none f = none
and_then (some v) f = f v

-- What a path leads to.
abbrev pub at_path : List Step → Value → Option Value
at_path [] v = some v
at_path (s ∷ path) v = and_then (step_into s v) (at_path path)

module _ (beyond : ℕ → ℕ) where
  abbrev pub is_sensitive : Step → Bool
  is_sensitive (key k) = contains_sensitive beyond k
  is_sensitive (index i) = false

  -- A key on the path is sensitive.
  abbrev pub passes_sensitive : List Step → Bool
  passes_sensitive [] = false
  passes_sensitive (s ∷ path) = is_sensitive s || passes_sensitive path

  abbrev masked : Text → Value → Value
  masked k v = if contains_sensitive beyond k then str redacted else redact_any beyond v

  get-redact_map :
      (k : Text) (m : Fields) → get k (redact_map beyond m) ≡ Option.map (masked k) (get k m)
  unfolding get redact_map
  get-redact_map k end = refl
  get-redact_map k (field j v m) = elim (Bool-cases (text_eq j k)) [
    | inl e ↦ let same : j ≡ k = (text_eq_iff j k).0 e in rw e (ap (λ x. some (masked x v)) same)
    | inr e ↦ rw (e, get-redact_map k m) refl
  ]

  item_at-redact_items :
      (i : ℕ) (t : Items)
      → item_at i (redact_items beyond t) ≡ Option.map (redact_any beyond) (item_at i t)
  unfolding redact_items
  item_at-redact_items i nil = refl
  item_at-redact_items zero (cons v t) = refl
  item_at-redact_items (suc i) (cons v t) = item_at-redact_items i t

  abbrev entered : Step → Value → Value
  entered s v = if is_sensitive s then str redacted else redact_any beyond v

  step_into-redact_any :
      (s : Step) (v : Value)
      → step_into s (redact_any beyond v) ≡ Option.map (entered s) (step_into s v)
  unfolding redact_any
  step_into-redact_any (key k) (obj m) = get-redact_map k m
  step_into-redact_any (index i) (arr t) = item_at-redact_items i t
  step_into-redact_any (key k) (arr t) = refl
  step_into-redact_any (key k) (str x) = refl
  step_into-redact_any (key k) (num x) = refl
  step_into-redact_any (key k) (bool x) = refl
  step_into-redact_any (key k) null = refl
  step_into-redact_any (index i) (obj m) = refl
  step_into-redact_any (index i) (str x) = refl
  step_into-redact_any (index i) (num x) = refl
  step_into-redact_any (index i) (bool x) = refl
  step_into-redact_any (index i) null = refl

  -- From the mask no path leads on.
  at_path-redacted :
      (path : List Step) (w : Value) → at_path path (str redacted) ≡ some w → w ≡ str redacted
  at_path-redacted [] w e = cc
  at_path-redacted (key k ∷ path) w e = cc
  at_path-redacted (index i ∷ path) w e = cc

  clear_at_path :
      (path : List Step) (v : Value)
      → passes_sensitive path ≡ false
      → at_path path (redact_any beyond v) ≡ Option.map (redact_any beyond) (at_path path v)
  clear_at_path [] v c = refl
  clear_at_path (s ∷ path) v c =
      let here : is_sensitive s ≡ false = ground arith in
      let later : passes_sensitive path ≡ false = ground arith in
      rw (step_into-redact_any s v)
        (by_step (step_into s v) here later (λ x. clear_at_path path x later))
    where
      by_step :
          (o : Option Value)
          → is_sensitive s ≡ false
          → passes_sensitive path ≡ false
          → ((x : Value)
              → at_path path (redact_any beyond x)
                ≡ Option.map (redact_any beyond) (at_path path x))
          → and_then (Option.map (entered s) o) (at_path path)
            ≡ Option.map (redact_any beyond) (and_then o (at_path path))
      by_step none h l ih = refl
      by_step (some x) h l ih = rw h (ih x)

  sensitive_at_path :
      (path : List Step) (v w : Value)
      → passes_sensitive path ≡ true
      → at_path path (redact_any beyond v) ≡ some w
      → w ≡ str redacted
  sensitive_at_path [] v w c e = cc
  sensitive_at_path (s ∷ path) v w c e =
      by_step (step_into s v) (Bool-cases (is_sensitive s)) (rw (step_into-redact_any s v) at e)
        (λ x. sensitive_at_path path x w)
    where
      by_step :
          (o : Option Value)
          → ((is_sensitive s ≡ true) ⊎ (is_sensitive s ≡ false))
          → and_then (Option.map (entered s) o) (at_path path) ≡ some w
          → ((x : Value)
              → passes_sensitive path ≡ true
              → at_path path (redact_any beyond x) ≡ some w
              → w ≡ str redacted)
          → w ≡ str redacted
      by_step none b q ih = cc
      by_step (some x) (inl t) q ih = at_path-redacted path w (rw t at q)
      by_step (some x) (inr f) q ih = ih x (rw f at c) (rw f at q)

  -- A path with a sensitive key leads in a redacted value to the mask or nowhere, and any other path
  -- leads where it led before, to what is there with its own sensitive keys masked.
  pub redact_any_lem :
      (path : List Step) (v : Value)
      → ((passes_sensitive path ≡ true)
          × ((at_path path (redact_any beyond v) ≡ none)
              ⊎ (at_path path (redact_any beyond v) ≡ some (str redacted))))
        ⊎ ((passes_sensitive path ≡ false)
            × (at_path path (redact_any beyond v)
                ≡ Option.map (redact_any beyond) (at_path path v)))
  redact_any_lem path v = elim (Bool-cases (passes_sensitive path)) [
    | inr clear ↦ inr (clear, clear_at_path path v clear)
    | inl hides ↦ elim (Option-cases (at_path path (redact_any beyond v))) [
      | inl n ↦ inl (hides, inl n)
      | inr (w, e) ↦ inl (hides, inr (e ∙ ap (λ x. some x) (sensitive_at_path path v w hides e)))
    ]
  ]
