-- ===== src/Apply/Patch/Retry.antt =====
-- internal/apply/unstructured.go: the rounds of ApplySSAWithRetry.
use pangolin_kube_controller.Prelude.{
  ◌≡◌, refl, sym, ap, ◌∙◌, ℕ, zero, suc, ◌<◌, ◌≤◌, Bool, true, false, not, ◌&&◌, ◌⊎◌, inl, inr, ◌∷◌,
  arith, Bool-cases,
}
use mathlib.Core.Path.{subst}
use pangolin_kube_controller.Text.{Text}
use pangolin_kube_controller.Result.{Error, unmarshal, Result, ok, err}
use pangolin_kube_controller.Json.{Fields}
use pangolin_kube_controller.Kube.{Resource, Call, patch_object, PatchOptions, History, Api}
use pangolin_kube_controller.Kube.Prog.{Prog, fail, call, to_result, on_result}
use pangolin_kube_controller.Apply.Patch.{
  is_retried, after_attempt, last_error, ssa_rounds, ssa_options, apply_ssa_with_retry,
}

-- `n` calls more.
abbrev pub calls : ℕ → Call → History → History
calls zero c h = h
calls (suc n) c h = c ∷ calls n c h

-- The answer to the call after `n` of them, as a result.
abbrev pub answer_after : Api → Call → ℕ → History → Result (Unit {0})
answer_after k c n h = to_result (k.done (calls n c h) c)

-- The attempt `n` failed with an error that is retried, and the context was not cancelled.
abbrev pub Retried : Api → Call → Bool → ℕ → History → Type 0
Retried k c use_force n h =
    (e : Error) × (answer_after k c n h ≡ err e)
    × (is_retried use_force e ≡ true)
    × (k.cancelled (calls (suc n) c h) ≡ false)

-- Two readings of one failed attempt: the error that is retried is the error that was tested.
same_failure :
    (use_force stopped : Bool) (r : Result (Unit {0})) (e e' : Error)
    → r ≡ err e
    → r ≡ err e'
    → is_retried use_force e' ≡ true
    → stopped ≡ false
    → is_retried use_force e && not stopped ≡ false
    → ⊥
same_failure use_force stopped r e e' p q t c f = ground arith

calls-suc : (n : ℕ) (c : Call) (h : History) → calls n c (c ∷ h) ≡ c ∷ calls n c h
calls-suc zero c h = refl
calls-suc (suc n) c h = ap (λ t. c ∷ t) (calls-suc n c h)

-- What a run of at most `suc n` attempts is: `m` attempts that are retried, and one that gives the
-- result; unless it is the last one allowed, that one is not retried.
abbrev pub Attempts : Api → Call → Bool → ℕ → History → Result (Unit {0}) × History → Type 0
Attempts k c use_force n h out =
    (m : ℕ) × (m ≤ n)
    × (out.1 ≡ calls (suc m) c h)
    × (out.0 ≡ answer_after k c m h)
    × ((i : ℕ) → i < m → Retried k c use_force i h)
    × ((m ≡ n) ⊎ (¬ Retried k c use_force m h))

module _ (k : Api) (c : Call) (use_force : Bool) where
  Retried-suc :
      (n : ℕ) (h : History) → Retried k c use_force n (c ∷ h) ≡ Retried k c use_force (suc n) h
  Retried-suc n h = rw (calls-suc n c h) refl

  answer-suc : (n : ℕ) (h : History) → answer_after k c n (c ∷ h) ≡ answer_after k c (suc n) h
  answer-suc n h = rw (calls-suc n c h) refl

  -- One more attempt before.
  Attempts-suc :
      (n : ℕ) (h : History) (out : Result (Unit {0}) × History)
      → Retried k c use_force 0 h
      → Attempts k c use_force n (c ∷ h) out
      → Attempts k c use_force (suc n) h out
  Attempts-suc n h out first (m, le, made, result, before, last) = (
    suc m,
    omega (arith, le),
    made ∙ calls-suc (suc m) c h,
    result ∙ answer-suc m h,
    all,
    ends last,
  )
    where
      all : (i : ℕ) → i < suc m → Retried k c use_force i h
      all zero lt = first
      all (suc i) lt = rw⁻¹ (Retried-suc i h) (before i (omega (arith, lt)))

      ends :
          (m ≡ n) ⊎ (¬ Retried k c use_force m (c ∷ h))
          → (suc m ≡ suc n) ⊎ (¬ Retried k c use_force (suc m) h)
      ends (inl e) = inl (ap suc e)
      ends (inr settled) = inr (rw⁻¹ (Retried-suc m h) settled)

  -- An attempt that settles the result.
  settled_at :
      (n : ℕ) (h : History) (r : Result (Unit {0}))
      → answer_after k c 0 h ≡ r
      → (n ≡ 0) ⊎ (¬ Retried k c use_force 0 h)
      → Attempts k c use_force n h (r, c ∷ h)
  settled_at n h r q last =
      (0, omega arith, refl, sym q, λ i lt. absurd (not_below i lt), settle last)
    where
      not_below : (i : ℕ) → i < 0 → ⊥
      not_below i lt = omega (arith, lt)

      settle : (n ≡ 0) ⊎ (¬ Retried k c use_force 0 h) → (0 ≡ n) ⊎ (¬ Retried k c use_force 0 h)
      settle (inl e) = inl (sym e)
      settle (inr stays) = inr stays

  after-Attempts :
      (n : ℕ) (h : History) (last : Error) (again : Prog (Unit {0})) (r : Result (Unit {0}))
      → answer_after k c 0 h ≡ r
      → (n ≡ 0 → again k (c ∷ h) ≡ (err (last_error last r), c ∷ h))
      → ((m : ℕ) → n ≡ suc m → Attempts k c use_force m (c ∷ h) (again k (c ∷ h)))
      → Attempts k c use_force n h (after_attempt use_force again r k (c ∷ h))
  after-Attempts n h last again (ok u) q stop more =
      settled_at n h (ok u) q (inr (λ (e, f, g, i). cc))
  after-Attempts n h last again (err e) q stop more =
      elim (Bool-cases (is_retried use_force e && not (k.cancelled (c ∷ h)))) [
        | inl t ↦ rw t (retry t n stop more)
        | inr f ↦ rw f (
            settled_at n h (err e) q
              (inr (λ (e', a, b, d). same_failure use_force _ _ e e' q a b d f)))
      ]
    where
      retry :
          is_retried use_force e && not (k.cancelled (c ∷ h)) ≡ true
          → (n : ℕ) → (n ≡ 0 → again k (c ∷ h) ≡ (err e, c ∷ h))
          → ((m : ℕ) → n ≡ suc m → Attempts k c use_force m (c ∷ h) (again k (c ∷ h)))
          → Attempts k c use_force n h (again k (c ∷ h))
      retry t zero stop more = rw (stop refl) (settled_at 0 h (err e) q (inl refl))
      retry t (suc m) stop more =
          Attempts-suc m h _ (e, q, ground arith, ground arith) (more m refl)

module _ (r : Resource) (name : Text) (patch : Fields) (opts : PatchOptions) (k : Api) where
  rounds-Attempts :
      (n : ℕ) (last : Error) (h : History)
      → Attempts k
          (patch_object r name patch opts)
          opts.force
          n
          h
          (ssa_rounds r name patch opts (suc n) last k h)
  unfolding ssa_rounds on_result call fail
  rounds-Attempts zero last h =
      after-Attempts k c opts.force 0 h last (ssa_rounds r name patch opts 0 (last_error last x)) x
        refl (λ e. refl) (λ m e. absurd (omega arith))
    where
      c : Call
      c = patch_object r name patch opts

      x : Result (Unit {0})
      x = to_result (k.done h c)
  rounds-Attempts (suc n) last h =
      after-Attempts k c opts.force (suc n) h last again x refl (λ e. absurd (omega arith))
        (λ m e.
          let e' : n ≡ m = omega arith in
          subst (λ j. Attempts k c opts.force j (c ∷ h) (again k (c ∷ h))) e'
            (rounds-Attempts n (last_error last x) (c ∷ h)))
    where
      c : Call
      c = patch_object r name patch opts

      x : Result (Unit {0})
      x = to_result (k.done h c)

      again : Prog (Unit {0})
      again = ssa_rounds r name patch opts (suc n) (last_error last x)

-- Server-side apply sends the same patch at least once and at most five times, and nothing else.
-- Every attempt but the last failed with an error that is retried (a conflict where the patch is
-- forced, or a transient error) while the context was not cancelled; the result is the answer to
-- the last attempt, which is the fifth or one that is not retried.
pub apply_ssa_with_retry-Attempts :
    (r : Resource) (name : Text) (patch : Fields) (kind : Text) (use_force : Bool) (k : Api)
    (h : History)
    → Attempts k
        (patch_object r name patch (ssa_options kind use_force))
        use_force
        4
        h
        (apply_ssa_with_retry r name patch kind use_force k h)
unfolding apply_ssa_with_retry
apply_ssa_with_retry-Attempts r name patch kind use_force k h =
    rounds-Attempts r name patch (ssa_options kind use_force) k 4 unmarshal h
