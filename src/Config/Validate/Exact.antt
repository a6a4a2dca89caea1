-- ===== src/Config/Validate/Exact.antt =====
-- internal/config/validate.go and internal/config/normalize.go: which settings are accepted.
use pangolin_kube_controller.Prelude.{
  inr, negsuc, ltb, Bool-cases, ◌≡◌, ◌⊎◌, ◌↔◌, inl, refl, ℕ, Bool, true, false, not, ◌||◌, Option,
  none, some, [], ◌∷◌, map, arith, is_positive, ℤ, pos, ◌<ℤ◌, ◌≤ℤ◌, is_empty,
}
use pangolin_kube_controller.Text.{Text, codes, text_eq, lower_rune}
use pangolin_kube_controller.Text.Equality.{text_eq_iff}
use pangolin_kube_controller.Config.{Config}
use pangolin_kube_controller.Config.Validate.{
  validate, normalize, max_fetch_log_interval, reject_if, ◌orelse◌, validate_lease_timing, Invalid,
  on_lose, validate_on_lose_behavior, validate_reconcile_settings, validate_backoff_settings,
  validate_gc_settings, max_backoff, queue_size,
}

-- What the settings must satisfy.
pub record IsSound (beyond : ℕ → ℕ) (c : Config) : Type 0 where
  pub behavior :
      (c.on_lose_behavior ≡ [])
      ⊎ (map (lower_rune beyond) c.on_lose_behavior ≡ codes "exit")
      ⊎ (map (lower_rune beyond) c.on_lose_behavior ≡ codes "pause")
  pub backoff : is_positive c.max_backoff ≡ true
  pub lease :
      (c.leader_enabled ≡ false)
      ⊎ ((is_positive c.retry_period ≡ true)
          × (c.retry_period <ℤ c.renew_deadline ≡ true)
          × (c.renew_deadline <ℤ c.lease_duration ≡ true))
  pub parallel : (c.reconcile_parallel ≡ false) ⊎ (pos 2 ≤ℤ c.reconcile_max ≡ true)
  pub queue : is_positive c.gc_grace_queue_size ≡ true

both_none : (a b : Option Invalid) → (a orelse b ≡ none) ↔ ((a ≡ none) × (b ≡ none))
both_none none b = (λ h. (refl, h), λ h. h.1)
both_none (some e) b = (λ h. cc, λ h. cc)

not_rejected : (b : Bool) (e : Invalid) → (reject_if b e ≡ none) ↔ (b ≡ false)
not_rejected true e = (λ h. cc, λ h. cc)
not_rejected false e = (λ h. refl, λ h. refl)

behavior_iff :
    (beyond : ℕ → ℕ) (c : Config)
    → (validate_on_lose_behavior beyond c ≡ none) ↔ (
        (c.on_lose_behavior ≡ [])
        ⊎ (map (lower_rune beyond) c.on_lose_behavior ≡ codes "exit")
        ⊎ (map (lower_rune beyond) c.on_lose_behavior ≡ codes "pause"))
unfolding validate_on_lose_behavior
behavior_iff beyond c = allowed c.on_lose_behavior
  where
    allowed :
        (s : Text)
        → (reject_if
              (not (
                is_empty (map (lower_rune beyond) s)
                || text_eq (map (lower_rune beyond) s) (codes "exit")
                || text_eq (map (lower_rune beyond) s) (codes "pause")))
              on_lose
            ≡ none)
          ↔ ((s ≡ [])
              ⊎ (map (lower_rune beyond) s ≡ codes "exit")
              ⊎ (map (lower_rune beyond) s ≡ codes "pause"))
    allowed [] = (λ h. inl refl, λ h. refl)
    allowed (x ∷ xs) = ground (
      arith,
      text_eq_iff (map (lower_rune beyond) (x ∷ xs)) (codes "exit"),
      text_eq_iff (map (lower_rune beyond) (x ∷ xs)) (codes "pause"),
    )

lease_iff :
    (c : Config)
    → (validate_lease_timing c ≡ none) ↔ (
        (c.leader_enabled ≡ false)
        ⊎ ((is_positive c.retry_period ≡ true)
            × (c.retry_period <ℤ c.renew_deadline ≡ true)
            × (c.renew_deadline <ℤ c.lease_duration ≡ true)))
unfolding validate_lease_timing
lease_iff c = ground arith

reconcile_iff :
    (c : Config)
    → (validate_reconcile_settings c ≡ none)
      ↔ ((c.reconcile_parallel ≡ false) ⊎ (pos 2 ≤ℤ c.reconcile_max ≡ true))
unfolding validate_reconcile_settings
reconcile_iff c = ground arith

positive_iff :
    (z : ℤ) (e : Invalid) → (reject_if (not (is_positive z)) e ≡ none) ↔ (is_positive z ≡ true)
positive_iff z e = ground (arith, not_rejected (not (is_positive z)) e)

-- The settings are accepted exactly when: ON_LOSE is empty, `exit` or `pause` up to case;
-- MAX_BACKOFF and GC_GRACE_QUEUE_SIZE are positive; 0 < RETRY_PERIOD < RENEW_DEADLINE <
-- LEASE_DURATION where a leader is elected; and RECONCILE_MAX is at least 2 where the phases run
-- in parallel.
pub validate-IsSound : (beyond : ℕ → ℕ) (c : Config) → (validate beyond c ≡ none) ↔ IsSound beyond c
unfolding validate validate_backoff_settings validate_gc_settings
validate-IsSound beyond c =
    let a = behavior_iff beyond c in
    let b = positive_iff c.max_backoff max_backoff in
    let l = lease_iff c in
    let r = reconcile_iff c in
    let q = positive_iff c.gc_grace_queue_size queue_size in
    (
      λ h.
          let (h1, t1) = (both_none (validate_on_lose_behavior beyond c) _).0 h in
          let (h2, t2) = (both_none (validate_backoff_settings c) _).0 t1 in
          let (h3, t3) = (both_none (validate_lease_timing c) _).0 t2 in
          let (h4, h5) = (both_none (validate_reconcile_settings c) _).0 t3 in
          record {
            behavior = a.0 h1;
            backoff = b.0 h2;
            lease = l.0 h3;
            parallel = r.0 h4;
            queue = q.0 h5;
          },
      λ v. (both_none (validate_on_lose_behavior beyond c) _).1 (
        a.1 v.behavior,
        (both_none (validate_backoff_settings c) _).1 (
          b.1 v.backoff,
          (both_none (validate_lease_timing c) _).1 (
            l.1 v.lease,
            (both_none (validate_reconcile_settings c) _).1 (r.1 v.parallel, q.1 v.queue),
          ),
        ),
      ),
    )

-- The interval between two logs is brought into the range from 0 to 24 hours: a negative one becomes
-- 0, a larger one 24 hours, and otherwise no setting changes; and no other setting ever does.
pub normalize_interval :
    (c : Config)
    → (((c.fetch_log_interval <ℤ pos 0 ≡ true) × ((normalize c).fetch_log_interval ≡ pos 0))
        ⊎ ((pos max_fetch_log_interval <ℤ c.fetch_log_interval ≡ true)
            × ((normalize c).fetch_log_interval ≡ pos max_fetch_log_interval))
        ⊎ ((pos 0 ≤ℤ c.fetch_log_interval ≡ true)
            × (c.fetch_log_interval ≤ℤ pos max_fetch_log_interval ≡ true)
            × (normalize c ≡ c)))
      × (record (normalize c) { fetch_log_interval = c.fetch_log_interval } ≡ c)
unfolding normalize
normalize_interval c = (by_interval c.fetch_log_interval refl, refl)
  where
    by_interval :
        (z : ℤ)
        → c.fetch_log_interval ≡ z
        → ((c.fetch_log_interval <ℤ pos 0 ≡ true) × ((normalize c).fetch_log_interval ≡ pos 0))
          ⊎ ((pos max_fetch_log_interval <ℤ c.fetch_log_interval ≡ true)
              × ((normalize c).fetch_log_interval ≡ pos max_fetch_log_interval))
          ⊎ ((pos 0 ≤ℤ c.fetch_log_interval ≡ true)
              × (c.fetch_log_interval ≤ℤ pos max_fetch_log_interval ≡ true)
              × (normalize c ≡ c))
    by_interval (negsuc n) e = inl (rw e refl, rw e refl)
    by_interval (pos n) e = elim (Bool-cases (ltb max_fetch_log_interval n)) [
      | inl t ↦ inr (inl (rw e (ground arith), rw e (ground arith)))
      | inr t ↦
          let same : (normalize c).fetch_log_interval ≡ c.fetch_log_interval =
            rw e (ground arith) in
          inr (
            inr (
              rw e (ground arith),
              rw e (ground arith),
              λ i. record c { fetch_log_interval = same i },
            ))
    ]
