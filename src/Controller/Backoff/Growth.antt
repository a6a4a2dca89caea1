-- ===== src/Controller/Backoff/Growth.antt =====
-- internal/controller/backoff.go: the wait doubles with each error, up to the maximum.
use pangolin_kube_controller.Prelude.{
  ◌<◌, ◌≡◌, refl, ℕ, zero, suc, ◌-◌, ◌*◌, ◌/◌, ◌%◌, ◌^◌, ◌≤◌, arith, ltb, leb, Bool-cases, ◌⊎◌, inl,
  inr, if◌then◌else◌, ℤ, pos,
}
use native.Mathlib.Nat.{pow-suc}
use pangolin_kube_controller.Config.{Config}
use pangolin_kube_controller.Controller.Backoff.{
  double, half, grow, backoff_after, compute_backoff_duration,
}

-- The largest time.Duration.
abbrev pub max_duration : ℕ
max_duration = 2 ^ 63 - 1

double_pos : (d : ℕ) → 2 * d ≤ max_duration → double (pos d) ≡ pos (2 * d)
unfolding double
double_pos d h = let e : 2 * (d % 2 ^ 64) % 2 ^ 64 ≡ 2 * d = omega arith in rw e (ground arith)

-- The loop over natural numbers.
grown : ℕ → ℕ → ℕ → ℕ
grown zero max d = d
grown (suc rounds) max d =
    let next = grown rounds max (2 * d) in if leb (max / 2) d then max else next

grow-grown :
    (rounds max d : ℕ)
    → max ≤ max_duration
    → grow rounds (pos max) (pos d) ≡ pos (grown rounds max d)
unfolding grow grown half
grow-grown zero max d h = refl
grow-grown (suc n) max d h = elim (Bool-cases (leb (max / 2) d)) [
  | inl t ↦ rw t
  | inr f ↦ rw (f, double_pos d (ground arith)) (grow-grown n max (2 * d) h)
]

-- The loop with the cut at the end.
capped : ℕ → ℕ → ℕ → ℕ
capped rounds max d = let g = grown rounds max d in if ltb max g then max else g

capped-suc :
    (n max d : ℕ) → capped (suc n) max d ≡ (if leb (max / 2) d then max else capped n max (2 * d))
unfolding capped grown
capped-suc n max d = elim (Bool-cases (leb (max / 2) d)) [
  | inl t ↦ rw t (ground arith)
  | inr f ↦ rw f
]

-- `d`, doubled n times.
doubled : ℕ → ℕ → ℕ
doubled zero d = d
doubled (suc n) d = doubled n (2 * d)

doubled-pow : (n d : ℕ) → doubled n d ≡ 2 ^ n * d
unfolding doubled
doubled-pow zero d = omega arith
doubled-pow (suc n) d =
    let e : 2 ^ suc n ≡ 2 ^ n * 2 = pow-suc 2 n in rw (doubled-pow n (2 * d), e) (omega arith)

capped_cases :
    (n max d : ℕ)
    → (capped n max d ≤ max)
      × ((capped n max d ≡ max) ⊎ (capped n max d ≡ doubled n d))
      × (max ≤ doubled n d → capped n max d ≡ max)
unfolding doubled
capped_cases zero max d = unfold capped grown in ground arith
capped_cases (suc n) max d = ground (arith, capped-suc n max d, capped_cases n max (2 * d))

capped_mono : (n max d : ℕ) → capped n max d ≤ capped (suc n) max d
capped_mono zero max d = rw capped-suc (unfold capped grown in ground arith)
capped_mono (suc n) max d =
    ground (arith, capped-suc n max d, capped-suc (suc n) max d, capped_mono n max (2 * d))

backoff-capped :
    (n max base : ℕ)
    → max ≤ max_duration
    → backoff_after (pos max) (pos base) (suc n) ≡ pos (capped n max base)
unfolding backoff_after capped
backoff-capped n max base h =
    let e : suc n - 1 ≡ n = omega arith in rw (e, grow-grown n max base h) (ground arith)

-- With a poll interval and a maximum that are not negative, the wait after `suc n` errors is, before
-- the jitter, at most the maximum: it is the maximum, or the poll interval doubled n times, with no
-- overflow, where that is less. One more error never makes it shorter, and with no error it is the
-- poll interval itself.
pub backoff_growth :
    (jitter : ℤ → ℤ) (cfg : Config) (n max base : ℕ)
    → cfg.max_backoff ≡ pos max
    → cfg.poll_interval ≡ pos base
    → max ≤ max_duration
    → (w w' : ℕ) × (compute_backoff_duration jitter cfg (suc n) ≡ jitter (pos w))
      × (compute_backoff_duration jitter cfg (suc (suc n)) ≡ jitter (pos w'))
      × (w ≤ max)
      × ((w ≡ max) ⊎ ((w ≡ 2 ^ n * base) × (2 ^ n * base < max)))
      × (w ≤ w')
      × (compute_backoff_duration jitter cfg 0 ≡ pos base)
unfolding compute_backoff_duration
backoff_growth jitter cfg n max base p q h =
    let (le, which, top) = capped_cases n max base in
    let e = doubled-pow n base in
    (
      capped n max base,
      capped (suc n) max base,
      rw (p, q, backoff-capped n max base h),
      rw (p, q, backoff-capped (suc n) max base h),
      le,
      below (capped n max base) (2 ^ n * base) (rw e at which) (λ t. top (rw e t)),
      capped_mono n max base,
      q,
    )
  where
    below :
        (w d : ℕ) → (w ≡ max) ⊎ (w ≡ d) → (max ≤ d → w ≡ max) → (w ≡ max) ⊎ ((w ≡ d) × (d < max))
    below w d which top = ground arith
