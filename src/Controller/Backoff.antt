-- ===== src/Controller/Backoff.antt =====
-- internal/controller/backoff.go: how long the controller waits after errors.
pub mod Growth
use pangolin_kube_controller.Prelude.{
  ℕ, zero, suc, ◌+◌, ◌-◌, ◌*◌, ◌/◌, ◌%◌, ◌^◌, ltb, leb, Bool, if◌then◌else◌, ℤ, pos, negsuc, neg_ℕ,
  ◌<ℤ◌, ◌≤ℤ◌,
}
use pangolin_kube_controller.Config.{Config}

-- An int64 as its bit pattern, and back.
abbrev pub word64 : ℤ → ℕ
word64 (pos n) = n % 2 ^ 64
word64 (negsuc n) = 2 ^ 64 - 1 - n % 2 ^ 64

abbrev pub signed64 : ℕ → ℤ
signed64 w = if ltb w (2 ^ 63) then pos w else negsuc (2 ^ 64 - 1 - w)

-- `d *= 2` on a time.Duration, which is an int64
unfoldable pub double : ℤ → ℤ
double d = signed64 ((2 * word64 d) % 2 ^ 64)

-- `d / 2`, which rounds towards 0
unfoldable pub half : ℤ → ℤ
half (pos n) = pos (n / 2)
half (negsuc n) = neg_ℕ (suc n / 2)

-- The loop of `computeBackoffDuration`, with the rounds left.
unfoldable pub grow : ℕ → ℤ → ℤ → ℤ
unfolding double half
grow zero max d = d
grow (suc rounds) max d =
    let next = grow rounds max (double d) in if half max ≤ℤ d then max else next

-- The duration of `computeBackoffDuration` before the jitter, after one error or more.
unfoldable pub backoff_after : ℤ → ℤ → ℕ → ℤ
unfolding grow
backoff_after max base error_count =
    let d = grow (error_count - 1) max base in if max <ℤ d then max else d

-- computeBackoffDuration; `jitter` is `time.Duration(float64(d) * factor)` with a random factor from
-- 0.8 to 1.2.
unfoldable pub compute_backoff_duration : (ℤ → ℤ) → Config → ℕ → ℤ
unfolding backoff_after
compute_backoff_duration jitter cfg zero = cfg.poll_interval
compute_backoff_duration jitter cfg (suc errors) =
    jitter (backoff_after cfg.max_backoff cfg.poll_interval (suc errors))
