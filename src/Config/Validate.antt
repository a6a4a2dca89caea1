-- ===== src/Config/Validate.antt =====
-- internal/config/validate.go and internal/config/normalize.go.
pub mod Exact
use pangolin_kube_controller.Prelude.{
  ℕ, ◌*◌, Bool, true, false, not, ◌&&◌, ◌||◌, Option, none, some, [], map, if◌then◌else◌, is_empty,
  is_positive, ℤ, pos, negsuc, ◌<ℤ◌, ◌≤ℤ◌,
}
use pangolin_kube_controller.Text.{Text, codes, text_eq, lower_rune}
use pangolin_kube_controller.Config.{Config}

-- The errors of `Validate`, by the setting that they name.
pub data Invalid : Type 0 where
  on_lose max_backoff lease_duration renew_deadline retry_period : Invalid
  lease_below_renew renew_below_retry reconcile_max queue_size : Invalid

-- The first error, or none.
infixr 5 ◌orelse◌
abbrev pub ◌orelse◌ : Option Invalid → Option Invalid → Option Invalid
none orelse rest = rest
some e orelse rest = some e

abbrev pub reject_if : Bool → Invalid → Option Invalid
reject_if true e = some e
reject_if false e = none

-- validateOnLoseBehavior; `beyond` is unicode.ToLower above ASCII
unfoldable pub validate_on_lose_behavior : (ℕ → ℕ) → Config → Option Invalid
validate_on_lose_behavior beyond c =
    let behavior = map (lower_rune beyond) c.on_lose_behavior in
    reject_if
      (not
        (is_empty behavior || text_eq behavior (codes "exit") || text_eq behavior (codes "pause")))
      on_lose

-- validateBackoffSettings
unfoldable pub validate_backoff_settings : Config → Option Invalid
validate_backoff_settings c = reject_if (not (is_positive c.max_backoff)) max_backoff

-- validateLeaseTiming
unfoldable pub validate_lease_timing : Config → Option Invalid
validate_lease_timing c =
    if not c.leader_enabled
    then none
    else reject_if (not (is_positive c.lease_duration)) lease_duration
      orelse reject_if (not (is_positive c.renew_deadline)) renew_deadline
      orelse reject_if (not (is_positive c.retry_period)) retry_period
      orelse reject_if (c.lease_duration ≤ℤ c.renew_deadline) lease_below_renew
      orelse reject_if (c.renew_deadline ≤ℤ c.retry_period) renew_below_retry

-- validateReconcileSettings
unfoldable pub validate_reconcile_settings : Config → Option Invalid
validate_reconcile_settings c =
    reject_if (c.reconcile_parallel && (c.reconcile_max <ℤ pos 2)) reconcile_max

-- validateGCSettings
unfoldable pub validate_gc_settings : Config → Option Invalid
validate_gc_settings c = reject_if (not (is_positive c.gc_grace_queue_size)) queue_size

-- Validate: the first of the errors.
unfoldable pub validate : (ℕ → ℕ) → Config → Option Invalid
unfolding validate_on_lose_behavior validate_backoff_settings validate_lease_timing
    validate_reconcile_settings validate_gc_settings
validate beyond c =
    validate_on_lose_behavior beyond c
    orelse validate_backoff_settings c
    orelse validate_lease_timing c
    orelse validate_reconcile_settings c
    orelse validate_gc_settings c

-- 24 hours in nanoseconds
abbrev pub max_fetch_log_interval : ℕ
max_fetch_log_interval = 24 * 3600 * 1000000000

-- normalize
unfoldable pub normalize : Config → Config
normalize c =
    let raised = if c.fetch_log_interval <ℤ pos 0 then pos 0 else c.fetch_log_interval in
    let clamped =
      if pos max_fetch_log_interval <ℤ raised then pos max_fetch_log_interval else raised in
    record c { fetch_log_interval = clamped }
