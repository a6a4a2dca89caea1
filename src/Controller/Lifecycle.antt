-- ===== src/Controller/Lifecycle.antt =====
-- internal/controller: leadership and readiness (controller.go, leader_election.go, readiness.go).
pub mod Readiness
use pangolin_kube_controller.Prelude.{
  ℕ, ◌-◌, ◌*◌, ◌%◌, ◌^◌, Bool, true, false, ◌||◌, ◌++◌, Option, none, some, ltb, if◌then◌else◌,
  is_empty, is_positive, ℤ, pos, negsuc, ◌<ℤ◌, to_ℕ, ◌==◌,
}
use pangolin_kube_controller.Text.{Text, codes, equal_fold}
use pangolin_kube_controller.Config.{Config}

-- What the loss of leadership changes: the flag `exitRequested`, the context of the election, and
-- the gauge that reports readiness.
pub record Leadership : Type 0 where
  pub exit_requested : Bool
  pub cancelled : Bool
  pub ready : Bool

abbrev pub leaving : Leadership → Leadership
leaving s = record s { exit_requested = true; cancelled = true }

-- handleLeadershipLoss, by OnStoppedLeading
unfoldable pub handle_leadership_loss : (ℕ → ℕ) → Config → Leadership → Leadership
handle_leadership_loss fold cfg s =
    if equal_fold fold cfg.on_lose_behavior (codes "exit") || is_empty cfg.on_lose_behavior
    then leaving s
    else if equal_fold fold cfg.on_lose_behavior (codes "pause")
    then record s { ready = false }
    else leaving s

-- The value of an int64, which wraps around.
abbrev pub int64 : ℕ → ℤ
int64 n = let m = n % 2 ^ 64 in if ltb m (2 ^ 63) then pos m else negsuc (2 ^ 64 - 1 - m)

-- The poll interval that Ready reckons with, in nanoseconds
abbrev pub ready_interval : Config → ℕ
ready_interval cfg = if is_positive cfg.poll_interval then to_ℕ cfg.poll_interval else 1000000000

-- Ready, and the value of the gauge. `last` is the time of the last round that succeeded, in
-- nanoseconds, and 0 where there was none; `elapsed` is the time since then.
unfoldable pub is_ready : Config → ℤ → ℤ → Bool
is_ready cfg last elapsed = elim last [
  | pos n ↦
      if n == 0 then false else if int64 (5 * ready_interval cfg) <ℤ elapsed then false else true
  | negsuc n ↦ if int64 (5 * ready_interval cfg) <ℤ elapsed then false else true
]

-- makeLeaderIdentity; the parts are POD_NAME, POD_UID, os.Hostname and the clock in decimal.
unfoldable pub make_leader_identity : Text → Text → Option Text → Text → Text
make_leader_identity pod_name pod_uid hostname clock =
    let name =
      if is_empty pod_name
      then elim hostname [ none ↦ codes "unknown" | some h ↦ h ]
      else pod_name in
    let uid = if is_empty pod_uid then clock else pod_uid in name ++ (codes "_" ++ uid)
