-- ===== src/Prelude/Int.antt =====
-- Signed numbers: Go's int, int32, int64 and time.Duration (in nanoseconds).
use Prim.Native.Nat.{ℕ, zero, suc}
use mathlib.Core.Bool.{Bool, true, false}
use pangolin_kube_controller.Prelude.Tests.{leb, ltb}

-- `negsuc n` is -(n + 1).
pub data ℤ : Type 0 where
  pos : ℕ → ℤ
  negsuc : ℕ → ℤ

-- -n
abbrev pub neg_ℕ : ℕ → ℤ
neg_ℕ zero = pos zero
neg_ℕ (suc n) = negsuc n

-- 0 < a
abbrev pub is_positive : ℤ → Bool
is_positive (pos n) = ltb 0 n
is_positive (negsuc n) = false

-- a, where it is not negative, and else 0
abbrev pub to_ℕ : ℤ → ℕ
to_ℕ (pos n) = n
to_ℕ (negsuc n) = 0

infix 50 ◌<ℤ◌ ◌≤ℤ◌
-- a < b and a ≤ b
abbrev pub ◌<ℤ◌ : ℤ → ℤ → Bool
pos a <ℤ pos b = ltb a b
pos a <ℤ negsuc b = false
negsuc a <ℤ pos b = true
negsuc a <ℤ negsuc b = ltb b a

abbrev pub ◌≤ℤ◌ : ℤ → ℤ → Bool
pos a ≤ℤ pos b = leb a b
pos a ≤ℤ negsuc b = false
negsuc a ≤ℤ pos b = true
negsuc a ≤ℤ negsuc b = leb b a
