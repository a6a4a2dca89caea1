-- ===== src/Controller/Lifecycle/Readiness.antt =====
-- internal/controller/readiness.go: when the controller is ready.
use pangolin_kube_controller.Prelude.{ℕ, ◌*◌, ◌^◌, ◌<◌, ◌≡◌, ◌&&◌, pos, arith, ltb, leb}
use pangolin_kube_controller.Config.{Config}
use pangolin_kube_controller.Controller.Lifecycle.{int64, ready_interval, is_ready}

int64_small : (n : ℕ) → n < 2 ^ 63 → int64 n ≡ pos n
int64_small n h = ground arith

-- For a poll interval under 2^63 / 5 nanoseconds (58 years), the controller is ready exactly if a
-- round has succeeded and no more than five intervals have passed since.
pub is_ready_lem :
    (cfg : Config) (last elapsed : ℕ)
    → 5 * ready_interval cfg < 2 ^ 63
    → is_ready cfg (pos last) (pos elapsed) ≡ (ltb 0 last && leb elapsed (5 * ready_interval cfg))
unfolding is_ready
is_ready_lem cfg last elapsed h = rw (int64_small (5 * ready_interval cfg) h) (ground arith)
