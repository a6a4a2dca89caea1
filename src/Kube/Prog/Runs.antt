-- ===== src/Kube/Prog/Runs.antt =====
-- What a run of a program in sequence consists of.
use pangolin_kube_controller.Prelude.{◌≡◌, refl, Among, Among-append_right}
use pangolin_kube_controller.Result.{Result, ok, err}
use pangolin_kube_controller.Kube.{Call, History, Api}
use pangolin_kube_controller.Kube.Prog.{Prog, continue, ◌>>=◌, ◌>>◌}
use pangolin_kube_controller.Kube.Prog.Emits.{Adds}

-- A call that was made stays in the history.
pub Among-Adds :
    {P : Call → Type 0} (c : Call) {h h' : History} → Adds P h h' → Among c h → Among c h'
Among-Adds c {h} (added, e, _) m = rw e (Among-append_right c added h m)

module _ {A B : Type 0} where
  continue-ok :
      (r : Result A) (f : A → Prog B) (k : Api) (h : History) {b : B}
      → (continue r f k h).0 ≡ ok b
      → (a : A) × (r ≡ ok a) × (continue r f k h ≡ f a k h)
  continue-ok (ok a) f k h e = (a, refl, refl)
  continue-ok (err x) f k h e = cc

  -- A sequence that returns a value has run both parts.
  pub bind-ok :
      (m : Prog A) (f : A → Prog B) (k : Api) (h : History) {b : B}
      → ((m >>= f) k h).0 ≡ ok b
      → (a : A) × ((m k h).0 ≡ ok a) × ((m >>= f) k h ≡ f a k (m k h).1)
  unfolding ◌>>=◌
  bind-ok m f k h e = continue-ok (m k h).0 f k (m k h).1 e

  pub then-ok :
      (m : Prog A) (n : Prog B) (k : Api) (h : History) {b : B}
      → ((m >> n) k h).0 ≡ ok b
      → (a : A) × ((m k h).0 ≡ ok a) × ((m >> n) k h ≡ n k (m k h).1)
  unfolding ◌>>◌
  then-ok m n k h e = bind-ok m (λ _. n) k h e
