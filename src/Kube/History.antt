-- ===== src/Kube/History.antt =====
-- Histories that go on.
use mathlib.Core.List.{append_assoc}
use pangolin_kube_controller.Prelude.{◌≡◌, sym, ap, ◌∙◌, ◌++◌}
use pangolin_kube_controller.Kube.{History}

-- `h'` is `h` with more calls.
abbrev pub Later : History → History → Type 0
Later h h' = (added : History) × (h' ≡ added ++ h)

pub Later-trans : {h h' h'' : History} → Later h h' → Later h' h'' → Later h h''
Later-trans {h} (a, e) (b, f) = (b ++ a, f ∙ ap (λ t. b ++ t) e ∙ sym (append_assoc b a h))
