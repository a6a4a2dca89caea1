-- ===== src/Json/Laws.antt =====
-- Reads of a JSON object after a write.
use mathlib.Core.Option
use pangolin_kube_controller.Prelude.{◌≡◌, refl, none, some, arith, if◌then◌else◌}
use pangolin_kube_controller.Text.{Text, text_eq}
use pangolin_kube_controller.Text.Equality.{text_eq_iff}
use pangolin_kube_controller.Json.{Value, Fields, end, field, get, put, remove, update}

pub get-update :
    (k j : Text) (f : Value → Value) (fs : Fields)
    → get j (update k f fs) ≡ (if text_eq k j then Option.map f (get j fs) else get j fs)
unfolding get update
get-update k j f end = ground arith
get-update k j f (field i v fs) =
    ground (arith, text_eq_iff k j, text_eq_iff i k, text_eq_iff i j, get-update k j f fs)

pub get-put :
    (k j : Text) (v : Value) (fs : Fields)
    → get j (put k v fs) ≡ (if text_eq k j then some v else get j fs)
unfolding get put
get-put k j v end = refl
get-put k j v (field i w fs) =
    ground (arith, text_eq_iff k j, text_eq_iff i k, text_eq_iff i j, get-put k j v fs)

pub get-remove :
    (k j : Text) (fs : Fields) → get j (remove k fs) ≡ (if text_eq k j then none else get j fs)
unfolding get remove
get-remove k j end = ground arith
get-remove k j (field i v fs) =
    ground (arith, text_eq_iff k j, text_eq_iff i k, text_eq_iff i j, get-remove k j fs)
