-- ===== src/Apply/Patch.antt =====
-- internal/apply/unstructured.go: creation and server-side apply.
pub mod Retry
use pangolin_kube_controller.Prelude.{
  ℕ, zero, suc, Bool, true, false, not, ◌&&◌, ◌||◌, if◌then◌else◌, Option, none, some,
}
use pangolin_kube_controller.Text.{Text, codes, text_eq}
use pangolin_kube_controller.Result.{
  ApiError, not_found, conflict, timeout, server_timeout, too_many_requests, service_unavailable,
  Error, api, unmarshal, Result, ok, err,
}
use pangolin_kube_controller.Json.{Value, obj, Fields, Codec, marshal_value}
use pangolin_kube_controller.Kube.{
  Resource, Object, Call, create_object, patch_object, PatchOptions, History, Api,
}
use pangolin_kube_controller.Kube.Prog.{Prog, pure, fail, lift, ◌>>=◌, ◌>>◌, on_result, perform}
use pangolin_kube_controller.Apply.Metadata.{force_needed_for_metadata}

-- IgnoreFieldValidation
unfoldable pub ignore_field_validation : Text → Bool
ignore_field_validation kind = text_eq kind (codes "TraefikService")

-- isTransientError
unfoldable pub is_transient_error : ApiError → Bool
is_transient_error timeout = true
is_transient_error server_timeout = true
is_transient_error too_many_requests = true
is_transient_error service_unavailable = true
is_transient_error _ = false

abbrev is_conflict : ApiError → Bool
is_conflict conflict = true
is_conflict _ = false

-- The test before a round more of `ApplySSAWithRetry`
unfoldable pub is_retried : Bool → Error → Bool
unfolding is_transient_error
is_retried use_force (api e) = (is_conflict e && use_force) || is_transient_error e
is_retried use_force _ = false

-- The rest of the loop once an attempt has returned `r`; the wait ends early, with the error, where
-- the context is cancelled.
abbrev pub after_attempt : Bool → Prog Unit → Result (Unit {0}) → Prog Unit
after_attempt use_force again (ok u) k h = (ok u, h)
after_attempt use_force again (err e) k h =
    if is_retried use_force e && not (k.cancelled h) then again k h else (err e, h)

-- `patchOpts` of `ApplySSAWithRetry`
abbrev pub ssa_options : Text → Bool → PatchOptions
ssa_options kind use_force = record {
  force = use_force;
  ignore_validation = ignore_field_validation kind;
}

abbrev pub last_error : Error → Result (Unit {0}) → Error
last_error last (ok u) = last
last_error last (err e) = e

module _ (resource : Resource) (name : Text) (patch : Fields) (opts : PatchOptions) where
  -- The loop of `ApplySSAWithRetry`, with the rounds left and the last error.
  unfoldable pub ssa_rounds : ℕ → Error → Prog Unit
  ssa_rounds zero last = fail last
  ssa_rounds (suc n) last =
      on_result (perform (patch_object resource name patch opts))
        (λ r. after_attempt opts.force (ssa_rounds n (last_error last r)) r)

-- ApplySSAWithRetry: five rounds at most. There is no error before the first; `unmarshal` stands for
-- the nil error, which five rounds never return.
unfoldable pub apply_ssa_with_retry : Resource → Text → Fields → Text → Bool → Prog Unit
unfolding ssa_rounds
apply_ssa_with_retry resource name patch kind use_force =
    ssa_rounds resource name patch (ssa_options kind use_force) 5 unmarshal

module _ (codec : Codec) where
  -- The bytes of `json.Marshal`; the calls carry the value that they print.
  abbrev pub marshalled : Fields → Prog Text
  marshalled u = lift (marshal_value codec (obj u))

  -- CreateUnstructured
  unfoldable pub create_unstructured : Resource → Fields → Text → Prog Unit
  create_unstructured resource u kind = do
    marshalled u
    perform (create_object resource u (ignore_field_validation kind))

  -- PatchUnstructured with PatchConfig: `force` and `ssa_force`. What DiffSpecKeys finds is logged
  -- only.
  unfoldable pub patch_unstructured :
      Resource → Text → Fields → Option Object → Text → Bool → Bool → Prog Unit
  patch_unstructured resource name u existing kind force ssa_force = do
    marshalled u
    apply_ssa_with_retry resource name u kind
        (ssa_force || force || force_needed_for_metadata existing u)
