-- ===== src/Logging.antt =====
-- internal/observability/logging/redact.go, and logFetchedConfig of internal/controller/loop.go: what
-- of a configuration is written to the log.
pub mod Masks
pub mod Preview
use pangolin_kube_controller.Prelude.{
  ℕ, Bool, true, false, not, ◌&&◌, ◌||◌, Option, none, some, List, [], ◌∷◌, ◌++◌, map,
  if◌then◌else◌, length, take, ltb, is_empty, ℤ, is_positive, to_ℕ,
}
use pangolin_kube_controller.Text.{Text, codes, contains, lower_rune}
use pangolin_kube_controller.Result.{Result, ok, err, unmarshal, marshal}
use pangolin_kube_controller.Config.{Config}
use pangolin_kube_controller.Json.{
  Value, null, bool, num, str, arr, obj, Items, nil, cons, Fields, end, field, Codec, marshal_value,
}

-- sensitiveSubstrings and redacted
abbrev pub sensitive_substrings : List Text
sensitive_substrings =
    codes "auth" ∷ codes "pass" ∷ codes "secret" ∷ codes "token" ∷ codes "key" ∷ []

abbrev pub redacted : Text
redacted = codes "***redacted***"

abbrev contains_any : Text → List Text → Bool
contains_any s [] = false
contains_any s (sub ∷ subs) = contains s sub || contains_any s subs

-- ShouldLogConfigPreview
unfoldable pub should_log_config_preview : Config → Bool
should_log_config_preview cfg = cfg.log_config_preview || cfg.log_traefik_config

-- `preview`, of a redacted body
abbrev pub cut_preview : ℤ → Text → Option Text
cut_preview limit src =
    if not (is_positive limit) || is_empty src
    then none
    else some (
        take (to_ℕ limit) src
        ++ (if ltb (to_ℕ limit) (length src) then codes "...<truncated>" else []))

abbrev pub preview_of : ℤ → Result Text → Option Text
preview_of limit (ok src) = cut_preview limit src
preview_of limit (err e) = none

-- `beyond` is unicode.ToLower above ASCII.
module _ (beyond : ℕ → ℕ) where
  -- containsSensitive
  unfoldable pub contains_sensitive : Text → Bool
  unfolding contains lower_rune
  contains_sensitive key = contains_any (map (lower_rune beyond) key) sensitive_substrings

  -- redactAny, its loop over a list, and redactMap
  unfoldable mutual
    pub redact_any : Value → Value
    redact_any (obj m) = obj (redact_map m)
    redact_any (arr t) = arr (redact_items t)
    redact_any (str s) = str s
    redact_any (num n) = num n
    redact_any (bool b) = bool b
    redact_any null = null

    pub redact_items : Items → Items
    redact_items nil = nil
    redact_items (cons v t) = cons (redact_any v) (redact_items t)

    pub redact_map : Fields → Fields
    redact_map end = end
    redact_map (field k v m) =
        field k (if contains_sensitive k then str redacted else redact_any v) (redact_map m)

  abbrev marshalled : Codec → Option Value → Result Text
  marshalled codec none = err unmarshal
  marshalled codec (some v) = marshal_value codec (redact_any v)

  -- RedactJSONLike, without the bytes that it returns beside an error
  unfoldable pub redact_json_like : Codec → Text → Result Text
  unfolding redact_any
  redact_json_like codec raw = marshalled codec (codec.decode raw)

  -- logFetchedBodyIfEnabled: the preview of the body that is logged, if any. The other parts of the
  -- line are the length, the hash and the ETag.
  unfoldable pub logged_preview : Codec → Config → Text → Option Text
  unfolding redact_json_like should_log_config_preview
  logged_preview codec cfg body =
      if not (should_log_config_preview cfg)
      then none
      else if is_empty body
      then none
      else preview_of cfg.max_config_log_bytes (redact_json_like codec body)
