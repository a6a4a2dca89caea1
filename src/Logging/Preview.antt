-- ===== src/Logging/Preview.antt =====
-- internal/controller/loop.go (logFetchedBodyIfEnabled): what is logged of a fetched body.

use mathlib.Core.List.{append-nil}
use pangolin_kube_controller.Prelude.{
  ℕ, zero, suc, ◌≡◌, refl, ap, ◌⊎◌, inl, inr, true, false, ◌||◌, Bool-cases, Option-cases, Option,
  none, some, [], ◌∷◌, ◌++◌, arith, not, is_empty, is_positive, ℤ, take, to_ℕ, length, ltb,
}
use pangolin_kube_controller.Text.{Text, codes}
use pangolin_kube_controller.Json.{Value, Codec, marshal_value}
use pangolin_kube_controller.Config.{Config}
use pangolin_kube_controller.Logging.{
  logged_preview, cut_preview, preview_of, redact_json_like, should_log_config_preview, redact_any,
}

module _ (beyond : ℕ → ℕ) where
  take_all : (n : ℕ) (s : Text) → ltb n (length s) ≡ false → take n s ≡ s
  take_all zero [] h = refl
  take_all zero (c ∷ s) h = absurd (ground arith)
  take_all (suc n) [] h = refl
  take_all (suc n) (c ∷ s) h = ap (λ t. c ∷ t) (take_all n s (ground arith))

  abbrev pub CutOf : ℕ → Text → Text → Type 0
  CutOf n src preview = (preview ≡ src) ⊎ (preview ≡ take n src ++ codes "...<truncated>")

  cut_preview-CutOf :
      (limit : ℤ) (src preview : Text)
      → cut_preview limit src ≡ some preview
      → CutOf (to_ℕ limit) src preview
  cut_preview-CutOf limit src preview e =
      elim (Bool-cases (not (is_positive limit) || is_empty src)) [
        | inl none_left ↦
            let stuck : ◌≡◌ {A = Option Text} none (some preview) = rw none_left at e in cc
        | inr on ↦ elim (Bool-cases (ltb (to_ℕ limit) (length src))) [
          | inl long ↦ inr (
              let cut : ◌≡◌ {A = Option Text}
                  (some (take (to_ℕ limit) src ++ codes "...<truncated>")) (some preview) =
                rw (on, long) at e in
              cc)
          | inr short ↦ inl (
              let whole : ◌≡◌ {A = Option Text} (some (take (to_ℕ limit) src ++ []))
                  (some preview) =
                rw (on, short) at e in
              let all : take (to_ℕ limit) src ≡ src = take_all (to_ℕ limit) src short in
              let none_behind : take (to_ℕ limit) src ++ [] ≡ take (to_ℕ limit) src =
                append-nil _ in
              cc)
        ]
      ]

  module _ (codec : Codec) (cfg : Config) (body preview : Text) where
    -- What is logged is what the redacted value is written as, whole or cut.
    abbrev pub Redacted : Type 0
    Redacted =
        (v : Value) × (src : Text) × (codec.decode body ≡ some v)
        × (codec.encode (redact_any beyond v) ≡ some src)
        × CutOf (to_ℕ cfg.max_config_log_bytes) src preview

    written-Redacted :
        (v : Value)
        → codec.decode body ≡ some v
        → preview_of cfg.max_config_log_bytes (marshal_value codec (redact_any beyond v))
          ≡ some preview
        → Redacted
    written-Redacted v d e = elim (Option-cases (codec.encode (redact_any beyond v))) [
      | inl n ↦ let stuck : ◌≡◌ {A = Option Text} none (some preview) = rw n at e in cc
      | inr (src, w) ↦
          (v, src, d, w, cut_preview-CutOf cfg.max_config_log_bytes src preview (rw w at e))
    ]

    read-Redacted :
        preview_of cfg.max_config_log_bytes (redact_json_like beyond codec body) ≡ some preview
        → Redacted
    unfolding redact_json_like
    read-Redacted e = elim (Option-cases (codec.decode body)) [
      | inl n ↦ let stuck : ◌≡◌ {A = Option Text} none (some preview) = rw n at e in cc
      | inr (v, d) ↦ written-Redacted v d (rw d at e)
    ]

    -- A preview of a body is logged only where the settings ask for it and the body is JSON, and
    -- then it is what the redacted value is written as, whole or cut at the limit with a mark
    -- behind it.
    pub logged_preview-Redacted :
        logged_preview beyond codec cfg body ≡ some preview
        → ((cfg.log_config_preview || cfg.log_traefik_config) ≡ true) × Redacted
    unfolding logged_preview should_log_config_preview
    logged_preview-Redacted e =
        elim (Bool-cases (cfg.log_config_preview || cfg.log_traefik_config)) [
          | inr off ↦ let stuck : ◌≡◌ {A = Option Text} none (some preview) = rw off at e in cc
          | inl on ↦ elim (Bool-cases (is_empty body)) [
            | inl none_read ↦
                let stuck : ◌≡◌ {A = Option Text} none (some preview) = rw (on, none_read) at e in
                cc
            | inr some_read ↦ (on, read-Redacted (rw (on, some_read) at e))
          ]
        ]
