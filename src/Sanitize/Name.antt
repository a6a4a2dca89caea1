-- ===== src/Sanitize/Name.antt =====
-- internal/transform/sanitize/sanitize.go: names that Kubernetes accepts.
pub mod Shape
pub mod Valid
use pangolin_kube_controller.Prelude.{
  ℕ, ◌-◌, ◌≡◌, Bool, true, false, ◌&&◌, ◌||◌, [], ◌∷◌, ◌++◌, map, ltb, leb, ◌==◌, length, take, All,
  is_empty, if◌then◌else◌,
}
use pangolin_kube_controller.Text.{Text, codes, trim, trim_right, lower_rune}

-- isAlphaNum
unfoldable pub is_alpha_num : ℕ → Bool
is_alpha_num r = (leb b'a' r && leb r b'z') || (leb b'0' r && leb r b'9')

unfoldable pub is_dash : ℕ → Bool
is_dash r = r == b'-'

-- What the standard library supplies: unicode.ToLower above ASCII, and crypto/sha256 printed by
-- encoding/hex.
pub record NameLib : Type 0 where
  pub lower_beyond : ℕ → ℕ
  pub sha256_hex : Text → Text

abbrev pub is_hex : ℕ → Bool
is_hex r = (leb b'a' r && leb r b'f') || (leb b'0' r && leb r b'9')

-- A SHA-256 digest is printed as 64 hexadecimal digits in lower case.
pub record HasDigest (lib : NameLib) : Type 0 where
  pub digits : (s : Text) → length (lib.sha256_hex s) ≡ 64
  pub hex : (s : Text) → All (λ r. is_hex r ≡ true) (lib.sha256_hex s)

abbrev pub max_k8s_name_length : ℕ
max_k8s_name_length = 253

abbrev pub name_hash_length : ℕ
name_hash_length = 10

-- The loop of `buildBaseName`; the second argument is `lastDash`.
unfoldable pub build_base_name : Text → Bool → Text
unfolding is_alpha_num
build_base_name [] last_dash = []
build_base_name (r ∷ s) last_dash =
    let kept = r ∷ build_base_name s false in
    let skipped = build_base_name s true in
    let dashed = b'-' ∷ build_base_name s true in
    if is_alpha_num r then kept else if last_dash then skipped else dashed

-- The last steps of `finalizeSanitizedName`: the base is cut, and the suffix appended.
unfoldable pub cut_base : ℕ → Text → Text
unfolding is_dash
cut_base max_base_len trimmed =
    let base =
      if ltb max_base_len (length trimmed)
      then trim_right is_dash (take max_base_len trimmed)
      else trimmed in
    if is_empty base then codes "x" else base

module _ (lib : NameLib) where
  unfoldable pub short_hash : Text → Text
  short_hash input = take name_hash_length (lib.sha256_hex input)

  unfoldable pub finalize_sanitized_name : Text → Text → Text
  unfolding short_hash cut_base is_dash
  finalize_sanitized_name sanitized original =
      let suffix = short_hash original in
      let max_base_len = max_k8s_name_length - length suffix - 1 in
      let max_trim_len =
        if ltb (length sanitized) max_k8s_name_length
        then length sanitized
        else max_k8s_name_length in
      if is_empty sanitized
      then codes "x-" ++ suffix
      else if leb (length sanitized) max_k8s_name_length
      then sanitized
      else if ltb max_base_len 1
      then suffix
      else cut_base max_base_len (trim_right is_dash (take max_trim_len sanitized))
        ++ (b'-' ∷ suffix)

  unfoldable pub sanitize_resource_name : Text → Text
  unfolding build_base_name finalize_sanitized_name is_dash
  sanitize_resource_name name =
      let candidate = build_base_name (map (lower_rune lib.lower_beyond) name) true in
      finalize_sanitized_name (trim is_dash candidate) name
