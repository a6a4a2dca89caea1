-- ===== src/Protocol/Ports/RoundTrip.antt =====
-- The port that `TransformTCP` puts into the name of a Service is the one that it reads back.
use native.Mathlib.Numerals.{add-one}
use pangolin_kube_controller.Sanitize.Name.Valid.{finalize_of_short}
use pangolin_kube_controller.Prelude.{
  ℕ, suc, ◌+◌, ◌≤◌, ◌<◌, ◌≡◌, refl, sym, ◌∙◌, ◌≢◌, true, false, [], ◌∷◌, ◌++◌, map, arith, is_empty,
  length, length-append, All, drop,
}
use pangolin_kube_controller.Text.{Text, trim_right, trim, lower_rune}
use pangolin_kube_controller.Text.Trim.{
  EndsOk, trim_left_of_StartsOk, trim_right_of_EndsOk, length-trim_right,
}
use pangolin_kube_controller.Text.Search.{last_index-append}
use pangolin_kube_controller.Text.Decimal.{format, is_digit}
use pangolin_kube_controller.Text.Decimal.RoundTrip.{
  format_digits, format-ne-nil, length-format, parse_int-format,
}
use pangolin_kube_controller.Result.{ok}
use pangolin_kube_controller.Sanitize.Name.{
  NameLib, is_dash, build_base_name, sanitize_resource_name,
}
use pangolin_kube_controller.Sanitize.Name.Shape.{
  EndsOk-append, DashOk-starts, build_base_name-DashOk,
}
use pangolin_kube_controller.Protocol.Ports.{parse_port32, derive_port_from_name, name_with_port}
use pangolin_kube_controller.Protocol.Ports.Names.{
  glue, trim_right-nonempty, build_base_name-append, length-build_base_name, length-map-lower,
  map-lower-append, digits-EndsOk, digits-ne-dash,
}

-- Every port is read back from its print.
pub parse_port32-format : (p : ℕ) → 0 < p → p ≤ 65535 → parse_port32 (format p) ≡ ok p
unfolding parse_port32
parse_port32-format p h le = rw (parse_int-format 31 p (omega arith)) (ground arith)

empty_iff : (s : Text) → s ≢ [] → is_empty s ≡ false
empty_iff [] h = absurd (h refl)
empty_iff (c ∷ s) h = refl

drop_behind_suc : (xs : Text) (c : ℕ) (ys : Text) → drop (suc (length xs)) (xs ++ c ∷ ys) ≡ ys
drop_behind_suc [] c ys = refl
drop_behind_suc (x ∷ xs) c ys = drop_behind_suc xs c ys

drop_behind : (xs : Text) (c : ℕ) (ys : Text) → drop (length xs + 1) (xs ++ c ∷ ys) ≡ ys
drop_behind xs c ys = rw add-one (drop_behind_suc xs c ys)

-- What is read behind the last dash of a base with a port.
derive_behind :
    (base ds : Text)
    → is_empty base ≡ false
    → ds ≢ []
    → All (λ c. is_digit c ≡ true) ds
    → derive_port_from_name (base ++ b'-' ∷ ds) ≡ parse_port32 ds
unfolding derive_port_from_name
derive_behind [] ds h ne d = cc
derive_behind base [] h ne d = absurd (ne refl)
derive_behind (b ∷ base) (c ∷ ds) h ne d =
    rw (last_index-append b'-' (b ∷ base) (c ∷ ds) (digits-ne-dash (c ∷ ds) d)) (
      ground
        (arith, drop_behind (b ∷ base) b'-' (c ∷ ds), length-append (b ∷ base) (b'-' ∷ c ∷ ds)))

append-ne-nil : (xs : Text) (c : ℕ) (ys : Text) → xs ++ c ∷ ys ≢ []
append-ne-nil [] c ys = cc
append-ne-nil (x ∷ xs) c ys = cc

dash-EndsOk : (s : Text) → s ≢ [] → EndsOk is_dash s → EndsOk is_dash (b'-' ∷ s)
dash-EndsOk [] ne h = absurd (ne refl)
dash-EndsOk (c ∷ s) ne h = h

module _ (lib : NameLib) (dyn : Text) (p : ℕ) where
  abbrev pub lowered : Text
  lowered = map (lower_rune lib.lower_beyond) dyn

  abbrev pub base : Text
  base = build_base_name lowered true

  -- The candidate of the name with the port.
  candidate_lem :
      base ≢ [] → build_base_name (lowered ++ b'-' ∷ format p) true ≡ glue base (format p)
  candidate_lem ne =
      build_base_name-append lowered true (format p) (format_digits p) ∙ rw (empty_iff base ne)

  candidate_trimmed : base ≢ [] → trim is_dash (glue base (format p)) ≡ glue base (format p)
  unfolding trim
  candidate_trimmed ne =
      rw
        (trim_left_of_StartsOk is_dash (glue base (format p)) (
          rw (sym (candidate_lem ne))
            (DashOk-starts _ (build_base_name-DashOk (lowered ++ b'-' ∷ format p) true))))
        (trim_right_of_EndsOk is_dash _ (
          EndsOk-append is_dash (trim_right is_dash base) (b'-' ∷ format p) (cc) (
            dash-EndsOk (format p) (format-ne-nil p) (digits-EndsOk (format p) (format_digits p)))))

  sanitize-name_with_port :
      base ≢ []
      → length dyn ≤ 247
      → p ≤ 65535
      → sanitize_resource_name lib (name_with_port dyn p) ≡ glue base (format p)
  unfolding sanitize_resource_name name_with_port
  sanitize-name_with_port ne short le =
      rw
        (
          map-lower-append lib.lower_beyond dyn (format p) (format_digits p),
          candidate_lem ne,
          candidate_trimmed ne,
        )
        (finalize_of_short lib (glue base (format p)) _ (append-ne-nil _ b'-' (format p)) (
          omega (
            arith,
            length-append (trim_right is_dash base) (b'-' ∷ format p),
            length-trim_right is_dash base,
            length-build_base_name lowered true,
            length-map-lower lib.lower_beyond dyn,
            length-format 4 p,
          )))

  -- The port in the sanitized name of a service is read back, for every port from 1 to 65535, if
  -- the service's name has at most 247 characters and one of them, in lower case, is a letter or a
  -- digit of ASCII.
  pub derive_port_from_name-sanitize :
      base ≢ []
      → length dyn ≤ 247
      → 0 < p
      → p ≤ 65535
      → derive_port_from_name (sanitize_resource_name lib (name_with_port dyn p)) ≡ ok p
  derive_port_from_name-sanitize ne short some_port le = rw (sanitize-name_with_port ne short le) (
      derive_behind (trim_right is_dash base) (format p)
        (trim_right-nonempty base (build_base_name-DashOk lowered true) (empty_iff base ne))
        (format-ne-nil p) (format_digits p)
      ∙ parse_port32-format p some_port le)
