-- ===== src/Text/Decimal.antt =====
-- Numbers in decimal: `%d` of fmt, and ParseInt and Atoi of strconv at base 10.
pub mod RoundTrip
use pangolin_kube_controller.Prelude.{
  ℕ, zero, suc, ◌+◌, ◌-◌, ◌*◌, ◌/◌, ◌%◌, ◌^◌, Bool, ◌&&◌, Option, none, some, [], ◌∷◌, ltb, leb,
  ◌==◌, if◌then◌else◌, ℤ, pos, neg_ℕ,
}
use pangolin_kube_controller.Text.{Text}

-- One round for each digit, the last digit first; the fuel bounds the rounds.
emit : ℕ → ℕ → Text → Text
emit zero n out = out
emit (suc fuel) n out =
    let out' = (b'0' + n % 10) ∷ out in
    let rest = emit fuel (n / 10) out' in if ltb n 10 then out' else rest

-- fmt.Sprintf("%d", n) of a number that is not negative
unfoldable pub format : ℕ → Text
unfolding emit
format n = emit (suc n) n []

abbrev pub is_digit : ℕ → Bool
is_digit c = leb b'0' c && leb c b'9'

unfoldable pub digits_value : ℕ → Text → Option ℕ
digits_value n [] = some n
digits_value n (c ∷ s) = if is_digit c then digits_value (n * 10 + (c - b'0')) s else none

abbrev in_range : ℕ → (ℕ → ℤ) → Option ℕ → Option ℤ
in_range max sign none = none
in_range max sign (some n) = if leb n max then some (sign n) else none

parse_uint : Text → Option ℕ
parse_uint [] = none
parse_uint (c ∷ s) = digits_value 0 (c ∷ s)

-- strconv.ParseInt(s, 10, w + 1): a sign is accepted, and the value is in the range of an integer
-- of w + 1 bits.
unfoldable pub parse_int : ℕ → Text → Option ℤ
unfolding parse_uint digits_value
parse_int w [] = none
parse_int w (c ∷ s) =
    if c == b'+'
    then in_range (2 ^ w - 1) pos (parse_uint s)
    else if c == b'-'
    then in_range (2 ^ w) neg_ℕ (parse_uint s)
    else in_range (2 ^ w - 1) pos (parse_uint (c ∷ s))

-- strconv.Atoi, where an int has 64 bits
abbrev pub atoi : Text → Option ℤ
atoi = parse_int 63
