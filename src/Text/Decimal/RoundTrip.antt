-- ===== src/Text/Decimal/RoundTrip.antt =====
-- A printed number is read back.
use pangolin_kube_controller.Prelude.{
  ℕ, zero, suc, ◌+◌, ◌-◌, ◌*◌, ◌/◌, ◌%◌, ◌^◌, ◌≤◌, ◌<◌, ◌≡◌, refl, ◌≢◌, true, some, [], ◌∷◌, arith,
  length, pos, All,
}
use pangolin_kube_controller.Text.{Text}
use pangolin_kube_controller.Text.Decimal.{emit, format, is_digit, digits_value, parse_int}

digits_value-emit :
    (fuel n : ℕ) (out : Text) → n < fuel → digits_value 0 (emit fuel n out) ≡ digits_value n out
unfolding emit digits_value
digits_value-emit zero n out h = elim h [ ]
digits_value-emit (suc fuel) n out h =
    ground (arith, digits_value-emit fuel (n / 10) ((b'0' + n % 10) ∷ out))

IsDigit-emit :
    (fuel n : ℕ) (out : Text)
    → All (λ c. is_digit c ≡ true) out
    → All (λ c. is_digit c ≡ true) (emit fuel n out)
unfolding emit
IsDigit-emit zero n out h = h
IsDigit-emit (suc fuel) n out h = ground (arith, IsDigit-emit fuel (n / 10) ((b'0' + n % 10) ∷ out))

emit-ne-nil : (fuel n : ℕ) (c : ℕ) (out : Text) → emit fuel n (c ∷ out) ≢ []
unfolding emit
emit-ne-nil zero n c out = cc
emit-ne-nil (suc fuel) n c out = ground (arith, emit-ne-nil fuel (n / 10) (b'0' + n % 10) (c ∷ out))

abbrev pub tens : ℕ → ℕ
tens zero = 1
tens (suc k) = 10 * tens k

-- A number below 10 ^ (k + 1) has at most k + 1 digits.
length-emit :
    (k fuel n : ℕ) (out : Text) → n < 10 * tens k → length (emit fuel n out) ≤ suc k + length out
unfolding emit
length-emit k zero n out h = omega arith
length-emit zero (suc fuel) n out h = ground arith
length-emit (suc k) (suc fuel) n out h =
    ground (arith, length-emit k fuel (n / 10) ((b'0' + n % 10) ∷ out))

pub length-format : (k n : ℕ) → n < 10 * tens k → length (format n) ≤ suc k
unfolding format
length-format k n h = omega (arith, length-emit k (suc n) n [] h)

pub format_digits : (n : ℕ) → All (λ c. is_digit c ≡ true) (format n)
unfolding format
format_digits n = IsDigit-emit (suc n) n [] tt

pub format-ne-nil : (n : ℕ) → format n ≢ []
unfolding format
format-ne-nil n = ground (arith, emit-ne-nil n (n / 10) (b'0' + n % 10) [])

pub digits_value-format : (n : ℕ) → digits_value 0 (format n) ≡ some n
unfolding format digits_value
digits_value-format n = digits_value-emit (suc n) n [] (omega arith)

parse_int_of_digits :
    (w n : ℕ) (s : Text)
    → n ≤ 2 ^ w - 1
    → s ≢ []
    → All (λ c. is_digit c ≡ true) s
    → digits_value 0 s ≡ some n
    → parse_int w s ≡ some (pos n)
unfolding parse_int
parse_int_of_digits w n [] le ne h e = absurd (ne refl)
parse_int_of_digits w n (c ∷ s) le ne h e = ground arith

-- A number in range is read back from its print.
pub parse_int-format : (w n : ℕ) → n ≤ 2 ^ w - 1 → parse_int w (format n) ≡ some (pos n)
parse_int-format w n h =
    parse_int_of_digits w n (format n) h (format-ne-nil n) (format_digits n) (digits_value-format n)
