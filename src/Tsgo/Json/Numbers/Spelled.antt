-- ===== src/Tsgo/Json/Numbers/Spelled.antt =====
-- source/fastlint/tsgo/json.cc: `parseNumber` on the spelling of an integer.
use fastlint.Base.{
  ℕ, ◌-◌, ◌<◌, ◌≡◌, ◌⊎◌, refl, Bool, true, not, ◌||◌, [], ◌∷◌, ◌++◌, arith, Bytes, ◌==◌, length,
  length-append, take-length-append,
}
use fastlint.Tsgo.Json.Strings.{ok}
use fastlint.Tsgo.Json.Numbers.{
  is_digit, at_digit, skip_digits, skip_sign, need_digits, fraction, exponent, spelling,
  parse_number,
}

-- The spelling of an integer, as `snprintf("%lld")` gives it: a sign or none, and digits.
abbrev pub AllDigits : Bytes → Type 0
AllDigits [] = Unit
AllDigits (c ∷ s) = (is_digit c ≡ true) × AllDigits s

abbrev pub IsInteger : Bytes → Type 0
IsInteger [] = ⊥
IsInteger (c ∷ []) = is_digit c ≡ true
IsInteger (c ∷ d ∷ s) =
    ((c ≡ b'-') ⊎ (is_digit c ≡ true)) × (is_digit d ≡ true) × AllDigits s × (length s < 62)

-- What may stand behind a number: nothing that would lengthen it.
abbrev pub number_end : Bytes → Bool
number_end [] = true
number_end (c ∷ s) = not (is_digit c || c == b'.' || c == b'e' || c == b'E')

skip_digits-append :
    (s rest : Bytes) → AllDigits s → number_end rest ≡ true → skip_digits (s ++ rest) ≡ rest
unfolding skip_digits
skip_digits-append [] [] h e = refl
skip_digits-append [] (c ∷ rest) h e = ground arith
skip_digits-append (c ∷ s) rest h e = ground (arith, skip_digits-append s rest)

fraction-end : (rest : Bytes) → number_end rest ≡ true → fraction rest ≡ ok [] rest
unfolding fraction
fraction-end [] e = refl
fraction-end (c ∷ rest) e = ground arith

exponent-end : (rest : Bytes) → number_end rest ≡ true → exponent rest ≡ ok [] rest
unfolding exponent
exponent-end [] e = refl
exponent-end (c ∷ rest) e = ground arith

spelling-append : (s rest : Bytes) → length s < 64 → spelling (s ++ rest) rest ≡ ok s rest
unfolding spelling
spelling-append s rest h =
    let e : length (s ++ rest) - length rest ≡ length s = omega (arith, length-append s rest) in
    rw e (rw take-length-append (ground arith))

-- One or more digits and the end of the number, from any start that they belong to.
digits-parsed :
    (c : ℕ) (s rest : Bytes)
    → is_digit c ≡ true
    → AllDigits s
    → number_end rest ≡ true
    → need_digits (c ∷ (s ++ rest)) ≡ ok [] rest
unfolding need_digits at_digit skip_digits
digits-parsed c s rest hc hs e = ground (arith, skip_digits-append s rest)

pub parse_number-append :
    (s rest : Bytes) → IsInteger s → number_end rest ≡ true → parse_number (s ++ rest) ≡ ok s rest
unfolding parse_number skip_sign
parse_number-append [] rest h e = absurd h
parse_number-append (c ∷ []) rest h e = ground (
  arith,
  digits-parsed c [] rest,
  fraction-end rest,
  exponent-end rest,
  spelling-append (c ∷ []) rest,
)
parse_number-append (c ∷ d ∷ s) rest h e = ground (
  arith,
  digits-parsed c (d ∷ s) rest,
  digits-parsed d s rest,
  fraction-end rest,
  exponent-end rest,
  spelling-append (c ∷ d ∷ s) rest,
)
