-- ===== src/Syntax/Scanner/Numbers.antt =====
-- source/fastlint/syntax/scanner.cc: `scanNumber` up to the token.
use fastlint.Base.{
  ℕ, ◌-◌, Bool, true, false, ◌&&◌, ◌||◌, [], ◌∷◌, Bytes, codes, leb, ◌==◌, if◌then◌else◌, drop,
  starts_with,
}
use fastlint.Syntax.Scanner.{
  Reader, advance, error, span, note_octal, is_digit, is_hex_digit, is_ascii_identifier_start,
}
use fastlint.Syntax.Scanner.Loop.{Round, again, done, loop}

-- The variables of `scanDigits`.
pub record Digits : Type 0 where
  pub any_digit : Bool
  pub last_was_separator : Bool

-- A test of the first byte, false at the end.
abbrev pub front : (ℕ → Bool) → Bytes → Bool
front p [] = false
front p (c ∷ s) = p c

unfoldable pub digit_round : (ℕ → Bool) → Bytes → Reader → Digits → Round Digits
digit_round pred [] r d = done r d
digit_round pred (c ∷ t) r d =
    let repeated = if d.last_was_separator then error 0 r.pos 1 r else r in
    let s = advance 1 repeated in
    if c == b'_'
    then again (if front pred t then s else error 0 (s.pos - 1) 1 s)
        (record d { last_was_separator = true })
    else if pred c
    then again (advance 1 r) (record { any_digit = true; last_was_separator = false })
    else done r (record d { last_was_separator = false })

-- `scanDigits`: whether there was a digit.
unfoldable pub scan_digits : (ℕ → Bool) → Bytes → Reader → Reader × Bool
unfolding digit_round loop
scan_digits pred source r =
    let (s, d) =
      loop (digit_round pred) 0 (drop r.pos source) r
        (record { any_digit = false; last_was_separator = false }) in
    (s, d.any_digit)

abbrev pub is_octal_digit : ℕ → Bool
is_octal_digit c = leb b'0' c && leb c b'7'

abbrev pub is_binary_digit : ℕ → Bool
is_binary_digit c = c == b'0' || c == b'1'

-- `0x`, `0o` and `0b`.
unfoldable pub prefixed : (ℕ → Bool) → ℕ → Bytes → ℕ → Reader → Reader
unfolding scan_digits
prefixed pred code source start r =
    let (s, any_digit) = scan_digits pred source (advance 2 r) in
    if any_digit then s else error code start 2 s

-- A leading zero with a digit behind it: legacy octal, or a decimal such as 08.
unfoldable pub legacy_number : Bytes → Reader → Reader
unfolding scan_digits span
legacy_number source r =
    let (s, any_digit) = scan_digits is_octal_digit source r in
    let rest = drop s.pos source in
    if front (λ c. c == b'8' || c == b'9') rest
    then advance (span is_digit rest) s
    else note_octal s

abbrev pub is_letter : ℕ → ℕ → ℕ → Bool
is_letter lower upper c = c == lower || c == upper

unfoldable pub number_head : Bytes → ℕ → Reader → Reader
unfolding scan_digits prefixed legacy_number
number_head source start r =
    let bs = drop r.pos source in
    let next = drop 1 bs in
    let decimal = (scan_digits is_digit source r).0 in
    if starts_with bs (codes "0")
    then if front (is_letter b'x' b'X') next
      then prefixed is_hex_digit 1125 source start r
      else if front (is_letter b'o' b'O') next
      then prefixed is_octal_digit 1178 source start r
      else if front (is_letter b'b' b'B') next
      then prefixed is_binary_digit 1177 source start r
      else if front is_digit next
      then legacy_number source r
      else decimal
    else decimal

unfoldable pub number_fraction : Bytes → Reader → Reader
unfolding scan_digits
number_fraction source r =
    let bs = drop r.pos source in
    if front (λ c. c == b'.') bs && front is_digit (drop 1 bs)
    then (scan_digits is_digit source (advance 1 r)).0
    else r

abbrev pub skip_if : (ℕ → Bool) → Bytes → Reader → Reader
skip_if p source r = if front p (drop r.pos source) then advance 1 r else r

-- Without digits the position goes back; the diagnostics stay.
unfoldable pub number_exponent : Bytes → Reader → Reader
unfolding scan_digits
number_exponent source r =
    let (s, any_digit) =
      scan_digits is_digit source (skip_if (λ c. c == b'+' || c == b'-') source (advance 1 r)) in
    if front (is_letter b'e' b'E') (drop r.pos source)
    then if any_digit then s else record s { pos = r.pos }
    else r

-- The digits of a number before the `n` of a `bigint`.
unfoldable pub number_digits : Bytes → ℕ → Reader → Reader
unfolding number_head number_fraction number_exponent
number_digits source start r =
    number_exponent source (number_fraction source (number_head source start r))

abbrev pub is_big_int : Bytes → Reader → Bool
is_big_int source r = front (λ c. c == b'n') (drop r.pos source)

-- The number ends where a name follows; that name becomes a token of its own.
abbrev pub name_follows : Bytes → Reader → Bool
name_follows source r = front (λ c. is_ascii_identifier_start c || c == 92) (drop r.pos source)
