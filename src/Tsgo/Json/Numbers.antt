-- ===== src/Tsgo/Json/Numbers.antt =====
-- source/fastlint/tsgo/json.cc: `parseNumber`, up to its call of `strtod`.
pub mod Spelled
use fastlint.Base.{
  ℕ, zero, suc, ◌+◌, ◌-◌, ◌≤◌, ◌<◌, ◌≡◌, refl, Bool, true, false, ◌&&◌, ◌||◌, not, [], ◌∷◌, ◌++◌,
  append_assoc, arith, Bytes, leb, ltb, ◌==◌, if◌then◌else◌, length, length-append, take,
}
use fastlint.Tsgo.Json.Strings.{Error, Result, ok, fail, ◌>>=◌, malformed_number, number_too_long}

abbrev pub is_digit : ℕ → Bool
is_digit c = leb b'0' c && leb c b'9'

-- `peek() >= '0' && peek() <= '9'`: no digit stands past the end.
unfoldable pub at_digit : Bytes → Bool
at_digit [] = false
at_digit (c ∷ s) = is_digit c

-- The loops over digits.
unfoldable pub skip_digits : Bytes → Bytes
skip_digits [] = []
skip_digits (c ∷ s) = if is_digit c then skip_digits s else c ∷ s

unfoldable pub skip_sign : Bytes → Bytes
skip_sign [] = []
skip_sign (c ∷ s) = if c == b'-' then s else c ∷ s

unfoldable pub skip_exponent_sign : Bytes → Bytes
skip_exponent_sign [] = []
skip_exponent_sign (c ∷ s) = if c == b'+' || c == b'-' then s else c ∷ s

-- One or more digits.
unfoldable pub need_digits : Bytes → Result Bytes
need_digits s = if at_digit s then ok [] (skip_digits s) else fail malformed_number

unfoldable pub fraction : Bytes → Result Bytes
fraction [] = ok [] []
fraction (c ∷ s) = if c == b'.' then need_digits s else ok [] (c ∷ s)

unfoldable pub exponent : Bytes → Result Bytes
exponent [] = ok [] []
exponent (c ∷ s) =
    if c == b'e' || c == b'E' then need_digits (skip_exponent_sign s) else ok [] (c ∷ s)

-- The bytes from `start` to the position, which must fit a buffer of 64 bytes with its end mark.
unfoldable pub spelling : Bytes → Bytes → Result Bytes
spelling start s =
    let len = length start - length s in
    if leb 64 len then fail number_too_long else ok (take len start) s

unfoldable pub parse_number : Bytes → Result Bytes
parse_number start = do
  (_, s) ← need_digits (skip_sign start)
  (_, t) ← fraction s
  (_, u) ← exponent t
  spelling start u
