-- ===== src/Tsgo/Json/Strings/RoundTrip.antt =====
-- source/fastlint/tsgo/json.cc: `parseString` after `appendJsonString`.
use fastlint.Base.{
  ℕ, zero, suc, ◌≤◌, ◌<◌, ◌≡◌, some, [], ◌∷◌, ◌++◌, append_assoc, append-nil, arith, Bytes, length,
  get_or, drop, ◌/◌, ◌%◌,
}
use fastlint.Tsgo.Json.Strings.{
  ok, quote, append_utf8, hex_digit, parse_hex4, took, surrogate, unicode, escape, step,
  string_loop, hex_table, escape_char, escape_all, append_json_string,
}

hex_digit-table : (n : ℕ) → n < 16 → hex_digit (get_or hex_table n 0) ≡ some n
unfolding hex_digit
hex_digit-table n h = ground arith

step-escape_char : (c : ℕ) (rest : Bytes) → step (escape_char c ++ rest) ≡ took (c ∷ []) rest
unfolding step escape_char escape unicode parse_hex4 surrogate append_utf8
step-escape_char c rest =
    ground (arith, hex_digit-table (c / 16 % 16), hex_digit-table (c % 16), hex_digit-table 0)

pub string_loop-escape_all :
    (s rest out : Bytes) (fuel : ℕ)
    → length s < fuel
    → string_loop fuel out (escape_all s ++ quote ∷ rest) ≡ ok (out ++ s) rest
unfolding string_loop escape_all
string_loop-escape_all s rest out zero h = absurd (omega arith)
string_loop-escape_all [] rest out (suc fuel) h = unfold step in rw append-nil
string_loop-escape_all (c ∷ s) rest out (suc fuel) h = rw append_assoc (
    rw step-escape_char
      (rw (string_loop-escape_all s rest (out ++ c ∷ []) fuel (omega arith)) (rw append_assoc)))

abbrev pub All {ℓ} : (ℕ → Type ℓ) → Bytes → Type ℓ
All P [] = Unit
All P (c ∷ s) = P c × All P s

All-append : (P : ℕ → Type 0) (s t : Bytes) → All P s → All P t → All P (s ++ t)
All-append P [] t hs ht = ht
All-append P (c ∷ s) t (hc, hs) ht = (hc, All-append P s t hs ht)

hex_table-printable : (n : ℕ) → n < 16 → 0x20 ≤ get_or hex_table n 0
hex_table-printable n h = ground arith

escape_char-printable : (c : ℕ) → All (λ d. 0x20 ≤ d) (escape_char c)
unfolding escape_char
escape_char-printable c =
    ground (arith, hex_table-printable (c / 16 % 16), hex_table-printable (c % 16))

escape_all-printable : (s : Bytes) → All (λ d. 0x20 ≤ d) (escape_all s)
unfolding escape_all
escape_all-printable [] = tt
escape_all-printable (c ∷ s) =
    All-append _ (escape_char c) (escape_all s) (escape_char-printable c) (escape_all-printable s)

-- Whatever its bytes, a text that is quoted and read back, with any text behind it and the opening
-- quote passed, is read as itself up to the closing quote; and its quoted form, quotes included,
-- holds no control character.
pub append_json_string-trip :
    (s rest : Bytes) (fuel : ℕ)
    → length s < fuel
    → (string_loop fuel [] (drop 1 (append_json_string s ++ rest)) ≡ ok s rest)
      × All (λ d. 0x20 ≤ d) (append_json_string s)
unfolding append_json_string
append_json_string-trip s rest fuel h = (
  rw (append_assoc (escape_all s) (quote ∷ []) rest) (string_loop-escape_all s rest [] fuel h),
  (omega arith, All-append _ (escape_all s) (quote ∷ []) (escape_all-printable s) (omega arith)),
)
