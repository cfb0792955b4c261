-- ===== src/Tsgo/Json/Strings.antt =====
-- source/fastlint/tsgo/json.cc: `parseString`, and `appendJsonString`.
-- The parser's position is the text that is left; an error keeps its message and not its offset. In
-- `appendUtf8` the bits that `|` joins are disjoint, so that it is `+`.
pub mod Progress
pub mod RoundTrip
use fastlint.Base.{
  ℕ, zero, suc, ◌+◌, ◌-◌, ◌*◌, ◌/◌, ◌%◌, not, ◌&&◌, ◌||◌, Option, none, some, [], ◌∷◌, ◌++◌, Bytes,
  codes, ltb, leb, ◌==◌, if◌then◌else◌, get_or,
}

pub data Error : Type 0 where
  unterminated_string control_character unterminated_escape malformed_escape unknown_escape : Error
  malformed_number number_too_long nesting_too_deep unexpected_token : Error
  unexpected_character unexpected_end expected_comma_or_bracket expected_member : Error
  expected_colon expected_comma_or_brace trailing_characters : Error

-- A value with the text that is left, an error, or the model's fuel run out.
pub data Result {ℓ} (A : Type ℓ) : Type ℓ where
  ok : A → Bytes → Result A
  fail : Error → Result A
  out_of_fuel : Result A

infixl 5 ◌>>=◌
abbrev pub ◌>>=◌ {ℓ κ} : {A : Type ℓ} {B : Type κ} → Result A → (A × Bytes → Result B) → Result B
ok a s >>= f = f (a, s)
fail e >>= f = fail e
out_of_fuel >>= f = out_of_fuel

abbrev pub backslash : ℕ
backslash = 92

abbrev pub quote : ℕ
quote = 34

unfoldable pub append_utf8 : ℕ → Bytes
append_utf8 cp =
    if ltb cp 0x80
    then cp ∷ []
    else if ltb cp 0x800
    then (0xC0 + cp / 64) ∷ (0x80 + cp % 64) ∷ []
    else if ltb cp 0x10000
    then (0xE0 + cp / 4096) ∷ (0x80 + cp / 64 % 64) ∷ (0x80 + cp % 64) ∷ []
    else (0xF0 + cp / 262144)
      ∷ (0x80 + cp / 4096 % 64)
      ∷ (0x80 + cp / 64 % 64)
      ∷ (0x80 + cp % 64)
      ∷ []

pub hex_digit : ℕ → Option ℕ
hex_digit c =
    if leb b'0' c && leb c b'9'
    then some (c - b'0')
    else if leb b'a' c && leb c b'f'
    then some (c - b'a' + 10)
    else if leb b'A' c && leb c b'F'
    then some (c - b'A' + 10)
    else none

-- Four digits, or nothing consumed.
pub parse_hex4 : Bytes → Option (ℕ × Bytes)
parse_hex4 (a ∷ b ∷ c ∷ d ∷ s) = elim (hex_digit a) [
  | none ↦ none
  | some p ↦ elim (hex_digit b) [
    | none ↦ none
    | some q ↦ elim (hex_digit c) [
      | none ↦ none
      | some r ↦ elim (hex_digit d) [
        | none ↦ none
        | some t ↦ some (((p * 16 + q) * 16 + r) * 16 + t, s)
      ]
    ]
  ]
]
parse_hex4 _ = none

-- One round of the loop in `parseString`: the closing quote, bytes to append, or an error.
pub data Step : Type 0 where
  closed : Bytes → Step
  took : Bytes → Bytes → Step
  bad : Error → Step

-- The second half of a surrogate pair, or `none` and the position as it was.
pub low_surrogate : Bytes → Option (ℕ × Bytes)
low_surrogate (a ∷ b ∷ s) =
    if a == backslash && b == b'u'
    then elim (parse_hex4 s) [
      | none ↦ none
      | some (low, r) ↦ if ltb low 0xDC00 || leb 0xE000 low then none else some (low, r)
    ]
    else none
low_surrogate _ = none

-- The code point that a `\u` escape stands for; half a pair becomes U+FFFD.
pub surrogate : ℕ → Bytes → Step
surrogate cp s =
    if leb 0xD800 cp && ltb cp 0xDC00
    then elim (low_surrogate s) [
      | none ↦ took (append_utf8 0xFFFD) s
      | some (low, r) ↦ took (append_utf8 (0x10000 + (cp - 0xD800) * 1024 + (low - 0xDC00))) r
    ]
    else if leb 0xDC00 cp && ltb cp 0xE000
    then took (append_utf8 0xFFFD) s
    else took (append_utf8 cp) s

pub unicode : Bytes → Step
unicode s = elim (parse_hex4 s) [ none ↦ bad malformed_escape | some (cp, r) ↦ surrogate cp r ]

-- The switch on the character behind a backslash.
pub escape : Bytes → Step
escape [] = bad unterminated_escape
escape (e ∷ s) =
    if e == quote || e == backslash || e == b'/'
    then took (e ∷ []) s
    else if e == b'b'
    then took (8 ∷ []) s
    else if e == b'f'
    then took (12 ∷ []) s
    else if e == b'n'
    then took (10 ∷ []) s
    else if e == b'r'
    then took (13 ∷ []) s
    else if e == b't'
    then took (9 ∷ []) s
    else if e == b'u'
    then unicode s
    else bad unknown_escape

unfoldable pub step : Bytes → Step
step [] = bad unterminated_string
step (c ∷ s) =
    if c == quote
    then closed s
    else if ltb c 0x20
    then bad control_character
    else if c == backslash
    then escape s
    else took (c ∷ []) s

abbrev pub after_step : (Bytes → Bytes → Result Bytes) → Bytes → Step → Result Bytes
after_step next out (closed r) = ok out r
after_step next out (took bytes r) = next (out ++ bytes) r
after_step next out (bad e) = fail e

-- The loop of `parseString`, behind the opening quote.
unfoldable pub string_loop : ℕ → Bytes → Bytes → Result Bytes
string_loop zero out s = out_of_fuel
string_loop (suc fuel) out s = after_step (string_loop fuel) out (step s)

abbrev hex_table : Bytes
hex_table = codes "0123456789abcdef"

-- What `appendJsonString` writes for one character.
unfoldable pub escape_char : ℕ → Bytes
escape_char c =
    if c == quote
    then backslash ∷ quote ∷ []
    else if c == backslash
    then backslash ∷ backslash ∷ []
    else if c == 10
    then backslash ∷ b'n' ∷ []
    else if c == 13
    then backslash ∷ b'r' ∷ []
    else if c == 9
    then backslash ∷ b't' ∷ []
    else if c == 8
    then backslash ∷ b'b' ∷ []
    else if c == 12
    then backslash ∷ b'f' ∷ []
    else if ltb c 0x20
    then backslash
      ∷ b'u'
      ∷ b'0'
      ∷ b'0'
      ∷ get_or hex_table (c / 16 % 16) 0
      ∷ get_or hex_table (c % 16) 0
      ∷ []
    else c ∷ []

unfoldable pub escape_all : Bytes → Bytes
escape_all [] = []
escape_all (c ∷ s) = escape_char c ++ escape_all s

unfoldable pub append_json_string : Bytes → Bytes
append_json_string text = quote ∷ (escape_all text ++ quote ∷ [])
