-- ===== src/Lint/Regex/Escape.antt =====
-- source/fastlint/lint/regex.cc: the escapes of a pattern, and UTF-8.
use fastlint.Base.{
  ℕ, zero, suc, ◌+◌, ◌-◌, ◌*◌, ◌/◌, ◌%◌, Bool, false, ◌&&◌, ◌||◌, Option, none, some, [], ◌∷◌,
  Bytes, codes, leb, ltb, ◌==◌, if◌then◌else◌,
}
use fastlint.Lint.Regex.{is_digit}

abbrev pub mem : ℕ → Bytes → Bool
mem c [] = false
mem c (d ∷ s) = c == d || mem c s

unfoldable pub hex_value : ℕ → Option ℕ
hex_value c =
    if is_digit c
    then some (c - b'0')
    else if leb b'a' c && leb c b'f'
    then some (c - b'a' + 10)
    else if leb b'A' c && leb c b'F'
    then some (c - b'A' + 10)
    else none

-- `0xC0 | (cp >> 6)` is a sum, the bits of the two sides being apart.
unfoldable pub encode_utf8 : ℕ → Bytes
encode_utf8 cp =
    if ltb cp 0x80
    then cp ∷ []
    else if ltb cp 0x800
    then (0xC0 + cp / 64) ∷ (0x80 + cp % 64) ∷ []
    else if ltb cp 0x10000
    then (0xE0 + cp / 4096) ∷ (0x80 + cp / 64 % 64) ∷ (0x80 + cp % 64) ∷ []
    else (0xF0 + cp / 262144)
      ∷ (0x80 + cp / 4096 % 64)
      ∷ (0x80 + cp / 64 % 64)
      ∷ (0x80 + cp % 64)
      ∷ []

-- `\xXX`: two digits, or the letter itself.
unfoldable pub hex2 : Bytes → ℕ × Bytes
hex2 (a ∷ b ∷ s) = elim (hex_value a) [
  | none ↦ (b'x', a ∷ b ∷ s)
  | some p ↦ elim (hex_value b) [ none ↦ (b'x', a ∷ b ∷ s) | some q ↦ (p * 16 + q, s) ]
]
hex2 s = (b'x', s)

-- The digits of a `\u{...}`, up to one that takes the value past the last code point: the value,
-- if there is one, and the text behind it.
abbrev pub digit_after : ℕ → Option ℕ → ℕ → ℕ
digit_after base none h = h
digit_after base (some v) h = v * base + h

unfoldable pub braced_digits : Option ℕ → Bytes → Option ℕ × Bytes
braced_digits value [] = (value, [])
braced_digits value (c ∷ s) = elim (hex_value c) [
  | none ↦ (value, c ∷ s)
  | some h ↦
      let next = digit_after 16 value h in
      let rest = braced_digits (some next) s in if ltb 0x10FFFF next then (some next, s) else rest
]

-- The brace that ends a `\u{...}`.
unfoldable pub close_brace : Option ℕ → Bytes → Option (ℕ × Bytes)
close_brace (some v) (c ∷ s) = if leb v 0x10FFFF && c == b'}' then some (v, s) else none
close_brace _ _ = none

unfoldable pub braced : Bytes → Option (ℕ × Bytes)
braced s = let (value, r) = braced_digits none s in close_brace value r

unfoldable pub hex4 : Bytes → ℕ → ℕ → Bytes → ℕ × Bytes
hex4 start zero value s = (value, s)
hex4 start (suc left) value [] = (b'u', start)
hex4 start (suc left) value (c ∷ s) = elim (hex_value c) [
  | none ↦ (b'u', start)
  | some h ↦ hex4 start left (value * 16 + h) s
]

-- `\u{...}` and `\uXXXX`, or the letter itself.
unfoldable pub unicode : Bytes → ℕ × Bytes
unicode [] = (b'u', [])
unicode (c ∷ s) =
    if c == b'{'
    then elim (braced s) [ none ↦ (b'u', c ∷ s) | some (v, r) ↦ (v, r) ]
    else hex4 (c ∷ s) 4 0 (c ∷ s)

-- The character an escape denotes, none where the source has -1.
unfoldable pub escape_char : ℕ → Bytes → Option ℕ × Bytes
escape_char c s =
    if c == b'n'
    then (some 10, s)
    else if c == b'r'
    then (some 13, s)
    else if c == b't'
    then (some 9, s)
    else if c == b'f'
    then (some 12, s)
    else if c == b'v'
    then (some 11, s)
    else if c == b'0'
    then (some 0, s)
    else if c == b'x'
    then (let (v, r) = hex2 s in (some v, r))
    else if c == b'u'
    then (let (v, r) = unicode s in (some v, r))
    else if mem c (codes "dDwWsSbB")
    then (none, s)
    else (some c, s)
