-- ===== src/Syntax/Scanner/Strings.antt =====
-- source/fastlint/syntax/scanner.cc: `scanString` up to the token.
use fastlint.Base.{
  ℕ, ◌+◌, ◌-◌, Bool, true, false, not, ◌&&◌, ◌||◌, [], ◌∷◌, Bytes, codes, ltb, ◌==◌, if◌then◌else◌,
  take, drop, starts_with, is_empty,
}
use fastlint.Syntax.Scanner.{
  Reader, advance, error, note_line_start, see_line_break, note_octal, span, is_hex_digit,
}
use fastlint.Syntax.Scanner.Numbers.{is_octal_digit}
use fastlint.Syntax.Scanner.Loop.{Round, again, done, loop}

-- An error from the token's start up to the position.
abbrev pub error_up_to : ℕ → ℕ → Reader → Reader
error_up_to code start r = error code start (r.pos - start) r

-- Up to that many digits, each of which is missed with an error.
unfoldable pub fixed_escape : ℕ → ℕ → ℕ → Bytes → Reader → Reader
unfolding span
fixed_escape code count start u r =
    let n = span is_hex_digit (take count u) in
    let s = advance n r in if ltb n count then error_up_to code start s else s

-- Behind `\u{`.
unfoldable pub braced_string_escape : ℕ → Bytes → Reader → Reader
unfolding span
braced_string_escape start u r =
    let n = span is_hex_digit u in
    let rest = drop n u in
    let s = advance n r in
    let stray = not (is_empty rest) && not (starts_with rest (codes "}")) in
    let reported = if stray then error_up_to 1126 start s else s in
    let closed = if starts_with rest (codes "}") then advance 1 reported else reported in
    if n == 0 then error_up_to 1126 start closed else closed

unfoldable pub string_unicode : ℕ → Bytes → Reader → Reader
unfolding braced_string_escape fixed_escape
string_unicode start u r =
    if starts_with u (codes "{")
    then braced_string_escape start (drop 1 u) (advance 1 r)
    else fixed_escape 1126 4 start u r

unfoldable pub octal_escape : ℕ → Bytes → Reader → Reader
unfolding span
octal_escape e u r =
    let s = note_octal (advance 1 r) in
    if e == b'0' then s else advance (span is_octal_digit (take 2 u)) s

-- Behind the backslash, before the byte `e`.
unfoldable pub string_escape : ℕ → ℕ → Bytes → Reader → Reader
unfolding fixed_escape string_unicode octal_escape
string_escape start e u r =
    let n = if starts_with u (10 ∷ []) then 2 else 1 in
    if e == 13
    then see_line_break (note_line_start (r.pos + n) (advance n r))
    else if e == 10
    then see_line_break (advance 1 (note_line_start (r.pos + 1) r))
    else if e == b'x'
    then fixed_escape 1125 2 start u (advance 1 r)
    else if e == b'u'
    then string_unicode start u (advance 1 r)
    else if is_octal_digit e
    then octal_escape e u r
    else advance 1 r

-- A round of the loop behind the quote; the flag is `terminated`.
unfoldable pub string_round : ℕ → ℕ → Bytes → Reader → Bool → Round Bool
unfolding string_escape
string_round quote start [] r f = done (error_up_to 1002 start r) f
string_round quote start (c ∷ t) r f =
    if c == 10 || c == 13
    then done (error_up_to 1002 start r) f
    else if c == quote
    then done (advance 1 r) true
    else if c == 92
    then elim t [
      | [] ↦ done (error_up_to 1002 start (advance 1 r)) f
      | e ∷ u ↦ again (string_escape start e u (advance 1 r)) false
    ]
    else again (advance 1 r) f

-- The reader behind a string and whether the string is terminated.
unfoldable pub scan_string : Bytes → ℕ → Reader → Reader × Bool
unfolding string_round loop
scan_string source start r = elim (drop r.pos source) [
  | [] ↦ (r, false)
  | quote ∷ t ↦ loop (string_round quote start) 0 t (advance 1 r) false
]
