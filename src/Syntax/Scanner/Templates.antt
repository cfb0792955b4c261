-- ===== src/Syntax/Scanner/Templates.antt =====
-- source/fastlint/syntax/scanner.h, scanner.cc: `ScanMode`, and `scanTemplate`, `scanRegex`,
-- `scanJsxText` and `scanJsxIdentifier` up to the token.
use fastlint.Base.{
  ℕ, suc, ◌+◌, Bool, true, false, not, ◌&&◌, ◌||◌, Option, none, some, [], ◌∷◌, Bytes, codes, ◌==◌,
  if◌then◌else◌, drop, starts_with,
}
use mathlib.Core.Option
use fastlint.Syntax.Scanner.{
  Reader, TokenKind, no_substitution_template_literal, template_head, template_middle,
  template_tail, template_invalid, peek_char, char_bytes, advance, error, note_line_start,
  see_line_break, span, is_ascii_identifier_part,
}
use fastlint.Syntax.Scanner.Skip.{is_separator}
use fastlint.Syntax.Scanner.Words.{identifier_chars}
use fastlint.Syntax.Scanner.Numbers.{front}
use fastlint.Syntax.Scanner.Strings.{error_up_to}
use fastlint.Syntax.Scanner.Loop.{Round, again, done, loop}

pub data ScanMode : Type 0 where
  normal template_middle_mode template_tail_mode jsx_text_mode jsx_identifier_mode : ScanMode
  single_greater_than : ScanMode

-- How a token ends.
pub record Ended : Type 0 where
  pub kind : TokenKind
  pub unterminated : Bool

abbrev pub ended : TokenKind → Bool → Ended
ended kind unterminated = record { kind = kind; unterminated = unterminated }

-- The kinds at the end of the file, at a backtick and at `${`.
abbrev pub cut_kind : ScanMode → TokenKind
cut_kind normal = no_substitution_template_literal
cut_kind _ = template_invalid

abbrev pub backtick_kind : ScanMode → TokenKind
backtick_kind normal = no_substitution_template_literal
backtick_kind template_tail_mode = template_tail
backtick_kind _ = template_middle

abbrev pub substitution_kind : ScanMode → TokenKind
substitution_kind normal = template_head
substitution_kind _ = template_middle

unfoldable pub template_round : ScanMode → ℕ → Bytes → Reader → Ended → Round Ended
template_round mode start [] r e = done (error_up_to 1160 start r) (ended (cut_kind mode) true)
template_round mode start (c ∷ t) r e =
    let s = see_line_break r in
    let n = if starts_with t (10 ∷ []) then 2 else 1 in
    if c == b'`'
    then done (advance 1 r) (ended (backtick_kind mode) false)
    else if c == 92 && front (λ d. true) t
    then again (advance 2 r) e
    else if c == b'$' && starts_with t (codes "{")
    then done (advance 2 r) (ended (substitution_kind mode) false)
    else if c == 10
    then again (advance 1 (note_line_start (r.pos + 1) s)) e
    else if c == 13
    then again (advance n (note_line_start (r.pos + n) s)) e
    else again (advance 1 r) e

abbrev pub template_start : ScanMode → Reader → Reader
template_start normal r = r
template_start _ r = advance 1 r

-- In the middle and tail modes the token has the `}` that closed the substitution.
unfoldable pub scan_template : Bytes → ℕ → ScanMode → Reader → Reader × Ended
unfolding template_round loop
scan_template source start mode r =
    let s = template_start mode r in
    loop (template_round mode start) 0 (drop s.pos source) s (ended template_invalid true)

-- The bytes behind the leading slash up to the closing one, none for a division. A backslash before
-- the end takes the position past it, where the loop ends.
unfoldable pub regex_body : Bool → Bytes → Option ℕ
unfolding peek_char
regex_body in_class [] = none
regex_body in_class (c ∷ []) = if c == b'/' && not in_class then some 1 else none
regex_body in_class (c ∷ d ∷ u) =
    let escaped = Option.map (λ n. suc (suc n)) (regex_body in_class u) in
    let opened = Option.map suc (regex_body true (d ∷ u)) in
    let closed = Option.map suc (regex_body false (d ∷ u)) in
    let on = Option.map suc (regex_body in_class (d ∷ u)) in
    if c == 10 || c == 13 || is_separator (peek_char (c ∷ d ∷ u))
    then none
    else if c == 92
    then escaped
    else if c == b'['
    then opened
    else if c == b']'
    then closed
    else if c == b'/' && not in_class
    then some 1
    else on

-- The length of a regular expression literal with its slashes and flags.
unfoldable pub scan_regex : Bytes → Option ℕ
unfolding regex_body span
scan_regex bs = elim (regex_body false (drop 1 bs)) [
  | none ↦ none
  | some n ↦ some (1 + n + span is_ascii_identifier_part (drop (1 + n) bs))
]

unfoldable pub jsx_text_round : Bytes → Reader → Bool → Round Bool
jsx_text_round [] r f = done r f
jsx_text_round (c ∷ t) r f =
    if c == b'<' || c == b'{'
    then done r f
    else if c == 10
    then again (advance 1 (see_line_break (note_line_start (r.pos + 1) r))) f
    else if c == b'}' || c == b'>'
    then again (advance 1 (error 1381 r.pos 1 r)) f
    else again (advance 1 r) f

unfoldable pub scan_jsx_text : Bytes → Reader → Reader
unfolding jsx_text_round loop
scan_jsx_text source r = (loop jsx_text_round 0 (drop r.pos source) r true).0

-- Identifier segments joined by `-`.
unfoldable pub jsx_identifier_round : (ℕ → Bool) → Bytes → Bytes → Reader → Bool → Round Bool
unfolding identifier_chars
jsx_identifier_round in_table source bs r f =
    let s = identifier_chars in_table source r in
    if front (λ c. c == b'-') (drop s.pos source) then again (advance 1 s) f else done s f

unfoldable pub scan_jsx_identifier : (ℕ → Bool) → Bytes → ℕ → Reader → Reader
unfolding jsx_identifier_round loop char_bytes
scan_jsx_identifier in_table source start r =
    let s = (loop (jsx_identifier_round in_table source) 0 (drop r.pos source) r true).0 in
    let n = char_bytes (drop s.pos source) in
    if s.pos == start then error 1127 start n (advance n s) else s
