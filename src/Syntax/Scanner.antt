-- ===== src/Syntax/Scanner.antt =====
-- source/fastlint/syntax/scanner.h, scanner.cc, tokens.h, diagnostics.h: the state of `Scanner` and
-- its character helpers. A vector is a list with its last element first. The message of a
-- diagnostic is left out.
pub mod Loop
pub mod Skip
pub mod Words
pub mod Numbers
pub mod Strings
pub mod Templates
pub mod Punctuation
pub mod Moves
pub mod Run
mod Examples
use fastlint.Base.{
  ℕ, zero, suc, ◌+◌, ◌-◌, ◌*◌, ◌%◌, Bool, true, false, not, ◌&&◌, ◌||◌, Option, List, [], ◌∷◌,
  Bytes, ltb, leb, ◌==◌, if◌then◌else◌, length,
}

-- A keyword and a punctuator stand with their text in tokens.def.
pub data TokenKind : Type 0 where
  end_of_file identifier private_identifier jsx_identifier jsx_text : TokenKind
  numeric_literal bigint_literal string_literal regular_expression_literal : TokenKind
  no_substitution_template_literal template_head template_middle template_tail : TokenKind
  template_invalid : TokenKind
  keyword punctuation : Bytes → TokenKind

pub record Token : Type 0 where
  pub kind : TokenKind
  pub offset : ℕ
  pub length : ℕ
  pub leading_trivia_start : ℕ
  pub leading_trivia_count : ℕ
  pub preceding_line_break : Bool
  pub legacy_octal : Bool
  pub unterminated : Bool

pub data TriviaKind : Type 0 where
  whitespace new_line single_line_comment multi_line_comment shebang : TriviaKind

pub record Trivia : Type 0 where
  pub kind : TriviaKind
  pub offset : ℕ
  pub length : ℕ
  pub line_break : Bool

pub record Diagnostic : Type 0 where
  pub code : ℕ
  pub offset : ℕ
  pub length : ℕ

-- The members of `Scanner` that reading characters changes; `legacy_octal` is the one of
-- `m_current`.
pub record Reader : Type 0 where
  pub pos : ℕ
  pub trivia : List Trivia
  pub line_starts : List ℕ
  pub diagnostics : List Diagnostic
  pub saw_line_break : Bool
  pub legacy_octal : Bool

abbrev pub is_digit : ℕ → Bool
is_digit c = leb b'0' c && leb c b'9'

abbrev pub is_hex_digit : ℕ → Bool
is_hex_digit c = is_digit c || (leb b'a' c && leb c b'f') || (leb b'A' c && leb c b'F')

abbrev pub hex_value : ℕ → ℕ
hex_value c =
    if is_digit c
    then c - b'0'
    else if leb b'a' c && leb c b'f'
    then c - b'a' + 10
    else c - b'A' + 10

abbrev pub is_ascii_identifier_start : ℕ → Bool
is_ascii_identifier_start c =
    (leb b'a' c && leb c b'z') || (leb b'A' c && leb c b'Z') || c == b'$' || c == b'_'

abbrev pub is_ascii_identifier_part : ℕ → Bool
is_ascii_identifier_part c = is_ascii_identifier_start c || (leb b'0' c && leb c b'9')

-- The length that the first byte of a UTF-8 sequence announces.
unfoldable pub char_length : ℕ → ℕ
char_length c =
    if ltb c 128
    then 1
    else if leb 240 c
    then 4
    else if leb 224 c
    then 3
    else if leb 192 c
    then 2
    else 1

-- The loop over the continuation bytes.
abbrev pub continued : ℕ → ℕ → Bytes → ℕ
continued (suc n) cp (c ∷ s) = continued n (cp * 64 + c % 64) s
continued _ cp _ = cp

-- `peekChar` of the bytes from the position on.
unfoldable pub peek_char : Bytes → ℕ
peek_char [] = 0
peek_char (c ∷ s) =
    if ltb c 128
    then c
    else if leb 240 c
    then continued 3 (c % 8) s
    else if leb 224 c
    then continued 2 (c % 16) s
    else if leb 192 c
    then continued 1 (c % 32) s
    else 65533

-- How far `advanceChar` goes: a sequence cut off by the end of the file ends there.
unfoldable pub char_bytes : Bytes → ℕ
unfolding char_length
char_bytes [] = 0
char_bytes (c ∷ s) = let n = char_length c in let m = length (c ∷ s) in if ltb m n then m else n

-- `m_pos += n`.
abbrev pub advance : ℕ → Reader → Reader
advance n r = record r { pos = r.pos + n }

abbrev pub error : ℕ → ℕ → ℕ → Reader → Reader
error code offset length r = record r {
  diagnostics = record { code = code; offset = offset; length = length } ∷ r.diagnostics;
}

abbrev pub add_trivia : TriviaKind → ℕ → ℕ → Bool → Reader → Reader
add_trivia kind offset length line_break r = record r {
  trivia =
      record { kind = kind; offset = offset; length = length; line_break = line_break } ∷ r.trivia;
}

-- The starts that a rescan has crossed before are replaced.
unfoldable pub note : ℕ → List ℕ → List ℕ
note start [] = start ∷ []
note start (l ∷ ls) = if leb start l then note start ls else start ∷ l ∷ ls

abbrev pub note_line_start : ℕ → Reader → Reader
note_line_start start r = record r { line_starts = note start r.line_starts }

abbrev pub see_line_break : Reader → Reader
see_line_break r = record r { saw_line_break = true }

abbrev pub note_octal : Reader → Reader
note_octal r = record r { legacy_octal = true }

-- How many bytes in front satisfy the test: `while (!atEnd() && p(byte(m_pos))) m_pos += 1`.
unfoldable pub span : (ℕ → Bool) → Bytes → ℕ
span p [] = 0
span p (c ∷ s) = let n = span p s in if p c then suc n else 0
