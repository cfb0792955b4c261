-- ===== src/Syntax/Scanner/Run/Slash.antt =====
-- source/fastlint/syntax/scanner.cc: what `rescanSlash` makes of a token.
use fastlint.Base.{ℕ, ◌+◌, ◌≤◌, ◌≡◌, Bool, true, false, ◌||◌, List, ◌∷◌, Bytes, codes, length, drop}
use fastlint.Syntax.Scanner.{
  is_ascii_identifier_part, Token, TokenKind, regular_expression_literal, span,
}
use fastlint.Syntax.Scanner.Run.{Scanner, Input}
use fastlint.Syntax.Scanner.Run.Rescan.{is_kind}
use fastlint.Syntax.Scanner.Moves.Patterns.{IsBody}
use fastlint.Syntax.Scanner.Run.Again.{IsReplaced}

abbrev is_slash : TokenKind → Bool
is_slash kind = is_kind (codes "/") kind || is_kind (codes "/=") kind

-- The length of a literal whose pattern has that many bytes, with the flags behind it.
abbrev literal_length : ℕ → Bytes → ℕ
literal_length n bs = 1 + n + span is_ascii_identifier_part (drop (1 + n) bs)

-- What the source has from the current token on decides: the scanner is left alone where that token is
-- no slash or where no pattern closes there; else the token, which is the last of the array before
-- `ts`, is a regular expression literal of the pattern and its flags, in the array too.
pub data Rescanned (i : Input) (s : Scanner) (ts : List Token) : Scanner × Bool → Type 0 where
  no_slash : is_slash s.current.kind ≡ false → Rescanned i s ts (s, false)
  no_pattern :
      ((n : ℕ) → ¬ IsBody false n (drop 1 (drop s.current.offset i.source)))
      → Rescanned i s ts (s, false)
  literal :
      {t : Scanner} (n : ℕ)
      → is_slash s.current.kind ≡ true
      → IsBody false n (drop 1 (drop s.current.offset i.source))
      → s.current.offset + literal_length n (drop s.current.offset i.source) ≤ length i.source
      → IsReplaced regular_expression_literal s.current.offset
          (literal_length n (drop s.current.offset i.source))
          s
          t
      → t.tokens ≡ t.current ∷ ts
      → Rescanned i s ts (t, true)
