-- ===== src/Syntax/Scanner/Punctuation.antt =====
-- source/fastlint/syntax/scanner.cc: `scanPunctuation` up to the token.
use fastlint.Base.{
  ℕ, ◌&&◌, ◌||◌, Option, none, some, List, [], ◌∷◌, Bytes, codes, ◌==◌, if◌then◌else◌, drop,
  starts_with,
}
use fastlint.Syntax.Scanner.{is_digit}
use fastlint.Syntax.Scanner.Numbers.{front}

-- What `tryMatch` is called with, in order; a token of one byte ends the list.
abbrev pub operators : ℕ → List Bytes
operators c =
    if c == b':'
    then codes "::" ∷ codes ":" ∷ []
    else if c == b'.'
    then codes "..." ∷ codes "." ∷ []
    else if c == b'<'
    then codes "<<=" ∷ codes "<<" ∷ codes "<=" ∷ codes "<" ∷ []
    else if c == b'>'
    then codes ">>>=" ∷ codes ">>>" ∷ codes ">>=" ∷ codes ">>" ∷ codes ">=" ∷ codes ">" ∷ []
    else if c == b'='
    then codes "===" ∷ codes "=>" ∷ codes "==" ∷ codes "=" ∷ []
    else if c == b'!'
    then codes "!==" ∷ codes "!=" ∷ codes "!" ∷ []
    else if c == b'+'
    then codes "+=" ∷ codes "++" ∷ codes "+" ∷ []
    else if c == b'-'
    then codes "-=" ∷ codes "--" ∷ codes "-" ∷ []
    else if c == b'*'
    then codes "**=" ∷ codes "**" ∷ codes "*=" ∷ codes "*" ∷ []
    else if c == b'/'
    then codes "/=" ∷ codes "/" ∷ []
    else if c == b'%'
    then codes "%=" ∷ codes "%" ∷ []
    else if c == b'&'
    then codes "&&=" ∷ codes "&&" ∷ codes "&=" ∷ codes "&" ∷ []
    else if c == b'|'
    then codes "||=" ∷ codes "||" ∷ codes "|=" ∷ codes "|" ∷ []
    else if c == b'^'
    then codes "^=" ∷ codes "^" ∷ []
    else if c == b'{'
        || c == b'}'
        || c == b'('
        || c == b')'
        || c == b'['
        || c == b']'
        || c == b';'
        || c == b','
        || c == b'~'
        || c == b'@'
    then (c ∷ []) ∷ []
    else []

-- The first text that the source starts with.
unfoldable pub try_match : List Bytes → Bytes → Option Bytes
try_match [] bs = none
try_match (p ∷ ps) bs = let rest = try_match ps bs in if starts_with bs p then some p else rest

-- `a?.1:x` is a ternary with a dot, not optional chaining.
abbrev pub question : Bytes → Bytes
question bs =
    if starts_with bs (codes "??=")
    then codes "??="
    else if starts_with bs (codes "?.")
    then if front is_digit (drop 2 bs) then codes "?" else codes "?."
    else if starts_with bs (codes "??")
    then codes "??"
    else codes "?"

-- A punctuator, a number that starts with a dot, or a character that starts no token.
pub data Punctuated : Type 0 where
  matched : Bytes → Punctuated
  number invalid : Punctuated

unfoldable pub punctuator_at : Bytes → Punctuated
unfolding try_match
punctuator_at bs =
    let found : Punctuated = elim (try_match (elim bs [ [] ↦ [] | c ∷ t ↦ operators c ]) bs) [
      | none ↦ invalid
      | some p ↦ matched p
    ] in
    if starts_with bs (codes "?")
    then matched (question bs)
    else if starts_with bs (codes ".") && front is_digit (drop 1 bs)
    then number
    else found
