-- ===== src/Lint/Regex/Compile.antt =====
-- source/fastlint/lint/regex.cc: the compiler of patterns. What `pos` has left of the pattern is
-- the text a function takes and returns. The calls run on fuel.
use fastlint.Base.{
  ℕ, zero, suc, ◌+◌, ◌*◌, Bool, true, false, ◌&&◌, Option, none, some, [], ◌∷◌, Bytes, codes, leb,
  ltb, ◌==◌, if◌then◌else◌, length,
}
use fastlint.Lint.Regex.{
  Quantifier, Kind, char, any, class, begin, end, word_boundary, not_word_boundary, group, Sequence,
  stop, term, Alternatives, none_left, alternative, Regex, lower, search,
}
use fastlint.Lint.Regex.Escape.{mem, escape_char, encode_utf8}
use fastlint.Lint.Regex.Quantity.{once, parse_quantifier}
use fastlint.Lint.Regex.Bracket.{
  Parsed, ok, unsupported, out_of_fuel, ◌>>=◌, named_class, class_of, parse_class,
}

-- The bytes of a code point in a row.
unfoldable pub byte_terms : Bytes → Sequence
byte_terms [] = stop
byte_terms (b ∷ s) = term (char b) once (byte_terms s)

-- The class of `\d`, `\w`, `\s`, or of their upper-case forms.
unfoldable pub escaped_class : ℕ → Kind
escaped_class e = class (class_of (leb b'A' e && leb e b'Z') (named_class (lower e)))

unfoldable pub parse_escape : Bytes → Parsed Kind
parse_escape [] = unsupported
parse_escape (e ∷ s) =
    let (value, r) = escape_char e s in
    elim value [
      | some v ↦
          if ltb 0x7F v
          then ok (group (alternative (byte_terms (encode_utf8 v)) none_left)) r
          else ok (char v) r
      | none ↦
          if e == b'b'
          then ok word_boundary r
          else if e == b'B'
          then ok not_word_boundary r
          else ok (escaped_class e) r
    ]

-- `(?:` opens a group as `(` does; what else begins with `(?` is refused.
unfoldable pub open_group : Bytes → Parsed Bool
open_group (c ∷ d ∷ s) =
    if c == b'?' then (if d == b':' then ok true s else unsupported) else ok true (c ∷ d ∷ s)
open_group (c ∷ []) = if c == b'?' then unsupported else ok true (c ∷ [])
open_group [] = ok true []

unfoldable pub close_group : Alternatives → Bytes → Parsed Kind
close_group a [] = unsupported
close_group a (c ∷ s) = if c == b')' then ok (group a) s else unsupported

-- The switch of `parseSequence`, with the parser of a group.
unfoldable pub parse_atom : (Bytes → Parsed Alternatives) → ℕ → Bytes → Parsed Kind
parse_atom parse_group c s =
    if c == b'.'
    then ok any s
    else if c == b'^'
    then ok begin s
    else if c == b'$'
    then ok end s
    else if c == b'('
    then (do (opened, r) ← open_group s; (a, t) ← parse_group r; close_group a t)
    else if c == b'['
    then parse_class s
    else if c == b'\\'
    then parse_escape s
    else if mem c (codes "*+?")
    then unsupported
    else ok (char c) s

unfoldable pub quantified : Kind → Bytes → Quantifier × Bytes
quantified begin s = (once, s)
quantified end s = (once, s)
quantified word_boundary s = (once, s)
quantified not_word_boundary s = (once, s)
quantified t s = parse_quantifier s

-- Behind an alternative of a group: whether another one begins.
unfoldable pub another : Bytes → Bool × Bytes
another [] = (false, [])
another (c ∷ s) = if c == b'|' then (true, s) else (false, c ∷ s)

unfoldable mutual
  pub parse_sequence : ℕ → Bytes → Parsed Sequence
  parse_sequence zero s = out_of_fuel
  parse_sequence (suc fuel) [] = ok stop []
  parse_sequence (suc fuel) (c ∷ s) = if mem c (codes "|)") then ok stop (c ∷ s) else do
    (t, r) ← parse_atom (parse_group fuel) c s
    (rest, u) ← parse_sequence fuel ((quantified t r).1)
    ok (term t ((quantified t r).0) rest) u

  pub parse_group : ℕ → Bytes → Parsed Alternatives
  parse_group zero s = out_of_fuel
  parse_group (suc fuel) s = do
    (seq, r) ← parse_sequence fuel s
    elim ((another r).0) [
      | true ↦ do (rest, u) ← parse_group fuel ((another r).1); ok (alternative seq rest) u
      | false ↦ ok (alternative seq none_left) r
    ]

-- The loop over the flags: whether `i` is among them, if all are known.
unfoldable pub flags_loop : Bool → Bytes → Option Bool
flags_loop ignore_case [] = some ignore_case
flags_loop ignore_case (f ∷ rest) =
    let go = flags_loop (if f == b'i' then true else ignore_case) rest in
    if mem f (codes "iugv") then go else none

unfoldable pub finished : Bool → Parsed Alternatives → Option Regex
finished ignore_case (ok a []) = some record { root = a; ignore_case = ignore_case }
finished ignore_case _ = none

-- The fuel of a pattern: two calls for each of its bytes.
abbrev pub compile_fuel : Bytes → ℕ
compile_fuel pattern = 2 * length pattern + 2

unfoldable pub compile : Bytes → Bytes → Option Regex
compile pattern flags = elim (flags_loop false flags) [
  | none ↦ none
  | some ignore_case ↦ finished ignore_case (parse_group (compile_fuel pattern) pattern)
]

-- `search` of a pattern that may not have compiled.
unfoldable pub search_compiled : Option Regex → Bytes → Bool
search_compiled none text = false
search_compiled (some r) text = search r text
