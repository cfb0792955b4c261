-- ===== src/Syntax/Scanner/Words.antt =====
-- source/fastlint/syntax/scanner.cc, tokens.cc: identifiers and keywords. The generated tables of
-- Unicode identifier characters are a parameter, the test that a code point is in one of them.
use fastlint.Base.{
  ℕ, ◌+◌, ◌*◌, ◌%◌, ◌^◌, Bool, true, false, not, ◌&&◌, ◌||◌, List, [], ◌∷◌, Bytes, codes, ltb, leb,
  ◌==◌, if◌then◌else◌, take, drop, starts_with, bytes_eq, is_empty,
}
use fastlint.Syntax.Scanner.{
  Reader, TokenKind, identifier, keyword, peek_char, char_bytes, advance, error, span, is_hex_digit,
  hex_value, is_ascii_identifier_part,
}
use fastlint.Syntax.Scanner.Loop.{Round, again, done, loop}

-- The words between `AbstractKeyword` and `YieldKeyword`.
abbrev pub keywords : List Bytes
keywords =
    codes "abstract"
    ∷ codes "accessor"
    ∷ codes "any"
    ∷ codes "as"
    ∷ codes "assert"
    ∷ codes "asserts"
    ∷ codes "async"
    ∷ codes "await"
    ∷ codes "bigint"
    ∷ codes "boolean"
    ∷ codes "break"
    ∷ codes "case"
    ∷ codes "catch"
    ∷ codes "class"
    ∷ codes "continue"
    ∷ codes "const"
    ∷ codes "constructor"
    ∷ codes "debugger"
    ∷ codes "declare"
    ∷ codes "default"
    ∷ codes "delete"
    ∷ codes "do"
    ∷ codes "else"
    ∷ codes "enum"
    ∷ codes "export"
    ∷ codes "extends"
    ∷ codes "false"
    ∷ codes "finally"
    ∷ codes "for"
    ∷ codes "from"
    ∷ codes "function"
    ∷ codes "get"
    ∷ codes "global"
    ∷ codes "if"
    ∷ codes "implements"
    ∷ codes "import"
    ∷ codes "in"
    ∷ codes "infer"
    ∷ codes "instanceof"
    ∷ codes "interface"
    ∷ codes "intrinsic"
    ∷ codes "is"
    ∷ codes "keyof"
    ∷ codes "let"
    ∷ codes "module"
    ∷ codes "namespace"
    ∷ codes "never"
    ∷ codes "new"
    ∷ codes "null"
    ∷ codes "number"
    ∷ codes "object"
    ∷ codes "of"
    ∷ codes "out"
    ∷ codes "override"
    ∷ codes "package"
    ∷ codes "private"
    ∷ codes "protected"
    ∷ codes "public"
    ∷ codes "readonly"
    ∷ codes "require"
    ∷ codes "return"
    ∷ codes "satisfies"
    ∷ codes "set"
    ∷ codes "static"
    ∷ codes "string"
    ∷ codes "super"
    ∷ codes "switch"
    ∷ codes "symbol"
    ∷ codes "this"
    ∷ codes "throw"
    ∷ codes "true"
    ∷ codes "try"
    ∷ codes "type"
    ∷ codes "typeof"
    ∷ codes "undefined"
    ∷ codes "unique"
    ∷ codes "unknown"
    ∷ codes "using"
    ∷ codes "var"
    ∷ codes "void"
    ∷ codes "while"
    ∷ codes "with"
    ∷ codes "yield"
    ∷ []

unfoldable pub keyword_among : List Bytes → Bytes → TokenKind
keyword_among [] word = identifier
keyword_among (k ∷ ks) word = if bytes_eq k word then keyword k else keyword_among ks word

unfoldable pub keyword_kind : Bytes → TokenKind
unfolding keyword_among
keyword_kind word = keyword_among keywords word

-- The loop over the digits of `\u{...}`, on 32 bits.
unfoldable pub escape_value : ℕ → Bytes → ℕ
escape_value value [] = value
escape_value value (c ∷ s) =
    if is_hex_digit c then escape_value ((value * 16 + hex_value c) % 2 ^ 32) s else value

pub record Escape : Type 0 where
  pub taken : ℕ
  pub bad : Bool

-- Behind `\u{`: the digits, and the brace where it stands behind them.
unfoldable pub braced_escape : Bytes → Escape
unfolding span escape_value
braced_escape s =
    let n = span is_hex_digit s in
    let rest = drop n s in
    let stray = not (is_empty rest) && not (starts_with rest (codes "}")) in
    record {
      taken = n + (if starts_with rest (codes "}") then 1 else 0);
      bad = stray || n == 0 || ltb 1114111 (escape_value 0 s);
    }

-- Behind `\u`.
unfoldable pub name_escape : Bytes → Escape
unfolding braced_escape span
name_escape s =
    let e = braced_escape (drop 1 s) in
    let n = span is_hex_digit (take 4 s) in
    if starts_with s (codes "{")
    then record e { taken = e.taken + 1 }
    else record { taken = n; bad = not (n == 4) }

-- A round of `scanIdentifierChars`.
unfoldable pub identifier_round : (ℕ → Bool) → Bytes → Reader → Bool → Round Bool
unfolding peek_char char_bytes name_escape
identifier_round in_table [] r f = done r f
identifier_round in_table (c ∷ t) r f =
    let cp = peek_char (c ∷ t) in
    let next = again (advance (char_bytes (c ∷ t)) r) f in
    let e = name_escape (drop 1 t) in
    let s = advance (2 + e.taken) r in
    if is_ascii_identifier_part cp || cp == b'$' || cp == b'_'
    then next
    else if cp == 92
    then if starts_with t (codes "u")
      then again (if e.bad then error 1126 r.pos 2 s else s) f
      else done r f
    else if leb 128 cp && in_table cp
    then next
    else done r f

unfoldable pub identifier_chars : (ℕ → Bool) → Bytes → Reader → Reader
unfolding identifier_round loop
identifier_chars in_table source r =
    (loop (identifier_round in_table) 0 (drop r.pos source) r true).0

-- A token consumes something, whatever stands there; the flag says that the character
-- starts no name.
unfoldable pub identifier_end : (ℕ → Bool) → Bytes → ℕ → Reader → Reader × Bool
unfolding identifier_chars char_bytes
identifier_end in_table source start r =
    let s = identifier_chars in_table source r in
    let n = char_bytes (drop s.pos source) in
    if s.pos == start then (error 1127 start n (advance n s), true) else (s, false)
