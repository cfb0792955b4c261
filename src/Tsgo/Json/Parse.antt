-- ===== src/Tsgo/Json/Parse.antt =====
-- source/fastlint/tsgo/json.cc: the recursive descent over values, arrays and objects.
-- The calls run on fuel.
pub mod Total
use fastlint.Base.{
  ℕ, zero, suc, ◌+◌, ◌*◌, Bool, true, false, ◌&&◌, ◌||◌, Option, none, some, [], ◌∷◌, Bytes, codes,
  ltb, ◌==◌, if◌then◌else◌, length,
}
use fastlint.Tsgo.Json.Strings.{
  Result, ok, fail, out_of_fuel, ◌>>=◌, quote, string_loop, nesting_too_deep, unexpected_token,
  unexpected_character, unexpected_end, expected_comma_or_bracket, expected_member, expected_colon,
  expected_comma_or_brace, trailing_characters,
}
use fastlint.Tsgo.Json.Value.{
  Value, null, boolean, number, string, array, object, Items, nil, cons, Members, end, member,
}
use fastlint.Tsgo.Json.Numbers.{is_digit, parse_number}

abbrev pub max_depth : ℕ
max_depth = 512

abbrev pub is_space : ℕ → Bool
is_space c = c == b' ' || c == 9 || c == 10 || c == 13

unfoldable pub skip_space : Bytes → Bytes
skip_space [] = []
skip_space (c ∷ s) = if is_space c then skip_space s else c ∷ s

-- `consumeWord`: the text behind the word.
unfoldable pub consume_word : Bytes → Bytes → Option Bytes
consume_word [] s = some s
consume_word (w ∷ ws) [] = none
consume_word (w ∷ ws) (c ∷ s) = if w == c then consume_word ws s else none

unfoldable pub word : Bytes → Value → Bytes → Result Value
word w v s = elim (consume_word w s) [ none ↦ fail unexpected_token | some r ↦ ok v r ]

-- `parseString` at an opening quote.
unfoldable pub parse_string : Bytes → Result Bytes
parse_string s = string_loop (suc (length s)) [] s

-- The head of a text without its spaces.
unfoldable pub array_end : Bytes → Option Bytes
array_end [] = none
array_end (c ∷ s) = if c == b']' then some s else none

unfoldable pub object_end : Bytes → Option Bytes
object_end [] = none
object_end (c ∷ s) = if c == b'}' then some s else none

unfoldable pub open_quote : Bytes → Result Bytes
open_quote [] = fail expected_member
open_quote (c ∷ s) = if c == quote then parse_string s else fail expected_member

unfoldable pub colon : Bytes → Result Bool
colon [] = fail expected_colon
colon (c ∷ s) = if c == b':' then ok true s else fail expected_colon

-- Behind an item: true for a comma, false for the closing bracket.
unfoldable pub after_item : Bytes → Result Bool
after_item [] = fail expected_comma_or_bracket
after_item (c ∷ s) =
    if c == b','
    then ok true s
    else if c == b']'
    then ok false s
    else fail expected_comma_or_bracket

unfoldable pub after_member : Bytes → Result Bool
after_member [] = fail expected_comma_or_brace
after_member (c ∷ s) =
    if c == b',' then ok true s else if c == b'}' then ok false s else fail expected_comma_or_brace

unfoldable pub parse_scalar : ℕ → Bytes → Result Value
parse_scalar c s =
    if c == quote
    then (do (text, r) ← parse_string s; ok (string text) r)
    else if c == b't'
    then word (codes "true") (boolean true) (c ∷ s)
    else if c == b'f'
    then word (codes "false") (boolean false) (c ∷ s)
    else if c == b'n'
    then word (codes "null") null (c ∷ s)
    else if c == b'-' || is_digit c
    then (do (text, r) ← parse_number (c ∷ s); ok (number text) r)
    else fail unexpected_character

unfoldable mutual
  pub parse_value : ℕ → ℕ → Bytes → Result Value
  parse_value zero depth s = out_of_fuel
  parse_value (suc fuel) depth [] =
      if ltb max_depth depth then fail nesting_too_deep else fail unexpected_end
  parse_value (suc fuel) depth (c ∷ s) =
      let inner = parse_object fuel depth s in
      let items = parse_array fuel depth s in
      if ltb max_depth depth
      then fail nesting_too_deep
      else if c == b'{'
      then inner
      else if c == b'['
      then items
      else parse_scalar c s

  -- Behind the opening bracket.
  pub parse_array : ℕ → ℕ → Bytes → Result Value
  parse_array zero depth s = out_of_fuel
  parse_array (suc fuel) depth s = elim (array_end (skip_space s)) [
    | some r ↦ ok (array nil) r
    | none ↦ do (items, r) ← array_loop fuel depth (skip_space s); ok (array items) r
  ]

  pub array_loop : ℕ → ℕ → Bytes → Result Items
  array_loop zero depth s = out_of_fuel
  array_loop (suc fuel) depth s = do
    (item, r) ← parse_value fuel (depth + 1) (skip_space s)
    (again, t) ← after_item (skip_space r)
    elim again [
      | true ↦ do (items, u) ← array_loop fuel depth t; ok (cons item items) u
      | false ↦ ok (cons item nil) t
    ]

  pub parse_object : ℕ → ℕ → Bytes → Result Value
  parse_object zero depth s = out_of_fuel
  parse_object (suc fuel) depth s = elim (object_end (skip_space s)) [
    | some r ↦ ok (object end) r
    | none ↦ do (members, r) ← object_loop fuel depth (skip_space s); ok (object members) r
  ]

  pub object_loop : ℕ → ℕ → Bytes → Result Members
  object_loop zero depth s = out_of_fuel
  object_loop (suc fuel) depth s = do
    (key, r) ← open_quote (skip_space s)
    (_, t) ← colon (skip_space r)
    (item, u) ← parse_value fuel (depth + 1) (skip_space t)
    (again, w) ← after_member (skip_space u)
    elim again [
      | true ↦ do (members, x) ← object_loop fuel depth w; ok (member key item members) x
      | false ↦ ok (member key item end) w
    ]

-- The end of `parseDocument`.
unfoldable pub document_end : Value → Bytes → Result Value
document_end v [] = ok v []
document_end v (c ∷ s) = fail trailing_characters

-- Three units of fuel for each byte.
abbrev pub enough : Bytes → ℕ
enough s = length s * 3 + 3

unfoldable pub parse_document : Bytes → Result Value
parse_document text = do
  (v, s) ← parse_value (enough text) 0 (skip_space text)
  document_end v (skip_space s)
