-- ===== src/Tsgo/Json/Writer.antt =====
-- source/fastlint/tsgo/json.cc, json.h: `JsonWriter`, whose state is the text, a flag for each open
-- array or object (has it a value yet?) with the innermost first, and whether a key was just written.
pub mod Rendered
use fastlint.Base.{
  ℕ, zero, suc, ◌+◌, ◌/◌, ◌%◌, Bool, true, false, List, [], ◌∷◌, ◌++◌, Bytes, codes, ltb,
  if◌then◌else◌,
}
use fastlint.Tsgo.Json.Strings.{append_json_string}
use fastlint.Tsgo.Json.Value.{
  Value, null, boolean, number, string, array, object, Items, nil, cons, Members, end, member,
}

pub record Writer : Type 0 where
  pub out : Bytes
  pub has_value : List Bool
  pub after_key : Bool

abbrev pub empty : Writer
empty = record { out = []; has_value = []; after_key = false }

abbrev pub emit : Bytes → Writer → Writer
emit text w = record w { out = w.out ++ text }

-- Where no key was just written: a comma behind an earlier value.
unfoldable pub separate_in : List Bool → Writer → Writer
separate_in [] w = w
separate_in (true ∷ outer) w = record w { out = w.out ++ b',' ∷ []; has_value = true ∷ outer }
separate_in (false ∷ outer) w = record w { has_value = true ∷ outer }

unfoldable pub separate : Writer → Writer
separate w = if w.after_key then record w { after_key = false } else separate_in w.has_value w

-- The flag of the innermost array or object goes.
abbrev pub pop : List Bool → List Bool
pop [] = []
pop (b ∷ outer) = outer

unfoldable pub begin_object : Writer → Writer
unfolding separate
begin_object w =
    let s = separate w in record s { out = s.out ++ b'{' ∷ []; has_value = false ∷ s.has_value }

unfoldable pub end_object : Writer → Writer
end_object w = record w { out = w.out ++ b'}' ∷ []; has_value = pop w.has_value }

unfoldable pub begin_array : Writer → Writer
unfolding separate
begin_array w =
    let s = separate w in record s { out = s.out ++ b'[' ∷ []; has_value = false ∷ s.has_value }

unfoldable pub end_array : Writer → Writer
end_array w = record w { out = w.out ++ b']' ∷ []; has_value = pop w.has_value }

unfoldable pub key : Bytes → Writer → Writer
key name w =
    let s = separate w in
    record s { out = s.out ++ (append_json_string name ++ b':' ∷ []); after_key = true }

unfoldable pub value_string : Bytes → Writer → Writer
value_string text w = emit (append_json_string text) (separate w)

unfoldable pub value_bool : Bool → Writer → Writer
value_bool b w = emit (if b then codes "true" else codes "false") (separate w)

unfoldable pub value_null : Writer → Writer
value_null w = emit (codes "null") (separate w)

unfoldable pub raw : Bytes → Writer → Writer
raw json w = emit json (separate w)

-- The calls that write a value: a number goes through `raw`, with its own spelling.
unfoldable mutual
  pub write_value : Value → Writer → Writer
  write_value null w = value_null w
  write_value (boolean b) w = value_bool b w
  write_value (number text) w = raw text w
  write_value (string text) w = value_string text w
  write_value (array xs) w = end_array (write_items xs (begin_array w))
  write_value (object ms) w = end_object (write_members ms (begin_object w))

  pub write_items : Items → Writer → Writer
  write_items nil w = w
  write_items (cons v xs) w = write_items xs (write_value v w)

  pub write_members : Members → Writer → Writer
  write_members end w = w
  write_members (member k v ms) w = write_members ms (write_value v (key k w))

-- The text of a value, with no state: commas stand between items.
abbrev pub comma_if : Bool → Bytes
comma_if true = b',' ∷ []
comma_if false = []

unfoldable mutual
  pub render : Value → Bytes
  render null = codes "null"
  render (boolean true) = codes "true"
  render (boolean false) = codes "false"
  render (number text) = text
  render (string text) = append_json_string text
  render (array xs) = b'[' ∷ (render_items false xs ++ b']' ∷ [])
  render (object ms) = b'{' ∷ (render_members false ms ++ b'}' ∷ [])

  pub render_items : Bool → Items → Bytes
  render_items later nil = []
  render_items later (cons v xs) = comma_if later ++ (render v ++ render_items true xs)

  pub render_members : Bool → Members → Bytes
  render_members later end = []
  render_members later (member k v ms) =
      comma_if later ++ (append_json_string k ++ b':' ∷ (render v ++ render_members true ms))
