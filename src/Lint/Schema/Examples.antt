-- ===== src/Lint/Schema/Examples.antt =====
-- Runs of source/fastlint/lint/option_schema.cc, and its theorems at a concrete schema.
use fastlint.Base.{
  ◌+◌, ◌≡◌, ◌↔◌, refl, true, false, none, some, [], ◌∷◌, ◌++◌, Bytes, codes, drop, bytes_eq, arith,
}
use fastlint.Tsgo.Json.Value.{
  Value, null, boolean, string, array, object, Items, nil, cons, end, member, get,
}
use fastlint.Tsgo.Json.Strings.{ok, string_loop, step}
use fastlint.Tsgo.Json.Parse.{
  parse_document, parse_value, skip_space, array_end, object_end, open_quote, parse_string, colon,
  after_item, after_member, document_end, parse_scalar,
}
use fastlint.Lint.Schema.{Numbers, nonnegative, negative, items_of, validate, weight}
use fastlint.Lint.Schema.Allowed.{Allows}
use fastlint.Lint.Schema.Complete.{validate_lem}
use fastlint.Lint.Schema.Options.{AllowsOptions, validate_options, validate_options_lem}

-- Numbers do not occur; option numbers are printed as one digit.
abbrev plain_numbers : Numbers
plain_numbers = record {
  as_int = λ s. nonnegative 0;
  print = λ i. elim i [ nonnegative n ↦ (48 + n) ∷ [] | negative m ↦ [] ];
  same = bytes_eq;
}

-- `{"type":"object","properties":{"null":{"type":"boolean"}},"additionalProperties":false}`
abbrev null_option : Value
null_option = object (
    member (codes "type") (string (codes "object")) (
      member (codes "properties")
        (object (
          member (codes "null") (object (member (codes "type") (string (codes "boolean")) end))
            end))
        (member (codes "additionalProperties") (boolean false) end)))

abbrev never_null : Value
never_null = object (member (codes "null") (boolean true) end)

null_allowed : validate 9 plain_numbers null_option never_null (codes "o") ≡ none
unfolding validate get
null_allowed = refl

-- The error names the option.
other_refused :
    validate 9 plain_numbers null_option (object (member (codes "x") null end)) (codes "o")
    ≡ some (codes "o: unknown option " ++ 34 ∷ codes "x" ++ 34 ∷ [])
unfolding validate get
other_refused = refl

wrong_type :
    validate 9 plain_numbers null_option (object (member (codes "null") null end)) (codes "o")
    ≡ some (codes "o.null: expected boolean, got null")
unfolding validate get
wrong_type = refl

light : weight null_option ≡ 6
unfolding weight
light = refl

validate_lem_example :
    (validate 9 plain_numbers null_option never_null (codes "o") ≡ none)
    ↔ Allows plain_numbers null_option never_null
validate_lem_example =
    validate_lem plain_numbers 9 null_option never_null (codes "o") (omega (arith, light))

abbrev quoted : Bytes → Bytes
quoted s = 34 ∷ s ++ 34 ∷ []

-- `[{"enum":["always"]}]`
abbrev schema_text : Bytes
schema_text =
    codes "[{" ++ quoted (codes "enum") ++ codes ":[" ++ quoted (codes "always") ++ codes "]}]"

abbrev schema_items : Items
schema_items =
    cons (object (member (codes "enum") (array (cons (string (codes "always")) nil)) end)) nil

schema_parses : parse_document schema_text ≡ ok (array schema_items) []
unfolding parse_document parse_value skip_space array_end object_end open_quote parse_string
    string_loop step colon after_item after_member document_end parse_scalar
schema_parses = refl

-- `["error","always"]`
abbrev setting : Items
setting = cons (string (codes "error")) (cons (string (codes "always")) nil)

validate_options_lem_example :
    (validate_options plain_numbers (codes "eqeqeq") (some schema_text) (some (array setting))
      ≡ none)
    ↔ AllowsOptions plain_numbers (items_of schema_items) (drop 1 (items_of setting))
validate_options_lem_example =
    validate_options_lem plain_numbers (codes "eqeqeq") schema_text [] schema_items setting
      schema_parses
