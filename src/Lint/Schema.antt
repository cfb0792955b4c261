-- ===== src/Lint/Schema.antt =====
-- source/fastlint/lint/option_schema.cc: the options of a rule against its schema. What the C library
-- makes of a number's spelling is a parameter. An error is none where the source returns true.
pub mod Allowed
pub mod Complete
pub mod Options
mod Examples
use mathlib.Core.Option
use fastlint.Base.{
  ℕ, zero, suc, ◌+◌, ◌-◌, Bool, true, false, not, ◌&&◌, ◌||◌, Option, none, some, List, [], ◌∷◌,
  ◌++◌, Bytes, codes, ltb, if◌then◌else◌, length, bytes_eq,
}
use fastlint.Tsgo.Json.Value.{
  Value, null, boolean, number, string, array, object, Items, nil, cons, Members, end, member, get,
  as_string,
}

-- An `int`.
pub data IntValue : Type 0 where
  nonnegative negative : ℕ → IntValue

-- Of a number: `asInt`, what `%d` prints, and the equality of `asDouble`.
pub record Numbers : Type 0 where
  pub as_int : Bytes → IntValue
  pub print : IntValue → Bytes
  pub same : Bytes → Bytes → Bool

-- `size` and `at`: the items of an array, the values of an object.
unfoldable pub items_of : Items → List Value
items_of nil = []
items_of (cons v xs) = v ∷ items_of xs

unfoldable pub values_of : Members → List Value
values_of end = []
values_of (member k v ms) = v ∷ values_of ms

unfoldable pub elements : Value → List Value
unfolding items_of values_of
elements (array xs) = items_of xs
elements (object ms) = values_of ms
elements _ = []

abbrev pub to_int : Numbers → Value → IntValue
to_int c (number s) = c.as_int s
to_int c _ = nonnegative 0

unfoldable pub describe : Numbers → Value → Bytes
describe c null = codes "null"
describe c (boolean true) = codes "true"
describe c (boolean false) = codes "false"
describe c (number s) = c.print (c.as_int s)
describe c (string s) = 34 ∷ (s ++ 34 ∷ [])
describe c (array xs) = codes "an array"
describe c (object ms) = codes "an object"

abbrev pub is_string : Value → Bool
is_string (string s) = true
is_string _ = false

abbrev pub is_boolean : Value → Bool
is_boolean (boolean b) = true
is_boolean _ = false

abbrev pub is_number : Value → Bool
is_number (number s) = true
is_number _ = false

abbrev pub is_array : Value → Bool
is_array (array xs) = true
is_array _ = false

abbrev pub is_object : Value → Bool
is_object (object ms) = true
is_object _ = false

abbrev pub is_null : Value → Bool
is_null null = true
is_null _ = false

unfoldable pub matches_type : Bytes → Value → Bool
matches_type type value =
    if bytes_eq type (codes "string")
    then is_string value
    else if bytes_eq type (codes "boolean")
    then is_boolean value
    else if bytes_eq type (codes "integer") || bytes_eq type (codes "number")
    then is_number value
    else if bytes_eq type (codes "array")
    then is_array value
    else if bytes_eq type (codes "object")
    then is_object value
    else if bytes_eq type (codes "null")
    then is_null value
    else false

unfoldable pub equal_scalar : Numbers → Value → Value → Bool
equal_scalar c (string s) (string t) = bytes_eq s t
equal_scalar c (boolean true) (boolean b) = b
equal_scalar c (boolean false) (boolean b) = not b
equal_scalar c (number s) (number t) = c.same s t
equal_scalar c null null = true
equal_scalar c _ _ = false

-- The check of a subschema: of the schema and the value at the path, the error.
abbrev pub Check : Type 0
Check = Value → Value → Bytes → Option Bytes

abbrev pub passes : Option Bytes → Bool
passes none = true
passes (some e) = false

-- The first error.
abbrev pub or_else : Option Bytes → Option Bytes → Option Bytes
or_else none next = next
or_else (some e) next = some e

-- The error of a branch is dropped.
unfoldable pub matches_any : Check → List Value → Value → Bool
matches_any check [] value = false
matches_any check (b ∷ bs) value = passes (check b value []) || matches_any check bs value

unfoldable pub is_choice : Numbers → List Value → Value → Bool
is_choice c [] value = false
is_choice c (choice ∷ choices) value = equal_scalar c choice value || is_choice c choices value

-- The choices with commas between.
unfoldable pub describe_all : Numbers → List Value → Bytes
unfolding describe
describe_all c [] = []
describe_all c (v ∷ []) = describe c v
describe_all c (v ∷ vs) = describe c v ++ codes ", " ++ describe_all c vs

unfoldable pub expected : Numbers → Bytes → Bytes → Value → Bytes
unfolding describe
expected c path want got = path ++ (codes ": expected " ++ want ++ codes ", got " ++ describe c got)

unfoldable pub sub_schema : Option Value → Bytes → Option Value
sub_schema none key = none
sub_schema (some props) key = get props key

abbrev pub unknown_option : Bytes → Bytes → Bytes
unknown_option path key = path ++ (codes ": unknown option " ++ 34 ∷ key ++ 34 ∷ [])

-- What a member adds, with its subschema.
abbrev pub member_step :
    Check → Bool → Bytes → Bytes → Value → Option Value → Option Bytes → Option Bytes
member_step check closed path key v none rest =
    if closed then some (unknown_option path key) else rest
member_step check closed path key v (some sub) rest =
    or_else (check sub v (path ++ (codes "." ++ key))) rest

-- The loop over the members, with the properties and whether there may be no other.
unfoldable pub check_members : Check → Option Value → Bool → Bytes → Members → Option Bytes
unfolding sub_schema
check_members check props closed path end = none
check_members check props closed path (member key v ms) =
    member_step check closed path key v (sub_schema props key)
      (check_members check props closed path ms)

abbrev pub missing_option : Bytes → Bytes → Bytes
missing_option path name = path ++ (codes ": missing required option " ++ 34 ∷ name ++ 34 ∷ [])

abbrev pub required_step : Bytes → Bytes → Option Value → Option Bytes → Option Bytes
required_step path name none rest = some (missing_option path name)
required_step path name (some v) rest = rest

unfoldable pub check_required : Bytes → Value → List Value → Option Bytes
check_required path value [] = none
check_required path value (r ∷ rs) =
    required_step path (as_string r) (get value (as_string r)) (check_required path value rs)

abbrev pub is_closed : Option Value → Bool
is_closed (some (boolean false)) = true
is_closed _ = false

abbrev pub elements_or_none : Option Value → List Value
elements_or_none none = []
elements_or_none (some v) = elements v

unfoldable pub check_object : Check → Value → Value → Members → Bytes → Option Bytes
unfolding check_members check_required elements
check_object check schema value ms path =
    or_else
      (check_members check (get schema (codes "properties"))
        (is_closed (get schema (codes "additionalProperties"))) path ms)
      (check_required path value (elements_or_none (get schema (codes "required"))))

unfoldable pub check_items : Numbers → Check → Value → Bytes → ℕ → Items → Option Bytes
check_items c check schema path i nil = none
check_items c check schema path i (cons v xs) =
    or_else (check schema v (path ++ (codes "[" ++ c.print (nonnegative i) ++ codes "]")))
      (check_items c check schema path (suc i) xs)

-- `size < asInt` and `size > asInt`.
abbrev pub fewer : ℕ → IntValue → Bool
fewer n (nonnegative m) = ltb n m
fewer n (negative m) = false

abbrev pub more : ℕ → IntValue → Bool
more n (nonnegative m) = ltb m n
more n (negative m) = true

abbrev pub every_item : Numbers → Check → Option Value → Bytes → Items → Option Bytes
every_item c check none path xs = none
every_item c check (some schema) path xs = check_items c check schema path 0 xs

abbrev pub limit :
    Numbers → (ℕ → IntValue → Bool) → Option Value → Bytes → Bytes → Items → Option Bytes
limit c test none want path xs = none
limit c test (some bound) want path xs =
    if test (length (items_of xs)) (to_int c bound)
    then some (expected c path want (array xs))
    else none

unfoldable pub check_array : Numbers → Check → Value → Items → Bytes → Option Bytes
unfolding check_items expected items_of
check_array c check schema xs path =
    or_else (every_item c check (get schema (codes "items")) path xs) (
      or_else (limit c fewer (get schema (codes "minItems")) (codes "more items") path xs)
        (limit c more (get schema (codes "maxItems")) (codes "fewer items") path xs))

-- The type, where it is a string.
abbrev pub string_or_none : Option Value → Option Bytes
string_or_none (some (string s)) = some s
string_or_none _ = none

unfoldable pub type_name : Value → Option Bytes
type_name schema = string_or_none (get schema (codes "type"))

abbrev pub check_parts : Numbers → Check → Value → Bytes → Value → Bytes → Option Bytes
check_parts c check schema type (object ms) path =
    if bytes_eq type (codes "object") then check_object check schema (object ms) ms path else none
check_parts c check schema type (array xs) path =
    if bytes_eq type (codes "array") then check_array c check schema xs path else none
check_parts c check schema type _ path = none

abbrev pub type_step : Numbers → Check → Value → Value → Bytes → Option Bytes → Option Bytes
type_step c check schema value path none = none
type_step c check schema value path (some type) =
    if matches_type type value
    then check_parts c check schema type value path
    else some (expected c path type value)

unfoldable pub check_type : Numbers → Check → Value → Value → Bytes → Option Bytes
unfolding matches_type expected check_object check_array type_name
check_type c check schema value path = type_step c check schema value path (type_name schema)

-- `oneOf`, or else `anyOf`.
abbrev pub one_or_any : Option Value → Option Value → Option Value
one_or_any (some b) any_of = some b
one_or_any none any_of = any_of

unfoldable pub forms : Value → Option Value
forms schema = one_or_any (get schema (codes "oneOf")) (get schema (codes "anyOf"))

abbrev pub choice_step : Numbers → Check → Value → Value → Bytes → Option Value → Option Bytes
choice_step c check schema value path none = check_type c check schema value path
choice_step c check schema value path (some choices) =
    if is_choice c (elements choices) value
    then none
    else some (
        path
        ++ (codes ": "
            ++ describe c value
            ++ codes " is not one of "
            ++ describe_all c (elements choices)))

abbrev pub form_step : Numbers → Check → Value → Value → Bytes → Option Value → Option Bytes
form_step c check schema value path none =
    choice_step c check schema value path (get schema (codes "enum"))
form_step c check schema value path (some branches) =
    if matches_any check (elements branches) value
    then none
    else some (path ++ (codes ": no allowed form matches " ++ describe c value))

-- The body of `validate`, over its own calls.
unfoldable pub validate_with : Numbers → Check → Value → Value → Bytes → Option Bytes
unfolding matches_any is_choice describe describe_all check_type elements forms
validate_with c check schema value path = form_step c check schema value path (forms schema)

-- A unit of fuel for each level of the schema.
unfoldable pub validate : ℕ → Numbers → Check
unfolding validate_with
validate zero c schema value path = some path
validate (suc fuel) c schema value path = validate_with c (validate fuel c) schema value path

-- The fuel for a schema.
unfoldable mutual
  pub weight : Value → ℕ
  weight (array xs) = suc (items_weight xs)
  weight (object ms) = suc (members_weight ms)
  weight _ = 1

  pub items_weight : Items → ℕ
  items_weight nil = 0
  items_weight (cons v xs) = weight v + items_weight xs

  pub members_weight : Members → ℕ
  members_weight end = 0
  members_weight (member k v ms) = weight v + members_weight ms
