-- ===== src/Lint/Schema/Allowed.antt =====
-- source/fastlint/lint/option_schema.cc: what a schema allows, without an order of the checks, and
-- that `validate` passes only what is allowed.
use fastlint.Base.{
  ℕ, zero, suc, ◌≡◌, refl, Bool, true, false, Option, none, some, List, [], ◌∷◌, ◌++◌, Bytes, codes,
  if◌then◌else◌, length, bytes_eq, or_true, Bool-cases, Option-cases, inl, inr,
}
use fastlint.Tsgo.Json.Value.{
  Value, null, boolean, number, string, array, object, Items, nil, cons, Members, end, member, get,
  as_string,
}
use fastlint.Lint.Schema.{
  IntValue, nonnegative, expected, Numbers, Check, elements, items_of, matches_type, is_choice,
  matches_any, passes, or_else, sub_schema, is_closed, elements_or_none, fewer, more, to_int,
  type_name, forms, check_members, check_required, check_object, check_items, every_item, limit,
  check_array, check_parts, check_type, validate_with, validate, type_step, choice_step, form_step,
  required_step, unknown_option,
}

-- Every name has a member.
pub data HasAll (value : Value) : List Value → Type 0 where
  no_more : HasAll value []
  one_more :
      {r : Value} {rs : List Value} {v : Value}
      → get value (as_string r) ≡ some v
      → HasAll value rs
      → HasAll value (r ∷ rs)

-- The size is not beyond the bound, where there is one.
abbrev pub Within : Numbers → (ℕ → IntValue → Bool) → Option Value → Items → Type 0
Within c test none xs = true ≡ true
Within c test (some bound) xs = test (length (items_of xs)) (to_int c bound) ≡ false

mutual
  pub data Allows (c : Numbers) : Value → Value → Type 0 where
    by_form :
        {schema value branches : Value}
        → forms schema ≡ some branches
        → AllowsAny c (elements branches) value
        → Allows c schema value
    by_choice :
        {schema value choices : Value}
        → forms schema ≡ none
        → get schema (codes "enum") ≡ some choices
        → is_choice c (elements choices) value ≡ true
        → Allows c schema value
    by_type :
        {schema value : Value}
        → forms schema ≡ none
        → get schema (codes "enum") ≡ none
        → AllowsType c (type_name schema) schema value
        → Allows c schema value

  pub data AllowsAny (c : Numbers) : List Value → Value → Type 0 where
    here :
        {b : Value} {bs : List Value} {value : Value}
        → Allows c b value
        → AllowsAny c (b ∷ bs) value
    there :
        {b : Value} {bs : List Value} {value : Value}
        → AllowsAny c bs value
        → AllowsAny c (b ∷ bs) value

  pub data AllowsType (c : Numbers) : Option Bytes → Value → Value → Type 0 where
    untyped : {schema value : Value} → AllowsType c none schema value
    typed :
        {type : Bytes} {schema value : Value}
        → matches_type type value ≡ true
        → AllowsParts c type schema value
        → AllowsType c (some type) schema value

  -- The members of an object and the items of an array, where the type says so.
  pub data AllowsParts (c : Numbers) : Bytes → Value → Value → Type 0 where
    simple : {type : Bytes} {schema : Value} → AllowsParts c type schema null
    logical : {type : Bytes} {schema : Value} (b : Bool) → AllowsParts c type schema (boolean b)
    numeric : {type : Bytes} {schema : Value} (s : Bytes) → AllowsParts c type schema (number s)
    textual : {type : Bytes} {schema : Value} (s : Bytes) → AllowsParts c type schema (string s)
    other_object :
        {type : Bytes} {schema : Value} {ms : Members}
        → bytes_eq type (codes "object") ≡ false
        → AllowsParts c type schema (object ms)
    an_object :
        {type : Bytes} {schema : Value} {ms : Members}
        → bytes_eq type (codes "object") ≡ true
        → AllowsMembers c
            (get schema (codes "properties"))
            (is_closed (get schema (codes "additionalProperties")))
            ms
        → HasAll (object ms) (elements_or_none (get schema (codes "required")))
        → AllowsParts c type schema (object ms)
    other_array :
        {type : Bytes} {schema : Value} {xs : Items}
        → bytes_eq type (codes "array") ≡ false
        → AllowsParts c type schema (array xs)
    an_array :
        {type : Bytes} {schema : Value} {xs : Items}
        → bytes_eq type (codes "array") ≡ true
        → AllowsItems c (get schema (codes "items")) xs
        → Within c fewer (get schema (codes "minItems")) xs
        → Within c more (get schema (codes "maxItems")) xs
        → AllowsParts c type schema (array xs)

  pub data AllowsMembers (c : Numbers) : Option Value → Bool → Members → Type 0 where
    no_member : {props : Option Value} {closed : Bool} → AllowsMembers c props closed end
    known :
        {props : Option Value} {closed : Bool} {key : Bytes} {v sub : Value} {ms : Members}
        → sub_schema props key ≡ some sub
        → Allows c sub v
        → AllowsMembers c props closed ms
        → AllowsMembers c props closed (member key v ms)
    additional :
        {props : Option Value} {closed : Bool} {key : Bytes} {v : Value} {ms : Members}
        → sub_schema props key ≡ none
        → closed ≡ false
        → AllowsMembers c props closed ms
        → AllowsMembers c props closed (member key v ms)

  pub data AllowsItems (c : Numbers) : Option Value → Items → Type 0 where
    unchecked : {xs : Items} → AllowsItems c none xs
    no_item : {schema : Value} → AllowsItems c (some schema) nil
    item :
        {schema v : Value} {xs : Items}
        → Allows c schema v
        → AllowsItems c (some schema) xs
        → AllowsItems c (some schema) (cons v xs)

pub or_else-none : (a b : Option Bytes) → or_else a b ≡ none → (a ≡ none) × (b ≡ none)
or_else-none none b h = (refl, h)
or_else-none (some e) b h = absurd (cc)

no_error : (e : Bytes) (b : Bool) → (if b then none else some e) ≡ none → b ≡ true
no_error e true h = refl
no_error e false h = absurd (cc)

no_refusal : (e : Bytes) (b : Bool) → (if b then some e else none) ≡ none → b ≡ false
no_refusal e true h = absurd (cc)
no_refusal e false h = refl

passes_none : (o : Option Bytes) → passes o ≡ true → o ≡ none
passes_none none h = refl
passes_none (some e) h = absurd (cc)

module _ (c : Numbers) (check : Check)
    (sound : (schema value : Value) (path : Bytes)
      → check schema value path ≡ none
      → Allows c schema value) where
  any_sound :
      (bs : List Value) (value : Value) → matches_any check bs value ≡ true → AllowsAny c bs value
  unfolding matches_any
  any_sound [] value h = absurd (cc)
  any_sound (b ∷ bs) value h = elim (or_true (passes (check b value [])) _ h) [
    | inl e ↦ here (sound b value [] (passes_none _ e))
    | inr e ↦ there (any_sound bs value e)
  ]

  required_sound :
      (path : Bytes) (value : Value) (rs : List Value)
      → check_required path value rs ≡ none
      → HasAll value rs
  unfolding check_required
  required_sound path value [] h = no_more
  required_sound path value (r ∷ rs) h = elim (Option-cases (get value (as_string r))) [
    | inl e ↦ absurd (
        let q : required_step path (as_string r) none (check_required path value rs) ≡ none =
          rw e at h in
        cc)
    | inr (v, e) ↦ one_more e (required_sound path value rs (rw e at h))
  ]

  members_sound :
      (props : Option Value) (closed : Bool) (path : Bytes) (ms : Members)
      → check_members check props closed path ms ≡ none
      → AllowsMembers c props closed ms
  unfolding check_members
  members_sound props closed path end h = no_member
  members_sound props closed path (member key v ms) h = elim (Option-cases (sub_schema props key)) [
    | inl e ↦ elim (Bool-cases closed) [
      | inl o ↦ absurd (let q : some (unknown_option path key) ≡ none = rw (e, o) at h in cc)
      | inr o ↦ additional e o (members_sound props closed path ms (rw (e, o) at h))
    ]
    | inr (sub, e) ↦
        let q = or_else-none (check sub v (path ++ (codes "." ++ key))) _ (rw e at h) in
        known e (sound sub v _ q.0) (members_sound props closed path ms q.1)
  ]

  items_sound :
      (schema : Value) (path : Bytes) (i : ℕ) (xs : Items)
      → check_items c check schema path i xs ≡ none
      → AllowsItems c (some schema) xs
  unfolding check_items
  items_sound schema path i nil h = no_item
  items_sound schema path i (cons v xs) h =
      let q =
        or_else-none (check schema v (path ++ (codes "[" ++ c.print (nonnegative i) ++ codes "]")))
          _ h in
      item (sound schema v _ q.0) (items_sound schema path (suc i) xs q.1)

  every_item_sound :
      (schema : Option Value) (path : Bytes) (xs : Items)
      → every_item c check schema path xs ≡ none
      → AllowsItems c schema xs
  every_item_sound none path xs h = unchecked
  every_item_sound (some schema) path xs h = items_sound schema path 0 xs h

  limit_sound :
      (test : ℕ → IntValue → Bool) (bound : Option Value) (want path : Bytes) (xs : Items)
      → limit c test bound want path xs ≡ none
      → Within c test bound xs
  limit_sound test none want path xs h = refl
  limit_sound test (some b) want path xs h =
      no_refusal (expected c path want (array xs)) (test (length (items_of xs)) (to_int c b)) h

  parts_sound :
      (schema : Value) (type : Bytes) (value : Value) (path : Bytes)
      → check_parts c check schema type value path ≡ none
      → AllowsParts c type schema value
  unfolding check_object check_array
  parts_sound schema type null path h = simple
  parts_sound schema type (boolean b) path h = logical b
  parts_sound schema type (number s) path h = numeric s
  parts_sound schema type (string s) path h = textual s
  parts_sound schema type (object ms) path h = elim (Bool-cases (bytes_eq type (codes "object"))) [
    | inl e ↦
        let q =
          or_else-none
            (check_members check (get schema (codes "properties"))
              (is_closed (get schema (codes "additionalProperties"))) path ms)
            _ (rw e at h) in
        an_object e (members_sound _ _ path ms q.0) (required_sound path (object ms) _ q.1)
    | inr e ↦ other_object e
  ]
  parts_sound schema type (array xs) path h = elim (Bool-cases (bytes_eq type (codes "array"))) [
    | inl e ↦
        let q =
          or_else-none (every_item c check (get schema (codes "items")) path xs) _ (rw e at h) in
        let w =
          or_else-none (limit c fewer (get schema (codes "minItems")) (codes "more items") path xs)
            _ q.1 in
        an_array e (every_item_sound _ path xs q.0) (limit_sound fewer _ _ path xs w.0)
          (limit_sound more _ _ path xs w.1)
    | inr e ↦ other_array e
  ]

  type_step_sound :
      (schema value : Value) (path : Bytes) (o : Option Bytes)
      → type_step c check schema value path o ≡ none
      → AllowsType c o schema value
  type_step_sound schema value path none h = untyped
  type_step_sound schema value path (some type) h = elim (Bool-cases (matches_type type value)) [
    | inl e ↦ typed e (parts_sound schema type value path (rw e at h))
    | inr e ↦ absurd (let q : some (expected c path type value) ≡ none = rw e at h in cc)
  ]

  choice_step_sound :
      (schema value : Value) (path : Bytes) (o : Option Value)
      → forms schema ≡ none
      → get schema (codes "enum") ≡ o
      → choice_step c check schema value path o ≡ none
      → Allows c schema value
  unfolding check_type
  choice_step_sound schema value path none e f h =
      by_type e f (type_step_sound schema value path (type_name schema) h)
  choice_step_sound schema value path (some choices) e f h =
      by_choice e f (no_error _ (is_choice c (elements choices) value) h)

  form_step_sound :
      (schema value : Value) (path : Bytes) (o : Option Value)
      → forms schema ≡ o
      → form_step c check schema value path o ≡ none
      → Allows c schema value
  form_step_sound schema value path (some branches) e h = by_form e (
      any_sound (elements branches) value
        (no_error _ (matches_any check (elements branches) value) h))
  form_step_sound schema value path none e h =
      choice_step_sound schema value path (get schema (codes "enum")) e refl h

-- What `validate` passes, with whatever fuel, the schema allows.
pub validate_sound :
    (c : Numbers) (fuel : ℕ) (schema value : Value) (path : Bytes)
    → validate fuel c schema value path ≡ none
    → Allows c schema value
unfolding validate validate_with
validate_sound c zero schema value path h = absurd (cc)
validate_sound c (suc fuel) schema value path h =
    form_step_sound c (validate fuel c) (validate_sound c fuel) schema value path (forms schema)
      refl h
