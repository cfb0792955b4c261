-- ===== src/Lint/Schema/Complete.antt =====
-- source/fastlint/lint/option_schema.cc: what a schema allows is passed by `validate`, with fuel
-- beyond the weight of the schema.
use fastlint.Base.{
  ℕ, zero, suc, ◌+◌, ◌≤◌, ◌<◌, ◌≡◌, refl, ◌∙◌, ◌↔◌, Bool, true, Option, none, some, List, [], ◌∷◌,
  ◌++◌, Bytes, codes, bytes_eq, or_right, Bool-cases, inl, inr, ap, arith,
}
use mathlib.Core.Option.{some-injective}
use fastlint.Tsgo.Json.Value.{
  Value, null, boolean, number, string, array, object, Items, nil, cons, Members, end, member,
  find_member, get,
}
use fastlint.Lint.Schema.{
  weight, items_weight, members_weight, Numbers, Check, IntValue, nonnegative, elements, items_of,
  values_of, matches_any, sub_schema, type_name, forms, one_or_any, check_members, check_required,
  check_object, check_items, every_item, limit, fewer, more, check_array, check_parts, check_type,
  validate_with, validate, type_step,
}
use fastlint.Lint.Schema.Allowed.{
  validate_sound, Allows, by_form, by_choice, by_type, AllowsAny, here, there, AllowsType, untyped,
  typed, AllowsParts, simple, logical, numeric, textual, other_object, an_object, other_array,
  an_array, AllowsMembers, no_member, known, additional, AllowsItems, unchecked, no_item, item,
  HasAll, no_more, one_more, Within,
}

total : List Value → ℕ
unfolding weight
total [] = 0
total (v ∷ vs) = weight v + total vs

find_member_lighter :
    (ms : Members) (key : Bytes) (v : Value)
    → find_member ms key ≡ some v
    → weight v ≤ members_weight ms
unfolding find_member members_weight weight
find_member_lighter end key v h = absurd (cc)
find_member_lighter (member k w ms) key v h = elim (Bool-cases (bytes_eq k key)) [
  | inl e ↦ let q = ap weight (some-injective _ _ (rw e at h)) in omega arith
  | inr e ↦ let b = find_member_lighter ms key v (rw e at h) in omega arith
]

get_lighter : (s : Value) (key : Bytes) (v : Value) → get s key ≡ some v → weight v < weight s
unfolding get weight
get_lighter (object ms) key v h = let b = find_member_lighter ms key v h in omega arith
get_lighter null key v h = absurd (cc)
get_lighter (boolean b) key v h = absurd (cc)
get_lighter (number s) key v h = absurd (cc)
get_lighter (string s) key v h = absurd (cc)
get_lighter (array xs) key v h = absurd (cc)

items_total : (xs : Items) → total (items_of xs) ≡ items_weight xs
unfolding total items_weight items_of
items_total nil = refl
items_total (cons v xs) = rw (items_total xs) refl

values_total : (ms : Members) → total (values_of ms) ≡ members_weight ms
unfolding total members_weight values_of
values_total end = refl
values_total (member k v ms) = rw (values_total ms) refl

elements_lighter : (v : Value) → total (elements v) < weight v
unfolding elements weight total
elements_lighter (array xs) = let e = items_total xs in omega arith
elements_lighter (object ms) = let e = values_total ms in omega arith
elements_lighter null = omega arith
elements_lighter (boolean b) = omega arith
elements_lighter (number s) = omega arith
elements_lighter (string s) = omega arith

forms_of :
    (s v : Value) (o : Option Value)
    → get s (codes "oneOf") ≡ o
    → one_or_any o (get s (codes "anyOf")) ≡ some v
    → weight v < weight s
forms_of s v none e h = get_lighter s (codes "anyOf") v h
forms_of s v (some b) e h = get_lighter s (codes "oneOf") v (e ∙ h)

forms_lighter : (s v : Value) → forms s ≡ some v → weight v < weight s
unfolding forms
forms_lighter s v h = forms_of s v (get s (codes "oneOf")) refl h

sub_lighter :
    (props : Option Value) (key : Bytes) (sub : Value) (bound : ℕ)
    → ((p : Value) → props ≡ some p → weight p < bound)
    → sub_schema props key ≡ some sub
    → weight sub < bound
unfolding sub_schema
sub_lighter none key sub bound below h = absurd (cc)
sub_lighter (some p) key sub bound below h =
    let a = below p refl in let b = get_lighter p key sub h in omega arith

required_passes :
    (path : Bytes) (value : Value) (rs : List Value)
    → HasAll value rs
    → check_required path value rs ≡ none
unfolding check_required
required_passes path value _ no_more = refl
required_passes path value _ (one_more {rs = rs} e h) = rw e (required_passes path value rs h)

limit_passes :
    (c : Numbers) (test : ℕ → IntValue → Bool) (bound : Option Value) (want path : Bytes)
    (xs : Items)
    → Within c test bound xs
    → limit c test bound want path xs ≡ none
limit_passes c test none want path xs h = refl
limit_passes c test (some b) want path xs h = rw h refl

every_passes :
    (c : Numbers) (check : Check) (items : Option Value) (path : Bytes) (xs : Items)
    → ((s : Value) → items ≡ some s → check_items c check s path 0 xs ≡ none)
    → every_item c check items path xs ≡ none
every_passes c check none path xs each = refl
every_passes c check (some s) path xs each = each s refl

-- What a schema allows is passed, by enough fuel.
module _ (c : Numbers) where
  abbrev Passes : ℕ → Value → Value → Type 0
  Passes fuel schema value = (path : Bytes) → validate fuel c schema value path ≡ none

  mutual
    unfolding validate validate_with matches_any check_members check_items check_object check_array
        check_type total

    complete :
        (fuel : ℕ) (schema value : Value)
        → Allows c schema value
        → weight schema < fuel
        → Passes fuel schema value
    complete zero s v a h path = absurd (omega arith)
    complete (suc f) s v (by_form {branches = b} e any) h path =
        let w = forms_lighter s b e in
        let t = elements_lighter b in
        let p = any_complete f (elements b) v any (omega arith) in rw (e, p) refl
    complete (suc f) s v (by_choice {choices = b} e g is) h path = rw (e, g, is) refl
    complete (suc f) s v (by_type e g t) h path =
        rw (e, g) (type_complete f s v (type_name s) t h path)

    any_complete :
        (fuel : ℕ) (bs : List Value) (value : Value)
        → AllowsAny c bs value
        → total bs < fuel
        → matches_any (validate fuel c) bs value ≡ true
    any_complete fuel _ value (here {b = b} {bs = bs} a) h =
        let p = complete fuel b value a (omega arith) [] in rw p refl
    any_complete fuel _ value (there {b = b} {bs = bs} a) h =
        or_right _ _ (any_complete fuel bs value a (omega arith))

    type_complete :
        (fuel : ℕ) (s v : Value) (o : Option Bytes)
        → AllowsType c o s v
        → weight s < suc fuel
        → (path : Bytes) → type_step c (validate fuel c) s v path o ≡ none
    type_complete fuel s v _ untyped h path = refl
    type_complete fuel s v _ (typed {type = type} e p) h path =
        rw e (parts_complete fuel type s v p h path)

    parts_complete :
        (fuel : ℕ) (type : Bytes) (s v : Value)
        → AllowsParts c type s v
        → weight s < suc fuel
        → (path : Bytes) → check_parts c (validate fuel c) s type v path ≡ none
    parts_complete fuel type s _ simple h path = refl
    parts_complete fuel type s _ (logical b) h path = refl
    parts_complete fuel type s _ (numeric n) h path = refl
    parts_complete fuel type s _ (textual n) h path = refl
    parts_complete fuel type s _ (other_object e) h path = rw e refl
    parts_complete fuel type s _ (an_object {ms = ms} e m r) h path =
        let below = λ (p : Value) (q : get s (codes "properties") ≡ some p).
          get_lighter s (codes "properties") p q in
        rw (e, members_complete fuel _ _ ms m (weight s) below h path)
          (required_passes path (object ms) _ r)
    parts_complete fuel type s _ (other_array e) h path = rw e refl
    parts_complete fuel type s _ (an_array {xs = xs} e i lo hi) h path =
        let each = λ (p : Value) (q : get s (codes "items") ≡ some p).
          items_complete fuel _ xs i p q (let l = get_lighter s (codes "items") p q in omega arith)
            0 path in
        rw (e, every_passes c (validate fuel c) _ path xs each)
          (rw (limit_passes c fewer _ (codes "more items") path xs lo)
            (limit_passes c more _ (codes "fewer items") path xs hi))

    members_complete :
        (fuel : ℕ) (props : Option Value) (closed : Bool) (ms : Members)
        → AllowsMembers c props closed ms
        → (bound : ℕ) → ((p : Value) → props ≡ some p → weight p < bound)
        → bound < suc fuel
        → (path : Bytes) → check_members (validate fuel c) props closed path ms ≡ none
    members_complete fuel props closed _ no_member bound below h path = refl
    members_complete fuel props closed _ (known {key = key} {v = v} {sub = sub} {ms = ms} e a m)
          bound below h path =
        let l = sub_lighter props key sub bound below e in
        let p = complete fuel sub v a (omega arith) (path ++ (codes "." ++ key)) in
        rw (e, p) (members_complete fuel props closed ms m bound below h path)
    members_complete fuel props closed _ (additional {ms = ms} e o m) bound below h path =
        rw (e, o) (members_complete fuel props closed ms m bound below h path)

    items_complete :
        (fuel : ℕ) (items : Option Value) (xs : Items)
        → AllowsItems c items xs
        → (s : Value) → items ≡ some s
        → weight s < fuel
        → (i : ℕ) (path : Bytes) → check_items c (validate fuel c) s path i xs ≡ none
    items_complete fuel _ xs unchecked s e h i path = absurd (cc)
    items_complete fuel _ _ no_item s e h i path = refl
    items_complete fuel _ _ (item {schema = t} {v = v} {xs = xs} a m) s e h i path =
        let q = some-injective _ _ e in
        let l = ap weight q in
        let p =
          complete fuel t v a (omega arith)
            (path ++ (codes "[" ++ c.print (nonnegative i) ++ codes "]")) in
        rw (rw q at p) (items_complete fuel (some t) xs m s e h (suc i) path)

-- A schema's check and what the schema allows agree: with more fuel than the schema weighs, `validate`
-- reports no error just where `Allows` holds: a form of `oneOf` or `anyOf` allows the value, or else
-- the value is a choice of `enum`, or else it has the type, and its members, required options, items
-- and size are as the schema asks.
pub validate_lem :
    (c : Numbers) (fuel : ℕ) (schema value : Value) (path : Bytes)
    → weight schema < fuel
    → (validate fuel c schema value path ≡ none) ↔ Allows c schema value
validate_lem c fuel schema value path h =
    (validate_sound c fuel schema value path, λ a. complete c fuel schema value a h path)
