-- ===== src/Lint/Schema/Options.antt =====
-- source/fastlint/lint/option_schema.cc: `validateOptions`.
use fastlint.Base.{
  ℕ, suc, ◌-◌, ◌≤◌, ◌≡◌, ◌↔◌, refl, Option, none, some, List, [], ◌∷◌, ◌++◌, Bytes, codes, ltb,
  if◌then◌else◌, length, drop, Bool-cases, inl, inr, arith,
}
use fastlint.Tsgo.Json.Value.{Value, array, Items}
use fastlint.Tsgo.Json.Strings.{Result, ok}
use fastlint.Tsgo.Json.Parse.{parse_document}
use fastlint.Lint.Schema.{Numbers, nonnegative, or_else, items_of, weight, validate}
use fastlint.Lint.Schema.Allowed.{Allows, or_else-none}
use fastlint.Lint.Schema.Complete.{validate_lem}

-- The text in front of the number of an option.
abbrev prefix : Bytes → Bytes
prefix name = codes "config: rule " ++ 34 ∷ name ++ (34 ∷ codes " option ")

-- The options from number `k` on, with their schemas.
unfoldable pub option_loop : Numbers → Bytes → ℕ → List Value → List Value → Option Bytes
unfolding validate
option_loop c name k (s ∷ ss) (o ∷ os) =
    or_else (validate (suc (weight s)) c s o (prefix name ++ c.print (nonnegative k)))
      (option_loop c name (suc k) ss os)
option_loop c name k _ _ = none

abbrev too_many : Numbers → Bytes → ℕ → Bytes
too_many c name count =
    prefix name ++ (c.print (nonnegative count) ++ codes ": the rule takes no such option")

-- The severity stands in front of the options.
unfoldable pub check_setting : Numbers → Bytes → List Value → List Value → Option Bytes
unfolding option_loop
check_setting c name ss xs =
    if ltb (length ss) (length xs - 1)
    then some (too_many c name (length ss))
    else option_loop c name 0 ss (drop 1 xs)

-- A schema that does not parse, or is no array, lets everything through.
abbrev pub with_schema : Numbers → Bytes → Items → Result Value → Option Bytes
with_schema c name xs (ok (array ss) rest) = check_setting c name (items_of ss) (items_of xs)
with_schema c name xs _ = none

-- The rule's name and schema, and the setting.
unfoldable pub validate_options : Numbers → Bytes → Option Bytes → Option Value → Option Bytes
unfolding check_setting items_of parse_document
validate_options c name (some text) (some (array xs)) = with_schema c name xs (parse_document text)
validate_options c name _ _ = none

-- Each option is allowed by its schema.
pub data AllowsOptions (c : Numbers) : List Value → List Value → Type 0 where
  no_options : {ss : List Value} → AllowsOptions c ss []
  option :
      {s o : Value} {ss os : List Value}
      → Allows c s o
      → AllowsOptions c ss os
      → AllowsOptions c (s ∷ ss) (o ∷ os)

module _ (c : Numbers) (name : Bytes) where
  loop_sound :
      (k : ℕ) (ss os : List Value)
      → length os ≤ length ss
      → option_loop c name k ss os ≡ none
      → AllowsOptions c ss os
  unfolding option_loop
  loop_sound k ss [] l h = no_options
  loop_sound k [] (o ∷ os) l h = absurd (omega arith)
  loop_sound k (s ∷ ss) (o ∷ os) l h =
      let path = prefix name ++ c.print (nonnegative k) in
      let q = or_else-none (validate (suc (weight s)) c s o path) _ h in
      option ((validate_lem c (suc (weight s)) s o path (omega arith)).0 q.0)
        (loop_sound (suc k) ss os (omega arith) q.1)

  loop_complete :
      (k : ℕ) (ss os : List Value) → AllowsOptions c ss os → option_loop c name k ss os ≡ none
  unfolding option_loop
  loop_complete k [] _ no_options = refl
  loop_complete k (s ∷ ss) _ no_options = refl
  loop_complete k _ _ (option {s = s} {o = o} {ss = ss} {os = os} a m) =
      let p =
        (validate_lem c (suc (weight s)) s o (prefix name ++ c.print (nonnegative k))
            (omega arith)).1
          a in
      rw p (loop_complete (suc k) ss os m)

  fewer_options : (ss os : List Value) → AllowsOptions c ss os → length os ≤ length ss
  fewer_options ss _ no_options = omega arith
  fewer_options _ _ (option {ss = ss} {os = os} a m) = omega (arith, fewer_options ss os m)

  tail_length : (xs : List Value) → length (drop 1 xs) ≡ length xs - 1
  tail_length [] = omega arith
  tail_length (x ∷ xs) = omega arith

  check_setting_lem :
      (ss xs : List Value) → (check_setting c name ss xs ≡ none) ↔ AllowsOptions c ss (drop 1 xs)
  unfolding check_setting
  check_setting_lem ss xs = elim (Bool-cases (ltb (length ss) (length xs - 1))) [
    | inl e ↦ (
      λ h. absurd (let q : some (too_many c name (length ss)) ≡ none = rw e at h in cc),
      λ a. absurd (
          let f = fewer_options ss (drop 1 xs) a in
          let t = tail_length xs in ground (arith, e, f, t)),
    )
    | inr e ↦ (
      λ h. loop_sound 0 ss (drop 1 xs) (let t = tail_length xs in ground (arith, e, t)) (rw e at h),
      λ a. rw e (loop_complete 0 ss (drop 1 xs) a),
    )
  ]

-- For a rule whose schema parses to an array, `validate_options` reports no error for a setting just
-- where there are no more options behind the severity than schemas, and each option is allowed by the
-- schema with its number.
pub validate_options_lem :
    (c : Numbers) (name text rest : Bytes) (ss xs : Items)
    → parse_document text ≡ ok (array ss) rest
    → (validate_options c name (some text) (some (array xs)) ≡ none)
      ↔ AllowsOptions c (items_of ss) (drop 1 (items_of xs))
unfolding validate_options
validate_options_lem c name text rest ss xs h =
    rw h (check_setting_lem c name (items_of ss) (items_of xs))
