-- ===== src/Tsgo/Json/Parse/Total.antt =====
-- source/fastlint/tsgo/json.cc: every call of the parser ends within its fuel.
use fastlint.Base.{
  ℕ, zero, suc, ◌+◌, ◌*◌, ◌≤◌, ◌<◌, ◌≡◌, ◌≢◌, refl, Bool, true, false, Option, none, some, [], ◌∷◌,
  Bytes, codes, length, arith, Option-cases, inl, inr,
}
use fastlint.Tsgo.Json.Strings.{Result, ok, fail, out_of_fuel}
use fastlint.Tsgo.Json.Strings.Progress.{Moves, Moves-weaken, Moves-bind, string_loop-Moves}
use fastlint.Tsgo.Json.Value.{Value, Items, Members}
use fastlint.Tsgo.Json.Numbers.{
  skip_digits, skip_sign, skip_exponent_sign, at_digit, need_digits, fraction, exponent, spelling,
  parse_number,
}
use fastlint.Tsgo.Json.Parse.{
  skip_space, consume_word, word, parse_string, array_end, object_end, open_quote, colon,
  after_item, after_member, parse_scalar, parse_value, parse_array, array_loop, parse_object,
  object_loop, document_end, enough, parse_document,
}

skip_space-length : (s : Bytes) → length (skip_space s) ≤ length s
unfolding skip_space
skip_space-length [] = omega arith
skip_space-length (c ∷ s) = ground (arith, skip_space-length s)

skip_digits-length : (s : Bytes) → length (skip_digits s) ≤ length s
unfolding skip_digits
skip_digits-length [] = omega arith
skip_digits-length (c ∷ s) = ground (arith, skip_digits-length s)

need_digits-Moves : (s : Bytes) → Moves (length s) (need_digits s)
unfolding need_digits at_digit skip_digits
need_digits-Moves [] = tt
need_digits-Moves (c ∷ s) = ground (arith, skip_digits-length s)

fraction-Moves : (s : Bytes) → Moves (suc (length s)) (fraction s)
unfolding fraction
fraction-Moves [] = omega arith
fraction-Moves (c ∷ s) =
    ground
      (arith, need_digits-Moves s, Moves-weaken (length s) (suc (suc (length s))) (need_digits s))

skip_exponent_sign-length : (s : Bytes) → length (skip_exponent_sign s) ≤ length s
unfolding skip_exponent_sign
skip_exponent_sign-length [] = omega arith
skip_exponent_sign-length (c ∷ s) = ground arith

skip_sign-length : (s : Bytes) → length (skip_sign s) ≤ length s
unfolding skip_sign
skip_sign-length [] = omega arith
skip_sign-length (c ∷ s) = ground arith

exponent-Moves : (s : Bytes) → Moves (suc (length s)) (exponent s)
unfolding exponent
exponent-Moves [] = omega arith
exponent-Moves (c ∷ s) =
    let t = skip_exponent_sign s in
    ground (
      arith,
      skip_exponent_sign-length s,
      need_digits-Moves t,
      Moves-weaken (length t) (suc (suc (length s))) (need_digits t),
    )

spelling-Moves : (start s : Bytes) → Moves (suc (length s)) (spelling start s)
unfolding spelling
spelling-Moves start s = ground arith

parse_number-Moves : (s : Bytes) → Moves (length s) (parse_number s)
unfolding parse_number
parse_number-Moves s =
    Moves-bind (length s) (length s) (need_digits (skip_sign s)) _
      (Moves-weaken _ (length s) (need_digits (skip_sign s)) (skip_sign-length s)
        (need_digits-Moves (skip_sign s)))
      λ _ t ht. Moves-bind (suc (length t)) (length s) (fraction t) _ (fraction-Moves t) λ _ u hu.
        Moves-bind (suc (length u)) (length s) (exponent u) _ (exponent-Moves u) λ _ w hw.
          Moves-weaken (suc (length w)) (length s) (spelling s w) (omega arith) (spelling-Moves s w)

consume_word-length : (w s r : Bytes) → consume_word w s ≡ some r → length r ≤ length s
unfolding consume_word
consume_word-length [] s r h = ground arith
consume_word-length (x ∷ w) [] r h = absurd (cc)
consume_word-length (x ∷ w) (c ∷ s) r h = ground (arith, consume_word-length w s r)

word-Moves :
    (x : ℕ) (w : Bytes) (v : Value) (c : ℕ) (s : Bytes)
    → Moves (suc (length s)) (word (x ∷ w) v (c ∷ s))
unfolding word consume_word
word-Moves x w v c s = elim (Option-cases (consume_word w s)) [
  | inl e ↦ ground (arith, e)
  | inr (r, e) ↦ ground (arith, e, consume_word-length w s r)
]

parse_string-Moves : (s : Bytes) → Moves (length s) (parse_string s)
unfolding parse_string
parse_string-Moves s = string_loop-Moves (suc (length s)) [] s (omega arith)

parse_scalar-Moves : (c : ℕ) (s : Bytes) → Moves (suc (length s)) (parse_scalar c s)
unfolding parse_scalar
parse_scalar-Moves c s = ground (
  arith,
  parse_string-Moves s,
  parse_number-Moves (c ∷ s),
  word-Moves b't' (codes "rue") (Value.boolean true) c s,
  word-Moves b'f' (codes "alse") (Value.boolean false) c s,
  word-Moves b'n' (codes "ull") Value.null c s,
)

array_end-length : (s r : Bytes) → array_end s ≡ some r → length r ≤ length s
unfolding array_end
array_end-length [] r h = absurd (cc)
array_end-length (c ∷ s) r h = ground arith

object_end-length : (s r : Bytes) → object_end s ≡ some r → length r ≤ length s
unfolding object_end
object_end-length [] r h = absurd (cc)
object_end-length (c ∷ s) r h = ground arith

open_quote-Moves : (s : Bytes) → Moves (length s) (open_quote s)
unfolding open_quote
open_quote-Moves [] = tt
open_quote-Moves (c ∷ s) =
    ground (arith, parse_string-Moves s, Moves-weaken (length s) (suc (length s)) (parse_string s))

colon-Moves : (s : Bytes) → Moves (length s) (colon s)
unfolding colon
colon-Moves [] = tt
colon-Moves (c ∷ s) = ground arith

after_item-Moves : (s : Bytes) → Moves (length s) (after_item s)
unfolding after_item
after_item-Moves [] = tt
after_item-Moves (c ∷ s) = ground arith

after_member-Moves : (s : Bytes) → Moves (length s) (after_member s)
unfolding after_member
after_member-Moves [] = tt
after_member-Moves (c ∷ s) = ground arith

-- The last step of a loop, whatever `again` says.
more-Moves {ℓ} :
    {A : Type ℓ} (again : Bool) (n : ℕ) (x y : Result A)
    → Moves n x
    → Moves n y
    → Moves n (elim again [ true ↦ x | false ↦ y ])
more-Moves true n x y hx hy = hx
more-Moves false n x y hx hy = hy

-- An empty array or object, or its loop.
ended-Moves {ℓ} :
    {A : Type ℓ} (o : Option Bytes) (n : ℕ) (v : A) (x : Result A)
    → ((r : Bytes) → o ≡ some r → length r < n)
    → Moves n x
    → Moves n (elim o [ some r ↦ ok v r | none ↦ x ])
ended-Moves none n v x h k = k
ended-Moves (some r) n v x h k = h r refl

mutual
  unfolding parse_value

  parse_value-Moves :
      (fuel depth : ℕ) (s : Bytes)
      → length s * 3 + 1 ≤ fuel
      → Moves (length s) (parse_value fuel depth s)
  parse_value-Moves zero depth s h = absurd (omega arith)
  parse_value-Moves (suc fuel) depth [] h = ground arith
  parse_value-Moves (suc fuel) depth (c ∷ s) h =
      let m = parse_object-Moves fuel depth s (omega arith) in
      let n = parse_array-Moves fuel depth s (omega arith) in
      ground (arith, m, n, parse_scalar-Moves c s)

  parse_array-Moves :
      (fuel depth : ℕ) (s : Bytes)
      → length s * 3 + 3 ≤ fuel
      → Moves (suc (length s)) (parse_array fuel depth s)
  parse_array-Moves zero depth s h = absurd (omega arith)
  parse_array-Moves (suc fuel) depth s h =
      let t = skip_space s in
      let ht = skip_space-length s in
      ended-Moves (array_end t) (suc (length s)) (Value.array Items.nil) _
        (λ r e. omega (arith, array_end-length t r e))
        (Moves-bind (length t) (suc (length s)) (array_loop fuel depth t) _
          (array_loop-Moves fuel depth t (omega arith)) (λ members r hr. omega arith))

  array_loop-Moves :
      (fuel depth : ℕ) (s : Bytes)
      → length s * 3 + 2 ≤ fuel
      → Moves (length s) (array_loop fuel depth s)
  array_loop-Moves zero depth s h = absurd (omega arith)
  array_loop-Moves (suc fuel) depth s h =
      let t = skip_space s in
      let ht = skip_space-length s in
      Moves-bind (length t) (length s) (parse_value fuel (depth + 1) t) _
        (parse_value-Moves fuel (depth + 1) t (omega arith))
        λ item r hr.
          let r' = skip_space r in
          let hr' = skip_space-length r in
          Moves-bind (length r') (length s) (after_item r') _ (after_item-Moves r') λ again u hu.
            more-Moves again (length s) _ _
              (Moves-bind (length u) (length s) (array_loop fuel depth u) _
                (array_loop-Moves fuel depth u (omega arith)) (λ items w hw. omega arith))
              (omega arith)

  parse_object-Moves :
      (fuel depth : ℕ) (s : Bytes)
      → length s * 3 + 3 ≤ fuel
      → Moves (suc (length s)) (parse_object fuel depth s)
  parse_object-Moves zero depth s h = absurd (omega arith)
  parse_object-Moves (suc fuel) depth s h =
      let t = skip_space s in
      let ht = skip_space-length s in
      ended-Moves (object_end t) (suc (length s)) (Value.object Members.end) _
        (λ r e. omega (arith, object_end-length t r e))
        (Moves-bind (length t) (suc (length s)) (object_loop fuel depth t) _
          (object_loop-Moves fuel depth t (omega arith)) (λ members r hr. omega arith))

  object_loop-Moves :
      (fuel depth : ℕ) (s : Bytes)
      → length s * 3 + 2 ≤ fuel
      → Moves (length s) (object_loop fuel depth s)
  object_loop-Moves zero depth s h = absurd (omega arith)
  object_loop-Moves (suc fuel) depth s h =
      let t = skip_space s in
      let ht = skip_space-length s in
      Moves-bind (length t) (length s) (open_quote t) _ (open_quote-Moves t) λ key r hr.
        let r' = skip_space r in
        let hr' = skip_space-length r in
        Moves-bind (length r') (length s) (colon r') _ (colon-Moves r') λ _ u hu.
          let u' = skip_space u in
          let hu' = skip_space-length u in
          Moves-bind (length u') (length s) (parse_value fuel (depth + 1) u') _
            (parse_value-Moves fuel (depth + 1) u' (omega arith))
            λ item w hw.
              let w' = skip_space w in
              let hw' = skip_space-length w in
              Moves-bind (length w') (length s) (after_member w') _ (after_member-Moves w')
                λ again x hx.
                  more-Moves again (length s) _ _
                    (Moves-bind (length x) (length s) (object_loop fuel depth x) _
                      (object_loop-Moves fuel depth x (omega arith)) (λ members y hy. omega arith))
                    (omega arith)

Moves-ne-out_of_fuel {ℓ} : {A : Type ℓ} (n : ℕ) (r : Result A) → Moves n r → r ≢ out_of_fuel
Moves-ne-out_of_fuel n (ok x s) h = cc
Moves-ne-out_of_fuel n (fail e) h = cc
Moves-ne-out_of_fuel n out_of_fuel h = absurd h

document_end-Moves : (v : Value) (s : Bytes) → Moves (suc (length s)) (document_end v s)
unfolding document_end
document_end-Moves v [] = omega arith
document_end-Moves v (c ∷ s) = tt

-- A document is parsed or refused: the parser never runs out of the fuel it is given.
pub parse_document_total : (text : Bytes) → parse_document text ≢ out_of_fuel
unfolding parse_document
parse_document_total text =
    let t = skip_space text in
    let ht = skip_space-length text in
    Moves-ne-out_of_fuel (suc (length text)) _ (
      Moves-bind (length t) (suc (length text)) (parse_value (enough text) 0 t) _
        (parse_value-Moves (enough text) 0 t (omega arith))
        λ v s hs.
          Moves-weaken (suc (length (skip_space s))) (suc (length text)) _
            (omega (arith, skip_space-length s)) (document_end-Moves v (skip_space s)))
