-- ===== src/Lint/Regex/Lengths.antt =====
-- source/fastlint/lint/regex.cc: escapes and quantifiers leave no more of the pattern than they found.
use fastlint.Base.{
  ℕ, zero, suc, ◌+◌, ◌-◌, ◌*◌, ◌≤◌, ◌≡◌, inl, inr, Option, none, some, [], ◌∷◌, Bytes, arith,
  length, Option-cases,
}
use fastlint.Lint.Regex.{Quantifier}
use fastlint.Lint.Regex.Escape.{
  hex_value, hex2, braced_digits, close_brace, braced, hex4, unicode, escape_char, digit_after,
}
use fastlint.Lint.Regex.Quantity.{
  digits_loop, lazy, upper_bound, close_count, counted, parse_quantifier,
}

hex2_length : (s : Bytes) → length ((hex2 s).1) ≤ length s
unfolding hex2
hex2_length [] = omega arith
hex2_length (a ∷ []) = omega arith
hex2_length (a ∷ b ∷ s) = ground arith

braced_digits_length :
    (value : Option ℕ) (s : Bytes) → length ((braced_digits value s).1) ≤ length s
unfolding braced_digits
braced_digits_length value [] = omega arith
braced_digits_length value (c ∷ s) = elim (Option-cases (hex_value c)) [
  | inl e ↦ ground (arith, e)
  | inr (h, e) ↦ ground (arith, e, braced_digits_length (some (digit_after 16 value h)) s)
]

hex4_length :
    (start : Bytes) (left value : ℕ) (s : Bytes)
    → length s ≤ length start
    → length ((hex4 start left value s).1) ≤ length start
unfolding hex4
hex4_length start zero value s h = h
hex4_length start (suc left) value [] h = omega arith
hex4_length start (suc left) value (c ∷ s) h = elim (Option-cases (hex_value c)) [
  | inl e ↦ ground (arith, e)
  | inr (d, e) ↦ ground (arith, e, hex4_length start left (value * 16 + d) s (omega arith))
]

close_brace_length :
    (value : Option ℕ) (s : Bytes) (v : ℕ) (r : Bytes)
    → close_brace value s ≡ some (v, r)
    → length r ≤ length s
unfolding close_brace
close_brace_length none s v r h = absurd (cc)
close_brace_length (some w) [] v r h = absurd (cc)
close_brace_length (some w) (c ∷ s) v r h = ground (arith, h)

unicode_length : (s : Bytes) → length ((unicode s).1) ≤ length s
unfolding unicode braced
unicode_length [] = omega arith
unicode_length (c ∷ s) =
    let (value, r) = braced_digits none s in
    let whole = hex4_length (c ∷ s) 4 0 (c ∷ s) (omega arith) in
    elim (Option-cases (close_brace value r)) [
      | inl e ↦ ground (arith, e, whole)
      | inr ((v, t), e) ↦
          ground (arith, e, whole, close_brace_length value r v t e, braced_digits_length none s)
    ]

pub escape_char_length : (c : ℕ) (s : Bytes) → length ((escape_char c s).1) ≤ length s
unfolding escape_char
escape_char_length c s = ground (arith, hex2_length s, unicode_length s)

digits_loop_length : (value : Option ℕ) (s : Bytes) → length ((digits_loop value s).1) ≤ length s
unfolding digits_loop
digits_loop_length value [] = omega arith
digits_loop_length value (c ∷ s) =
    ground (arith, digits_loop_length (some (digit_after 10 value (c - b'0'))) s)

lazy_length : (min : ℕ) (max : Option ℕ) (s : Bytes) → length ((lazy min max s).1) ≤ length s
unfolding lazy
lazy_length min max [] = omega arith
lazy_length min max (c ∷ s) = ground arith

upper_bound_length : (min : ℕ) (s : Bytes) → length ((upper_bound min s).1) ≤ length s
unfolding upper_bound
upper_bound_length min [] = omega arith
upper_bound_length min (c ∷ []) = ground arith
upper_bound_length min (c ∷ d ∷ s) = ground (arith, digits_loop_length none (d ∷ s))

close_count_length :
    (min : ℕ) (max : Option ℕ) (s : Bytes) (q : Quantifier) (r : Bytes)
    → close_count min max s ≡ some (q, r)
    → length r ≤ length s
unfolding close_count
close_count_length min max [] q r h = absurd (cc)
close_count_length min max (c ∷ s) q r h = ground (arith, h, lazy_length min max s)

counted_length :
    (s : Bytes) (q : Quantifier) (r : Bytes) → counted s ≡ some (q, r) → length r ≤ length s
unfolding counted
counted_length s q r h = elim (Option-cases ((digits_loop none s).0)) [
  | inl e ↦ absurd (ground (arith, h, e))
  | inr (min, e) ↦
      let t = (digits_loop none s).1 in
      let (max, u) = upper_bound min t in
      ground (
        arith,
        close_count_length min max u q r,
        h,
        e,
        upper_bound_length min t,
        digits_loop_length none s,
      )
]

pub parse_quantifier_length : (s : Bytes) → length ((parse_quantifier s).1) ≤ length s
unfolding parse_quantifier
parse_quantifier_length [] = omega arith
parse_quantifier_length (c ∷ s) =
    let star = lazy_length 0 none s in
    let plus = lazy_length 1 none s in
    let question = lazy_length 0 (some 1) s in
    elim (Option-cases (counted s)) [
      | inl e ↦ ground (arith, e, star, plus, question)
      | inr ((q, r), e) ↦ ground (arith, e, star, plus, question, counted_length s q r e)
    ]
