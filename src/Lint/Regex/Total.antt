-- ===== src/Lint/Regex/Total.antt =====
-- source/fastlint/lint/regex.cc: the compiler's fuel is enough for every pattern.
use fastlint.Base.{
  ℕ, zero, suc, ◌+◌, ◌*◌, ◌≤◌, ◌≡◌, ◌≢◌, refl, inl, inr, Bool, true, false, [], ◌∷◌, Bytes, arith,
  codes, ◌==◌, length, Option-cases,
}
use fastlint.Lint.Regex.{
  Kind, char, any, class, begin, end, word_boundary, not_word_boundary, group, Alternatives,
  alternative, none_left, stop,
}
use fastlint.Lint.Regex.Escape.{mem, escape_char}
use fastlint.Lint.Regex.Bracket.{Parsed, ok, unsupported, out_of_fuel, ◌>>=◌}
use fastlint.Lint.Regex.Shrinks.{
  Within, bind-Within, if-Within, Within-mono, ok-Within, unsupported-Within, parse_class-Within,
}
use fastlint.Lint.Regex.Lengths.{escape_char_length, parse_quantifier_length}
use fastlint.Lint.Regex.Compile.{
  parse_escape, open_group, close_group, parse_atom, quantified, another, parse_sequence,
  parse_group, compile_fuel,
}

parse_escape-Within : (s : Bytes) → Within (length s) (parse_escape s)
unfolding parse_escape Within
parse_escape-Within [] = omega arith
parse_escape-Within (e ∷ s) = elim (Option-cases ((escape_char e s).0)) [
  | inl h ↦ ground (arith, h, escape_char_length e s)
  | inr (v, h) ↦ ground (arith, h, escape_char_length e s)
]

open_group-Within : (s : Bytes) → Within (length s) (open_group s)
unfolding open_group Within
open_group-Within [] = omega arith
open_group-Within (c ∷ []) = ground arith
open_group-Within (c ∷ d ∷ s) = ground arith

close_group-Within : (a : Alternatives) (s : Bytes) → Within (length s) (close_group a s)
unfolding close_group Within
close_group-Within a [] = omega arith
close_group-Within a (c ∷ s) = ground arith

quantified_length : (t : Kind) (s : Bytes) → length ((quantified t s).1) ≤ length s
unfolding quantified
quantified_length begin s = omega arith
quantified_length end s = omega arith
quantified_length word_boundary s = omega arith
quantified_length not_word_boundary s = omega arith
quantified_length (char c) s = parse_quantifier_length s
quantified_length any s = parse_quantifier_length s
quantified_length (class c) s = parse_quantifier_length s
quantified_length (group a) s = parse_quantifier_length s

another_length : (s : Bytes) → (another s).0 ≡ true → length ((another s).1) + 1 ≤ length s
unfolding another
another_length [] h = absurd (cc)
another_length (c ∷ s) h = ground (arith, h)

parse_atom-Within :
    (parse : Bytes → Parsed Alternatives) (c : ℕ) (s : Bytes)
    → ((r : Bytes) → length r ≤ length s → Within (length r) (parse r))
    → Within (length s) (parse_atom parse c s)
unfolding parse_atom
parse_atom-Within parse c s inner =
    let n = length s in
    let a_group =
      bind-Within n n (open_group s) (λ (opened, r). parse r >>= (λ (a, t). close_group a t))
        (open_group-Within s)
        (λ opened r l.
          bind-Within (length r) n (parse r) (λ (a, t). close_group a t) (inner r l)
            (λ a t k. Within-mono (length t) n _ (omega arith) (close_group-Within a t))) in
    let here : (t : Kind) → Within n (ok t s) = λ t. ok-Within n t s (omega arith) in
    if-Within n (c == b'.') _ _ (λ e. here any)
      (λ e.
        if-Within n (c == b'^') _ _ (λ e. here begin)
          (λ e.
            if-Within n (c == b'$') _ _ (λ e. here end)
              (λ e.
                if-Within n (c == b'(') _ _ (λ e. a_group)
                  (λ e.
                    if-Within n (c == b'[') _ _ (λ e. parse_class-Within s)
                      (λ e.
                        if-Within n (c == b'\\') _ _ (λ e. parse_escape-Within s)
                          (λ e.
                            if-Within n (mem c (codes "*+?")) _ _ (λ e. unsupported-Within Kind n)
                              (λ e. here (char c))))))))

if_another-Within :
    (n : ℕ) (b : Bool) (x y : Parsed Alternatives)
    → (b ≡ true → Within n x)
    → (b ≡ false → Within n y)
    → Within n (elim b [ true ↦ x | false ↦ y ])
if_another-Within n true x y f g = f refl
if_another-Within n false x y f g = g refl

mutual
  unfolding parse_sequence parse_group

  parse_sequence-Within :
      (fuel : ℕ) (s : Bytes) → 2 * length s + 1 ≤ fuel → Within (length s) (parse_sequence fuel s)
  parse_sequence-Within zero s h = absurd (omega arith)
  parse_sequence-Within (suc fuel) [] h = ok-Within 0 stop [] (omega arith)
  parse_sequence-Within (suc fuel) (c ∷ s) h =
      let n = suc (length s) in
      if-Within n (mem c (codes "|)")) _ _ (λ e. ok-Within n stop (c ∷ s) (omega arith))
        (λ e.
          bind-Within (length s) n (parse_atom (parse_group fuel) c s) _
            (parse_atom-Within (parse_group fuel) c s
              (λ r l. parse_group-Within fuel r (omega arith)))
            (λ t r l.
              let u = (quantified t r).1 in
              let k = quantified_length t r in
              bind-Within (length u) n (parse_sequence fuel u) _
                (parse_sequence-Within fuel u (omega arith))
                (λ rest w m. ok-Within n _ w (omega arith))))

  parse_group-Within :
      (fuel : ℕ) (s : Bytes) → 2 * length s + 2 ≤ fuel → Within (length s) (parse_group fuel s)
  parse_group-Within zero s h = absurd (omega arith)
  parse_group-Within (suc fuel) s h =
      let n = length s in
      bind-Within n n (parse_sequence fuel s) _ (parse_sequence-Within fuel s (omega arith))
        (λ seq r l.
          if_another-Within n ((another r).0) _ (ok (alternative seq none_left) r)
            (λ e.
              let u = (another r).1 in
              let k = another_length r e in
              bind-Within (length u) n (parse_group fuel u) _
                (parse_group-Within fuel u (omega arith))
                (λ rest w m. ok-Within n _ w (omega arith)))
            (λ e. ok-Within n (alternative seq none_left) r l))

has_fuel : (n : ℕ) (r : Parsed Alternatives) → Within n r → r ≢ out_of_fuel
unfolding Within
has_fuel n (ok a s) h e = absurd (cc)
has_fuel n unsupported h e = absurd (cc)
has_fuel n out_of_fuel h e = h

-- The compiler reads every pattern to its end or refuses it: it never runs out of the fuel it has.
pub parse_group_total : (pattern : Bytes) → parse_group (compile_fuel pattern) pattern ≢ out_of_fuel
parse_group_total pattern =
    has_fuel (length pattern) (parse_group (compile_fuel pattern) pattern)
      (parse_group-Within (compile_fuel pattern) pattern (omega arith))
