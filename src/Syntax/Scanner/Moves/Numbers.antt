-- ===== src/Syntax/Scanner/Moves/Numbers.antt =====
-- source/fastlint/syntax/scanner.cc: `scanNumber` takes a byte of what starts a number.
use fastlint.Base.{
  ℕ, ◌+◌, ◌≤◌, ◌<◌, ◌≡◌, refl, Bool, true, false, ◌||◌, [], ◌∷◌, Bytes, codes, ◌==◌, if◌then◌else◌,
  length, drop, starts_with, Bool-cases, arith, inl, inr,
}
use fastlint.Syntax.Scanner.{Reader, advance, is_digit, is_hex_digit}
use fastlint.Syntax.Scanner.Numbers.{
  front, scan_digits, is_octal_digit, is_binary_digit, is_letter, prefixed, legacy_number,
  number_head, number_fraction, number_digits,
}
use fastlint.Syntax.Scanner.Moves.Literals.{
  scan_digits-Step, scan_digits-Strict, front_two, number_head-Step, number_fraction-Step,
  number_exponent-Step,
}

-- The position is behind `n`.
record Past (n : ℕ) (r : Reader) : Type 0 where
  past : n < r.pos

if_Past :
    {n : ℕ} (b : Bool) {x y : Reader}
    → (b ≡ true → Past n x)
    → (b ≡ false → Past n y)
    → Past n (if b then x else y)
if_Past true f g = f refl
if_Past false f g = g refl

module _ (source : Bytes) where
  prefixed-Strict :
      (pred : ℕ → Bool) (code start : ℕ) (r : Reader)
      → r.pos + 2 ≤ length source
      → Past r.pos (prefixed pred code source start r)
  unfolding prefixed
  prefixed-Strict pred code start r h =
      let p = scan_digits-Step source pred (advance 2 r) h in
      let f = p.forward in
      if_Past (scan_digits pred source (advance 2 r)).1 (λ e. record { past = omega arith })
        (λ e. record { past = omega arith })

  legacy_number-Strict :
      (r : Reader)
      → front is_octal_digit (drop r.pos source) ≡ true
      → Past r.pos (legacy_number source r)
  unfolding legacy_number
  legacy_number-Strict r h =
      let p = scan_digits-Strict source is_octal_digit r h in
      let s = (scan_digits is_octal_digit source r).0 in
      if_Past (front (λ c. c == b'8' || c == b'9') (drop s.pos source)) (λ e. omega arith)
        (λ e. record { past = p })

  zero_front :
      (p : ℕ → Bool) (bs : Bytes)
      → starts_with bs (codes "0") ≡ true
      → p b'0' ≡ true
      → front p bs ≡ true
  zero_front p [] h e = absurd (cc)
  zero_front p (c ∷ t) h e = let q : c ≡ b'0' = ground arith in rw q e

  number_head-Strict :
      (start : ℕ) (r : Reader)
      → front is_digit (drop r.pos source) ≡ true
      → Past r.pos (number_head source start r)
  unfolding number_head
  number_head-Strict start r h =
      let bs = drop r.pos source in
      let next = drop 1 bs in
      let decimal : Past r.pos (scan_digits is_digit source r).0 = record {
        past = scan_digits-Strict source is_digit r h;
      } in
      if_Past (starts_with bs (codes "0"))
        (λ z.
          if_Past (front (is_letter b'x' b'X') next)
            (λ e. prefixed-Strict is_hex_digit 1125 start r (front_two source _ r.pos e))
            (λ x.
              if_Past (front (is_letter b'o' b'O') next)
                (λ e. prefixed-Strict is_octal_digit 1178 start r (front_two source _ r.pos e))
                (λ x.
                  if_Past (front (is_letter b'b' b'B') next)
                    (λ e. prefixed-Strict is_binary_digit 1177 start r (front_two source _ r.pos e))
                    (λ x.
                      if_Past (front is_digit next)
                        (λ e. legacy_number-Strict r (zero_front is_octal_digit bs z refl))
                        (λ e. decimal)))))
        (λ z. decimal)

  -- From a digit on, a byte is taken.
  pub number_digits-Strict :
      (start : ℕ) (r : Reader)
      → r.pos ≤ length source
      → front is_digit (drop r.pos source) ≡ true
      → r.pos < (number_digits source start r).pos
  unfolding number_digits
  number_digits-Strict start r b h =
      let a = number_head-Step source start r b in
      let hd = number_head source start r in
      let c = number_fraction-Step source hd a.within in
      let d = number_exponent-Step source (number_fraction source hd) c.within in
      let x = c.forward in
      let y = d.forward in let z = (number_head-Strict start r h).past in omega arith

  fraction-Strict :
      (r : Reader)
      → front (λ c. c == b'.') (drop r.pos source) ≡ true
      → front is_digit (drop 1 (drop r.pos source)) ≡ true
      → r.pos < (number_fraction source r).pos
  unfolding number_fraction
  fraction-Strict r h e =
      let two = front_two source is_digit r.pos e in
      let p = scan_digits-Step source is_digit (advance 1 r) (omega arith) in
      let f = p.forward in rw (h, e) (omega arith)

  -- A number may start with a dot, which is taken with the digits behind it.
  pub number_digits-dot :
      (start : ℕ) (r : Reader)
      → r.pos ≤ length source
      → front (λ c. c == b'.') (drop r.pos source) ≡ true
      → front is_digit (drop 1 (drop r.pos source)) ≡ true
      → r.pos < (number_digits source start r).pos
  unfolding number_digits
  number_digits-dot start r b h e =
      let a = number_head-Step source start r b in
      let hd = number_head source start r in
      let c = number_fraction-Step source hd a.within in
      let d = number_exponent-Step source (number_fraction source hd) c.within in
      let x = c.forward in
      let y = d.forward in
      let w = a.forward in
      elim (Bool-cases (hd.pos == r.pos)) [
        | inl same ↦
            let q : hd.pos ≡ r.pos = ground (arith, same) in
            let z = fraction-Strict hd (rw q h) (rw q e) in omega arith
        | inr other ↦ ground (arith, other, x, y, w)
      ]
