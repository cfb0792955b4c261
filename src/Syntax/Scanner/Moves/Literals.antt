-- ===== src/Syntax/Scanner/Moves/Literals.antt =====
-- source/fastlint/syntax/scanner.cc: `scanNumber` moves forward.
use fastlint.Base.{
  ℕ, suc, ◌+◌, ◌-◌, ◌≤◌, ◌<◌, ◌≡◌, Bool, true, false, ◌&&◌, ◌||◌, [], ◌∷◌, Bytes, codes, ◌==◌,
  if◌then◌else◌, length, drop, length-drop, starts_with, and_true, arith,
}
use fastlint.Syntax.Scanner.{Reader, advance, error, is_digit, is_hex_digit}
use fastlint.Syntax.Scanner.Loop.{loop, Kept, goes_on, leaves, if_Kept}
use fastlint.Syntax.Scanner.Numbers.{
  Digits, front, digit_round, scan_digits, is_octal_digit, is_binary_digit, is_letter, prefixed,
  legacy_number, number_head, number_fraction, number_exponent, number_digits, skip_if,
}
use fastlint.Syntax.Scanner.Moves.{
  Step, if_Step, stay, Step_trans, Step-advance, Step-error, Step-note_octal, length-span,
}
use fastlint.Syntax.Scanner.Moves.Names.{loop-Step, loop_front, on_from}

separator_step :
    (size : ℕ) (r : Reader) (b d : Bool)
    → r.pos < size
    → let s = advance 1 (if b then error 0 r.pos 1 r else r) in
      Step size (advance 1 r) (if d then s else error 0 (s.pos - 1) 1 s)
separator_step size r true true h =
    Step-error _ _ _ (stay size (advance 1 r) (omega arith)) 0 r.pos 1
separator_step size r true false h =
    Step-error _ _ _ (Step-error _ _ _ (stay size (advance 1 r) (omega arith)) 0 r.pos 1) 0 _ 1
separator_step size r false true h = stay size (advance 1 r) (omega arith)
separator_step size r false false h = Step-error _ _ _ (stay size (advance 1 r) (omega arith)) 0 _ 1

digit_round_lem :
    (pred : ℕ → Bool) (size : ℕ) (bs : Bytes) (r : Reader) (d : Digits)
    → r.pos + length bs ≡ size
    → Kept (Step size) size r (digit_round pred bs r d)
unfolding digit_round
digit_round_lem pred size [] r d h = leaves (stay size r (omega arith))
digit_round_lem pred size (c ∷ t) r d h =
    if_Kept (c == b'_')
      (λ e.
        on_from size r _ (omega arith)
          (separator_step size r d.last_was_separator (front pred t) (omega arith)))
      (λ e.
        if_Kept (pred c)
          (λ e. on_from size r (advance 1 r) (omega arith) (stay size (advance 1 r) (omega arith)))
          (λ e. leaves (stay size r (omega arith))))

pub front_some : (p : ℕ → Bool) (bs : Bytes) → front p bs ≡ true → 0 < length bs
front_some p [] h = absurd (cc)
front_some p (c ∷ t) h = omega arith

-- A digit in front is taken.
digit_taken :
    (pred : ℕ → Bool) (size : ℕ) (c : ℕ) (t : Bytes) (r : Reader) (d : Digits)
    → pred c ≡ true
    → r.pos + suc (length t) ≡ size
    → r.pos < (loop (digit_round pred) 0 (c ∷ t) r d).0.pos
unfolding digit_round
digit_taken pred size c t r d h e =
    loop_front size (digit_round pred) (digit_round_lem pred size) c t r d e (
      if_Kept (c == b'_')
        (λ x.
          let p = separator_step size r d.last_was_separator (front pred t) (omega arith) in
          let f = p.forward in goes_on (omega arith) p.within (omega arith))
        (λ x. rw h (goes_on (omega arith) (omega arith) (omega arith))))

digits_front :
    (pred : ℕ → Bool) (size : ℕ) (bs : Bytes) (r : Reader) (d : Digits)
    → front pred bs ≡ true
    → r.pos + length bs ≡ size
    → r.pos < (loop (digit_round pred) 0 bs r d).0.pos
digits_front pred size [] r d h e = absurd (cc)
digits_front pred size (c ∷ t) r d h e = digit_taken pred size c t r d h e

module _ (source : Bytes) where
  pub scan_digits-Step :
      (pred : ℕ → Bool) (r : Reader)
      → r.pos ≤ length source
      → Step (length source) r (scan_digits pred source r).0
  unfolding scan_digits
  scan_digits-Step pred r h =
      let d = length-drop r.pos source in
      loop-Step (length source) (digit_round pred) (digit_round_lem pred (length source))
        (drop r.pos source) r _ (omega arith)

  -- Behind bytes that are passed over.
  digits_behind :
      (pred : ℕ → Bool) (n : ℕ) (r : Reader)
      → r.pos + n ≤ length source
      → Step (length source) r (scan_digits pred source (advance n r)).0
  digits_behind pred n r h =
      Step_trans _ _ _ _ (Step-advance _ _ _ (stay _ r (omega arith)) n h)
        (scan_digits-Step pred (advance n r) h)

  prefixed-Step :
      (pred : ℕ → Bool) (code start : ℕ) (r : Reader)
      → r.pos + 2 ≤ length source
      → Step (length source) r (prefixed pred code source start r)
  unfolding prefixed
  prefixed-Step pred code start r h =
      let p = digits_behind pred 2 r h in if_Step _ (λ e. p) (λ e. Step-error _ _ _ p code start 2)

  legacy_number-Step :
      (r : Reader) → r.pos ≤ length source → Step (length source) r (legacy_number source r)
  unfolding legacy_number
  legacy_number-Step r h =
      let p = scan_digits-Step is_octal_digit r h in
      let s = (scan_digits is_octal_digit source r).0 in
      let w = p.within in
      let d = length-drop s.pos source in
      let l = length-span is_digit (drop s.pos source) in
      if_Step (front (λ c. c == b'8' || c == b'9') (drop s.pos source))
        (λ e. Step-advance _ _ _ p _ (omega arith)) (λ e. Step-note_octal _ _ _ p)

  -- A byte in front of what is left.
  pub front_left : (p : ℕ → Bool) (n : ℕ) → front p (drop n source) ≡ true → n < length source
  front_left p n h =
      let d = length-drop n source in let a = front_some p (drop n source) h in omega arith

  pub front_two :
      (p : ℕ → Bool) (n : ℕ) → front p (drop 1 (drop n source)) ≡ true → n + 2 ≤ length source
  front_two p n h =
      let d = length-drop n source in
      let e = length-drop 1 (drop n source) in
      let a = front_some p (drop 1 (drop n source)) h in omega arith

  pub number_head-Step :
      (start : ℕ) (r : Reader)
      → r.pos ≤ length source
      → Step (length source) r (number_head source start r)
  unfolding number_head
  number_head-Step start r h =
      let bs = drop r.pos source in
      let next = drop 1 bs in
      let decimal = scan_digits-Step is_digit r h in
      if_Step (starts_with bs (codes "0"))
        (λ z.
          if_Step (front (is_letter b'x' b'X') next)
            (λ e. prefixed-Step is_hex_digit 1125 start r (front_two _ r.pos e))
            (λ x.
              if_Step (front (is_letter b'o' b'O') next)
                (λ e. prefixed-Step is_octal_digit 1178 start r (front_two _ r.pos e))
                (λ x.
                  if_Step (front (is_letter b'b' b'B') next)
                    (λ e. prefixed-Step is_binary_digit 1177 start r (front_two _ r.pos e))
                    (λ x.
                      if_Step (front is_digit next) (λ e. legacy_number-Step r h) (λ e. decimal)))))
        (λ z. decimal)

  pub number_fraction-Step :
      (r : Reader) → r.pos ≤ length source → Step (length source) r (number_fraction source r)
  unfolding number_fraction
  number_fraction-Step r h =
      let dot = front (λ c. c == b'.') (drop r.pos source) in
      let digit = front is_digit (drop 1 (drop r.pos source)) in
      if_Step (dot && digit)
        (λ e.
          digits_behind is_digit 1 r
            (let b = front_left (λ c. c == b'.') r.pos (and_true dot digit e).0 in omega arith))
        (λ e. stay _ r h)

  skip_if-Step :
      (p : ℕ → Bool) (r : Reader)
      → r.pos ≤ length source
      → Step (length source) r (skip_if p source r)
  skip_if-Step p r h =
      if_Step (front p (drop r.pos source))
        (λ e. let b = front_left p r.pos e in Step-advance _ _ _ (stay _ r h) 1 (omega arith))
        (λ e. stay _ r h)

  -- The position goes back to where the step began.
  Step-back :
      (r s : Reader)
      → Step (length source) r s
      → r.pos ≤ length source
      → Step (length source) r (record s { pos = r.pos })
  Step-back r s p h = record {
    forward = omega arith;
    within = h;
    same_trivia = p.same_trivia;
    reported = p.reported;
    table = p.table;
  }

  pub number_exponent-Step :
      (r : Reader) → r.pos ≤ length source → Step (length source) r (number_exponent source r)
  unfolding number_exponent
  number_exponent-Step r h =
      let s = skip_if (λ c. c == b'+' || c == b'-') source (advance 1 r) in
      if_Step (front (is_letter b'e' b'E') (drop r.pos source))
        (λ e.
          let b = front_left _ r.pos e in
          let p = Step-advance _ _ _ (stay (length source) r h) 1 (omega arith) in
          let q = skip_if-Step (λ c. c == b'+' || c == b'-') (advance 1 r) (omega arith) in
          let d = scan_digits-Step is_digit s q.within in
          let all = Step_trans _ r s _ (Step_trans _ r (advance 1 r) s p q) d in
          if_Step (scan_digits is_digit source s).1 (λ x. all) (λ x. Step-back r _ all h))
        (λ e. stay _ r h)

  pub number_digits-Step :
      (start : ℕ) (r : Reader)
      → r.pos ≤ length source
      → Step (length source) r (number_digits source start r)
  unfolding number_digits
  number_digits-Step start r h =
      let a = number_head-Step start r h in
      let b = number_fraction-Step (number_head source start r) a.within in
      let c = number_exponent-Step _ b.within in Step_trans _ r _ _ (Step_trans _ r _ _ a b) c

  pub scan_digits-Strict :
      (pred : ℕ → Bool) (r : Reader)
      → front pred (drop r.pos source) ≡ true
      → r.pos < (scan_digits pred source r).0.pos
  unfolding scan_digits
  scan_digits-Strict pred r h =
      let d = length-drop r.pos source in
      let b = front_left pred r.pos h in
      digits_front pred (length source) (drop r.pos source) r _ h (omega arith)
