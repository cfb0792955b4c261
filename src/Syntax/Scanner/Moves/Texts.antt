-- ===== src/Syntax/Scanner/Moves/Texts.antt =====
-- source/fastlint/syntax/scanner.cc: strings and their escapes move forward.
use fastlint.Base.{
  ℕ, suc, ◌+◌, ◌≤◌, ◌<◌, ◌≡◌, refl, ap, Bool, false, not, ◌&&◌, ◌||◌, [], ◌∷◌, Bytes, codes, ◌==◌,
  ltb, if◌then◌else◌, length, take, drop, length-drop, length-take, starts_with, is_empty,
  Bool-cases, arith, inl, inr,
}
use fastlint.Syntax.Scanner.{Reader, advance, note_line_start, see_line_break, span, is_hex_digit}
use fastlint.Syntax.Scanner.Loop.{Kept, goes_on, leaves, if_Kept}
use fastlint.Syntax.Scanner.Numbers.{is_octal_digit}
use fastlint.Syntax.Scanner.Strings.{
  error_up_to, fixed_escape, braced_string_escape, string_unicode, octal_escape, string_escape,
  string_round, scan_string,
}
use fastlint.Syntax.Scanner.Moves.{
  Step, if_Step, stay, Step_trans, Step-advance, Step-error, Step-note_line_start,
  Step-see_line_break, Step-note_octal, length-span,
}
use fastlint.Syntax.Scanner.Moves.Names.{loop-Step, on_from, front_byte}

-- A line break of one byte or two takes no more than there is.
pub break_length :
    (t : Bytes)
    → let n : ℕ = if starts_with t (10 ∷ []) then 2 else 1 in (0 < n) × (n ≤ suc (length t))
break_length [] = (omega arith, omega arith)
break_length (c ∷ t) = (ground arith, ground arith)

module _ (size : ℕ) where
  fixed_escape-Step :
      (code count start : ℕ) (u : Bytes) (r : Reader)
      → r.pos + length u ≤ size
      → Step size r (fixed_escape code count start u r)
  unfolding fixed_escape
  fixed_escape-Step code count start u r h =
      let n = span is_hex_digit (take count u) in
      let a = length-span is_hex_digit (take count u) in
      let b = length-take count u in
      let p = Step-advance _ _ _ (stay size r (omega arith)) n (omega arith) in
      if_Step (ltb n count) (λ e. Step-error _ _ _ p code start _) (λ e. p)

  braced_string_escape-Step :
      (start : ℕ) (u : Bytes) (r : Reader)
      → r.pos + length u ≤ size
      → Step size r (braced_string_escape start u r)
  unfolding braced_string_escape
  braced_string_escape-Step start u r h =
      let n = span is_hex_digit u in
      let rest = drop n u in
      let a = length-span is_hex_digit u in
      let b = length-drop n u in
      let s = advance n r in
      let p = Step-advance _ _ _ (stay size r (omega arith)) n (omega arith) in
      let stray = not (is_empty rest) && not (starts_with rest (codes "}")) in
      let reported = if stray then error_up_to 1126 start s else s in
      let same : reported.pos ≡ s.pos = elim (Bool-cases stray) [
        | inl e ↦ rw e refl
        | inr e ↦ rw e refl
      ] in
      let q = if_Step stray (λ e. Step-error _ _ _ p 1126 start _) (λ e. p) in
      let c =
        if_Step (starts_with rest (codes "}"))
          (λ e. let l = front_byte (codes "}") rest e in Step-advance _ _ _ q 1 (omega arith))
          (λ e. q) in
      if_Step (n == 0) (λ e. Step-error _ _ _ c 1126 start _) (λ e. c)

  string_unicode-Step :
      (start : ℕ) (u : Bytes) (r : Reader)
      → r.pos + length u ≤ size
      → Step size r (string_unicode start u r)
  unfolding string_unicode
  string_unicode-Step start u r h =
      if_Step (starts_with u (codes "{"))
        (λ e.
          let l = front_byte (codes "{") u e in
          let d = length-drop 1 u in
          Step_trans _ _ _ _ (Step-advance _ _ _ (stay size r (omega arith)) 1 (omega arith))
            (braced_string_escape-Step start (drop 1 u) (advance 1 r) (omega arith)))
        (λ e. fixed_escape-Step 1126 4 start u r h)

  octal_escape-Step :
      (e : ℕ) (u : Bytes) (r : Reader)
      → r.pos + suc (length u) ≤ size
      → Step size r (octal_escape e u r)
  unfolding octal_escape
  octal_escape-Step e u r h =
      let a = length-span is_octal_digit (take 2 u) in
      let b = length-take 2 u in
      let p =
        Step-note_octal _ _ _ (Step-advance _ _ _ (stay size r (omega arith)) 1 (omega arith)) in
      if_Step (e == b'0') (λ x. p) (λ x. Step-advance _ _ _ p _ (omega arith))

  -- A line break of `n` bytes.
  break_step :
      (n : ℕ) (r : Reader)
      → 0 < n
      → r.pos + n ≤ size
      → Step size r (see_line_break (note_line_start (r.pos + n) (advance n r)))
  break_step n r a h = Step-see_line_break _ _ _ (
      Step-note_line_start _ _ _ (Step-advance _ _ _ (stay size r (omega arith)) n h) (r.pos + n)
        (omega arith) h)

  -- `\r\n` or one byte.
  string_escape-Step :
      (start e : ℕ) (u : Bytes) (r : Reader)
      → r.pos + suc (length u) ≤ size
      → Step size r (string_escape start e u r)
  unfolding string_escape
  string_escape-Step start e u r h =
      let n : ℕ = if starts_with u (10 ∷ []) then 2 else 1 in
      let (a, b) = break_length u in
      let still = stay size r (omega arith) in
      let one = Step-advance _ _ _ still 1 (omega arith) in
      if_Step (e == 13) (λ x. break_step n r a (omega arith))
        (λ x.
          if_Step (e == 10)
            (λ x. Step-see_line_break _ _ _ (
              Step-advance _ _ _
                (Step-note_line_start _ _ _ still (r.pos + 1) (omega arith) (omega arith)) 1
                (omega arith)))
            (λ x.
              if_Step (e == b'x')
                (λ x.
                  Step_trans _ _ _ _ one
                    (fixed_escape-Step 1125 2 start u (advance 1 r) (omega arith)))
                (λ x.
                  if_Step (e == b'u')
                    (λ x.
                      Step_trans _ _ _ _ one
                        (string_unicode-Step start u (advance 1 r) (omega arith)))
                    (λ x. if_Step (is_octal_digit e) (λ x. octal_escape-Step e u r h) (λ x. one)))))

  string_round_lem :
      (quote start : ℕ) (bs : Bytes) (r : Reader) (f : Bool)
      → r.pos + length bs ≡ size
      → Kept (Step size) size r (string_round quote start bs r f)
  unfolding string_round
  string_round_lem quote start [] r f h =
      leaves (Step-error _ _ _ (stay size r (omega arith)) 1002 start _)
  string_round_lem quote start (c ∷ []) r f h =
      let still = stay size r (omega arith) in
      let one = Step-advance _ _ _ still 1 (omega arith) in
      if_Kept (c == 10 || c == 13) (λ x. leaves (Step-error _ _ _ still 1002 start _))
        (λ x.
          if_Kept (c == quote) (λ x. leaves one)
            (λ x.
              if_Kept (c == 92) (λ x. leaves (Step-error _ _ _ one 1002 start _))
                (λ x. goes_on (omega arith) one.within one)))
  string_round_lem quote start (c ∷ e ∷ u) r f h =
      let still = stay size r (omega arith) in
      let one = Step-advance _ _ _ still 1 (omega arith) in
      if_Kept (c == 10 || c == 13) (λ x. leaves (Step-error _ _ _ still 1002 start _))
        (λ x.
          if_Kept (c == quote) (λ x. leaves one)
            (λ x.
              if_Kept (c == 92)
                (λ x.
                  on_from size r _ (omega arith)
                    (string_escape-Step start e u (advance 1 r) (omega arith)))
                (λ x. goes_on (omega arith) one.within one)))

-- What is left of a source.
abbrev pub Left : Bytes → Bytes → Reader → Type 0
Left source bs r = drop r.pos source ≡ bs

pub Left-length :
    (source bs : Bytes) (r : Reader)
    → 0 < length bs
    → Left source bs r
    → r.pos + length bs ≡ length source
Left-length source bs r a h = let d = length-drop r.pos source in let e = ap length h in omega arith

-- A string takes its quote and what is behind it.
pub scan_string-Step :
    (source : Bytes) (start quote : ℕ) (t : Bytes) (r : Reader)
    → Left source (quote ∷ t) r
    → Step (length source) (advance 1 r) (scan_string source start r).0
unfolding scan_string
scan_string-Step source start quote t r h =
    let size = length source in
    let e = Left-length source (quote ∷ t) r (omega arith) h in
    rw (scan_string, h)
      (loop-Step size (string_round quote start) (string_round_lem size quote start) t (advance 1 r)
        false (omega arith))
