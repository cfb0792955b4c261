-- ===== src/Syntax/Scanner/Moves/Templates.antt =====
-- source/fastlint/syntax/scanner.cc: templates and JSX move forward.
use fastlint.Base.{
  ℕ, ◌+◌, ◌≤◌, ◌<◌, ◌≡◌, Bool, true, ◌&&◌, ◌||◌, [], ◌∷◌, Bytes, codes, ◌==◌, if◌then◌else◌, length,
  drop, length-drop, starts_with, and_true, Bool-cases, arith, inl, inr,
}
use fastlint.Syntax.Scanner.{Reader, see_line_break, char_bytes}
use fastlint.Syntax.Scanner.Loop.{loop, Kept, goes_on, leaves, if_Kept}
use fastlint.Syntax.Scanner.Numbers.{front}
use fastlint.Syntax.Scanner.Words.{identifier_chars}
use fastlint.Syntax.Scanner.Templates.{
  ScanMode, Ended, template_round, jsx_text_round, scan_jsx_text, jsx_identifier_round,
  scan_jsx_identifier,
}
use fastlint.Syntax.Scanner.Moves.Literals.{front_some, front_left}
use fastlint.Syntax.Scanner.Moves.Texts.{break_length}
use fastlint.Syntax.Scanner.Moves.{
  Step, stay, Step-advance, Step-error, Step-note_line_start, Step-see_line_break,
}
use fastlint.Syntax.Scanner.Moves.Names.{
  loop-Step, front_byte, identifier_chars-Step, char_bytes_left,
}

module _ (size : ℕ) where
  template_round_lem :
      (mode : ScanMode) (start : ℕ) (bs : Bytes) (r : Reader) (f : Ended)
      → r.pos + length bs ≡ size
      → Kept (Step size) size r (template_round mode start bs r f)
  unfolding template_round
  template_round_lem mode start [] r f h =
      leaves (Step-error _ _ _ (stay size r (omega arith)) 1160 start _)
  template_round_lem mode start (c ∷ t) r f h =
      let still = stay size r (omega arith) in
      let one = Step-advance _ _ _ still 1 (omega arith) in
      let s = see_line_break r in
      let seen = Step-see_line_break _ _ _ still in
      let n : ℕ = if starts_with t (10 ∷ []) then 2 else 1 in
      let (a, b) = break_length t in
      if_Kept (c == b'`') (λ x. leaves one)
        (λ x.
          if_Kept (c == 92 && front (λ d. true) t)
            (λ e.
              let l = front_some (λ d. true) t (and_true (c == 92) _ e).1 in
              let two = Step-advance _ _ _ still 2 (omega arith) in
              goes_on (omega arith) two.within two)
            (λ x.
              if_Kept (c == b'$' && starts_with t (codes "{"))
                (λ e.
                  let l = front_byte (codes "{") t (and_true (c == b'$') _ e).1 in
                  leaves (Step-advance _ _ _ still 2 (omega arith)))
                (λ x.
                  if_Kept (c == 10)
                    (λ x.
                      let p =
                        Step-advance _ _ _
                          (Step-note_line_start _ _ _ seen (r.pos + 1) (omega arith) (omega arith))
                          1 (omega arith) in
                      goes_on (omega arith) p.within p)
                    (λ x.
                      if_Kept (c == 13)
                        (λ x.
                          let p =
                            Step-advance _ _ _
                              (Step-note_line_start _ _ _ seen (r.pos + n) (omega arith)
                                (omega arith))
                              n (omega arith) in
                          goes_on (omega arith) p.within p)
                        (λ x. goes_on (omega arith) one.within one)))))

  jsx_text_round_lem :
      (bs : Bytes) (r : Reader) (f : Bool)
      → r.pos + length bs ≡ size
      → Kept (Step size) size r (jsx_text_round bs r f)
  unfolding jsx_text_round
  jsx_text_round_lem [] r f h = leaves (stay size r (omega arith))
  jsx_text_round_lem (c ∷ t) r f h =
      let still = stay size r (omega arith) in
      let one = Step-advance _ _ _ still 1 (omega arith) in
      let noted =
        Step-see_line_break _ _ _
          (Step-note_line_start _ _ _ still (r.pos + 1) (omega arith) (omega arith)) in
      let p = Step-advance _ _ _ noted 1 (omega arith) in
      let q = Step-advance _ _ _ (Step-error _ _ _ still 1381 r.pos 1) 1 (omega arith) in
      if_Kept (c == b'<' || c == b'{') (λ x. leaves still)
        (λ x.
          if_Kept (c == 10) (λ x. goes_on (omega arith) p.within p)
            (λ x.
              if_Kept (c == b'}' || c == b'>') (λ x. goes_on (omega arith) q.within q)
                (λ x. goes_on (omega arith) one.within one)))

pub template_loop-Step :
    (source : Bytes) (start : ℕ) (mode : ScanMode) (r : Reader) (f : Ended)
    → r.pos ≤ length source
    → Step (length source) r (loop (template_round mode start) 0 (drop r.pos source) r f).0
template_loop-Step source start mode r f h =
    let d = length-drop r.pos source in
    loop-Step (length source) (template_round mode start)
      (template_round_lem (length source) mode start) (drop r.pos source) r f (omega arith)

scan_jsx_text-Step :
    (source : Bytes) (r : Reader)
    → r.pos ≤ length source
    → Step (length source) r (scan_jsx_text source r)
unfolding scan_jsx_text
scan_jsx_text-Step source r h =
    let d = length-drop r.pos source in
    loop-Step (length source) jsx_text_round (jsx_text_round_lem (length source))
      (drop r.pos source) r true (omega arith)

jsx_identifier_round_lem :
    (in_table : ℕ → Bool) (source bs : Bytes) (r : Reader) (f : Bool)
    → r.pos + length bs ≡ length source
    → Kept (Step (length source)) (length source) r (jsx_identifier_round in_table source bs r f)
unfolding jsx_identifier_round
jsx_identifier_round_lem in_table source bs r f h =
    let p = identifier_chars-Step in_table source r (omega arith) in
    let s = identifier_chars in_table source r in
    let w = p.forward in
    if_Kept (front (λ c. c == b'-') (drop s.pos source))
      (λ e.
        let b = front_left source (λ c. c == b'-') s.pos e in
        let q = Step-advance _ _ _ p 1 (omega arith) in goes_on (omega arith) q.within q)
      (λ e. leaves p)

-- From the start of a token on, something is taken.
scan_jsx_identifier-Strict :
    (in_table : ℕ → Bool) (source : Bytes) (start : ℕ) (r : Reader)
    → start ≡ r.pos
    → r.pos < length source
    → let s = scan_jsx_identifier in_table source start r in
      (r.pos < s.pos) × Step (length source) r s
unfolding scan_jsx_identifier
scan_jsx_identifier-Strict in_table source start r a h =
    let size = length source in
    let d = length-drop r.pos source in
    let s = (loop (jsx_identifier_round in_table source) 0 (drop r.pos source) r true).0 in
    let p =
      loop-Step size (jsx_identifier_round in_table source)
        (jsx_identifier_round_lem in_table source) (drop r.pos source) r true (omega arith) in
    elim (Bool-cases (s.pos == start)) [
      | inl e ↦
          let (x, y) = char_bytes_left source s.pos (ground (arith, e, a)) in
          let n = char_bytes (drop s.pos source) in
          rw e (ground (arith, e, x, a), Step-error _ _ _ (Step-advance _ _ _ p n y) 1127 start n)
      | inr e ↦ let f = p.forward in rw e (ground (arith, e, f, a), p)
    ]
