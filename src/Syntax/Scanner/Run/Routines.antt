-- ===== src/Syntax/Scanner/Run/Routines.antt =====
-- source/fastlint/syntax/scanner.cc: the tokens that the routines behind `scanOne` take.
use fastlint.Base.{
  ℕ, ◌-◌, ◌≤◌, ◌<◌, ◌≡◌, refl, sym, ap, ◌∙◌, Bool, true, false, ◌||◌, [], ◌∷◌, ◌++◌, append_assoc,
  Bytes, codes, ◌==◌, if◌then◌else◌, length, take, drop, length-drop, leb, bytes_eq→eq, Bool-cases,
  true_false, arith, inl, inr,
}
use fastlint.Syntax.Scanner.{
  Reader, TokenKind, advance, error, char_bytes, is_digit, is_ascii_identifier_start, identifier,
  punctuation, string_literal, numeric_literal, bigint_literal,
}
use fastlint.Syntax.Scanner.Words.{identifier_end}
use fastlint.Syntax.Scanner.Numbers.{front, number_digits, is_big_int, name_follows}
use fastlint.Syntax.Scanner.Templates.{normal}
use fastlint.Syntax.Scanner.Punctuation.{Punctuated, matched, number, invalid, punctuator_at}
use fastlint.Syntax.Scanner.Run.{
  Scanner, Input, add_token, commit, scan_identifier, scan_number, scan_punctuation, scan_token,
}
use fastlint.Syntax.Scanner.Run.Rescan.{is_kind}
use fastlint.Syntax.Scanner.Run.Kinds.{identifier-NoBrace, template-NoBrace}
use fastlint.Syntax.Scanner.Moves.{Step, stay, Step_trans, Step-advance, Step-error}
use fastlint.Syntax.Scanner.Moves.Names.{front_byte, identifier_end-Strict, char_bytes_left}
use fastlint.Syntax.Scanner.Moves.Literals.{front_left, number_digits-Step}
use fastlint.Syntax.Scanner.Moves.Numbers.{number_digits-Strict, number_digits-dot}
use fastlint.Syntax.Scanner.Moves.Texts.{Left, Left-length, scan_string-Step}
use fastlint.Syntax.Scanner.Moves.Pieces.{Tiles-append, empty, piece}
use fastlint.Syntax.Scanner.Moves.Longest.{
  Chosen, has-filled, longest, ternary, dotted, unknown, punctuator_at_lem,
}
use fastlint.Syntax.Scanner.Run.Taken.{
  Taken, token_place, Slot, one_token, plain_token, if_Taken, restart, dot_front, template-Step,
  commit-tokens, commit-Step,
}

module _ (i : Input) where
  abbrev size : ℕ
  size = length i.source

  scan_identifier-Taken :
      (start : ℕ) (b : Bool) (r : Reader) (s : Scanner)
      → Slot s
      → start < size
      → start ≤ r.pos
      → r.pos ≤ size
      → Taken size start r s (scan_identifier i start b r s)
  unfolding scan_identifier
  scan_identifier-Taken start b r s slot h le w =
      let (a, p) = identifier_end-Strict i.in_table i.source start r h le w in
      let word =
        take ((identifier_end i.in_table i.source start r).0.pos - start) (drop start i.source) in
      plain_token size start r _ s _ false slot p a
        (identifier-NoBrace (identifier_end i.in_table i.source start r).1 b word)

  -- A number, and the name that follows it.
  number_ends :
      (r e : Reader) (s : Scanner) (kind : TokenKind)
      → Slot s
      → Step size r e
      → r.pos < e.pos
      → is_kind (codes "}") kind ≡ false
      → let t = commit (add_token kind r.pos false (error 1499 r.pos (e.pos - r.pos) e) s) in
        let s' : Scanner =
          if name_follows i.source e
          then scan_identifier i e.pos false t.reader t
          else add_token kind r.pos false e s in
        Taken size r.pos r s s'
  unfolding commit
  number_ends r e s kind slot p far plain = elim (Bool-cases (name_follows i.source e)) [
    | inl x ↦
        let b = front_left i.source (λ c. is_ascii_identifier_start c || c == 92) e.pos x in
        let u = add_token kind r.pos false (error 1499 r.pos (e.pos - r.pos) e) s in
        let t = commit u in
        let (c, d) = commit-tokens u slot in
        let q = commit-Step size r u (Step-error _ _ _ p 1499 r.pos (e.pos - r.pos)) in
        let k = scan_identifier-Taken e.pos false t.reader t d b (omega arith) (omega arith) in
        let (us, (f, g)) = k.filled in
        rw x (record {
          step = Step_trans _ _ _ _ q k.step;
          farther = inl (let y = k.step.forward in omega arith);
          ends = k.ends;
          brace = k.brace;
          slot = k.slot;
          filled = (
            us ++ (t.current ∷ []),
            (
              f ∙ (ap (λ l. us ++ l) c ∙ sym (append_assoc us (t.current ∷ []) s.tokens)),
              Tiles-append token_place r.pos e.pos _ us (t.current ∷ []) g
                  (piece (omega arith) (empty refl)),
            ),
          );
          same_mode = k.same_mode;
          same_depth = k.same_depth;
        })
    | inr x ↦ rw x (plain_token size r.pos r e s kind false slot p far plain)
  ]

  -- In a number that starts with a digit, or with a dot and a digit, a byte is taken at least.
  scan_number-Taken :
      (r : Reader) (s : Scanner)
      → Slot s
      → r.pos ≤ size
      → r.pos < (number_digits i.source r.pos r).pos
      → Taken size r.pos r s (scan_number i r.pos r s)
  unfolding scan_number
  scan_number-Taken r s slot w far =
      let d = number_digits i.source r.pos r in
      let p = number_digits-Step i.source r.pos r w in
      let big = is_big_int i.source d in
      elim (Bool-cases big) [
        | inl e ↦
            let b = front_left i.source (λ c. c == b'n') d.pos e in
            rw e (
              number_ends r (advance 1 d) s bigint_literal slot
                (Step-advance _ _ _ p 1 (omega arith)) (omega arith) refl)
        | inr e ↦ rw e (number_ends r d s numeric_literal slot p far refl)
      ]

  punctuated :
      (r : Reader) (s : Scanner) (o : Punctuated)
      → Slot s
      → r.pos < size
      → Chosen (drop r.pos i.source) o
      → let n = char_bytes (drop r.pos i.source) in
        let s' : Scanner = elim o [
          | matched p ↦ add_token (punctuation p) r.pos false (advance (length p) r) s
          | number ↦ scan_number i r.pos r s
          | invalid ↦ add_token identifier r.pos false (error 1127 r.pos n (advance n r)) s
        ] in
        Taken size r.pos r s s'
  punctuated r s _ slot w (longest {p = p} h a b c) =
      let f = has-filled p h in
      let d = length-drop r.pos i.source in
      let l = front_byte p (drop r.pos i.source) a in
      let q = Step-advance _ _ _ (stay size r (omega arith)) (length p) (omega arith) in
      one_token size r.pos r (advance (length p) r) s (punctuation p) false slot q (omega arith)
        (λ x. let e = ap length (bytes_eq→eq p (codes "}") x) in omega arith)
  punctuated r s _ slot w (ternary a b) =
      let q = Step-advance _ _ _ (stay size r (omega arith)) 1 (omega arith) in
      plain_token size r.pos r (advance 1 r) s (punctuation (codes "?")) false slot q (omega arith)
        refl
  punctuated r s _ slot w (dotted a b) =
      scan_number-Taken r s slot (omega arith)
        (number_digits-dot i.source r.pos r (omega arith) (dot_front (drop r.pos i.source) a) b)
  punctuated r s _ slot w (unknown c) =
      let n = char_bytes (drop r.pos i.source) in
      let (x, y) = char_bytes_left i.source r.pos w in
      let p = Step-advance _ _ _ (stay size r (omega arith)) n y in
      plain_token size r.pos r _ s identifier false slot (Step-error _ _ _ p 1127 r.pos n)
        (omega arith) refl

  scan_punctuation-Taken :
      (r : Reader) (s : Scanner)
      → Slot s
      → r.pos < size
      → Taken size r.pos r s (scan_punctuation i r.pos r s)
  unfolding scan_punctuation
  scan_punctuation-Taken r s slot w =
      punctuated r s (punctuator_at (drop r.pos i.source)) slot w
        (punctuator_at_lem (drop r.pos i.source))

  pub scan_token-Taken :
      (bs : Bytes) (r : Reader) (s : Scanner)
      → Slot s
      → r.pos ≤ size
      → Left i.source bs r
      → Taken size r.pos r s (scan_token i r.pos bs r s)
  unfolding scan_token
  scan_token-Taken [] r s slot w left = record {
    step = stay size r w;
    farther = inr refl;
    ends = omega arith;
    brace = λ x. true_false false x refl;
    slot = slot;
    filled = ([], (refl, empty refl));
    same_mode = refl;
    same_depth = refl;
  }
  scan_token-Taken (c ∷ t) r s slot w left =
      let l = Left-length i.source (c ∷ t) r (omega arith) left in
      let one = Step-advance _ _ _ (stay size r w) 1 (omega arith) in
      if_Taken (c == b'#')
        (λ x.
          if_Taken (front (λ d. is_ascii_identifier_start d || d == 92) t)
            (λ x. restart (advance 1 r) one (
              scan_identifier-Taken r.pos true (advance 1 r) s slot (omega arith) (omega arith)
                (omega arith)))
            (λ x. plain_token size r.pos r (advance 1 r) s _ false slot one (omega arith) refl))
        (λ x.
          if_Taken (c == 34 || c == 39)
            (λ x.
              let p = scan_string-Step i.source r.pos c t r left in
              let f = p.forward in
              plain_token size r.pos r _ s string_literal _ slot (Step_trans _ _ _ _ one p)
                (omega arith) refl)
            (λ x.
              if_Taken (c == b'`')
                (λ x.
                  let p = template-Step i.source r.pos (advance 1 r) (omega arith) in
                  let f = p.forward in
                  plain_token size r.pos r _ s _ _ slot (Step_trans _ _ _ _ one p) (omega arith)
                    (template-NoBrace i.source r.pos normal (advance 1 r)))
                (λ x.
                  if_Taken (is_digit c)
                    (λ d.
                      scan_number-Taken r s slot w
                        (number_digits-Strict i.source r.pos r w (rw left d)))
                    (λ x.
                      if_Taken (c == 92 || is_ascii_identifier_start c || leb 128 c)
                        (λ x.
                          scan_identifier-Taken r.pos false r s slot (omega arith) (omega arith) w)
                        (λ x. scan_punctuation-Taken r s slot (omega arith))))))
