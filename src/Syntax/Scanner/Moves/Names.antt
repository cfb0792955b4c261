-- ===== src/Syntax/Scanner/Moves/Names.antt =====
-- source/fastlint/syntax/scanner.cc: identifiers, numbers and strings move forward.
use fastlint.Base.{
  ℕ, zero, suc, ◌+◌, ◌-◌, ◌≤◌, ◌<◌, ◌≡◌, Bool, true, false, ◌&&◌, ◌||◌, [], ◌∷◌, Bytes, codes, ◌==◌,
  leb, if◌then◌else◌, length, take, drop, length-drop, length-take, starts_with, Bool-cases, arith,
  inl, inr,
}
use fastlint.Syntax.Scanner.{
  Reader, advance, error, span, char_bytes, is_hex_digit, peek_char, is_ascii_identifier_part,
}
use fastlint.Syntax.Scanner.Loop.{
  Round, again, done, loop, Kept, goes_on, leaves, if_Kept, loop_lem,
}
use fastlint.Syntax.Scanner.Words.{
  braced_escape, name_escape, identifier_round, identifier_chars, identifier_end,
}
use fastlint.Syntax.Scanner.Moves.{
  Step, if_Step, stay, Step_trans, Step-advance, Step-error, length-span, char_bytes_within,
  char_bytes_positive,
}

pub front_byte : (p : Bytes) (bs : Bytes) → starts_with bs p ≡ true → length p ≤ length bs
front_byte [] bs h = omega arith
front_byte (c ∷ p) [] h = absurd (cc)
front_byte (c ∷ p) (d ∷ bs) h = ground (arith, front_byte p bs)

braced_escape_within : (s : Bytes) → (braced_escape s).taken ≤ length s
unfolding braced_escape
braced_escape_within s = ground (
  arith,
  length-span is_hex_digit s,
  length-drop (span is_hex_digit s) s,
  front_byte (codes "}") (drop (span is_hex_digit s) s),
)

name_escape_within : (s : Bytes) → (name_escape s).taken ≤ length s
unfolding name_escape
name_escape_within s = ground (
  arith,
  braced_escape_within (drop 1 s),
  length-drop 1 s,
  length-span is_hex_digit (take 4 s),
  length-take 4 s,
  front_byte (codes "{") s,
)

-- A loop of rounds that keep `Step`.
pub loop-Step {ℓ} :
    {F : Type ℓ} (size : ℕ) (body : Bytes → Reader → F → Round F)
    → ((bs : Bytes) (r : Reader) (f : F)
        → r.pos + length bs ≡ size
        → Kept (Step size) size r (body bs r f))
    → (bs : Bytes) (r : Reader) (f : F) → r.pos + length bs ≡ size
    → Step size r (loop body 0 bs r f).0
loop-Step size body keeps bs r f h =
    loop_lem (Step size) size (Step_trans size) body keeps 0 bs r f (omega arith) (omega arith)

module _ {ℓ} {F : Type ℓ} (size : ℕ) (body : Bytes → Reader → F → Round F)
    (keeps : (bs : Bytes) (r : Reader) (f : F)
      → r.pos + length bs ≡ size
      → Kept (Step size) size r (body bs r f)) where
  front_round :
      (t : Bytes) (r : Reader) (o : Round F)
      → Kept (λ a b. a.pos < b.pos) size r o
      → r.pos + suc (length t) ≡ size
      → let p : Reader × F = elim o [
        | again s g ↦ loop body (s.pos - r.pos - 1) t s g
        | done s g ↦ (s, g)
      ] in
        r.pos < p.0.pos
  front_round t r _ (goes_on {s = s} {g = g} a b c) h =
      let k = s.pos - r.pos - 1 in
      let p = loop_lem (Step size) size (Step_trans size) body keeps k t s g (omega arith) b in
      let f = p.forward in omega arith
  front_round t r _ (leaves c) h = c

  -- Where the first round takes a byte, the loop does.
  pub loop_front :
      (c : ℕ) (t : Bytes) (r : Reader) (f : F)
      → r.pos + suc (length t) ≡ size
      → Kept (λ a b. a.pos < b.pos) size r (body (c ∷ t) r f)
      → r.pos < (loop body 0 (c ∷ t) r f).0.pos
  unfolding loop
  loop_front c t r f h k = front_round t r (body (c ∷ t) r f) k h

-- A round that takes a byte first.
pub on_from {ℓ} :
    {F : Type ℓ} {f : F} (size : ℕ) (r s : Reader)
    → r.pos < size
    → Step size (advance 1 r) s
    → Kept (Step size) size r (again s f)
on_from size r s h p =
    let f = p.forward in
    let one = Step-advance size r r (stay size r (omega arith)) 1 (omega arith) in
    goes_on (omega arith) p.within (Step_trans size r (advance 1 r) s one p)

-- An error changes no position.
pub further :
    (r : Reader) (b : Bool) (code offset count n : ℕ)
    → 0 < n
    → r.pos < (if b then error code offset count (advance n r) else advance n r).pos
further r true code offset count n h = omega arith
further r false code offset count n h = omega arith

escape_round :
    (size : ℕ) (t : Bytes) (r : Reader) (f : Bool)
    → Step size r r
    → 1 ≤ length t
    → r.pos + suc (length t) ≡ size
    → let e = name_escape (drop 1 t) in
      let s = advance (2 + e.taken) r in
      Kept (Step size) size r (again (if e.bad then error 1126 r.pos 2 s else s) f)
escape_round size t r f still a h =
    let e = name_escape (drop 1 t) in
    let w = name_escape_within (drop 1 t) in
    let l = length-drop 1 t in
    let next = Step-advance size r r still (2 + e.taken) (omega arith) in
    let whole = if_Step e.bad (λ x. Step-error size r _ next 1126 r.pos 2) (λ x. next) in
    goes_on (further r e.bad 1126 r.pos 2 (2 + e.taken) (omega arith)) whole.within whole

identifier_round_lem :
    (in_table : ℕ → Bool) (size : ℕ) (bs : Bytes) (r : Reader) (f : Bool)
    → r.pos + length bs ≡ size
    → Kept (Step size) size r (identifier_round in_table bs r f)
unfolding identifier_round
identifier_round_lem in_table size [] r f h = leaves (stay size r (omega arith))
identifier_round_lem in_table size (c ∷ t) r f h =
    let bs = c ∷ t in
    let still = stay size r (omega arith) in
    let b = char_bytes_within bs in
    let p = char_bytes_positive c t in
    let next = Step-advance size r r still (char_bytes bs) (omega arith) in
    let n : r.pos < r.pos + char_bytes bs = omega arith in
    let cp = peek_char (c ∷ t) in
    if_Kept (is_ascii_identifier_part cp || cp == b'$' || cp == b'_')
      (λ x. goes_on n next.within next)
      (λ x.
        if_Kept (cp == 92)
          (λ x.
            if_Kept (starts_with t (codes "u"))
              (λ u. escape_round size t r f still (front_byte (codes "u") t u) h)
              (λ u. leaves still))
          (λ x.
            if_Kept (leb 128 cp && in_table cp) (λ x. goes_on n next.within next)
              (λ x. leaves still)))

pub identifier_chars-Step :
    (in_table : ℕ → Bool) (source : Bytes) (r : Reader)
    → r.pos ≤ length source
    → Step (length source) r (identifier_chars in_table source r)
unfolding identifier_chars
identifier_chars-Step in_table source r h =
    let d = length-drop r.pos source in
    loop-Step (length source) (identifier_round in_table)
      (identifier_round_lem in_table (length source)) (drop r.pos source) r true (omega arith)

-- What is left has a character where the position is before the end.
pub char_bytes_left :
    (source : Bytes) (n : ℕ)
    → n < length source
    → (0 < char_bytes (drop n source)) × (n + char_bytes (drop n source) ≤ length source)
char_bytes_left [] n h = absurd (omega arith)
char_bytes_left (c ∷ t) zero h =
    let b = char_bytes_within (c ∷ t) in (char_bytes_positive c t, omega arith)
char_bytes_left (c ∷ t) (suc n) h =
    let (a, b) = char_bytes_left t n (omega arith) in (a, omega arith)

-- From the start of a token on, something is taken.
pub identifier_end-Strict :
    (in_table : ℕ → Bool) (source : Bytes) (start : ℕ) (r : Reader)
    → start < length source
    → start ≤ r.pos
    → r.pos ≤ length source
    → let s = (identifier_end in_table source start r).0 in
      (start < s.pos) × Step (length source) r s
unfolding identifier_end
identifier_end-Strict in_table source start r a b c =
    let p = identifier_chars-Step in_table source r c in
    let s = identifier_chars in_table source r in
    elim (Bool-cases (s.pos == start)) [
      | inl e ↦
          let (x, y) = char_bytes_left source s.pos (ground (arith, e)) in
          let n = char_bytes (drop s.pos source) in
          rw e (ground (arith, e, x), Step-error _ _ _ (Step-advance _ _ _ p n y) 1127 start n)
      | inr e ↦ let f = p.forward in rw e (ground (arith, e, f), p)
    ]
