-- ===== src/Syntax/Scanner/Moves.antt =====
-- source/fastlint/syntax/scanner.cc: what reading characters keeps: the position moves forward
-- within the source, the line starts stay a table and diagnostics are only added.
pub mod Names
pub mod Literals
pub mod Texts
pub mod Templates
pub mod Numbers
pub mod Pieces
pub mod Skipped
pub mod Marks
pub mod Patterns
pub mod Longest
use fastlint.Base.{
  ℕ, zero, suc, ◌+◌, ◌-◌, ◌≤◌, ◌<◌, ◌≡◌, refl, sym, ap, ◌∙◌, Bool, true, false, List, [], ◌∷◌, ◌++◌,
  append_assoc, Bytes, leb, ltb, leb→le, if◌then◌else◌, length, drop, length-drop, Bool-cases,
  arith, inl, inr,
}
use fastlint.Syntax.Scanner.{
  Reader, Diagnostic, Trivia, note, advance, error, note_line_start, see_line_break, note_octal,
  char_bytes, char_length, span,
}

-- Line starts of a source, the last one first: from 0 on, strictly ascending and within the source.
pub data IsTable (size : ℕ) : List ℕ → Type 0 where
  origin : IsTable size (0 ∷ [])
  later :
      {a b : ℕ} {ls : List ℕ} → a < b → b ≤ size → IsTable size (a ∷ ls) → IsTable size (b ∷ a ∷ ls)

-- `noteLineStart` keeps the table.
pub note-IsTable :
    (size start : ℕ) (ls : List ℕ)
    → 0 < start
    → start ≤ size
    → IsTable size ls
    → IsTable size (note start ls)
unfolding note
note-IsTable size start _ p b origin =
    let e : leb start 0 ≡ false = ground arith in rw e (later p b origin)
note-IsTable size start _ p q (later {a = a} {b = b} {ls = ls} below within t) =
    elim (Bool-cases (leb start b)) [
      | inl e ↦ rw e (note-IsTable size start (a ∷ ls) p q t)
      | inr e ↦ rw e (later (ground (arith, e)) q (later below within t))
    ]

-- Elements are only put in front.
abbrev pub Grown {ℓ} : {A : Type ℓ} → List A → List A → Type ℓ
Grown {A = A} xs ys = (new : List A) × (ys ≡ new ++ xs)

pub Grown_refl {ℓ} : {A : Type ℓ} (xs : List A) → Grown xs xs
Grown_refl xs = ([], refl)

pub Grown_cons {ℓ} : {A : Type ℓ} (x : A) (xs ys : List A) → Grown xs ys → Grown xs (x ∷ ys)
Grown_cons x xs ys (new, e) = (x ∷ new, ap (λ l. x ∷ l) e)

pub Grown_trans {ℓ} : {A : Type ℓ} (xs ys zs : List A) → Grown xs ys → Grown ys zs → Grown xs zs
Grown_trans xs ys zs (new, e) (more, h) =
    (more ++ new, h ∙ (ap (λ l. more ++ l) e ∙ sym (append_assoc more new xs)))

-- From `r` to `s` within a source of that size.
pub record Step (size : ℕ) (r s : Reader) : Type 0 where
  pub forward : r.pos ≤ s.pos
  pub within : s.pos ≤ size
  pub same_trivia : s.trivia ≡ r.trivia
  pub reported : Grown r.diagnostics s.diagnostics
  pub table : IsTable size r.line_starts → IsTable size s.line_starts

pub stay : (size : ℕ) (r : Reader) → r.pos ≤ size → Step size r r
stay size r b = record {
  forward = omega arith;
  within = b;
  same_trivia = refl;
  reported = Grown_refl r.diagnostics;
  table = λ t. t;
}

pub Step_trans : (size : ℕ) (r s t : Reader) → Step size r s → Step size s t → Step size r t
Step_trans size r s t p q = record {
  forward = let a = p.forward in let b = q.forward in omega arith;
  within = q.within;
  same_trivia = q.same_trivia ∙ p.same_trivia;
  reported = Grown_trans _ _ _ p.reported q.reported;
  table = λ h. q.table (p.table h);
}

pub if_Step :
    {size : ℕ} {r : Reader} (b : Bool) {x y : Reader}
    → (b ≡ true → Step size r x)
    → (b ≡ false → Step size r y)
    → Step size r (if b then x else y)
if_Step true f g = f refl
if_Step false f g = g refl

-- What a step may do next.
module _ (size : ℕ) (r s : Reader) (p : Step size r s) where
  pub Step-advance : (n : ℕ) → s.pos + n ≤ size → Step size r (advance n s)
  Step-advance n b = record {
    forward = let a = p.forward in omega arith;
    within = b;
    same_trivia = p.same_trivia;
    reported = p.reported;
    table = p.table;
  }

  pub Step-error : (code offset count : ℕ) → Step size r (error code offset count s)
  Step-error code offset count = record {
    forward = p.forward;
    within = p.within;
    same_trivia = p.same_trivia;
    reported = Grown_cons _ _ _ p.reported;
    table = p.table;
  }

  pub Step-note_line_start :
      (start : ℕ) → 0 < start → start ≤ size → Step size r (note_line_start start s)
  Step-note_line_start start a b = record {
    forward = p.forward;
    within = p.within;
    same_trivia = p.same_trivia;
    reported = p.reported;
    table = λ h. note-IsTable size start s.line_starts a b (p.table h);
  }

  pub Step-see_line_break : Step size r (see_line_break s)
  Step-see_line_break = record {
    forward = p.forward;
    within = p.within;
    same_trivia = p.same_trivia;
    reported = p.reported;
    table = p.table;
  }

  pub Step-note_octal : Step size r (note_octal s)
  Step-note_octal = record {
    forward = p.forward;
    within = p.within;
    same_trivia = p.same_trivia;
    reported = p.reported;
    table = p.table;
  }

-- From `r` to `s`, and farther.
abbrev pub Strict : ℕ → Reader → Reader → Type 0
Strict size r s = (r.pos < s.pos) × Step size r s

pub length-span : (p : ℕ → Bool) (bs : Bytes) → span p bs ≤ length bs
unfolding span
length-span p [] = omega arith
length-span p (c ∷ t) = ground (arith, length-span p t)

pub char_bytes_within : (bs : Bytes) → char_bytes bs ≤ length bs
unfolding char_bytes
char_bytes_within [] = omega arith
char_bytes_within (c ∷ t) = ground arith

pub char_length_positive : (c : ℕ) → 0 < char_length c
unfolding char_length
char_length_positive c = ground arith

pub char_bytes_positive : (c : ℕ) (t : Bytes) → 0 < char_bytes (c ∷ t)
unfolding char_bytes
char_bytes_positive c t = ground (arith, char_length_positive c)
