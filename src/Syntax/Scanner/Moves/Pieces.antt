-- ===== src/Syntax/Scanner/Moves/Pieces.antt =====
-- source/fastlint/syntax/scanner.cc: trivia and tokens that fill the bytes between two positions.
use fastlint.Base.{
  ℕ, ◌+◌, ◌≤◌, ◌≡◌, refl, sym, ap, ◌∙◌, Bool, true, false, List, [], ◌∷◌, ◌++◌, append_assoc,
  if◌then◌else◌, arith,
}
use mathlib.Core.Path.{subst}
use fastlint.Syntax.Scanner.{Reader, Trivia, TriviaKind, add_trivia}
use fastlint.Syntax.Scanner.Moves.{IsTable, Grown, Grown_refl, Grown_trans, Step}

-- Pieces from `a` to `b`, the last one first, each where the one before it ends.
pub data Tiles {ℓ} {A : Type ℓ} (place : A → ℕ × ℕ) (a : ℕ) : ℕ → List A → Type ℓ where
  empty : {b : ℕ} → a ≡ b → Tiles place a b []
  piece :
      {b : ℕ} {t : A} {ts : List A}
      → (place t).0 + (place t).1 ≡ b
      → Tiles place a (place t).0 ts
      → Tiles place a b (t ∷ ts)

pub Tiles-append {ℓ} :
    {A : Type ℓ} (place : A → ℕ × ℕ) (a b c : ℕ) (us ts : List A)
    → Tiles place b c us
    → Tiles place a b ts
    → Tiles place a c (us ++ ts)
Tiles-append place a b c _ ts (empty e) h = subst (λ x. Tiles place a x ts) e h
Tiles-append place a b c _ ts (piece {t = u} {ts = us} e t) h =
    piece e (Tiles-append place a b (place u).0 us ts t h)

abbrev pub trivia_place : Trivia → ℕ × ℕ
trivia_place t = (t.offset, t.length)

-- From `r` to `s` within a source of that size, with trivia for all between.
pub record Run (size : ℕ) (r s : Reader) : Type 0 where
  pub forward : r.pos ≤ s.pos
  pub within : s.pos ≤ size
  pub reported : Grown r.diagnostics s.diagnostics
  pub table : IsTable size r.line_starts → IsTable size s.line_starts
  pub tiled :
      (new : List Trivia) × ((s.trivia ≡ new ++ r.trivia) × Tiles trivia_place r.pos s.pos new)

pub rest_still : (size : ℕ) (r : Reader) → r.pos ≤ size → Run size r r
rest_still size r h = record {
  forward = omega arith;
  within = h;
  reported = Grown_refl r.diagnostics;
  table = λ t. t;
  tiled = ([], (refl, empty refl));
}

pub Run_trans : (size : ℕ) (r s t : Reader) → Run size r s → Run size s t → Run size r t
Run_trans size r s t p q =
    let (us, (e, a)) = p.tiled in
    let (vs, (f, b)) = q.tiled in
    record {
      forward = let x = p.forward in let y = q.forward in omega arith;
      within = q.within;
      reported = Grown_trans _ _ _ p.reported q.reported;
      table = λ h. q.table (p.table h);
      tiled = (
        vs ++ us,
        (
          f ∙ (ap (λ l. vs ++ l) e ∙ sym (append_assoc vs us r.trivia)),
          Tiles-append trivia_place r.pos s.pos t.pos vs us b a,
        ),
      );
    }

-- A step whose bytes are recorded.
pub recorded :
    (size : ℕ) (r s : Reader) (kind : TriviaKind) (offset count : ℕ) (b : Bool)
    → Step size r s
    → offset ≡ r.pos
    → r.pos + count ≡ s.pos
    → Run size r (add_trivia kind offset count b s)
recorded size r s kind offset count b p o e =
    let t : Trivia = record { kind = kind; offset = offset; length = count; line_break = b } in
    record {
      forward = p.forward;
      within = p.within;
      reported = p.reported;
      table = p.table;
      tiled = (t ∷ [], (ap (λ l. t ∷ l) p.same_trivia, piece (omega arith) (empty (sym o))));
    }

pub if_Run :
    {size : ℕ} {r : Reader} (b : Bool) {x y : Reader}
    → (b ≡ true → Run size r x)
    → (b ≡ false → Run size r y)
    → Run size r (if b then x else y)
if_Run true f g = f refl
if_Run false f g = g refl
