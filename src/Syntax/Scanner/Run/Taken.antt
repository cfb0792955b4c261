-- ===== src/Syntax/Scanner/Run/Taken.antt =====
-- source/fastlint/syntax/scanner.cc: what it is for a routine to take tokens.
use fastlint.Base.{
  ℕ, ◌+◌, ◌≤◌, ◌<◌, ◌≡◌, ◌⊎◌, refl, Bool, true, false, List, [], ◌∷◌, ◌++◌, Bytes, codes, ◌==◌,
  if◌then◌else◌, length, starts_with, and_true, true_false, arith, inl,
}
use fastlint.Syntax.Scanner.{Reader, Token, TokenKind}
use fastlint.Syntax.Scanner.Numbers.{front}
use fastlint.Syntax.Scanner.Templates.{normal, scan_template}
use fastlint.Syntax.Scanner.Run.{Scanner, add_token, commit}
use fastlint.Syntax.Scanner.Run.Rescan.{is_kind, is_end}
use fastlint.Syntax.Scanner.Moves.{Step, Step_trans}
use fastlint.Syntax.Scanner.Moves.Templates.{template_loop-Step}
use fastlint.Syntax.Scanner.Moves.Pieces.{Tiles, empty}

abbrev pub token_place : Token → ℕ × ℕ
token_place t = (t.offset, t.length)

abbrev pub is_brace : Scanner → Bool
is_brace s = is_kind (codes "}") s.current.kind

-- The next slot is the end of the token array.
abbrev pub Slot : Scanner → Type 0
Slot s = s.next_index ≡ length s.tokens

-- From the scanner `s` with its reader at `r`, where a token starts, to `s'`, whose current token
-- ends at the position: the tokens between fill the bytes between.
pub record Taken (size start : ℕ) (r : Reader) (s s' : Scanner) : Type 0 where
  pub step : Step size r s'.reader
  pub farther : (start < s'.reader.pos) ⊎ (is_end s' ≡ true)
  pub ends : s'.current.offset + s'.current.length ≡ s'.reader.pos
  pub brace : is_brace s' ≡ true → s'.current.offset + 1 ≡ s'.reader.pos
  pub slot : Slot s'
  pub filled :
      (new : List Token) × ((s'.tokens ≡ new ++ s.tokens)
        × Tiles token_place start s'.current.offset new)
  pub same_mode : s'.mode ≡ s.mode
  pub same_depth : s'.template_depth ≡ s.template_depth

-- One token, with the reader behind it.
pub one_token :
    (size start : ℕ) (r e : Reader) (s : Scanner) (kind : TokenKind) (b : Bool)
    → Slot s
    → Step size r e
    → start < e.pos
    → (is_kind (codes "}") kind ≡ true → start + 1 ≡ e.pos)
    → Taken size start r s (add_token kind start b e s)
one_token size start r e s kind b slot p h brace = record {
  step = p;
  farther = inl h;
  ends = omega arith;
  brace = brace;
  slot = slot;
  filled = ([], (refl, empty refl));
  same_mode = refl;
  same_depth = refl;
}

pub plain_token :
    (size start : ℕ) (r e : Reader) (s : Scanner) (kind : TokenKind) (b : Bool)
    → Slot s
    → Step size r e
    → start < e.pos
    → is_kind (codes "}") kind ≡ false
    → Taken size start r s (add_token kind start b e s)
plain_token size start r e s kind b slot p h n =
    one_token size start r e s kind b slot p h (λ x. true_false (is_kind (codes "}") kind) x n)

pub if_Taken :
    {size start : ℕ} {r : Reader} {s : Scanner} (b : Bool) {x y : Scanner}
    → (b ≡ true → Taken size start r s x)
    → (b ≡ false → Taken size start r s y)
    → Taken size start r s (if b then x else y)
if_Taken true f g = f refl
if_Taken false f g = g refl

-- Bytes of the token that were passed before.
pub restart :
    {size start : ℕ} {r : Reader} {s s' : Scanner} (e : Reader)
    → Step size r e
    → Taken size start e s s'
    → Taken size start r s s'
restart e p k = record {
  step = Step_trans _ _ _ _ p k.step;
  farther = k.farther;
  ends = k.ends;
  brace = k.brace;
  slot = k.slot;
  filled = k.filled;
  same_mode = k.same_mode;
  same_depth = k.same_depth;
}

pub dot_front : (bs : Bytes) → starts_with bs (codes ".") ≡ true → front (λ c. c == b'.') bs ≡ true
dot_front [] h = absurd (cc)
dot_front (c ∷ t) h = (and_true (c == b'.') _ h).0

pub template-Step :
    (source : Bytes) (start : ℕ) (r : Reader)
    → r.pos ≤ length source
    → Step (length source) r (scan_template source start normal r).0
unfolding scan_template
template-Step source start r h = template_loop-Step source start normal r _ h

-- Where the next slot is the end, a commit appends the current token.
pub commit-tokens :
    (s : Scanner) → Slot s → ((commit s).tokens ≡ (commit s).current ∷ s.tokens) × Slot (commit s)
unfolding commit
commit-tokens s slot =
    let e : (length s.tokens == s.next_index) ≡ true = ground (arith, slot) in (rw e refl, refl)

pub commit-Step :
    (size : ℕ) (r : Reader) (s : Scanner) → Step size r s.reader → Step size r (commit s).reader
unfolding commit
commit-Step size r s p = record {
  forward = p.forward;
  within = p.within;
  same_trivia = p.same_trivia;
  reported = p.reported;
  table = p.table;
}
