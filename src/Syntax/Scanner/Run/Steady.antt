-- ===== src/Syntax/Scanner/Run/Steady.antt =====
-- source/fastlint/syntax/scanner.cc: what holds between two tokens of `scanAll`.
use fastlint.Base.{
  ℕ, ◌+◌, ◌≤◌, ◌≡◌, refl, sym, ap, ◌∙◌, Bool, true, false, Option, none, some, List, [], ◌∷◌, ◌++◌,
  true_false, arith,
}
use mathlib.Core.Path.{subst}
use fastlint.Syntax.Scanner.{Token}
use fastlint.Syntax.Scanner.Templates.{normal}
use fastlint.Syntax.Scanner.Run.{Scanner, commit, at_end_of_file}
use fastlint.Syntax.Scanner.Run.Rescan.{is_end}
use fastlint.Syntax.Scanner.Run.Taken.{Slot, is_brace, token_place, commit-tokens}
use fastlint.Syntax.Scanner.Run.Tiled.{Read}
use fastlint.Syntax.Scanner.Moves.{IsTable}
use fastlint.Syntax.Scanner.Moves.Pieces.{Tiles, empty, piece, trivia_place}

-- Tokens up to a position, the last one first, whose ends go up.
pub data IsOrdered : ℕ → List Token → Type 0 where
  no_tokens : {b : ℕ} → IsOrdered b []
  one_more :
      {b : ℕ} {t : Token} {ts : List Token}
      → t.offset + t.length ≤ b
      → IsOrdered (t.offset + t.length) ts
      → IsOrdered b (t ∷ ts)

IsOrdered-weaken : (a b : ℕ) (ts : List Token) → a ≤ b → IsOrdered a ts → IsOrdered b ts
IsOrdered-weaken a b _ h no_tokens = no_tokens
IsOrdered-weaken a b _ h (one_more e o) = one_more (omega arith) o

pub Tiles_forward {ℓ} :
    {A : Type ℓ} (place : A → ℕ × ℕ) (a b : ℕ) (ts : List A) → Tiles place a b ts → a ≤ b
Tiles_forward place a b _ (empty e) = omega arith
Tiles_forward place a b _ (piece {t = t} {ts = ts} e h) =
    let f = Tiles_forward place a (place t).0 ts h in omega arith

Tiles-IsOrdered :
    (p a b : ℕ) (ts old : List Token)
    → p ≤ a
    → Tiles token_place a b ts
    → IsOrdered p old
    → IsOrdered b (ts ++ old)
Tiles-IsOrdered p a b _ old h (empty e) o = IsOrdered-weaken p b old (omega arith) o
Tiles-IsOrdered p a b _ old h (piece {t = t} {ts = ts} e k) o = one_more (omega arith) (
    IsOrdered-weaken t.offset (t.offset + t.length) _ (omega arith)
      (Tiles-IsOrdered p a t.offset ts old h k o))

-- Between the tokens: the position is within the source, the line starts are a table of it, and the
-- tokens, the last of which is the current one, end in order up to the position.
pub record IsSteady (size : ℕ) (s : Scanner) : Type 0 where
  pub within : s.reader.pos ≤ size
  pub table : IsTable size s.reader.line_starts
  pub ordered : IsOrdered s.reader.pos s.tokens
  pub last : (before : List Token) × (s.tokens ≡ s.current ∷ before)
  pub ends : s.current.offset + s.current.length ≡ s.reader.pos
  pub brace : is_brace s ≡ true → s.current.offset + 1 ≡ s.reader.pos
  pub slot : Slot s
  pub in_normal : s.mode ≡ normal

pub read_steady :
    (size : ℕ) (s t : Scanner)
    → Read size s t
    → IsTable size s.reader.line_starts
    → IsOrdered s.reader.pos s.tokens
    → s.mode ≡ normal
    → IsSteady size t
read_steady size s t p table o mode = record {
  within = p.within;
  table = p.table table;
  ordered =
      let f = Tiles_forward trivia_place s.reader.pos p.middle p.new_trivia p.trivia_tiled in
      subst (IsOrdered t.reader.pos) (sym p.added_tokens)
        (Tiles-IsOrdered s.reader.pos p.middle t.reader.pos _ s.tokens f p.tokens_tiled o);
  last = (p.new_tokens ++ s.tokens, p.added_tokens);
  ends = p.ends;
  brace = p.brace;
  slot = p.slot;
  in_normal = p.same_mode ∙ mode;
}

not_yet_at :
    (o : Option ℕ) (b : Bool)
    → b ≡ false
    → let p : Bool = elim o [ none ↦ false | some n ↦ b ] in p ≡ false
not_yet_at none b e = refl
not_yet_at (some n) b e = e

pub not_yet : (s : Scanner) → is_end s ≡ false → at_end_of_file s ≡ false
not_yet s e = not_yet_at s.current_index (is_end s) e

-- A token that is no brace, in place of the one behind a substitution.
pub template_steady :
    (size : ℕ) (s t : Scanner)
    → IsSteady size s
    → t.tokens ≡ s.tokens
    → Slot t
    → t.mode ≡ normal
    → t.current.offset + t.current.length ≡ t.reader.pos
    → is_brace t ≡ false
    → s.reader.pos ≤ t.reader.pos
    → t.reader.pos ≤ size
    → IsTable size t.reader.line_starts
    → IsSteady size (commit t)
      × ((s.reader.pos ≤ (commit t).reader.pos) × (is_brace (commit t) ≡ false))
unfolding commit
template_steady size s t st same slot mode ends plain forward w table =
    let (g, d) = commit-tokens t slot in
    (
      record {
        within = w;
        table = table;
        ordered = subst (IsOrdered t.reader.pos) (sym (g ∙ ap (λ l. (commit t).current ∷ l) same)) (
            one_more (omega arith)
              (IsOrdered-weaken s.reader.pos _ s.tokens (omega arith) st.ordered));
        last = (t.tokens, g);
        ends = ends;
        brace = λ x. true_false (is_brace t) x plain;
        slot = d;
        in_normal = mode;
      },
      (forward, plain),
    )
