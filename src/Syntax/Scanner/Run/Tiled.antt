-- ===== src/Syntax/Scanner/Run/Tiled.antt =====
-- source/fastlint/syntax/scanner.cc: `scanOne` in the normal mode leaves no byte out.
use fastlint.Base.{
  ℕ, ◌+◌, ◌≤◌, ◌<◌, ◌≡◌, ◌⊎◌, refl, ap, ◌∙◌, true, false, List, ◌∷◌, ◌++◌, length, drop, arith, inl,
  inr,
}
use fastlint.Syntax.Scanner.{Reader, Token, Trivia}
use fastlint.Syntax.Scanner.Skip.{skip_trivia}
use fastlint.Syntax.Scanner.Templates.{normal}
use fastlint.Syntax.Scanner.Run.{
  Scanner, Input, commit, scan_normal, scan_mode, scan_one, cleared, at_end_of_file,
}
use fastlint.Syntax.Scanner.Run.Rescan.{is_end}
use fastlint.Syntax.Scanner.Run.Routines.{scan_token-Taken}
use fastlint.Syntax.Scanner.Run.Taken.{Taken, Slot, is_brace, token_place, commit-tokens}
use fastlint.Syntax.Scanner.Moves.{Grown, Grown_trans, IsTable}
use fastlint.Syntax.Scanner.Moves.Skipped.{skip_trivia-Run}
use fastlint.Syntax.Scanner.Moves.Pieces.{Run, Tiles, trivia_place, piece}

-- From the scanner `s` to `t` within a source of that size: trivia up to `middle`, tokens from there
-- to the position, and the last token is the current one. The position has moved or the file is at
-- its end.
pub record Read (size : ℕ) (s t : Scanner) : Type 0 where
  pub middle : ℕ
  pub new_trivia : List Trivia
  pub new_tokens : List Token
  pub added_trivia : t.reader.trivia ≡ new_trivia ++ s.reader.trivia
  pub trivia_tiled : Tiles trivia_place s.reader.pos middle new_trivia
  pub added_tokens : t.tokens ≡ (t.current ∷ new_tokens) ++ s.tokens
  pub tokens_tiled : Tiles token_place middle t.reader.pos (t.current ∷ new_tokens)
  pub farther : (s.reader.pos < t.reader.pos) ⊎ (is_end t ≡ true)
  pub forward : s.reader.pos ≤ t.reader.pos
  pub within : t.reader.pos ≤ size
  pub reported : Grown s.reader.diagnostics t.reader.diagnostics
  pub table : IsTable size s.reader.line_starts → IsTable size t.reader.line_starts
  pub ends : t.current.offset + t.current.length ≡ t.reader.pos
  pub brace : is_brace t ≡ true → t.current.offset + 1 ≡ t.reader.pos
  pub slot : Slot t
  pub same_mode : t.mode ≡ s.mode
  pub same_depth : t.template_depth ≡ s.template_depth

-- The commit of a token behind its trivia.
Read-token :
    (size : ℕ) (s u t : Scanner) (r : Reader)
    → Run size s.reader r
    → u.tokens ≡ s.tokens
    → u.mode ≡ s.mode
    → u.template_depth ≡ s.template_depth
    → Taken size r.pos r u t
    → Read size s (commit t)
unfolding commit
Read-token size s u t r p same_tokens mode depth k =
    let (us, (e, tiled)) = p.tiled in
    let (ts, (f, filled)) = k.filled in
    let (g, slot) = commit-tokens t k.slot in
    record {
      middle = r.pos;
      new_trivia = us;
      new_tokens = ts;
      added_trivia = k.step.same_trivia ∙ e;
      trivia_tiled = tiled;
      added_tokens = g ∙ ap (λ l. (commit t).current ∷ l) (f ∙ ap (λ l. ts ++ l) same_tokens);
      tokens_tiled = piece k.ends filled;
      farther = elim k.farther [ inl a ↦ inl (let b = p.forward in omega arith) | inr a ↦ inr a ];
      forward = let a = p.forward in let b = k.step.forward in omega arith;
      within = k.step.within;
      reported = Grown_trans _ _ _ p.reported k.step.reported;
      table = λ h. k.step.table (p.table h);
      ends = k.ends;
      brace = k.brace;
      slot = slot;
      same_mode = k.same_mode ∙ mode;
      same_depth = k.same_depth ∙ depth;
    }

cleared_run :
    (size : ℕ) (s : Scanner) (r : Reader) → Run size (cleared s).reader r → Run size s.reader r
cleared_run size s r p = record {
  forward = p.forward;
  within = p.within;
  reported = p.reported;
  table = p.table;
  tiled = p.tiled;
}

mode_normal : (i : Input) (s : Scanner) → s.mode ≡ normal → scan_mode i s ≡ scan_normal i s
unfolding scan_mode
mode_normal i s e = rw e refl

-- `scan_one` in the normal mode, before the end of the file and with the next slot at the end of the
-- token array, adds trivia that fill the source from the position on, each beginning where the one
-- before it ends, and then in the same way one token or two, the last of which ends at the new
-- position. The position moves forward within the source, unless the token is the end of the file;
-- diagnostics are only added, and the line starts stay strictly ascending from 0 within the source.
pub scan_one-Read :
    (i : Input) (s : Scanner)
    → at_end_of_file s ≡ false
    → s.mode ≡ normal
    → Slot s
    → s.reader.pos ≤ length i.source
    → Read (length i.source) s (scan_one i s)
unfolding scan_one scan_normal
scan_one-Read i s before mode slot w =
    let f = cleared s in
    let r = skip_trivia i.java_script i.source f.reader in
    let p = skip_trivia-Run i.java_script i.source f.reader w in
    let u = record f { reader = r; preceding_line_break = r.saw_line_break } in
    let k = scan_token-Taken i (drop r.pos i.source) r u slot p.within refl in
    let e = mode_normal i f mode in
    rw (before, e)
      (Read-token (length i.source) s u _ r (cleared_run (length i.source) s r p) refl refl refl k)
