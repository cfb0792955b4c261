-- ===== src/Syntax/Scanner/Run/Rewound.antt =====
-- source/fastlint/syntax/scanner.h, scanner.cc: `rewind` to a state before a scan.
use fastlint.Base.{
  ℕ, sym, ◌∙◌, suc, ◌-◌, ◌≤◌, ◌≡◌, refl, true, false, some, List, ◌∷◌, ◌++◌, ltb, length,
  length-append, drop-length-append, arith,
}
use fastlint.Syntax.Scanner.{Token}
use fastlint.Syntax.Scanner.Templates.{normal}
use fastlint.Syntax.Scanner.Run.{
  Scanner, Input, scan_one, commit, finish_current, cleared, at_end_of_file,
}
use fastlint.Syntax.Scanner.Run.Rescan.{state, rewind, resize, nth_last, token_or_none}
use fastlint.Syntax.Scanner.Run.Taken.{Slot}
use fastlint.Syntax.Scanner.Run.Tiled.{scan_one-Read}
use fastlint.Syntax.Scanner.Moves.{Grown, IsTable}

resize_grown {ℓ} : {A : Type ℓ} (xs ys : List A) → Grown xs ys → resize (length xs) ys ≡ xs
resize_grown xs ys (new, e) =
    let l = length-append new xs in
    let n : length (new ++ xs) - length xs ≡ length new = omega arith in
    rw (e, n) (drop-length-append new xs)

-- From the scanner `s` before a scan to `t` behind the rewind, within a source of that size: all is
-- as before but for the line starts, the octal flag of the reader, which is that of the current token,
-- the line break noted for the last scan, and the run of `>`, of which nothing is left to hand out.
-- The next scan starts from the same scanner but for the line starts, which are still a table, and the
-- place of such a run.
pub record IsRewound (size : ℕ) (s t : Scanner) : Type 0 where
  pub before : t ≡ record s {
    reader = record s.reader {
      line_starts = t.reader.line_starts;
      legacy_octal = s.current.legacy_octal;
    };
    preceding_line_break = t.preceding_line_break;
    gt_base = t.gt_base;
    gt_remaining = 0;
  }
  pub next_scan :
      cleared t
      ≡ cleared (record s {
        reader = record s.reader { line_starts = t.reader.line_starts };
        gt_base = t.gt_base;
      })
  pub table : IsTable size t.reader.line_starts

last_token : (t : Token) (ts : List Token) → token_or_none (t ∷ ts) (some (length ts)) ≡ t
last_token t ts =
    let a : ltb (length ts) (suc (length ts)) ≡ true = ground arith in
    let b : suc (length ts) - 1 - length ts ≡ 0 = omega arith in
    let c : nth_last (t ∷ ts) (length ts) ≡ some t = rw (nth_last, a, b) refl in
    rw (token_or_none, c) refl

rewind_grown :
    (size : ℕ) (s t : Scanner) (ts : List Token)
    → s.tokens ≡ s.current ∷ ts
    → s.current_index ≡ some (length ts)
    → s.next_index ≡ length s.tokens
    → s.reader.saw_line_break ≡ t.reader.saw_line_break
    → t.template_depth ≡ s.template_depth
    → IsTable size t.reader.line_starts
    → Grown s.tokens t.tokens
    → Grown s.reader.trivia t.reader.trivia
    → Grown s.reader.diagnostics t.reader.diagnostics
    → IsRewound size s (rewind (state s) t)
unfolding rewind state
rewind_grown size s t ts last index next saw depth table a b c =
    let e = resize_grown s.tokens t.tokens a in
    let f = resize_grown s.reader.trivia t.reader.trivia b in
    let g = resize_grown s.reader.diagnostics t.reader.diagnostics c in
    let kept : token_or_none s.tokens s.current_index ≡ s.current =
      rw (last, index) (last_token s.current ts) in
    record {
      before = rw (e, f, g, kept, sym saw, depth, next) refl;
      next_scan = rw (e, f, g, sym saw, depth, next) refl;
      table = table;
    }

scanned_break :
    (i : Input) (s : Scanner)
    → at_end_of_file s ≡ false
    → (scan_one i s).reader.saw_line_break ≡ false
unfolding scan_one commit finish_current
scanned_break i s before = rw before refl

-- Speculation: where the last token is the current one, at the end of the token array, and no line
-- break is noted for the next token, as every scan leaves it, a scan of one token in the normal mode
-- and the rewind to the state before give back all that the scanner has and the next scan reads, but
-- for the line starts, which stay an ascending table within the source. Also what is left of a run of
-- `>` is given up.
pub rewind-scan_one :
    (i : Input) (s : Scanner) (ts : List Token)
    → s.tokens ≡ s.current ∷ ts
    → s.current_index ≡ some (length ts)
    → at_end_of_file s ≡ false
    → s.mode ≡ normal
    → Slot s
    → s.reader.saw_line_break ≡ false
    → s.reader.pos ≤ length i.source
    → IsTable (length i.source) s.reader.line_starts
    → IsRewound (length i.source) s (rewind (state s) (scan_one i s))
rewind-scan_one i s ts last index before mode slot saw w table =
    let p = scan_one-Read i s before mode slot w in
    rewind_grown (length i.source) s (scan_one i s) ts last index slot
      (saw ∙ sym (scanned_break i s before)) p.same_depth (p.table table)
      ((scan_one i s).current ∷ p.new_tokens, p.added_tokens) (p.new_trivia, p.added_trivia)
      p.reported
