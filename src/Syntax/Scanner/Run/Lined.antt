-- ===== src/Syntax/Scanner/Run/Lined.antt =====
-- source/fastlint/syntax/scanner.cc, tree.cc: the line table of `scanAll`, as `lineOf` reads it.
use fastlint.Base.{
  ℕ, zero, suc, ◌≤◌, ◌<◌, ◌≡◌, refl, sym, ◌∙◌, some, List, [], ◌∷◌, ◌++◌, ltb, leb, length, get_or,
  length-append, get_or-append_left, get_or-append_right, Bool-cases, arith, inl, inr,
}
use mathlib.Core.Path.{subst}
use mathlib.Core.Option.{some-injective}
use fastlint.Syntax.Lines.{Ascending, line_of}
use fastlint.Syntax.Lines.Search.{line_of_splits}
use fastlint.Syntax.Scanner.Moves.{IsTable, origin, later}
use fastlint.Syntax.Scanner.Run.{Scanner, Input}
use fastlint.Syntax.Scanner.Run.Rescan.{scan_all}
use fastlint.Syntax.Scanner.Run.Total.{scan_all-IsSteady}

-- The table with its first element first, as `scanAll` hands it to the tree.
unfoldable pub in_order : List ℕ → List ℕ
in_order [] = []
in_order (x ∷ xs) = in_order xs ++ x ∷ []

length-in_order : (xs : List ℕ) → length (in_order xs) ≡ length xs
unfolding in_order
length-in_order [] = refl
length-in_order (x ∷ xs) =
    let l = length-append (in_order xs) (x ∷ []) in let h = length-in_order xs in omega arith

last_entry : (xs : List ℕ) (x i : ℕ) → i ≡ length xs → get_or (in_order xs ++ x ∷ []) i 0 ≡ x
last_entry xs x i h =
    let l = length-in_order xs in get_or-append_right (in_order xs) (x ∷ []) i 0 0 (omega arith)

-- No entry is above the last one.
entry_below :
    (size b i : ℕ) (ls : List ℕ)
    → IsTable size (b ∷ ls)
    → i < suc (length ls)
    → get_or (in_order (b ∷ ls)) i 0 ≤ b
unfolding in_order
entry_below size _ zero _ origin h = omega arith
entry_below size _ (suc i) _ origin h = absurd (omega arith)
entry_below size _ i _ (later {a = a} {b = b} {ls = ls} below within t) h =
    elim (Bool-cases (ltb i (suc (length ls)))) [
      | inl e ↦
          let l = length-in_order (a ∷ ls) in
          let g = get_or-append_left (in_order (a ∷ ls)) (b ∷ []) i 0 (ground (arith, e, l)) in
          let q = entry_below size a i ls t (ground (arith, e)) in omega arith
      | inr e ↦ let g = last_entry (a ∷ ls) b i (ground (arith, e)) in omega arith
    ]

table_ascends : (size : ℕ) (ls : List ℕ) → IsTable size ls → Ascending (in_order ls)
unfolding in_order
table_ascends size _ origin i j h k =
    let a : i ≡ 0 = omega arith in let b : j ≡ 0 = omega arith in rw (a, b) (omega arith)
table_ascends size _ (later {a = a} {b = b} {ls = ls} below within t) i j h k =
    let l = length-in_order (a ∷ ls) in
    let m = length-append (in_order (a ∷ ls)) (b ∷ []) in
    elim (Bool-cases (ltb j (suc (length ls)))) [
      | inl e ↦
          let g = get_or-append_left (in_order (a ∷ ls)) (b ∷ []) j 0 (ground (arith, e, l)) in
          let f = get_or-append_left (in_order (a ∷ ls)) (b ∷ []) i 0 (ground (arith, e, l, h)) in
          let q = table_ascends size (a ∷ ls) t i j h (ground (arith, e, l)) in omega arith
      | inr e ↦
          let g = last_entry (a ∷ ls) b j (ground (arith, e, l, m, k)) in
          let q =
            entry_below size b i (a ∷ ls) (later below within t) (ground (arith, e, l, m, h, k)) in
          omega arith
    ]

-- Scanning a whole source and asking for a line fit together: of the line starts that `scan_all`
-- leaves, in their order, `lineOf` counts exactly those at or before the offset.
pub line_of-scan_all :
    (i : Input) (s : Scanner) (offset k : ℕ)
    → scan_all i ≡ some s
    → k < length s.reader.line_starts
    → ltb k (line_of (in_order s.reader.line_starts) offset)
      ≡ leb (get_or (in_order s.reader.line_starts) k 0) offset
line_of-scan_all i s offset k h inside =
    let (t, (e, (steady, ended))) = scan_all-IsSteady i in
    let same : t ≡ s = some-injective _ _ (sym e ∙ h) in
    let table = subst (λ x. IsTable (length i.source) x.reader.line_starts) same steady.table in
    let starts = s.reader.line_starts in
    let l = length-in_order starts in
    (line_of_splits (in_order starts) offset k (table_ascends (length i.source) starts table)
      (omega arith)).1
