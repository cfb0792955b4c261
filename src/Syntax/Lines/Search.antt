-- ===== src/Syntax/Lines/Search.antt =====
-- source/fastlint/syntax/tree.cc: what `lineOf` finds.
use fastlint.Base.{
  ℕ, zero, suc, ◌+◌, ◌-◌, ◌/◌, ◌≤◌, ◌<◌, ◌≡◌, leb, ltb, arith, length, get_or, Bool-cases, ltb→lt,
  leb→le, inl, inr,
}
use fastlint.Syntax.Lines.{LineStarts, search_lines, line_of, Ascending}

-- Every start below `lo` is at or before the offset, and every start from `hi` is behind it.
record Splits (starts : LineStarts) (offset lo hi : ℕ) : Type 0 where
  before : (i : ℕ) → i < lo → get_or starts i 0 ≤ offset
  behind : (i : ℕ) → hi ≤ i → i < length starts → offset < get_or starts i 0
  ordered : lo ≤ hi
  in_range : hi ≤ length starts

before-mid :
    (starts : LineStarts) (offset lo hi : ℕ)
    → Ascending starts
    → lo < hi
    → get_or starts ((lo + hi) / 2) 0 ≤ offset
    → Splits starts offset lo hi
    → Splits starts offset ((lo + hi) / 2 + 1) hi
before-mid starts offset lo hi asc more low s = record {
  before =
      λ i k. omega (arith, low, asc i ((lo + hi) / 2) (omega arith) (omega (arith, s.in_range)));
  behind = s.behind;
  ordered = omega arith;
  in_range = s.in_range;
}

behind-mid :
    (starts : LineStarts) (offset lo hi : ℕ)
    → Ascending starts
    → lo < hi
    → offset < get_or starts ((lo + hi) / 2) 0
    → Splits starts offset lo hi
    → Splits starts offset lo ((lo + hi) / 2)
behind-mid starts offset lo hi asc more high s = record {
  before = s.before;
  behind = λ i k l. omega (arith, high, asc ((lo + hi) / 2) i k l);
  ordered = omega arith;
  in_range = omega (arith, s.in_range);
}

search_lines-Splits :
    (fuel : ℕ) (starts : LineStarts) (offset lo hi : ℕ)
    → Ascending starts
    → hi - lo ≤ fuel
    → Splits starts offset lo hi
    → Splits starts offset
        (search_lines fuel starts offset lo hi)
        (search_lines fuel starts offset lo hi)
unfolding search_lines
search_lines-Splits zero starts offset lo hi asc h s =
    let e : lo ≡ hi = omega (arith, s.ordered) in
    record {
      before = s.before;
      behind = λ i k. s.behind i (omega arith);
      ordered = omega arith;
      in_range = omega (arith, s.in_range);
    }
search_lines-Splits (suc fuel) starts offset lo hi asc h s = elim (Bool-cases (ltb lo hi)) [
  | inl more ↦ elim (Bool-cases (leb (get_or starts ((lo + hi) / 2) 0) offset)) [
    | inl low ↦
        rw (more, low)
          (search_lines-Splits fuel starts offset ((lo + hi) / 2 + 1) hi asc
            (omega (arith, ltb→lt lo hi more))
            (before-mid starts offset lo hi asc (ltb→lt lo hi more) (leb→le _ _ low) s))
    | inr high ↦
        rw (more, high)
          (search_lines-Splits fuel starts offset lo ((lo + hi) / 2) asc
            (omega (arith, ltb→lt lo hi more))
            (behind-mid starts offset lo hi asc (ltb→lt lo hi more) (ground arith) s))
  ]
  | inr done ↦ rw done (
      let e : lo ≡ hi = ground (arith, s.ordered) in
      record {
        before = s.before;
        behind = λ i k. s.behind i (omega arith);
        ordered = omega arith;
        in_range = omega (arith, s.in_range);
      })
]

-- Of ascending line starts, `lineOf` counts exactly those at or before the offset: the line with the
-- index `i` is among the first `lineOf` ones just when it starts there or earlier.
pub line_of_splits :
    (starts : LineStarts) (offset i : ℕ)
    → Ascending starts
    → i < length starts
    → (line_of starts offset ≤ length starts)
      × (ltb i (line_of starts offset) ≡ leb (get_or starts i 0) offset)
unfolding line_of
line_of_splits starts offset i asc inside =
    let n = length starts in
    let s = search_lines-Splits n starts offset 0 n asc (omega arith) (record {
      before = λ i h. absurd (omega arith);
      behind = λ i h k. absurd (omega arith);
      ordered = omega arith;
      in_range = omega arith;
    }) in
    (s.in_range, ground (arith, s.before i, s.behind i))
