-- ===== src/Syntax/Lines.antt =====
-- source/fastlint/syntax/tree.cc: `GrammarTree::lineOf`, a binary search over line starts.
pub mod Search
use fastlint.Base.{ℕ, zero, suc, ◌+◌, ◌/◌, ◌≤◌, ◌<◌, List, leb, ltb, if◌then◌else◌, length, get_or}

abbrev pub LineStarts : Type 0
LineStarts = List ℕ

-- The loop over `lo` and `hi`, a round for each unit of fuel.
unfoldable pub search_lines : ℕ → LineStarts → ℕ → ℕ → ℕ → ℕ
search_lines zero starts offset lo hi = lo
search_lines (suc fuel) starts offset lo hi =
    let mid = (lo + hi) / 2 in
    let right = search_lines fuel starts offset (mid + 1) hi in
    let left = search_lines fuel starts offset lo mid in
    if ltb lo hi then (if leb (get_or starts mid 0) offset then right else left) else lo

-- 1-based, because line 1 starts at offset 0. The interval shrinks in every round.
unfoldable pub line_of : LineStarts → ℕ → ℕ
unfolding search_lines
line_of starts offset = search_lines (length starts) starts offset 0 (length starts)

-- The scanner appends the starts in order.
abbrev pub Ascending : LineStarts → Type 0
Ascending starts = (i j : ℕ) → i ≤ j → j < length starts → get_or starts i 0 ≤ get_or starts j 0
