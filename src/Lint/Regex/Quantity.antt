-- ===== src/Lint/Regex/Quantity.antt =====
-- source/fastlint/lint/regex.cc: the quantifiers of a pattern. A number stays the one it spells,
-- where the source's `int` would overflow.
use fastlint.Base.{ℕ, ◌-◌, true, false, Option, none, some, [], ◌∷◌, Bytes, ◌==◌, if◌then◌else◌}
use fastlint.Lint.Regex.{Quantifier, is_digit}
use fastlint.Lint.Regex.Escape.{digit_after}

-- The loop of `parseNumber`.
unfoldable pub digits_loop : Option ℕ → Bytes → Option ℕ × Bytes
digits_loop value [] = (value, [])
digits_loop value (c ∷ s) =
    let rest = digits_loop (some (digit_after 10 value (c - b'0'))) s in
    if is_digit c then rest else (value, c ∷ s)

abbrev pub parse_number : Bytes → Option ℕ × Bytes
parse_number s = digits_loop none s

abbrev pub once : Quantifier
once = record { min = 1; max = some 1; greedy = true }

-- A `?` behind a quantifier makes it lazy.
unfoldable pub lazy : ℕ → Option ℕ → Bytes → Quantifier × Bytes
lazy min max [] = (record { min = min; max = max; greedy = true }, [])
lazy min max (c ∷ s) =
    if c == b'?'
    then (record { min = min; max = max; greedy = false }, s)
    else (record { min = min; max = max; greedy = true }, c ∷ s)

-- What stands behind the first number of a `{`: the bound, and the pattern from there.
unfoldable pub upper_bound : ℕ → Bytes → Option ℕ × Bytes
upper_bound min [] = (some min, [])
upper_bound min (c ∷ []) = if c == b',' then (none, []) else (some min, c ∷ [])
upper_bound min (c ∷ d ∷ s) =
    if c == b','
    then (if d == b'}' then (none, d ∷ s) else parse_number (d ∷ s))
    else (some min, c ∷ d ∷ s)

-- The brace that ends a `{min,max}`.
unfoldable pub close_count : ℕ → Option ℕ → Bytes → Option (Quantifier × Bytes)
close_count min max [] = none
close_count min max (c ∷ s) = if c == b'}' then some (lazy min max s) else none

unfoldable pub counted : Bytes → Option (Quantifier × Bytes)
counted s =
    let (first, r) = parse_number s in
    elim first [
      | none ↦ none
      | some min ↦ let (max, t) = upper_bound min r in close_count min max t
    ]

unfoldable pub parse_quantifier : Bytes → Quantifier × Bytes
parse_quantifier [] = (once, [])
parse_quantifier (c ∷ s) =
    if c == b'*'
    then lazy 0 none s
    else if c == b'+'
    then lazy 1 none s
    else if c == b'?'
    then lazy 0 (some 1) s
    else if c == b'{'
    then elim (counted s) [ none ↦ (once, c ∷ s) | some (q, r) ↦ (q, r) ]
    else (once, c ∷ s)
