-- ===== src/Lint/Glob.antt =====
-- source/fastlint/lint/glob.cc: globs of the configuration, matched against paths.
pub mod Match
pub mod Sound
pub mod Braces
pub mod Groups
pub mod Expansions
use fastlint.Base.{
  ℕ, zero, suc, ◌+◌, ◌-◌, Bool, true, false, not, ◌&&◌, ◌||◌, Option, none, some, List, [], ◌∷◌,
  ◌++◌, Bytes, leb, ◌==◌, if◌then◌else◌, length, is_empty,
}
use fastlint.Lint.Text.{split_commas}

abbrev pub lower : ℕ → ℕ
lower c = if leb b'A' c && leb c b'Z' then c - b'A' + b'a' else c

abbrev pub chars_equal : ℕ → ℕ → Bool → Bool
chars_equal a b case_insensitive = if case_insensitive then lower a == lower b else a == b

-- The loop of a `**`: `rest` at the start and behind every slash.
unfoldable pub behind_slash : (Bytes → Bool) → Bytes → Bool
behind_slash rest [] = false
behind_slash rest (c ∷ s) = if c == b'/' then rest s || behind_slash rest s else behind_slash rest s

abbrev pub at_segments : (Bytes → Bool) → Bytes → Bool
at_segments rest s = rest s || behind_slash rest s

-- The loop of a `*`: `rest` behind zero or more bytes of the segment.
unfoldable pub in_segment : (Bytes → Bool) → Bytes → Bool
in_segment rest [] = rest []
in_segment rest (c ∷ s) = rest (c ∷ s) || (not (c == b'/') && in_segment rest s)

abbrev pub fits : ℕ → ℕ → Bool → Bool
fits c h case_insensitive = if c == b'?' then not (h == b'/') else chars_equal c h case_insensitive

-- A byte of the pattern that starts no `**`, with the match of the bytes behind it.
unfoldable pub match_one : ℕ → (Bytes → Bool) → Bool → Bytes → Bool
match_one c rest case_insensitive [] = if c == b'*' then in_segment rest [] else false
match_one c rest case_insensitive (h ∷ s) =
    if c == b'*' then in_segment rest (h ∷ s) else fits c h case_insensitive && rest s

unfoldable pub match_expanded : Bytes → Bool → Bytes → Bool
match_expanded [] case_insensitive s = is_empty s
match_expanded (c ∷ []) case_insensitive s =
    match_one c (match_expanded [] case_insensitive) case_insensitive s
match_expanded (c ∷ d ∷ []) case_insensitive s =
    if c == b'*' && d == b'*'
    then true
    else match_one c (match_expanded (d ∷ []) case_insensitive) case_insensitive s
match_expanded (c ∷ d ∷ e ∷ p) case_insensitive s =
    let under = match_expanded p case_insensitive in
    let beside = match_expanded (e ∷ p) case_insensitive in
    let behind = match_expanded (d ∷ e ∷ p) case_insensitive in
    if c == b'*' && d == b'*'
    then (if e == b'/' then is_empty p || at_segments under s else at_segments beside s)
    else if is_empty s && (c == b'/' && d == b'*' && e == b'*')
    then under s
    else match_one c behind case_insensitive s

-- `find`: the text before the first such byte and behind it, if there is one.
unfoldable pub split_at : ℕ → Bytes → Option (Bytes × Bytes)
split_at c [] = none
split_at c (b ∷ s) =
    let rest = split_at c s in
    if b == c
    then some ([], s)
    else elim rest [ none ↦ none | some (before, behind) ↦ some (b ∷ before, behind) ]

-- `pattern.find('{')`, and from there `pattern.find('}', open)`.
unfoldable pub split_braces : Bytes → Option (Bytes × Bytes × Bytes)
split_braces pattern = elim (split_at b'{' pattern) [
  | none ↦ none
  | some (head, inside) ↦ elim (split_at b'}' inside) [
    | none ↦ none
    | some (body, tail) ↦ some (head, body, tail)
  ]
]

-- The loop over the alternatives of a group.
unfoldable pub match_any : (Bytes → Bool) → Bytes → Bytes → List Bytes → Bool
match_any matches head tail [] = false
match_any matches head tail (a ∷ rest) =
    matches (head ++ a ++ tail) || match_any matches head tail rest

-- One call, the recursive ones being `expanded`.
unfoldable pub match_group : (Bytes → Bool) → Bytes → Bool → Bytes → Bool
match_group expanded path case_insensitive pattern = elim (split_braces pattern) [
  | none ↦ match_expanded pattern case_insensitive path
  | some (head, body, tail) ↦ match_any expanded head tail (split_commas body)
]

-- Each expansion drops the two braces: the pattern's length is fuel enough.
unfoldable pub match_braces : ℕ → Bytes → Bool → Bytes → Bool
match_braces zero path case_insensitive pattern = match_expanded pattern case_insensitive path
match_braces (suc fuel) path case_insensitive pattern =
    match_group (match_braces fuel path case_insensitive) path case_insensitive pattern

abbrev pub match_pattern : Bytes → Bool → Bytes → Bool
match_pattern path case_insensitive pattern =
    match_braces (length pattern) path case_insensitive pattern

abbrev pub without_dot : Bytes → Bytes
without_dot (c ∷ d ∷ s) = if c == b'.' && d == b'/' then s else c ∷ d ∷ s
without_dot s = s

unfoldable pub glob_match : Bytes → Bytes → Bool → Bool
glob_match pattern path case_insensitive = match_pattern path case_insensitive (without_dot pattern)
