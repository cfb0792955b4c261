-- ===== src/Lint/Messages.antt =====
-- source/fastlint/lint/linter.cc: the placeholders of a message, `{{ name }}`.
pub mod Filled
mod Examples
use fastlint.Base.{
  ℕ, zero, suc, ◌+◌, Bool, true, false, ◌&&◌, Option, none, some, List, [], ◌∷◌, ◌++◌, Bytes,
  bytes_eq, ◌==◌, if◌then◌else◌, length,
}

pub record Placeholder : Type 0 where
  pub name : Bytes
  pub value : Bytes

-- `find` of a byte that stands twice: the text before it and behind it.
unfoldable pub split_pair : ℕ → Bytes → Option (Bytes × Bytes)
split_pair c [] = none
split_pair c (a ∷ []) = none
split_pair c (a ∷ b ∷ s) =
    let rest = split_pair c (b ∷ s) in
    if a == c && b == c
    then some ([], s)
    else elim rest [ none ↦ none | some (before, behind) ↦ some (a ∷ before, behind) ]

unfoldable pub trim_front : Bytes → Bytes
trim_front [] = []
trim_front (c ∷ s) = if c == b' ' then trim_front s else c ∷ s

unfoldable pub trim_back : Bytes → Bytes
trim_back [] = []
trim_back (c ∷ s) = elim (trim_back s) [ [] ↦ if c == b' ' then [] else c ∷ [] | d ∷ t ↦ c ∷ d ∷ t ]

-- The value of the first placeholder of that name, or the text as it stands.
unfoldable pub value_of : List Placeholder → Bytes → Bytes → Bytes
value_of [] name raw = raw
value_of (p ∷ values) name raw = if bytes_eq p.name name then p.value else value_of values name raw

abbrev pub open_pair : Bytes
open_pair = b'{' ∷ b'{' ∷ []

abbrev pub close_pair : Bytes
close_pair = b'}' ∷ b'}' ∷ []

unfoldable pub replaced : List Placeholder → Bytes → Bytes
replaced values inside =
    value_of values (trim_back (trim_front inside)) (open_pair ++ inside ++ close_pair)

-- The loop, on what is left of the text.
unfoldable pub interpolate_loop : List Placeholder → ℕ → Bytes → Bytes
interpolate_loop values zero text = text
interpolate_loop values (suc fuel) text = elim (split_pair b'{' text) [
  | none ↦ text
  | some (before, inside) ↦ elim (split_pair b'}' inside) [
    | none ↦ text
    | some (name, behind) ↦ before ++ (replaced values name ++ interpolate_loop values fuel behind)
  ]
]

unfoldable pub interpolate : List Placeholder → Bytes → Bytes
interpolate values text = interpolate_loop values (length text) text
