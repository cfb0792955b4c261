-- ===== src/Lint/Text.antt =====
-- source/fastlint/lint/directives.cc: the helpers on texts.
use fastlint.Base.{is_empty, List, ℕ, Bool, true, ◌&&◌, ◌||◌, [], ◌∷◌, Bytes, ◌==◌, if◌then◌else◌}

-- Space, `\t`, `\n`, `\r`, `\f` and `\v`.
abbrev pub is_space : ℕ → Bool
is_space c = c == 32 || c == 9 || c == 10 || c == 13 || c == 12 || c == 11

unfoldable pub trim_front : Bytes → Bytes
trim_front [] = []
trim_front (c ∷ s) = if is_space c then trim_front s else c ∷ s

-- A byte goes where it is a space and all behind it went.
unfoldable pub trim_back : Bytes → Bytes
trim_back [] = []
trim_back (c ∷ s) = let rest = trim_back s in if is_empty rest && is_space c then [] else c ∷ rest

unfoldable pub trim : Bytes → Bytes
unfolding trim_front trim_back
trim text = trim_back (trim_front text)

-- Dashes up to the end or a space.
unfoldable pub dashes_end : Bytes → Bool
dashes_end [] = true
dashes_end (c ∷ s) = if c == b'-' then dashes_end s else is_space c

-- The text from `i` on, behind the byte `prev`, up to a justification.
unfoldable pub cut : ℕ → Bytes → Bytes
cut prev (c ∷ d ∷ s) =
    let rest = cut c (d ∷ s) in
    if (c == b'-' && d == b'-' && is_space prev) && dashes_end (d ∷ s) then [] else c ∷ rest
cut prev s = s

-- The text before the first ` -- `.
unfoldable pub without_justification : Bytes → Bytes
unfolding cut dashes_end
without_justification [] = []
without_justification (c ∷ s) = c ∷ cut c s

-- The texts between the commas; there is at least one.
unfoldable pub split_commas : Bytes → List Bytes
split_commas [] = [] ∷ []
split_commas (c ∷ s) = elim (split_commas s) [
  | [] ↦ []
  | name ∷ names ↦ if c == b',' then [] ∷ name ∷ names else (c ∷ name) ∷ names
]
