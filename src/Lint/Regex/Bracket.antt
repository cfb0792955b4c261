-- ===== src/Lint/Regex/Bracket.antt =====
-- source/fastlint/lint/regex.cc: the classes of a pattern.
use fastlint.Base.{
  ℕ, zero, suc, ◌+◌, Bool, true, false, not, ◌&&◌, none, some, List, [], ◌∷◌, ◌++◌, Bytes, codes,
  ltb, ◌==◌, if◌then◌else◌, length,
}
use fastlint.Lint.Regex.{Range, Class, Kind, class}
use fastlint.Lint.Regex.Escape.{mem, escape_char}

-- A result with the pattern left, `ok = false` of the source, or fuel that ran out.
pub data Parsed {ℓ} (A : Type ℓ) : Type ℓ where
  ok : A → Bytes → Parsed A
  unsupported : Parsed A
  out_of_fuel : Parsed A

infixl 5 ◌>>=◌
abbrev pub ◌>>=◌ {ℓ κ} : {A : Type ℓ} {B : Type κ} → Parsed A → (A × Bytes → Parsed B) → Parsed B
ok a s >>= f = f (a, s)
unsupported >>= f = unsupported
out_of_fuel >>= f = out_of_fuel

abbrev pub range : ℕ → ℕ → Range
range lo hi = record { lo = lo; hi = hi }

unfoldable pub named_class : ℕ → List Range
named_class name =
    if name == b'd'
    then range b'0' b'9' ∷ []
    else if name == b'w'
    then range b'a' b'z' ∷ range b'A' b'Z' ∷ range b'0' b'9' ∷ range b'_' b'_' ∷ []
    else if name == b's'
    then range b' ' b' ' ∷ range 9 13 ∷ []
    else []

-- What an escape in a class adds: the ranges of a named class, or one byte.
pub data Item : Type 0 where
  named : List Range → Item
  low : ℕ → Item

unfoldable pub class_escape : ℕ → Bytes → Parsed Item
class_escape e s =
    let (value, r) = escape_char e s in
    elim value [
      | some v ↦ if ltb 0x7F v then unsupported else ok (low v) r
      | none ↦
          if mem e (codes "DWS")
          then unsupported
          else if e == b'b'
          then ok (low 8) r
          else ok (named (named_class e)) r
    ]

unfoldable pub class_low : ℕ → Bytes → Parsed Item
class_low c [] = if c == b'\\' then unsupported else ok (low c) []
class_low c (e ∷ s) = if c == b'\\' then class_escape e s else ok (low c) (e ∷ s)

-- The upper end of a range, at the byte behind the dash.
unfoldable pub high_end : ℕ → Bytes → Parsed ℕ
high_end d [] = if d == b'\\' then unsupported else ok d []
high_end d (e ∷ s) =
    let (value, r) = escape_char e s in
    if d == b'\\'
    then elim value [ none ↦ unsupported | some v ↦ if ltb 0x7F v then unsupported else ok v r ]
    else ok d (e ∷ s)

unfoldable pub class_high : ℕ → Bytes → Parsed ℕ
class_high lo (a ∷ d ∷ s) =
    if a == b'-' && not (d == b']')
    then (do (hi, r) ← high_end d s; if ltb hi lo then unsupported else ok hi r)
    else ok lo (a ∷ d ∷ s)
class_high lo s = ok lo s

-- The rest of an iteration, and the iterations behind it.
unfoldable pub class_item :
    (List Range → Bytes → Parsed (List Range)) → List Range → Item → Bytes → Parsed (List Range)
class_item go ranges (named more) s = go (ranges ++ more) s
class_item go ranges (low lo) s = do (hi, r) ← class_high lo s; go (ranges ++ range lo hi ∷ []) r

-- The loop of `parseClass`, up to the bracket that ends it; the first byte is never that bracket.
unfoldable pub class_items : ℕ → Bool → List Range → Bytes → Parsed (List Range)
class_items zero first ranges s = out_of_fuel
class_items (suc fuel) first ranges [] = unsupported
class_items (suc fuel) first ranges (c ∷ s) =
    if c == b']' && not first
    then ok ranges s
    else do (item, r) ← class_low c s; class_item (class_items fuel false) ranges item r

abbrev pub class_of : Bool → List Range → Class
class_of negate ranges = record { ranges = ranges; negate = negate }

unfoldable pub parse_class : Bytes → Parsed Kind
parse_class [] = unsupported
parse_class (c ∷ s) =
    let negate = c == b'^' in
    do
      (ranges, r) ←
          if negate
          then class_items (length s + 1) true [] s
          else class_items (length s + 2) true [] (c ∷ s)
      ok (class (class_of negate ranges)) r
