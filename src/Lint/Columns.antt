-- ===== src/Lint/Columns.antt =====
-- source/fastlint/lint/linter.cc: columns in UTF-16 units. A position is a number, below 2^32 as the
-- text is shorter than that; the loop is on what is left of the text and of the way to the offset.
use fastlint.Base.{
  ℕ, zero, suc, ◌+◌, ◌-◌, ◌/◌, ◌%◌, ◌≤◌, ◌<◌, ◌≡◌, refl, ap, ◌∙◌, inl, inr, List, [], ◌∷◌, ◌++◌,
  append_assoc, Bytes, arith, ltb, ◌==◌, if◌then◌else◌, length, length-append, drop,
  drop-length-append, get_or, Bool-cases,
}
use fastlint.Lint.Regex.Escape.{encode_utf8}
use fastlint.Syntax.Lines.{line_of}

-- The bytes of a character and its UTF-16 units, by its first byte.
abbrev pub width : ℕ → ℕ
width b = if ltb b 0x80 then 1 else if ltb b 0xE0 then 2 else if ltb b 0xF0 then 3 else 4

abbrev pub units : ℕ → ℕ
units b = if ltb b 0xF0 then 1 else 2

unfoldable pub units_loop : ℕ → Bytes → ℕ → ℕ
units_loop zero rest left = 0
units_loop (suc fuel) [] left = 0
units_loop (suc fuel) (b ∷ s) left =
    let later = units_loop fuel (drop (width b - 1) s) (left - width b) in
    if left == 0 then 0 else units b + later

abbrev pub loop_end : Bytes → ℕ → ℕ
loop_end source offset = if ltb offset (length source) then offset else length source

unfoldable pub utf16_column : Bytes → ℕ → ℕ → ℕ
utf16_column source line_start offset =
    let end = loop_end source offset in
    units_loop end (drop line_start source) (end - line_start) + 1

unfoldable pub utf16_offset : Bytes → ℕ → ℕ
utf16_offset source byte_offset = utf16_column source 0 byte_offset - 1

-- The line and the column of an offset.
unfoldable pub position : Bytes → List ℕ → ℕ → ℕ × ℕ
position source line_starts offset =
    let line = line_of line_starts offset in
    let line_start = if ltb 0 line then get_or line_starts (line - 1) 0 else 0 in
    (line, utf16_column source line_start offset)

-- The text of some code points, and the UTF-16 units that they take.
abbrev pub encode_all : List ℕ → Bytes
encode_all [] = []
encode_all (cp ∷ cps) = encode_utf8 cp ++ encode_all cps

abbrev pub all_units : List ℕ → ℕ
all_units [] = 0
all_units (cp ∷ cps) = (if ltb cp 0x10000 then 1 else 2) + all_units cps

-- Of a character's bytes the first tells how many there are.
record Encoded (cp : ℕ) : Type 0 where
  first : ℕ
  rest : Bytes
  bytes : encode_utf8 cp ≡ first ∷ rest
  long : length rest + 1 ≡ width first
  counted : units first ≡ (if ltb cp 0x10000 then 1 else 2)

encode_utf8-Encoded : (cp : ℕ) → Encoded cp
unfolding encode_utf8
encode_utf8-Encoded cp = elim (Bool-cases (ltb cp 0x80)) [
  | inl a ↦ record {
    first = cp;
    rest = [];
    bytes = rw a;
    long = ground (arith, a);
    counted = ground (arith, a);
  }
  | inr a ↦ elim (Bool-cases (ltb cp 0x800)) [
    | inl b ↦ record {
      first = 0xC0 + cp / 64;
      rest = (0x80 + cp % 64) ∷ [];
      bytes = rw (a, b);
      long = ground (arith, a, b);
      counted = ground (arith, a, b);
    }
    | inr b ↦ elim (Bool-cases (ltb cp 0x10000)) [
      | inl c ↦ record {
        first = 0xE0 + cp / 4096;
        rest = (0x80 + cp / 64 % 64) ∷ (0x80 + cp % 64) ∷ [];
        bytes = rw (a, b, c);
        long = ground (arith, b, c);
        counted = ground (arith, c);
      }
      | inr c ↦ record {
        first = 0xF0 + cp / 262144;
        rest = (0x80 + cp / 4096 % 64) ∷ (0x80 + cp / 64 % 64) ∷ (0x80 + cp % 64) ∷ [];
        bytes = rw (a, b, c);
        long = ground (arith, c);
        counted = ground (arith, c);
      }
    ]
  ]
]

units_loop_step :
    (fuel b : ℕ) (t rest : Bytes) (left : ℕ)
    → length t + 1 ≡ width b
    → units_loop (suc fuel) ((b ∷ t) ++ rest) (suc (length t) + left)
      ≡ units b + units_loop fuel rest left
unfolding units_loop
units_loop_step fuel b t rest left h =
    let rest_drop : drop (width b - 1) (t ++ rest) ≡ rest =
      ap (λ n. drop n (t ++ rest)) (omega (arith, h)) ∙ drop-length-append t rest in
    let gone : suc (length t) + left - width b ≡ left = omega (arith, h) in
    rw (rest_drop, gone) (ground arith)

units_loop_end : (fuel : ℕ) (rest : Bytes) → units_loop fuel rest 0 ≡ 0
unfolding units_loop
units_loop_end zero rest = refl
units_loop_end (suc fuel) [] = refl
units_loop_end (suc fuel) (b ∷ s) = refl

-- The first character counted, and those behind it.
behind_first :
    (fuel cp : ℕ) (cps : List ℕ) (back : Bytes) (e : Encoded cp)
    → length e.rest + length (encode_all cps) < fuel
    → ((n : ℕ)
        → length (encode_all cps) ≤ n
        → units_loop n (encode_all cps ++ back) (length (encode_all cps)) ≡ all_units cps)
    → units_loop fuel
        ((e.first ∷ e.rest) ++ (encode_all cps ++ back))
        (suc (length e.rest) + length (encode_all cps))
      ≡ all_units (cp ∷ cps)
behind_first zero cp cps back e h go = absurd (omega arith)
behind_first (suc fuel) cp cps back e h go =
    units_loop_step fuel e.first e.rest (encode_all cps ++ back) (length (encode_all cps)) e.long
    ∙ ground (arith, go fuel (omega arith), e.counted)

units_loop-encode_all :
    (fuel : ℕ) (cps : List ℕ) (back : Bytes)
    → length (encode_all cps) ≤ fuel
    → units_loop fuel (encode_all cps ++ back) (length (encode_all cps)) ≡ all_units cps
units_loop-encode_all fuel [] back h = units_loop_end fuel back
units_loop-encode_all fuel (cp ∷ cps) back h =
    let e = encode_utf8-Encoded cp in
    let size = length-append (encode_utf8 cp) (encode_all cps) in
    let bytes = ap (λ (t : Bytes). length t) e.bytes in
    let text : (encode_utf8 cp ++ encode_all cps) ++ back
        ≡ (e.first ∷ e.rest) ++ (encode_all cps ++ back) =
      append_assoc (encode_utf8 cp) (encode_all cps) back
      ∙ ap (λ t. t ++ (encode_all cps ++ back)) e.bytes in
    let long : length (encode_utf8 cp ++ encode_all cps)
        ≡ suc (length e.rest) + length (encode_all cps) =
      omega (arith, size, bytes) in
    rw (text, long)
      (behind_first fuel cp cps back e (omega (arith, size, bytes, h))
        (λ n l. units_loop-encode_all n cps back l))

-- The column of a place in a line, when the line's text up to there is UTF-8, is one more than the
-- UTF-16 units that its characters take.
pub utf16_column-encode_all :
    (front back : Bytes) (cps : List ℕ)
    → let offset = length front + length (encode_all cps) in
      utf16_column (front ++ (encode_all cps ++ back)) (length front) offset ≡ all_units cps + 1
unfolding utf16_column
utf16_column-encode_all front back cps =
    let here = encode_all cps in
    let source = front ++ (here ++ back) in
    let n = length front + length here in
    let end : loop_end source n ≡ n =
      ground (arith, length-append front (here ++ back), length-append here back) in
    let way : n - length front ≡ length here = omega arith in
    rw (end, drop-length-append front (here ++ back), way)
      (ap (λ u. u + 1) (units_loop-encode_all n cps back (omega arith)))
