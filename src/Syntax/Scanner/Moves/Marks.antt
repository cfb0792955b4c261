-- ===== src/Syntax/Scanner/Moves/Marks.antt =====
-- source/fastlint/syntax/scanner.cc: the lengths of punctuators and of regular expressions.
use fastlint.Base.{
  ℕ, suc, ◌+◌, ◌≤◌, ◌<◌, ◌≡◌, refl, Bool, true, false, not, ◌&&◌, ◌||◌, Option, none, some, List,
  [], ◌∷◌, Bytes, codes, ◌==◌, if◌then◌else◌, length, drop, length-drop, starts_with, and_true,
  or_true, leb, leb→le, bytes_eq, bytes_eq→eq, Bool-cases, arith, inl, inr,
}
use mathlib.Core.Option
use fastlint.Syntax.Scanner.{is_ascii_identifier_part, span, peek_char}
use fastlint.Syntax.Scanner.Skip.{is_separator}
use fastlint.Syntax.Scanner.Templates.{regex_body, scan_regex}
use fastlint.Syntax.Scanner.Punctuation.{operators, try_match}
use fastlint.Syntax.Scanner.Moves.{length-span}

-- Every operator of one of the lists.
abbrev pub punctuators : List Bytes
punctuators =
    codes "{"
    ∷ codes "}"
    ∷ codes "("
    ∷ codes ")"
    ∷ codes "["
    ∷ codes "]"
    ∷ codes "."
    ∷ codes "..."
    ∷ codes ";"
    ∷ codes ","
    ∷ codes ":"
    ∷ codes "::"
    ∷ codes "?."
    ∷ codes "??"
    ∷ codes "??="
    ∷ codes "?"
    ∷ codes "<"
    ∷ codes "<="
    ∷ codes ">"
    ∷ codes ">="
    ∷ codes "<<"
    ∷ codes "<<="
    ∷ codes ">>"
    ∷ codes ">>="
    ∷ codes ">>>"
    ∷ codes ">>>="
    ∷ codes "==="
    ∷ codes "=="
    ∷ codes "="
    ∷ codes "!=="
    ∷ codes "!="
    ∷ codes "!"
    ∷ codes "=>"
    ∷ codes "+"
    ∷ codes "-"
    ∷ codes "++"
    ∷ codes "--"
    ∷ codes "+="
    ∷ codes "-="
    ∷ codes "*"
    ∷ codes "**"
    ∷ codes "*="
    ∷ codes "**="
    ∷ codes "/"
    ∷ codes "/="
    ∷ codes "%"
    ∷ codes "%="
    ∷ codes "&"
    ∷ codes "&&"
    ∷ codes "&&="
    ∷ codes "&="
    ∷ codes "|"
    ∷ codes "||"
    ∷ codes "||="
    ∷ codes "|="
    ∷ codes "^"
    ∷ codes "^="
    ∷ codes "~"
    ∷ codes "@"
    ∷ []

-- A length, where there is one, is positive and not above the bound.
pub data Fits (bound : ℕ) : Option ℕ → Type 0 where
  no_length : Fits bound none
  fits : {n : ℕ} → 0 < n → n ≤ bound → Fits bound (some n)

if_Fits :
    {m : ℕ} (b : Bool) {x y : Option ℕ}
    → (b ≡ true → Fits m x)
    → (b ≡ false → Fits m y)
    → Fits m (if b then x else y)
if_Fits true f g = f refl
if_Fits false f g = g refl

Fits-suc : (m : ℕ) (o : Option ℕ) → Fits m o → Fits (suc m) (Option.map suc o)
Fits-suc m _ no_length = no_length
Fits-suc m _ (fits a b) = fits (omega arith) (omega arith)

Fits-two : (m : ℕ) (o : Option ℕ) → Fits m o → Fits (suc (suc m)) (Option.map (λ n. suc (suc n)) o)
Fits-two m _ no_length = no_length
Fits-two m _ (fits a b) = fits (omega arith) (omega arith)

regex_body-Fits : (b : Bool) (bs : Bytes) → Fits (length bs) (regex_body b bs)
unfolding regex_body
regex_body-Fits b [] = no_length
regex_body-Fits b (c ∷ []) =
    if_Fits (c == b'/' && not b) (λ e. fits (omega arith) (omega arith)) (λ e. no_length)
regex_body-Fits b (c ∷ d ∷ u) =
    let m = length u in
    if_Fits (c == 10 || c == 13 || is_separator (peek_char (c ∷ d ∷ u))) (λ e. no_length)
      (λ e.
        if_Fits (c == 92) (λ e. Fits-two m _ (regex_body-Fits b u))
          (λ e.
            if_Fits (c == b'[') (λ e. Fits-suc (suc m) _ (regex_body-Fits true (d ∷ u)))
              (λ e.
                if_Fits (c == b']') (λ e. Fits-suc (suc m) _ (regex_body-Fits false (d ∷ u)))
                  (λ e.
                    if_Fits (c == b'/' && not b) (λ e. fits (omega arith) (omega arith))
                      (λ e. Fits-suc (suc m) _ (regex_body-Fits b (d ∷ u)))))))

flags_fit :
    (c : ℕ) (t : Bytes) (o : Option ℕ)
    → Fits (length t) o
    → let found : Option ℕ = elim o [
      | none ↦ none
      | some n ↦ some (1 + n + span is_ascii_identifier_part (drop (1 + n) (c ∷ t)))
    ] in
      Fits (suc (length t)) found
flags_fit c t _ no_length = no_length
flags_fit c t _ (fits {n = n} a b) =
    let d = length-drop (1 + n) (c ∷ t) in
    let l = length-span is_ascii_identifier_part (drop (1 + n) (c ∷ t)) in
    fits (omega arith) (omega arith)

-- A regular expression literal has a byte and ends within the source.
pub scan_regex-Fits : (bs : Bytes) → Fits (length bs) (scan_regex bs)
unfolding scan_regex
scan_regex-Fits [] = no_length
scan_regex-Fits (c ∷ t) = flags_fit c t (regex_body false t) (regex_body-Fits false t)

abbrev pub head_byte : Bytes → ℕ
head_byte [] = 0
head_byte (c ∷ s) = c

abbrev pub has : Bytes → List Bytes → Bool
has q [] = false
has q (p ∷ ps) = bytes_eq q p || has q ps

abbrev pub every : (Bytes → Bool) → List Bytes → Bool
every test [] = true
every test (p ∷ ps) = test p && every test ps

abbrev pub descending : List Bytes → Bool
descending [] = true
descending (p ∷ ps) = every (λ x. leb (length x) (length p)) ps && descending ps

pub every-has :
    (test : Bytes → Bool) (q : Bytes) (ps : List Bytes)
    → every test ps ≡ true
    → has q ps ≡ true
    → test q ≡ true
every-has test q [] a h = absurd (cc)
every-has test q (p ∷ ps) a h =
    let (x, y) = and_true (test p) _ a in
    elim (or_true (bytes_eq q p) _ h) [
      | inl e ↦ rw (bytes_eq→eq q p e) x
      | inr e ↦ every-has test q ps y e
    ]

-- On a list with the longest first, no text that fits is longer than the one chosen.
pub try_match_longest :
    (ps : List Bytes) (bs q : Bytes)
    → descending ps ≡ true
    → has q ps ≡ true
    → starts_with bs q ≡ true
    → (p : Bytes) × ((try_match ps bs ≡ some p) × (length q ≤ length p))
unfolding try_match
try_match_longest [] bs q d h s = absurd (cc)
try_match_longest (p ∷ ps) bs q d h s =
    let (x, y) = and_true (every (λ x. leb (length x) (length p)) ps) _ d in
    elim (Bool-cases (starts_with bs p)) [
      | inl e ↦ (
        p,
        (
          rw e refl,
          elim (or_true (bytes_eq q p) _ h) [
            | inl same ↦ rw (bytes_eq→eq q p same) (omega arith)
            | inr later ↦ leb→le _ _ (every-has (λ x. leb (length x) (length p)) q ps x later)
          ],
        ),
      )
      | inr e ↦ elim (or_true (bytes_eq q p) _ h) [
        | inl same ↦ absurd (let f : starts_with bs p ≡ true = rw (bytes_eq→eq q p same) at s in cc)
        | inr later ↦ rw e (try_match_longest ps bs q y later s)
      ]
    ]

-- Every punctuator stands in the list for its first byte, which has the longest first; `?` is apart.
abbrev pub listed : Bytes → Bool
listed q =
    head_byte q == b'?' || (has q (operators (head_byte q)) && descending (operators (head_byte q)))

pub all_listed : every listed punctuators ≡ true
all_listed = refl
