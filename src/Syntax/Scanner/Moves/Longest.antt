-- ===== src/Syntax/Scanner/Moves/Longest.antt =====
-- source/fastlint/syntax/scanner.cc: `scanPunctuation` takes the longest punctuator.
use fastlint.Base.{
  ℕ, ◌≤◌, ◌<◌, ◌≡◌, refl, sym, ◌∙◌, Bool, true, false, not, ◌&&◌, ◌||◌, Option, none, some, List,
  [], ◌∷◌, Bytes, codes, ◌==◌, if◌then◌else◌, length, drop, starts_with, and_true, or_true, leb,
  leb→le, Bool-cases, arith, inl, inr,
}
use mathlib.Core.Option.{some-injective}
use fastlint.Syntax.Scanner.{is_digit}
use fastlint.Syntax.Scanner.Numbers.{front}
use fastlint.Syntax.Scanner.Punctuation.{
  operators, try_match, question, Punctuated, matched, number, invalid, punctuator_at,
}
use fastlint.Syntax.Scanner.Moves.Marks.{
  punctuators, has, every, every-has, descending, head_byte, listed, all_listed, try_match_longest,
}

-- Every operator is a punctuator of the table.
operators_listed : (c : ℕ) → every (λ p. has p punctuators) (operators c) ≡ true
operators_listed c = ground arith

-- No punctuator is empty.
pub has-filled : (p : Bytes) → has p punctuators ≡ true → 0 < length p
has-filled p h = leb→le 1 _ (every-has (λ q. leb 1 (length q)) p punctuators refl h)

try_match_found :
    (test : Bytes → Bool) (ps : List Bytes) (bs p : Bytes)
    → try_match ps bs ≡ some p
    → every test ps ≡ true
    → (starts_with bs p ≡ true) × (test p ≡ true)
unfolding try_match
try_match_found test [] bs p h a = absurd (cc)
try_match_found test (x ∷ ps) bs p h a =
    let (u, v) = and_true (test x) _ a in
    elim (Bool-cases (starts_with bs x)) [
      | inl e ↦
          let q : some x ≡ some p = rw e at h in
          let same = some-injective _ _ q in (rw same at e, rw same at u)
      | inr e ↦ try_match_found test ps bs p (rw e at h) v
    ]

-- A ternary before a number that starts with a dot, or such a number.
abbrev pub before_digit : Bytes → Bool
before_digit bs =
    (starts_with bs (codes "?.") && front is_digit (drop 2 bs))
    || (starts_with bs (codes ".") && front is_digit (drop 1 bs))

-- What the scanner makes of the bytes: the longest punctuator of the table in front of them; but a
-- question mark alone where `?.` has a digit behind it, and a number for a dot with a digit behind
-- it; nothing where no punctuator is in front.
pub data Chosen (bs : Bytes) : Punctuated → Type 0 where
  longest :
      {p : Bytes}
      → has p punctuators ≡ true
      → starts_with bs p ≡ true
      → before_digit bs ≡ false
      → ((q : Bytes) → has q punctuators ≡ true → starts_with bs q ≡ true → length q ≤ length p)
      → Chosen bs (matched p)
  ternary :
      starts_with bs (codes "?.") ≡ true
      → front is_digit (drop 2 bs) ≡ true
      → Chosen bs (matched (codes "?"))
  dotted : starts_with bs (codes ".") ≡ true → front is_digit (drop 1 bs) ≡ true → Chosen bs number
  unknown : ((q : Bytes) → has q punctuators ≡ true → starts_with bs q ≡ false) → Chosen bs invalid

if_Chosen :
    {bs : Bytes} (b : Bool) {x y : Punctuated}
    → (b ≡ true → Chosen bs x)
    → (b ≡ false → Chosen bs y)
    → Chosen bs (if b then x else y)
if_Chosen true f g = f refl
if_Chosen false f g = g refl

-- A text in front of bytes, of which one is there, has their first byte.
same_head :
    (c : ℕ) (t q : Bytes)
    → starts_with (c ∷ t) q ≡ true
    → has q punctuators ≡ true
    → head_byte q ≡ c
same_head c t [] h e = absurd (cc)
same_head c t (d ∷ q) h e = ground arith

-- A punctuator that fits stands in the list for the first byte.
in_list :
    (c : ℕ) (t q : Bytes)
    → starts_with (c ∷ t) (codes "?") ≡ false
    → starts_with (c ∷ t) q ≡ true
    → has q punctuators ≡ true
    → (has q (operators c) ≡ true) × (descending (operators c) ≡ true)
in_list c t q other h e =
    let same = same_head c t q h e in
    let l = every-has listed q punctuators all_listed e in
    elim (or_true (head_byte q == b'?') _ l) [
      | inl x ↦ absurd (ground (arith, x, same, other))
      | inr y ↦ rw same at (and_true (has q (operators (head_byte q))) _ y)
    ]

unknown_lem :
    (c : ℕ) (t : Bytes)
    → starts_with (c ∷ t) (codes "?") ≡ false
    → try_match (operators c) (c ∷ t) ≡ none
    → (q : Bytes) → has q punctuators ≡ true
    → starts_with (c ∷ t) q ≡ false
unknown_lem c t other e q h = elim (Bool-cases (starts_with (c ∷ t) q)) [
  | inl s ↦
      let (a, d) = in_list c t q other s h in
      let (p, (f, l)) = try_match_longest (operators c) (c ∷ t) q d a s in absurd (cc)
  | inr s ↦ s
]

found_lem :
    (c : ℕ) (t p : Bytes)
    → starts_with (c ∷ t) (codes "?") ≡ false
    → try_match (operators c) (c ∷ t) ≡ some p
    → (q : Bytes) → has q punctuators ≡ true
    → starts_with (c ∷ t) q ≡ true
    → length q ≤ length p
found_lem c t p other e q h s =
    let (a, d) = in_list c t q other s h in
    let (p', (f, l)) = try_match_longest (operators c) (c ∷ t) q d a s in
    let same : p' ≡ p = some-injective _ _ (sym f ∙ e) in rw same at l

no_digit :
    (c : ℕ) (t : Bytes)
    → starts_with (c ∷ t) (codes "?") ≡ false
    → (starts_with (c ∷ t) (codes ".") && front is_digit t) ≡ false
    → before_digit (c ∷ t) ≡ false
no_digit c t other plain = ground (arith, other, plain)

-- Behind a question mark there is one exception left.
no_dot :
    (bs : Bytes)
    → starts_with bs (codes "?") ≡ true
    → (starts_with bs (codes "?.") && front is_digit (drop 2 bs)) ≡ false
    → before_digit bs ≡ false
no_dot [] a n = refl
no_dot (c ∷ t) a n = ground (arith, a, n)

-- No text starts in two ways that differ in their second byte.
second_byte :
    (bs : Bytes) → starts_with bs (codes "??") ≡ true → starts_with bs (codes "?.") ≡ false
second_byte [] h = refl
second_byte (c ∷ []) h = ground (arith, h)
second_byte (c ∷ d ∷ t) h = ground (arith, h)

double_mark :
    (bs : Bytes) → starts_with bs (codes "??=") ≡ true → starts_with bs (codes "??") ≡ true
double_mark [] h = h
double_mark (c ∷ []) h = ground (arith, h)
double_mark (c ∷ d ∷ []) h = ground (arith, h)
double_mark (c ∷ d ∷ e ∷ t) h = ground (arith, h)

found_Chosen :
    (c : ℕ) (t : Bytes) (o : Option Bytes)
    → starts_with (c ∷ t) (codes "?") ≡ false
    → (starts_with (c ∷ t) (codes ".") && front is_digit t) ≡ false
    → try_match (operators c) (c ∷ t) ≡ o
    → let found : Punctuated = elim o [ none ↦ invalid | some p ↦ matched p ] in
      Chosen (c ∷ t) found
found_Chosen c t none other plain e = unknown (unknown_lem c t other e)
found_Chosen c t (some p) other plain e =
    let (a, b) =
      try_match_found (λ p. has p punctuators) (operators c) (c ∷ t) p e (operators_listed c) in
    longest b a (no_digit c t other plain) (found_lem c t p other e)

-- The four punctuators that a question mark starts.
abbrev four : List Bytes
four = codes "??=" ∷ codes "?." ∷ codes "??" ∷ codes "?" ∷ []

abbrev fourth : Bytes → Bool
fourth q = not (head_byte q == b'?') || has q four

all_fourth : every fourth punctuators ≡ true
all_fourth = refl

in_four :
    (bs q : Bytes)
    → starts_with bs (codes "?") ≡ true
    → starts_with bs q ≡ true
    → has q punctuators ≡ true
    → has q four ≡ true
in_four [] q a h e = absurd (cc)
in_four (c ∷ t) q a h e =
    let same = same_head c t q h e in
    elim (or_true (not (head_byte q == b'?')) _ (every-has fourth q punctuators all_fourth e)) [
      | inl x ↦ absurd (ground (arith, x, same, a))
      | inr y ↦ y
    ]

four_found :
    (bs p : Bytes)
    → starts_with bs (codes "?") ≡ true
    → try_match four bs ≡ some p
    → (q : Bytes) → has q punctuators ≡ true
    → starts_with bs q ≡ true
    → length q ≤ length p
four_found bs p a e q h s =
    let (p', (f, l)) = try_match_longest four bs q refl (in_four bs q a s h) s in
    let same : p' ≡ p = some-injective _ _ (sym f ∙ e) in rw same at l

question-Chosen :
    (bs : Bytes) → starts_with bs (codes "?") ≡ true → Chosen bs (matched (question bs))
unfolding try_match
question-Chosen bs a = elim (Bool-cases (starts_with bs (codes "??="))) [
  | inl e ↦
      let s = second_byte bs (double_mark bs e) in
      rw e (longest refl e (no_dot bs a (rw s refl)) (four_found bs (codes "??=") a (rw e refl)))
  | inr n ↦ elim (Bool-cases (starts_with bs (codes "?."))) [
    | inl e ↦ elim (Bool-cases (front is_digit (drop 2 bs))) [
      | inl d ↦ rw (n, e, d) (ternary e d)
      | inr d ↦
          rw (n, e, d)
            (longest refl e (no_dot bs a (rw (e, d) refl))
              (four_found bs (codes "?.") a (rw (n, e) refl)))
    ]
    | inr m ↦ elim (Bool-cases (starts_with bs (codes "??"))) [
      | inl e ↦
          rw (n, m, e)
            (longest refl e (no_dot bs a (rw m refl))
              (four_found bs (codes "??") a (rw (n, m, e) refl)))
      | inr k ↦
          rw (n, m, k)
            (longest refl a (no_dot bs a (rw m refl))
              (four_found bs (codes "?") a (rw (n, m, k, a) refl)))
    ]
  ]
]

none_empty : (q : Bytes) → has q punctuators ≡ true → starts_with [] q ≡ false
none_empty [] h = absurd (cc)
none_empty (d ∷ q) h = refl

-- `punctuator_at` takes a punctuator of the table, the longest one that the bytes start with. There
-- are two exceptions: of `?.` before a digit it takes `?`, and a dot before a digit starts a number;
-- in neither case is the longest taken. The character is invalid where no punctuator of the table
-- fits, and only there.
pub punctuator_at_lem : (bs : Bytes) → Chosen bs (punctuator_at bs)
unfolding punctuator_at
punctuator_at_lem [] = unknown none_empty
punctuator_at_lem (c ∷ t) =
    let bs = c ∷ t in
    if_Chosen (starts_with bs (codes "?")) (λ e. question-Chosen bs e)
      (λ other.
        if_Chosen (starts_with bs (codes ".") && front is_digit t)
          (λ e. let (a, b) = and_true (starts_with bs (codes ".")) _ e in dotted a b)
          (λ e. found_Chosen c t (try_match (operators c) bs) other e refl))
