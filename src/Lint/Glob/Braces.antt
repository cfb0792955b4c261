-- ===== src/Lint/Glob/Braces.antt =====
-- source/fastlint/lint/glob.cc: what a pattern with groups matches, without the bound on the recursion.
use fastlint.Base.{
  ℕ, zero, suc, ◌+◌, ◌-◌, ◌≤◌, leb, leb→le, ◌≡◌, refl, sym, ◌∙◌, inl, inr, Bool, some, List, [],
  ◌∷◌, ◌++◌, arith, Bytes, ◌==◌, if◌then◌else◌, length, length-append, Bool-cases, Option-cases,
}
use fastlint.Lint.Text.{split_commas}
use fastlint.Lint.Glob.{
  match_expanded, split_at, split_braces, match_any, match_braces, match_group, match_pattern,
}

abbrev pub AllShort : ℕ → List Bytes → Type 0
AllShort n [] = Unit
AllShort n (a ∷ rest) = (length a ≤ n) × AllShort n rest

AllShort-suc : (n : ℕ) (as' : List Bytes) → AllShort n as' → AllShort (suc n) as'
AllShort-suc n [] h = tt
AllShort-suc n (a ∷ rest) h = (omega (arith, h.0), AllShort-suc n rest h.1)

pub split_commas-AllShort : (s : Bytes) → AllShort (length s) (split_commas s)
unfolding split_commas
split_commas-AllShort [] = (omega arith, tt)
split_commas-AllShort (c ∷ s) = longer (split_commas s) (split_commas-AllShort s)
  where
    longer :
        (as' : List Bytes)
        → AllShort (length s) as'
        → AllShort
            (suc (length s))
            (elim as' [ [] ↦ [] | a ∷ rest ↦ if c == b',' then [] ∷ a ∷ rest else (c ∷ a) ∷ rest ])
    longer [] h = tt
    longer (a ∷ rest) h = elim (Bool-cases (c == b',')) [
      | inl e ↦ rw e (omega arith, AllShort-suc (length s) (a ∷ rest) h)
      | inr e ↦ rw e (omega (arith, h.0), AllShort-suc (length s) rest h.1)
    ]

length-split_at :
    (c : ℕ) (s before behind : Bytes)
    → split_at c s ≡ some (before, behind)
    → length s ≡ length before + length behind + 1
unfolding split_at
length-split_at c [] before behind h = absurd cc
length-split_at c (b ∷ s) before behind h = elim (Option-cases (split_at c s)) [
  | inl e ↦ ground (arith, e)
  | inr (x, e) ↦ ground (arith, e, length-split_at c s x.0 x.1 e)
]

pub length-split_braces :
    (s head body tail : Bytes)
    → split_braces s ≡ some (head, body, tail)
    → length s ≡ length head + length body + length tail + 2
unfolding split_braces
length-split_braces s head body tail h = elim (Option-cases (split_at b'{' s)) [
  | inl e ↦ ground (arith, e)
  | inr (x, e) ↦ elim (Option-cases (split_at b'}' x.1)) [
    | inl f ↦ ground (arith, e, f)
    | inr (y, f) ↦
        ground (arith, e, f, length-split_at b'{' s x.0 x.1 e, length-split_at b'}' x.1 y.0 y.1 f)
  ]
]

match_any-same :
    (f g : Bytes → Bool) (k n : ℕ) (head tail : Bytes) (as' : List Bytes)
    → AllShort n as'
    → length head + n + length tail ≤ k
    → ((q : Bytes) → length q ≤ k → f q ≡ g q)
    → match_any f head tail as' ≡ match_any g head tail as'
unfolding match_any
match_any-same f g k n head tail [] a h same = refl
match_any-same f g k n head tail (x ∷ rest) a h same =
    let size : length (head ++ x ++ tail) ≤ k =
      omega (arith, a.0, length-append (head ++ x) tail, length-append head x) in
    rw (same (head ++ x ++ tail) size, match_any-same f g k n head tail rest a.1 h same) refl

-- A shorter pattern takes the place of a group, whichever function matches it.
match_group-same :
    (f g : Bytes → Bool) (k : ℕ) (path : Bytes) (ci : Bool) (p : Bytes)
    → length p ≤ k + 2
    → ((q : Bytes) → length q ≤ k → f q ≡ g q)
    → match_group f path ci p ≡ match_group g path ci p
unfolding match_group
match_group-same f g k path ci p h same = elim (Option-cases (split_braces p)) [
  | inl e ↦ rw (match_group, e) refl
  | inr (x, e) ↦
      rw (match_group, e)
        (match_any-same f g k (length x.1) x.0 x.2 (split_commas x.1) (split_commas-AllShort x.1)
          (omega (arith, h, length-split_braces p x.0 x.1 x.2 e)) same)
]

-- A text without room for two braces has no group.
match_braces-small :
    (n : ℕ) (path : Bytes) (ci : Bool) (p : Bytes)
    → length p ≤ 1
    → match_braces n path ci p ≡ match_expanded p ci path
unfolding match_braces match_group
match_braces-small zero path ci p h = refl
match_braces-small (suc n) path ci p h = elim (Option-cases (split_braces p)) [
  | inl e ↦ rw (match_group, e) refl
  | inr (x, e) ↦ absurd (omega (arith, h, length-split_braces p x.0 x.1 x.2 e))
]

-- With fuel for the pattern's length, more fuel makes no difference.
match_braces-enough :
    (n m : ℕ) (path : Bytes) (ci : Bool) (p : Bytes)
    → length p ≤ n
    → length p ≤ m
    → match_braces n path ci p ≡ match_braces m path ci p
unfolding match_braces
match_braces-enough zero m path ci p h k = sym (match_braces-small m path ci p (omega arith))
match_braces-enough (suc n) zero path ci p h k = match_braces-small (suc n) path ci p (omega arith)
match_braces-enough (suc n) (suc m) path ci p h k = elim (Bool-cases (leb (length p) 1)) [
  | inl small ↦
      let short = leb→le (length p) 1 small in
      match_braces-small (suc n) path ci p short ∙ sym (match_braces-small (suc m) path ci p short)
  | inr long ↦
      match_group-same (match_braces n path ci) (match_braces m path ci) (length p - 2) path ci p
        (omega arith) (λ q short. match_braces-enough n m path ci q (ground arith) (ground arith))
]

-- The bound on the recursion is never met: a pattern with a group matches exactly when one of the
-- patterns does that have an alternative in the place of its first group, and one without a group
-- matches as a whole.
pub match_pattern_lem :
    (path : Bytes) (case_insensitive : Bool) (pattern : Bytes)
    → match_pattern path case_insensitive pattern
      ≡ match_group (match_pattern path case_insensitive) path case_insensitive pattern
match_pattern_lem path ci pattern =
    match_braces-enough (length pattern) (suc (length pattern)) path ci pattern (omega arith)
      (omega arith)
    ∙ unfold match_braces in
      (match_group-same (match_braces (length pattern) path ci) (match_pattern path ci)
        (length pattern) path ci pattern (omega arith)
        (λ q short. match_braces-enough (length pattern) (length q) path ci q short (omega arith)))
