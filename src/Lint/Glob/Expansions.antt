-- ===== src/Lint/Glob/Expansions.antt =====
-- source/fastlint/lint/glob.cc: what a pattern with groups stands for.
use fastlint.Base.{
  ℕ, zero, suc, ◌≤◌, ◌≡◌, ◌↔◌, refl, ap, ◌∙◌, inl, inr, Bool, true, List, [], ◌∷◌, ◌++◌, arith,
  Bytes, length, length-append, or_true, Bool-cases, Option-cases,
}
use fastlint.Lint.Text.{split_commas}
use fastlint.Lint.Glob.{
  match_expanded, split_braces, match_any, match_braces, match_group, match_pattern,
}
use fastlint.Lint.Glob.Match.{Matches}
use fastlint.Lint.Glob.Sound.{match_expanded_lem}
use fastlint.Lint.Glob.Braces.{
  AllShort, split_commas-AllShort, length-split_braces, match_pattern_lem,
}
use fastlint.Lint.Glob.Groups.{
  IsGroup, Joined, split_braces-IsGroup, IsGroup-split_braces, split_commas-Joined,
  Joined-split_commas,
}

pub data IsIn {ℓ} {A : Type ℓ} (a : A) : List A → Type ℓ where
  at_head : {xs : List A} → IsIn a (a ∷ xs)
  behind : {x : A} {xs : List A} → IsIn a xs → IsIn a (x ∷ xs)

-- The patterns without groups that a pattern stands for: itself where it has no group, else those of
-- the patterns with an alternative in the place of the first group.
pub data Expansion : Bytes → Bytes → Type 0 where
  whole : {p : Bytes} → ((head body tail : Bytes) → ¬ IsGroup p head body tail) → Expansion p p
  chosen :
      {p head body tail a q : Bytes} {as' : List Bytes}
      → IsGroup p head body tail
      → Joined as' body
      → IsIn a as'
      → Expansion (head ++ a ++ tail) q
      → Expansion p q

match_any_sound :
    (f : Bytes → Bool) (head tail : Bytes) (as' : List Bytes)
    → match_any f head tail as' ≡ true
    → (a : Bytes) × (IsIn a as' × (f (head ++ a ++ tail) ≡ true))
unfolding match_any
match_any_sound f head tail [] h = absurd cc
match_any_sound f head tail (a ∷ rest) h = elim (or_true (f (head ++ a ++ tail)) _ h) [
  | inl e ↦ (a, (at_head, e))
  | inr e ↦ let (b, (i, g)) = match_any_sound f head tail rest e in (b, (behind i, g))
]

match_any_complete :
    (f : Bytes → Bool) (head tail a : Bytes) {as' : List Bytes}
    → IsIn a as'
    → f (head ++ a ++ tail) ≡ true
    → match_any f head tail as' ≡ true
unfolding match_any
match_any_complete f head tail a at_head h = rw h refl
match_any_complete f head tail a (behind {x = x} i) h = elim (Bool-cases (f (head ++ x ++ tail))) [
  | inl e ↦ rw e refl
  | inr e ↦ rw e (match_any_complete f head tail a i h)
]

IsIn-AllShort : {n : ℕ} {a : Bytes} {as' : List Bytes} → IsIn a as' → AllShort n as' → length a ≤ n
IsIn-AllShort at_head h = h.0
IsIn-AllShort (behind i) h = IsIn-AllShort i h.1

no-IsGroup : {head body tail : Bytes} → ¬ IsGroup [] head body tail
no-IsGroup {head = head} {body = body} {tail = tail} g =
    let e = ap length g.spelled in
    let l = length-append head (b'{' ∷ (body ++ (b'}' ∷ tail))) in omega arith

module _ (path : Bytes) (case_insensitive : Bool) where
  braces_sound :
      (n : ℕ) (p : Bytes)
      → length p ≤ n
      → match_braces n path case_insensitive p ≡ true
      → (q : Bytes) × (Expansion p q × (match_expanded q case_insensitive path ≡ true))
  unfolding match_braces match_group
  braces_sound zero [] h m = ([], (whole (λ head body tail g. no-IsGroup g), m))
  braces_sound zero (c ∷ p) h m = absurd (omega arith)
  braces_sound (suc n) p h m = elim (Option-cases (split_braces p)) [
    | inl e ↦ (
      p,
      (whole (λ head body tail g. let f = IsGroup-split_braces g in cc), rw (match_group, e) at m),
    )
    | inr ((head, body, tail), e) ↦
        let g = split_braces-IsGroup p head body tail e in
        let (a, (i, k)) =
          match_any_sound (match_braces n path case_insensitive) head tail (split_commas body)
            (rw (match_group, e) at m) in
        let l = length-split_braces p head body tail e in
        let b = IsIn-AllShort i (split_commas-AllShort body) in
        let s = length-append (head ++ a) tail in
        let t = length-append head a in
        let (q, (x, y)) = braces_sound n (head ++ a ++ tail) (omega arith) k in
        (q, (chosen g (split_commas-Joined body) i x, y))
  ]

  braces_complete :
      {p q : Bytes}
      → Expansion p q
      → match_expanded q case_insensitive path ≡ true
      → match_pattern path case_insensitive p ≡ true
  unfolding match_group
  braces_complete {p = p} (whole none_there) h =
      match_pattern_lem path case_insensitive p ∙ elim (Option-cases (split_braces p)) [
        | inl e ↦ rw (match_group, e) h
        | inr ((head, body, tail), e) ↦
            absurd (none_there head body tail (split_braces-IsGroup p head body tail e))
      ]
  braces_complete {p = p} (chosen {head = head} {tail = tail} {a = a} g j i x) h =
      match_pattern_lem path case_insensitive p
      ∙ rw (match_group, IsGroup-split_braces g, Joined-split_commas j)
          (match_any_complete (match_pattern path case_insensitive) head tail a i
            (braces_complete x h))

-- A pattern matches a path exactly when one of the patterns without groups that it stands for does, as
-- their parts say: the first group gives way to each of the texts between its commas, and so on with
-- what comes out.
pub match_pattern-Expansion :
    (path : Bytes) (case_insensitive : Bool) (pattern : Bytes)
    → (match_pattern path case_insensitive pattern ≡ true)
      ↔ ((q : Bytes) × (Expansion pattern q × Matches case_insensitive q path))
match_pattern-Expansion path case_insensitive pattern = (
  (λ h.
      let (q, (e, m)) =
        braces_sound path case_insensitive (length pattern) pattern (omega arith) h in
      (q, (e, (match_expanded_lem case_insensitive q path).0 m))),
  (λ (q, (e, m)).
      braces_complete path case_insensitive e ((match_expanded_lem case_insensitive q path).1 m)),
)
