-- ===== src/Lint/Examples.antt =====
-- Runs of source/fastlint/lint/, and its theorems at concrete inputs.
use fastlint.Base.{
  ℕ, zero, suc, ◌≡◌, ◌↔◌, refl, inl, inr, Bool, true, false, ◌==◌, if◌then◌else◌, List, [], ◌∷◌,
  arith, Bytes, codes, get_or, drop, bytes_eq, bytes_eq→eq, bytes_eq_self, Bool-cases,
}
use fastlint.Lint.Text.{without_justification, cut, dashes_end, split_commas}
use fastlint.Lint.Directives.{
  DirectiveKind, disable, enable, Directive, any, Removal, line_match, suppressor,
}
use fastlint.Lint.Directives.Replay.{is_some, is_off, within}
use fastlint.Lint.Directives.Sequence.{fresh_set, fresh, suppressor-is_off}
use fastlint.Lint.Directives.Collect.{single_line_comment, Source, collect, empty_set}
use fastlint.Lint.Directives.Collected.{Collected, collect-Collected}
use fastlint.Lint.Glob.{
  match_pattern, match_group, match_expanded, glob_match, match_braces, split_braces, split_at,
  match_any, match_one, in_segment, behind_slash,
}
use fastlint.Lint.Glob.Match.{Matches}
use fastlint.Lint.Glob.Sound.{match_expanded_lem}
use fastlint.Lint.Glob.Expansions.{Expansion, match_pattern-Expansion}

-- A removal of the first equal element.
module _ {ℓ} {A : Type ℓ} (eqb : A → A → Bool) where
  abbrev erase : A → List A → List A
  erase v [] = []
  erase v (x ∷ xs) = if eqb x v then xs else x ∷ erase v xs

  module _ (eqb→eq : (x y : A) → eqb x y ≡ true → x ≡ y) (eqb_self : (x : A) → eqb x x ≡ true) where
    erase-any : (p : A → Bool) (v : A) (xs : List A) → p v ≡ false → any p (erase v xs) ≡ any p xs
    erase-any p v [] h = refl
    erase-any p v (x ∷ xs) h = elim (Bool-cases (eqb x v)) [
      | inl e ↦ rw e (rw (eqb→eq x v e, h) refl)
      | inr e ↦ rw e (rw (erase-any p v xs h) refl)
    ]

    erase-drop : (d : A) (i : ℕ) (xs : List A) → drop i (erase (get_or xs i d) xs) ≡ drop (suc i) xs
    erase-drop d zero [] = refl
    erase-drop d (suc i) [] = refl
    erase-drop d zero (x ∷ xs) = rw (eqb_self x) refl
    erase-drop d (suc i) (x ∷ xs) = elim (Bool-cases (eqb x (get_or xs i d))) [
      | inl e ↦ rw e refl
      | inr e ↦ rw e (erase-drop d i xs)
    ]

    abbrev erasure : Removal A
    erasure = record { remove = erase; remove_any = erase-any; remove_drop = erase-drop }

==-eq : (x y : ℕ) → (x == y) ≡ true → x ≡ y
==-eq x y = ground arith

==-self : (x : ℕ) → (x == x) ≡ true
==-self x = ground arith

abbrev indices : Removal ℕ
indices = erasure (λ x y. x == y) ==-eq ==-self

abbrev rules : Removal Bytes
rules = erasure bytes_eq bytes_eq→eq bytes_eq_self

abbrev directive : DirectiveKind → ℕ → Bytes → Directive
directive kind offset rule = record {
  kind = kind;
  offset = offset;
  length = 20;
  line = 1;
  rule = rule;
  eslint = false;
  used = false;
}

-- Everything off, `eqeqeq` on again, and off for good.
abbrev comments : List Directive
comments =
    directive disable 0 []
    ∷ directive enable 30 (codes "eqeqeq")
    ∷ directive disable 60 (codes "eqeqeq")
    ∷ []

suppressor-is_off_example :
    is_some (suppressor indices rules (codes "eqeqeq") 40 3 (fresh_set comments [])).0
    ≡ is_off false (within 40 comments) (codes "eqeqeq")
suppressor-is_off_example =
    suppressor-is_off indices rules 0 40 (codes "eqeqeq") 3 (fresh_set comments [])
      (fresh comments []) (omega arith) (unfold line_match in refl)

reported : is_off false (within 40 comments) (codes "eqeqeq") ≡ false
unfolding is_off within
reported = refl

abbrev registry : List Bytes
registry = codes "eqeqeq" ∷ codes "no-var" ∷ []

abbrev source : Source
source = record {
  text = codes "// lintrix-disable-line no-var -- old";
  trivia = record { kind = single_line_comment; offset = 0; length = 37; line_break = false } ∷ [];
  line_starts = 0 ∷ [];
}

collect-Collected_example : Collected registry false (collect source registry false empty_set)
collect-Collected_example = collect-Collected source registry false empty_set

match_expanded_lem_example :
    (match_expanded (codes "src/**/*.ts") false (codes "src/a/b.ts") ≡ true)
    ↔ Matches false (codes "src/**/*.ts") (codes "src/a/b.ts")
match_expanded_lem_example = match_expanded_lem false (codes "src/**/*.ts") (codes "src/a/b.ts")

match_pattern-Expansion_example :
    (match_pattern (codes "a.ts") false (codes "*.{js,ts}") ≡ true)
    ↔ ((q : Bytes) × (Expansion (codes "*.{js,ts}") q × Matches false q (codes "a.ts")))
match_pattern-Expansion_example = match_pattern-Expansion (codes "a.ts") false (codes "*.{js,ts}")

below_directory : glob_match (codes "./src/**/*.{js,ts}") (codes "src/a/b.TS") true ≡ true
unfolding glob_match
below_directory =
    unfold match_braces match_group split_braces split_at match_any split_commas match_expanded
      match_one in_segment behind_slash in
    refl

justified : without_justification (codes "a, b -- why") ≡ codes "a, b "
unfolding without_justification cut dashes_end
justified = refl
