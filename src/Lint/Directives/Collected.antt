-- ===== src/Lint/Directives/Collected.antt =====
-- source/fastlint/lint/directives.cc: what `collect` leaves in the set.
use fastlint.Base.{
  is_empty, ℕ, ◌≡◌, refl, ◌∙◌, Bool, true, false, not, ◌&&◌, ◌||◌, none, some, List, [], ◌∷◌, ◌++◌,
  arith, Bytes, codes, length, drop, bytes_eq, bytes_eq_self, starts_with, Bool-cases, Option-cases,
  inl, inr,
}
use fastlint.Lint.Text.{trim, without_justification, split_commas}
use fastlint.Lint.Registry.{find, find_named, canonical}
use fastlint.Lint.Directives.{Problem, DirectiveKind, Directive, DirectiveSet, is_line, any}
use fastlint.Lint.Directives.Collect.{
  Trivia, Source, keywords, find_keyword, append_directive, append_problem, make_directive,
  add_name, add_names, comment_body, is_comment, directive_prefix, dash_behind, directive_line,
  add_list, add_directive, collect_trivia, collect_over, empty_set, collect,
}

-- Unused, about every rule or a rule of the registry, and spelled for ESLint only where that is read.
abbrev pub is_proper : List Bytes → Bool → Directive → Bool
is_proper registry compat d =
    (is_empty d.rule || any (λ r. bytes_eq d.rule r) registry)
    && (compat || not d.eslint)
    && not d.used

abbrev pub all_proper : List Bytes → Bool → List Directive → Bool
all_proper registry compat [] = true
all_proper registry compat (d ∷ ds) = is_proper registry compat d && all_proper registry compat ds

all_proper-append :
    (registry : List Bytes) (compat : Bool) (ds : List Directive) (d : Directive)
    → all_proper registry compat (ds ++ d ∷ [])
      ≡ (all_proper registry compat ds && is_proper registry compat d)
all_proper-append registry compat [] d = ground arith
all_proper-append registry compat (e ∷ ds) d =
    ground (arith, all_proper-append registry compat ds d)

-- All of its directives are proper, and no replay has begun.
pub record Collected (registry : List Bytes) (compat : Bool) (set : DirectiveSet) : Type 0 where
  pub proper : all_proper registry compat set.directives ≡ true
  pub next : set.next ≡ 0
  pub disable_all : set.disable_all ≡ none
  pub disabled : set.disabled ≡ []
  pub enabled : set.enabled ≡ []

append_directive-Collected :
    (registry : List Bytes) (compat : Bool) (d : Directive) (set : DirectiveSet)
    → is_proper registry compat d ≡ true
    → Collected registry compat set
    → Collected registry compat (append_directive d set)
append_directive-Collected registry compat d set h c = record {
  proper = all_proper-append registry compat set.directives d ∙ rw (c.proper, h) refl;
  next = c.next;
  disable_all = c.disable_all;
  disabled = c.disabled;
  enabled = c.enabled;
}

append_problem-Collected :
    (registry : List Bytes) (compat : Bool) (p : Problem) (set : DirectiveSet)
    → Collected registry compat set
    → Collected registry compat (append_problem p set)
append_problem-Collected registry compat p set c = record {
  proper = c.proper;
  next = c.next;
  disable_all = c.disable_all;
  disabled = c.disabled;
  enabled = c.enabled;
}

find_named-any :
    (wanted rule : Bytes) (registry : List Bytes)
    → find_named wanted registry ≡ some rule
    → any (λ r. bytes_eq rule r) registry ≡ true
unfolding find_named
find_named-any wanted rule [] h = absurd cc
find_named-any wanted rule (r ∷ rs) h =
    ground (arith, find_named-any wanted rule rs, bytes_eq_self rule)

-- What `addDirective` records is spelled for ESLint only if the comment may be.
add_name-Collected :
    (registry : List Bytes) (compat : Bool) (kind : DirectiveKind) (comment : Trivia) (line : ℕ)
    (eslint : Bool) (name : Bytes) (set : DirectiveSet)
    → (compat || not eslint) ≡ true
    → Collected registry compat set
    → Collected registry compat (add_name registry kind comment line eslint name set)
unfolding add_name
add_name-Collected registry compat kind comment line eslint name set h c =
    elim (Bool-cases (is_empty name)) [
      | inl e ↦ rw e c
      | inr e ↦ rw e (elim (Option-cases (find registry name)) [
        | inr (rule, f) ↦ rw f (
            append_directive-Collected registry compat
              (make_directive kind comment line rule eslint) set
              (rw (find_named-any (canonical name) rule registry (unfold find in f), h) ground
                arith)
              c)
        | inl f ↦ rw f (elim (Bool-cases eslint) [
          | inl s ↦ rw s c
          | inr s ↦ rw s (append_problem-Collected registry compat _ set c)
        ])
      ])
    ]

add_names-Collected :
    (registry : List Bytes) (compat : Bool) (kind : DirectiveKind) (comment : Trivia) (line : ℕ)
    (eslint : Bool) (names : List Bytes) (set : DirectiveSet)
    → (compat || not eslint) ≡ true
    → Collected registry compat set
    → Collected registry compat (add_names registry kind comment line eslint names set)
unfolding add_names
add_names-Collected registry compat kind comment line eslint [] set h c = c
add_names-Collected registry compat kind comment line eslint (name ∷ names) set h c =
    add_names-Collected registry compat kind comment line eslint names _ h
      (add_name-Collected registry compat kind comment line eslint (trim name) set h c)

add_list-Collected :
    (tree : Source) (registry : List Bytes) (compat : Bool) (kind : DirectiveKind)
    (comment : Trivia) (eslint : Bool) (list : Bytes) (set : DirectiveSet)
    → (compat || not eslint) ≡ true
    → Collected registry compat set
    → Collected registry compat (add_list tree registry kind comment eslint list set)
add_list-Collected tree registry compat kind comment eslint list set h c =
    elim (Bool-cases (is_empty list)) [
      | inl e ↦ rw e (
          append_directive-Collected registry compat
            (make_directive kind comment (directive_line tree kind comment) [] eslint) set
            (rw h refl) c)
      | inr e ↦ rw e (
          add_names-Collected registry compat kind comment (directive_line tree kind comment) eslint
            (split_commas list) set h c)
    ]

add_directive-Collected :
    (tree : Source) (registry : List Bytes) (compat : Bool) (comment : Trivia) (body : Bytes)
    (eslint : Bool) (set : DirectiveSet)
    → (compat || not eslint) ≡ true
    → Collected registry compat set
    → Collected registry compat (add_directive tree registry comment body eslint set)
unfolding add_directive
add_directive-Collected tree registry compat comment body eslint set h c =
    elim (Option-cases (find_keyword body keywords)) [
      | inl e ↦ rw (e, add_directive) c
      | inr (k, e) ↦
          rw (e, add_directive)
            (elim (Bool-cases (is_line k.kind && comment.line_break)) [
              | inl s ↦ rw s (append_problem-Collected registry compat _ set c)
              | inr s ↦ rw s (
                  add_list-Collected tree registry compat k.kind comment eslint
                    (trim (without_justification (drop (length k.text) body))) set h c)
            ])
    ]

compat-spelled : (compat matched : Bool) → (compat && matched) ≡ true → (compat || not true) ≡ true
compat-spelled compat matched h = ground arith

collect_trivia-Collected :
    (tree : Source) (registry : List Bytes) (compat : Bool) (trivia : Trivia) (set : DirectiveSet)
    → Collected registry compat set
    → Collected registry compat (collect_trivia tree registry compat trivia set)
unfolding collect_trivia
collect_trivia-Collected tree registry compat trivia set c =
    let body = trim (comment_body tree.text trivia) in
    elim (Bool-cases (is_comment trivia.kind)) [
      | inr e ↦ rw e c
      | inl e ↦
          rw e
            (elim (Bool-cases (
              starts_with body directive_prefix
              && dash_behind (drop (length directive_prefix) body))) [
                | inl own ↦ rw own (
                    add_directive-Collected tree registry compat trivia
                      (drop (length directive_prefix) body) false set (ground arith) c)
                | inr other ↦
                    rw other (elim (Bool-cases (compat && starts_with body (codes "eslint-"))) [
                      | inl alias ↦ rw alias (
                          add_directive-Collected tree registry compat trivia (drop 6 body) true set
                            (compat-spelled compat _ alias) c)
                      | inr neither ↦ rw neither c
                    ])
              ])
    ]

collect_over-Collected :
    (tree : Source) (registry : List Bytes) (compat : Bool) (trivia : List Trivia)
    (set : DirectiveSet)
    → Collected registry compat set
    → Collected registry compat (collect_over tree registry compat trivia set)
unfolding collect_over
collect_over-Collected tree registry compat [] set c = c
collect_over-Collected tree registry compat (t ∷ ts) set c =
    collect_over-Collected tree registry compat ts _
      (collect_trivia-Collected tree registry compat t set c)

-- Whatever the set held before, each directive that `collect` leaves in it is unused, names every rule
-- or a rule of the registry, and is spelled for ESLint only if those spellings are read; and the
-- replay stands at its beginning.
pub collect-Collected :
    (tree : Source) (registry : List Bytes) (compat : Bool) (set : DirectiveSet)
    → Collected registry compat (collect tree registry compat set)
unfolding collect
collect-Collected tree registry compat set =
    collect_over-Collected tree registry compat tree.trivia empty_set
      (record { proper = refl; next = refl; disable_all = refl; disabled = refl; enabled = refl })
