-- ===== src/Lint/Directives/Replay.antt =====
-- source/fastlint/lint/directives.cc: the state machine over block directives decides what a reader of
-- the comments would: the last directive about a rule, or about all, wins.
use mathlib.Core.Path.{subst}
use fastlint.Base.{
  is_empty, ℕ, zero, suc, ◌≡◌, refl, ap, ◌∙◌, Bool, true, false, not, ◌&&◌, ◌||◌, Option, none,
  some, List, [], ◌∷◌, ◌++◌, arith, Bytes, ltb, if◌then◌else◌, length, get_or, drop, bytes_eq,
  bytes_eq→eq, Bool-cases, inl, inr,
}
use fastlint.Lint.Directives.{
  DirectiveKind, disable, enable, disable_line, disable_next_line, Directive, DirectiveSet, any, at,
  last_named, Removal, sweep, replay, block_match,
}

abbrev pub is_some {ℓ} : {A : Type ℓ} → Option A → Bool
is_some none = false
is_some (some a) = true

abbrev pub is_disable : DirectiveKind → Bool
is_disable disable = true
is_disable _ = false

abbrev pub is_block : DirectiveKind → Bool
is_block disable = true
is_block enable = true
is_block _ = false

-- A block directive that names the rule, or every rule.
abbrev pub concerns : Directive → Bytes → Bool
concerns d rule = is_block d.kind && (is_empty d.rule || bytes_eq d.rule rule)

-- Whether a rule is off behind these directives: what the last one that concerns it says.
unfoldable pub is_off : Bool → List Directive → Bytes → Bool
is_off now [] rule = now
is_off now (d ∷ ds) rule = is_off (if concerns d rule then is_disable d.kind else now) ds rule

-- The directives before the first one that starts behind the offset.
unfoldable pub within : ℕ → List Directive → List Directive
within offset [] = []
within offset (d ∷ ds) = let rest = within offset ds in if ltb offset d.offset then [] else d ∷ rest

abbrev named : List Directive → Bytes → ℕ → Bool
named ds rule i = bytes_eq (at ds i).rule rule

any-append {ℓ} :
    {A : Type ℓ} (p : A → Bool) (xs ys : List A) → any p (xs ++ ys) ≡ (any p xs || any p ys)
any-append p [] ys = refl
any-append p (x ∷ xs) ys = ground (arith, any-append p xs ys)

last_named-any :
    (ds : List Directive) (rule : Bytes) (is : List ℕ)
    → is_some (last_named ds rule is) ≡ any (named ds rule) is
unfolding last_named
last_named-any ds rule [] = refl
last_named-any ds rule (i ∷ is) = ground (arith, last_named-any ds rule is)

bytes_eq_comm : (s t : Bytes) → bytes_eq s t ≡ bytes_eq t s
bytes_eq_comm [] [] = refl
bytes_eq_comm [] (b ∷ t) = refl
bytes_eq_comm (a ∷ s) [] = refl
bytes_eq_comm (a ∷ s) (b ∷ t) = ground (arith, bytes_eq_comm s t)

any-drop :
    (p : ℕ → Bool) (i : ℕ) (xs : List ℕ)
    → p (get_or xs i 0) ≡ false
    → any p (drop (suc i) xs) ≡ false
    → any p (drop i xs) ≡ false
any-drop p zero [] h k = refl
any-drop p zero (x ∷ xs) h k = rw h k
any-drop p (suc i) [] h k = refl
any-drop p (suc i) (x ∷ xs) h k = any-drop p i xs h k

drop-all : (xs : List ℕ) → drop (length xs) xs ≡ []
drop-all [] = refl
drop-all (x ∷ xs) = drop-all xs

module _ (indices : Removal ℕ) (rules : Removal Bytes) where
  open indices use {remove as remove_index, remove_any as index_any, remove_drop as index_drop}
  open rules use {remove as remove_rule, remove_any as rule_any}

  -- Whether the replayed state turns a rule off.
  abbrev pub blocks : DirectiveSet → Bytes → Bool
  blocks s rule =
      any (named s.directives rule) s.disabled
      || (is_some s.disable_all && not (any (λ r. bytes_eq r rule) s.enabled))

  pub block_match-blocks :
      (rule : Bytes) (s : DirectiveSet) → is_some (block_match indices rules rule s) ≡ blocks s rule
  unfolding block_match
  block_match-blocks rule s = ground (arith, last_named-any s.directives rule s.disabled)

  sweep-gone :
      (ds : List Directive) (rule : Bytes) (i : ℕ) (xs : List ℕ)
      → any (named ds rule) (drop i xs) ≡ false
      → any (named ds rule) (sweep indices rules ds rule i xs) ≡ false
  unfolding sweep
  sweep-gone ds rule zero xs h = h
  sweep-gone ds rule (suc i) xs h =
      let index = get_or xs i 0 in
      elim (Bool-cases (named ds rule index)) [
        | inl own ↦ rw own (
            sweep-gone ds rule i (remove_index index xs)
              (ap (any (named ds rule)) (index_drop 0 i xs) ∙ h))
        | inr other ↦ rw other (sweep-gone ds rule i xs (any-drop (named ds rule) i xs other h))
      ]

  sweep-kept :
      (ds : List Directive) (rule other : Bytes) (i : ℕ) (xs : List ℕ)
      → bytes_eq rule other ≡ false
      → any (named ds other) (sweep indices rules ds rule i xs) ≡ any (named ds other) xs
  unfolding sweep
  sweep-kept ds rule other zero xs h = refl
  sweep-kept ds rule other (suc i) xs h =
      let index = get_or xs i 0 in
      elim (Bool-cases (named ds rule index)) [
        | inl own ↦ rw own (
            sweep-kept ds rule other i (remove_index index xs) h
            ∙ index_any (named ds other) index xs
                (ap (λ r. bytes_eq r other) (bytes_eq→eq _ rule own) ∙ h))
        | inr differs ↦ rw differs (sweep-kept ds rule other i xs h)
      ]

  -- An `enable` of the rule itself leaves none of its directives in force.
  sweep-same :
      (ds : List Directive) (rule other : Bytes) (xs : List ℕ)
      → bytes_eq rule other ≡ true
      → any (named ds other) (sweep indices rules ds rule (length xs) xs) ≡ false
  sweep-same ds rule other xs h =
      subst (λ r. any (named ds r) (sweep indices rules ds rule (length xs) xs) ≡ false)
        (bytes_eq→eq rule other h)
        (sweep-gone ds rule (length xs) xs (ap (any (named ds rule)) (drop-all xs)))

  contains-same :
      (xs : List Bytes) (rule other : Bytes)
      → bytes_eq rule other ≡ true
      → any (λ r. bytes_eq r rule) xs ≡ any (λ r. bytes_eq r other) xs
  contains-same xs rule other h =
      subst (λ t. any (λ r. bytes_eq r rule) xs ≡ any (λ r. bytes_eq r t) xs)
        (bytes_eq→eq rule other h) refl

  replay-disable :
      (d : Directive) (s : DirectiveSet) (rule : Bytes)
      → at s.directives s.next ≡ d
      → d.kind ≡ disable
      → blocks (replay indices rules d s) rule
        ≡ (if concerns d rule then is_disable d.kind else blocks s rule)
  unfolding replay
  replay-disable d s rule e k = ground (
    arith,
    k,
    e,
    any-append (named s.directives rule) s.disabled (s.next ∷ []),
    rule_any (λ r. bytes_eq r rule) d.rule s.enabled,
  )

  replay-enable :
      (d : Directive) (s : DirectiveSet) (rule : Bytes)
      → d.kind ≡ enable
      → blocks (replay indices rules d s) rule
        ≡ (if concerns d rule then is_disable d.kind else blocks s rule)
  unfolding replay
  replay-enable d s rule k = ground (
    arith,
    k,
    any-append (λ r. bytes_eq r rule) s.enabled (d.rule ∷ []),
    sweep-kept s.directives d.rule rule (length s.disabled) s.disabled,
    sweep-same s.directives d.rule rule s.disabled,
    contains-same s.enabled d.rule rule,
  )

  -- A replayed directive settles what it concerns, and changes nothing else.
  pub replay-blocks :
      (d : Directive) (s : DirectiveSet) (rule : Bytes)
      → at s.directives s.next ≡ d
      → blocks (replay indices rules d s) rule
        ≡ (if concerns d rule then is_disable d.kind else blocks s rule)
  replay-blocks d s rule e = go d.kind refl
    where
      go :
          (k : DirectiveKind)
          → d.kind ≡ k
          → blocks (replay indices rules d s) rule
            ≡ (if concerns d rule then is_disable d.kind else blocks s rule)
      go disable k = replay-disable d s rule e k
      go enable k = replay-enable d s rule k
      go disable_line k = unfold replay in rw k refl
      go disable_next_line k = unfold replay in rw k refl
