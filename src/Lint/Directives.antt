-- ===== src/Lint/Directives.antt =====
-- source/fastlint/lint/directives.h, directives.cc: `DirectiveSet`.
-- `Vector::remove` is of a library outside the repository: its two uses are parameters here.
pub mod Collect
pub mod Collected
pub mod Replay
pub mod Marked
pub mod Sequence
use fastlint.Base.{
  is_empty, ℕ, zero, suc, ◌+◌, ◌-◌, ◌≡◌, Bool, true, false, not, ◌&&◌, ◌||◌, Option, none, some,
  List, [], ◌∷◌, ◌++◌, Bytes, ltb, ◌==◌, if◌then◌else◌, length, get_or, drop, bytes_eq,
}

pub data DirectiveKind : Type 0 where
  disable enable disable_line disable_next_line : DirectiveKind

-- An empty rule stands for every rule.
pub record Directive : Type 0 where
  pub kind : DirectiveKind
  pub offset : ℕ
  pub length : ℕ
  pub line : ℕ
  pub rule : Bytes
  pub eslint : Bool
  pub used : Bool

pub data ProblemText : Type 0 where
  spans_lines : Bool → DirectiveKind → ProblemText
  rule_not_found : Bytes → ProblemText

-- The message is kept as its parts.
pub record Problem : Type 0 where
  pub offset : ℕ
  pub length : ℕ
  pub message : ProblemText

-- `m_disableAll` is `none` for -1; the replay state stands behind the two lists.
pub record DirectiveSet : Type 0 where
  pub directives : List Directive
  pub problems : List Problem
  pub next : ℕ
  pub disable_all : Option ℕ
  pub disabled : List ℕ
  pub enabled : List Bytes

abbrev pub any {ℓ} : {A : Type ℓ} → (A → Bool) → List A → Bool
any p [] = false
any p (x ∷ xs) = p x || any p xs

abbrev pub no_directive : Directive
no_directive = record {
  kind = enable;
  offset = 0;
  length = 0;
  line = 0;
  rule = [];
  eslint = false;
  used = false;
}

abbrev pub at : List Directive → ℕ → Directive
at ds i = get_or ds i no_directive

abbrev pub is_line : DirectiveKind → Bool
is_line disable_line = true
is_line disable_next_line = true
is_line _ = false

-- `m_directives[i].used = true`.
unfoldable pub mark_used : List Directive → ℕ → List Directive
mark_used [] i = []
mark_used (d ∷ ds) zero = record d { used = true } ∷ ds
mark_used (d ∷ ds) (suc i) = d ∷ mark_used ds i

-- The first loop of `suppressor`, over the directives from index `i` on.
unfoldable pub line_match : Bytes → ℕ → ℕ → List Directive → Option ℕ
line_match rule line i [] = none
line_match rule line i (d ∷ ds) =
    if is_line d.kind && d.line == line && (is_empty d.rule || bytes_eq d.rule rule)
    then some i
    else line_match rule line (i + 1) ds

-- The second loop, from the back: the last index whose directive names the rule.
unfoldable pub last_named : List Directive → Bytes → List ℕ → Option ℕ
last_named ds rule [] = none
last_named ds rule (i ∷ is) = elim (last_named ds rule is) [
  | some j ↦ some j
  | none ↦ if bytes_eq (at ds i).rule rule then some i else none
]

-- Removal of the value `v`. A removal keeps whatever holds of no removed value; and of the values
-- behind one that is removed it keeps the order and the number.
pub record Removal {ℓ} (A : Type ℓ) : Type ℓ where
  pub remove : A → List A → List A
  pub remove_any :
      (p : A → Bool) (v : A) (xs : List A) → p v ≡ false → any p (remove v xs) ≡ any p xs
  pub remove_drop :
      (d : A) (i : ℕ) (xs : List A) → drop i (remove (get_or xs i d) xs) ≡ drop (suc i) xs

module _ (indices : Removal ℕ) (rules : Removal Bytes) where
  open indices use {remove as remove_index}
  open rules use {remove as remove_rule}

  -- The loop of an `enable` directive over `m_disabled`, the position falling to 0.
  unfoldable pub sweep : List Directive → Bytes → ℕ → List ℕ → List ℕ
  sweep ds rule zero disabled = disabled
  sweep ds rule (suc i) disabled =
      let index = get_or disabled i 0 in
      sweep ds rule i
        (if bytes_eq (at ds index).rule rule then remove_index index disabled else disabled)

  unfoldable pub contains_rule : List Bytes → Bytes → Bool
  contains_rule enabled rule = any (λ r. bytes_eq r rule) enabled

  -- The body of the loop in `advance`, for the directive `d` at the position `m_next`.
  unfoldable pub replay : Directive → DirectiveSet → DirectiveSet
  unfolding contains_rule
  replay d s = elim d.kind [
    | disable ↦
        if is_empty d.rule
        then record s { disable_all = some s.next; disabled = []; enabled = [] }
        else record s {
          enabled =
              if contains_rule s.enabled d.rule then remove_rule d.rule s.enabled else s.enabled;
          disabled = s.disabled ++ s.next ∷ [];
        }
    | enable ↦
        if is_empty d.rule
        then record s { disable_all = none; disabled = []; enabled = [] }
        else record s {
          disabled = sweep s.directives d.rule (length s.disabled) s.disabled;
          enabled = elim s.disable_all [
            | none ↦ s.enabled
            | some _ ↦
                if contains_rule s.enabled d.rule then s.enabled else s.enabled ++ d.rule ∷ []
          ];
        }
    | _ ↦ s
  ]

  -- The loop of `advance` over the directives from `m_next` on.
  unfoldable pub advance_over : ℕ → List Directive → DirectiveSet → DirectiveSet
  advance_over offset [] s = s
  advance_over offset (d ∷ ds) s =
      let r = replay d s in
      let rest = advance_over offset ds (record r { next = s.next + 1 }) in
      if ltb offset d.offset then s else rest

  unfoldable pub advance : ℕ → DirectiveSet → DirectiveSet
  advance offset s = advance_over offset (drop s.next s.directives) s

  abbrev pub use_directive : ℕ → DirectiveSet → DirectiveSet
  use_directive i s = record s { directives = mark_used s.directives i }

  -- The answer that the replayed state gives: a directive of the rule before a blanket one.
  unfoldable pub block_match : Bytes → DirectiveSet → Option ℕ
  unfolding contains_rule
  block_match rule s = elim (last_named s.directives rule s.disabled) [
    | some i ↦ some i
    | none ↦ elim s.disable_all [
      | none ↦ none
      | some i ↦ if contains_rule s.enabled rule then none else some i
    ]
  ]

  abbrev pub answer : Option ℕ → DirectiveSet → Option ℕ × DirectiveSet
  answer none s = (none, s)
  answer (some i) s = (some i, use_directive i s)

  -- A line directive answers before the replay moves, and a block directive after it.
  abbrev pub chosen : Option ℕ → DirectiveSet → Option ℕ → DirectiveSet → Option ℕ × DirectiveSet
  chosen (some i) s block t = (some i, use_directive i s)
  chosen none s block t = answer block t

  unfoldable pub suppressor : Bytes → ℕ → ℕ → DirectiveSet → Option ℕ × DirectiveSet
  suppressor rule offset line s =
      let t = advance offset s in
      chosen (line_match rule line 0 s.directives) s (block_match rule t) t
