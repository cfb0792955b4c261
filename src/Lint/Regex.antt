-- ===== src/Lint/Regex.antt =====
-- source/fastlint/lint/regex.h and the matcher of regex.cc. A term holds its class and its group
-- where the program holds their indices; `match_repeat` runs on fuel, as the program's recursion
-- ends because each iteration either counts towards the minimum or moves on.
pub mod Repeat
pub mod Matches
pub mod Search
pub mod Escape
pub mod Quantity
pub mod Bracket
pub mod Compile
pub mod Lengths
pub mod Shrinks
pub mod Total
pub mod Spelled
pub mod Literal
pub mod Escaped
mod Examples
use fastlint.Base.{
  ℕ, zero, suc, ◌+◌, ◌-◌, Bool, true, false, not, ◌&&◌, ◌||◌, Option, none, some, List, [], ◌∷◌,
  Bytes, leb, ltb, ◌==◌, if◌then◌else◌, length, get_elem?,
}

pub record Range : Type 0 where
  pub lo : ℕ
  pub hi : ℕ

pub record Class : Type 0 where
  pub ranges : List Range
  pub negate : Bool

-- `min`, `max` (none where the source has -1) and `greedy` of a term.
pub record Quantifier : Type 0 where
  pub min : ℕ
  pub max : Option ℕ
  pub greedy : Bool

mutual
  pub data Kind : Type 0 where
    char : ℕ → Kind
    any : Kind
    class : Class → Kind
    begin end word_boundary not_word_boundary : Kind
    group : Alternatives → Kind

  pub data Sequence : Type 0 where
    stop : Sequence
    term : Kind → Quantifier → Sequence → Sequence

  pub data Alternatives : Type 0 where
    none_left : Alternatives
    alternative : Sequence → Alternatives → Alternatives

pub record Regex : Type 0 where
  pub root : Alternatives
  pub ignore_case : Bool

abbrev pub lower : ℕ → ℕ
lower c = if leb b'A' c && leb c b'Z' then c - b'A' + b'a' else c

abbrev pub upper : ℕ → ℕ
upper c = if leb b'a' c && leb c b'z' then c - b'a' + b'A' else c

abbrev pub is_digit : ℕ → Bool
is_digit c = leb b'0' c && leb c b'9'

abbrev pub is_word_char : ℕ → Bool
is_word_char c = (leb b'a' c && leb c b'z') || (leb b'A' c && leb c b'Z') || is_digit c || c == b'_'

abbrev pub same_char : Bool → ℕ → ℕ → Bool
same_char ignore_case a b = if ignore_case then lower a == lower b else a == b

abbrev pub in_range : Range → ℕ → Bool
in_range r u = leb r.lo u && leb u r.hi

unfoldable pub in_ranges : Bool → List Range → ℕ → Bool
in_ranges ignore_case [] u = false
in_ranges ignore_case (r ∷ rest) u =
    in_range r u
    || (ignore_case && (in_range r (lower u) || in_range r (upper u)))
    || in_ranges ignore_case rest u

abbrev pub xor : Bool → Bool → Bool
xor a b = if a then not b else b

unfoldable pub in_class : Bool → Class → ℕ → Bool
in_class ignore_case cls c = xor (in_ranges ignore_case cls.ranges c) cls.negate

-- Whether the byte there exists and passes a test.
unfoldable pub test_at : Bytes → ℕ → (ℕ → Bool) → Bool
test_at text pos test = elim (get_elem? text pos) [ none ↦ false | some c ↦ test c ]

unfoldable pub at_word_boundary : Bytes → ℕ → Bool
at_word_boundary text zero = test_at text 0 is_word_char
at_word_boundary text (suc pos) =
    xor (test_at text pos is_word_char) (test_at text (suc pos) is_word_char)

abbrev pub can_more : Option ℕ → ℕ → Bool
can_more none count = true
can_more (some max) count = ltb count max

-- `one` matches the term once and hands the position behind it on.
unfoldable pub match_repeat : ((ℕ → Bool) → ℕ → Bool) → Quantifier → ℕ → ℕ → (ℕ → Bool) → ℕ → Bool
match_repeat one q zero count k pos = false
match_repeat one q (suc fuel) count k pos =
    let more =
      can_more q.max count
      && one
          (λ next.
            (not (next == pos) || ltb count q.min) && match_repeat one q fuel (suc count) k next)
          pos in
    let done = leb q.min count && k pos in if q.greedy then more || done else done || more

-- More than the iterations a term can have: `min`, and one for each byte of the text.
abbrev pub repeat_fuel : Quantifier → Bytes → ℕ
repeat_fuel q text = q.min + length text + 1

unfoldable mutual
  pub match_one : Bool → Bytes → Kind → (ℕ → Bool) → ℕ → Bool
  match_one i text (char ch) k pos = test_at text pos (λ c. same_char i c ch) && k (pos + 1)
  match_one i text any k pos = test_at text pos (λ c. not (c == 10) && not (c == 13)) && k (pos + 1)
  match_one i text (class cls) k pos = test_at text pos (in_class i cls) && k (pos + 1)
  match_one i text begin k pos = pos == 0 && k pos
  match_one i text end k pos = pos == length text && k pos
  match_one i text word_boundary k pos = at_word_boundary text pos && k pos
  match_one i text not_word_boundary k pos = not (at_word_boundary text pos) && k pos
  match_one i text (group alternatives) k pos = match_any i text alternatives k pos

  pub match_sequence : Bool → Bytes → Sequence → (ℕ → Bool) → ℕ → Bool
  match_sequence i text stop k pos = k pos
  match_sequence i text (term t q rest) k pos =
      match_repeat (match_one i text t) q (repeat_fuel q text) 0 (match_sequence i text rest k) pos

  pub match_any : Bool → Bytes → Alternatives → (ℕ → Bool) → ℕ → Bool
  match_any i text none_left k pos = false
  match_any i text (alternative seq rest) k pos =
      match_sequence i text seq k pos || match_any i text rest k pos

-- The loop of `search`, with the number of starts left behind this one.
unfoldable pub search_from : Regex → Bytes → ℕ → ℕ → Bool
search_from r text start zero = match_any r.ignore_case text r.root (λ at. true) start
search_from r text start (suc left) =
    match_any r.ignore_case text r.root (λ at. true) start || search_from r text (suc start) left

unfoldable pub search : Regex → Bytes → Bool
search r text = search_from r text 0 (length text)
