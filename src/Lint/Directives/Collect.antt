-- ===== src/Lint/Directives/Collect.antt =====
-- source/fastlint/lint/directives.cc: `DirectiveSet::collect`, and what it collects.
use fastlint.Base.{
  is_empty, ℕ, ◌+◌, ◌-◌, Bool, true, false, not, ◌&&◌, Option, none, some, List, [], ◌∷◌, ◌++◌,
  Bytes, codes, leb, ◌==◌, if◌then◌else◌, length, drop, take, starts_with,
}
use fastlint.Syntax.Lines.{LineStarts, line_of}
use fastlint.Lint.Text.{is_space, trim, without_justification, split_commas}
use fastlint.Lint.Registry.{find}
use fastlint.Lint.Directives.{
  Problem, spans_lines, rule_not_found, DirectiveKind, disable, enable, disable_line,
  disable_next_line, Directive, DirectiveSet, is_line,
}

pub data TriviaKind : Type 0 where
  whitespace new_line single_line_comment multi_line_comment shebang : TriviaKind

pub record Trivia : Type 0 where
  pub kind : TriviaKind
  pub offset : ℕ
  pub length : ℕ
  pub line_break : Bool

-- What `collect` reads of a grammar tree.
pub record Source : Type 0 where
  pub text : Bytes
  pub trivia : List Trivia
  pub line_starts : LineStarts

abbrev pub is_single_line : TriviaKind → Bool
is_single_line single_line_comment = true
is_single_line _ = false

abbrev pub is_comment : TriviaKind → Bool
is_comment single_line_comment = true
is_comment multi_line_comment = true
is_comment _ = false

unfoldable pub comment_body : Bytes → Trivia → Bytes
comment_body source comment =
    let text = take comment.length (drop comment.offset source) in
    if is_single_line comment.kind
    then (if leb 2 (length text) then drop 2 text else [])
    else if leb 4 (length text)
    then take (length text - 4) (drop 2 text)
    else []

pub record Keyword : Type 0 where
  pub text : Bytes
  pub kind : DirectiveKind

abbrev pub keywords : List Keyword
keywords =
    record { text = codes "-disable-next-line"; kind = disable_next_line }
    ∷ record { text = codes "-disable-line"; kind = disable_line }
    ∷ record { text = codes "-disable"; kind = disable }
    ∷ record { text = codes "-enable"; kind = enable }
    ∷ []

-- `i == text.size()`, or a space at `i`.
abbrev pub ends_word : Bytes → Bool
ends_word [] = true
ends_word (c ∷ s) = is_space c

unfoldable pub find_keyword : Bytes → List Keyword → Option Keyword
find_keyword body [] = none
find_keyword body (k ∷ ks) =
    if starts_with body k.text && ends_word (drop (length k.text) body)
    then some k
    else find_keyword body ks

abbrev pub append_directive : Directive → DirectiveSet → DirectiveSet
append_directive d set = record set { directives = set.directives ++ d ∷ [] }

abbrev pub append_problem : Problem → DirectiveSet → DirectiveSet
append_problem p set = record set { problems = set.problems ++ p ∷ [] }

abbrev pub make_directive : DirectiveKind → Trivia → ℕ → Bytes → Bool → Directive
make_directive kind comment line rule eslint = record {
  kind = kind;
  offset = comment.offset;
  length = comment.length;
  line = line;
  rule = rule;
  eslint = eslint;
  used = false;
}

-- One name of the list; the name of a missing rule is a problem, unless the comment is ESLint's.
unfoldable pub add_name :
    List Bytes → DirectiveKind → Trivia → ℕ → Bool → Bytes → DirectiveSet → DirectiveSet
add_name registry kind comment line eslint name set =
    if is_empty name then set else elim (find registry name) [
      | some rule ↦ append_directive (make_directive kind comment line rule eslint) set
      | none ↦
          if eslint
          then set
          else append_problem
              (record {
                offset = comment.offset;
                length = comment.length;
                message = rule_not_found name;
              })
              set
    ]

unfoldable pub add_names :
    List Bytes → DirectiveKind → Trivia → ℕ → Bool → List Bytes → DirectiveSet → DirectiveSet
add_names registry kind comment line eslint [] set = set
add_names registry kind comment line eslint (name ∷ names) set =
    add_names registry kind comment line eslint names
      (add_name registry kind comment line eslint (trim name) set)

-- The line that a directive is about; a comment is not empty, so that its last byte has a place.
abbrev pub directive_line : Source → DirectiveKind → Trivia → ℕ
directive_line tree disable_next_line comment =
    line_of tree.line_starts (comment.offset + comment.length - 1) + 1
directive_line tree kind comment = line_of tree.line_starts comment.offset

abbrev pub add_list :
    Source → List Bytes → DirectiveKind → Trivia → Bool → Bytes → DirectiveSet → DirectiveSet
add_list tree registry kind comment eslint list set =
    let line = directive_line tree kind comment in
    if is_empty list
    then append_directive (make_directive kind comment line [] eslint) set
    else add_names registry kind comment line eslint (split_commas list) set

unfoldable pub add_directive :
    Source → List Bytes → Trivia → Bytes → Bool → DirectiveSet → DirectiveSet
add_directive tree registry comment body eslint set = elim (find_keyword body keywords) [
  | none ↦ set
  | some keyword ↦
      if is_line keyword.kind && comment.line_break
      then append_problem
          (record {
            offset = comment.offset;
            length = comment.length;
            message = spans_lines eslint keyword.kind;
          })
          set
      else add_list tree registry keyword.kind comment eslint
          (trim (without_justification (drop (length keyword.text) body))) set
]

abbrev pub directive_prefix : Bytes
directive_prefix = codes "lintrix"

abbrev pub dash_behind : Bytes → Bool
dash_behind [] = false
dash_behind (c ∷ s) = c == b'-'

-- One piece of trivia.
unfoldable pub collect_trivia : Source → List Bytes → Bool → Trivia → DirectiveSet → DirectiveSet
collect_trivia tree registry eslint_compat trivia set =
    let body = trim (comment_body tree.text trivia) in
    if not (is_comment trivia.kind)
    then set
    else if starts_with body directive_prefix && dash_behind (drop (length directive_prefix) body)
    then add_directive tree registry trivia (drop (length directive_prefix) body) false set
    else if eslint_compat && starts_with body (codes "eslint-")
    then add_directive tree registry trivia (drop 6 body) true set
    else set

unfoldable pub collect_over : Source → List Bytes → Bool → List Trivia → DirectiveSet → DirectiveSet
collect_over tree registry eslint_compat [] set = set
collect_over tree registry eslint_compat (t ∷ ts) set =
    collect_over tree registry eslint_compat ts (collect_trivia tree registry eslint_compat t set)

abbrev pub empty_set : DirectiveSet
empty_set = record {
  directives = [];
  problems = [];
  next = 0;
  disable_all = none;
  disabled = [];
  enabled = [];
}

-- Whatever the set held before is cleared.
unfoldable pub collect : Source → List Bytes → Bool → DirectiveSet → DirectiveSet
collect tree registry eslint_compat set =
    collect_over tree registry eslint_compat tree.trivia empty_set
