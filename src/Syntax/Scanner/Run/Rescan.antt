-- ===== src/Syntax/Scanner/Run/Rescan.antt =====
-- source/fastlint/syntax/scanner.h, scanner.cc: the rescans, `state`, `rewind` and `scanAll`.
use fastlint.Base.{
  ℕ, zero, suc, ◌+◌, ◌-◌, ◌*◌, Bool, true, false, not, ◌&&◌, ◌||◌, Option, none, some, List, [],
  ◌∷◌, Bytes, codes, ltb, leb, ◌==◌, if◌then◌else◌, length, get_elem?, take, drop, bytes_eq,
}
use fastlint.Syntax.Scanner.{
  Reader, Token, TokenKind, Diagnostic, end_of_file, jsx_identifier, string_literal, template_head,
  template_tail, regular_expression_literal, punctuation, advance, note_line_start, span,
}
use fastlint.Syntax.Scanner.Numbers.{front}
use fastlint.Syntax.Scanner.Strings.{error_up_to}
use fastlint.Syntax.Scanner.Templates.{
  ScanMode, template_middle_mode, template_tail_mode, scan_template, scan_regex,
  scan_jsx_identifier,
}
use fastlint.Syntax.Scanner.Loop.{Round, again, done, loop}
use fastlint.Syntax.Scanner.Run.{
  Scanner, Input, no_token, set_last, add_token, ended_token, jsx_text_token, commit, scan_one,
  start_scanner,
}

abbrev pub is_kind : Bytes → TokenKind → Bool
is_kind p (punctuation q) = bytes_eq q p
is_kind p _ = false

-- `m_tokens[m_currentIndex] = m_current`.
unfoldable pub replace_current : Scanner → Scanner
unfolding set_last
replace_current s = elim s.current_index [
  | none ↦ s
  | some index ↦ record s { tokens = set_last s.tokens index s.current }
]

-- The position back at the start of the current token.
abbrev pub back : Scanner → Reader
back s = record s.reader { pos = s.current.offset }

-- A `/` or `/=` as a regular expression, with whether it is one.
unfoldable pub rescan_slash : Input → Scanner → Scanner × Bool
unfolding scan_regex replace_current
rescan_slash i s =
    let offset = s.current.offset in
    let found : Scanner × Bool = elim (scan_regex (drop offset i.source)) [
      | none ↦ (s, false)
      | some n ↦ (
        replace_current (add_token regular_expression_literal offset false (advance n (back s)) s),
        true,
      )
    ] in
    if is_kind (codes "/") s.current.kind || is_kind (codes "/=") s.current.kind
    then found
    else (s, false)

-- One `>` off the run at `base` with `remaining` left.
unfoldable pub split_greater : ℕ → ℕ → Scanner → Scanner
unfolding replace_current
split_greater base remaining s =
    let r = record s.reader { pos = base + 1 } in
    let t = replace_current (add_token (punctuation (codes ">")) base false r s) in
    record t { gt_base = base + 1; gt_remaining = remaining - 1 }

abbrev pub is_punctuation : TokenKind → Bool
is_punctuation (punctuation p) = true
is_punctuation _ = false

abbrev pub text : Input → Token → Bytes
text i t = take t.length (drop t.offset i.source)

unfoldable pub rescan_greater_than : Input → Scanner → Scanner × Bool
unfolding split_greater span
rescan_greater_than i s =
    let n = span (λ c. c == b'>') (text i s.current) in
    if s.gt_remaining == 0
    then if is_punctuation s.current.kind && leb 2 n
      then (split_greater s.current.offset n s, true)
      else (s, false)
    else (split_greater s.gt_base s.gt_remaining s, true)

unfoldable pub rescan_template_tail : Input → Bool → Scanner → Scanner
unfolding scan_template replace_current
rescan_template_tail i tail s =
    let offset = s.current.offset in
    let mode = if tail then template_tail_mode else template_middle_mode in
    replace_current (ended_token offset (scan_template i.source offset mode (back s)) s)

unfoldable pub rescan_jsx_text : Input → Scanner → Scanner
unfolding jsx_text_token replace_current
rescan_jsx_text i s = replace_current (jsx_text_token i s.current.offset (back s) s)

unfoldable pub rescan_jsx_identifier : Input → Scanner → Scanner
unfolding scan_jsx_identifier replace_current
rescan_jsx_identifier i s =
    let offset = s.current.offset in
    replace_current (
      add_token jsx_identifier offset false
        (scan_jsx_identifier i.in_table i.source offset (back s)) s)

-- What the first scan of the token reported goes.
unfoldable pub drop_reports : ℕ → List Diagnostic → List Diagnostic
drop_reports offset [] = []
drop_reports offset (d ∷ ds) = if leb offset d.offset then drop_reports offset ds else d ∷ ds

unfoldable pub attribute_round : ℕ → Bytes → Reader → Bool → Round Bool
attribute_round quote [] r f = done r f
attribute_round quote (c ∷ t) r f =
    let s = advance 1 (if c == 10 then note_line_start (r.pos + 1) r else r) in
    if c == quote then done s true else again s f

unfoldable pub attribute_string : ℕ → Bytes → Reader → Reader × Bool
unfolding attribute_round loop
attribute_string offset [] r = (r, false)
attribute_string offset (quote ∷ t) r =
    let (s, terminated) = loop (attribute_round quote) 0 t (advance 1 r) false in
    (if terminated then s else error_up_to 1002 offset s, terminated)

unfoldable pub rescan_jsx_attribute_string : Input → Scanner → Scanner
unfolding drop_reports attribute_string replace_current
rescan_jsx_attribute_string i s =
    let offset = s.current.offset in
    let r = record (back s) { diagnostics = drop_reports offset s.reader.diagnostics } in
    let (e, terminated) = attribute_string offset (drop offset i.source) r in
    replace_current (add_token string_literal offset (not terminated) e s)

-- `Scanner::State`.
pub record State : Type 0 where
  pub token_index : Option ℕ
  pub token_count : ℕ
  pub trivia_count : ℕ
  pub last_trivia_end : ℕ
  pub source_pos : ℕ
  pub mode : ScanMode
  pub diagnostic_count : ℕ

unfoldable pub state : Scanner → State
state s = record {
  token_index = s.current_index;
  token_count = length s.tokens;
  trivia_count = length s.reader.trivia;
  last_trivia_end = s.last_trivia_end;
  source_pos = s.reader.pos;
  mode = s.mode;
  diagnostic_count = length s.reader.diagnostics;
}

-- `v.resize(count)` to a smaller size.
abbrev pub resize {ℓ} : {A : Type ℓ} → ℕ → List A → List A
resize count xs = drop (length xs - count) xs

-- `v[index]`.
abbrev pub nth_last {ℓ} : {A : Type ℓ} → List A → ℕ → Option A
nth_last xs index = if ltb index (length xs) then get_elem? xs (length xs - 1 - index) else none

-- No token is current where there is none at the index.
abbrev pub token_or_none : List Token → Option ℕ → Token
token_or_none tokens none = no_token
token_or_none tokens (some index) = elim (nth_last tokens index) [ none ↦ no_token | some t ↦ t ]

unfoldable pub rewind : State → Scanner → Scanner
rewind saved s =
    let tokens = resize saved.token_count s.tokens in
    let current = token_or_none tokens saved.token_index in
    record s {
      reader = record s.reader {
        pos = saved.source_pos;
        trivia = resize saved.trivia_count s.reader.trivia;
        diagnostics = resize saved.diagnostic_count s.reader.diagnostics;
        legacy_octal = current.legacy_octal;
      };
      mode = saved.mode;
      current = current;
      current_index = saved.token_index;
      next_index = saved.token_count;
      tokens = tokens;
      last_trivia_end = saved.last_trivia_end;
      gt_remaining = 0;
    }

abbrev pub is_end : Scanner → Bool
is_end s = elim s.current.kind [ end_of_file ↦ true | _ ↦ false ]

-- The template depth behind a token.
abbrev pub deeper : TokenKind → ℕ → ℕ
deeper template_head depth = suc depth
deeper _ depth = depth

abbrev pub count_heads : Scanner → Scanner
count_heads s = record s { template_depth = deeper s.current.kind s.template_depth }

-- The continuation of a template behind the `}` of a substitution. It is a tail where the byte
-- before the position is a backtick.
unfoldable pub continue_template : Input → Scanner → Scanner
unfolding scan_template commit
continue_template i s =
    let offset = s.current.offset in
    let t = ended_token offset (scan_template i.source offset template_middle_mode (back s)) s in
    let tail = record t {
      current = record t.current { kind = template_tail };
      template_depth = t.template_depth - 1;
    } in
    commit (if front (λ c. c == b'`') (drop (t.reader.pos - 1) i.source) then tail else t)

-- A round of the loop of `scanAll`.
unfoldable pub scan_all_round : Input → Scanner → Scanner
unfolding continue_template scan_one
scan_all_round i s =
    if is_kind (codes "}") s.current.kind && ltb 0 s.template_depth
    then continue_template i s
    else scan_one i (count_heads s)

-- The loop, a round for each unit of fuel.
unfoldable pub scan_rounds : ℕ → Input → Scanner → Option Scanner
unfolding scan_all_round
scan_rounds zero i s = none
scan_rounds (suc fuel) i s =
    let rest = scan_rounds fuel i (scan_all_round i s) in if is_end s then some s else rest

unfoldable pub scan_all : Input → Option Scanner
unfolding scan_rounds
scan_all i = scan_rounds (2 * length i.source + 2) i (scan_one i start_scanner)
