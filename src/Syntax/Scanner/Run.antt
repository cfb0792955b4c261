-- ===== src/Syntax/Scanner/Run.antt =====
-- source/fastlint/syntax/scanner.h, scanner.cc: `Scanner`, its tokens and `scanOne`.
pub mod Rescan
pub mod Kinds
pub mod Taken
pub mod Routines
pub mod Tiled
pub mod Steady
pub mod Total
pub mod Texts
pub mod Rewound
pub mod Again
pub mod Slash
pub mod Lined
use fastlint.Base.{
  ℕ, zero, suc, ◌+◌, ◌-◌, Bool, true, false, not, ◌&&◌, ◌||◌, Option, none, some, List, [], ◌∷◌,
  Bytes, codes, leb, ◌==◌, if◌then◌else◌, length, take, drop, starts_with,
}
use fastlint.Syntax.Scanner.{
  Reader, Token, TokenKind, Trivia, TriviaKind, end_of_file, identifier, private_identifier,
  jsx_identifier, jsx_text, numeric_literal, bigint_literal, string_literal, punctuation,
  whitespace, advance, error, char_bytes, is_digit, is_ascii_identifier_start,
}
use fastlint.Syntax.Scanner.Skip.{skip_trivia}
use fastlint.Syntax.Scanner.Words.{identifier_end, keyword_kind}
use fastlint.Syntax.Scanner.Numbers.{front, number_digits, is_big_int, name_follows}
use fastlint.Syntax.Scanner.Strings.{scan_string}
use fastlint.Syntax.Scanner.Templates.{
  ScanMode, normal, template_middle_mode, template_tail_mode, jsx_text_mode, jsx_identifier_mode,
  single_greater_than, Ended, scan_template, scan_jsx_text, scan_jsx_identifier,
}
use fastlint.Syntax.Scanner.Punctuation.{matched, number, invalid, punctuator_at}

-- `kNoTokenIndex` is `none`. The members of a reader stand in `reader`.
pub record Scanner : Type 0 where
  pub reader : Reader
  pub mode : ScanMode
  pub current : Token
  pub current_index : Option ℕ
  pub next_index : ℕ
  pub tokens : List Token
  pub last_trivia_end : ℕ
  pub preceding_line_break : Bool
  pub template_depth : ℕ
  pub gt_base : ℕ
  pub gt_remaining : ℕ

-- The source and the options. The tables of Unicode identifier characters are generated.
pub record Input : Type 0 where
  pub source : Bytes
  pub java_script : Bool
  pub in_table : ℕ → Bool

abbrev pub no_token : Token
no_token = record {
  kind = end_of_file;
  offset = 0;
  length = 0;
  leading_trivia_start = 0;
  leading_trivia_count = 0;
  preceding_line_break = false;
  legacy_octal = false;
  unterminated = false;
}

abbrev pub start_reader : Reader
start_reader = record {
  pos = 0;
  trivia = [];
  line_starts = 0 ∷ [];
  diagnostics = [];
  saw_line_break = false;
  legacy_octal = false;
}

abbrev pub start_scanner : Scanner
start_scanner = record {
  reader = start_reader;
  mode = normal;
  current = no_token;
  current_index = none;
  next_index = 0;
  tokens = [];
  last_trivia_end = 0;
  preceding_line_break = false;
  template_depth = 0;
  gt_base = 0;
  gt_remaining = 0;
}

-- `v[index] = x` of a vector with its last element first.
unfoldable pub set_last {ℓ} : {A : Type ℓ} → List A → ℕ → A → List A
set_last [] index x = []
set_last (y ∷ ys) index x =
    let rest = set_last ys index x in if length ys == index then x ∷ ys else y ∷ rest

-- The reader stands behind the token.
abbrev pub add_token : TokenKind → ℕ → Bool → Reader → Scanner → Scanner
add_token kind offset unterminated r s = record s {
  reader = r;
  current = record s.current {
    kind = kind;
    offset = offset;
    length = r.pos - offset;
    legacy_octal = r.legacy_octal;
    unterminated = unterminated;
  };
}

-- How many of the trivia are left without the whitespace at the end.
unfoldable pub leading_count : List Trivia → ℕ
leading_count [] = 0
leading_count (t ∷ ts) =
    let n = leading_count ts in elim t.kind [ whitespace ↦ n | _ ↦ suc (length ts) ]

unfoldable pub finish_current : ℕ → Scanner → Scanner
unfolding leading_count set_last
finish_current index s =
    let ts = s.reader.trivia in
    let token = record s.current {
      leading_trivia_start = s.last_trivia_end;
      leading_trivia_count = leading_count (take (length ts - s.last_trivia_end) ts);
      preceding_line_break = s.preceding_line_break;
    } in
    record s {
      reader = record s.reader { saw_line_break = false };
      current = token;
      current_index = some index;
      last_trivia_end = length ts;
      tokens = if length s.tokens == index then token ∷ s.tokens else set_last s.tokens index token;
    }

unfoldable pub commit : Scanner → Scanner
unfolding finish_current
commit s = let t = finish_current s.next_index s in record t { next_index = length t.tokens }

unfoldable pub scan_identifier : Input → ℕ → Bool → Reader → Scanner → Scanner
unfolding identifier_end keyword_kind
scan_identifier i start is_private r s =
    let (e, stray) = identifier_end i.in_table i.source start r in
    let word = take (e.pos - start) (drop start i.source) in
    let kind =
      if stray then identifier else if is_private then private_identifier else keyword_kind word in
    add_token kind start false e s

unfoldable pub scan_number : Input → ℕ → Reader → Scanner → Scanner
unfolding number_digits scan_identifier commit
scan_number i start r s =
    let d = number_digits i.source start r in
    let big = is_big_int i.source d in
    let e = if big then advance 1 d else d in
    let kind = if big then bigint_literal else numeric_literal in
    let reported = error 1499 start (e.pos - start) e in
    let t = commit (add_token kind start false reported s) in
    if name_follows i.source e
    then scan_identifier i e.pos false t.reader t
    else add_token kind start false e s

unfoldable pub scan_punctuation : Input → ℕ → Reader → Scanner → Scanner
unfolding punctuator_at scan_number char_bytes
scan_punctuation i start r s =
    let bs = drop r.pos i.source in
    let n = char_bytes bs in
    elim (punctuator_at bs) [
      | matched p ↦ add_token (punctuation p) start false (advance (length p) r) s
      | number ↦ scan_number i start r s
      | invalid ↦ add_token identifier start false (error 1127 start n (advance n r)) s
    ]

abbrev pub ended_token : ℕ → (Reader × Ended) → Scanner → Scanner
ended_token start p s = add_token p.1.kind start p.1.unterminated p.0 s

-- At the end of the file there is no text.
unfoldable pub jsx_text_token : Input → ℕ → Reader → Scanner → Scanner
unfolding scan_jsx_text
jsx_text_token i start r s = elim (drop r.pos i.source) [
  | [] ↦ add_token end_of_file start false r s
  | c ∷ t ↦ add_token jsx_text start false (scan_jsx_text i.source r) s
]

-- The switch on the first byte of a token.
unfoldable pub scan_token : Input → ℕ → Bytes → Reader → Scanner → Scanner
unfolding scan_identifier scan_number scan_punctuation scan_string scan_template
scan_token i start [] r s = add_token end_of_file start false r s
scan_token i start (c ∷ t) r s =
    if c == b'#'
    then if front (λ d. is_ascii_identifier_start d || d == 92) t
      then scan_identifier i start true (advance 1 r) s
      else add_token (punctuation (codes "#")) start false (advance 1 r) s
    else if c == 34 || c == 39
    then add_token string_literal start (not (scan_string i.source start r).1)
        (scan_string i.source start r).0 s
    else if c == b'`'
    then ended_token start (scan_template i.source start normal (advance 1 r)) s
    else if is_digit c
    then scan_number i start r s
    else if c == 92 || is_ascii_identifier_start c || leb 128 c
    then scan_identifier i start false r s
    else scan_punctuation i start r s

-- The token in the normal mode, behind its trivia.
unfoldable pub scan_normal : Input → Scanner → Scanner
unfolding skip_trivia scan_token
scan_normal i s =
    let r = skip_trivia i.java_script i.source s.reader in
    let t = record s { reader = r; preceding_line_break = r.saw_line_break } in
    scan_token i r.pos (drop r.pos i.source) r t

-- The token that the mode asks for.
unfoldable pub scan_mode : Input → Scanner → Scanner
unfolding scan_normal scan_template jsx_text_token scan_jsx_identifier
scan_mode i s =
    let r = s.reader in
    let start = r.pos in
    elim s.mode [
      | normal ↦ scan_normal i s
      | template_middle_mode ↦
          ended_token start (scan_template i.source start template_middle_mode r) s
      | template_tail_mode ↦ ended_token start (scan_template i.source start template_tail_mode r) s
      | jsx_text_mode ↦ jsx_text_token i start r s
      | jsx_identifier_mode ↦
          add_token jsx_identifier start false (scan_jsx_identifier i.in_table i.source start r) s
      | single_greater_than ↦
          if starts_with (drop r.pos i.source) (codes ">")
          then add_token (punctuation (codes ">")) start false (advance 1 r) s
          else scan_normal i s
    ]

abbrev pub at_end_of_file : Scanner → Bool
at_end_of_file s = elim s.current_index [
  | none ↦ false
  | some n ↦ elim s.current.kind [ end_of_file ↦ true | _ ↦ false ]
]

-- `scanOne` up to the switch on the mode.
abbrev pub cleared : Scanner → Scanner
cleared s = record s {
  reader = record s.reader { legacy_octal = false };
  current = no_token;
  gt_remaining = 0;
  preceding_line_break = s.reader.saw_line_break;
}

-- Behind the end of the file nothing changes.
unfoldable pub scan_one : Input → Scanner → Scanner
unfolding scan_mode commit
scan_one i s = if at_end_of_file s then s else commit (scan_mode i (cleared s))
