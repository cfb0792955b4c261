-- ===== src/Syntax/Scanner/Examples.antt =====
-- Runs of source/fastlint/syntax/scanner.cc, and its theorems at concrete sources.
use fastlint.Base.{
  ltb, leb, get_or, ℕ, ◌+◌, ◌-◌, ◌≡◌, refl, true, false, Option, none, some, List, Bytes, codes, [],
  ◌∷◌, ◌++◌, length, arith,
}
use fastlint.Syntax.Scanner.{
  note, Token, Trivia, TokenKind, end_of_file, identifier, punctuation, numeric_literal, keyword,
  whitespace, new_line, template_tail, template_head, span,
}
use fastlint.Syntax.Scanner.Punctuation.{matched, punctuator_at}
use fastlint.Syntax.Scanner.Run.{Scanner, Input, scan_one, start_scanner, start_reader, no_token}
use fastlint.Syntax.Scanner.Run.Rescan.{scan_all, rescan_template_tail, rewind, state, is_end}
use fastlint.Syntax.Scanner.Run.Tiled.{Read, scan_one-Read}
use fastlint.Syntax.Scanner.Run.Taken.{token_place}
use fastlint.Syntax.Scanner.Run.Texts.{texts, slice, scan_one-texts}
use fastlint.Syntax.Scanner.Run.Rewound.{IsRewound, rewind-scan_one}
use fastlint.Syntax.Scanner.Run.Steady.{IsSteady}
use fastlint.Syntax.Scanner.Run.Total.{scan_all-IsSteady}
use fastlint.Syntax.Lines.{line_of}
use fastlint.Syntax.Scanner.Run.Lined.{in_order, line_of-scan_all}
use fastlint.Syntax.Scanner.Run.Again.{IsSplit, run_length, split_times, split_times_lem}
use fastlint.Syntax.Scanner.Moves.{origin}
use fastlint.Syntax.Scanner.Moves.Pieces.{trivia_place}
use fastlint.Syntax.Scanner.Moves.Longest.{Chosen, punctuator_at_lem}

abbrev input : Bytes → Input
input s = record { source = s; java_script = false; in_table = λ c. false }

abbrev kinds : List Token → List TokenKind
kinds [] = []
kinds (t ∷ ts) = t.kind ∷ kinds ts

abbrev kinds_of : Option Scanner → List TokenKind
kinds_of none = []
kinds_of (some s) = kinds s.tokens

abbrev line_starts_of : Option Scanner → List ℕ
line_starts_of none = []
line_starts_of (some s) = s.reader.line_starts

-- `if` and a template with a substitution.
template_kinds :
    kinds_of (scan_all (input (codes "if `a${1}b`")))
    ≡ end_of_file
      ∷ template_tail
      ∷ punctuation (codes "}")
      ∷ numeric_literal
      ∷ template_head
      ∷ keyword (codes "if")
      ∷ []
unfolding scan_all
template_kinds = refl

-- A line break behind a backslash in a template starts no line; the bytes are `a`, a backslash and
-- the break between backticks.
escaped_break : line_starts_of (scan_all (input (codes "`a" ++ 92 ∷ 10 ∷ codes "`"))) ≡ 0 ∷ []
unfolding scan_all
escaped_break = refl

plain_break : line_starts_of (scan_all (input (codes "`a" ++ 10 ∷ codes "`"))) ≡ 3 ∷ 0 ∷ []
unfolding scan_all note
plain_break = refl

-- An escaped backtick at the end: the last token is a tail, and yet unterminated.
unterminated_tail :
    kinds_of (scan_all (input (codes "`${1}" ++ 92 ∷ codes "`")))
    ≡ end_of_file ∷ template_tail ∷ punctuation (codes "}") ∷ numeric_literal ∷ template_head ∷ []
unfolding scan_all
unterminated_tail = refl

-- The value of `\u{100000041}` wraps to 65, and nothing is reported.
abbrev reports_of : Option Scanner → ℕ
reports_of none = 0
reports_of (some s) = length s.reader.diagnostics

wrapped_escape : reports_of (scan_all (input (92 ∷ codes "u{100000041}"))) ≡ 0
unfolding scan_all
wrapped_escape = refl

abbrev assignment : Input
assignment = input (codes " x >>= 1")

abbrev blank : Trivia
blank = record { kind = whitespace; offset = 0; length = 1; line_break = false }

abbrev name : Token
name = record no_token { kind = identifier; offset = 1; length = 1 }

-- The scanner of that source behind its first token.
abbrev behind_name : Scanner
behind_name = record start_scanner {
  reader = record start_reader { pos = 2; trivia = blank ∷ [] };
  current = name;
  current_index = some 0;
  next_index = 1;
  tokens = name ∷ [];
  last_trivia_end = 1;
}

behind_name_lem : scan_one assignment start_scanner ≡ behind_name
unfolding scan_one
behind_name_lem = refl

scan_one-Read_example : Read 8 behind_name (scan_one assignment behind_name)
scan_one-Read_example = scan_one-Read assignment behind_name refl refl refl (omega arith)

scan_one-texts_example :
    let t = scan_one assignment behind_name in
    (us : List Trivia) × ((ts : List Token) × ((t.reader.trivia ≡ us ++ behind_name.reader.trivia)
        × ((t.tokens ≡ ts ++ behind_name.tokens)
            × (texts assignment.source trivia_place us ++ texts assignment.source token_place ts
                ≡ slice assignment.source 2 t.reader.pos))))
scan_one-texts_example = scan_one-texts assignment behind_name refl refl refl (omega arith)

rewind-scan_one_example :
    IsRewound 8 behind_name (rewind (state behind_name) (scan_one assignment behind_name))
rewind-scan_one_example =
    rewind-scan_one assignment behind_name [] refl refl refl refl refl refl (omega arith) origin

scan_all-IsSteady_example :
    (s : Scanner) × ((scan_all assignment ≡ some s) × (IsSteady 8 s × (is_end s ≡ true)))
scan_all-IsSteady_example = scan_all-IsSteady assignment

punctuator_at_lem_example : Chosen (codes ">>= 1") (punctuator_at (codes ">>= 1"))
punctuator_at_lem_example = punctuator_at_lem (codes ">>= 1")

shift : punctuator_at (codes ">>= 1") ≡ matched (codes ">>=")
unfolding punctuator_at
shift = refl

-- `/a/g` behind the scan of its first slash.
abbrev slash : Token
slash = record no_token { kind = punctuation (codes "/"); length = 1 }

abbrev at_slash : Scanner
at_slash = record start_scanner {
  reader = record start_reader { pos = 1 };
  current = slash;
  current_index = some 0;
  next_index = 1;
  tokens = slash ∷ [];
}

-- `>>` behind its scan.
abbrev angles : Token
angles = record no_token { kind = punctuation (codes ">>"); length = 2 }

abbrev at_angles : Scanner
at_angles = record start_scanner {
  reader = record start_reader { pos = 2 };
  current = angles;
  current_index = some 0;
  next_index = 1;
  tokens = angles ∷ [];
}

two_angles : run_length (input (codes ">>")) at_angles ≡ 2
unfolding span
two_angles = refl

split_times_lem_example :
    let p = split_times 2 (input (codes ">>")) at_angles in
    (p.1 ≡ true) × IsSplit (0 + 1) (run_length (input (codes ">>")) at_angles - 2) at_angles p.0
split_times_lem_example =
    split_times_lem (input (codes ">>")) at_angles 1 refl refl (omega (arith, two_angles))
      (omega (arith, two_angles))

-- The line break before the backtick of a tail that the parser rescans reaches the token behind it:
-- `${1` and `}`, and then a break, a backtick and a name.
abbrev broken_tail : Input
broken_tail = input (codes "`${1}" ++ 10 ∷ codes "` x")

break_leaks :
    let brace = scan_one broken_tail (scan_one broken_tail (scan_one broken_tail start_scanner)) in
    let s = scan_one broken_tail (rescan_template_tail broken_tail true brace) in
    (s.current.kind ≡ identifier) × (s.current.preceding_line_break ≡ true)
unfolding scan_one rescan_template_tail
break_leaks = (refl, refl)

-- A scan and a rewind in between lose that break.
break_lost :
    let brace = scan_one broken_tail (scan_one broken_tail (scan_one broken_tail start_scanner)) in
    let tail = rescan_template_tail broken_tail true brace in
    let s = scan_one broken_tail (rewind (state tail) (scan_one broken_tail tail)) in
    (s.current.kind ≡ identifier) × (s.current.preceding_line_break ≡ false)
unfolding scan_one rescan_template_tail rewind state
break_lost = (refl, refl)

-- A name on the second line.
abbrev two_lines : Input
two_lines = input (10 ∷ codes "a")

abbrev break_trivia : Trivia
break_trivia = record { kind = new_line; offset = 0; length = 1; line_break = true }

abbrev second_name : Token
second_name = record no_token {
  kind = identifier;
  offset = 1;
  length = 1;
  leading_trivia_count = 1;
  preceding_line_break = true;
}

abbrev last_token : Token
last_token = record no_token { offset = 2; leading_trivia_start = 1 }

abbrev scanned_lines : Scanner
scanned_lines = record start_scanner {
  reader = record start_reader { pos = 2; trivia = break_trivia ∷ []; line_starts = 1 ∷ 0 ∷ [] };
  current = last_token;
  current_index = some 1;
  next_index = 2;
  tokens = last_token ∷ second_name ∷ [];
  last_trivia_end = 1;
}

two_lines_scanned : scan_all two_lines ≡ some scanned_lines
unfolding scan_all note
two_lines_scanned = refl

line_of-scan_all_example :
    ltb 1 (line_of (in_order (1 ∷ 0 ∷ [])) 1) ≡ leb (get_or (in_order (1 ∷ 0 ∷ [])) 1 0) 1
line_of-scan_all_example =
    line_of-scan_all two_lines scanned_lines 1 1 two_lines_scanned (omega arith)
