-- ===== src/Syntax/Scanner/Skip.antt =====
-- source/fastlint/syntax/scanner.cc: `skipTrivia`. The out-parameter follows `m_sawLineBreak`.
use fastlint.Base.{
  ℕ, zero, suc, ◌+◌, ◌-◌, Bool, true, false, not, ◌&&◌, ◌||◌, Option, none, some, [], ◌∷◌, Bytes,
  codes, leb, ◌==◌, if◌then◌else◌, drop, starts_with,
}
use fastlint.Syntax.Scanner.{
  Reader, peek_char, char_length, char_bytes, advance, error, add_trivia, note_line_start,
  see_line_break, span, whitespace, new_line, single_line_comment, multi_line_comment, shebang,
}
use fastlint.Syntax.Scanner.Loop.{Round, again, done, loop}

abbrev pub is_unicode_white_space : ℕ → Bool
is_unicode_white_space cp =
    cp == 133
    || cp == 160
    || cp == 5760
    || cp == 8239
    || cp == 8287
    || cp == 12288
    || cp == 65279
    || (leb 8192 cp && leb cp 8202)

abbrev pub is_blank : ℕ → Bool
is_blank c = c == b' ' || c == 9 || c == 12 || c == 11

-- Not a byte that ends a line.
abbrev pub within_line : ℕ → Bool
within_line c = not (c == 10) && not (c == 13)

abbrev pub is_separator : ℕ → Bool
is_separator cp = cp == 8232 || cp == 8233

-- The bytes of a run of Unicode whitespace; the first argument counts those of a character already
-- read.
unfoldable pub white_run : ℕ → Bytes → ℕ
unfolding peek_char char_length
white_run k [] = 0
white_run (suc k) (c ∷ t) = suc (white_run k t)
white_run zero (c ∷ t) =
    let n = white_run (char_length c - 1) t in
    if is_unicode_white_space (peek_char (c ∷ t)) then suc n else 0

-- The comment's own variables.
pub record Comment : Type 0 where
  pub closed : Bool
  pub broke : Bool

-- A round of the loop behind `/*`.
unfoldable pub comment_round : Bytes → Reader → Comment → Round Comment
unfolding peek_char
comment_round [] r m = done r m
comment_round (c ∷ t) r m =
    let breaks = c == 10 || c == 13 || is_separator (peek_char (c ∷ t)) in
    let seen = if breaks then see_line_break r else r in
    let m' = record m { broke = m.broke || breaks } in
    if c == b'*' && starts_with t (codes "/")
    then done (advance 2 seen) (record m' { closed = true })
    else again (advance 1 (if c == 10 then note_line_start (seen.pos + 1) seen else seen)) m'

unfoldable pub block_comment : Bytes → Reader → Reader
unfolding comment_round loop
block_comment bs r =
    let (s, m) =
      loop comment_round 0 (drop 2 bs) (advance 2 r) (record { closed = false; broke = false }) in
    let reported = if m.closed then s else error 0 r.pos (s.pos - r.pos) s in
    add_trivia multi_line_comment r.pos (s.pos - r.pos) m.broke reported

abbrev pub line_comment : Bytes → Reader → Reader
line_comment bs r =
    let n = span within_line bs in add_trivia single_line_comment r.pos n false (advance n r)

unfoldable pub conflict_marker : Bytes → Reader → Reader
unfolding span
conflict_marker bs r =
    let n = span within_line bs in
    add_trivia whitespace r.pos n false (error 1402 r.pos n (advance n r))

unfoldable pub new_line_trivia : ℕ → Reader → Reader
new_line_trivia n r =
    add_trivia new_line r.pos n true (note_line_start (r.pos + n) (see_line_break (advance n r)))

unfoldable pub blanks : ℕ → Reader → Reader
blanks n r = add_trivia whitespace r.pos n false (advance n r)

-- One trivium at the position, or none where a token starts.
unfoldable pub trivia_at : Bool → Bytes → Reader → Option Reader
unfolding block_comment conflict_marker new_line_trivia blanks white_run peek_char char_bytes span
trivia_at java_script [] r = none
trivia_at java_script (c ∷ t) r =
    let bs = c ∷ t in
    let cp = peek_char bs in
    if is_blank c
    then some (blanks (span is_blank bs) r)
    else if c == 13 || c == 10
    then some (new_line_trivia (if c == 13 && starts_with t (10 ∷ []) then 2 else 1) r)
    else if is_separator cp
    then some (new_line_trivia (char_bytes bs) r)
    else if is_unicode_white_space cp
    then some (blanks (white_run 0 bs) r)
    else if starts_with bs (codes "//")
    then some (line_comment bs r)
    else if starts_with bs (codes "/*")
    then some (block_comment bs r)
    else if java_script && starts_with bs (codes "<!--")
    then some (line_comment bs r)
    else if starts_with bs (codes "<<<<<<<")
        || starts_with bs (codes "=======")
        || starts_with bs (codes ">>>>>>>")
    then some (conflict_marker bs r)
    else none

abbrev pub trivia_round : Bool → Bytes → Reader → Bool → Round Bool
trivia_round java_script bs r f = elim (trivia_at java_script bs r) [
  | none ↦ done r f
  | some s ↦ again s f
]

abbrev pub skip_shebang : Bytes → Reader → Reader
skip_shebang bs r =
    let n = span within_line bs in
    if r.pos == 0 && starts_with bs (codes "#!")
    then add_trivia shebang 0 n false (advance n r)
    else r

unfoldable pub skip_trivia : Bool → Bytes → Reader → Reader
unfolding trivia_at loop span
skip_trivia java_script source r =
    let s = skip_shebang (drop r.pos source) r in
    (loop (trivia_round java_script) 0 (drop s.pos source) s true).0
