-- ===== src/Lint/Regex/Escaped.antt =====
-- source/fastlint/lint/regex.cc: a pattern that escapes a byte above ASCII.
use fastlint.Base.{
  ℕ, ◌+◌, ◌<◌, ◌≡◌, ◌↔◌, refl, sym, ap, ◌∙◌, inl, inr, true, false, some, [], ◌∷◌, Bytes, arith,
  length, drop, starts_with,
}
use fastlint.Lint.Regex.{group, alternative, none_left, stop, term, Regex}
use fastlint.Lint.Regex.Escape.{escape_char, encode_utf8}
use fastlint.Lint.Regex.Quantity.{once, parse_quantifier}
use fastlint.Lint.Regex.Bracket.{ok}
use fastlint.Lint.Regex.Compile.{
  parse_atom, parse_escape, quantified, another, parse_sequence, parse_group, byte_terms, compile,
  finished, flags_loop, search_compiled,
}
use fastlint.Lint.Regex.Matches.{Once, Through, Among}
use fastlint.Lint.Regex.Search.{Finds, search_lem}
use fastlint.Lint.Regex.Spelled.{
  once_elim, once_intro, byte_terms-Through, Among-byte_terms, Contains,
}

escape_char_high : (b : ℕ) (s : Bytes) → 127 < b → escape_char b s ≡ (some b, s)
unfolding escape_char
escape_char_high b s h = ground arith

parse_escape_high :
    (b : ℕ)
    → 127 < b
    → parse_escape (b ∷ []) ≡ ok (group (alternative (byte_terms (encode_utf8 b)) none_left)) []
unfolding parse_escape
parse_escape_high b h = ground (arith, escape_char_high b [] h)

-- A backslash and a byte above ASCII.
compile_escaped :
    (b : ℕ)
    → 127 < b
    → compile (b'\\' ∷ b ∷ []) []
      ≡ some record {
        root =
            alternative
              (term (group (alternative (byte_terms (encode_utf8 b)) none_left)) once stop)
              none_left;
        ignore_case = false;
      }
unfolding compile finished flags_loop parse_group another parse_sequence parse_atom quantified
    parse_quantifier
compile_escaped b h = rw (parse_escape_high b h)

escaped_elim :
    (text s : Bytes) (pos last : ℕ)
    → Among false text
        (alternative (term (group (alternative (byte_terms s) none_left)) once stop) none_left)
        pos
        last
    → starts_with (drop pos text) s ≡ true
unfolding Among Through Once
escaped_elim text s pos last (inl (next, path, e)) =
    Among-byte_terms text s pos next (once_elim _ pos next path)
escaped_elim text s pos last (inr m) = absurd m

-- A byte above ASCII behind a backslash is not matched as itself: the search finds the UTF-8 bytes
-- of the code point with the byte's number.
pub search_compiled_escaped :
    (b : ℕ) (text : Bytes)
    → 127 < b
    → (search_compiled (compile (b'\\' ∷ b ∷ []) []) text ≡ true) ↔ Contains text (encode_utf8 b)
unfolding search_compiled Contains Finds Among Through Once
search_compiled_escaped b text h =
    let inner = alternative (byte_terms (encode_utf8 b)) none_left in
    let r : Regex = record {
      root = alternative (term (group inner) once stop) none_left;
      ignore_case = false;
    } in
    let compiled = ap (λ c. search_compiled c text) (compile_escaped b h) in
    let (found, there) = search_lem r text in
    (
      (λ e.
          let (start, last, within, m) = found (sym compiled ∙ e) in
          (start, within, escaped_elim text (encode_utf8 b) start last m)),
      λ (pos, within, starts).
          let last = pos + length (encode_utf8 b) in
          let m : Among false text inner pos last =
            inl (byte_terms-Through text (encode_utf8 b) pos last starts refl) in
          compiled ∙ there (pos, last, within, inl (last, once_intro _ pos last m, refl)),
    )
