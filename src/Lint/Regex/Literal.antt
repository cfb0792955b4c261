-- ===== src/Lint/Regex/Literal.antt =====
-- source/fastlint/lint/regex.cc: patterns that spell a text, from their compilation to the search.
use fastlint.Base.{
  and_true, ℕ, zero, suc, ◌+◌, ◌*◌, ◌<◌, ◌≡◌, ◌↔◌, refl, sym, ap, ◌∙◌, inl, Bool, true, false, not,
  ◌&&◌, some, [], ◌∷◌, Bytes, arith, codes, length,
}
use fastlint.Lint.Regex.{char, Alternatives, alternative, none_left, Regex}
use fastlint.Lint.Regex.Escape.{mem}
use fastlint.Lint.Regex.Quantity.{once, parse_quantifier}
use fastlint.Lint.Regex.Bracket.{Parsed, ok}
use fastlint.Lint.Regex.Compile.{
  parse_atom, quantified, another, parse_sequence, parse_group, compile_fuel, byte_terms, compile,
  finished, flags_loop, search_compiled,
}
use fastlint.Lint.Regex.Matches.{Among}
use fastlint.Lint.Regex.Search.{Finds, search_lem}
use fastlint.Lint.Regex.Spelled.{byte_terms-Through, Among-byte_terms, Contains}

-- No byte of it means anything but itself in a pattern.
abbrev pub is_plain : Bytes → Bool
is_plain [] = true
is_plain (c ∷ s) = not (mem c (codes ".^$([\\*+?|){")) && is_plain s

quantified_plain : (c : ℕ) (s : Bytes) → is_plain s ≡ true → quantified (char c) s ≡ (once, s)
unfolding quantified parse_quantifier
quantified_plain c [] h = refl
quantified_plain c (d ∷ s) h = ground arith

parse_atom_plain :
    (parse : Bytes → Parsed Alternatives) (c : ℕ) (s : Bytes)
    → mem c (codes ".^$([\\*+?|){") ≡ false
    → parse_atom parse c s ≡ ok (char c) s
unfolding parse_atom
parse_atom_plain parse c s h = ground arith

parse_sequence_plain :
    (fuel : ℕ) (s : Bytes)
    → is_plain s ≡ true
    → length s < fuel
    → parse_sequence fuel s ≡ ok (byte_terms s) []
unfolding parse_sequence byte_terms
parse_sequence_plain zero s h l = absurd (omega arith)
parse_sequence_plain (suc fuel) [] h l = refl
parse_sequence_plain (suc fuel) (c ∷ s) h l =
    let (head, tail) = and_true (not (mem c (codes ".^$([\\*+?|){"))) (is_plain s) h in
    let rest = parse_sequence_plain fuel s tail (omega arith) in
    rw
      (
        parse_atom_plain (parse_group fuel) c s (ground (arith, head)),
        quantified_plain c s tail,
        rest,
      )
      (ground (arith, head))

parse_group_plain :
    (fuel : ℕ) (s : Bytes)
    → is_plain s ≡ true
    → length s < fuel
    → parse_group (suc fuel) s ≡ ok (alternative (byte_terms s) none_left) []
unfolding parse_group another
parse_group_plain fuel s h l = rw (parse_sequence_plain fuel s h l)

-- A pattern of such bytes compiles to their sequence.
compile_plain :
    (s : Bytes)
    → is_plain s ≡ true
    → compile s []
      ≡ some record { root = alternative (byte_terms s) none_left; ignore_case = false }
unfolding compile finished flags_loop
compile_plain s h =
    let fuel : compile_fuel s ≡ suc (2 * length s + 1) = omega arith in
    let body : parse_group (compile_fuel s) s ≡ ok (alternative (byte_terms s) none_left) [] =
      ap (λ fuel. parse_group fuel s) fuel
      ∙ parse_group_plain (2 * length s + 1) s h (omega arith) in
    rw body

-- A pattern whose bytes all stand for themselves, compiled without flags, is found in exactly the
-- texts that hold it.
pub search_compiled_plain :
    (pattern text : Bytes)
    → is_plain pattern ≡ true
    → (search_compiled (compile pattern []) text ≡ true) ↔ Contains text pattern
unfolding search_compiled Contains Finds Among
search_compiled_plain pattern text h =
    let r : Regex = record {
      root = alternative (byte_terms pattern) none_left;
      ignore_case = false;
    } in
    let compiled = ap (λ c. search_compiled c text) (compile_plain pattern h) in
    let (found, there) = search_lem r text in
    (
      (λ e.
          let (start, last, within, m) = found (sym compiled ∙ e) in
          (start, within, Among-byte_terms text pattern start last m)),
      λ (pos, within, starts).
          compiled
          ∙ there (
            pos,
            pos + length pattern,
            within,
            inl (byte_terms-Through text pattern pos _ starts refl),
          ),
    )
