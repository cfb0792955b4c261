-- ===== src/Lint/Regex/Examples.antt =====
-- source/fastlint/lint/regex.cc at concrete patterns and texts.
use fastlint.Base.{◌≡◌, ◌≢◌, ◌↔◌, refl, Bool, true, false, none, [], ◌∷◌, Bytes, codes, arith}
use fastlint.Lint.Regex.{
  search_from, match_repeat, match_any, test_at, in_class, in_ranges, at_word_boundary, Regex, char,
  group, stop, term, none_left, alternative, search,
}
use fastlint.Lint.Regex.Bracket.{
  parse_class, class_items, class_low, class_item, class_high, high_end, named_class, class_escape,
  out_of_fuel,
}
use fastlint.Lint.Regex.Escape.{escape_char, encode_utf8}
use fastlint.Lint.Regex.Quantity.{
  once, parse_quantifier, counted, digits_loop, close_count, upper_bound, lazy,
}
use fastlint.Lint.Regex.Compile.{
  flags_loop, finished, parse_atom, quantified, open_group, another, parse_escape, escaped_class,
  close_group, byte_terms, compile, parse_group, compile_fuel, search_compiled,
}
use fastlint.Lint.Regex.Search.{Finds, search_lem}
use fastlint.Lint.Regex.Spelled.{Contains}
use fastlint.Lint.Regex.Literal.{search_compiled_plain}
use fastlint.Lint.Regex.Escaped.{search_compiled_escaped}
use fastlint.Lint.Regex.Total.{parse_group_total}

abbrev hits : Bytes → Bytes → Bool
hits pattern text = search_compiled (compile pattern []) text

-- Repetitions with bounds, classes and word boundaries, an iteration that reads nothing, and a
-- lookahead, which is refused.
regex_tests :
    (hits (codes "^a{2,3}(b|\\d)+$") (codes "aab7") ≡ true)
    × (hits (codes "^a{2,3}(b|\\d)+$") (codes "ab7") ≡ false)
    × (hits (codes "[^a-c]\\b") (codes "abx cab") ≡ true)
    × (hits (codes "(a*)*b") (codes "aaab") ≡ true)
    × (compile (codes "a(?=b)") [] ≡ none)
unfolding compile search_compiled flags_loop finished parse_group parse_atom parse_class class_items
    class_low class_item class_high high_end quantified parse_quantifier counted digits_loop
    close_count upper_bound lazy open_group another parse_escape escape_char escaped_class
    close_group named_class class_escape search search_from match_any match_repeat test_at in_class
    in_ranges at_word_boundary byte_terms
regex_tests = (refl, refl, refl, refl, refl)

-- `(a|)+b`, the group with an empty alternative.
abbrev some_as : Regex
some_as = record {
  root =
      alternative
        (term (group (alternative (term (char b'a') once stop) (alternative stop none_left)))
          (record { min = 1; max = none; greedy = true }) (term (char b'b') once stop))
        none_left;
  ignore_case = false;
}

search_lem_example : (search some_as (codes "xaab") ≡ true) ↔ Finds some_as (codes "xaab")
search_lem_example = search_lem some_as (codes "xaab")

parse_group_total_example :
    parse_group (compile_fuel (codes "a(b|[c-e]{2})*")) (codes "a(b|[c-e]{2})*") ≢ out_of_fuel
parse_group_total_example = parse_group_total (codes "a(b|[c-e]{2})*")

search_compiled_plain_example :
    (search_compiled (compile (codes "TODO") []) (codes "// TODO: x") ≡ true)
    ↔ Contains (codes "// TODO: x") (codes "TODO")
search_compiled_plain_example = search_compiled_plain (codes "TODO") (codes "// TODO: x") refl

search_compiled_escaped_example :
    (search_compiled (compile (b'\\' ∷ 0xE9 ∷ []) []) (0xE9 ∷ []) ≡ true)
    ↔ Contains (0xE9 ∷ []) (encode_utf8 0xE9)
search_compiled_escaped_example = search_compiled_escaped 0xE9 (0xE9 ∷ []) (omega arith)
