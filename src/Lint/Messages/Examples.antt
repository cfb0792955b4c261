-- ===== src/Lint/Messages/Examples.antt =====
-- source/fastlint/lint/linter.cc: columns and messages at concrete texts.
use fastlint.Base.{◌+◌, ◌≡◌, refl, List, [], ◌∷◌, ◌++◌, codes, length}
use fastlint.Lint.Columns.{utf16_column, units_loop, encode_all, all_units, utf16_column-encode_all}
use fastlint.Lint.Regex.Escape.{encode_utf8}
use fastlint.Lint.Messages.{
  Placeholder, interpolate, interpolate_loop, split_pair, replaced, value_of, trim_front, trim_back,
}
use fastlint.Lint.Messages.Filled.{Message, last, hole, spell, fill, interpolate-spell}

-- A line with an accented letter and an emoji in front of the place.
utf16_column-encode_all_example :
    utf16_column
      (codes "x;\n" ++ (encode_all (0xE9 ∷ 0x1F600 ∷ []) ++ codes "y"))
      (length (codes "x;\n"))
      (length (codes "x;\n") + length (encode_all (0xE9 ∷ 0x1F600 ∷ [])))
    ≡ all_units (0xE9 ∷ 0x1F600 ∷ []) + 1
utf16_column-encode_all_example =
    utf16_column-encode_all (codes "x;\n") (codes "y") (0xE9 ∷ 0x1F600 ∷ [])

column_test : utf16_column (encode_utf8 0x1F600 ++ codes "y") 0 4 ≡ 3
unfolding utf16_column units_loop encode_utf8
column_test = refl

abbrev the_name : List Placeholder
the_name = record { name = codes "name"; value = codes "foo" } ∷ []

abbrev unused : Message
unused =
    hole (codes "'") 1 (codes "name") 1 (hole (codes "' is ") 0 (codes "how") 0 (last (codes ".")))

interpolate_test :
    interpolate the_name (codes "'{{ name }}' is {{how}}.") ≡ codes "'foo' is {{how}}."
unfolding interpolate interpolate_loop split_pair replaced value_of trim_front trim_back
interpolate_test = refl

interpolate-spell_example : interpolate the_name (spell unused) ≡ fill the_name unused
interpolate-spell_example = interpolate-spell the_name unused refl
