-- ===== src/Tsgo/Json/Examples.antt =====
-- Runs of source/fastlint/tsgo/json.cc, and its theorems at concrete texts.
use fastlint.Base.{inl, ◌≡◌, ◌≢◌, refl, true, false, [], ◌∷◌, ◌++◌, arith, codes}
use fastlint.Tsgo.Json.Strings.{ok, out_of_fuel}
use fastlint.Tsgo.Json.Value.{
  Value, null, boolean, number, string, array, object, nil, cons, end, member,
}
use fastlint.Tsgo.Json.Parse.{parse_document}
use fastlint.Tsgo.Json.Parse.Total.{parse_document_total}
use fastlint.Tsgo.Json.Writer.{Writer, empty, emit, separate, write_value, render}
use fastlint.Tsgo.Json.Writer.Rendered.{write_value_lem}
use fastlint.Tsgo.Json.Written.{Writable, depth}
use fastlint.Tsgo.Json.RoundTrip.{parse_document-write_value}

abbrev sample : Value
sample = object (
    member (codes "ok") (boolean true) (
      member (codes "list") (array (cons (number (codes "-12")) (cons null nil)))
        (member (codes "text") (string (codes "a\"b" ++ 10 ∷ [])) end)))

abbrev listing : Writer
listing = record { out = codes "[1"; has_value = true ∷ []; after_key = false }

parse_document_total_example : parse_document (codes "[1, {\"a\": tru") ≢ out_of_fuel
parse_document_total_example = parse_document_total (codes "[1, {\"a\": tru")

write_value_lem_example : write_value sample listing ≡ emit (render sample) (separate listing)
write_value_lem_example = write_value_lem sample listing

parse_document-write_value_example : parse_document (write_value sample empty).out ≡ ok sample []
unfolding Writable depth
parse_document-write_value_example =
    parse_document-write_value sample
      (tt, (((inl refl, refl, (refl, tt), omega arith), (tt, tt)), (tt, tt))) (omega arith)
