-- ===== src/Tsgo/Json/RoundTrip.antt =====
-- source/fastlint/tsgo/json.cc: `JsonDocument::parse` on the text of a `JsonWriter`.
use mathlib.Core.Path.{subst}
use fastlint.Base.{
  ℕ, zero, suc, ◌+◌, ◌*◌, ◌≤◌, ◌≡◌, refl, ap, true, false, [], ◌∷◌, ◌++◌, append_assoc, append-nil,
  arith, Bytes, length, length-append,
}
use fastlint.Tsgo.Json.Strings.{ok, append_json_string}
use fastlint.Tsgo.Json.Value.{
  Value, null, boolean, number, string, array, object, Items, nil, cons, Members, end, member,
}
use fastlint.Tsgo.Json.Numbers.Spelled.{number_end, parse_number-append}
use fastlint.Tsgo.Json.Parse.{
  max_depth, skip_space, consume_word, word, parse_scalar, parse_value, array_loop, object_loop,
  document_end, enough, parse_document,
}
use fastlint.Tsgo.Json.Writer.{empty, write_value, render, render_items, render_members}
use fastlint.Tsgo.Json.Writer.Rendered.{write_value-out}
use fastlint.Tsgo.Json.Written.{
  Writable, Writables, WritableMembers, depth, depth_items, depth_members, skip_space-render,
  parse_string-append,
}
use fastlint.Tsgo.Json.Steps.{
  NonEmpty, NonEmptyMembers, parse_value-array, parse_value-object, parse_array-nil,
  parse_array-items, array_loop-last, array_loop-more, parse_object-end, parse_object-members,
  object_loop-last, object_loop-more, members-named, named-length,
}

mutual
  unfolding parse_value parse_scalar word consume_word render Writable depth append_json_string

  parse_value-render :
      (fuel d : ℕ) (v : Value) (rest : Bytes)
      → Writable v
      → d + depth v ≤ max_depth
      → number_end rest ≡ true
      → length (render v ++ rest) * 3 + 1 ≤ fuel
      → parse_value fuel d (render v ++ rest) ≡ ok v rest
  parse_value-render zero d v rest h k e f = absurd (omega arith)
  parse_value-render (suc fuel) d null rest h k e f = ground arith
  parse_value-render (suc fuel) d (boolean true) rest h k e f = ground arith
  parse_value-render (suc fuel) d (boolean false) rest h k e f = ground arith
  parse_value-render (suc fuel) d (number []) rest h k e f = absurd h
  parse_value-render (suc fuel) d (number (c ∷ [])) rest h k e f =
      ground (arith, parse_number-append (c ∷ []) rest)
  parse_value-render (suc fuel) d (number (c ∷ x ∷ s)) rest h k e f =
      ground (arith, parse_number-append (c ∷ x ∷ s) rest)
  parse_value-render (suc fuel) d (string text) rest h k e f =
      ground (arith, parse_string-append text rest)
  parse_value-render (suc zero) d (array xs) rest h k e f = absurd (omega arith)
  parse_value-render (suc (suc fuel)) d (array nil) rest h k e f =
      ground (arith, parse_array-nil fuel d rest)
  parse_value-render (suc (suc fuel)) d (array (cons v xs)) rest h k e f =
      let text = render_items false (cons v xs) in
      let shape = append_assoc text (b']' ∷ []) rest in
      let inner = append_assoc (render v) (render_items true xs) (b']' ∷ rest) in
      let size = ap length shape in
      let loop =
        array_loop-render fuel d (cons v xs) rest tt h (omega arith) (omega (arith, size)) in
      parse_value-array (suc fuel) d _ rest (array (cons v xs)) (omega arith) (
        rw (shape, inner)
          (parse_array-items fuel d v (cons v xs) (render_items true xs ++ b']' ∷ rest) rest h.0
            (rw inner at loop)))
  parse_value-render (suc zero) d (object ms) rest h k e f = absurd (omega arith)
  parse_value-render (suc (suc fuel)) d (object end) rest h k e f =
      parse_value-object (suc fuel) d _ rest (object end) (omega arith)
        (parse_object-end fuel d rest)
  parse_value-render (suc (suc fuel)) d (object (member j v ms)) rest h k e f =
      let text = render_members false (member j v ms) in
      let shape = append_assoc text (b'}' ∷ []) rest in
      let size = ap length shape in
      let inner = members-named j v ms (b'}' ∷ rest) in
      let loop =
        object_loop-render fuel d (member j v ms) rest tt h (omega arith) (omega (arith, size)) in
      parse_value-object (suc fuel) d _ rest (object (member j v ms)) (omega arith) (
        rw (shape, inner) (parse_object-members fuel d j (member j v ms) _ rest (rw inner at loop)))

  array_loop-render :
      (fuel d : ℕ) (xs : Items) (rest : Bytes)
      → NonEmpty xs
      → Writables xs
      → d + depth_items xs ≤ max_depth
      → length (render_items false xs ++ b']' ∷ rest) * 3 + 2 ≤ fuel
      → array_loop fuel d (render_items false xs ++ b']' ∷ rest) ≡ ok xs rest
  array_loop-render zero d xs rest n h k f = absurd (omega arith)
  array_loop-render (suc fuel) d nil rest n h k f = absurd n
  array_loop-render (suc fuel) d (cons v nil) rest n h k f =
      let shape = append_assoc (render v) [] (b']' ∷ rest) in
      let size = ap length shape in
      rw shape (
        array_loop-last fuel d v rest h.0 (
          parse_value-render fuel (d + 1) v (b']' ∷ rest) h.0 (omega arith) refl
            (omega (arith, size))))
  array_loop-render (suc fuel) d (cons v (cons u xs)) rest n h k f =
      let more = render_items false (cons u xs) ++ b']' ∷ rest in
      let shape = append_assoc (render v) (render_items true (cons u xs)) (b']' ∷ rest) in
      let size = ap length shape in
      rw shape (
        array_loop-more fuel d v (cons u xs) more rest h.0
          (parse_value-render fuel (d + 1) v (b',' ∷ more) h.0 (omega arith) refl
            (omega (arith, size)))
          (array_loop-render fuel d (cons u xs) rest tt h.1 (omega arith)
            (omega (arith, size, length-append (render v) (b',' ∷ more)))))

  object_loop-render :
      (fuel d : ℕ) (ms : Members) (rest : Bytes)
      → NonEmptyMembers ms
      → WritableMembers ms
      → d + depth_members ms ≤ max_depth
      → length (render_members false ms ++ b'}' ∷ rest) * 3 + 2 ≤ fuel
      → object_loop fuel d (render_members false ms ++ b'}' ∷ rest) ≡ ok ms rest
  object_loop-render zero d ms rest n h k f = absurd (omega arith)
  object_loop-render (suc fuel) d end rest n h k f = absurd n
  object_loop-render (suc fuel) d (member j v end) rest n h k f =
      let shape = members-named j v end (b'}' ∷ rest) in
      let size = ap length shape in
      rw shape (
        object_loop-last fuel d j v rest h.0 (
          parse_value-render fuel (d + 1) v (b'}' ∷ rest) h.0 (omega arith) refl
            (omega (arith, size, named-length j (render v ++ b'}' ∷ rest)))))
  object_loop-render (suc fuel) d (member j v (member i u ms)) rest n h k f =
      let more = render_members false (member i u ms) ++ b'}' ∷ rest in
      let shape = members-named j v (member i u ms) (b'}' ∷ rest) in
      let size = ap length shape in
      let inside = named-length j (render v ++ b',' ∷ more) in
      rw shape (
        object_loop-more fuel d j v (member i u ms) more rest h.0
          (parse_value-render fuel (d + 1) v (b',' ∷ more) h.0 (omega arith) refl
            (omega (arith, size, inside)))
          (object_loop-render fuel d (member i u ms) rest tt h.1 (omega arith)
            (omega (arith, size, inside, length-append (render v) (b',' ∷ more)))))

-- A value whose numbers are spelled as integers of fewer than 64 bytes, and whose arrays and objects
-- are nested at most 512 deep, is read back as itself from the text that a writer makes of it.
pub parse_document-write_value :
    (v : Value)
    → Writable v
    → depth v ≤ max_depth
    → parse_document (write_value v empty).out ≡ ok v []
unfolding parse_document
parse_document-write_value v h k =
    let text = render v in
    let nothing = append-nil text in
    let spaces : skip_space text ≡ text =
      subst (λ t. skip_space t ≡ t) nothing (skip_space-render v [] h) in
    let value : parse_value (enough text) 0 text ≡ ok v [] =
      subst (λ t. parse_value (enough text) 0 t ≡ ok v []) nothing
        (parse_value-render (enough text) 0 v [] h (omega arith) refl
          (omega (arith, ap length nothing))) in
    rw (write_value-out v) (rw spaces (rw value (unfold skip_space document_end in refl)))
