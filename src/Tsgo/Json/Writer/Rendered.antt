-- ===== src/Tsgo/Json/Writer/Rendered.antt =====
-- source/fastlint/tsgo/json.cc: the text that the calls of a writer leave.
use fastlint.Base.{
  ◌≡◌, refl, ap, Bool, true, false, List, [], ◌∷◌, ◌++◌, append_assoc, append-nil, Bytes, arith,
}
use fastlint.Tsgo.Json.Strings.{append_json_string}
use fastlint.Tsgo.Json.Value.{
  Value, null, boolean, number, string, array, object, Items, nil, cons, Members, end, member,
}
use fastlint.Tsgo.Json.Writer.{
  Writer, empty, emit, separate_in, separate, begin_object, end_object, begin_array, end_array, key,
  value_string, value_bool, value_null, raw, write_value, write_items, write_members, comma_if,
  render, render_items, render_members,
}

-- A writer with one array or object open at least, and no key just written.
abbrev inside : Bytes → Bool → List Bool → Writer
inside text b outer = record { out = text; has_value = b ∷ outer; after_key = false }

abbrev after : Bool → Items → Bool
after b nil = b
after b (cons v xs) = true

abbrev after_members : Bool → Members → Bool
after_members b end = b
after_members b (member k v ms) = true

separate-inside :
    (text : Bytes) (b : Bool) (outer : List Bool)
    → separate (inside text b outer) ≡ inside (text ++ comma_if b) true outer
unfolding separate separate_in
separate-inside text true outer = refl
separate-inside text false outer = rw append-nil

separate-after_key : (w : Writer) → (separate w).after_key ≡ false
unfolding separate separate_in
separate-after_key w = ground arith

begin_array-inside :
    (w : Writer)
    → begin_array w ≡ inside ((separate w).out ++ b'[' ∷ []) false (separate w).has_value
unfolding begin_array
begin_array-inside w = ground (arith, separate-after_key w)

begin_object-inside :
    (w : Writer)
    → begin_object w ≡ inside ((separate w).out ++ b'{' ∷ []) false (separate w).has_value
unfolding begin_object
begin_object-inside w = ground (arith, separate-after_key w)

end_array-inside :
    (w : Writer) (b : Bool) (text : Bytes)
    → end_array (inside (((separate w).out ++ b'[' ∷ []) ++ text) b (separate w).has_value)
      ≡ emit (b'[' ∷ (text ++ b']' ∷ [])) (separate w)
unfolding end_array
end_array-inside w b text = ground (
  arith,
  separate-after_key w,
  append_assoc (separate w).out (b'[' ∷ []) text,
  append_assoc (separate w).out (b'[' ∷ text) (b']' ∷ []),
)

end_object-inside :
    (w : Writer) (b : Bool) (text : Bytes)
    → end_object (inside (((separate w).out ++ b'{' ∷ []) ++ text) b (separate w).has_value)
      ≡ emit (b'{' ∷ (text ++ b'}' ∷ [])) (separate w)
unfolding end_object
end_object-inside w b text = ground (
  arith,
  separate-after_key w,
  append_assoc (separate w).out (b'{' ∷ []) text,
  append_assoc (separate w).out (b'{' ∷ text) (b'}' ∷ []),
)

-- A key, and the state in which its value is written.
separate-key :
    (k text : Bytes) (b : Bool) (outer : List Bool)
    → separate (key k (inside text b outer))
      ≡ inside ((text ++ comma_if b) ++ (append_json_string k ++ b':' ∷ [])) true outer
unfolding key separate separate_in
separate-key k text true outer = refl
separate-key k text false outer = rw append-nil

mutual
  unfolding write_value render value_null value_bool raw value_string

  write_value-render : (v : Value) (w : Writer) → write_value v w ≡ emit (render v) (separate w)
  write_value-render null w = refl
  write_value-render (boolean true) w = refl
  write_value-render (boolean false) w = refl
  write_value-render (number text) w = refl
  write_value-render (string text) w = refl
  write_value-render (array xs) w =
      rw (begin_array-inside, write_items-render xs) (end_array-inside w _ (render_items false xs))
  write_value-render (object ms) w =
      rw (begin_object-inside, write_members-render ms)
        (end_object-inside w _ (render_members false ms))

  write_items-render :
      (xs : Items) (text : Bytes) (b : Bool) (outer : List Bool)
      → write_items xs (inside text b outer) ≡ inside (text ++ render_items b xs) (after b xs) outer
  write_items-render nil text b outer = rw append-nil
  write_items-render (cons v nil) text b outer =
      simp (write_value-render v, separate-inside, append_assoc, append-nil)
  write_items-render (cons v (cons u xs)) text b outer =
      simp (write_value-render v, separate-inside, write_items-render (cons u xs), append_assoc)

  write_members-render :
      (ms : Members) (text : Bytes) (b : Bool) (outer : List Bool)
      → write_members ms (inside text b outer)
        ≡ inside (text ++ render_members b ms) (after_members b ms) outer
  write_members-render end text b outer = rw append-nil
  write_members-render (member k v end) text b outer =
      simp (write_value-render v, separate-key, append_assoc, append-nil)
  write_members-render (member k v (member j u ms)) text b outer =
      simp (write_value-render v, separate-key, write_members-render (member j u ms), append_assoc)

-- Whatever was written before, the calls that write a value add exactly the value's text, behind a
-- comma where the innermost array or object had a value and no key was just written; that array or
-- object then has a value, and what is open is as before.
pub write_value_lem : (v : Value) (w : Writer) → write_value v w ≡ emit (render v) (separate w)
write_value_lem v w = write_value-render v w

pub write_value-out : (v : Value) → (write_value v empty).out ≡ render v
unfolding separate separate_in
write_value-out v = ap (λ (w : Writer). w.out) (write_value-render v empty)
