-- ===== src/Tsgo/Json/Steps.antt =====
-- source/fastlint/tsgo/json.cc: the steps of the parser over a written array or object.
use fastlint.Base.{
  ℕ, suc, ◌+◌, ◌≤◌, ◌<◌, ◌≡◌, refl, true, false, [], ◌∷◌, ◌++◌, append_assoc, arith, Bytes, length,
  length-append,
}
use fastlint.Tsgo.Json.Strings.{ok, quote, escape_all, append_json_string}
use fastlint.Tsgo.Json.Value.{Value, array, object, Items, nil, cons, Members, end, member}
use fastlint.Tsgo.Json.Parse.{
  max_depth, skip_space, array_end, object_end, open_quote, colon, after_item, after_member,
  parse_value, parse_array, array_loop, parse_object, object_loop,
}
use fastlint.Tsgo.Json.Writer.{render, render_members}
use fastlint.Tsgo.Json.Written.{Writable, skip_space-render, array_end-render, parse_string-append}

abbrev pub NonEmpty : Items → Type 0
NonEmpty nil = ⊥
NonEmpty (cons v xs) = Unit

abbrev pub NonEmptyMembers : Members → Type 0
NonEmptyMembers end = ⊥
NonEmptyMembers (member k v ms) = Unit

pub parse_value-array :
    (fuel d : ℕ) (text rest : Bytes) (v : Value)
    → d ≤ max_depth
    → parse_array fuel d text ≡ ok v rest
    → parse_value (suc fuel) d (b'[' ∷ text) ≡ ok v rest
unfolding parse_value
parse_value-array fuel d text rest v h e = ground arith

pub parse_value-object :
    (fuel d : ℕ) (text rest : Bytes) (v : Value)
    → d ≤ max_depth
    → parse_object fuel d text ≡ ok v rest
    → parse_value (suc fuel) d (b'{' ∷ text) ≡ ok v rest
unfolding parse_value
parse_value-object fuel d text rest v h e = ground arith

pub parse_array-nil :
    (fuel d : ℕ) (rest : Bytes) → parse_array (suc fuel) d (b']' ∷ rest) ≡ ok (array nil) rest
unfolding parse_value skip_space array_end
parse_array-nil fuel d rest = refl

pub parse_array-items :
    (fuel d : ℕ) (v : Value) (xs : Items) (more rest : Bytes)
    → Writable v
    → array_loop fuel d (render v ++ more) ≡ ok xs rest
    → parse_array (suc fuel) d (render v ++ more) ≡ ok (array xs) rest
unfolding parse_value
parse_array-items fuel d v xs more rest h e =
    ground (arith, skip_space-render v more, array_end-render v more, e)

-- The loop at its last item, and at an item that another follows.
pub array_loop-last :
    (fuel d : ℕ) (v : Value) (rest : Bytes)
    → Writable v
    → parse_value fuel (d + 1) (render v ++ b']' ∷ rest) ≡ ok v (b']' ∷ rest)
    → array_loop (suc fuel) d (render v ++ b']' ∷ rest) ≡ ok (cons v nil) rest
unfolding parse_value
array_loop-last fuel d v rest h e =
    rw (skip_space-render v (b']' ∷ rest) h) (rw e (unfold skip_space after_item in refl))

pub array_loop-more :
    (fuel d : ℕ) (v : Value) (xs : Items) (more rest : Bytes)
    → Writable v
    → parse_value fuel (d + 1) (render v ++ b',' ∷ more) ≡ ok v (b',' ∷ more)
    → array_loop fuel d more ≡ ok xs rest
    → array_loop (suc fuel) d (render v ++ b',' ∷ more) ≡ ok (cons v xs) rest
unfolding parse_value
array_loop-more fuel d v xs more rest h e l =
    rw (skip_space-render v (b',' ∷ more) h) (rw e (unfold skip_space after_item in rw l refl))

pub parse_object-end :
    (fuel d : ℕ) (rest : Bytes) → parse_object (suc fuel) d (b'}' ∷ rest) ≡ ok (object end) rest
unfolding parse_value skip_space object_end
parse_object-end fuel d rest = refl

-- A member's text up to its value.
abbrev named : Bytes → Bytes → Bytes
named k text = quote ∷ ((escape_all k ++ quote ∷ []) ++ b':' ∷ text)

pub parse_object-members :
    (fuel d : ℕ) (k : Bytes) (ms : Members) (more rest : Bytes)
    → object_loop fuel d (named k more) ≡ ok ms rest
    → parse_object (suc fuel) d (named k more) ≡ ok (object ms) rest
unfolding parse_value skip_space object_end
parse_object-members fuel d k ms more rest e = rw e refl

pub object_loop-last :
    (fuel d : ℕ) (k : Bytes) (v : Value) (rest : Bytes)
    → Writable v
    → parse_value fuel (d + 1) (render v ++ b'}' ∷ rest) ≡ ok v (b'}' ∷ rest)
    → object_loop (suc fuel) d (named k (render v ++ b'}' ∷ rest)) ≡ ok (member k v end) rest
unfolding parse_value
object_loop-last fuel d k v rest h e =
    unfold skip_space open_quote colon after_member in
    rw parse_string-append (rw (skip_space-render v (b'}' ∷ rest) h) (rw e refl))

pub object_loop-more :
    (fuel d : ℕ) (k : Bytes) (v : Value) (ms : Members) (more rest : Bytes)
    → Writable v
    → parse_value fuel (d + 1) (render v ++ b',' ∷ more) ≡ ok v (b',' ∷ more)
    → object_loop fuel d more ≡ ok ms rest
    → object_loop (suc fuel) d (named k (render v ++ b',' ∷ more)) ≡ ok (member k v ms) rest
unfolding parse_value
object_loop-more fuel d k v ms more rest h e l =
    unfold skip_space open_quote colon after_member in
    rw parse_string-append (rw (skip_space-render v (b',' ∷ more) h) (rw e (rw l refl)))

pub members-named :
    (k : Bytes) (v : Value) (ms : Members) (rest : Bytes)
    → render_members false (member k v ms) ++ rest
      ≡ named k (render v ++ (render_members true ms ++ rest))
unfolding render append_json_string
members-named k v ms rest = simp append_assoc

pub named-length : (k text : Bytes) → length text < length (named k text)
named-length k text = omega (arith, length-append (escape_all k ++ quote ∷ []) (b':' ∷ text))
