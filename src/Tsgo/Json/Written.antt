-- ===== src/Tsgo/Json/Written.antt =====
-- source/fastlint/tsgo/json.cc: which values are written so that they can be read, and how their texts begin.
use Prim.Native.Nat.{max}
use fastlint.Base.{
  ℕ, suc, ◌≤◌, ◌≡◌, refl, true, false, none, [], ◌∷◌, ◌++◌, append_assoc, arith, Bytes, codes, ◌==◌,
  length, length-append,
}
use fastlint.Tsgo.Json.Strings.{ok, quote, escape_all, escape_char, append_json_string}
use fastlint.Tsgo.Json.Strings.RoundTrip.{string_loop-escape_all}
use fastlint.Tsgo.Json.Value.{
  Value, null, boolean, number, string, array, object, Items, nil, cons, Members, end, member,
}
use fastlint.Tsgo.Json.Numbers.Spelled.{IsInteger}
use fastlint.Tsgo.Json.Parse.{is_space, skip_space, parse_string, array_end}
use fastlint.Tsgo.Json.Writer.{render, render_items, render_members}

unfoldable mutual
  pub Writable : Value → Type 0
  Writable (number text) = IsInteger text
  Writable (array xs) = Writables xs
  Writable (object ms) = WritableMembers ms
  Writable _ = Unit

  pub Writables : Items → Type 0
  Writables nil = Unit
  Writables (cons v xs) = Writable v × Writables xs

  pub WritableMembers : Members → Type 0
  WritableMembers end = Unit
  WritableMembers (member k v ms) = Writable v × WritableMembers ms

-- How deep arrays and objects are nested inside a value.
unfoldable mutual
  pub depth : Value → ℕ
  depth (array xs) = depth_items xs
  depth (object ms) = depth_members ms
  depth _ = 0

  pub depth_items : Items → ℕ
  depth_items nil = 0
  depth_items (cons v xs) = max (suc (depth v)) (depth_items xs)

  pub depth_members : Members → ℕ
  depth_members end = 0
  depth_members (member k v ms) = max (suc (depth v)) (depth_members ms)

-- The text of a value begins with a character that is no space and closes nothing.
record Opens (text : Bytes) : Type 0 where
  head : ℕ
  tail : Bytes
  spelled : text ≡ head ∷ tail
  no_space : is_space head ≡ false
  no_close : (head == b']') ≡ false

render-Opens : (v : Value) (rest : Bytes) → Writable v → Opens (render v ++ rest)
unfolding render Writable append_json_string
render-Opens null rest h = record {
  head = b'n';
  tail = codes "ull" ++ rest;
  spelled = refl;
  no_space = refl;
  no_close = refl;
}
render-Opens (boolean true) rest h = record {
  head = b't';
  tail = codes "rue" ++ rest;
  spelled = refl;
  no_space = refl;
  no_close = refl;
}
render-Opens (boolean false) rest h = record {
  head = b'f';
  tail = codes "alse" ++ rest;
  spelled = refl;
  no_space = refl;
  no_close = refl;
}
render-Opens (number []) rest h = absurd h
render-Opens (number (c ∷ [])) rest h = record {
  head = c;
  tail = rest;
  spelled = refl;
  no_space = ground arith;
  no_close = ground arith;
}
render-Opens (number (c ∷ d ∷ s)) rest h = record {
  head = c;
  tail = d ∷ (s ++ rest);
  spelled = refl;
  no_space = ground arith;
  no_close = ground arith;
}
render-Opens (string text) rest h = record {
  head = quote;
  tail = (escape_all text ++ quote ∷ []) ++ rest;
  spelled = refl;
  no_space = refl;
  no_close = refl;
}
render-Opens (array xs) rest h = record {
  head = b'[';
  tail = (render_items false xs ++ b']' ∷ []) ++ rest;
  spelled = refl;
  no_space = refl;
  no_close = refl;
}
render-Opens (object ms) rest h = record {
  head = b'{';
  tail = (render_members false ms ++ b'}' ∷ []) ++ rest;
  spelled = refl;
  no_space = refl;
  no_close = refl;
}

pub skip_space-render :
    (v : Value) (rest : Bytes) → Writable v → skip_space (render v ++ rest) ≡ render v ++ rest
unfolding skip_space
skip_space-render v rest h = let o = render-Opens v rest h in rw o.spelled (rw o.no_space refl)

pub array_end-render : (v : Value) (rest : Bytes) → Writable v → array_end (render v ++ rest) ≡ none
unfolding array_end
array_end-render v rest h = let o = render-Opens v rest h in rw o.spelled (rw o.no_close refl)

escape_char-pos : (c : ℕ) → 1 ≤ length (escape_char c)
unfolding escape_char
escape_char-pos c = ground arith

escape_all-length : (s : Bytes) → length s ≤ length (escape_all s)
unfolding escape_all
escape_all-length [] = omega arith
escape_all-length (c ∷ s) =
    omega
      (arith, escape_char-pos c, escape_all-length s, length-append (escape_char c) (escape_all s))

pub parse_string-append :
    (s rest : Bytes) → parse_string ((escape_all s ++ quote ∷ []) ++ rest) ≡ ok s rest
unfolding parse_string
parse_string-append s rest = rw (append_assoc (escape_all s) (quote ∷ []) rest) (
    string_loop-escape_all s rest [] _
      (omega (arith, escape_all-length s, length-append (escape_all s) (quote ∷ rest))))
