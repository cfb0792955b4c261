-- ===== src/Types/Graph/Strings.antt =====
-- source/fastlint/types/type_graph.cc: interned texts.
use fastlint.Base.{
  ℕ, ◌<◌, ◌≡◌, refl, sym, ap, ◌∙◌, inl, inr, some, [], ◌∷◌, arith, Bytes, ◌==◌, if◌then◌else◌,
  length, length-append, get_or, get_or-append_left, get_or-append_right, Bool-cases, Option-cases,
}
use fastlint.Types.Hasher.{text_key}
use fastlint.Types.Graph.{lookup, TypeGraph, append_string, intern_string, text_of}

abbrev pub string_at : TypeGraph → ℕ → Bytes
string_at g i = get_or g.strings i []

-- Each entry of the index leads to a text with that hash.
pub record IsTexts (g : TypeGraph) : Type 0 where
  pub indexed :
      (key i : ℕ)
      → lookup key g.string_by_hash ≡ some i
      → (0 < i) × (i < length g.strings) × (text_key (string_at g i) ≡ key)
  pub nonempty : 0 < length g.strings

-- No interned text has the hash of this one by accident.
abbrev pub NoCollision : TypeGraph → Bytes → Type 0
NoCollision g text =
    (i : ℕ) → i < length g.strings → text_key (string_at g i) ≡ text_key text → string_at g i ≡ text

lookup-append_string :
    (k : ℕ) (text : Bytes) (g : TypeGraph)
    → lookup k (append_string text g).string_by_hash
      ≡ (if text_key text == k then some (length g.strings) else lookup k g.string_by_hash)
unfolding lookup
lookup-append_string k text g = refl

append_string-old :
    (text : Bytes) (g : TypeGraph) (i : ℕ)
    → i < length g.strings
    → string_at (append_string text g) i ≡ string_at g i
append_string-old text g i h = get_or-append_left g.strings _ i [] h

append_string-new :
    (text : Bytes) (g : TypeGraph) → string_at (append_string text g) (length g.strings) ≡ text
append_string-new text g = get_or-append_right g.strings _ (length g.strings) 0 [] (omega arith)

append_string-IsTexts : (text : Bytes) (g : TypeGraph) → IsTexts g → IsTexts (append_string text g)
append_string-IsTexts text g x =
    let size = length-append g.strings (text ∷ []) in
    record {
      indexed = λ k i e. elim (Bool-cases (text_key text == k)) [
        | inl same ↦
            let here : length g.strings ≡ i =
              ground (arith, same, e, lookup-append_string k text g) in
            (
              omega (arith, x.nonempty),
              omega (arith, size),
              ap (λ j. text_key (string_at (append_string text g) j)) (sym here)
                  ∙ ap text_key (append_string-new text g)
                  ∙ ground (arith, same),
            )
        | inr other ↦
            let y = x.indexed k i (ground (arith, other, e, lookup-append_string k text g)) in
            (y.0, omega (arith, size, y.1), ap text_key (append_string-old text g i y.1) ∙ y.2)
      ];
      nonempty = omega (arith, size);
    }

text_of-string_at :
    (g : TypeGraph) (i : ℕ) → 0 < i → i < length g.strings → text_of g i ≡ string_at g i
unfolding text_of
text_of-string_at g i low high = ground arith

-- What interning a text gives.
pub record IsInterned (g : TypeGraph) (text : Bytes) (r : ℕ × TypeGraph) : Type 0 where
  pub found : text_of r.1 r.0 ≡ text
  pub kept : (i : ℕ) → i < length g.strings → text_of r.1 i ≡ text_of g i
  pub texts : IsTexts r.1

append_string-kept :
    (text : Bytes) (g : TypeGraph) (i : ℕ)
    → i < length g.strings
    → text_of (append_string text g) i ≡ text_of g i
unfolding text_of
append_string-kept text g i h =
    rw (append_string-old text g i h) (ground (arith, length-append g.strings (text ∷ [])))

-- Where no other text has its hash, a text that is interned is read back under its id, every id that
-- was given before still stands for its text, and the index stays right.
pub intern_string-IsInterned :
    (text : Bytes) (g : TypeGraph)
    → IsTexts g
    → NoCollision g text
    → IsInterned g text (intern_string text g)
unfolding intern_string
intern_string-IsInterned text g x free =
    elim (Option-cases (lookup (text_key text) g.string_by_hash)) [
      | inr (id, e) ↦
          let y = x.indexed (text_key text) id e in
          rw (intern_string, e)
            (record {
              found = text_of-string_at g id y.0 y.1 ∙ free id y.1 y.2;
              kept = λ i h. refl;
              texts = x;
            })
      | inl e ↦
          rw (intern_string, e)
            (record {
              found =
                  text_of-string_at (append_string text g) (length g.strings) x.nonempty
                    (omega (arith, length-append g.strings (text ∷ [])))
                  ∙ append_string-new text g;
              kept = append_string-kept text g;
              texts = append_string-IsTexts text g x;
            })
    ]
