-- ===== src/Lint/Glob/Groups.antt =====
-- source/fastlint/lint/glob.cc: where the first group of a pattern is, and its alternatives.
use fastlint.Base.{
  ℕ, ◌≡◌, refl, sym, ap, ◌∙◌, inl, inr, Bool, true, false, not, ◌&&◌, none, some, List, [], ◌∷◌,
  ◌++◌, arith, Bytes, ◌==◌, if◌then◌else◌, and_true, Bool-cases, Option-cases,
}
use mathlib.Core.Path.{subst}
use mathlib.Core.Option.{some-injective}
use fastlint.Lint.Text.{split_commas}
use fastlint.Lint.Glob.{split_at, split_braces}

abbrev pub absent : ℕ → Bytes → Bool
absent c [] = true
absent c (b ∷ s) = not (b == c) && absent c s

-- The first brace of the pattern opens a group, which the next closing brace ends.
pub record IsGroup (pattern head body tail : Bytes) : Type 0 where
  pub spelled : pattern ≡ head ++ (b'{' ∷ (body ++ (b'}' ∷ tail)))
  pub first : absent b'{' head ≡ true
  pub closed : absent b'}' body ≡ true

-- Texts without commas, and the text that they make with a comma between each two.
pub data Joined : List Bytes → Bytes → Type 0 where
  single : {a : Bytes} → absent b',' a ≡ true → Joined (a ∷ []) a
  several :
      {a s : Bytes} {as' : List Bytes}
      → absent b',' a ≡ true
      → Joined as' s
      → Joined (a ∷ as') (a ++ (b',' ∷ s))

split_at_sound :
    (c : ℕ) (s x y : Bytes) → split_at c s ≡ some (x, y) → (s ≡ x ++ (c ∷ y)) × (absent c x ≡ true)
unfolding split_at
split_at_sound c [] x y h = absurd cc
split_at_sound c (b ∷ s) x y h = elim (Bool-cases (b == c)) [
  | inl e ↦
      let same : b ≡ c = ground (arith, e) in
      let f : some ([], s) ≡ some (x, y) = rw e at h in
      let g = some-injective _ _ f in
      let k : x ≡ [] = sym (ap (λ z. z.0) g) in
      let l : y ≡ s = sym (ap (λ z. z.1) g) in (rw (same, k, l) refl, rw k refl)
  | inr e ↦ elim (Option-cases (split_at c s)) [
    | inl f ↦ absurd (let g : none ≡ some (x, y) = rw (e, f) at h in cc)
    | inr (z, f) ↦
        let (u, v) = split_at_sound c s z.0 z.1 f in
        let g : (b ∷ z.0, z.1) ≡ (x, y) = some-injective _ _ (rw (e, f) at h) in
        let k : x ≡ b ∷ z.0 = sym (ap (λ z. z.0) g) in
        let l : y ≡ z.1 = sym (ap (λ z. z.1) g) in (rw (k, l) (ap (λ w. b ∷ w) u), rw (k, e) v)
  ]
]

split_at_complete :
    (c : ℕ) (x y : Bytes) → absent c x ≡ true → split_at c (x ++ (c ∷ y)) ≡ some (x, y)
unfolding split_at
split_at_complete c [] y h = let e : (c == c) ≡ true = ground arith in rw e refl
split_at_complete c (b ∷ x) y h =
    let (u, v) = and_true (not (b == c)) _ h in
    let e : (b == c) ≡ false = ground (arith, u) in rw (e, split_at_complete c x y v) refl

pub split_braces-IsGroup :
    (p head body tail : Bytes) → split_braces p ≡ some (head, body, tail) → IsGroup p head body tail
unfolding split_braces
split_braces-IsGroup p head body tail h = elim (Option-cases (split_at b'{' p)) [
  | inl e ↦ absurd (let g : none ≡ some (head, body, tail) = rw (split_braces, e) at h in cc)
  | inr (x, e) ↦ elim (Option-cases (split_at b'}' x.1)) [
    | inl f ↦ absurd (let g : none ≡ some (head, body, tail) = rw (split_braces, e, f) at h in cc)
    | inr (y, f) ↦
        let (a, b) = split_at_sound b'{' p x.0 x.1 e in
        let (c, d) = split_at_sound b'}' x.1 y.0 y.1 f in
        let g : (x.0, y.0, y.1) ≡ (head, body, tail) =
          some-injective _ _ (rw (split_braces, e, f) at h) in
        subst (λ z. IsGroup p z.0 z.1 z.2) g
          (record { spelled = a ∙ ap (λ w. x.0 ++ (b'{' ∷ w)) c; first = b; closed = d })
  ]
]

pub IsGroup-split_braces :
    {p head body tail : Bytes} → IsGroup p head body tail → split_braces p ≡ some (head, body, tail)
unfolding split_braces
IsGroup-split_braces {head = head} {body = body} {tail = tail} g =
    rw
      (
        g.spelled,
        split_braces,
        split_at_complete b'{' head (body ++ (b'}' ∷ tail)) g.first,
        split_at_complete b'}' body tail g.closed,
      )
      refl

longer-Joined :
    (c : ℕ) (s : Bytes) (as' : List Bytes)
    → Joined as' s
    → Joined
        (elim as' [ [] ↦ [] | a ∷ rest ↦ if c == b',' then [] ∷ a ∷ rest else (c ∷ a) ∷ rest ])
        (c ∷ s)
longer-Joined c s _ (single {a = a} h) = elim (Bool-cases (c == b',')) [
  | inl e ↦ let same : c ≡ b',' = ground (arith, e) in rw (e, same) (several refl (single h))
  | inr e ↦ rw e (single (rw e h))
]
longer-Joined c _ _ (several {a = a} {s = s} h j) = elim (Bool-cases (c == b',')) [
  | inl e ↦ let same : c ≡ b',' = ground (arith, e) in rw (e, same) (several refl (several h j))
  | inr e ↦ rw e (several (rw e h) j)
]

pub split_commas-Joined : (s : Bytes) → Joined (split_commas s) s
unfolding split_commas
split_commas-Joined [] = single refl
split_commas-Joined (c ∷ s) = longer-Joined c s (split_commas s) (split_commas-Joined s)

split_commas-single : (a : Bytes) → absent b',' a ≡ true → split_commas a ≡ a ∷ []
unfolding split_commas
split_commas-single [] h = refl
split_commas-single (c ∷ a) h =
    let (u, v) = and_true (not (c == b',')) _ h in
    let e : (c == b',') ≡ false = ground (arith, u) in rw (split_commas-single a v, e) refl

split_commas-several :
    (a s x : Bytes) (xs : List Bytes)
    → absent b',' a ≡ true
    → split_commas s ≡ x ∷ xs
    → split_commas (a ++ (b',' ∷ s)) ≡ a ∷ x ∷ xs
unfolding split_commas
split_commas-several [] s x xs h k = rw k refl
split_commas-several (c ∷ a) s x xs h k =
    let (u, v) = and_true (not (c == b',')) _ h in
    let e : (c == b',') ≡ false = ground (arith, u) in
    rw (split_commas-several a s x xs v k, e) refl

pub Joined-split_commas : {as' : List Bytes} {s : Bytes} → Joined as' s → split_commas s ≡ as'
Joined-split_commas (single h) = split_commas-single _ h
Joined-split_commas (several {a = a} {s = s} h (single k)) =
    split_commas-several a s _ _ h (Joined-split_commas (single k))
Joined-split_commas (several {a = a} {s = s} h (several k j)) =
    split_commas-several a s _ _ h (Joined-split_commas (several k j))
