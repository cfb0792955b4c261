-- ===== src/Syntax/Scanner/Moves/Patterns.antt =====
-- source/fastlint/syntax/scanner.cc: which bytes are a regular expression literal.
use fastlint.Base.{
  ℕ, suc, ◌≡◌, refl, sym, Bool, true, false, not, ◌&&◌, ◌||◌, Option, none, some, [], ◌∷◌, Bytes,
  ◌==◌, and_true, Bool-cases, arith, inl, inr,
}
use mathlib.Core.Option
use mathlib.Core.Option.{some-injective}
use fastlint.Syntax.Scanner.{peek_char}
use fastlint.Syntax.Scanner.Skip.{is_separator}
use fastlint.Syntax.Scanner.Templates.{regex_body}

-- A line ends in front of the bytes.
abbrev pub ends_line : Bytes → Bool
ends_line [] = true
ends_line (c ∷ t) = c == 10 || c == 13 || is_separator (peek_char (c ∷ t))

-- A byte without a part of its own in a pattern.
abbrev pub is_plain : Bool → ℕ → Bool
is_plain in_class c =
    not (c == 92) && (not (c == b'[') && (not (c == b']') && not (c == b'/' && not in_class)))

-- That many bytes are the rest of a pattern with the slash that closes it, inside a class or outside:
-- a backslash takes the byte behind it, brackets open and close a class, and a slash outside a class
-- is the end. No line ends before it.
pub data IsBody : Bool → ℕ → Bytes → Type 0 where
  close : (t : Bytes) → IsBody false 1 (b'/' ∷ t)
  escape :
      {k : Bool} {n : ℕ} {t : Bytes} (d : ℕ) → IsBody k n t → IsBody k (suc (suc n)) (92 ∷ d ∷ t)
  enter : {n : ℕ} {t : Bytes} (k : Bool) → IsBody true n t → IsBody k (suc n) (b'[' ∷ t)
  leave : {n : ℕ} {t : Bytes} (k : Bool) → IsBody false n t → IsBody k (suc n) (b']' ∷ t)
  plain :
      {k : Bool} {n : ℕ} {t : Bytes} (c : ℕ)
      → ends_line (c ∷ t) ≡ false
      → is_plain k c ≡ true
      → IsBody k n t
      → IsBody k (suc n) (c ∷ t)

-- No bytes are no rest of a pattern.
not_empty : {k : Bool} {n : ℕ} {bs : Bytes} → IsBody k n bs → ¬ (bs ≡ [])
not_empty (close t) h = cc
not_empty (escape d b) h = cc
not_empty (enter k b) h = cc
not_empty (leave k b) h = cc
not_empty (plain c e p b) h = cc

pub regex_body_complete : {k : Bool} {n : ℕ} {bs : Bytes} → IsBody k n bs → regex_body k bs ≡ some n
unfolding regex_body peek_char
regex_body_complete (close []) = refl
regex_body_complete (close (d ∷ u)) = refl
regex_body_complete (escape {t = []} d b) = absurd (not_empty b refl)
regex_body_complete (escape {t = c ∷ t} d b) = rw (regex_body_complete b) refl
regex_body_complete (enter {t = []} k b) = absurd (not_empty b refl)
regex_body_complete (enter {t = c ∷ t} k b) = rw (regex_body_complete b) refl
regex_body_complete (leave {t = []} k b) = absurd (not_empty b refl)
regex_body_complete (leave {t = c ∷ t} k b) = rw (regex_body_complete b) refl
regex_body_complete (plain {t = []} c e p b) = absurd (not_empty b refl)
regex_body_complete (plain {k = k} {t = d ∷ u} c e p b) =
    let (x, q) = and_true (not (c == 92)) _ p in
    let (y, r) = and_true (not (c == b'[')) _ q in
    let (z, w) = and_true (not (c == b']')) _ r in
    let x' : c == 92 ≡ false = ground (arith, x) in
    let y' : c == b'[' ≡ false = ground (arith, y) in
    let z' : c == b']' ≡ false = ground (arith, z) in
    let w' : (c == b'/' && not k) ≡ false = ground (arith, w) in
    rw (e, x', y', z', w', regex_body_complete b) refl

map-some :
    (o : Option ℕ) (f : ℕ → ℕ) (n : ℕ)
    → Option.map f o ≡ some n
    → (m : ℕ) × ((o ≡ some m) × (n ≡ f m))
map-some none f n h = absurd cc
map-some (some m) f n h = (m, (refl, some-injective _ _ (sym h)))

pub regex_body_sound : (k : Bool) (bs : Bytes) (n : ℕ) → regex_body k bs ≡ some n → IsBody k n bs
unfolding regex_body
regex_body_sound k [] n h = absurd cc
regex_body_sound k (c ∷ []) n h = elim (Bool-cases (c == b'/' && not k)) [
  | inl e ↦
      let (a, b) = and_true (c == b'/') _ e in
      let same : c ≡ b'/' = ground (arith, a) in
      let out : k ≡ false = ground (arith, b) in
      let one : 1 ≡ n = some-injective _ _ (rw e at h) in rw (same, out, sym one) (close [])
  | inr e ↦ absurd (let f : none ≡ some n = rw e at h in cc)
]
regex_body_sound k (c ∷ d ∷ u) n h = elim (Bool-cases (ends_line (c ∷ d ∷ u))) [
  | inl e ↦ absurd (let f : none ≡ some n = rw e at h in cc)
  | inr e ↦ elim (Bool-cases (c == 92)) [
    | inl x ↦
        let same : c ≡ 92 = ground (arith, x) in
        let (m, (f, g)) = map-some (regex_body k u) (λ n. suc (suc n)) n (rw (e, x) at h) in
        rw (same, g) (escape d (regex_body_sound k u m f))
    | inr x ↦ elim (Bool-cases (c == b'[')) [
      | inl y ↦
          let same : c ≡ b'[' = ground (arith, y) in
          let (m, (f, g)) = map-some (regex_body true (d ∷ u)) suc n (rw (e, x, y) at h) in
          rw (same, g) (enter k (regex_body_sound true (d ∷ u) m f))
      | inr y ↦ elim (Bool-cases (c == b']')) [
        | inl z ↦
            let same : c ≡ b']' = ground (arith, z) in
            let (m, (f, g)) = map-some (regex_body false (d ∷ u)) suc n (rw (e, x, y, z) at h) in
            rw (same, g) (leave k (regex_body_sound false (d ∷ u) m f))
        | inr z ↦ elim (Bool-cases (c == b'/' && not k)) [
          | inl w ↦
              let (a, b) = and_true (c == b'/') _ w in
              let same : c ≡ b'/' = ground (arith, a) in
              let out : k ≡ false = ground (arith, b) in
              let one : 1 ≡ n = some-injective _ _ (rw (e, x, y, z, w) at h) in
              rw (same, out, sym one) (close (d ∷ u))
          | inr w ↦
              let (m, (f, g)) = map-some (regex_body k (d ∷ u)) suc n (rw (e, x, y, z, w) at h) in
              rw g (plain c e (rw (x, y, z, w) refl) (regex_body_sound k (d ∷ u) m f))
        ]
      ]
    ]
  ]
]
