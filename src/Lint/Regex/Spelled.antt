-- ===== src/Lint/Regex/Spelled.antt =====
-- source/fastlint/lint/regex.cc: what a row of bytes matches.
use fastlint.Base.{
  ℕ, zero, suc, ◌+◌, ◌≤◌, ◌≡◌, ◌↔◌, refl, ap, ◌∙◌, inl, inr, true, false, some, [], ◌∷◌, Bytes,
  arith, length, drop, get_elem?, starts_with, ==_iff,
}
use fastlint.Lint.Regex.{alternative, none_left, same_char}
use fastlint.Lint.Regex.Quantity.{once}
use fastlint.Lint.Regex.Compile.{byte_terms}
use fastlint.Lint.Regex.Repeat.{Repeats, enough, again}
use fastlint.Lint.Regex.Matches.{Reads, Once, Through, Among}

-- A text stands at a position when its first byte does and the others behind it.
starts_at :
    (text : Bytes) (pos c : ℕ) (s : Bytes)
    → (starts_with (drop pos text) (c ∷ s) ≡ true)
      ↔ ((get_elem? text pos ≡ some c) × (starts_with (drop (suc pos) text) s ≡ true))
starts_at [] zero c s = ((λ h. absurd (cc)), λ (h, t). absurd (cc))
starts_at [] (suc pos) c s = ((λ h. absurd (cc)), λ (h, t). absurd (cc))
starts_at (b ∷ text) zero c s = ground arith
starts_at (b ∷ text) (suc pos) c s = starts_at text pos c s

-- A term without a quantifier is matched once.
pub once_elim : (R : ℕ → ℕ → Type 0) (pos next : ℕ) → Repeats R once 0 pos next → R pos next
once_elim R pos next (enough h) = absurd (omega arith)
once_elim R pos next (again can step (enough h)) = step
once_elim R pos next (again can step (again can2 step2 rest)) = absurd (cc)

pub once_intro : (R : ℕ → ℕ → Type 0) (pos next : ℕ) → R pos next → Repeats R once 0 pos next
once_intro R pos next r = again refl r (enough (omega arith))

Through-byte_terms :
    (text s : Bytes) (pos last : ℕ)
    → Through false text (byte_terms s) pos last
    → starts_with (drop pos text) s ≡ true
unfolding Through byte_terms Once
Through-byte_terms text [] pos last h = refl
Through-byte_terms text (c ∷ s) pos last (next, path, rest) =
    let (d, at, same, e) = once_elim (Reads text (λ d. same_char false d c)) pos next path in
    let there : suc pos ≡ next = omega arith in
    let behind = Through-byte_terms text s next last rest in
    (starts_at text pos c s).1
      (at ∙ ap some ((==_iff d c).0 same), ap (λ n. starts_with (drop n text) s) there ∙ behind)

pub byte_terms-Through :
    (text s : Bytes) (pos last : ℕ)
    → starts_with (drop pos text) s ≡ true
    → last ≡ pos + length s
    → Through false text (byte_terms s) pos last
unfolding Through byte_terms Once
byte_terms-Through text [] pos last h e = omega arith
byte_terms-Through text (c ∷ s) pos last h e =
    let (at, behind) = (starts_at text pos c s).0 h in
    let there : pos + 1 ≡ suc pos = omega arith in
    (
      pos + 1,
      once_intro (Reads text (λ d. same_char false d c)) pos (pos + 1)
          (c, at, (==_iff c c).1 refl, refl),
      byte_terms-Through text s (pos + 1) last
          (ap (λ n. starts_with (drop n text) s) there ∙ behind) (omega arith),
    )

pub Among-byte_terms :
    (text s : Bytes) (pos last : ℕ)
    → Among false text (alternative (byte_terms s) none_left) pos last
    → starts_with (drop pos text) s ≡ true
unfolding Among
Among-byte_terms text s pos last (inl m) = Through-byte_terms text s pos last m
Among-byte_terms text s pos last (inr m) = absurd m

-- A text holds another at some position.
unfoldable pub Contains : Bytes → Bytes → Type 0
Contains text s = (pos : ℕ) × (pos ≤ length text) × (starts_with (drop pos text) s ≡ true)
