-- ===== src/Lint/Glob/Match.antt =====
-- source/fastlint/lint/glob.cc: which paths a pattern without groups matches.
use fastlint.Base.{
  ℕ, ◌≡◌, refl, ◌∙◌, inl, inr, Bool, true, false, ◌&&◌, ◌||◌, [], ◌∷◌, ◌++◌, arith, Bytes, ◌==◌,
  if◌then◌else◌, is_empty, Bool-cases,
}
use fastlint.Lint.Glob.{behind_slash, at_segments, in_segment, fits, match_one, match_expanded}

-- Nothing, or a text that ends in a slash.
abbrev pub is_directories : Bytes → Bool
is_directories [] = true
is_directories (c ∷ []) = c == b'/'
is_directories (c ∷ d ∷ s) = is_directories (d ∷ s)

abbrev pub has_slash : Bytes → Bool
has_slash [] = false
has_slash (c ∷ s) = c == b'/' || has_slash s

abbrev pub is_deep : Bytes → Bool
is_deep (c ∷ d ∷ p) = c == b'*' && d == b'*'
is_deep _ = false

-- `**`, with the slash behind it if there is one.
abbrev pub under : Bytes → Bytes
under (c ∷ d ∷ e ∷ p) = if e == b'/' then p else e ∷ p
under _ = []

abbrev pub is_below : Bytes → Bool
is_below (c ∷ d ∷ e ∷ p) = c == b'/' && d == b'*' && e == b'*'
is_below _ = false

-- What each part of a pattern stands for.
pub data Matches (case_insensitive : Bool) : Bytes → Bytes → Type 0 where
  done : Matches case_insensitive [] []
  all_under :
      {p : Bytes} (s : Bytes) → is_deep p ≡ true → under p ≡ [] → Matches case_insensitive p s
  deep :
      {p : Bytes} (front back : Bytes)
      → is_deep p ≡ true
      → is_directories front ≡ true
      → Matches case_insensitive (under p) back
      → Matches case_insensitive p (front ++ back)
  star :
      {p : Bytes} (front back : Bytes)
      → is_deep (b'*' ∷ p) ≡ false
      → has_slash front ≡ false
      → Matches case_insensitive p back
      → Matches case_insensitive (b'*' ∷ p) (front ++ back)
  itself :
      {c d e : ℕ} {p : Bytes}
      → is_below (c ∷ d ∷ e ∷ p) ≡ true
      → Matches case_insensitive p []
      → Matches case_insensitive (c ∷ d ∷ e ∷ p) []
  byte :
      {c h : ℕ} {p s : Bytes}
      → (c == b'*') ≡ false
      → fits c h case_insensitive ≡ true
      → Matches case_insensitive p s
      → Matches case_insensitive (c ∷ p) (h ∷ s)

behind_slash_complete :
    (f : Bytes → Bool) (c : ℕ) (front back : Bytes)
    → is_directories (c ∷ front) ≡ true
    → f back ≡ true
    → behind_slash f (c ∷ front ++ back) ≡ true
unfolding behind_slash
behind_slash_complete f c [] back h k = rw (h, k) refl
behind_slash_complete f c (d ∷ front) back h k =
    let rest = behind_slash_complete f d front back h k in ground (arith, rest)

at_segments_complete :
    (f : Bytes → Bool) (front back : Bytes)
    → is_directories front ≡ true
    → f back ≡ true
    → at_segments f (front ++ back) ≡ true
at_segments_complete f [] back h k = rw k refl
at_segments_complete f (c ∷ front) back h k =
    rw (behind_slash_complete f c front back h k) (ground arith)

in_segment_complete :
    (f : Bytes → Bool) (front back : Bytes)
    → has_slash front ≡ false
    → f back ≡ true
    → in_segment f (front ++ back) ≡ true
unfolding in_segment
in_segment_complete f [] [] h k = k
in_segment_complete f [] (c ∷ back) h k = rw k refl
in_segment_complete f (c ∷ front) back h k = ground (arith, in_segment_complete f front back)

-- A pattern that starts neither with `**` nor with `/**` before an empty path goes byte by byte.
pub match_expanded-one :
    (c : ℕ) (p : Bytes) (ci : Bool) (s : Bytes)
    → is_deep (c ∷ p) ≡ false
    → (is_empty s && is_below (c ∷ p)) ≡ false
    → match_expanded (c ∷ p) ci s ≡ match_one c (match_expanded p ci) ci s
unfolding match_expanded
match_expanded-one c [] ci s h k = refl
match_expanded-one c (d ∷ []) ci s h k = rw h refl
match_expanded-one c (d ∷ e ∷ p) ci s h k =
    let plain : (c == b'*' && d == b'*') ≡ false = h in
    let above : (is_empty s && (c == b'/' && d == b'*' && e == b'*')) ≡ false = k in
    rw plain (rw above refl)

pub match_expanded-deep :
    (p : Bytes) (ci : Bool) (s : Bytes)
    → is_deep p ≡ true
    → match_expanded p ci s ≡ (is_empty (under p) || at_segments (match_expanded (under p) ci) s)
unfolding match_expanded
match_expanded-deep [] ci s h = absurd cc
match_expanded-deep (c ∷ []) ci s h = absurd cc
match_expanded-deep (c ∷ d ∷ []) ci s h = rw h refl
match_expanded-deep (c ∷ d ∷ e ∷ p) ci s h =
    rw h (elim (Bool-cases (e == b'/')) [ inl slash ↦ rw slash refl | inr other ↦ rw other refl ])

-- `/**` before an empty path is tried as if it were not there.
pub match_expanded-below :
    (c d e : ℕ) (p : Bytes) (ci : Bool)
    → is_below (c ∷ d ∷ e ∷ p) ≡ true
    → match_expanded (c ∷ d ∷ e ∷ p) ci [] ≡ match_expanded p ci []
unfolding match_expanded
match_expanded-below c d e p ci h =
    let plain : (c == b'*' && d == b'*') ≡ false = ground arith in
    let here : (c == b'/' && d == b'*' && e == b'*') ≡ true = h in rw plain (rw here refl)

star-is_below : (p : Bytes) → is_below (b'*' ∷ p) ≡ false
star-is_below [] = refl
star-is_below (d ∷ []) = refl
star-is_below (d ∷ e ∷ p) = refl

byte-is_deep : (c : ℕ) (p : Bytes) → (c == b'*') ≡ false → is_deep (c ∷ p) ≡ false
byte-is_deep c [] h = refl
byte-is_deep c (d ∷ p) h = rw h refl

pub match_one-star :
    (f : Bytes → Bool) (ci : Bool) (s : Bytes) → match_one b'*' f ci s ≡ in_segment f s
unfolding match_one
match_one-star f ci [] = refl
match_one-star f ci (x ∷ s) = refl

pub match_one-byte :
    (c : ℕ) (f : Bytes → Bool) (ci : Bool) (x : ℕ) (s : Bytes)
    → (c == b'*') ≡ false
    → match_one c f ci (x ∷ s) ≡ (fits c x ci && f s)
unfolding match_one
match_one-byte c f ci x s h = rw h refl

pub match_expanded_complete :
    (ci : Bool) (p s : Bytes) → Matches ci p s → match_expanded p ci s ≡ true
unfolding match_expanded
match_expanded_complete ci [] [] done = refl
match_expanded_complete ci p _ (all_under s h e) = rw (match_expanded-deep p ci s h, e) refl
match_expanded_complete ci p _ (deep front back h k m) =
    rw (match_expanded-deep p ci (front ++ back) h) (
      rw
        (at_segments_complete (match_expanded (under p) ci) front back k
          (match_expanded_complete ci (under p) back m))
        (ground arith))
match_expanded_complete ci (c ∷ p) _ (star front back h k m) =
    match_expanded-one c p ci (front ++ back) h (rw (star-is_below p) (ground arith))
    ∙ match_one-star (match_expanded p ci) ci (front ++ back)
    ∙ in_segment_complete (match_expanded p ci) front back k (match_expanded_complete ci p back m)
match_expanded_complete ci (c ∷ d ∷ e ∷ p) [] (itself h m) =
    match_expanded-below c d e p ci h ∙ match_expanded_complete ci p [] m
match_expanded_complete ci (c ∷ p) (x ∷ s) (byte h k m) =
    match_expanded-one c p ci (x ∷ s) (byte-is_deep c p h) refl
    ∙ match_one-byte c (match_expanded p ci) ci x s h
    ∙ rw k (match_expanded_complete ci p s m)
