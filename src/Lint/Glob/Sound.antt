-- ===== src/Lint/Glob/Sound.antt =====
-- source/fastlint/lint/glob.cc: the matcher accepts only what the parts of a pattern stand for.
use mathlib.Core.Path.{subst}
use fastlint.Base.{
  ℕ, zero, suc, ◌≡◌, refl, sym, ap, ◌∙◌, ◌⊎◌, inl, inr, Bool, true, false, not, ◌&&◌, ◌||◌, [], ◌∷◌,
  ◌++◌, arith, Bytes, ◌==◌, is_empty, Bool-cases, ◌↔◌, ◌≤◌, length, drop, length-drop,
}
use fastlint.Lint.Glob.{behind_slash, at_segments, in_segment, match_one, match_expanded}
use fastlint.Lint.Glob.Match.{
  is_directories, has_slash, is_deep, under, is_below, Matches, done, all_under, deep, star, itself,
  byte, match_expanded-one, match_expanded-deep, match_expanded-below, match_one-star,
  match_one-byte, match_expanded_complete,
}

-- A cut of a text at a place where the rest of the pattern matches.
record Cut (fits_front f : Bytes → Bool) (s : Bytes) : Type 0 where
  front : Bytes
  back : Bytes
  whole : front ++ back ≡ s
  front_fits : fits_front front ≡ true
  back_fits : f back ≡ true

abbrev is_parent : Bytes → Bool
is_parent front = not (is_empty front) && is_directories front

behind_slash_sound :
    (f : Bytes → Bool) (c : ℕ) (s : Bytes) → behind_slash f (c ∷ s) ≡ true → Cut is_parent f (c ∷ s)
unfolding behind_slash
behind_slash_sound f c [] h = record {
  front = c ∷ [];
  back = [];
  whole = refl;
  front_fits = ground arith;
  back_fits = ground arith;
}
behind_slash_sound f c (d ∷ s) h = elim (Bool-cases ((c == b'/') && f (d ∷ s))) [
  | inl here ↦ record {
    front = c ∷ [];
    back = d ∷ s;
    whole = refl;
    front_fits = ground arith;
    back_fits = ground arith;
  }
  | inr later ↦
      let rest = behind_slash_sound f d s (ground arith) in
      extend rest.front rest.back rest.whole rest.front_fits rest.back_fits
]
  where
    extend :
        (front back : Bytes)
        → front ++ back ≡ d ∷ s
        → is_parent front ≡ true
        → f back ≡ true
        → Cut is_parent f (c ∷ d ∷ s)
    extend [] back e i j = absurd (ground arith)
    extend (x ∷ front) back e i j = record {
      front = c ∷ x ∷ front;
      back = back;
      whole = ap (λ t. c ∷ t) e;
      front_fits = i;
      back_fits = j;
    }

at_segments_sound : (f : Bytes → Bool) (s : Bytes) → at_segments f s ≡ true → Cut is_directories f s
at_segments_sound f s h = elim (Bool-cases (f s)) [
  | inl here ↦ record { front = []; back = s; whole = refl; front_fits = refl; back_fits = here }
  | inr later ↦ below s (ground arith)
]
  where
    below : (s : Bytes) → behind_slash f s ≡ true → Cut is_directories f s
    below [] h = absurd (unfold behind_slash in ground arith)
    below (c ∷ s) h =
        let cut = behind_slash_sound f c s h in
        record {
          front = cut.front;
          back = cut.back;
          whole = cut.whole;
          front_fits = ground (arith, cut.front_fits);
          back_fits = cut.back_fits;
        }

abbrev is_in_segment : Bytes → Bool
is_in_segment front = not (has_slash front)

in_segment_sound : (f : Bytes → Bool) (s : Bytes) → in_segment f s ≡ true → Cut is_in_segment f s
unfolding in_segment
in_segment_sound f [] h = record {
  front = [];
  back = [];
  whole = refl;
  front_fits = refl;
  back_fits = h;
}
in_segment_sound f (c ∷ s) h = elim (Bool-cases (f (c ∷ s))) [
  | inl here ↦ record {
    front = [];
    back = c ∷ s;
    whole = refl;
    front_fits = refl;
    back_fits = here;
  }
  | inr later ↦
      let cut = in_segment_sound f s (ground arith) in
      record {
        front = c ∷ cut.front;
        back = cut.back;
        whole = ap (λ t. c ∷ t) cut.whole;
        front_fits = ground (arith, cut.front_fits);
        back_fits = cut.back_fits;
      }
]

length-under : (p : Bytes) (n : ℕ) → length p ≤ suc n → length (under p) ≤ n
length-under [] n h = omega arith
length-under (c ∷ []) n h = omega arith
length-under (c ∷ d ∷ []) n h = omega arith
length-under (c ∷ d ∷ e ∷ p) n h = ground arith

-- A pattern all of whose matches are as they should be.
abbrev Sound : Bool → Bytes → Type 0
Sound ci p = (s : Bytes) → match_expanded p ci s ≡ true → Matches ci p s

deep-Sound : (ci : Bool) (p : Bytes) → is_deep p ≡ true → Sound ci (under p) → Sound ci p
deep-Sound ci p d sound s h = elim (Bool-cases (is_empty (under p))) [
  | inl e ↦ all_under s d (is_empty→nil (under p) e)
  | inr e ↦
      let found : (is_empty (under p) || at_segments (match_expanded (under p) ci) s) ≡ true =
        sym (match_expanded-deep p ci s d) ∙ h in
      let cut = at_segments_sound (match_expanded (under p) ci) s (or-right _ _ e found) in
      subst (Matches ci p) cut.whole
        (deep cut.front cut.back d cut.front_fits (sound cut.back cut.back_fits))
]
  where
    is_empty→nil : (q : Bytes) → is_empty q ≡ true → q ≡ []
    is_empty→nil [] e = refl
    is_empty→nil (c ∷ q) e = absurd cc

    or-right : (a b : Bool) → a ≡ false → (a || b) ≡ true → b ≡ true
    or-right a b e h = ground arith

itself-Sound :
    (ci : Bool) (p : Bytes)
    → is_below p ≡ true
    → Sound ci (drop 3 p)
    → match_expanded p ci [] ≡ true
    → Matches ci p []
itself-Sound ci [] b sound h = absurd cc
itself-Sound ci (c ∷ []) b sound h = absurd cc
itself-Sound ci (c ∷ d ∷ []) b sound h = absurd cc
itself-Sound ci (c ∷ d ∷ e ∷ p) b sound h =
    itself b (sound [] (sym (match_expanded-below c d e p ci b) ∙ h))

one-Sound :
    (ci : Bool) (c : ℕ) (p : Bytes)
    → is_deep (c ∷ p) ≡ false
    → Sound ci p
    → (s : Bytes) → match_one c (match_expanded p ci) ci s ≡ true
    → Matches ci (c ∷ p) s
unfolding match_one
one-Sound ci c p d sound s h = elim (Bool-cases (c == b'*')) [
  | inl star_byte ↦
      let is_star : b'*' ≡ c = omega (arith, ==→eq c b'*' star_byte) in
      let found = subst (λ b. match_one b (match_expanded p ci) ci s ≡ true) (sym is_star) h in
      let cut =
        in_segment_sound (match_expanded p ci) s
          (sym (match_one-star (match_expanded p ci) ci s) ∙ found) in
      subst (λ b. Matches ci (b ∷ p) s) is_star
        (subst (Matches ci (b'*' ∷ p)) cut.whole (
          star cut.front cut.back (subst (λ b. is_deep (b ∷ p) ≡ false) (sym is_star) d)
            (ground (arith, cut.front_fits)) (sound cut.back cut.back_fits)))
  | inr other ↦ one_byte s other h
]
  where
    ==→eq : (a b : ℕ) → (a == b) ≡ true → a ≡ b
    ==→eq a b e = ground arith

    one_byte :
        (s : Bytes)
        → (c == b'*') ≡ false
        → match_one c (match_expanded p ci) ci s ≡ true
        → Matches ci (c ∷ p) s
    one_byte [] other h = absurd (ground (arith, match_one))
    one_byte (x ∷ s) other h =
        let both = sym (match_one-byte c (match_expanded p ci) ci x s other) ∙ h in
        byte other (ground (arith, both)) (sound s (ground (arith, both)))

length-drop3 : (p : Bytes) (n : ℕ) → length p ≤ suc n → length (drop 3 p) ≤ n
length-drop3 p n h = omega (arith, length-drop 3 p)

match_expanded-Sound : (n : ℕ) (ci : Bool) (p : Bytes) → length p ≤ n → Sound ci p
match_expanded-Sound n ci [] l [] h = done
match_expanded-Sound n ci [] l (x ∷ s) h = absurd (unfold match_expanded in ground arith)
match_expanded-Sound zero ci (c ∷ p) l s h = absurd (omega arith)
match_expanded-Sound (suc n) ci (c ∷ p) l s h =
    let under_sound = match_expanded-Sound n ci (under (c ∷ p)) (length-under (c ∷ p) n l) in
    let below_sound = match_expanded-Sound n ci (drop 3 (c ∷ p)) (length-drop3 (c ∷ p) n l) in
    let behind_sound = match_expanded-Sound n ci p (omega arith) in
    elim (Bool-cases (is_deep (c ∷ p))) [
      | inl d ↦ deep-Sound ci (c ∷ p) d under_sound s h
      | inr d ↦ elim (Bool-cases (is_empty s && is_below (c ∷ p))) [
        | inr b ↦ one-Sound ci c p d behind_sound s (sym (match_expanded-one c p ci s d b) ∙ h)
        | inl b ↦ elim (List-cases s) [
          | inl e ↦ subst (Matches ci (c ∷ p)) (sym e) (
              itself-Sound ci (c ∷ p) (ground (arith, b)) below_sound
                (subst (λ t. match_expanded (c ∷ p) ci t ≡ true) e h))
          | inr e ↦ absurd (ground (arith, b, e))
        ]
      ]
    ]
  where
    List-cases : (s : Bytes) → (s ≡ []) ⊎ (is_empty s ≡ false)
    List-cases [] = inl refl
    List-cases (x ∷ s) = inr refl

-- A pattern without groups matches a path exactly when the path is what the pattern's parts stand for,
-- one behind the other: `**` for nothing or whole directories (at the end for everything), `*` for any
-- text without a slash, `?` for a byte other than a slash, and another byte for itself; a `/**` stands
-- for nothing before the end of the path.
pub match_expanded_lem :
    (case_insensitive : Bool) (p s : Bytes)
    → (match_expanded p case_insensitive s ≡ true) ↔ Matches case_insensitive p s
match_expanded_lem ci p s =
    (match_expanded-Sound (length p) ci p (omega arith) s, match_expanded_complete ci p s)
