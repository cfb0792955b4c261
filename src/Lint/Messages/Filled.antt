-- ===== src/Lint/Messages/Filled.antt =====
-- source/fastlint/lint/linter.cc: what a message with placeholders comes to.
use fastlint.Base.{
  ℕ, zero, suc, ◌≤◌, ◌≡◌, refl, ap, ◌∙◌, Bool, true, false, not, ◌&&◌, none, some, List, [], ◌∷◌,
  ◌++◌, Bytes, arith, ◌==◌, length, length-append, is_empty,
}
use fastlint.Lint.Messages.{
  Placeholder, split_pair, trim_front, trim_back, value_of, open_pair, close_pair, replaced,
  interpolate_loop, interpolate,
}

-- A message: texts with a placeholder behind each, and a text at the end.
pub data Message : Type 0 where
  last : Bytes → Message
  hole : Bytes → (left : ℕ) → (name : Bytes) → (right : ℕ) → Message → Message

abbrev pub spaces : ℕ → Bytes
spaces zero = []
spaces (suc n) = b' ' ∷ spaces n

abbrev pub padded : ℕ → Bytes → ℕ → Bytes
padded left name right = spaces left ++ (name ++ spaces right)

abbrev pub spell : Message → Bytes
spell (last text) = text
spell (hole text left name right m) =
    text ++ (b'{' ∷ b'{' ∷ (padded left name right ++ (b'}' ∷ b'}' ∷ spell m)))

-- Each placeholder with its value, whatever spaces are around its name; one of no known name stays.
abbrev pub fill : List Placeholder → Message → Bytes
fill values (last text) = text
fill values (hole text left name right m) =
    text
    ++ (value_of values name (open_pair ++ padded left name right ++ close_pair) ++ fill values m)

abbrev pub lacks : ℕ → Bytes → Bool
lacks c [] = true
lacks c (d ∷ s) = not (d == c) && lacks c s

-- No brace in the texts that opens, and no space and none that closes in the names.
abbrev pub is_plain : Message → Bool
is_plain (last text) = lacks b'{' text
is_plain (hole text left name right m) =
    lacks b'{' text && not (is_empty name) && lacks b' ' name && lacks b'}' name && is_plain m

split_pair-lacks : (c : ℕ) (text : Bytes) → lacks c text ≡ true → split_pair c text ≡ none
unfolding split_pair
split_pair-lacks c [] h = refl
split_pair-lacks c (a ∷ []) h = refl
split_pair-lacks c (a ∷ b ∷ s) h = ground (arith, split_pair-lacks c (b ∷ s), h)

split_pair-append :
    (c : ℕ) (text rest : Bytes)
    → lacks c text ≡ true
    → split_pair c (text ++ (c ∷ c ∷ rest)) ≡ some (text, rest)
unfolding split_pair
split_pair-append c [] rest h = ground arith
split_pair-append c (a ∷ []) rest h = ground (arith, split_pair-append c [] rest refl)
split_pair-append c (a ∷ b ∷ s) rest h = ground (arith, split_pair-append c (b ∷ s) rest)

trim_front-spaces : (n : ℕ) (s : Bytes) → trim_front (spaces n ++ s) ≡ trim_front s
unfolding trim_front
trim_front-spaces zero s = refl
trim_front-spaces (suc n) s = trim_front-spaces n s

trim_back-spaces : (n : ℕ) → trim_back (spaces n) ≡ []
unfolding trim_back
trim_back-spaces zero = refl
trim_back-spaces (suc n) = rw (trim_back-spaces n)

trim_back_cons :
    (c : ℕ) (s t : Bytes) → (c == b' ') ≡ false → trim_back s ≡ t → trim_back (c ∷ s) ≡ c ∷ t
unfolding trim_back
trim_back_cons c s [] h e = ground (arith, h, e)
trim_back_cons c s (d ∷ t) h e = ground (arith, e)

trim_back-append :
    (name : Bytes) (n : ℕ) → lacks b' ' name ≡ true → trim_back (name ++ spaces n) ≡ name
trim_back-append [] n h = trim_back-spaces n
trim_back-append (c ∷ name) n h =
    trim_back_cons c (name ++ spaces n) name (ground (arith, h))
      (trim_back-append name n (ground (arith, h)))

trim-padded :
    (left : ℕ) (name : Bytes) (right : ℕ)
    → is_empty name ≡ false
    → lacks b' ' name ≡ true
    → trim_back (trim_front (padded left name right)) ≡ name
unfolding trim_front
trim-padded left [] right e h = absurd (cc)
trim-padded left (c ∷ name) right e h =
    let stands : trim_front (c ∷ (name ++ spaces right)) ≡ c ∷ (name ++ spaces right) =
      ground (arith, h) in
    ap trim_back (trim_front-spaces left (c ∷ (name ++ spaces right)) ∙ stands)
    ∙ trim_back-append (c ∷ name) right h

lacks-append : (c : ℕ) (s t : Bytes) → lacks c (s ++ t) ≡ (lacks c s && lacks c t)
lacks-append c [] t = refl
lacks-append c (d ∷ s) t = ground (arith, lacks-append c s t)

lacks-spaces : (c n : ℕ) → (b' ' == c) ≡ false → lacks c (spaces n) ≡ true
lacks-spaces c zero h = refl
lacks-spaces c (suc n) h = ground (arith, h, lacks-spaces c n h)

padded-lacks :
    (left : ℕ) (name : Bytes) (right : ℕ)
    → lacks b'}' name ≡ true
    → lacks b'}' (padded left name right) ≡ true
padded-lacks left name right h = ground (
  arith,
  lacks-append b'}' (spaces left) (name ++ spaces right),
  lacks-append b'}' name (spaces right),
  lacks-spaces b'}' left refl,
  lacks-spaces b'}' right refl,
  h,
)

interpolate_loop-spell :
    (values : List Placeholder) (fuel : ℕ) (m : Message)
    → is_plain m ≡ true
    → length (spell m) ≤ fuel
    → interpolate_loop values fuel (spell m) ≡ fill values m
unfolding interpolate_loop replaced
interpolate_loop-spell values zero (last text) h l = refl
interpolate_loop-spell values (suc fuel) (last text) h l =
    rw (interpolate_loop, split_pair-lacks b'{' text h)
interpolate_loop-spell values zero (hole text left name right m) h l = absurd (
    omega (
      arith,
      length-append text (b'{' ∷ b'{' ∷ (padded left name right ++ (b'}' ∷ b'}' ∷ spell m))),
    ))
interpolate_loop-spell values (suc fuel) (hole text left name right m) h l =
    let inside = padded left name right in
    let behind = b'}' ∷ b'}' ∷ spell m in
    let free = padded-lacks left name right (ground (arith, h)) in
    let rest = interpolate_loop-spell values fuel m (ground (arith, h)) (
      omega (
        arith,
        length-append text (b'{' ∷ b'{' ∷ (inside ++ behind)),
        length-append inside behind,
      )) in
    rw (
      interpolate_loop,
      split_pair-append b'{' text (inside ++ behind) (ground (arith, h)),
      split_pair-append b'}' inside (spell m) free,
      trim-padded left name right (ground (arith, h)) (ground (arith, h)),
      rest,
    )

-- A message is interpolated by the values of its placeholders, with any spaces around their names; a
-- placeholder without a value stays as it is. The texts hold no opening brace, and the names,
-- which are not empty, no closing one and no space.
pub interpolate-spell :
    (values : List Placeholder) (m : Message)
    → is_plain m ≡ true
    → interpolate values (spell m) ≡ fill values m
unfolding interpolate
interpolate-spell values m h = interpolate_loop-spell values (length (spell m)) m h (omega arith)
