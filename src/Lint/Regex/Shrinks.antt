-- ===== src/Lint/Regex/Shrinks.antt =====
-- source/fastlint/lint/regex.cc: the classes of the compiler leave no more of the pattern than they found.
use fastlint.Base.{
  ℕ, zero, suc, ◌+◌, ◌≤◌, ◌≡◌, refl, Bool, true, false, not, ◌&&◌, List, [], ◌∷◌, ◌++◌, Bytes,
  arith, ltb, ◌==◌, if◌then◌else◌, length,
}
use fastlint.Lint.Regex.{Kind, Range}
use fastlint.Lint.Regex.Bracket.{
  Parsed, ok, unsupported, out_of_fuel, ◌>>=◌, Item, range, named, low, class_escape, class_low,
  high_end, class_high, class_item, class_items, parse_class,
}
use fastlint.Lint.Regex.Lengths.{escape_char_length}

-- No failure of the fuel, and at most so much of the pattern left.
unfoldable pub Within {ℓ} : {A : Type ℓ} → ℕ → Parsed A → Type 0
Within n (ok a s) = length s ≤ n
Within n unsupported = 0 ≤ n
Within n out_of_fuel = ⊥

pub bind-Within {ℓ κ} :
    {A : Type ℓ} {B : Type κ} (m n : ℕ) (r : Parsed A) (f : A × Bytes → Parsed B)
    → Within m r
    → ((a : A) (s : Bytes) → length s ≤ m → Within n (f (a, s)))
    → Within n (r >>= f)
unfolding Within
bind-Within m n (ok a s) f h g = g a s h
bind-Within m n unsupported f h g = omega arith
bind-Within m n out_of_fuel f h g = h

pub if-Within {ℓ} :
    {A : Type ℓ} (n : ℕ) (b : Bool) (x y : Parsed A)
    → (b ≡ true → Within n x)
    → (b ≡ false → Within n y)
    → Within n (if b then x else y)
if-Within n true x y f g = f refl
if-Within n false x y f g = g refl

pub Within-mono {ℓ} : {A : Type ℓ} (m n : ℕ) (r : Parsed A) → m ≤ n → Within m r → Within n r
unfolding Within
Within-mono m n (ok a s) h w = omega arith
Within-mono m n unsupported h w = omega arith
Within-mono m n out_of_fuel h w = w

pub ok-Within {ℓ} : {A : Type ℓ} (n : ℕ) (a : A) (s : Bytes) → length s ≤ n → Within n (ok a s)
unfolding Within
ok-Within n a s h = h

pub unsupported-Within {ℓ} : (A : Type ℓ) (n : ℕ) → (let u : Parsed A = unsupported in Within n u)
unfolding Within
unsupported-Within A n = omega arith

class_escape-Within : (e : ℕ) (s : Bytes) → Within (length s) (class_escape e s)
unfolding class_escape Within
class_escape-Within e s = ground (arith, escape_char_length e s)

class_low-Within : (c : ℕ) (s : Bytes) → Within (length s) (class_low c s)
unfolding class_low
class_low-Within c [] =
    if-Within 0 (c == b'\\') unsupported (ok (low c) []) (λ e. unsupported-Within Item 0)
      (λ e. ok-Within 0 (low c) [] (omega arith))
class_low-Within c (e ∷ s) =
    if-Within (suc (length s)) (c == b'\\') (class_escape e s) (ok (low c) (e ∷ s))
      (λ h.
        Within-mono (length s) (suc (length s)) (class_escape e s) (omega arith)
          (class_escape-Within e s))
      (λ h. ok-Within (suc (length s)) (low c) (e ∷ s) (omega arith))

high_end-Within : (d : ℕ) (s : Bytes) → Within (length s) (high_end d s)
unfolding high_end Within
high_end-Within d [] = ground arith
high_end-Within d (e ∷ s) = ground (arith, escape_char_length e s)

class_high-Within : (lo : ℕ) (s : Bytes) → Within (length s) (class_high lo s)
unfolding class_high
class_high-Within lo [] = ok-Within 0 lo [] (omega arith)
class_high-Within lo (a ∷ []) = ok-Within 1 lo (a ∷ []) (omega arith)
class_high-Within lo (a ∷ d ∷ s) =
    let n = suc (suc (length s)) in
    if-Within n (a == b'-' && not (d == b']')) _ (ok lo (a ∷ d ∷ s))
      (λ h. bind-Within (length s) n (high_end d s) _ (high_end-Within d s) (λ hi r l.
        if-Within n (ltb hi lo) unsupported (ok hi r) (λ e. unsupported-Within ℕ n)
          (λ e. ok-Within n hi r (omega arith))))
      (λ h. ok-Within n lo (a ∷ d ∷ s) (omega arith))

class_item-Within :
    (n : ℕ) (go : List Range → Bytes → Parsed (List Range)) (ranges : List Range) (item : Item)
    (s : Bytes)
    → ((rs : List Range) (r : Bytes) → length r ≤ n → Within n (go rs r))
    → length s ≤ n
    → Within n (class_item go ranges item s)
unfolding class_item
class_item-Within n go ranges (named more) s g h = g (ranges ++ more) s h
class_item-Within n go ranges (low lo) s g h =
    bind-Within (length s) n (class_high lo s) _ (class_high-Within lo s)
      (λ hi r l. g (ranges ++ range lo hi ∷ []) r (omega arith))

class_items-Within :
    (fuel : ℕ) (first : Bool) (ranges : List Range) (s : Bytes)
    → length s + 1 ≤ fuel
    → Within (length s) (class_items fuel first ranges s)
unfolding class_items
class_items-Within zero first ranges s h = absurd (omega arith)
class_items-Within (suc fuel) first ranges [] h = unsupported-Within (List Range) 0
class_items-Within (suc fuel) first ranges (c ∷ s) h =
    let n = suc (length s) in
    if-Within n (c == b']' && not first) (ok ranges s) _ (λ e. ok-Within n ranges s (omega arith))
      (λ e. bind-Within (length s) n (class_low c s) _ (class_low-Within c s) (λ item r l.
        Within-mono (length s) n _ (omega arith) (
          class_item-Within (length s) (class_items fuel false) ranges item r
            (λ rs t k.
              Within-mono (length t) (length s) _ k
                (class_items-Within fuel false rs t (omega arith)))
            l)))

pub parse_class-Within : (s : Bytes) → Within (length s) (parse_class s)
unfolding parse_class
parse_class-Within [] = unsupported-Within Kind 0
parse_class-Within (c ∷ s) =
    let n = suc (length s) in
    let inside : Within n (
        if c == b'^'
        then class_items (length s + 1) true [] s
        else class_items (length s + 2) true [] (c ∷ s)) =
      if-Within n (c == b'^') _ _
        (λ e.
          Within-mono (length s) n _ (omega arith)
            (class_items-Within (length s + 1) true [] s (omega arith)))
        (λ e. class_items-Within (length s + 2) true [] (c ∷ s) (omega arith)) in
    bind-Within n n _ _ inside (λ ranges r l. ok-Within n _ r l)
