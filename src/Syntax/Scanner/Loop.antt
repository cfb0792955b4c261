-- ===== src/Syntax/Scanner/Loop.antt =====
-- source/fastlint/syntax/scanner.cc: the loops over the position, and what a round of one keeps.
use fastlint.Base.{
  ℕ, zero, suc, ◌+◌, ◌-◌, ◌≤◌, ◌<◌, ◌≡◌, refl, Bool, true, false, if◌then◌else◌, [], ◌∷◌, Bytes,
  length, arith,
}
use fastlint.Syntax.Scanner.{Reader}

-- What a round of a `for (;;)` does, with the routine's own variables in `F`: it continues, or it
-- leaves the loop.
pub data Round {ℓ} (F : Type ℓ) : Type ℓ where
  again done : Reader → F → Round F

-- A loop over the bytes from the position on. The bytes that a round took are passed over.
unfoldable pub loop {ℓ} :
    {F : Type ℓ} → (Bytes → Reader → F → Round F) → ℕ → Bytes → Reader → F → Reader × F
loop body k [] r f = elim (body [] r f) [ again s g ↦ (s, g) | done s g ↦ (s, g) ]
loop body (suc k) (c ∷ t) r f = loop body k t r f
loop body zero (c ∷ t) r f = elim (body (c ∷ t) r f) [
  | again s g ↦ loop body (s.pos - r.pos - 1) t s g
  | done s g ↦ (s, g)
]

-- A round from `r` whose reader is related to `r` and whose position, where it continues, is
-- farther on and within the source.
pub data Kept {ℓ} {F : Type ℓ} (R : Reader → Reader → Type 0) (size : ℕ) (r : Reader)
    : Round F → Type ℓ where
  goes_on : {s : Reader} {g : F} → r.pos < s.pos → s.pos ≤ size → R r s → Kept R size r (again s g)
  leaves : {s : Reader} {g : F} → R r s → Kept R size r (done s g)

pub if_Kept {ℓ} :
    {F : Type ℓ} {R : Reader → Reader → Type 0} {size : ℕ} {r : Reader} (b : Bool) {x y : Round F}
    → (b ≡ true → Kept R size r x)
    → (b ≡ false → Kept R size r y)
    → Kept R size r (if b then x else y)
if_Kept true f g = f refl
if_Kept false f g = g refl

-- A transitive relation that each round keeps holds between the readers before and behind a loop.
module _ {ℓ} {F : Type ℓ} (R : Reader → Reader → Type 0) (size : ℕ)
    (trans : (r s t : Reader) → R r s → R s t → R r t) (body : Bytes → Reader → F → Round F)
    (keeps : (bs : Bytes) (r : Reader) (f : F)
      → r.pos + length bs ≡ size
      → Kept R size r (body bs r f)) where
  loop_round :
      (t : Bytes) (r : Reader) (o : Round F)
      → Kept R size r o
      → r.pos + suc (length t) ≡ size
      → ((k : ℕ) (s : Reader) (g : F)
          → s.pos + length t ≡ size + k
          → s.pos ≤ size
          → R s (loop body k t s g).0)
      → let p : Reader × F = elim o [
        | again s g ↦ loop body (s.pos - r.pos - 1) t s g
        | done s g ↦ (s, g)
      ] in
        R r p.0
  loop_round t r _ (goes_on {s = s} {g = g} a b c) h ih = trans r s _ c (ih _ s g (omega arith) b)
  loop_round t r _ (leaves kept) h ih = kept

  loop_last :
      (r : Reader) (o : Round F)
      → Kept R size r o
      → let p : Reader × F = elim o [ again s g ↦ (s, g) | done s g ↦ (s, g) ] in R r p.0
  loop_last r _ (goes_on {s = s} {g = g} a b c) = c
  loop_last r _ (leaves kept) = kept

  pub loop_lem :
      (k : ℕ) (bs : Bytes) (r : Reader) (f : F)
      → r.pos + length bs ≡ size + k
      → r.pos ≤ size
      → R r (loop body k bs r f).0
  unfolding loop
  loop_lem k [] r f h b = loop_last r (body [] r f) (keeps [] r f (omega arith))
  loop_lem (suc k) (c ∷ t) r f h b = loop_lem k t r f (omega arith) b
  loop_lem zero (c ∷ t) r f h b =
      loop_round t r (body (c ∷ t) r f) (keeps (c ∷ t) r f (omega arith)) (omega arith)
        (λ k s g e. loop_lem k t s g e)

-- A round hands on a property of the routine's own variables.
pub data Yields {ℓ} {F : Type ℓ} (Q : F → Type 0) : Round F → Type ℓ where
  goes_with : {s : Reader} {g : F} → Q g → Yields Q (again s g)
  ends_with : {s : Reader} {g : F} → Q g → Yields Q (done s g)

pub if_Yields {ℓ} :
    {F : Type ℓ} {Q : F → Type 0} (b : Bool) {x y : Round F}
    → (b ≡ true → Yields Q x)
    → (b ≡ false → Yields Q y)
    → Yields Q (if b then x else y)
if_Yields true f g = f refl
if_Yields false f g = g refl

module _ {ℓ} {F : Type ℓ} (Q : F → Type 0) (body : Bytes → Reader → F → Round F)
    (yields : (bs : Bytes) (r : Reader) (f : F) → Q f → Yields Q (body bs r f)) where
  yields_last :
      (o : Round F)
      → Yields Q o
      → let p : Reader × F = elim o [ again s g ↦ (s, g) | done s g ↦ (s, g) ] in Q p.1
  yields_last _ (goes_with q) = q
  yields_last _ (ends_with q) = q

  yields_round :
      (t : Bytes) (r : Reader) (o : Round F)
      → Yields Q o
      → ((k : ℕ) (s : Reader) (g : F) → Q g → Q (loop body k t s g).1)
      → let p : Reader × F = elim o [
        | again s g ↦ loop body (s.pos - r.pos - 1) t s g
        | done s g ↦ (s, g)
      ] in
        Q p.1
  yields_round t r _ (goes_with {s = s} {g = g} q) ih = ih _ s g q
  yields_round t r _ (ends_with q) ih = q

  pub loop_yields : (k : ℕ) (bs : Bytes) (r : Reader) (f : F) → Q f → Q (loop body k bs r f).1
  unfolding loop
  loop_yields k [] r f q = yields_last (body [] r f) (yields [] r f q)
  loop_yields (suc k) (c ∷ t) r f q = loop_yields k t r f q
  loop_yields zero (c ∷ t) r f q =
      yields_round t r (body (c ∷ t) r f) (yields (c ∷ t) r f q) (λ k s g e. loop_yields k t s g e)
