-- ===== src/Tsgo/Json/Strings/Progress.antt =====
-- source/fastlint/tsgo/json.cc: the loop of `parseString` ends, and moves on.
use fastlint.Base.{
  inl, inr, Option-cases, ℕ, zero, suc, ◌≤◌, ◌<◌, ◌≡◌, some, [], ◌∷◌, ◌++◌, arith, Bytes, length,
}
use fastlint.Tsgo.Json.Strings.{
  Result, ok, out_of_fuel, fail, ◌>>=◌, parse_hex4, Step, closed, took, bad, low_surrogate,
  surrogate, unicode, escape, step, after_step, string_loop,
}

parse_hex4-length :
    (s : Bytes) (cp : ℕ) (r : Bytes) → parse_hex4 s ≡ some (cp, r) → length r < length s
unfolding parse_hex4
parse_hex4-length (a ∷ b ∷ c ∷ d ∷ s) cp r h = ground arith
parse_hex4-length _ cp r h = absurd (cc)

low_surrogate-length :
    (s : Bytes) (low : ℕ) (r : Bytes) → low_surrogate s ≡ some (low, r) → length r ≤ length s
unfolding low_surrogate
low_surrogate-length (a ∷ b ∷ s) low r h = ground (arith, parse_hex4-length s low r)
low_surrogate-length _ low r h = absurd (cc)

-- The text that a round leaves.
abbrev rest_of : Step → Bytes
rest_of (closed r) = r
rest_of (took b r) = r
rest_of (bad e) = []

surrogate-length : (cp : ℕ) (s : Bytes) → length (rest_of (surrogate cp s)) ≤ length s
unfolding surrogate
surrogate-length cp s = elim (Option-cases (low_surrogate s)) [
  | inl e ↦ ground (arith, e)
  | inr ((low, r), e) ↦ ground (arith, low_surrogate-length s low r)
]

unicode-length : (s : Bytes) → length (rest_of (unicode s)) ≤ length s
unfolding unicode
unicode-length s = elim (Option-cases (parse_hex4 s)) [
  | inl e ↦ ground (arith, e)
  | inr ((cp, r), e) ↦ ground (arith, e, parse_hex4-length s cp r, surrogate-length cp r)
]

escape-length : (s : Bytes) → length (rest_of (escape s)) ≤ length s
unfolding escape
escape-length [] = omega arith
escape-length (e ∷ s) = ground (arith, unicode-length s)

step-length : (c : ℕ) (s : Bytes) → length (rest_of (step (c ∷ s))) ≤ length s
unfolding step
step-length c s = ground (arith, escape-length s)

-- The result is a value with fewer than `n` bytes left, or an error.
abbrev pub Moves {ℓ} : {A : Type ℓ} → ℕ → Result A → Type 0
Moves n (ok x r) = length r < n
Moves n (fail e) = Unit
Moves n out_of_fuel = ⊥

pub Moves-weaken {ℓ} : {A : Type ℓ} (m n : ℕ) (r : Result A) → m ≤ n → Moves m r → Moves n r
Moves-weaken m n (ok x r) h k = omega arith
Moves-weaken m n (fail e) h k = tt
Moves-weaken m n out_of_fuel h k = k

pub Moves-bind {ℓ κ} :
    {A : Type ℓ} {B : Type κ} (m n : ℕ) (r : Result A) (f : A × Bytes → Result B)
    → Moves m r
    → ((a : A) (s : Bytes) → length s < m → Moves n (f (a, s)))
    → Moves n (r >>= f)
Moves-bind m n (ok a s) f h k = k a s h
Moves-bind m n (fail e) f h k = tt
Moves-bind m n out_of_fuel f h k = h

after_step-Moves :
    (next : Bytes → Bytes → Result Bytes) (out : Bytes) (n : ℕ) (t : Step)
    → length (rest_of t) ≤ n
    → ((out' r : Bytes) → length r ≤ n → Moves (length r) (next out' r))
    → Moves (suc n) (after_step next out t)
after_step-Moves next out n (closed r) h k = omega arith
after_step-Moves next out n (took b r) h k =
    Moves-weaken (length r) (suc n) _ (omega arith) (k (out ++ b) r h)
after_step-Moves next out n (bad e) h k = tt

pub string_loop-Moves :
    (fuel : ℕ) (out s : Bytes) → length s < fuel → Moves (length s) (string_loop fuel out s)
unfolding string_loop
string_loop-Moves zero out s h = absurd (omega arith)
string_loop-Moves (suc fuel) out [] h = unfold step in tt
string_loop-Moves (suc fuel) out (c ∷ s) h =
    after_step-Moves (string_loop fuel) out (length s) (step (c ∷ s)) (step-length c s)
      (λ out' r shorter. string_loop-Moves fuel out' r (omega arith))
