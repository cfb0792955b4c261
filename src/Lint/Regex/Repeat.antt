-- ===== src/Lint/Regex/Repeat.antt =====
-- source/fastlint/lint/regex.cc: the repetition of a term against its reading as a relation.
use fastlint.Base.{
  and_true, and_intro, or_true, or_left, or_right, ℕ, zero, suc, ◌+◌, ◌-◌, ◌≤◌, ◌<◌, ◌≡◌, sym, ap,
  ◌∙◌, ◌⊎◌, ◌↔◌, inl, inr, Bool, true, false, not, ◌&&◌, ◌||◌, arith, leb, ltb, ◌==◌, if◌then◌else◌,
  Bool-cases,
}
use fastlint.Lint.Regex.{Quantifier, can_more, match_repeat}

-- A repetition that has run `count` times and goes on from a position to an end.
pub data Repeats (R : ℕ → ℕ → Type 0) (q : Quantifier) : ℕ → ℕ → ℕ → Type 0 where
  enough : {count pos : ℕ} → q.min ≤ count → Repeats R q count pos pos
  again :
      {count pos next end : ℕ}
      → can_more q.max count ≡ true
      → R pos next
      → Repeats R q (suc count) next end
      → Repeats R q count pos end

-- A matcher in continuation style decides a relation.
abbrev pub IsSound : ((ℕ → Bool) → ℕ → Bool) → (ℕ → ℕ → Type 0) → Type 0
IsSound one R = (k : ℕ → Bool) (pos : ℕ) → one k pos ≡ true → (end : ℕ) × R pos end × (k end ≡ true)

abbrev pub IsComplete : ℕ → ((ℕ → Bool) → ℕ → Bool) → (ℕ → ℕ → Type 0) → Type 0
IsComplete size one R =
    (k : ℕ → Bool) (pos end : ℕ) → pos ≤ size → R pos end → k end ≡ true → one k pos ≡ true

-- It moves within a text of that length, and never back.
abbrev pub IsForward : ℕ → (ℕ → ℕ → Type 0) → Type 0
IsForward size R = (pos end : ℕ) → R pos end → pos ≤ size → (pos ≤ end) × (end ≤ size)

-- What the order of the two attempts comes to.
either_order : (greedy a b : Bool) → ((if greedy then a || b else b || a) ≡ true) ↔ (a || b ≡ true)
either_order true a b = ((λ h. h), λ h. h)
either_order false true true = ((λ h. h), λ h. h)
either_order false true false = ((λ h. h), λ h. h)
either_order false false true = ((λ h. h), λ h. h)
either_order false false false = ((λ h. h), λ h. h)

module _ (one : (ℕ → Bool) → ℕ → Bool) (R : ℕ → ℕ → Type 0) (q : Quantifier) where
  -- The continuation of one iteration.
  abbrev beyond : ℕ → ℕ → (ℕ → Bool) → ℕ → ℕ → Bool
  beyond fuel count k pos next =
      (not (next == pos) || ltb count q.min) && match_repeat one q fuel (suc count) k next

  pub match_repeat-IsSound :
      (fuel count : ℕ) → IsSound one R → IsSound (match_repeat one q fuel count) (Repeats R q count)
  unfolding match_repeat
  match_repeat-IsSound zero count s k pos h = absurd (cc)
  match_repeat-IsSound (suc fuel) count s k pos h =
      let more = can_more q.max count && one (beyond fuel count k pos) pos in
      let go = match_repeat-IsSound fuel (suc count) s k in
      let done = leb q.min count && k pos in
      elim (or_true more done ((either_order q.greedy more done).0 h)) [
        | inl m ↦
            let (c, o) = and_true (can_more q.max count) (one (beyond fuel count k pos) pos) m in
            let (next, step, rest) = s (beyond fuel count k pos) pos o in
            let (end, path, e) =
              go next ((and_true (not (next == pos) || ltb count q.min) _ rest).1) in
            (end, again c step path, e)
        | inr m ↦
            let (c, e) = and_true (leb q.min count) (k pos) m in
            (pos, enough (ground (arith, c)), e)
      ]

  -- An iteration in the relation that consumes nothing behind the minimum is left out.
  pub match_repeat-IsComplete :
      (size : ℕ)
      → IsComplete size one R
      → IsForward size R
      → (fuel count from : ℕ) (k : ℕ → Bool) (pos end : ℕ) → Repeats R q from pos end
      → count ≤ from
      → (count ≡ from) ⊎ (q.min ≤ count)
      → pos ≤ size
      → q.min - count + (size - pos) < fuel
      → k end ≡ true
      → match_repeat one q fuel count k pos ≡ true
  unfolding match_repeat
  match_repeat-IsComplete size c f zero count from k pos end r le from_eq in_text enough_fuel e =
      absurd (omega arith)
  match_repeat-IsComplete size c f (suc fuel) count from k pos end (enough low) le from_eq in_text
        enough_fuel e =
      let more = can_more q.max count && one (beyond fuel count k pos) pos in
      let done : (leb q.min count && k pos) ≡ true = and_intro _ _ (ground (arith, low)) e in
      (either_order q.greedy more (leb q.min count && k pos)).1 (or_right more _ done)
  match_repeat-IsComplete size c f (suc fuel) count from k pos end
        (again {next = next} can step path) le from_eq in_text enough_fuel e =
      let (ahead, next_in) = f pos next step in_text in
      elim (Bool-cases (not (next == pos) || ltb count q.min)) [
        | inl moves ↦
            let rest : match_repeat one q fuel (suc count) k next ≡ true =
              match_repeat-IsComplete size c f fuel (suc count) (suc from) k next end path
                (omega arith) (ground arith) next_in (ground arith) e in
            let more : (can_more q.max count && one (beyond fuel count k pos) pos) ≡ true =
              and_intro _ _ (ground (arith, can))
                (c (beyond fuel count k pos) pos next in_text step (and_intro _ _ moves rest)) in
            (either_order q.greedy _ (leb q.min count && k pos)).1 (or_left _ _ more)
        | inr still ↦
            let same : next ≡ pos = ground arith in
            ap (λ p. match_repeat one q (suc fuel) count k p) (sym same)
            ∙ match_repeat-IsComplete size c f (suc fuel) count (suc from) k next end path
                (omega arith) (inr (ground arith)) next_in (ground arith) e
      ]
