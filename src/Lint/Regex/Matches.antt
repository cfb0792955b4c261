-- ===== src/Lint/Regex/Matches.antt =====
-- source/fastlint/lint/regex.cc: what a pattern matches, as a relation.
use fastlint.Base.{
  get_elem?-length, ℕ, suc, ◌+◌, ◌≤◌, ◌≡◌, ◌⊎◌, inl, inr, Bool, true, not, ◌&&◌, some, Bytes, arith,
  ◌==◌, length, get_elem?,
}
use fastlint.Lint.Regex.{
  Kind, char, any, class, begin, end, word_boundary, not_word_boundary, group, Sequence, stop, term,
  Alternatives, none_left, alternative, Quantifier, same_char, in_class, at_word_boundary,
}
use fastlint.Lint.Regex.Repeat.{Repeats, enough, again, IsForward}

-- The byte at a position passes a test, and the last is behind it.
abbrev pub Reads : Bytes → (ℕ → Bool) → ℕ → ℕ → Type 0
Reads text test pos last =
    (c : ℕ) × (get_elem? text pos ≡ some c) × (test c ≡ true) × (last ≡ pos + 1)

-- A test of the position itself.
abbrev pub Holds : Bool → ℕ → ℕ → Type 0
Holds test pos last = (test ≡ true) × (last ≡ pos)

-- The stretches of a text that a term, a sequence and a group match.
unfoldable mutual
  pub Once : Bool → Bytes → Kind → ℕ → ℕ → Type 0
  Once i text (char ch) = Reads text (λ c. same_char i c ch)
  Once i text any = Reads text (λ c. not (c == 10) && not (c == 13))
  Once i text (class cls) = Reads text (in_class i cls)
  Once i text begin = λ pos. Holds (pos == 0) pos
  Once i text end = λ pos. Holds (pos == length text) pos
  Once i text word_boundary = λ pos. Holds (at_word_boundary text pos) pos
  Once i text not_word_boundary = λ pos. Holds (not (at_word_boundary text pos)) pos
  Once i text (group alternatives) = Among i text alternatives

  pub Through : Bool → Bytes → Sequence → ℕ → ℕ → Type 0
  Through i text stop pos last = last ≡ pos
  Through i text (term t q rest) pos last =
      (next : ℕ) × Repeats (Once i text t) q 0 pos next × Through i text rest next last

  pub Among : Bool → Bytes → Alternatives → ℕ → ℕ → Type 0
  Among i text none_left pos last = ⊥
  Among i text (alternative seq rest) pos last =
      Through i text seq pos last ⊎ Among i text rest pos last

pub Repeats-IsForward :
    (size : ℕ) (R : ℕ → ℕ → Type 0) (q : Quantifier) (count pos last : ℕ)
    → IsForward size R
    → Repeats R q count pos last
    → pos ≤ size
    → (pos ≤ last) × (last ≤ size)
Repeats-IsForward size R q count pos last f (enough low) h = ground arith
Repeats-IsForward size R q count pos last f (again {next = next} can step path) h =
    ground (arith, f pos next step, Repeats-IsForward size R q (suc count) next last f path)

module _ (i : Bool) (text : Bytes) where
  Reads-IsForward : (test : ℕ → Bool) → IsForward (length text) (Reads text test)
  Reads-IsForward test pos last (c, at, passes, e) h =
      ground (arith, get_elem?-length text pos c at)

  Holds-IsForward : (test : ℕ → Bool) → IsForward (length text) (λ pos. Holds (test pos) pos)
  Holds-IsForward test pos last (passes, e) h = ground arith

  mutual
    unfolding Once Through Among

    pub Once-IsForward : (t : Kind) → IsForward (length text) (Once i text t)
    Once-IsForward (char ch) = Reads-IsForward (λ c. same_char i c ch)
    Once-IsForward any = Reads-IsForward (λ c. not (c == 10) && not (c == 13))
    Once-IsForward (class cls) = Reads-IsForward (in_class i cls)
    Once-IsForward begin = Holds-IsForward (λ pos. pos == 0)
    Once-IsForward end = Holds-IsForward (λ pos. pos == length text)
    Once-IsForward word_boundary = Holds-IsForward (at_word_boundary text)
    Once-IsForward not_word_boundary = Holds-IsForward (λ pos. not (at_word_boundary text pos))
    Once-IsForward (group alternatives) = Among-IsForward alternatives

    Through-IsForward : (seq : Sequence) → IsForward (length text) (Through i text seq)
    Through-IsForward stop pos last e h = ground arith
    Through-IsForward (term t q rest) pos last (next, path, then_rest) h =
        let one = Once-IsForward t in
        let behind = Through-IsForward rest next last then_rest in
        ground
          (arith, Repeats-IsForward (length text) (Once i text t) q 0 pos next one path h, behind)

    Among-IsForward : (a : Alternatives) → IsForward (length text) (Among i text a)
    Among-IsForward none_left pos last r h = absurd r
    Among-IsForward (alternative seq rest) pos last (inl r) h = Through-IsForward seq pos last r h
    Among-IsForward (alternative seq rest) pos last (inr r) h = Among-IsForward rest pos last r h
