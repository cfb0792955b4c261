-- ===== src/Lint/Regex/Search.antt =====
-- source/fastlint/lint/regex.cc: `search` against what the pattern matches.
use fastlint.Base.{
  and_true, and_intro, or_true, or_left, or_right, ℕ, zero, suc, ◌+◌, ◌≤◌, ◌≡◌, refl, sym, ap, ◌∙◌,
  ◌↔◌, inl, inr, Bool, true, ==_iff, Bool-cases, not, ◌&&◌, Option-cases, some, Bytes, arith, ◌==◌,
  length, get_elem?,
}
use fastlint.Lint.Regex.{
  Kind, char, any, class, begin, end, word_boundary, not_word_boundary, group, Sequence, stop, term,
  Alternatives, none_left, alternative, Regex, same_char, in_class, test_at, at_word_boundary,
  match_one, match_sequence, match_any, search_from, search, repeat_fuel,
}
use fastlint.Lint.Regex.Repeat.{IsSound, IsComplete, match_repeat-IsSound, match_repeat-IsComplete}
use fastlint.Lint.Regex.Matches.{
  Reads, Holds, Once, Through, Among, Repeats-IsForward, Once-IsForward,
}

test_at_elim :
    (text : Bytes) (pos : ℕ) (test : ℕ → Bool)
    → test_at text pos test ≡ true
    → (c : ℕ) × (get_elem? text pos ≡ some c) × (test c ≡ true)
unfolding test_at
test_at_elim text pos test h = elim (Option-cases (get_elem? text pos)) [
  | inl e ↦ absurd (ground arith)
  | inr (c, e) ↦ (c, e, ground arith)
]

test_at_intro :
    (text : Bytes) (pos c : ℕ) (test : ℕ → Bool)
    → get_elem? text pos ≡ some c
    → test c ≡ true
    → test_at text pos test ≡ true
unfolding test_at
test_at_intro text pos c test e h = ground arith

module _ (i : Bool) (text : Bytes) where
  Reads-IsSound :
      (test : ℕ → Bool) → IsSound (λ k pos. test_at text pos test && k (pos + 1)) (Reads text test)
  Reads-IsSound test k pos h =
      let (passes, e) = and_true (test_at text pos test) (k (pos + 1)) h in
      let (c, at, t) = test_at_elim text pos test passes in (pos + 1, (c, at, t, refl), e)

  Holds-IsSound :
      (test : ℕ → Bool) → IsSound (λ k pos. test pos && k pos) (λ pos. Holds (test pos) pos)
  Holds-IsSound test k pos h =
      let (passes, e) = and_true (test pos) (k pos) h in (pos, (passes, refl), e)

  mutual
    unfolding Once Through Among match_one match_sequence match_any

    match_one-IsSound : (t : Kind) → IsSound (match_one i text t) (Once i text t)
    match_one-IsSound (char ch) = Reads-IsSound (λ c. same_char i c ch)
    match_one-IsSound any = Reads-IsSound (λ c. not (c == 10) && not (c == 13))
    match_one-IsSound (class cls) = Reads-IsSound (in_class i cls)
    match_one-IsSound begin = Holds-IsSound (λ pos. pos == 0)
    match_one-IsSound end = Holds-IsSound (λ pos. pos == length text)
    match_one-IsSound word_boundary = Holds-IsSound (at_word_boundary text)
    match_one-IsSound not_word_boundary = Holds-IsSound (λ pos. not (at_word_boundary text pos))
    match_one-IsSound (group alternatives) = match_any-IsSound alternatives

    match_sequence-IsSound :
        (seq : Sequence) → IsSound (match_sequence i text seq) (Through i text seq)
    match_sequence-IsSound stop k pos h = (pos, refl, h)
    match_sequence-IsSound (term t q rest) k pos h =
        let (next, path, e) =
          match_repeat-IsSound (match_one i text t) (Once i text t) q (repeat_fuel q text) 0
            (match_one-IsSound t) (match_sequence i text rest k) pos h in
        let (last, r, f) = match_sequence-IsSound rest k next e in (last, (next, path, r), f)

    match_any-IsSound : (a : Alternatives) → IsSound (match_any i text a) (Among i text a)
    match_any-IsSound none_left k pos h = absurd (cc)
    match_any-IsSound (alternative seq rest) k pos h =
        elim (or_true (match_sequence i text seq k pos) (match_any i text rest k pos) h) [
          | inl m ↦ let (last, r, e) = match_sequence-IsSound seq k pos m in (last, inl r, e)
          | inr m ↦ let (last, r, e) = match_any-IsSound rest k pos m in (last, inr r, e)
        ]

  Reads-IsComplete :
      (test : ℕ → Bool)
      → IsComplete (length text) (λ k pos. test_at text pos test && k (pos + 1)) (Reads text test)
  Reads-IsComplete test k pos last h (c, at, t, behind) e =
      and_intro (test_at text pos test) (k (pos + 1)) (test_at_intro text pos c test at t)
        (ap k (sym behind) ∙ e)

  Holds-IsComplete :
      (test : ℕ → Bool)
      → IsComplete (length text) (λ k pos. test pos && k pos) (λ pos. Holds (test pos) pos)
  Holds-IsComplete test k pos last h (passes, same) e =
      and_intro (test pos) (k pos) passes (ap k (sym same) ∙ e)

  mutual
    unfolding Once Through Among match_one match_sequence match_any

    match_one-IsComplete :
        (t : Kind) → IsComplete (length text) (match_one i text t) (Once i text t)
    match_one-IsComplete (char ch) = Reads-IsComplete (λ c. same_char i c ch)
    match_one-IsComplete any = Reads-IsComplete (λ c. not (c == 10) && not (c == 13))
    match_one-IsComplete (class cls) = Reads-IsComplete (in_class i cls)
    match_one-IsComplete begin = Holds-IsComplete (λ pos. pos == 0)
    match_one-IsComplete end = Holds-IsComplete (λ pos. pos == length text)
    match_one-IsComplete word_boundary = Holds-IsComplete (at_word_boundary text)
    match_one-IsComplete not_word_boundary =
        Holds-IsComplete (λ pos. not (at_word_boundary text pos))
    match_one-IsComplete (group alternatives) = match_any-IsComplete alternatives

    match_sequence-IsComplete :
        (seq : Sequence) → IsComplete (length text) (match_sequence i text seq) (Through i text seq)
    match_sequence-IsComplete stop k pos last h r e = ap k (sym r) ∙ e
    match_sequence-IsComplete (term t q rest) k pos last h (next, path, r) e =
        let forward = Once-IsForward i text t in
        let (ahead, next_in) =
          Repeats-IsForward (length text) (Once i text t) q 0 pos next forward path h in
        let behind = match_sequence-IsComplete rest k next last next_in r e in
        match_repeat-IsComplete (match_one i text t) (Once i text t) q (length text)
          (match_one-IsComplete t) forward (repeat_fuel q text) 0 0 (match_sequence i text rest k)
          pos next path (omega arith) (inl refl) h (omega arith) behind

    match_any-IsComplete :
        (a : Alternatives) → IsComplete (length text) (match_any i text a) (Among i text a)
    match_any-IsComplete none_left k pos last h r e = absurd r
    match_any-IsComplete (alternative seq rest) k pos last h (inl r) e =
        or_left (match_sequence i text seq k pos) (match_any i text rest k pos)
          (match_sequence-IsComplete seq k pos last h r e)
    match_any-IsComplete (alternative seq rest) k pos last h (inr r) e =
        or_right (match_sequence i text seq k pos) (match_any i text rest k pos)
          (match_any-IsComplete rest k pos last h r e)

-- What `search` looks for: a stretch of the text that the pattern matches.
unfoldable pub Finds : Regex → Bytes → Type 0
Finds r text =
    (start : ℕ) × (last : ℕ) × (start ≤ length text) × Among r.ignore_case text r.root start last

search_from-IsSound :
    (r : Regex) (text : Bytes) (left start : ℕ)
    → start + left ≡ length text
    → search_from r text start left ≡ true
    → Finds r text
unfolding search_from Finds
search_from-IsSound r text zero start e h =
    let (last, m, t) = match_any-IsSound r.ignore_case text r.root (λ at. true) start h in
    (start, last, omega arith, m)
search_from-IsSound r text (suc left) start e h =
    elim (or_true (match_any r.ignore_case text r.root (λ at. true) start)
      (search_from r text (suc start) left) h) [
        | inl o ↦
            let (last, m, t) = match_any-IsSound r.ignore_case text r.root (λ at. true) start o in
            (start, last, omega arith, m)
        | inr o ↦ search_from-IsSound r text left (suc start) (omega arith) o
      ]

search_from-IsComplete :
    (r : Regex) (text : Bytes) (left start at last : ℕ)
    → start + left ≡ length text
    → start ≤ at
    → at ≤ length text
    → Among r.ignore_case text r.root at last
    → search_from r text start left ≡ true
unfolding search_from
search_from-IsComplete r text zero start at last e le within m =
    let here : at ≡ start = omega arith in
    ap (match_any r.ignore_case text r.root (λ at. true)) (sym here)
    ∙ match_any-IsComplete r.ignore_case text r.root (λ at. true) at last within m refl
search_from-IsComplete r text (suc left) start at last e le within m =
    let now = match_any r.ignore_case text r.root (λ at. true) in
    let found = match_any-IsComplete r.ignore_case text r.root (λ at. true) at last within m refl in
    elim (Bool-cases (start == at)) [
      | inl same ↦
          or_left (now start) (search_from r text (suc start) left)
            (ap now ((==_iff start at).0 same) ∙ found)
      | inr off ↦ or_right (now start) (search_from r text (suc start) left) (
          search_from-IsComplete r text left (suc start) at last (omega arith) (ground (arith, off))
            within m)
    ]

-- A search succeeds exactly when the pattern matches some stretch of the text, where a term that
-- repeats may run any number of times its bounds allow, also through iterations that read nothing.
pub search_lem : (r : Regex) (text : Bytes) → (search r text ≡ true) ↔ Finds r text
unfolding search Finds
search_lem r text = (
  search_from-IsSound r text (length text) 0 (omega arith),
  λ (start, last, within, m).
      search_from-IsComplete r text (length text) 0 start last (omega arith) (omega arith) within m,
)
