-- ===== src/Ast/Fixpoint/Again.antt =====
-- source/fastlint/ast/fixpoint.cc: what a second run finds, and what the limit lets through.
use fastlint.Base.{
  ℕ, zero, suc, ◌+◌, ◌≤◌, ◌<◌, ◌≡◌, refl, ◌∙◌, Bool, true, false, not, ◌&&◌, ◌||◌, ltb, ◌==◌,
  is_empty, Bytes, bytes_eq, inl, inr, Bool-cases, arith,
}
use fastlint.Ast.Fixpoint.{
  Tools, Loop, start, Round, stop, next, after_round, finish, count_pass, print_round, pass_round,
  round, rounds, allowed, run_to_fixpoint,
}

module _ (tools : Tools) where
  open tools use {is_clean, propose, apply}

  -- A text that the pass with this index leaves as it is.
  abbrev is_fixed : ℕ → Bytes → Bool
  is_fixed i text =
      is_clean text
      && (is_empty (propose i text)
          || (apply i text (propose i text)).applied == 0
          || bytes_eq (apply i text (propose i text)).printed text)

  -- A round that converges leaves a text that its pass leaves as it is.
  abbrev Fixes : ℕ → Round → Type 0
  Fixes i (stop t) = t.report.converged ≡ true → is_fixed i t.text ≡ true
  Fixes i (next t) = t.report.converged ≡ false

  round-Fixes : (i : ℕ) (s : Loop) → s.report.converged ≡ false → Fixes i (round tools i s)
  unfolding round pass_round print_round
  round-Fixes i s h = elim (Bool-cases (not (is_clean s.text) && ltb 0 i)) [
    | inl broken ↦ rw broken (λ e. absurd (ground (arith, h, e)))
    | inr fine ↦ rw fine (elim (Bool-cases (is_clean s.text)) [
      | inr dirty ↦ rw dirty (λ e. absurd (ground (arith, h, e)))
      | inl clean ↦ rw clean (elim (Bool-cases (is_empty (propose i s.text))) [
        | inl none ↦ rw none (λ e. rw (clean, none) refl)
        | inr some ↦ rw some (printed clean some)
      ])
    ])
  ]
    where
      printed :
          is_clean s.text ≡ true
          → is_empty (propose i s.text) ≡ false
          → Fixes i (print_round (apply i s.text (propose i s.text)) (count_pass s))
      printed clean some =
          let a = apply i s.text (propose i s.text) in
          elim (Bool-cases (a.applied == 0)) [
            | inl zero' ↦ rw zero' (λ e. rw (clean, some, zero') refl)
            | inr more ↦ rw more (elim (Bool-cases (bytes_eq a.printed s.text)) [
              | inl same ↦ rw same (λ e. rw (clean, some, more, same) refl)
              | inr new ↦ rw new h
            ])
          ]

  rounds-is_fixed :
      (left i : ℕ) (s : Loop)
      → s.report.converged ≡ false
      → (rounds tools left i s).report.converged ≡ true
      → (j : ℕ) × (is_fixed j (rounds tools left i s).text ≡ true)
  unfolding rounds
  rounds-is_fixed zero i s h e = absurd (ground (arith, h, e))
  rounds-is_fixed (suc left) i s h e =
      after (round tools i s) (round-Fixes i s h) (rounds-is_fixed left (i + 1)) e
    where
      after :
          (m : Round)
          → Fixes i m
          → ((t : Loop)
              → t.report.converged ≡ false
              → (rounds tools left (i + 1) t).report.converged ≡ true
              → (j : ℕ) × (is_fixed j (rounds tools left (i + 1) t).text ≡ true))
          → (after_round (rounds tools left (i + 1)) m).report.converged ≡ true
          → (j : ℕ) × (is_fixed j (after_round (rounds tools left (i + 1)) m).text ≡ true)
      after (stop t) f rest e = (i, f e)
      after (next t) f rest e = rest t f e

  -- A pass that leaves the text as it is ends the run.
  run_to_fixpoint-is_fixed :
      (max_passes : ℕ) (text : Bytes)
      → is_fixed 0 text ≡ true
      → let r = run_to_fixpoint tools max_passes text in
        (r.text ≡ text) × (r.converged ≡ true) × (r.passes ≡ 1)
  unfolding run_to_fixpoint
  run_to_fixpoint-is_fixed max_passes text h = first (allowed tools max_passes) (ground arith)
    where
      first :
          (n : ℕ)
          → 1 ≤ n
          → let r = finish (rounds tools n 0 (start text)) in
            (r.text ≡ text) × (r.converged ≡ true) × (r.passes ≡ 1)
      first zero l = absurd (omega arith)
      first (suc left) l = unfold rounds round pass_round print_round in ground (arith, h)

  -- Where the passes do not depend on their index, a run on the text of a run that converged leaves
  -- that text alone: it converges in one pass.
  pub run_to_fixpoint_again :
      (max_passes again : ℕ) (source : Bytes)
      → ((i j : ℕ) (text : Bytes) → is_fixed i text ≡ is_fixed j text)
      → (run_to_fixpoint tools max_passes source).converged ≡ true
      → let first = run_to_fixpoint tools max_passes source in
        let second = run_to_fixpoint tools again first.text in
        (second.text ≡ first.text) × (second.converged ≡ true) × (second.passes ≡ 1)
  unfolding run_to_fixpoint
  run_to_fixpoint_again max_passes again source stateless h =
      let f = rounds-is_fixed (allowed tools max_passes) 0 (start source) refl h in
      run_to_fixpoint-is_fixed again _ (stateless 0 f.0 _ ∙ f.1)

  -- With one pass allowed, an output that does not parse is returned and not taken back, whenever the
  -- source parses and the pass's fixes change it into such a text.
  pub run_to_fixpoint_unchecked :
      (source : Bytes)
      → is_clean source ≡ true
      → is_empty (propose 0 source) ≡ false
      → let a = apply 0 source (propose 0 source) in
        0 < a.applied
        → bytes_eq a.printed source ≡ false
        → is_clean a.printed ≡ false
        → let r = run_to_fixpoint tools 1 source in
          (r.text ≡ a.printed)
          × (is_clean r.text ≡ false)
          × (r.reverted ≡ false)
          × (r.applied ≡ a.applied)
  unfolding run_to_fixpoint rounds round pass_round print_round
  run_to_fixpoint_unchecked source clean some more new broken = ground arith
