-- ===== src/Ast/Fixpoint/Report.antt =====
-- source/fastlint/ast/fixpoint.cc: what the report of a run says about its text.
use mathlib.Core.Path.{subst}
use Prim.Native.Nat.{max}
use fastlint.Base.{
  ℕ, zero, suc, ◌+◌, ◌-◌, ◌≤◌, ◌<◌, ◌≡◌, refl, Bool, true, false, not, ◌&&◌, ◌||◌, ltb, ◌==◌,
  is_empty, Bytes, bytes_eq, inl, inr, Bool-cases, arith,
}
use fastlint.Ast.Fixpoint.{
  Applied, Tools, FixpointReport, Loop, start, Round, stop, next, after_round, finish, revert,
  count_pass, converge, note_syntax_errors, count_fixes, print_round, pass_round, round, rounds,
  allowed, run_to_fixpoint,
}

module _ (tools : Tools) where
  open tools use {is_clean}

  -- What holds of the loop before its round `i`.
  record IsRunning (source : Bytes) (i : ℕ) (s : Loop) : Type 0 where
    passes : s.report.passes ≡ i
    first : i ≡ 0 → (s.text ≡ source) × (s.report.applied ≡ 0)
    earlier : 0 < i → is_clean s.previous ≡ true
    counted : s.last_applied ≤ s.report.applied
    none_yet :
        (s.report.converged ≡ false)
        × (s.report.reverted ≡ false)
        × (s.report.syntax_errors ≡ false)

  -- What the report says, once the loop is left by a `break`: it has converged or was reverted, and
  -- its text parses; or the source itself does not parse, and is left as it was.
  pub record IsReport (source : Bytes) (r : FixpointReport) : Type 0 where
    pub settled : (r.converged || r.reverted) ≡ not r.syntax_errors
    pub exclusive : (r.converged && r.reverted) ≡ false
    pub clean : is_clean r.text ≡ not r.syntax_errors
    pub untouched : r.syntax_errors ≡ true → (r.text ≡ source) × (r.applied ≡ 0) × (r.passes ≡ 1)

  abbrev After : Bytes → ℕ → Round → Type 0
  After source i (stop t) = IsReport source (finish t)
  After source i (next t) = IsRunning source (i + 1) t

  revert-IsReport :
      (source : Bytes) (i : ℕ) (s : Loop)
      → IsRunning source i s
      → 0 < i
      → IsReport source (finish (revert s))
  revert-IsReport source i s r later = record {
    settled = ground (arith, r.none_yet);
    exclusive = ground (arith, r.none_yet);
    clean = ground (arith, r.none_yet, r.earlier later);
    untouched = λ e. absurd (ground (arith, r.none_yet, e));
  }

  syntax_errors-IsReport :
      (source : Bytes) (s : Loop)
      → IsRunning source 0 s
      → is_clean s.text ≡ false
      → IsReport source (finish (note_syntax_errors (count_pass s)))
  syntax_errors-IsReport source s r dirty = record {
    settled = ground (arith, r.none_yet);
    exclusive = ground (arith, r.none_yet);
    clean = dirty;
    untouched = λ e. ((r.first refl).0, (r.first refl).1, omega (arith, r.passes));
  }

  -- A loop that breaks as converged with its text unchanged, whatever it counted.
  converge-IsReport :
      (source : Bytes) (t : Loop)
      → t.report.reverted ≡ false
      → t.report.syntax_errors ≡ false
      → is_clean t.text ≡ true
      → IsReport source (finish (converge t))
  converge-IsReport source t kept parsed clean = record {
    settled = ground (arith, kept, parsed);
    exclusive = ground (arith, kept);
    clean = ground (arith, parsed, clean);
    untouched = λ e. absurd (ground (arith, parsed, e));
  }

  print_round-After :
      (source : Bytes) (i : ℕ) (s : Loop) (a : Applied)
      → IsRunning source i s
      → is_clean s.text ≡ true
      → After source i (print_round a (count_pass s))
  unfolding print_round
  print_round-After source i s a r clean = elim (Bool-cases (a.applied == 0)) [
    | inl none ↦
        rw none
          (converge-IsReport source (count_fixes a (count_pass s)) r.none_yet.1 r.none_yet.2 clean)
    | inr some ↦ rw some (elim (Bool-cases (bytes_eq a.printed s.text)) [
      | inl same ↦
          rw same (
            converge-IsReport source (count_fixes a (count_pass s)) r.none_yet.1 r.none_yet.2 clean)
      | inr new ↦ rw new (record {
        passes = omega (arith, r.passes);
        first = λ e. absurd (omega (arith, e));
        earlier = λ h. clean;
        counted = omega arith;
        none_yet = r.none_yet;
      })
    ])
  ]

  pass_round-After :
      (source : Bytes) (i : ℕ) (s : Loop)
      → IsRunning source i s
      → (is_clean s.text ≡ false → i ≡ 0)
      → After source i (pass_round tools i s)
  unfolding pass_round
  pass_round-After source i s r first = elim (Bool-cases (is_clean s.text)) [
    | inr dirty ↦
        rw dirty (
          syntax_errors-IsReport source s (subst (λ j. IsRunning source j s) (first dirty) r) dirty)
    | inl clean ↦ rw clean (elim (Bool-cases (is_empty (tools.propose i s.text))) [
      | inl none ↦ rw none (converge-IsReport source (count_pass s) r.none_yet.1 r.none_yet.2 clean)
      | inr some ↦ rw some (print_round-After source i s _ r clean)
    ])
  ]

  round-After :
      (source : Bytes) (i : ℕ) (s : Loop) → IsRunning source i s → After source i (round tools i s)
  unfolding round
  round-After source i s r = elim (Bool-cases (not (is_clean s.text) && ltb 0 i)) [
    | inl broken ↦ rw broken (revert-IsReport source i s r (ground (arith, broken)))
    | inr fine ↦ rw fine (pass_round-After source i s r (λ dirty. ground (arith, fine, dirty)))
  ]

  -- A loop that is left by a `break` has set one of the three flags.
  abbrev pub is_settled : FixpointReport → Bool
  is_settled r = r.converged || r.reverted || r.syntax_errors

  rounds-IsReport :
      (source : Bytes) (left i : ℕ) (s : Loop)
      → IsRunning source i s
      → is_settled (finish (rounds tools left i s)) ≡ true
      → IsReport source (finish (rounds tools left i s))
  unfolding rounds
  rounds-IsReport source zero i s r h = absurd (ground (arith, r.none_yet, h))
  rounds-IsReport source (suc left) i s r h =
      after (round tools i s) (round-After source i s r) (rounds-IsReport source left (i + 1)) h
    where
      after :
          (m : Round)
          → After source i m
          → ((t : Loop)
              → IsRunning source (i + 1) t
              → is_settled (finish (rounds tools left (i + 1) t)) ≡ true
              → IsReport source (finish (rounds tools left (i + 1) t)))
          → is_settled (finish (after_round (rounds tools left (i + 1)) m)) ≡ true
          → IsReport source (finish (after_round (rounds tools left (i + 1)) m))
      after (stop t) a rest h = a
      after (next t) a rest h = rest t a h

  start-IsRunning : (source : Bytes) → IsRunning source 0 (start source)
  start-IsRunning source = record {
    passes = refl;
    first = λ e. (refl, refl);
    earlier = λ h. absurd (omega (arith, h));
    counted = omega arith;
    none_yet = (refl, refl, refl);
  }

  -- A run that is not cut off by the limit on its passes has either converged or taken back its last
  -- output, and its text parses; or its source does not parse, and after one pass it is returned as it
  -- was, with no fix applied.
  pub run_to_fixpoint-IsReport :
      (max_passes : ℕ) (source : Bytes)
      → is_settled (run_to_fixpoint tools max_passes source) ≡ true
      → IsReport source (run_to_fixpoint tools max_passes source)
  unfolding run_to_fixpoint
  run_to_fixpoint-IsReport max_passes source =
      rounds-IsReport source (allowed tools max_passes) 0 (start source) (start-IsRunning source)

  passes_of : Round → ℕ
  passes_of (stop t) = t.report.passes
  passes_of (next t) = t.report.passes

  round_passes :
      (i : ℕ) (s : Loop)
      → (passes_of (round tools i s) ≤ s.report.passes + 1)
        × (s.report.passes ≤ passes_of (round tools i s))
        × (i ≡ 0 → passes_of (round tools i s) ≡ s.report.passes + 1)
  unfolding round pass_round print_round passes_of
  round_passes i s = ground arith

  passes_between :
      (low high : ℕ) (rest : Loop → Loop) (m : Round)
      → low ≤ passes_of m
      → passes_of m ≤ high
      → ((t : Loop)
          → (t.report.passes ≤ (rest t).report.passes)
            × ((rest t).report.passes ≤ t.report.passes + (high - passes_of m)))
      → (low ≤ (after_round rest m).report.passes) × ((after_round rest m).report.passes ≤ high)
  unfolding passes_of
  passes_between low high rest (stop t) l h k = (l, h)
  passes_between low high rest (next t) l h k = omega (arith, (k t).0, (k t).1)

  rounds_passes :
      (left i : ℕ) (s : Loop)
      → (s.report.passes ≤ (rounds tools left i s).report.passes)
        × ((rounds tools left i s).report.passes ≤ s.report.passes + left)
  unfolding rounds
  rounds_passes zero i s = omega arith
  rounds_passes (suc left) i s =
      let m = round_passes i s in
      passes_between s.report.passes (s.report.passes + suc left) (rounds tools left (i + 1))
        (round tools i s) m.1 (omega (arith, m.0))
        (λ t.
          omega (arith, (rounds_passes left (i + 1) t).0, (rounds_passes left (i + 1) t).1, m.0))

  -- The callback runs at least once, and at most as often as the options say, or once where they say
  -- less.
  pub run_to_fixpoint_passes :
      (max_passes : ℕ) (source : Bytes)
      → let r = run_to_fixpoint tools max_passes source in
        (1 ≤ r.passes) × (r.passes ≤ max max_passes 1)
  unfolding run_to_fixpoint rounds
  run_to_fixpoint_passes max_passes source =
      first (allowed tools max_passes) (ground arith) (ground arith)
    where
      first :
          (n : ℕ)
          → 1 ≤ n
          → n ≤ max max_passes 1
          → (1 ≤ (rounds tools n 0 (start source)).report.passes)
            × ((rounds tools n 0 (start source)).report.passes ≤ max max_passes 1)
      first zero l h = absurd (omega arith)
      first (suc left) l h =
          let m = round_passes 0 (start source) in
          passes_between 1 (max max_passes 1) (rounds tools left 1) (round tools 0 (start source))
            (omega (arith, m.2 refl)) (omega (arith, m.0))
            (λ t. omega (arith, (rounds_passes left 1 t).0, (rounds_passes left 1 t).1, m.0))
