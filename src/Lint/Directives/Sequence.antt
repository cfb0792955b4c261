-- ===== src/Lint/Directives/Sequence.antt =====
-- source/fastlint/lint/directives.cc: `suppressor` on problems that arrive in source order.
use mathlib.Core.Path.{subst, fun_ext}
use fastlint.Base.{
  ℕ, ◌+◌, ◌≤◌, ◌≡◌, refl, sym, ap, ◌∙◌, false, not, ◌&&◌, ◌||◌, Option, none, some, List, [], ◌∷◌,
  ◌++◌, append_assoc, append-nil, arith, Bytes, ltb, if◌then◌else◌, length, length-append, drop,
  drop-length-append, bytes_eq, Bool-cases, Option-cases, inl, inr, get_or-append_right,
}
use fastlint.Lint.Directives.{
  Problem, Directive, DirectiveSet, any, no_directive, at, mark_used, line_match, Removal, replay,
  advance_over, advance, use_directive, block_match, answer, suppressor,
}
use fastlint.Lint.Directives.Replay.{
  is_some, is_disable, concerns, is_off, within, blocks, block_match-blocks, replay-blocks,
}
use fastlint.Lint.Directives.Marked.{
  Early, Early-later, Early-append, is_off-append, within-Early, within-behind, nothing,
  mark_used-split, at-mark_used,
}

abbrev pub fresh_set : List Directive → List Problem → DirectiveSet
fresh_set ds problems = record {
  directives = ds;
  problems = problems;
  next = 0;
  disable_all = none;
  disabled = [];
  enabled = [];
}

module _ (indices : Removal ℕ) (rules : Removal Bytes) where
  replay-directives :
      (d : Directive) (s : DirectiveSet) → (replay indices rules d s).directives ≡ s.directives
  unfolding replay
  replay-directives d s = ground arith

  -- The directives before `todo` are replayed, and all of them start by the offset.
  pub record Replayed (o : ℕ) (done todo : List Directive) (s : DirectiveSet) : Type 0 where
    pub split : s.directives ≡ done ++ todo
    pub place : s.next ≡ length done
    pub off : (rule : Bytes) → blocks indices rules s rule ≡ is_off false done rule
    pub early : Early o done

  replay-Replayed :
      (o : ℕ) (done todo : List Directive) (d : Directive) (s : DirectiveSet)
      → d.offset ≤ o
      → Replayed o done (d ∷ todo) s
      → Replayed o (done ++ d ∷ []) todo (record (replay indices rules d s) { next = s.next + 1 })
  replay-Replayed o done todo d s h r =
      let here : at s.directives s.next ≡ d =
        rw (r.split, r.place)
          (get_or-append_right done (d ∷ todo) (length done) 0 no_directive (omega arith)) in
      record {
        split = replay-directives d s ∙ r.split ∙ sym (append_assoc done (d ∷ []) todo);
        place = omega (arith, r.place, length-append done (d ∷ []));
        off = λ rule.
            replay-blocks indices rules d s rule here
            ∙ ap (λ b. if concerns d rule then is_disable d.kind else b) (r.off rule)
            ∙ sym (unfold is_off in is_off-append false done (d ∷ []) rule);
        early = Early-append o done d r.early h;
      }

  -- After `advance`, exactly the directives up to the offset are replayed.
  pub record Settled (o : ℕ) (s : DirectiveSet) : Type 0 where
    pub todo : List Directive
    pub replayed : Replayed o (within o s.directives) todo s

  advance_over-Settled :
      (o : ℕ) (done todo : List Directive) (s : DirectiveSet)
      → Replayed o done todo s
      → Settled o (advance_over indices rules o todo s)
  unfolding advance_over
  advance_over-Settled o done [] s r = record {
    todo = [];
    replayed =
        subst (λ xs. Replayed o xs [] s)
          (sym (ap (within o) r.split ∙ within-Early o done [] r.early ∙ nothing o done)) r;
  }
  advance_over-Settled o done (d ∷ todo) s r = elim (Bool-cases (ltb o d.offset)) [
    | inl behind ↦ rw behind (record {
      todo = d ∷ todo;
      replayed =
          subst (λ xs. Replayed o xs (d ∷ todo) s)
            (sym (
              ap (within o) r.split
              ∙ within-Early o done (d ∷ todo) r.early
              ∙ ap (λ xs. done ++ xs) (within-behind o d todo behind)
              ∙ append-nil done))
            r;
    })
    | inr reached ↦ rw reached (
        advance_over-Settled o (done ++ d ∷ []) todo _
          (replay-Replayed o done todo d s (ground arith) r))
  ]

  pub record Unsettled (o : ℕ) (s : DirectiveSet) : Type 0 where
    pub done : List Directive
    pub todo : List Directive
    pub replayed : Replayed o done todo s

  advance-Settled :
      (o p : ℕ) (done todo : List Directive) (s : DirectiveSet)
      → o ≤ p
      → Replayed o done todo s
      → Settled p (advance indices rules p s)
  unfolding advance
  advance-Settled o p done todo s h r =
      let later : Replayed p done todo s = record {
        split = r.split;
        place = r.place;
        off = r.off;
        early = Early-later o p done h r.early;
      } in
      let rest : drop s.next s.directives ≡ todo =
        rw (r.split, r.place) (drop-length-append done todo) in
      subst (λ ds. Settled p (advance_over indices rules p ds s)) (sym rest)
        (advance_over-Settled p done todo s later)

  use_directive-blocks :
      (i : ℕ) (s : DirectiveSet) (rule : Bytes)
      → blocks indices rules (use_directive indices rules i s) rule ≡ blocks indices rules s rule
  use_directive-blocks i s rule =
      ap
        (λ p.
          any p s.disabled || (is_some s.disable_all && not (any (λ r. bytes_eq r rule) s.enabled)))
        (fun_ext (λ j. ap (λ r. bytes_eq r rule) (at-mark_used s.directives i j)))

  use_directive-Replayed :
      (o i : ℕ) (done todo : List Directive) (s : DirectiveSet)
      → Replayed o done todo s
      → Unsettled o (use_directive indices rules i s)
  use_directive-Replayed o i done todo s r =
      let m = mark_used-split done todo i in
      record {
        done = m.done';
        todo = m.todo';
        replayed = record {
          split = ap (λ ds. mark_used ds i) r.split ∙ m.split;
          place = omega (arith, r.place, m.size);
          off = λ rule. use_directive-blocks i s rule ∙ r.off rule ∙ sym (m.off false rule);
          early = m.early o r.early;
        };
      }

  answer-Unsettled :
      (p : ℕ) (m : Option ℕ) (t : DirectiveSet)
      → Settled p t
      → Unsettled p (answer indices rules m t).1
  answer-Unsettled p none t c = record {
    done = within p t.directives;
    todo = c.todo;
    replayed = c.replayed;
  }
  answer-Unsettled p (some i) t c =
      use_directive-Replayed p i (within p t.directives) c.todo t c.replayed

  suppressor-Unsettled :
      (o p : ℕ) (rule : Bytes) (line : ℕ) (s : DirectiveSet)
      → o ≤ p
      → Unsettled o s
      → Unsettled p (suppressor indices rules rule p line s).1
  unfolding suppressor
  suppressor-Unsettled o p rule line s h u =
      elim (Option-cases (line_match rule line 0 s.directives)) [
        | inl e ↦ rw e (answer-Unsettled p _ _ (advance-Settled o p u.done u.todo s h u.replayed))
        | inr (i, e) ↦ rw e (
            use_directive-Replayed p i u.done u.todo s (record {
              split = u.replayed.split;
              place = u.replayed.place;
              off = u.replayed.off;
              early = Early-later o p u.done h u.replayed.early;
            }))
      ]

  -- What a set of directives has been asked: each problem at or behind the one before.
  pub data Asked : ℕ → DirectiveSet → Type 0 where
    fresh : (ds : List Directive) (problems : List Problem) → Asked 0 (fresh_set ds problems)
    ask :
        {o : ℕ} {s : DirectiveSet} (p : ℕ) (rule : Bytes) (line : ℕ)
        → Asked o s
        → o ≤ p
        → Asked p (suppressor indices rules rule p line s).1

  Asked-Unsettled : {o : ℕ} {s : DirectiveSet} → Asked o s → Unsettled o s
  unfolding is_off
  Asked-Unsettled (fresh ds problems) = record {
    done = [];
    todo = ds;
    replayed = record { split = refl; place = refl; off = λ rule. refl; early = tt };
  }
  Asked-Unsettled (ask {o} {s} p rule line a h) =
      suppressor-Unsettled o p rule line s h (Asked-Unsettled a)

  advance_over-directives :
      (o : ℕ) (ds : List Directive) (s : DirectiveSet)
      → (advance_over indices rules o ds s).directives ≡ s.directives
  unfolding advance_over
  advance_over-directives o [] s = refl
  advance_over-directives o (d ∷ ds) s = elim (Bool-cases (ltb o d.offset)) [
    | inl behind ↦ rw behind refl
    | inr reached ↦ rw reached (advance_over-directives o ds _ ∙ replay-directives d s)
  ]

  answer-is_some :
      (m : Option ℕ) (t : DirectiveSet) → is_some (answer indices rules m t).0 ≡ is_some m
  answer-is_some none t = refl
  answer-is_some (some i) t = refl

  -- With removals that keep the order: where no line directive covers the problem, it is suppressed
  -- exactly when, of the directives that start at or before it, the last block directive about its
  -- rule or about every rule is a `disable`: whatever problems were asked about before, each at or
  -- behind the one before it.
  pub suppressor-is_off :
      (o p : ℕ) (rule : Bytes) (line : ℕ) (s : DirectiveSet)
      → Asked o s
      → o ≤ p
      → line_match rule line 0 s.directives ≡ none
      → is_some (suppressor indices rules rule p line s).0
        ≡ is_off false (within p s.directives) rule
  unfolding suppressor
  suppressor-is_off o p rule line s a h e =
      let u = Asked-Unsettled a in
      let t = advance indices rules p s in
      let c = advance-Settled o p u.done u.todo s h u.replayed in
      let same : t.directives ≡ s.directives =
        unfold advance in advance_over-directives p (drop s.next s.directives) s in
      rw e (
        answer-is_some (block_match indices rules rule t) t
        ∙ block_match-blocks indices rules rule t
        ∙ c.replayed.off rule
        ∙ ap (λ ds. is_off false (within p ds) rule) same)
