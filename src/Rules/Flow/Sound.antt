-- ===== src/Rules/Flow/Sound.antt =====
-- source/fastlint/rules/flow.cc: the completion analysis, against the runs of `Semantics`.
use Prim.Native.String.{String}
use text.Mathlib.Text.{◌==◌ as str_eq}
use text.Mathlib.TextEquality.{eq_iff}
use mathlib.Core.Bool.{or-true, true-or}
use mathlib.Core.Path.{subst}
use fastlint.Base.{
  ap, ◌∙◌, ◌≡◌, ◌≢◌, refl, Bool, true, false, ◌||◌, Option, none, some, List, [], ◌∷◌, arith,
  Bool-cases, inl, inr,
}
use fastlint.Rules.Flow.{
  Node, continue_statement, block, labeled_statement, do_while_statement, Nodes, nil, cons, OptNode,
  absent, present, Handler, Cases, no_cases, case, constant_true, is_none, has_unlabelled_break,
  breaks_in, breaks_in_opt, has_unlabelled_continue, has_labelled_jump, scan_cases,
  switch_completes, completes_normally, sequence_completes_normally, last_completes,
  handler_completes, finalizer_completes,
}
use fastlint.Rules.Flow.Semantics.{
  Outcome, normal, broke, continued, contains, after_body, unlabel, unbreak, has_default, Run,
  raises, returns, breaks, continues, blocks, takes, skips, alternates, labels, selects,
  selects_none, while_ends, while_leaves, do_ends, do_leaves, for_ends, for_leaves, for_in_ends,
  for_in_leaves, withs, tries, declares, evaluates, runs_other, Runs, done, next, stop, Guarded,
  passes, catches, Finally, no_finalizer, keeps, overrides, Selects, enters, passes_by, Falls,
  falls_out, falls, leaves, NoneTargets, NoLabelledDo, NoLabelledDos, NoLabelledDoOpt,
  NoLabelledDoHandler, NoLabelledDoCases,
}
use fastlint.Rules.Flow.Jumps.{shown, breaks_in_cases, shown_in_cases, Run-shown, Selects-shown}

scan_cases-breaks : (cs : Cases) (d : Bool) → breaks_in_cases cs ≡ true → scan_cases cs d ≡ none
unfolding scan_cases breaks_in_cases
scan_cases-breaks no_cases d h = cc
scan_cases-breaks (case t ns cs) d h = elim (Bool-cases (breaks_in_opt t || breaks_in ns)) [
  | inl own ↦ rw own refl
  | inr later ↦ rw later (scan_cases-breaks cs _ (rw later at h))
]

scan_cases-no_default :
    (cs : Cases) (last : Bool)
    → has_default cs ≡ false
    → switch_completes (scan_cases cs false) last ≡ true
unfolding scan_cases has_default switch_completes
scan_cases-no_default no_cases last h = refl
scan_cases-no_default (case t ns cs) last h = ground (arith, scan_cases-no_default cs last)

switch_completes-last : (o : Option Bool) → switch_completes o true ≡ true
unfolding switch_completes
switch_completes-last none = refl
switch_completes-last (some d) = or-true _

-- A loop that leaves its body normally was left by an unlabelled `break`.
after_body-normal :
    (ls : List String) (b : Node) (o : Outcome)
    → shown o b ≡ true
    → after_body ls o ≡ some normal
    → has_unlabelled_break b ≡ true
after_body-normal ls b (broke none) h e = h
after_body-normal ls b (continued (some l)) h e = elim (Bool-cases (contains ls l)) [
  | inl own ↦ absurd (let q : none ≡ some normal = rw own at e in cc)
  | inr outer ↦ absurd (let q : some (continued (some l)) ≡ some normal = rw outer at e in cc)
]
after_body-normal ls b o h e = absurd (cc)

-- A label among those of a `do` loop is the target of no `continue` in its body.
NoneTargets-contains :
    (ls : List String) (l : String) (b : Node)
    → NoneTargets ls b
    → contains ls l ≡ true
    → has_labelled_jump true l b ≡ false
NoneTargets-contains [] l b h e = absurd (cc)
NoneTargets-contains (x ∷ xs) l b h e = elim (Bool-cases (str_eq x l)) [
  | inl same ↦ subst (λ y. has_labelled_jump true y b ≡ false) ((eq_iff x l).0 same) h.0
  | inr differ ↦ NoneTargets-contains xs l b h.1 (rw differ at e)
]

-- The body of a `do` loop that goes on to its test completes, or has an unlabelled `continue`.
after_body-none :
    (ls : List String) (b : Node) (o : Outcome)
    → shown o b ≡ true
    → NoneTargets ls b
    → after_body ls o ≡ none
    → (o ≡ normal → completes_normally b ≡ true)
    → (completes_normally b || has_unlabelled_continue b) ≡ true
after_body-none ls b normal h n e k = rw (k refl) refl
after_body-none ls b (continued none) h n e k = rw h (or-true _)
after_body-none ls b (continued (some l)) h n e k = elim (Bool-cases (contains ls l)) [
  | inl own ↦ absurd (cc (h, NoneTargets-contains ls l b n own))
  | inr outer ↦ absurd (let q : some (continued (some l)) ≡ none = rw outer at e in cc)
]
after_body-none ls b (broke none) h n e k = absurd (cc)
after_body-none ls b o h n e k = absurd (cc)

unlabel-normal :
    (l : String) (s : Node) (o : Outcome)
    → shown o s ≡ true
    → unlabel l o ≡ normal
    → (o ≡ normal → completes_normally s ≡ true)
    → (completes_normally s || has_labelled_jump false l s) ≡ true
unlabel-normal l s normal h e k = rw (k refl) refl
unlabel-normal l s (broke (some t)) h e k = elim (Bool-cases (str_eq t l)) [
  | inl own ↦
      rw (subst (λ y. has_labelled_jump false y s ≡ true) ((eq_iff t l).0 own) h) (or-true _)
  | inr outer ↦ absurd (let q : broke (some t) ≡ normal = rw outer at e in cc)
]
unlabel-normal l s o h e k = absurd (cc)

unbreak-normal :
    (cs : Cases) (o : Outcome)
    → shown_in_cases o cs ≡ true
    → unbreak o ≡ normal
    → (o ≡ normal → last_completes cs ≡ true)
    → switch_completes (scan_cases cs false) (last_completes cs) ≡ true
unbreak-normal cs normal h e k = rw (k refl) (switch_completes-last _)
unbreak-normal cs (broke none) h e k =
    unfold switch_completes in rw (scan_cases-breaks cs false h) refl
unbreak-normal cs o h e k = absurd (cc)

Selects-ne-no_cases : {cs : Cases} {o : Outcome} → Selects cs o → cs ≢ no_cases
Selects-ne-no_cases (enters r) = cc
Selects-ne-no_cases (passes_by r) = cc

mutual
  unfolding completes_normally NoLabelledDo

  Run-completes :
      {ls : List String} {s : Node} {o : Outcome}
      → Run ls s o
      → NoLabelledDo ls s
      → o ≡ normal
      → completes_normally s ≡ true
  Run-completes (raises s) n e = absurd (cc)
  Run-completes (returns ns) n e = absurd (cc)
  Run-completes (breaks l) n e = absurd (cc)
  Run-completes (continues l) n e = absurd (cc)
  Run-completes (blocks r) n e = Runs-completes r n e
  Run-completes (takes {a = absent} r) n e = refl
  Run-completes (takes {a = present a} r) n e = simp (Run-completes r n.0 e, true-or)
  Run-completes (skips t c) n e = refl
  Run-completes (alternates r) n e = simp (Run-completes r n.1 e, or-true)
  Run-completes (labels {l} {s} o r q) n e =
      unlabel-normal l s o (Run-shown r) (q ∙ e) (Run-completes r n)
  Run-completes (selects {cs} o r q) n e =
      unbreak-normal cs o (Selects-shown r) (q ∙ e) (Selects-completes r n)
  Run-completes (selects_none d cs h) n e = scan_cases-no_default cs (last_completes cs) h
  Run-completes (while_ends t b h) n e = rw h refl
  Run-completes {ls} (while_leaves {b} o r q) n e =
      simp (after_body-normal ls b o (Run-shown r) (q ∙ ap some e), or-true)
  Run-completes {ls} (do_ends {b} o r q h) n e =
      simp (h, after_body-none ls b o (Run-shown r) n.1 q (Run-completes r n.0), or-true)
  Run-completes {ls} (do_leaves {b} o r q) n e =
      simp (after_body-normal ls b o (Run-shown r) (q ∙ ap some e), true-or)
  Run-completes (for_ends i t u b h) n e = rw h refl
  Run-completes {ls} (for_leaves {b} o r q) n e =
      simp (after_body-normal ls b o (Run-shown r) (q ∙ ap some e), or-true)
  Run-completes (for_in_ends x c b) n e = refl
  Run-completes (for_in_leaves o r q) n e = refl
  Run-completes (withs r) n e = Run-completes r n e
  Run-completes (tries {b} {h} o g f) n e =
      let after = Finally-completes f n.2 e in simp (after.0, Guarded-completes g n.0 n.1 after.1)
  Run-completes (declares ns) n e = refl
  Run-completes (evaluates t) n e = refl
  Run-completes (runs_other ns) n e = refl

  Runs-completes :
      {ns : Nodes} {o : Outcome}
      → Runs ns o
      → NoLabelledDos ns
      → o ≡ normal
      → sequence_completes_normally ns ≡ true
  Runs-completes done n e = refl
  Runs-completes (next r q) n e = simp (Run-completes r n.0 refl, Runs-completes q n.1 e)
  Runs-completes (stop r h) n e = absurd (h e)

  Guarded-completes :
      {b : Node} {h : Handler} {o : Outcome}
      → Guarded b h o
      → NoLabelledDo [] b
      → NoLabelledDoHandler h
      → o ≡ normal
      → (completes_normally b || handler_completes h) ≡ true
  Guarded-completes (passes r) n m e = simp (Run-completes r n e, true-or)
  Guarded-completes (catches r q) n m e = simp (Run-completes q m e, or-true)

  Finally-completes :
      {f : OptNode} {o p : Outcome}
      → Finally f o p
      → NoLabelledDoOpt f
      → p ≡ normal
      → (finalizer_completes f ≡ true) × (o ≡ normal)
  Finally-completes (no_finalizer o) n e = (refl, e)
  Finally-completes (keeps o r) n e = (Run-completes r n refl, e)
  Finally-completes (overrides o r h) n e = absurd (h e)

  Selects-completes :
      {cs : Cases} {o : Outcome}
      → Selects cs o
      → NoLabelledDoCases cs
      → o ≡ normal
      → last_completes cs ≡ true
  Selects-completes (enters r) n e = Falls-completes r n e
  Selects-completes (passes_by {cs = no_cases} r) n e = absurd (Selects-ne-no_cases r refl)
  Selects-completes (passes_by {cs = case t ns cs} r) n e = Selects-completes r n.1 e

  Falls-completes :
      {cs : Cases} {o : Outcome}
      → Falls cs o
      → NoLabelledDoCases cs
      → o ≡ normal
      → last_completes cs ≡ true
  Falls-completes falls_out n e = refl
  Falls-completes (falls {cs = no_cases} r q) n e = Runs-completes r n.0 refl
  Falls-completes (falls {cs = case t ns cs} r q) n e = Falls-completes q n.1 e
  Falls-completes (leaves r h) n e = absurd (h e)

-- If the analysis says that a statement cannot complete, then no run of it falls off its end,
-- provided that no `continue` names a `do` loop around it by a label of that loop.
pub completes_normally_sound :
    (ls : List String) (s : Node)
    → NoLabelledDo ls s
    → completes_normally s ≡ false
    → ¬ Run ls s normal
completes_normally_sound ls s n h r = absurd (cc (h, Run-completes r n refl))

abbrev pub labelled_do : String → Node → Node
labelled_do l t =
    labeled_statement l (do_while_statement (block (cons (continue_statement (some l)) nil)) t)

-- A `do` loop with a label, whose whole body is a `continue` to that label and whose test is not the
-- literal `true` and holds no `break` to the label: a run falls off its end, and the analysis says
-- that it cannot complete.
pub labelled_do_missed :
    (l : String) (t : Node)
    → constant_true t ≡ false
    → has_labelled_jump false l t ≡ false
    → (completes_normally (labelled_do l t) ≡ false) × Run [] (labelled_do l t) normal
unfolding completes_normally has_unlabelled_break has_labelled_jump has_unlabelled_continue is_none
labelled_do_missed l t h no_break = (
  simp (no_break, h),
  labels normal
      (do_ends (continued (some l)) (blocks (stop (continues (some l)) (cc)))
        (rw ((eq_iff l l).1 refl) refl) h)
      refl,
)
