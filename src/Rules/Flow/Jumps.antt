-- ===== src/Rules/Flow/Jumps.antt =====
-- source/fastlint/rules/flow.cc: the walks for jumps, against the runs of `Semantics`.
use Prim.Native.String.{String}
use text.Mathlib.Text.{◌==◌ as str_eq}
use text.Mathlib.TextEquality.{eq_iff}
use mathlib.Core.Bool.{or-true, true-or}
use mathlib.Core.Option.{some-injective}
use mathlib.Core.Path.{subst}
use fastlint.Base.{◌≡◌, refl, Bool, true, false, ◌||◌, none, some, List, Bool-cases, inl, inr}
use fastlint.Rules.Flow.{
  Node, block, if_statement, labeled_statement, switch_statement, while_statement,
  do_while_statement, for_statement, for_in, with_statement, try_statement, Nodes, cons, OptNode,
  present, Handler, catch, Cases, no_cases, case, is_none, targets, has_unlabelled_break, breaks_in,
  breaks_in_opt, breaks_in_handler, has_unlabelled_continue, continues_in, continues_in_opt,
  continues_in_handler, continues_in_cases, has_labelled_jump, jumps_in, jumps_in_opt,
  jumps_in_handler, jumps_in_cases,
}
use fastlint.Rules.Flow.Semantics.{
  Outcome, normal, returned, thrown, broke, continued, contains, after_body, unlabel, unbreak, Run,
  raises, returns, breaks, continues, blocks, takes, skips, alternates, labels, selects,
  selects_none, while_ends, while_leaves, do_ends, do_leaves, for_ends, for_leaves, for_in_ends,
  for_in_leaves, withs, tries, declares, evaluates, runs_other, Runs, done, next, stop, Guarded,
  passes, catches, Finally, no_finalizer, keeps, overrides, Selects, enters, passes_by, Falls,
  falls_out, falls, leaves,
}

-- Whether the walk for the jump of an outcome finds it.
abbrev pub shown : Outcome → Node → Bool
shown (broke none) s = has_unlabelled_break s
shown (broke (some l)) s = has_labelled_jump false l s
shown (continued none) s = has_unlabelled_continue s
shown (continued (some l)) s = has_labelled_jump true l s
shown _ s = true

abbrev pub shown_in : Outcome → Nodes → Bool
shown_in (broke none) ns = breaks_in ns
shown_in (broke (some l)) ns = jumps_in false l ns
shown_in (continued none) ns = continues_in ns
shown_in (continued (some l)) ns = jumps_in true l ns
shown_in _ ns = true

abbrev pub shown_in_opt : Outcome → OptNode → Bool
shown_in_opt (broke none) f = breaks_in_opt f
shown_in_opt (broke (some l)) f = jumps_in_opt false l f
shown_in_opt (continued none) f = continues_in_opt f
shown_in_opt (continued (some l)) f = jumps_in_opt true l f
shown_in_opt _ f = true

abbrev pub shown_in_handler : Outcome → Handler → Bool
shown_in_handler (broke none) h = breaks_in_handler h
shown_in_handler (broke (some l)) h = jumps_in_handler false l h
shown_in_handler (continued none) h = continues_in_handler h
shown_in_handler (continued (some l)) h = jumps_in_handler true l h
shown_in_handler _ h = true

unfoldable pub breaks_in_cases : Cases → Bool
breaks_in_cases no_cases = false
breaks_in_cases (case t ns cs) = breaks_in_opt t || breaks_in ns || breaks_in_cases cs

abbrev pub shown_in_cases : Outcome → Cases → Bool
shown_in_cases (broke none) cs = breaks_in_cases cs
shown_in_cases (broke (some l)) cs = jumps_in_cases false l cs
shown_in_cases (continued none) cs = continues_in_cases cs
shown_in_cases (continued (some l)) cs = jumps_in_cases true l cs
shown_in_cases _ cs = true

-- Each walk distributes over a node's children.
shown-block : (o : Outcome) (ns : Nodes) → shown o (block ns) ≡ shown_in o ns
unfolding has_unlabelled_break has_unlabelled_continue has_labelled_jump
shown-block (broke none) ns = refl
shown-block (broke (some _)) ns = refl
shown-block (continued none) ns = refl
shown-block (continued (some _)) ns = refl
shown-block _ ns = refl

shown-if :
    (o : Outcome) (t c : Node) (a : OptNode)
    → shown o (if_statement t c a) ≡ ((shown o t || shown o c) || shown_in_opt o a)
unfolding has_unlabelled_break has_unlabelled_continue has_labelled_jump
shown-if (broke none) t c a = refl
shown-if (broke (some _)) t c a = refl
shown-if (continued none) t c a = refl
shown-if (continued (some _)) t c a = refl
shown-if _ t c a = refl

shown-with : (o : Outcome) (e s : Node) → shown o (with_statement e s) ≡ (shown o e || shown o s)
unfolding has_unlabelled_break has_unlabelled_continue has_labelled_jump
shown-with (broke none) e s = refl
shown-with (broke (some _)) e s = refl
shown-with (continued none) e s = refl
shown-with (continued (some _)) e s = refl
shown-with _ e s = refl

shown-try :
    (o : Outcome) (b : Node) (h : Handler) (f : OptNode)
    → shown o (try_statement b h f) ≡ ((shown o b || shown_in_handler o h) || shown_in_opt o f)
unfolding has_unlabelled_break has_unlabelled_continue has_labelled_jump
shown-try (broke none) b h f = refl
shown-try (broke (some _)) b h f = refl
shown-try (continued none) b h f = refl
shown-try (continued (some _)) b h f = refl
shown-try _ b h f = refl

shown-present : (o : Outcome) (s : Node) → shown_in_opt o (present s) ≡ shown o s
unfolding has_unlabelled_break has_unlabelled_continue has_labelled_jump
shown-present (broke none) s = refl
shown-present (broke (some _)) s = refl
shown-present (continued none) s = refl
shown-present (continued (some _)) s = refl
shown-present _ s = refl

shown-catch :
    (o : Outcome) (x : OptNode) (s : Node)
    → shown_in_handler o (catch x s) ≡ (shown_in_opt o x || shown o s)
unfolding has_unlabelled_break has_unlabelled_continue has_labelled_jump
shown-catch (broke none) x s = refl
shown-catch (broke (some _)) x s = refl
shown-catch (continued none) x s = refl
shown-catch (continued (some _)) x s = refl
shown-catch _ x s = refl

shown-cons :
    (o : Outcome) (s : Node) (ns : Nodes) → shown_in o (cons s ns) ≡ (shown o s || shown_in o ns)
unfolding has_unlabelled_break has_unlabelled_continue has_labelled_jump
shown-cons (broke none) s ns = refl
shown-cons (broke (some _)) s ns = refl
shown-cons (continued none) s ns = refl
shown-cons (continued (some _)) s ns = refl
shown-cons _ s ns = refl

shown-case :
    (o : Outcome) (t : OptNode) (ns : Nodes) (cs : Cases)
    → shown_in_cases o (case t ns cs) ≡ ((shown_in_opt o t || shown_in o ns) || shown_in_cases o cs)
unfolding has_unlabelled_break has_unlabelled_continue has_labelled_jump breaks_in_cases
shown-case (broke none) t ns cs = refl
shown-case (broke (some _)) t ns cs = refl
shown-case (continued none) t ns cs = refl
shown-case (continued (some _)) t ns cs = refl
shown-case _ t ns cs = refl

ruleset distribute = (
  shown-block, shown-if, shown-with, shown-try, shown-present, shown-catch, shown-cons, shown-case,
  or-true, true-or,
)

-- What a loop does with the outcome of its body, if its walk for labels goes into the body.
loop_shown :
    (ls : List String) (w b : Node) (o p : Outcome)
    → ((k : Bool) (l : String) → has_labelled_jump k l b ≡ true → has_labelled_jump k l w ≡ true)
    → shown o b ≡ true
    → after_body ls o ≡ some p
    → shown p w ≡ true
loop_shown ls w b normal p up h e = absurd (cc)
loop_shown ls w b returned p up h e = subst (λ q. shown q w ≡ true) (some-injective _ _ e) refl
loop_shown ls w b thrown p up h e = subst (λ q. shown q w ≡ true) (some-injective _ _ e) refl
loop_shown ls w b (broke none) p up h e = subst (λ q. shown q w ≡ true) (some-injective _ _ e) refl
loop_shown ls w b (broke (some l)) p up h e =
    subst (λ q. shown q w ≡ true) (some-injective _ _ e) (up false l h)
loop_shown ls w b (continued none) p up h e = absurd (cc)
loop_shown ls w b (continued (some l)) p up h e = elim (Bool-cases (contains ls l)) [
  | inl own ↦ absurd (let q : none ≡ some p = rw own at e in cc)
  | inr outer ↦
      let q : some (continued (some l)) ≡ some p = rw outer at e in
      subst (λ q. shown q w ≡ true) (some-injective _ _ q) (up true l h)
]

unlabel-shown :
    (l : String) (s : Node) (o : Outcome)
    → shown o s ≡ true
    → shown (unlabel l o) (labeled_statement l s) ≡ true
unfolding has_unlabelled_break has_unlabelled_continue has_labelled_jump
unlabel-shown l s (broke none) h = h
unlabel-shown l s (broke (some t)) h = elim (Bool-cases (str_eq t l)) [
  | inl own ↦ rw own refl
  | inr outer ↦ rw outer h
]
unlabel-shown l s (continued none) h = h
unlabel-shown l s (continued (some _)) h = h
unlabel-shown l s _ h = refl

unbreak-shown :
    (d : Node) (cs : Cases) (o : Outcome)
    → shown_in_cases o cs ≡ true
    → shown (unbreak o) (switch_statement d cs) ≡ true
unfolding has_unlabelled_break has_unlabelled_continue has_labelled_jump
unbreak-shown d cs (broke none) h = refl
unbreak-shown d cs (broke (some l)) h = rw (h, or-true) refl
unbreak-shown d cs (continued none) h = rw (h, or-true) refl
unbreak-shown d cs (continued (some l)) h = rw (h, or-true) refl
unbreak-shown d cs _ h = refl

mutual
  unfolding has_unlabelled_break has_unlabelled_continue has_labelled_jump is_none targets

  -- Every run that ends in a jump is of a statement in which the walk for that jump finds it.
  pub Run-shown : {ls : List String} {s : Node} {o : Outcome} → Run ls s o → shown o s ≡ true
  Run-shown (raises s) = refl
  Run-shown (returns ns) = refl
  Run-shown (breaks none) = refl
  Run-shown (breaks (some l)) = (eq_iff l l).1 refl
  Run-shown (continues none) = refl
  Run-shown (continues (some l)) = (eq_iff l l).1 refl
  Run-shown (blocks {o} r) = simp (distribute, Runs-shown r)
  Run-shown (takes {o} r) = simp (distribute, Run-shown r)
  Run-shown (skips t c) = refl
  Run-shown (alternates {o} r) = simp (distribute, Run-shown r)
  Run-shown (labels {l} {s} o r e) =
      subst (λ p. shown p (labeled_statement l s) ≡ true) e (unlabel-shown l s o (Run-shown r))
  Run-shown (selects {d} {cs} o r e) =
      subst (λ p. shown p (switch_statement d cs) ≡ true) e (unbreak-shown d cs o (Selects-shown r))
  Run-shown (selects_none d cs e) = refl
  Run-shown (while_ends t b e) = refl
  Run-shown {ls} (while_leaves {t} {b} o {p} r e) =
      loop_shown ls (while_statement t b) b o p (λ k l h. simp (h, or-true)) (Run-shown r) e
  Run-shown (do_ends o r e f) = refl
  Run-shown {ls} (do_leaves {b} {t} o {p} r e) =
      loop_shown ls (do_while_statement b t) b o p (λ k l h. simp (h, true-or)) (Run-shown r) e
  Run-shown (for_ends i t u b e) = refl
  Run-shown {ls} (for_leaves {i} {t} {u} {b} o {p} r e) =
      loop_shown ls (for_statement i t u b) b o p (λ k l h. simp (h, or-true)) (Run-shown r) e
  Run-shown (for_in_ends x e b) = refl
  Run-shown {ls} (for_in_leaves {x} {e} {b} o {p} r q) =
      loop_shown ls (for_in x e b) b o p (λ k l h. simp (h, or-true)) (Run-shown r) q
  Run-shown (withs {o} r) = simp (distribute, Run-shown r)
  Run-shown (tries {b} {h} o g f) = Finally-shown b h (Guarded-shown g) f
  Run-shown (declares ns) = refl
  Run-shown (evaluates t) = refl
  Run-shown (runs_other ns) = refl

  Runs-shown : {ns : Nodes} {o : Outcome} → Runs ns o → shown_in o ns ≡ true
  Runs-shown done = refl
  Runs-shown (next {o} r rs) = simp (distribute, Runs-shown rs)
  Runs-shown (stop {o} r h) = simp (distribute, Run-shown r)

  Guarded-shown :
      {b : Node} {h : Handler} {o : Outcome}
      → Guarded b h o
      → (shown o b || shown_in_handler o h) ≡ true
  Guarded-shown (passes {o} r) = simp (distribute, Run-shown r)
  Guarded-shown (catches {o} r q) = simp (distribute, Run-shown q)

  Finally-shown :
      (b : Node) (h : Handler) {f : OptNode} {o p : Outcome}
      → (shown o b || shown_in_handler o h) ≡ true
      → Finally f o p
      → shown p (try_statement b h f) ≡ true
  Finally-shown b h g (no_finalizer o) = simp (distribute, g)
  Finally-shown b h g (keeps o r) = simp (distribute, g)
  Finally-shown b h g (overrides o r n) = simp (distribute, Run-shown r)

  pub Selects-shown : {cs : Cases} {o : Outcome} → Selects cs o → shown_in_cases o cs ≡ true
  Selects-shown (enters r) = Falls-shown r
  Selects-shown (passes_by {o} r) = simp (distribute, Selects-shown r)

  Falls-shown : {cs : Cases} {o : Outcome} → Falls cs o → shown_in_cases o cs ≡ true
  Falls-shown falls_out = refl
  Falls-shown (falls {o} r q) = simp (distribute, Falls-shown q)
  Falls-shown (leaves {o} r h) = simp (distribute, Runs-shown r)

-- A run that ends in a jump is found by the walk for that jump: `hasUnlabelledBreak` and
-- `hasUnlabelledContinue` for one without a label, and `hasLabelledJump` for one with a label, each
-- for the right kind of jump.
pub jumps_found : (ls : List String) (s : Node) (o : Outcome) → Run ls s o → shown o s ≡ true
jumps_found ls s o r = Run-shown r
