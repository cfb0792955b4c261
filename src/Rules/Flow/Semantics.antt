-- ===== src/Rules/Flow/Semantics.antt =====
-- What source/fastlint/rules/flow.cc approximates: how a statement of the language can end. A test
-- takes either branch, save that the literal `true` never fails, and any statement may throw: the
-- runs below are at least those of the language. A loop that never ends has no run.
use Prim.Native.String.{String}
use text.Mathlib.Text.{◌==◌ as str_eq}
use fastlint.Base.{
  ◌≡◌, ◌≢◌, Bool, true, false, ◌||◌, Option, none, some, List, [], ◌∷◌, if◌then◌else◌,
}
use fastlint.Rules.Flow.{
  Node, return_statement, break_statement, continue_statement, block, if_statement,
  labeled_statement, switch_statement, while_statement, do_while_statement, for_statement, for_in,
  with_statement, try_statement, function_like, literal, other, Nodes, nil, cons, OptNode, absent,
  present, Handler, no_handler, catch, Cases, no_cases, case, constant_true, is_absent, endless,
  has_labelled_jump,
}

pub data Outcome : Type 0 where
  normal returned thrown : Outcome
  broke continued : Option String → Outcome

abbrev pub contains : List String → String → Bool
contains [] l = false
contains (x ∷ xs) l = str_eq x l || contains xs l

-- How a loop with labels `ls` goes on after its body: `none` is another round.
abbrev pub after_body : List String → Outcome → Option Outcome
after_body ls normal = none
after_body ls returned = some returned
after_body ls thrown = some thrown
after_body ls (broke none) = some normal
after_body ls (broke (some l)) = some (broke (some l))
after_body ls (continued none) = none
after_body ls (continued (some l)) = if contains ls l then none else some (continued (some l))

-- A labelled statement ends a `break` to its label.
abbrev pub unlabel : String → Outcome → Outcome
unlabel l (broke (some target)) = if str_eq target l then normal else broke (some target)
unlabel l o = o

-- A `switch` ends an unlabelled `break`.
abbrev pub unbreak : Outcome → Outcome
unbreak (broke none) = normal
unbreak o = o

unfoldable pub has_default : Cases → Bool
has_default no_cases = false
has_default (case t ns cs) = is_absent t || has_default cs

-- The labels are those directly before the statement, which a `continue` to it may name.
mutual
  pub data Run : List String → Node → Outcome → Type 0 where
    raises : {ls : List String} (s : Node) → Run ls s thrown
    returns : {ls : List String} (ns : Nodes) → Run ls (return_statement ns) returned
    breaks :
        {ls : List String} (label : Option String) → Run ls (break_statement label) (broke label)
    continues :
        {ls : List String} (label : Option String)
        → Run ls (continue_statement label) (continued label)
    blocks : {ls : List String} {ns : Nodes} {o : Outcome} → Runs ns o → Run ls (block ns) o
    takes :
        {ls : List String} {t c : Node} {a : OptNode} {o : Outcome}
        → Run [] c o
        → Run ls (if_statement t c a) o
    skips : {ls : List String} (t c : Node) → Run ls (if_statement t c absent) normal
    alternates :
        {ls : List String} {t c a : Node} {o : Outcome}
        → Run [] a o
        → Run ls (if_statement t c (present a)) o
    labels :
        {ls : List String} {l : String} {s : Node} (o : Outcome) {p : Outcome}
        → Run (l ∷ ls) s o
        → unlabel l o ≡ p
        → Run ls (labeled_statement l s) p
    selects :
        {ls : List String} {d : Node} {cs : Cases} (o : Outcome) {p : Outcome}
        → Selects cs o
        → unbreak o ≡ p
        → Run ls (switch_statement d cs) p
    selects_none :
        {ls : List String} (d : Node) (cs : Cases)
        → has_default cs ≡ false
        → Run ls (switch_statement d cs) normal
    while_ends :
        {ls : List String} (t b : Node)
        → constant_true t ≡ false
        → Run ls (while_statement t b) normal
    while_leaves :
        {ls : List String} {t b : Node} (o : Outcome) {p : Outcome}
        → Run [] b o
        → after_body ls o ≡ some p
        → Run ls (while_statement t b) p
    do_ends :
        {ls : List String} {b t : Node} (o : Outcome)
        → Run [] b o
        → after_body ls o ≡ none
        → constant_true t ≡ false
        → Run ls (do_while_statement b t) normal
    do_leaves :
        {ls : List String} {b t : Node} (o : Outcome) {p : Outcome}
        → Run [] b o
        → after_body ls o ≡ some p
        → Run ls (do_while_statement b t) p
    for_ends :
        {ls : List String} (i t u : OptNode) (b : Node)
        → endless t ≡ false
        → Run ls (for_statement i t u b) normal
    for_leaves :
        {ls : List String} {i t u : OptNode} {b : Node} (o : Outcome) {p : Outcome}
        → Run [] b o
        → after_body ls o ≡ some p
        → Run ls (for_statement i t u b) p
    for_in_ends : {ls : List String} (x e b : Node) → Run ls (for_in x e b) normal
    for_in_leaves :
        {ls : List String} {x e b : Node} (o : Outcome) {p : Outcome}
        → Run [] b o
        → after_body ls o ≡ some p
        → Run ls (for_in x e b) p
    withs :
        {ls : List String} {e s : Node} {o : Outcome} → Run [] s o → Run ls (with_statement e s) o
    tries :
        {ls : List String} {b : Node} {h : Handler} {f : OptNode} (o : Outcome) {p : Outcome}
        → Guarded b h o
        → Finally f o p
        → Run ls (try_statement b h f) p
    declares : {ls : List String} (ns : Nodes) → Run ls (function_like ns) normal
    evaluates : {ls : List String} (text : String) → Run ls (literal text) normal
    runs_other : {ls : List String} (ns : Nodes) → Run ls (other ns) normal

  pub data Runs : Nodes → Outcome → Type 0 where
    done : Runs nil normal
    next : {s : Node} {ns : Nodes} {o : Outcome} → Run [] s normal → Runs ns o → Runs (cons s ns) o
    stop : {s : Node} {ns : Nodes} {o : Outcome} → Run [] s o → o ≢ normal → Runs (cons s ns) o

  -- A block under its handler, which runs where the block throws.
  pub data Guarded : Node → Handler → Outcome → Type 0 where
    passes : {b : Node} {h : Handler} {o : Outcome} → Run [] b o → Guarded b h o
    catches :
        {b s : Node} {x : OptNode} {o : Outcome}
        → Run [] b thrown
        → Run [] s o
        → Guarded b (catch x s) o

  -- An abrupt finalizer overrides how the block ended.
  pub data Finally : OptNode → Outcome → Outcome → Type 0 where
    no_finalizer : (o : Outcome) → Finally absent o o
    keeps : {s : Node} (o : Outcome) → Run [] s normal → Finally (present s) o o
    overrides :
        {s : Node} (o : Outcome) {p : Outcome} → Run [] s p → p ≢ normal → Finally (present s) o p

  -- Control enters a `switch` at any clause.
  pub data Selects : Cases → Outcome → Type 0 where
    enters :
        {t : OptNode} {ns : Nodes} {cs : Cases} {o : Outcome}
        → Falls (case t ns cs) o
        → Selects (case t ns cs) o
    passes_by :
        {t : OptNode} {ns : Nodes} {cs : Cases} {o : Outcome}
        → Selects cs o
        → Selects (case t ns cs) o

  -- Clauses fall into each other.
  pub data Falls : Cases → Outcome → Type 0 where
    falls_out : Falls no_cases normal
    falls :
        {t : OptNode} {ns : Nodes} {cs : Cases} {o : Outcome}
        → Runs ns normal
        → Falls cs o
        → Falls (case t ns cs) o
    leaves :
        {t : OptNode} {ns : Nodes} {cs : Cases} {o : Outcome}
        → Runs ns o
        → o ≢ normal
        → Falls (case t ns cs) o

-- No `continue` inside a `do` loop names a label of that loop.
abbrev pub NoneTargets : List String → Node → Type 0
NoneTargets [] b = Unit
NoneTargets (l ∷ ls) b = (has_labelled_jump true l b ≡ false) × NoneTargets ls b

unfoldable mutual
  pub NoLabelledDo : List String → Node → Type 0
  NoLabelledDo ls (block ns) = NoLabelledDos ns
  NoLabelledDo ls (if_statement t c a) = NoLabelledDo [] c × NoLabelledDoOpt a
  NoLabelledDo ls (labeled_statement l s) = NoLabelledDo (l ∷ ls) s
  NoLabelledDo ls (switch_statement d cs) = NoLabelledDoCases cs
  NoLabelledDo ls (while_statement t b) = NoLabelledDo [] b
  NoLabelledDo ls (do_while_statement b t) = NoLabelledDo [] b × NoneTargets ls b
  NoLabelledDo ls (for_statement i t u b) = NoLabelledDo [] b
  NoLabelledDo ls (for_in x e b) = NoLabelledDo [] b
  NoLabelledDo ls (with_statement e s) = NoLabelledDo [] s
  NoLabelledDo ls (try_statement b h f) =
      NoLabelledDo [] b × NoLabelledDoHandler h × NoLabelledDoOpt f
  NoLabelledDo ls _ = Unit

  pub NoLabelledDos : Nodes → Type 0
  NoLabelledDos nil = Unit
  NoLabelledDos (cons s ns) = NoLabelledDo [] s × NoLabelledDos ns

  pub NoLabelledDoOpt : OptNode → Type 0
  NoLabelledDoOpt absent = Unit
  NoLabelledDoOpt (present s) = NoLabelledDo [] s

  pub NoLabelledDoHandler : Handler → Type 0
  NoLabelledDoHandler no_handler = Unit
  NoLabelledDoHandler (catch x s) = NoLabelledDo [] s

  pub NoLabelledDoCases : Cases → Type 0
  NoLabelledDoCases no_cases = Unit
  NoLabelledDoCases (case t ns cs) = NoLabelledDos ns × NoLabelledDoCases cs
