-- ===== src/Rules/Flow.antt =====
-- source/fastlint/rules/flow.cc: whether control can fall off the end of a statement.
-- A node kind that the analysis looks at has a constructor with the children its view names; every
-- other kind is `other`. `FunctionLike` kinds are `function_like`, `BlockStatement` and
-- `StaticBlock` are `block`, `ForInStatement` and `ForOfStatement` are `for_in`. An optional child
-- is `absent` where the source has a null pointer.
pub mod Semantics
pub mod Jumps
pub mod Sound
mod Examples
use Prim.Native.String.{String}
use text.Mathlib.Text.{◌==◌ as str_eq}
use fastlint.Base.{Bool, true, false, not, ◌&&◌, ◌||◌, Option, none, some, if◌then◌else◌}

mutual
  pub data Node : Type 0 where
    return_statement throw_statement : Nodes → Node
    break_statement continue_statement : Option String → Node
    block : Nodes → Node
    if_statement : Node → Node → OptNode → Node
    labeled_statement : String → Node → Node
    switch_statement : Node → Cases → Node
    while_statement : Node → Node → Node
    do_while_statement : Node → Node → Node
    for_statement : OptNode → OptNode → OptNode → Node → Node
    for_in : Node → Node → Node → Node
    with_statement : Node → Node → Node
    try_statement : Node → Handler → OptNode → Node
    function_like : Nodes → Node
    literal : String → Node
    other : Nodes → Node

  pub data Nodes : Type 0 where
    nil : Nodes
    cons : Node → Nodes → Nodes

  pub data OptNode : Type 0 where
    absent : OptNode
    present : Node → OptNode

  -- A `CatchClause`: its parameter and its body.
  pub data Handler : Type 0 where
    no_handler : Handler
    catch : OptNode → Node → Handler

  -- A `SwitchCase`: its test, absent in `default`, and its consequent.
  pub data Cases : Type 0 where
    no_cases : Cases
    case : OptNode → Nodes → Cases → Cases

-- A test that is the literal `true`.
pub constant_true : Node → Bool
constant_true (literal text) = str_eq text "true"
constant_true _ = false

pub is_none : Option String → Bool
is_none none = true
is_none (some _) = false

-- A nested loop or switch captures its own `break`; a function body is another scope.
mutual
  pub has_unlabelled_break : Node → Bool
  has_unlabelled_break (break_statement label) = is_none label
  has_unlabelled_break (return_statement ns) = breaks_in ns
  has_unlabelled_break (throw_statement ns) = breaks_in ns
  has_unlabelled_break (continue_statement _) = false
  has_unlabelled_break (block ns) = breaks_in ns
  has_unlabelled_break (if_statement t c a) =
      has_unlabelled_break t || has_unlabelled_break c || breaks_in_opt a
  has_unlabelled_break (labeled_statement _ s) = has_unlabelled_break s
  has_unlabelled_break (with_statement o s) = has_unlabelled_break o || has_unlabelled_break s
  has_unlabelled_break (try_statement b h f) =
      has_unlabelled_break b || breaks_in_handler h || breaks_in_opt f
  has_unlabelled_break (other ns) = breaks_in ns
  has_unlabelled_break _ = false

  pub breaks_in : Nodes → Bool
  breaks_in nil = false
  breaks_in (cons s ns) = has_unlabelled_break s || breaks_in ns

  pub breaks_in_opt : OptNode → Bool
  breaks_in_opt absent = false
  breaks_in_opt (present s) = has_unlabelled_break s

  pub breaks_in_handler : Handler → Bool
  breaks_in_handler no_handler = false
  breaks_in_handler (catch p s) = breaks_in_opt p || has_unlabelled_break s

-- A nested loop captures `continue`; a switch does not.
mutual
  pub has_unlabelled_continue : Node → Bool
  has_unlabelled_continue (continue_statement label) = is_none label
  has_unlabelled_continue (return_statement ns) = continues_in ns
  has_unlabelled_continue (throw_statement ns) = continues_in ns
  has_unlabelled_continue (block ns) = continues_in ns
  has_unlabelled_continue (if_statement t c a) =
      has_unlabelled_continue t || has_unlabelled_continue c || continues_in_opt a
  has_unlabelled_continue (labeled_statement _ s) = has_unlabelled_continue s
  has_unlabelled_continue (switch_statement d cs) =
      has_unlabelled_continue d || continues_in_cases cs
  has_unlabelled_continue (with_statement o s) =
      has_unlabelled_continue o || has_unlabelled_continue s
  has_unlabelled_continue (try_statement b h f) =
      has_unlabelled_continue b || continues_in_handler h || continues_in_opt f
  has_unlabelled_continue (other ns) = continues_in ns
  has_unlabelled_continue _ = false

  pub continues_in : Nodes → Bool
  continues_in nil = false
  continues_in (cons s ns) = has_unlabelled_continue s || continues_in ns

  pub continues_in_opt : OptNode → Bool
  continues_in_opt absent = false
  continues_in_opt (present s) = has_unlabelled_continue s

  pub continues_in_handler : Handler → Bool
  continues_in_handler no_handler = false
  continues_in_handler (catch p s) = continues_in_opt p || has_unlabelled_continue s

  pub continues_in_cases : Cases → Bool
  continues_in_cases no_cases = false
  continues_in_cases (case t ns cs) = continues_in_opt t || continues_in ns || continues_in_cases cs

pub targets : Option String → String → Bool
targets none label = false
targets (some l) label = str_eq l label

-- Labels cross nesting, so only a function body stops the walk. The last argument of the source,
-- `wantContinue`, stands first.
mutual
  pub has_labelled_jump : Bool → String → Node → Bool
  has_labelled_jump want_continue label (break_statement target) =
      not want_continue && targets target label
  has_labelled_jump want_continue label (continue_statement target) =
      want_continue && targets target label
  has_labelled_jump w l (return_statement ns) = jumps_in w l ns
  has_labelled_jump w l (throw_statement ns) = jumps_in w l ns
  has_labelled_jump w l (block ns) = jumps_in w l ns
  has_labelled_jump w l (if_statement t c a) =
      has_labelled_jump w l t || has_labelled_jump w l c || jumps_in_opt w l a
  has_labelled_jump w l (labeled_statement _ s) = has_labelled_jump w l s
  has_labelled_jump w l (switch_statement d cs) = has_labelled_jump w l d || jumps_in_cases w l cs
  has_labelled_jump w l (while_statement t b) = has_labelled_jump w l t || has_labelled_jump w l b
  has_labelled_jump w l (do_while_statement b t) =
      has_labelled_jump w l b || has_labelled_jump w l t
  has_labelled_jump w l (for_statement i t u b) =
      jumps_in_opt w l i || jumps_in_opt w l t || jumps_in_opt w l u || has_labelled_jump w l b
  has_labelled_jump w l (for_in x o b) =
      has_labelled_jump w l x || has_labelled_jump w l o || has_labelled_jump w l b
  has_labelled_jump w l (with_statement o s) = has_labelled_jump w l o || has_labelled_jump w l s
  has_labelled_jump w l (try_statement b h f) =
      has_labelled_jump w l b || jumps_in_handler w l h || jumps_in_opt w l f
  has_labelled_jump w l (other ns) = jumps_in w l ns
  has_labelled_jump w l _ = false

  pub jumps_in : Bool → String → Nodes → Bool
  jumps_in w l nil = false
  jumps_in w l (cons s ns) = has_labelled_jump w l s || jumps_in w l ns

  pub jumps_in_opt : Bool → String → OptNode → Bool
  jumps_in_opt w l absent = false
  jumps_in_opt w l (present s) = has_labelled_jump w l s

  pub jumps_in_handler : Bool → String → Handler → Bool
  jumps_in_handler w l no_handler = false
  jumps_in_handler w l (catch p s) = jumps_in_opt w l p || has_labelled_jump w l s

  pub jumps_in_cases : Bool → String → Cases → Bool
  jumps_in_cases w l no_cases = false
  jumps_in_cases w l (case t ns cs) = jumps_in_opt w l t || jumps_in w l ns || jumps_in_cases w l cs

pub is_absent : OptNode → Bool
is_absent absent = true
is_absent (present _) = false

-- The loop of `switchCompletes`: `none` where it returns true at a clause with a `break`, and else
-- the final `hasDefault`.
pub scan_cases : Cases → Bool → Option Bool
scan_cases no_cases has_default = some has_default
scan_cases (case t ns cs) has_default =
    let rest = scan_cases cs (has_default || is_absent t) in
    if breaks_in_opt t || breaks_in ns then none else rest

-- What `switchCompletes` answers, from its loop and the completion of its last clause.
pub switch_completes : Option Bool → Bool → Bool
switch_completes none last = true
switch_completes (some has_default) last = not has_default || last

-- The test of a `for`: absent and `true` both loop for ever.
pub endless : OptNode → Bool
endless absent = true
endless (present t) = constant_true t

unfoldable mutual
  pub completes_normally : Node → Bool
  completes_normally (return_statement _) = false
  completes_normally (throw_statement _) = false
  completes_normally (break_statement _) = false
  completes_normally (continue_statement _) = false
  completes_normally (block ns) = sequence_completes_normally ns
  completes_normally (if_statement t c absent) = true
  completes_normally (if_statement t c (present a)) = completes_normally c || completes_normally a
  completes_normally (labeled_statement label s) =
      completes_normally s || has_labelled_jump false label s
  completes_normally (switch_statement d cs) =
      switch_completes (scan_cases cs false) (last_completes cs)
  completes_normally (while_statement t b) = not (constant_true t) || has_unlabelled_break b
  completes_normally (do_while_statement b t) =
      has_unlabelled_break b
      || (not (constant_true t) && (completes_normally b || has_unlabelled_continue b))
  completes_normally (for_statement i t u b) = not (endless t) || has_unlabelled_break b
  completes_normally (for_in x o b) = true
  completes_normally (with_statement o s) = completes_normally s
  completes_normally (try_statement b h f) =
      finalizer_completes f && (completes_normally b || handler_completes h)
  completes_normally _ = true

  pub sequence_completes_normally : Nodes → Bool
  sequence_completes_normally nil = true
  sequence_completes_normally (cons s ns) = completes_normally s && sequence_completes_normally ns

  -- Of the last clause, or true where there is none.
  pub last_completes : Cases → Bool
  last_completes no_cases = true
  last_completes (case t ns no_cases) = sequence_completes_normally ns
  last_completes (case t ns (case u ms cs)) = last_completes (case u ms cs)

  pub handler_completes : Handler → Bool
  handler_completes no_handler = false
  handler_completes (catch p s) = completes_normally s

  pub finalizer_completes : OptNode → Bool
  finalizer_completes absent = true
  finalizer_completes (present s) = completes_normally s
