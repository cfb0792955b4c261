-- ===== src/Rules/Flow/Examples.antt =====
-- Runs of source/fastlint/rules/flow.cc, and its theorems at concrete statements.
use fastlint.Base.{◌≡◌, refl, true, false, none, some, [], arith}
use fastlint.Rules.Flow.{
  Node, return_statement, break_statement, block, if_statement, labeled_statement, switch_statement,
  while_statement, literal, other, nil, cons, absent, present, no_cases, case, constant_true,
  has_unlabelled_break, has_labelled_jump, completes_normally, scan_cases, switch_completes,
  is_none, targets,
}
use fastlint.Rules.Flow.Semantics.{Run, normal, broke, blocks, stop, breaks, NoLabelledDo}
use fastlint.Rules.Flow.Sound.{completes_normally_sound, labelled_do, labelled_do_missed}

abbrev call : Node
call = other nil

abbrev return_now : Node
return_now = return_statement nil

-- `if (x) { x(); return; } else return;`
abbrev both_return : Node
both_return = if_statement call (block (cons call (cons return_now nil))) (present return_now)

-- `outer: while (true) { if (x) break outer; }`
abbrev outer_loop : Node
outer_loop = labeled_statement "outer" (
    while_statement (literal "true")
      (block (cons (if_statement call (break_statement (some "outer")) absent) nil)))

-- `switch (x) { case x: break; default: return; }`
abbrev switch_with_break : Node
switch_with_break = switch_statement call (
    case (present call) (cons (break_statement none) nil)
      (case absent (cons return_now nil) no_cases))

both_return_leaves : completes_normally both_return ≡ false
unfolding completes_normally
both_return_leaves = refl

outer_loop_completes : completes_normally outer_loop ≡ true
unfolding completes_normally constant_true has_unlabelled_break has_labelled_jump is_none targets
outer_loop_completes = refl

switch_with_break_completes : completes_normally switch_with_break ≡ true
unfolding completes_normally scan_cases switch_completes has_unlabelled_break is_none
switch_with_break_completes = refl

broken_off : Run [] (block (cons (break_statement none) nil)) (broke none)
broken_off = blocks (stop (breaks none) cc)

completes_normally_sound_example : ¬ Run [] both_return normal
unfolding completes_normally NoLabelledDo
completes_normally_sound_example = completes_normally_sound [] both_return (omega arith) refl

labelled_do_missed_example :
    (completes_normally (labelled_do "again" call) ≡ false)
    × Run [] (labelled_do "again" call) normal
unfolding constant_true has_labelled_jump
labelled_do_missed_example = labelled_do_missed "again" call refl refl
