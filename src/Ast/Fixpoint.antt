-- ===== src/Ast/Fixpoint.antt =====
-- source/fastlint/ast/fixpoint.h, fixpoint.cc: `runToFixpoint`, the loop of fix passes over a file.
-- The parser, the rules and the printer are parameters: a callback with state is a function of the
-- pass's index, since it runs once for each index.
pub mod Report
pub mod Again
use fastlint.Base.{
  ℕ, zero, suc, ◌+◌, ◌-◌, Bool, true, false, not, ◌&&◌, ltb, ◌==◌, if◌then◌else◌, List, is_empty,
  Bytes, bytes_eq, [],
}

-- `FixReport`, with what `printAst` then prints.
pub record Applied : Type 0 where
  pub applied : ℕ
  pub deferred : ℕ
  pub printed : Bytes

pub record Tools : Type 1 where
  pub Fix : Type 0
  -- Parsing the text leaves `diagnostics` empty.
  pub is_clean : Bytes → Bool
  -- The fixes that the pass proposes for the text.
  pub propose : ℕ → Bytes → List Fix
  -- `applyFixes` on the lowered text, and `printAst`.
  pub apply : ℕ → Bytes → List Fix → Applied

pub record FixpointReport : Type 0 where
  pub text : Bytes
  pub passes : ℕ
  pub applied : ℕ
  pub deferred : ℕ
  pub converged : Bool
  pub reverted : Bool
  pub syntax_errors : Bool

-- The variables that the loop changes; `report.text` is set behind it.
pub record Loop : Type 0 where
  pub report : FixpointReport
  pub text : Bytes
  pub previous : Bytes
  pub last_applied : ℕ
  pub last_deferred : ℕ

abbrev pub start : Bytes → Loop
start source = record {
  report = record {
    text = [];
    passes = 0;
    applied = 0;
    deferred = 0;
    converged = false;
    reverted = false;
    syntax_errors = false;
  };
  text = source;
  previous = [];
  last_applied = 0;
  last_deferred = 0;
}

-- How a round of the loop leaves it: by a `break`, or for the next round.
pub data Round : Type 0 where
  stop : Loop → Round
  next : Loop → Round

abbrev pub finish : Loop → FixpointReport
finish s = record s.report { text = s.text }

-- The output of the last pass does not parse: its text and its counts go.
abbrev pub revert : Loop → Loop
revert s = record s {
  report = record s.report {
    reverted = true;
    applied = s.report.applied - s.last_applied;
    deferred = s.report.deferred - s.last_deferred;
  };
  text = s.previous;
}

-- `report.passes++` behind the callback.
abbrev pub count_pass : Loop → Loop
count_pass s = record s { report = record s.report { passes = s.report.passes + 1 } }

abbrev pub converge : Loop → Loop
converge s = record s { report = record s.report { converged = true } }

abbrev pub note_syntax_errors : Loop → Loop
note_syntax_errors s = record s { report = record s.report { syntax_errors = true } }

abbrev pub count_fixes : Applied → Loop → Loop
count_fixes a s = record s {
  report = record s.report {
    applied = s.report.applied + a.applied;
    deferred = s.report.deferred + a.deferred;
  };
  last_applied = a.applied;
  last_deferred = a.deferred;
}

abbrev pub take_over : Bytes → Loop → Loop
take_over printed s = record s { previous = s.text; text = printed }

-- A round behind `applyFixes`.
unfoldable pub print_round : Applied → Loop → Round
print_round a s =
    if a.applied == 0
    then stop (converge (count_fixes a s))
    else if bytes_eq a.printed s.text
    then stop (converge (count_fixes a s))
    else next (take_over a.printed (count_fixes a s))

abbrev pub after_round : (Loop → Loop) → Round → Loop
after_round rest (stop t) = t
after_round rest (next t) = rest t

module _ (tools : Tools) where
  open tools use {Fix, is_clean, propose, apply}

  -- A round behind the test for output that does not parse.
  unfoldable pub pass_round : ℕ → Loop → Round
  pass_round i s =
      let fixes = propose i s.text in
      if not (is_clean s.text)
      then stop (note_syntax_errors (count_pass s))
      else if is_empty fixes
      then stop (converge (count_pass s))
      else print_round (apply i s.text fixes) (count_pass s)

  unfoldable pub round : ℕ → Loop → Round
  round i s = if not (is_clean s.text) && ltb 0 i then stop (revert s) else pass_round i s

  -- The loop, with the rounds that `maxPasses` leaves.
  unfoldable pub rounds : ℕ → ℕ → Loop → Loop
  rounds zero i s = s
  rounds (suc left) i s = after_round (rounds left (i + 1)) (round i s)

  -- `maxPasses`, at least 1.
  abbrev pub allowed : ℕ → ℕ
  allowed max_passes = if ltb max_passes 1 then 1 else max_passes

  unfoldable pub run_to_fixpoint : ℕ → Bytes → FixpointReport
  run_to_fixpoint max_passes source = finish (rounds (allowed max_passes) 0 (start source))
