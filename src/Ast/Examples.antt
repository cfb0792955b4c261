-- ===== src/Ast/Examples.antt =====
-- Runs of source/fastlint/ast/precedence.cc and fixpoint.cc, and the theorems at concrete inputs.
use Prim.Native.Nat.{max}
use fastlint.Ast.Fixpoint.{Tools, run_to_fixpoint, rounds, round, pass_round, print_round}
use fastlint.Ast.Fixpoint.Report.{
  IsReport, is_settled, run_to_fixpoint-IsReport, run_to_fixpoint_passes,
}
use fastlint.Ast.Fixpoint.Again.{run_to_fixpoint_again, run_to_fixpoint_unchecked}
use fastlint.Base.{
  ℕ, ◌≤◌, Bool, List, ◌∷◌, Bytes, codes, ◌==◌, if◌then◌else◌, arith, ◌≡◌, refl, true, false, not,
  ◌||◌, some, [],
}
use fastlint.Ast.Node.{
  add, multiply, minus, unary_expression, exponent, binary_expression, Flags, node, no_children,
  child, object_expression, call_expression, expression_statement,
}
use fastlint.Ast.Levels.{is_binary_like, expression_precedence, starts_with_kind}
use fastlint.Ast.Precedence.{
  Categories, needs_parens, operand_needs_parens, expression_needs_parens,
}
use fastlint.Ast.Precedence.Unambiguous.{binary, logical, Expressions, needs_parens_unambiguous}

abbrev categories : Categories
categories = record { is_type = λ k. false; is_expression = is_binary_like }

categories-Expressions : Expressions categories
categories-Expressions (binary op) = (refl, refl)
categories-Expressions (logical op) = (refl, refl)

abbrev plain : Flags
plain = record { prefix = false; parenthesized = false; expression = false }

-- `a + b * c`
needs_parens_unambiguous_example :
    (needs_parens categories
        (some (node (binary_expression multiply) plain [] no_children))
        (some 0)
        (some (node (binary_expression add) plain [] no_children))
      ≡ (false
          || not (
              needs_parens categories
                (some (node (binary_expression add) plain [] no_children))
                (some 1)
                (some (node (binary_expression multiply) plain [] no_children)))))
    × (needs_parens categories
          (some (node (binary_expression add) plain [] no_children))
          (some 1)
          (some (node (binary_expression multiply) plain [] no_children))
        ≡ (false
            || not (
                needs_parens categories
                  (some (node (binary_expression multiply) plain [] no_children))
                  (some 0)
                  (some (node (binary_expression add) plain [] no_children)))))
needs_parens_unambiguous_example =
    needs_parens_unambiguous categories (binary add) (binary multiply) plain plain [] [] no_children
      no_children categories-Expressions

-- `(-a) ** b` keeps its parentheses.
negative_base :
    operand_needs_parens
      (binary_expression exponent)
      0
      (node (unary_expression minus) plain [] no_children)
    ≡ true
unfolding operand_needs_parens expression_precedence
negative_base = refl

-- `({}).f()` as a statement: its text would start with a brace.
object_first :
    expression_needs_parens (node expression_statement plain [] no_children) 0 (
      node call_expression plain []
        (child (node object_expression plain [] no_children) no_children))
    ≡ true
unfolding expression_needs_parens expression_precedence starts_with_kind
object_first = refl

-- Rules that turn a first `a` into `b` and a first `c` into `!`, which does not parse.
abbrev first_fixed : Bytes → Bytes
first_fixed [] = []
first_fixed (c ∷ s) = (if c == b'a' then b'b' else if c == b'c' then b'!' else c) ∷ s

abbrev proposes : Bytes → List ℕ
proposes [] = []
proposes (c ∷ s) = if c == b'a' || c == b'c' then 0 ∷ [] else []

abbrev parses : Bytes → Bool
parses [] = true
parses (c ∷ s) = not (c == b'!')

abbrev small_tools : Tools
small_tools = record {
  Fix = ℕ;
  is_clean = parses;
  propose = λ i text. proposes text;
  apply = λ i text fixes. record { applied = 1; deferred = 0; printed = first_fixed text };
}

small_settled : is_settled small_tools (run_to_fixpoint small_tools 10 (codes "ax")) ≡ true
unfolding run_to_fixpoint rounds round pass_round print_round
small_settled = refl

small_converged : (run_to_fixpoint small_tools 10 (codes "ax")).converged ≡ true
unfolding run_to_fixpoint rounds round pass_round print_round
small_converged = refl

run_to_fixpoint-IsReport_example :
    IsReport small_tools (codes "ax") (run_to_fixpoint small_tools 10 (codes "ax"))
run_to_fixpoint-IsReport_example =
    run_to_fixpoint-IsReport small_tools 10 (codes "ax") small_settled

run_to_fixpoint_passes_example :
    (1 ≤ (run_to_fixpoint small_tools 10 (codes "ax")).passes)
    × ((run_to_fixpoint small_tools 10 (codes "ax")).passes ≤ max 10 1)
run_to_fixpoint_passes_example = run_to_fixpoint_passes small_tools 10 (codes "ax")

run_to_fixpoint_again_example :
    let first = run_to_fixpoint small_tools 10 (codes "ax") in
    let second = run_to_fixpoint small_tools 3 first.text in
    (second.text ≡ first.text) × (second.converged ≡ true) × (second.passes ≡ 1)
run_to_fixpoint_again_example =
    run_to_fixpoint_again small_tools 10 3 (codes "ax") (λ i j text. refl) small_converged

run_to_fixpoint_unchecked_example :
    let r = run_to_fixpoint small_tools 1 (codes "cx") in
    (r.text ≡ codes "!x") × (parses r.text ≡ false) × (r.reverted ≡ false) × (r.applied ≡ 1)
run_to_fixpoint_unchecked_example =
    run_to_fixpoint_unchecked small_tools (codes "cx") refl refl (omega arith) refl refl
