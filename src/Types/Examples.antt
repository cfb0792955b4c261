-- ===== src/Types/Examples.antt =====
-- source/fastlint/types/type_graph.cc: the theorems at a new graph.
use fastlint.Base.{zero, suc, ◌+◌, ◌≤◌, ℕ, ◌≡◌, ◌<◌, [], codes, arith, length}
use fastlint.Types.Hasher.{hash_text, hash_u32, hash_bytes, memory_bytes}
use fastlint.Types.Graph.{TypeRow, no_type, empty_graph, intern, intern_string, lookup, type_at}
use fastlint.Types.Graph.Rows.{IsIndexed, intern-IsIndexed}
use fastlint.Types.Graph.Ids.{IsKept, intern-IsKept, intern_again}
use fastlint.Types.Graph.Strings.{IsTexts, NoCollision, IsInterned, intern_string-IsInterned}

abbrev flagged : TypeRow
flagged = record no_type { flags = 4; session_id = 7 }

empty_in_range :
    (i : ℕ)
    → i < length empty_graph.types
    → (type_at empty_graph i).child_start + (type_at empty_graph i).child_count ≤ 0
empty_in_range zero h = omega arith
empty_in_range (suc i) h = absurd (omega arith)

empty_graph-IsIndexed : IsIndexed empty_graph
unfolding lookup
empty_graph-IsIndexed = record {
  canonical = λ i low high. absurd (omega arith);
  indexed = λ key i e. absurd (cc);
  in_range = empty_in_range;
  nonempty = omega arith;
}

empty_graph-IsTexts : IsTexts empty_graph
unfolding lookup
empty_graph-IsTexts = record { indexed = λ key i e. absurd (cc); nonempty = omega arith }

intern-IsIndexed_example : IsIndexed (intern flagged [] empty_graph).1
intern-IsIndexed_example = intern-IsIndexed flagged [] empty_graph empty_graph-IsIndexed

intern-IsKept_example : IsKept empty_graph (intern flagged [] empty_graph).1 0
intern-IsKept_example = intern-IsKept flagged [] empty_graph 0 empty_graph-IsIndexed (omega arith)

intern_again_example :
    let first = intern flagged [] empty_graph in
    let second = intern (record flagged { target = 5; session_id = 9 }) [] first.1 in
    (second.0 ≡ first.0)
    × (length second.1.types ≡ length first.1.types)
    × ((type_at second.1 second.0).target ≡ (type_at first.1 first.0).target)
intern_again_example = intern_again flagged [] empty_graph 5 9 empty_graph-IsIndexed tt

free_text : NoCollision empty_graph (codes "T")
unfolding hash_text hash_u32 hash_bytes memory_bytes
free_text zero low h = absurd (omega (arith, h))
free_text (suc i) low h = absurd (omega arith)

intern_string-IsInterned_example :
    IsInterned empty_graph (codes "T") (intern_string (codes "T") empty_graph)
intern_string-IsInterned_example =
    intern_string-IsInterned (codes "T") empty_graph empty_graph-IsTexts free_text
