-- ===== src/Syntax/Examples.antt =====
-- Theorems of the grammar tree at concrete inputs.
use fastlint.Base.{◌≡◌, refl, [], ◌∷◌, arith}
use fastlint.Syntax.Tree.{no_node, Tree, children, end_node}
use fastlint.Syntax.Tree.Build.{AllParent, end_node_lem}

-- Node 1 is open inside node 0, with one child, node 2; node 3 was closed before it.
abbrev open_tree : Tree
open_tree = record {
  nodes = no_node ∷ no_node ∷ no_node ∷ no_node ∷ [];
  child_ids = [];
  pending_children = 3 ∷ 2 ∷ [];
  pending_marks = 1 ∷ 0 ∷ [];
}

end_node_lem_example :
    (children (end_node 1 4 open_tree) 1 ≡ 2 ∷ [])
    × AllParent (end_node 1 4 open_tree).nodes 1 (2 ∷ [])
    × ((end_node 1 4 open_tree).pending_children ≡ 3 ∷ [])
    × ((end_node 1 4 open_tree).pending_marks ≡ 0 ∷ [])
end_node_lem_example =
    end_node_lem open_tree 1 4 (3 ∷ []) (2 ∷ []) (0 ∷ []) (omega arith)
      ((λ e. absurd (omega arith)), tt) (omega arith, tt) refl refl
