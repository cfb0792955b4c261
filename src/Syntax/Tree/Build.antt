-- ===== src/Syntax/Tree/Build.antt =====
-- source/fastlint/syntax/tree.cc: what closing a node leaves.
use mathlib.Core.Path.{subst}
use native.Mathlib.Decide.{ℕ_discrete}
use fastlint.Base.{
  ◌∙◌, sym, ℕ, zero, suc, ◌-◌, ◌<◌, ◌≡◌, ◌≢◌, refl, ap, some, List, [], ◌∷◌, ◌++◌, arith, ltb,
  if◌then◌else◌, length, get_or, take, length-append, drop-length-append, take-length-append,
}
use fastlint.Syntax.Tree.{
  NodeId, Node, no_node, Tree, node_at, set_node, children, adopt, set_parents, end_node,
}

set_node-length :
    (ns : List Node) (i : NodeId) (f : Node → Node) → length (set_node ns i f) ≡ length ns
unfolding set_node
set_node-length [] i f = refl
set_node-length (n ∷ ns) zero f = refl
set_node-length (n ∷ ns) (suc i) f = ap suc (set_node-length ns i f)

get_or-set_node_self :
    (ns : List Node) (i : NodeId) (f : Node → Node)
    → i < length ns
    → get_or (set_node ns i f) i no_node ≡ f (get_or ns i no_node)
unfolding set_node
get_or-set_node_self [] i f h = absurd (omega arith)
get_or-set_node_self (n ∷ ns) zero f h = refl
get_or-set_node_self (n ∷ ns) (suc i) f h = get_or-set_node_self ns i f (omega arith)

get_or-set_node_ne :
    (ns : List Node) (i j : NodeId) (f : Node → Node)
    → i ≢ j
    → get_or (set_node ns i f) j no_node ≡ get_or ns j no_node
unfolding set_node
get_or-set_node_ne [] i j f h = refl
get_or-set_node_ne (n ∷ ns) zero zero f h = absurd (h refl)
get_or-set_node_ne (n ∷ ns) zero (suc j) f h = refl
get_or-set_node_ne (n ∷ ns) (suc i) zero f h = refl
get_or-set_node_ne (n ∷ ns) (suc i) (suc j) f h = get_or-set_node_ne ns i j f (λ e. h (ap suc e))

abbrev pub Lacks : NodeId → List NodeId → Type 0
Lacks i [] = Unit
Lacks i (c ∷ cs) = (c ≢ i) × Lacks i cs

-- A node that is not among the children is left as it is.
set_parents-Lacks :
    (ns : List Node) (id i : NodeId) (cs : List NodeId)
    → Lacks i cs
    → get_or (set_parents ns id cs) i no_node ≡ get_or ns i no_node
unfolding set_parents
set_parents-Lacks ns id i [] h = refl
set_parents-Lacks ns id i (c ∷ cs) h =
    set_parents-Lacks (set_node ns c (adopt id)) id i cs h.1
    ∙ get_or-set_node_ne ns c i (adopt id) h.0

set_parents-parent :
    (ns : List Node) (id i : NodeId) (cs : List NodeId)
    → i < length ns
    → (get_or ns i no_node).parent ≡ some id
    → (get_or (set_parents ns id cs) i no_node).parent ≡ some id
unfolding set_parents
set_parents-parent ns id i [] h e = e
set_parents-parent ns id i (c ∷ cs) h e = elim (ℕ_discrete c i) [
  | yes p ↦
      set_parents-parent (set_node ns c (adopt id)) id i cs
        (omega (arith, set_node-length ns c (adopt id)))
        (subst (λ j. (get_or (set_node ns c (adopt id)) j no_node).parent ≡ some id) p
          (ap (λ (n : Node). n.parent) (get_or-set_node_self ns c (adopt id) (omega arith))))
  | no p ↦
      set_parents-parent (set_node ns c (adopt id)) id i cs
        (omega (arith, set_node-length ns c (adopt id)))
        (rw (get_or-set_node_ne ns c i (adopt id) p) e)
]

abbrev pub AllBelow : ℕ → List NodeId → Type 0
AllBelow n [] = Unit
AllBelow n (c ∷ cs) = (c < n) × AllBelow n cs

abbrev pub AllParent : List Node → NodeId → List NodeId → Type 0
AllParent ns id [] = Unit
AllParent ns id (c ∷ cs) = ((get_or ns c no_node).parent ≡ some id) × AllParent ns id cs

-- The children of a list keep their parent while it is set on more of them.
set_parents-AllParent :
    (ns : List Node) (id : NodeId) (cs : List NodeId)
    → AllBelow (length ns) cs
    → AllParent (set_parents ns id cs) id cs
unfolding set_parents
set_parents-AllParent ns id [] h = tt
set_parents-AllParent ns id (c ∷ cs) h =
    let same = set_node-length ns c (adopt id) in
    (
      set_parents-parent (set_node ns c (adopt id)) id c cs (omega (arith, same))
          (ap (λ (n : Node). n.parent) (get_or-set_node_self ns c (adopt id) h.0)),
      set_parents-AllParent (set_node ns c (adopt id)) id cs
          (subst (λ n. AllBelow n cs) (sym same) h.1),
    )

-- The closed node's own record, once its children know it.
closed_node :
    (ns : List Node) (id : NodeId) (cs : List NodeId) (close : Node → Node)
    → id < length ns
    → Lacks id cs
    → get_or (set_parents (set_node ns id close) id cs) id no_node ≡ close (get_or ns id no_node)
closed_node ns id cs close h l =
    set_parents-Lacks (set_node ns id close) id id cs l ∙ get_or-set_node_self ns id close h

take-all : (xs : List NodeId) → take (length xs) xs ≡ xs
take-all [] = refl
take-all (x ∷ xs) = ap (λ ys. x ∷ ys) (take-all xs)

-- Closing a node that is open with the children `mine` (distinct from it, and nodes of the tree),
-- while the nodes around it have the children `outer` so far: the node's children are `mine`, in
-- order, each has it as its parent, and what was pending before the node was opened is pending again.
pub end_node_lem :
    (t : Tree) (id end_token : ℕ) (outer mine : List NodeId) (marks : List ℕ)
    → id < length t.nodes
    → Lacks id mine
    → AllBelow (length t.nodes) mine
    → t.pending_children ≡ outer ++ mine
    → t.pending_marks ≡ length outer ∷ marks
    → (children (end_node id end_token t) id ≡ mine)
      × AllParent (end_node id end_token t).nodes id mine
      × ((end_node id end_token t).pending_children ≡ outer)
      × ((end_node id end_token t).pending_marks ≡ marks)
unfolding end_node children
end_node_lem t id end_token outer mine marks inside lacks below pending marked =
    let n = length outer in
    let first = (node_at t id).first_token in
    let close : Node → Node = λ (m : Node). record m {
      first_child = length t.child_ids;
      child_count = length (outer ++ mine) - n;
      token_count = if ltb first end_token then end_token - first else 0;
    } in
    let count : length (outer ++ mine) - n ≡ length mine =
      omega (arith, length-append outer mine) in
    rw (marked, pending)
      (rw (drop-length-append outer mine, take-length-append outer mine)
        (
          rw (closed_node t.nodes id mine close inside lacks)
              (rw (drop-length-append t.child_ids mine, count) (take-all mine)),
          set_parents-AllParent (set_node t.nodes id close) id mine
              (subst (λ k. AllBelow k mine) (sym (set_node-length t.nodes id close)) below),
          refl,
          refl,
        ))
