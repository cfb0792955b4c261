-- ===== src/Syntax/Tree.antt =====
-- source/fastlint/syntax/tree.h, tree.cc: the builder of `GrammarTree`. A vector is a list; ids and
-- counts stay below 2^32, so that the source's casts change nothing.
pub mod Build
use fastlint.Base.{
  ℕ, zero, suc, ◌-◌, Option, none, some, List, [], ◌∷◌, ◌++◌, ltb, if◌then◌else◌, length, get_or,
  take, drop,
}

abbrev pub NodeId : Type 0
NodeId = ℕ

-- `kNoNode` is `none`; a kind is its number.
pub record Node : Type 0 where
  pub kind : ℕ
  pub flags : ℕ
  pub parent : Option NodeId
  pub first_child : ℕ
  pub child_count : ℕ
  pub first_token : ℕ
  pub token_count : ℕ

abbrev pub no_node : Node
no_node = record {
  kind = 0;
  flags = 0;
  parent = none;
  first_child = 0;
  child_count = 0;
  first_token = 0;
  token_count = 0;
}

-- The marks are a stack, its top first.
pub record Tree : Type 0 where
  pub nodes : List Node
  pub child_ids : List NodeId
  pub pending_children : List NodeId
  pub pending_marks : List ℕ

abbrev pub node_at : Tree → NodeId → Node
node_at t id = get_or t.nodes id no_node

-- A write out of range changes nothing; the builder makes none.
unfoldable pub set_node : List Node → NodeId → (Node → Node) → List Node
set_node [] i f = []
set_node (n ∷ ns) zero f = f n ∷ ns
set_node (n ∷ ns) (suc i) f = n ∷ set_node ns i f

unfoldable pub children : Tree → NodeId → List NodeId
children t id = let node = node_at t id in take node.child_count (drop node.first_child t.child_ids)

unfoldable pub begin_node : ℕ → ℕ → Tree → Tree × NodeId
begin_node kind first_token t = (
  record t {
    nodes = t.nodes ++ record no_node { kind = kind; first_token = first_token } ∷ [];
    pending_marks = length t.pending_children ∷ t.pending_marks;
  },
  length t.nodes,
)

unfoldable pub add_child : NodeId → Tree → Tree
add_child child t = record t { pending_children = t.pending_children ++ child ∷ [] }

abbrev pub adopt : NodeId → Node → Node
adopt id n = record n { parent = some id }

-- The loop over the children of the closed node: each learns its parent.
unfoldable pub set_parents : List Node → NodeId → List NodeId → List Node
set_parents ns id [] = ns
set_parents ns id (c ∷ cs) = set_parents (set_node ns c (adopt id)) id cs

-- `m_pendingMarks.last()` of a builder with no open node is not reached.
abbrev pub last_mark : List ℕ → ℕ
last_mark [] = 0
last_mark (m ∷ ms) = m

abbrev pub pop_mark : List ℕ → List ℕ
pop_mark [] = []
pop_mark (m ∷ ms) = ms

unfoldable pub end_node : NodeId → ℕ → Tree → Tree
end_node id end_token t =
    let mark = last_mark t.pending_marks in
    let mine = drop mark t.pending_children in
    let first = (node_at t id).first_token in
    let close = λ (n : Node). record n {
      first_child = length t.child_ids;
      child_count = length t.pending_children - mark;
      token_count = if ltb first end_token then end_token - first else 0;
    } in
    record {
      nodes = set_parents (set_node t.nodes id close) id mine;
      child_ids = t.child_ids ++ mine;
      pending_children = take mark t.pending_children;
      pending_marks = pop_mark t.pending_marks;
    }
