-- ===== src/Cache/Graph.antt =====
-- source/fastlint/cache/closure.h and closure.cc: the import graph. The vector's `sort` is a
-- parameter. The two maps are tables from the hash of a path, where `add` hides an older path with the
-- same hash; a vector of flags is a function.
pub mod Walk
pub mod Reach
pub mod Memo
use fastlint.Base.{
  ℕ, zero, suc, ◌+◌, Bool, true, false, Option, none, some, List, [], ◌∷◌, ◌++◌, Bytes, ◌==◌,
  if◌then◌else◌, length, get_elem?, get_or, bytes_eq,
}
use fastlint.Types.Hasher.{offset_basis, hash_u32, hash_u64, hash_text, text_key}
use fastlint.Types.Graph.{Table, lookup, add}

pub record FileEntry : Type 0 where
  pub path : Bytes
  pub content_hash : ℕ
  pub imports : List Bytes
  pub unresolved : List Bytes
  pub self_hash : ℕ

pub record ImportGraph : Type 0 where
  pub files : List FileEntry
  pub by_path : Table
  pub closure_by_path : Table

abbrev pub empty_entry : FileEntry
empty_entry = record { path = []; content_hash = 0; imports = []; unresolved = []; self_hash = 0 }

-- An empty graph, and what `clear` leaves.
abbrev pub empty_graph : ImportGraph
empty_graph = record { files = []; by_path = []; closure_by_path = [] }

abbrev pub entry_at : ImportGraph → ℕ → FileEntry
entry_at g i = get_or g.files i empty_entry

abbrev pub checked_index : Option FileEntry → Bytes → ℕ → Option ℕ
checked_index none path i = none
checked_index (some entry) path i = if bytes_eq entry.path path then some i else none

unfoldable pub index_of : ImportGraph → Bytes → Option ℕ
index_of g path = elim (lookup (text_key path) g.by_path) [
  | none ↦ none
  | some i ↦ checked_index (get_elem? g.files i) path i
]

unfoldable pub hash_texts : List Bytes → ℕ → ℕ
hash_texts [] value = value
hash_texts (text ∷ texts) value = hash_texts texts (hash_text text value)

-- `selfHash`: the path, the content and the specifiers that resolved to nothing.
unfoldable pub self_hash_of : Bytes → ℕ → List Bytes → ℕ
self_hash_of path content_hash unresolved =
    hash_texts unresolved
      (hash_u32 (length unresolved) (hash_u64 content_hash (hash_text path offset_basis)))

unfoldable pub new_entry : Bytes → ℕ → List Bytes → List Bytes → FileEntry
new_entry path content_hash imports unresolved = record {
  path = path;
  content_hash = content_hash;
  imports = imports;
  unresolved = unresolved;
  self_hash = self_hash_of path content_hash unresolved;
}

abbrev pub replace_at {ℓ} : {A : Type ℓ} → List A → ℕ → A → List A
replace_at [] i a = []
replace_at (x ∷ xs) zero a = a ∷ xs
replace_at (x ∷ xs) (suc i) a = x ∷ replace_at xs i a

unfoldable pub set_file : ImportGraph → Bytes → ℕ → List Bytes → List Bytes → ImportGraph
set_file g path content_hash imports unresolved =
    let entry = new_entry path content_hash imports unresolved in
    elim (index_of g path) [
      | some i ↦ record g { files = replace_at g.files i entry; closure_by_path = [] }
      | none ↦ record {
        files = g.files ++ entry ∷ [];
        by_path = add (text_key path) (length g.files) g.by_path;
        closure_by_path = [];
      }
    ]

unfoldable pub file : ImportGraph → Bytes → Option FileEntry
file g path = elim (index_of g path) [ none ↦ none | some i ↦ some (entry_at g i) ]

abbrev pub Seen : Type 0
Seen = ℕ → Bool

abbrev pub mark : Seen → ℕ → Seen
mark seen i = λ j. if j == i then true else seen j

-- One import: the file it names is marked and stacked when it is met for the first time.
unfoldable pub push_import : ImportGraph → Bytes → Seen × List ℕ → Seen × List ℕ
push_import g import (seen, stack) = elim (index_of g import) [
  | none ↦ (seen, stack)
  | some i ↦ if seen i then (seen, stack) else (mark seen i, i ∷ stack)
]

unfoldable pub push_imports : ImportGraph → List Bytes → Seen × List ℕ → Seen × List ℕ
push_imports g [] s = s
push_imports g (import ∷ imports) s = push_imports g imports (push_import g import s)

-- The loop over the stack, with the hashes so far.
unfoldable pub visit : ImportGraph → ℕ → Seen × List ℕ → List ℕ → List ℕ
visit g zero s hashes = hashes
visit g (suc fuel) (seen, []) hashes = hashes
visit g (suc fuel) (seen, i ∷ stack) hashes =
    visit g fuel (push_imports g (entry_at g i).imports (seen, stack))
      (hashes ++ (entry_at g i).self_hash ∷ [])

-- The hashes of a file's closure, in the order of the visits: a file is stacked once at most.
unfoldable pub closure_hashes : ImportGraph → ℕ → List ℕ
closure_hashes g root = visit g (length g.files + 1) (mark (λ i. false) root, root ∷ []) []

unfoldable pub hash_values : List ℕ → ℕ → ℕ
hash_values [] value = value
hash_values (v ∷ vs) value = hash_values vs (hash_u64 v value)

module _ (sort : List ℕ → List ℕ) where
  unfoldable pub fold_hashes : List ℕ → ℕ
  fold_hashes hashes =
      let sorted = sort hashes in hash_values sorted (hash_u32 (length sorted) offset_basis)

  -- The hash, and the graph with it in its table.
  unfoldable pub closure_hash : ImportGraph → Bytes → ℕ × ImportGraph
  closure_hash g path = elim (index_of g path) [
    | none ↦ (0, g)
    | some root ↦ elim (lookup (text_key path) g.closure_by_path) [
      | some cached ↦ (cached, g)
      | none ↦
          let value = fold_hashes (closure_hashes g root) in
          (value, record g { closure_by_path = add (text_key path) value g.closure_by_path })
    ]
  ]
