-- ===== src/Cache/Freshness.antt =====
-- source/fastlint/cache/closure.h and closure.cc: `FileCache`, which says whether a file's results can
-- be replayed. The store is a parameter: its state and the calls of it, each of which may fail.
pub mod Committed
mod Examples
use fastlint.Base.{ℕ, Bool, true, false, ◌&&◌, Option, none, some, List, Bytes, ◌==◌, if◌then◌else◌}
use fastlint.Cache.Graph.{FileEntry, ImportGraph, file, closure_hash}

pub record FileRecord : Type 0 where
  pub path : Bytes
  pub content_hash : ℕ
  pub closure_hash : ℕ
  pub tsconfig_hash : ℕ

pub record Store : Type 1 where
  pub State : Type 0
  pub get_file : State → Bytes → Option (Option FileRecord)
  pub put_file : State → FileRecord → Option State
  pub drop_node_types : State → ℕ → Option State
  pub drop_rule_results : State → ℕ → Option State

pub data Freshness : Type 0 where
  missing stale fresh : Freshness

-- What a lookup leaves: the current hashes, the answer, the graph and the store; or an error, behind
-- which nothing is said of the store.
pub data Looked (S : Type 0) : Type 0 where
  found : FileRecord → Freshness → ImportGraph → S → Looked S
  not_in_graph : ImportGraph → S → Looked S
  store_failed : FileRecord → ImportGraph → Looked S

abbrev pub same_hashes : FileRecord → FileRecord → Bool
same_hashes a b =
    a.content_hash == b.content_hash
    && a.closure_hash == b.closure_hash
    && a.tsconfig_hash == b.tsconfig_hash

module _ (sort : List ℕ → List ℕ) (store : Store) (tsconfig_hash : ℕ) where
  open store use {State, get_file, put_file, drop_node_types, drop_rule_results}

  -- A stale file loses what is stored under the content it had.
  unfoldable pub drop_stale : FileRecord → FileRecord → ImportGraph → State → Looked State
  drop_stale now stored g s = elim (drop_node_types s stored.content_hash) [
    | none ↦ store_failed now g
    | some t ↦ elim (drop_rule_results t stored.content_hash) [
      | none ↦ store_failed now g
      | some u ↦ found now stale g u
    ]
  ]

  unfoldable pub compare_stored :
      Option (Option FileRecord) → FileRecord → ImportGraph → State → Looked State
  compare_stored none now g s = store_failed now g
  compare_stored (some none) now g s = found now missing g s
  compare_stored (some (some stored)) now g s =
      if same_hashes stored now then found now fresh g s else drop_stale now stored g s

  abbrev pub current : FileEntry → ℕ → FileRecord
  current entry hash = record {
    path = entry.path;
    content_hash = entry.content_hash;
    closure_hash = hash;
    tsconfig_hash = tsconfig_hash;
  }

  unfoldable pub lookup : ImportGraph → State → Bytes → Looked State
  lookup g s path = elim (file g path) [
    | none ↦ not_in_graph g s
    | some entry ↦
        let (hash, g') = closure_hash sort g path in
        compare_stored (get_file s path) (current entry hash) g' s
  ]

  unfoldable pub commit_file : FileRecord → State → Option State
  commit_file now s = put_file s now
