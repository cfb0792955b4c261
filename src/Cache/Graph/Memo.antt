-- ===== src/Cache/Graph/Memo.antt =====
-- source/fastlint/cache/closure.cc: the table of closure hashes holds what a walk would give.
use fastlint.Base.{
  ℕ, zero, suc, ◌+◌, ◌≡◌, refl, sym, ap, ◌∙◌, inl, inr, false, Option, none, some, List, [], ◌∷◌,
  ◌++◌, Bytes, arith, ◌==◌, length, get_elem?, Bool-cases, Option-cases, ==_iff,
}
use fastlint.Types.Hasher.{text_key}
use fastlint.Types.Graph.{Table, lookup, add}
use fastlint.Cache.Graph.{
  ImportGraph, empty_graph, entry_at, index_of, set_file, Seen, mark, push_import, push_imports,
  visit, closure_hashes, fold_hashes, closure_hash,
}

abbrev with_table : ImportGraph → Table → ImportGraph
with_table g t = record g { closure_by_path = t }

push_imports_table :
    (g : ImportGraph) (t : Table) (imports : List Bytes) (s : Seen × List ℕ)
    → push_imports (with_table g t) imports s ≡ push_imports g imports s
unfolding push_imports push_import index_of
push_imports_table g t [] s = refl
push_imports_table g t (import ∷ imports) s =
    push_imports_table g t imports (push_import g import s)

visit_table :
    (g : ImportGraph) (t : Table) (fuel : ℕ) (seen : Seen) (stack hashes : List ℕ)
    → visit (with_table g t) fuel (seen, stack) hashes ≡ visit g fuel (seen, stack) hashes
unfolding visit
visit_table g t zero seen stack hashes = refl
visit_table g t (suc fuel) seen [] hashes = refl
visit_table g t (suc fuel) seen (i ∷ stack) hashes =
    let imports = (entry_at g i).imports in
    let after = hashes ++ (entry_at g i).self_hash ∷ [] in
    let (seen', stack') = push_imports g imports (seen, stack) in
    ap (λ s. visit (with_table g t) fuel s after) (push_imports_table g t imports (seen, stack))
    ∙ visit_table g t fuel seen' stack' after

closure_hashes_table :
    (g : ImportGraph) (t : Table) (root : ℕ)
    → closure_hashes (with_table g t) root ≡ closure_hashes g root
unfolding closure_hashes
closure_hashes_table g t root =
    visit_table g t (length g.files + 1) (mark (λ i. false) root) (root ∷ []) []

index_of-lookup :
    (g : ImportGraph) (path : Bytes) (i : ℕ)
    → index_of g path ≡ some i
    → lookup (text_key path) g.by_path ≡ some i
unfolding index_of
index_of-lookup g path i h = elim (Option-cases (lookup (text_key path) g.by_path)) [
  | inl e ↦ absurd (ground (arith, h, e))
  | inr (k, e) ↦ elim (Option-cases (get_elem? g.files k)) [
    | inl f ↦ absurd (ground (arith, h, e, f))
    | inr (entry, f) ↦ ground (arith, h, e, f)
  ]
]

module _ (sort : List ℕ → List ℕ) where
  -- The hash without the table.
  abbrev pub fresh_at : ImportGraph → Option ℕ → ℕ
  fresh_at g none = 0
  fresh_at g (some root) = fold_hashes sort (closure_hashes g root)

  abbrev pub fresh_hash : ImportGraph → Bytes → ℕ
  fresh_hash g path = fresh_at g (index_of g path)

  -- Each hash in the table is the one of the file found under its key.
  pub IsMemo : ImportGraph → Type 0
  IsMemo g =
      (path : Bytes) (root value : ℕ)
      → index_of g path ≡ some root
      → lookup (text_key path) g.closure_by_path ≡ some value
      → value ≡ fold_hashes sort (closure_hashes g root)

  -- What a graph may have gone through.
  pub data Built : ImportGraph → Type 0 where
    fresh : Built empty_graph
    set :
        {g : ImportGraph} (path : Bytes) (content_hash : ℕ) (imports unresolved : List Bytes)
        → Built g
        → Built (set_file g path content_hash imports unresolved)
    asked : {g : ImportGraph} (path : Bytes) → Built g → Built ((closure_hash sort g path).1)

  set_file-IsMemo :
      (g : ImportGraph) (path : Bytes) (content_hash : ℕ) (imports unresolved : List Bytes)
      → IsMemo (set_file g path content_hash imports unresolved)
  unfolding IsMemo set_file lookup
  set_file-IsMemo g path content_hash imports unresolved p root value i l =
      elim (Option-cases (index_of g path)) [
        | inl e ↦ absurd (ground (arith, e, l))
        | inr (k, e) ↦ absurd (ground (arith, e, l))
      ]

  remember-IsMemo :
      (g : ImportGraph) (path : Bytes) (root : ℕ)
      → index_of g path ≡ some root
      → IsMemo g
      → let value = fold_hashes sort (closure_hashes g root) in
        IsMemo (with_table g (add (text_key path) value g.closure_by_path))
  unfolding IsMemo index_of lookup
  remember-IsMemo g path root e m p r v i l =
      let value = fold_hashes sort (closure_hashes g root) in
      let t = add (text_key path) value g.closure_by_path in
      let same = ap (fold_hashes sort) (closure_hashes_table g t r) in
      elim (Bool-cases (text_key path == text_key p)) [
        | inl k ↦
            let key : text_key path ≡ text_key p = (==_iff (text_key path) (text_key p)).0 k in
            let there : lookup (text_key path) g.by_path ≡ some r =
              ap (λ n. lookup n g.by_path) key ∙ index_of-lookup g p r i in
            let one : root ≡ r = ground (arith, there, index_of-lookup g path root e) in
            let found : value ≡ v = ground (arith, l, k) in
            sym found ∙ ap (λ n. fold_hashes sort (closure_hashes g n)) one ∙ sym same
        | inr k ↦ m p r v i (ground (arith, l, k)) ∙ sym same
      ]

  closure_hash-IsMemo :
      (g : ImportGraph) (path : Bytes)
      → IsMemo g
      → ((closure_hash sort g path).0 ≡ fresh_hash g path) × IsMemo ((closure_hash sort g path).1)
  unfolding closure_hash IsMemo
  closure_hash-IsMemo g path m = elim (Option-cases (index_of g path)) [
    | inl e ↦ rw (closure_hash, e) (refl, m)
    | inr (root, e) ↦ elim (Option-cases (lookup (text_key path) g.closure_by_path)) [
      | inl f ↦ rw (closure_hash, e, f) (refl, remember-IsMemo g path root e m)
      | inr (value, f) ↦ rw (closure_hash, e, f) (m path root value e f, m)
    ]
  ]

  Built-IsMemo : (g : ImportGraph) → Built g → IsMemo g
  unfolding IsMemo
  Built-IsMemo g fresh = λ p r v i l. absurd (unfold lookup in ground (arith, l))
  Built-IsMemo g (set {g = h} path content_hash imports unresolved b) =
      set_file-IsMemo h path content_hash imports unresolved
  Built-IsMemo g (asked {g = h} path b) = (closure_hash-IsMemo h path (Built-IsMemo h b)).1

  -- However a graph has been built from nothing by setting files and asking for hashes, an answer is
  -- the hash that a new walk would give.
  pub closure_hash-fresh_hash :
      (g : ImportGraph) (path : Bytes) → Built g → (closure_hash sort g path).0 ≡ fresh_hash g path
  closure_hash-fresh_hash g path b = (closure_hash-IsMemo g path (Built-IsMemo g b)).0
