-- ===== src/Cache/Freshness/Committed.antt =====
-- source/fastlint/cache/closure.cc: what a lookup finds behind a commit.
use mathlib.Core.Path.{subst}
use fastlint.Base.{
  ℕ, zero, suc, ◌≡◌, refl, ap, sym, ◌∙◌, inl, inr, Option, none, some, List, [], ◌∷◌, Bytes, arith,
  get_elem?, get_or, bytes_eq, bytes_eq→eq, Bool-cases, Option-cases,
}
use fastlint.Types.Hasher.{text_key}
use fastlint.Types.Graph as Types
use fastlint.Cache.Graph.{
  FileEntry, ImportGraph, entry_at, index_of, file, closure_hash, empty_entry, fold_hashes,
  closure_hashes,
}
use fastlint.Cache.Freshness.{
  FileRecord, Store, Freshness, fresh, Looked, found, drop_stale, compare_stored, current, lookup,
  commit_file,
}

get_elem?-get_or :
    (files : List FileEntry) (i : ℕ) (entry : FileEntry)
    → get_elem? files i ≡ some entry
    → get_or files i empty_entry ≡ entry
get_elem?-get_or [] i entry h = absurd (cc)
get_elem?-get_or (x ∷ files) zero entry h = ground (arith, h)
get_elem?-get_or (x ∷ files) (suc i) entry h = get_elem?-get_or files i entry h

-- A file that is found has the path it is found under.
file_path :
    (g : ImportGraph) (path : Bytes) (entry : FileEntry)
    → file g path ≡ some entry
    → entry.path ≡ path
unfolding file index_of
file_path g path entry h = elim (Option-cases (Types.lookup (text_key path) g.by_path)) [
  | inl e ↦ absurd (ground (arith, h, e))
  | inr (k, e) ↦ elim (Option-cases (get_elem? g.files k)) [
    | inl f ↦ absurd (ground (arith, h, e, f))
    | inr (there, f) ↦ elim (Bool-cases (bytes_eq there.path path)) [
      | inl b ↦
          let same : entry_at g k ≡ entry = ground (arith, h, e, f, b) in
          ap (λ (x : FileEntry). x.path) (sym same ∙ get_elem?-get_or g.files k there f)
          ∙ bytes_eq→eq there.path path b
      | inr b ↦ absurd (ground (arith, h, e, f, b))
    ]
  ]
]

abbrev with_hash : ImportGraph → Bytes → ℕ → ImportGraph
with_hash g path v = record g { closure_by_path = Types.add (text_key path) v g.closure_by_path }

file-with_hash :
    (g : ImportGraph) (path : Bytes) (v : ℕ) → file (with_hash g path v) path ≡ file g path
unfolding file index_of
file-with_hash g path v = refl

index_of-with_hash :
    (g : ImportGraph) (path : Bytes) (v : ℕ) → index_of (with_hash g path v) path ≡ index_of g path
unfolding index_of
index_of-with_hash g path v = refl

lookup-with_hash :
    (g : ImportGraph) (path : Bytes) (v : ℕ)
    → Types.lookup (text_key path) (with_hash g path v).closure_by_path ≡ some v
unfolding Types.lookup
lookup-with_hash g path v = ground arith

module _ (sort : List ℕ → List ℕ) where
  -- Asked again, the graph gives the same hash and stays as it is.
  abbrev Again : ImportGraph → Bytes → ℕ × ImportGraph → Type 0
  Again g path r = (closure_hash sort r.1 path ≡ (r.0, r.1)) × (file r.1 path ≡ file g path)

  closure_hash-Again : (g : ImportGraph) (path : Bytes) → Again g path (closure_hash sort g path)
  unfolding closure_hash
  closure_hash-Again g path = elim (Option-cases (index_of g path)) [
    | inl e ↦
        let here : closure_hash sort g path ≡ (0, g) = rw (closure_hash, e) refl in
        subst (Again g path) (sym here) (here, refl)
    | inr (root, e) ↦ elim (Option-cases (Types.lookup (text_key path) g.closure_by_path)) [
      | inr (v, f) ↦
          let here : closure_hash sort g path ≡ (v, g) = rw (closure_hash, e, f) refl in
          subst (Again g path) (sym here) (here, refl)
      | inl f ↦
          let v = fold_hashes sort (closure_hashes g root) in
          let h = with_hash g path v in
          let here : closure_hash sort g path ≡ (v, h) = rw (closure_hash, e, f) refl in
          let again : closure_hash sort h path ≡ (v, h) =
            rw (closure_hash, index_of-with_hash g path v ∙ e, lookup-with_hash g path v) refl in
          subst (Again g path) (sym here) (again, file-with_hash g path v)
    ]
  ]

  module _ (store : Store) (tsconfig_hash : ℕ) where
    open store use {State, get_file, put_file, drop_node_types, drop_rule_results}

    abbrev now_of : FileEntry → ℕ → FileRecord
    now_of = current sort store tsconfig_hash

    abbrev reported : Looked State → Option (FileRecord × ImportGraph)
    reported (found now answer g s) = some (now, g)
    reported _ = none

    drop_stale_reports :
        (now stored : FileRecord) (g : ImportGraph) (s : State) (x : FileRecord × ImportGraph)
        → reported (drop_stale sort store tsconfig_hash now stored g s) ≡ some x
        → (now, g) ≡ x
    unfolding drop_stale
    drop_stale_reports now stored g s x h =
        elim (Option-cases (drop_node_types s stored.content_hash)) [
          | inl e ↦ absurd (ground (arith, h, e))
          | inr (t, e) ↦ elim (Option-cases (drop_rule_results t stored.content_hash)) [
            | inl f ↦ absurd (ground (arith, h, e, f))
            | inr (u, f) ↦ ground (arith, h, e, f)
          ]
        ]

    compare_reports :
        (o : Option (Option FileRecord)) (now : FileRecord) (g : ImportGraph) (s : State)
        (x : FileRecord × ImportGraph)
        → reported (compare_stored sort store tsconfig_hash o now g s) ≡ some x
        → (now, g) ≡ x
    unfolding compare_stored
    compare_reports none now g s x h = absurd (cc)
    compare_reports (some none) now g s x h = ground (arith, h)
    compare_reports (some (some stored)) now g s x h =
        ground (arith, h, drop_stale_reports now stored g s x)

    -- A lookup that succeeds reports the hashes of the graph.
    lookup_found :
        (g : ImportGraph) (s : State) (path : Bytes) (x : FileRecord × ImportGraph)
        → reported (lookup sort store tsconfig_hash g s path) ≡ some x
        → (entry : FileEntry) × (file g path ≡ some entry)
          × ((now_of entry (closure_hash sort g path).0, (closure_hash sort g path).1) ≡ x)
    unfolding lookup
    lookup_found g s path x e = elim (Option-cases (file g path)) [
      | inl f ↦ absurd (ground (arith, e, f))
      | inr (entry, f) ↦
          let (hash, h) = closure_hash sort g path in
          (
            entry,
            f,
            compare_reports (get_file s path) (now_of entry hash) h s x (ground (arith, e, f)),
          )
    ]

    lookup_fresh :
        (h : ImportGraph) (u : State) (path : Bytes) (entry : FileEntry) (hash : ℕ)
        → file h path ≡ some entry
        → closure_hash sort h path ≡ (hash, h)
        → get_file u path ≡ some (some (now_of entry hash))
        → lookup sort store tsconfig_hash h u path ≡ found (now_of entry hash) fresh h u
    unfolding lookup compare_stored
    lookup_fresh h u path entry hash f c e = rw (lookup, f, c, e) (ground arith)

    -- When a record that a lookup reported is committed, the next lookup of the path finds it fresh
    -- and changes nothing, with a store that returns the record which was put under a path.
    pub commit_file-lookup :
        ((s t : State) (r : FileRecord) → put_file s r ≡ some t → get_file t r.path ≡ some (some r))
        → (g : ImportGraph) (s : State) (path : Bytes) (now : FileRecord) (answer : Freshness)
          (h : ImportGraph) (t u : State)
        → lookup sort store tsconfig_hash g s path ≡ found now answer h t
        → commit_file sort store tsconfig_hash now t ≡ some u
        → lookup sort store tsconfig_hash h u path ≡ found now fresh h u
    unfolding commit_file
    commit_file-lookup law g s path now answer h t u e c =
        let (entry, f, same) = lookup_found g s path (now, h) (ap reported e) in
        let (again, files) = closure_hash-Again g path in
        let (hash, k) = closure_hash sort g path in
        let is_now : now_of entry hash ≡ now = ap (λ (x : FileRecord × ImportGraph). x.0) same in
        let is_h : k ≡ h = ap (λ (x : FileRecord × ImportGraph). x.1) same in
        let stored : get_file u path ≡ some (some (now_of entry hash)) =
          ap (get_file u) (sym (file_path g path entry f) ∙ ap (λ (r : FileRecord). r.path) is_now)
          ∙ law t u now c
          ∙ ap (λ r. some (some r)) (sym is_now) in
        subst
          (λ (x : FileRecord × ImportGraph).
            lookup sort store tsconfig_hash x.1 u path ≡ found x.0 fresh x.1 u)
          same (lookup_fresh k u path entry hash (files ∙ f) again stored)
