-- ===== src/Cache/Freshness/Examples.antt =====
-- source/fastlint/cache/closure.cc: a commit and the lookup behind it, with a store in memory.
use fastlint.Base.{
  ℕ, ◌≡◌, refl, ap, sym, ◌∙◌, Option, none, some, List, [], ◌∷◌, Bytes, codes, if◌then◌else◌,
  bytes_eq, bytes_eq_self,
}
use fastlint.Types.Hasher.{text_key, hash_text, hash_u32, hash_bytes, memory_bytes}
use fastlint.Types.Graph as Types
use fastlint.Cache.Graph.{ImportGraph, new_entry, file, index_of, closure_hash}
use fastlint.Cache.Freshness.{
  FileRecord, Store, missing, fresh, found, compare_stored, current, lookup, commit_file,
}
use fastlint.Cache.Freshness.Committed.{commit_file-lookup}

abbrev find_record : List FileRecord → Bytes → Option FileRecord
find_record [] path = none
find_record (r ∷ rs) path = if bytes_eq r.path path then some r else find_record rs path

abbrev in_memory : Store
in_memory = record {
  State = List FileRecord;
  get_file = λ s path. some (find_record s path);
  put_file = λ s r. some (r ∷ s);
  drop_node_types = λ s hash. some s;
  drop_rule_results = λ s hash. some s;
}

in_memory_law :
    (s t : List FileRecord) (r : FileRecord)
    → in_memory.put_file s r ≡ some t
    → in_memory.get_file t r.path ≡ some (some r)
in_memory_law s t r e =
    let read : Option (List FileRecord) → Option (Option FileRecord) =
      λ o. elim o [ none ↦ none | some l ↦ some (find_record l r.path) ] in
    let here : find_record (r ∷ s) r.path ≡ some r = rw (bytes_eq_self r.path) in
    sym (ap read e) ∙ ap some here

abbrev unsorted : List ℕ → List ℕ
unsorted hashes = hashes

abbrev one_file : ImportGraph
one_file = record {
  files = new_entry (codes "a") 1 [] [] ∷ [];
  by_path = (text_key (codes "a"), 0) ∷ [];
  closure_by_path = [];
}

abbrev asked : ℕ × ImportGraph
asked = closure_hash unsorted one_file (codes "a")

abbrev reported : FileRecord
reported = current unsorted in_memory 3 (new_entry (codes "a") 1 [] []) asked.0

first_lookup :
    lookup unsorted in_memory 3 one_file [] (codes "a") ≡ found reported missing asked.1 []
unfolding lookup compare_stored file index_of Types.lookup hash_text hash_u32 hash_bytes
    memory_bytes new_entry
first_lookup = refl

committed : commit_file unsorted in_memory 3 reported [] ≡ some (reported ∷ [])
unfolding commit_file
committed = refl

commit_file-lookup_example :
    lookup unsorted in_memory 3 asked.1 (reported ∷ []) (codes "a")
    ≡ found reported fresh asked.1 (reported ∷ [])
commit_file-lookup_example =
    commit_file-lookup unsorted in_memory 3 in_memory_law one_file [] (codes "a") reported missing
      asked.1 [] (reported ∷ []) first_lookup committed
