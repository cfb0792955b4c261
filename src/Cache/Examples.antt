-- ===== src/Cache/Examples.antt =====
-- source/fastlint/cache/closure.cc at concrete paths and a graph of two files.
use fastlint.Base.{
  ℕ, ◌≡◌, refl, Bool, true, ◌||◌, List, [], ◌∷◌, Bytes, codes, arith, leb, if◌then◌else◌, bytes_eq,
}
use fastlint.Cache.Paths.{
  joined, join_path, dir_of, dir_of_root, is_absolute, drive, push_first, push_more, split_path,
  push_parts, push_part, spell, join_parts, before_slash, is_relative_specifier,
}
use fastlint.Cache.Resolve.{resolve_import, resolve_base, try_rewrites, try_suffixes, ends_with}
use fastlint.Cache.Resolve.First.{IsFirst, Candidates, resolve_import-IsFirst}
use fastlint.Types.Hasher.{text_key}
use fastlint.Cache.Graph.{
  ImportGraph, empty_graph, set_file, new_entry, closure_hash, closure_hashes,
}
use fastlint.Cache.Graph.Reach.{IsClosure, closure_hashes-IsClosure}
use fastlint.Cache.Graph.Memo.{Built, fresh, set, asked, fresh_hash, closure_hash-fresh_hash}

join_tests :
    (join_path (codes "/a/b") (codes "../c/./d.ts") ≡ codes "/a/c/d.ts")
    × (join_path (codes "a") (codes "../../b") ≡ codes "../b")
    × (join_path (codes "/a") (codes "../../b") ≡ codes "/b")
    × (join_path (codes "x") (codes "C:\\y") ≡ codes "C:/y")
    × (dir_of (codes "src/a.ts") ≡ codes "src")
unfolding join_path dir_of before_slash joined is_absolute drive push_first push_more split_path
    push_parts push_part spell join_parts
join_tests = (refl, refl, refl, refl, refl)

dir_of_root_example : dir_of (codes "/a.ts") ≡ codes "."
dir_of_root_example = dir_of_root (codes "a.ts") refl

abbrev on_disk : Bytes → Bool
on_disk path = bytes_eq path (codes "src/b.tsx") || bytes_eq path (codes "src/b/index.ts")

-- `./b.js` names the source file that `b.js` was made from.
rewrite_test : resolve_import on_disk (codes "src/a.ts") (codes "./b.js") ≡ codes "src/b.tsx"
unfolding resolve_import resolve_base is_relative_specifier try_rewrites try_suffixes ends_with
    join_path dir_of before_slash joined is_absolute drive push_first push_more split_path
    push_parts push_part spell join_parts
rewrite_test = refl

relative : is_relative_specifier (codes "./b.js") ≡ true
unfolding is_relative_specifier
relative = refl

resolve_import-IsFirst_example :
    (cs : List Bytes) × (Candidates (join_path (dir_of (codes "src/a.ts")) (codes "./b.js")) cs
      × IsFirst on_disk cs (resolve_import on_disk (codes "src/a.ts") (codes "./b.js")))
resolve_import-IsFirst_example =
    resolve_import-IsFirst on_disk (codes "src/a.ts") (codes "./b.js") relative

-- A declaration wins over the script beside it.
abbrev declared : Bytes → Bool
declared path = bytes_eq path (codes "src/b.d.ts") || bytes_eq path (codes "src/b.js")

declaration_test : resolve_import declared (codes "src/a.ts") (codes "./b") ≡ codes "src/b.d.ts"
unfolding resolve_import resolve_base is_relative_specifier try_rewrites try_suffixes ends_with
    join_path dir_of before_slash joined is_absolute drive push_first push_more split_path
    push_parts push_part spell join_parts
declaration_test = refl

-- Two files that import each other.
abbrev ring : ImportGraph
ring = record {
  files =
      new_entry (codes "a") 1 (codes "b" ∷ []) []
      ∷ new_entry (codes "b") 2 (codes "a" ∷ []) []
      ∷ [];
  by_path = (text_key (codes "a"), 0) ∷ (text_key (codes "b"), 1) ∷ [];
  closure_by_path = [];
}

closure_hashes-IsClosure_example : IsClosure ring 0 (closure_hashes ring 0)
closure_hashes-IsClosure_example = closure_hashes-IsClosure ring 0 (omega arith)

abbrev insert : ℕ → List ℕ → List ℕ
insert x [] = x ∷ []
insert x (y ∷ ys) = if leb x y then x ∷ y ∷ ys else y ∷ insert x ys

abbrev insertion_sort : List ℕ → List ℕ
insertion_sort [] = []
insertion_sort (x ∷ xs) = insert x (insertion_sort xs)

abbrev built : ImportGraph
built =
    set_file (set_file empty_graph (codes "a") 1 (codes "b" ∷ []) []) (codes "b") 2 (codes "a" ∷ [])
      []

built-Built : Built insertion_sort (closure_hash insertion_sort built (codes "a")).1
built-Built =
    asked (codes "a")
      (set (codes "b") 2 (codes "a" ∷ []) [] (set (codes "a") 1 (codes "b" ∷ []) [] fresh))

closure_hash-fresh_hash_example :
    let g = (closure_hash insertion_sort built (codes "a")).1 in
    (closure_hash insertion_sort g (codes "b")).0 ≡ fresh_hash insertion_sort g (codes "b")
closure_hash-fresh_hash_example =
    closure_hash-fresh_hash insertion_sort ((closure_hash insertion_sort built (codes "a")).1)
      (codes "b") built-Built
