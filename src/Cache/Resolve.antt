-- ===== src/Cache/Resolve.antt =====
-- source/fastlint/cache/closure.cc: the file an import names. The file system is the parameter
-- `is_file`; the empty path stands for no file, as in the program.
pub mod First
use fastlint.Base.{
  ◌-◌, Bool, ◌&&◌, List, [], ◌∷◌, ◌++◌, Bytes, codes, leb, if◌then◌else◌, length, take, drop,
  bytes_eq,
}
use fastlint.Cache.Paths.{is_relative_specifier, join_path, dir_of}

unfoldable pub ends_with : Bytes → Bytes → Bool
ends_with text suffix =
    leb (length suffix) (length text) && bytes_eq (drop (length text - length suffix) text) suffix

abbrev pub source_extensions : List Bytes
source_extensions =
    codes ".ts"
    ∷ codes ".tsx"
    ∷ codes ".mts"
    ∷ codes ".cts"
    ∷ codes ".d.ts"
    ∷ codes ".js"
    ∷ codes ".jsx"
    ∷ []

pub record Rewrite : Type 0 where
  pub from : Bytes
  pub to : List Bytes

abbrev pub rewrites : List Rewrite
rewrites =
    record { from = codes ".js"; to = codes ".ts" ∷ codes ".tsx" ∷ [] }
    ∷ record { from = codes ".jsx"; to = codes ".tsx" ∷ codes ".ts" ∷ [] }
    ∷ record { from = codes ".mjs"; to = codes ".mts" ∷ [] }
    ∷ record { from = codes ".cjs"; to = codes ".cts" ∷ [] }
    ∷ []

abbrev pub stem : Bytes → Bytes → Bytes
stem base suffix = take (length base - length suffix) base

-- A loop over suffixes that returns the first candidate there is, or goes on to `rest`.
unfoldable pub try_suffixes : (Bytes → Bool) → Bytes → List Bytes → Bytes → Bytes
try_suffixes is_file base [] rest = rest
try_suffixes is_file base (suffix ∷ suffixes) rest =
    let later = try_suffixes is_file base suffixes rest in
    if is_file (base ++ suffix) then base ++ suffix else later

unfoldable pub try_rewrites : (Bytes → Bool) → Bytes → List Rewrite → Bytes → Bytes
try_rewrites is_file base [] rest = rest
try_rewrites is_file base (rewrite ∷ more) rest =
    let later = try_rewrites is_file base more rest in
    if ends_with base rewrite.from
    then try_suffixes is_file (stem base rewrite.from) rewrite.to later
    else later

unfoldable pub resolve_base : (Bytes → Bool) → Bytes → Bytes
resolve_base is_file base =
    let index = try_suffixes is_file (base ++ codes "/index") source_extensions [] in
    let extended = try_suffixes is_file base source_extensions index in
    if is_file base then base else try_rewrites is_file base rewrites extended

unfoldable pub resolve_import : (Bytes → Bool) → Bytes → Bytes → Bytes
resolve_import is_file from_file specifier =
    if is_relative_specifier specifier
    then resolve_base is_file (join_path (dir_of from_file) specifier)
    else []
