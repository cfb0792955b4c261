-- ===== src/Cache/Resolve/First.antt =====
-- source/fastlint/cache/closure.cc: in which order the file of an import is looked for.
use fastlint.Base.{
  ◌-◌, ◌≡◌, sym, ap, ◌∙◌, inl, inr, Bool, true, false, List, [], ◌∷◌, ◌++◌, Bytes, codes, leb,
  if◌then◌else◌, length, length-append, take, drop, take-append-drop, drop-length-append,
  bytes_eq→eq, bytes_eq_self, and_true, Bool-cases, arith,
}
use fastlint.Cache.Paths.{is_relative_specifier, join_path, dir_of}
use fastlint.Cache.Resolve.{
  Rewrite, source_extensions, stem, ends_with, try_suffixes, try_rewrites, resolve_base,
  resolve_import,
}

-- The first of the candidates that is a file, or none of them.
pub data IsFirst (is_file : Bytes → Bool) : List Bytes → Bytes → Type 0 where
  nowhere : IsFirst is_file [] []
  here :
      {path : Bytes} {more : List Bytes} → is_file path ≡ true → IsFirst is_file (path ∷ more) path
  later :
      {path found : Bytes} {more : List Bytes}
      → is_file path ≡ false
      → IsFirst is_file more found
      → IsFirst is_file (path ∷ more) found

abbrev with_suffixes : Bytes → List Bytes → List Bytes
with_suffixes base [] = []
with_suffixes base (suffix ∷ suffixes) = (base ++ suffix) ∷ with_suffixes base suffixes

-- The sources of an emitted file: a path that ends in `from` has the same path with each of `to` in its
-- place, any other path has none.
pub data Sources (base from : Bytes) (to : List Bytes) : List Bytes → Type 0 where
  emitted : (x : Bytes) → base ≡ x ++ from → Sources base from to (with_suffixes x to)
  not_emitted : ((x : Bytes) → ¬ (base ≡ x ++ from)) → Sources base from to []

-- A path with each extension of a source.
abbrev pub extended : Bytes → List Bytes
extended base =
    (base ++ codes ".ts")
    ∷ (base ++ codes ".tsx")
    ∷ (base ++ codes ".mts")
    ∷ (base ++ codes ".cts")
    ∷ (base ++ codes ".d.ts")
    ∷ (base ++ codes ".js")
    ∷ (base ++ codes ".jsx")
    ∷ []

-- Where an import of `base` is looked for: the path itself; the sources of an emitted file; the path
-- with an extension; the index of a directory.
pub data Candidates (base : Bytes) : List Bytes → Type 0 where
  in_order :
      {js jsx mjs cjs : List Bytes}
      → Sources base (codes ".js") (codes ".ts" ∷ codes ".tsx" ∷ []) js
      → Sources base (codes ".jsx") (codes ".tsx" ∷ codes ".ts" ∷ []) jsx
      → Sources base (codes ".mjs") (codes ".mts" ∷ []) mjs
      → Sources base (codes ".cjs") (codes ".cts" ∷ []) cjs
      → Candidates base (
          base
          ∷ (js ++ (jsx ++ (mjs ++ (cjs ++ (extended base ++ extended (base ++ codes "/index")))))))

ends_with-stem :
    (text suffix : Bytes) → ends_with text suffix ≡ true → text ≡ stem text suffix ++ suffix
unfolding ends_with
ends_with-stem text suffix h =
    let (a, b) = and_true (leb (length suffix) (length text)) _ h in
    let n = length text - length suffix in
    let e = bytes_eq→eq (drop n text) suffix b in
    sym (take-append-drop n text) ∙ ap (λ s. take n text ++ s) e

ends_with-append : (x suffix : Bytes) → ends_with (x ++ suffix) suffix ≡ true
unfolding ends_with
ends_with-append x suffix =
    let l = length-append x suffix in
    let n : length (x ++ suffix) - length suffix ≡ length x = omega arith in
    let a : leb (length suffix) (length (x ++ suffix)) ≡ true = ground (arith, l) in
    rw (a, n, drop-length-append x suffix) (bytes_eq_self suffix)

module _ (is_file : Bytes → Bool) where
  try-IsFirst :
      (path found : Bytes) (more : List Bytes)
      → IsFirst is_file more found
      → IsFirst is_file (path ∷ more) (if is_file path then path else found)
  try-IsFirst path found more f = elim (Bool-cases (is_file path)) [
    | inl e ↦ rw e (here e)
    | inr e ↦ rw e (later e f)
  ]

  try_suffixes-IsFirst :
      (base : Bytes) (suffixes : List Bytes) (rest : Bytes) (more : List Bytes)
      → IsFirst is_file more rest
      → IsFirst is_file
          (with_suffixes base suffixes ++ more)
          (try_suffixes is_file base suffixes rest)
  unfolding try_suffixes
  try_suffixes-IsFirst base [] rest more f = f
  try_suffixes-IsFirst base (suffix ∷ suffixes) rest more f =
      try-IsFirst (base ++ suffix) _ _ (try_suffixes-IsFirst base suffixes rest more f)

  -- One rewrite in front of what is tried later.
  one_rewrite :
      (base : Bytes) (r : Rewrite) (rest : Bytes) (more : List Bytes)
      → IsFirst is_file more rest
      → (cs : List Bytes) × (Sources base r.from r.to cs
          × IsFirst is_file (cs ++ more) (
              if ends_with base r.from
              then try_suffixes is_file (stem base r.from) r.to rest
              else rest))
  one_rewrite base r rest more f = elim (Bool-cases (ends_with base r.from)) [
    | inl e ↦ (
      with_suffixes (stem base r.from) r.to,
      (
        emitted (stem base r.from) (ends_with-stem base r.from e),
        rw e (try_suffixes-IsFirst (stem base r.from) r.to rest more f),
      ),
    )
    | inr e ↦ (
      [],
      (
        not_emitted (λ x h.
            absurd (let a : ends_with base r.from ≡ true = rw h (ends_with-append x r.from) in cc)),
        rw e f,
      ),
    )
  ]

  -- A relative import names the first file among the candidates for the path it joins to, or nothing
  -- where none of them is a file. The candidates are in this order: the path itself; for a path that
  -- ends in .js the .ts and .tsx in its place, for .jsx the .tsx and .ts, for .mjs the .mts, for .cjs the
  -- .cts; the path with .ts, .tsx, .mts, .cts, .d.ts, .js and .jsx behind it; and with /index and each of
  -- these behind it.
  pub resolve_import-IsFirst :
      (from_file specifier : Bytes)
      → is_relative_specifier specifier ≡ true
      → (cs : List Bytes) × (Candidates (join_path (dir_of from_file) specifier) cs
          × IsFirst is_file cs (resolve_import is_file from_file specifier))
  unfolding resolve_import resolve_base try_rewrites
  resolve_import-IsFirst from_file specifier h =
      let base = join_path (dir_of from_file) specifier in
      let index = try_suffixes-IsFirst (base ++ codes "/index") source_extensions [] [] nowhere in
      let direct = try_suffixes-IsFirst base source_extensions _ _ index in
      let (cjs, (s, d)) =
        one_rewrite base (record { from = codes ".cjs"; to = codes ".cts" ∷ [] }) _ _ direct in
      let (mjs, (t, e)) =
        one_rewrite base (record { from = codes ".mjs"; to = codes ".mts" ∷ [] }) _ _ d in
      let (jsx, (u, f)) =
        one_rewrite base (record { from = codes ".jsx"; to = codes ".tsx" ∷ codes ".ts" ∷ [] }) _ _
          e in
      let (js, (v, g)) =
        one_rewrite base (record { from = codes ".js"; to = codes ".ts" ∷ codes ".tsx" ∷ [] }) _ _
          f in
      rw h (_, (in_order v u t s, try-IsFirst base _ _ g))
