-- ===== src/Cache/Paths.antt =====
-- source/fastlint/cache/closure.cc: paths joined and taken apart.
use fastlint.Base.{
  ℕ, ◌≡◌, refl, inl, inr, Bool, true, false, not, ◌&&◌, ◌||◌, Option, none, some, List, [], ◌∷◌,
  ◌++◌, Bytes, codes, arith, ◌==◌, if◌then◌else◌, starts_with, bytes_eq, is_empty, Bool-cases,
}

abbrev pub is_slash : ℕ → Bool
is_slash c = c == b'/' || c == b'\\'

unfoldable pub is_relative_specifier : Bytes → Bool
is_relative_specifier s =
    starts_with s (codes "./")
    || starts_with s (codes "../")
    || bytes_eq s (codes ".")
    || bytes_eq s (codes "..")
    || starts_with s (codes "/")

abbrev pub dots : Bytes
dots = codes ".."

-- A drive letter with its colon, and the path behind it.
unfoldable pub drive : Bytes → Bytes × Bytes
drive (a ∷ b ∷ s) = if b == b':' then (a ∷ b ∷ [], s) else ([], a ∷ b ∷ s)
drive s = ([], s)

abbrev pub starts_slash : Bytes → Bool
starts_slash [] = false
starts_slash (c ∷ s) = is_slash c

unfoldable pub is_absolute : Bytes → Bool
is_absolute rel = starts_slash rel || not (is_empty ((drive rel).0))

abbrev pub head_part : ℕ → List Bytes → List Bytes
head_part c [] = (c ∷ []) ∷ []
head_part c (part ∷ rest) = (c ∷ part) ∷ rest

-- The parts of a path between its slashes.
unfoldable pub split_path : Bytes → List Bytes
split_path [] = [] ∷ []
split_path (c ∷ s) = if is_slash c then [] ∷ split_path s else head_part c (split_path s)

-- One part, with the parts so far from the last to the first.
unfoldable pub push_part : Bool → List Bytes → Bytes → List Bytes
push_part rooted [] part =
    if bytes_eq part dots
    then (if rooted then [] else part ∷ [])
    else if is_empty part || bytes_eq part (codes ".")
    then []
    else part ∷ []
push_part rooted (last ∷ parts) part =
    if bytes_eq part dots
    then (if not (bytes_eq last dots)
        then parts
        else if rooted
        then last ∷ parts
        else part ∷ last ∷ parts)
    else if is_empty part || bytes_eq part (codes ".")
    then last ∷ parts
    else part ∷ last ∷ parts

unfoldable pub push_parts : Bool → List Bytes → List Bytes → List Bytes
push_parts rooted parts [] = parts
push_parts rooted parts (part ∷ rest) = push_parts rooted (push_part rooted parts part) rest

-- What `push` has collected.
pub record Joined : Type 0 where
  pub prefix : Bytes
  pub rooted : Bool
  pub parts : List Bytes

unfoldable pub push_first : Bytes → Joined
push_first path =
    let (prefix, rest) = drive path in
    let rooted = starts_slash rest in
    record { prefix = prefix; rooted = rooted; parts = push_parts rooted [] (split_path rest) }

unfoldable pub push_more : Joined → Bytes → Joined
push_more j path = record j { parts = push_parts j.rooted j.parts (split_path path) }

unfoldable pub joined : Bytes → Bytes → Joined
joined dir rel =
    if is_absolute rel || is_empty dir then push_first rel else push_more (push_first dir) rel

-- The parts, from the last to the first, in front of a text that begins behind a slash.
unfoldable pub join_parts : List Bytes → Bytes → Bytes
join_parts [] out = out
join_parts (part ∷ []) out = part ++ out
join_parts (part ∷ next ∷ parts) out = join_parts (next ∷ parts) (b'/' ∷ part ++ out)

unfoldable pub spell : Joined → Bytes
spell j =
    let out = j.prefix ++ (if j.rooted then b'/' ∷ [] else []) ++ join_parts j.parts [] in
    if is_empty out then codes "." else out

unfoldable pub join_path : Bytes → Bytes → Bytes
join_path dir rel = spell (joined dir rel)

-- The text before the last slash.
unfoldable pub before_slash : Bytes → Option Bytes
before_slash [] = none
before_slash (c ∷ s) = elim (before_slash s) [
  | some front ↦ some (c ∷ front)
  | none ↦ if is_slash c then some [] else none
]

unfoldable pub dir_of : Bytes → Bytes
dir_of path = elim (before_slash path) [ none ↦ codes "." | some front ↦ join_path front [] ]

abbrev pub has_slash : Bytes → Bool
has_slash [] = false
has_slash (c ∷ s) = is_slash c || has_slash s

abbrev pub all_dots : List Bytes → Bool
all_dots [] = true
all_dots (part ∷ parts) = bytes_eq part dots && all_dots parts

-- A part that is neither empty nor made of dots, with no slash in it.
abbrev pub is_name : Bytes → Bool
is_name part =
    not (bytes_eq part dots)
    && not (is_empty part || bytes_eq part (codes "."))
    && not (has_slash part)

-- From the last part to the first: names, and behind them, in a path with no root, any number
-- of `..`.
abbrev pub is_normal : Bool → List Bytes → Bool
is_normal rooted [] = true
is_normal rooted (part ∷ parts) =
    (bytes_eq part dots && not rooted && all_dots parts) || (is_name part && is_normal rooted parts)

push_part_normal :
    (rooted : Bool) (parts : List Bytes) (part : Bytes)
    → has_slash part ≡ false
    → is_normal rooted parts ≡ true
    → is_normal rooted (push_part rooted parts part) ≡ true
unfolding push_part
push_part_normal rooted [] part s h = ground arith
push_part_normal rooted (last ∷ parts) part s h = ground arith

abbrev no_slashes : List Bytes → Bool
no_slashes [] = true
no_slashes (part ∷ parts) = not (has_slash part) && no_slashes parts

head_part_slashes :
    (c : ℕ) (parts : List Bytes)
    → is_slash c ≡ false
    → no_slashes parts ≡ true
    → no_slashes (head_part c parts) ≡ true
head_part_slashes c [] h n = ground arith
head_part_slashes c (part ∷ parts) h n = ground arith

split_path_slashes : (s : Bytes) → no_slashes (split_path s) ≡ true
unfolding split_path
split_path_slashes [] = refl
split_path_slashes (c ∷ s) = elim (Bool-cases (is_slash c)) [
  | inl e ↦ rw e (split_path_slashes s)
  | inr e ↦ rw e (head_part_slashes c (split_path s) e (split_path_slashes s))
]

push_parts_normal :
    (rooted : Bool) (parts rest : List Bytes)
    → no_slashes rest ≡ true
    → is_normal rooted parts ≡ true
    → is_normal rooted (push_parts rooted parts rest) ≡ true
unfolding push_parts
push_parts_normal rooted parts [] s h = h
push_parts_normal rooted parts (part ∷ rest) s h =
    push_parts_normal rooted (push_part rooted parts part) rest (ground (arith, s))
      (push_part_normal rooted parts part (ground (arith, s)) h)

push_first_normal :
    (path : Bytes) → is_normal ((push_first path).rooted) ((push_first path).parts) ≡ true
unfolding push_first
push_first_normal path =
    let rest = (drive path).1 in
    push_parts_normal (starts_slash rest) [] (split_path rest) (split_path_slashes rest) refl

-- A joined path has no empty part and no `.`; its `..` all stand at the front, and a path from
-- the root has none.
pub joined_normal :
    (dir rel : Bytes) → is_normal ((joined dir rel).rooted) ((joined dir rel).parts) ≡ true
unfolding joined push_more
joined_normal dir rel = elim (Bool-cases (is_absolute rel || is_empty dir)) [
  | inl e ↦ rw e (push_first_normal rel)
  | inr e ↦
      let j = push_first dir in
      rw e (
        push_parts_normal j.rooted j.parts (split_path rel) (split_path_slashes rel)
          (push_first_normal dir))
]

before_slash_flat : (s : Bytes) → has_slash s ≡ false → before_slash s ≡ none
unfolding before_slash
before_slash_flat [] h = refl
before_slash_flat (c ∷ s) h = ground (arith, before_slash_flat s)

-- The directory of a path whose only slash is its first byte is `.`, the current one.
pub dir_of_root : (name : Bytes) → has_slash name ≡ false → dir_of (b'/' ∷ name) ≡ codes "."
unfolding dir_of before_slash join_path joined is_absolute drive push_first split_path push_parts
    push_part spell join_parts
dir_of_root name h = rw (dir_of, before_slash, before_slash_flat name h) refl
