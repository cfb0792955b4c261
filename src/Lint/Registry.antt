-- ===== src/Lint/Registry.antt =====
-- source/fastlint/lint/registry.cc: rules by name, with the prefixes of the plugin they come from.
-- A rule is its name; the rest of its record plays no part here.
use fastlint.Base.{
  ℕ, ◌≡◌, ◌≢◌, refl, Bool, ◌&&◌, ◌||◌, Option, none, some, List, [], ◌∷◌, ◌++◌, arith, Bytes, codes,
  ltb, if◌then◌else◌, length, drop, bytes_eq, starts_with,
}

abbrev pub long_prefix : Bytes
long_prefix = codes "@typescript-eslint/"

abbrev pub short_prefix : Bytes
short_prefix = codes "typescript-eslint/"

-- `name.size() > prefix.size()`, and the prefix in front.
abbrev pub has_prefix : Bytes → Bytes → Bool
has_prefix name prefix = ltb (length prefix) (length name) && starts_with name prefix

unfoldable pub canonical : Bytes → Bytes
canonical name =
    if has_prefix name long_prefix
    then drop (length long_prefix) name
    else if has_prefix name short_prefix
    then drop (length short_prefix) name
    else name

-- The prefix without its slash.
unfoldable pub is_alias_prefix : Bytes → Bool
is_alias_prefix name =
    bytes_eq name (codes "@typescript-eslint") || bytes_eq name (codes "typescript-eslint")

unfoldable pub find_named : Bytes → List Bytes → Option Bytes
find_named wanted [] = none
find_named wanted (rule ∷ rules) =
    if bytes_eq wanted rule then some rule else find_named wanted rules

unfoldable pub find : List Bytes → Bytes → Option Bytes
unfolding find_named
find rules name = find_named (canonical name) rules

-- A rule is found under either prefix as under its own name, if that is not empty and has neither
-- prefix.
pub find-prefix :
    (rules : List Bytes) (name : Bytes)
    → name ≢ []
    → canonical name ≡ name
    → (find rules (long_prefix ++ name) ≡ find rules name)
      × (find rules (short_prefix ++ name) ≡ find rules name)
unfolding find
find-prefix rules [] h e = absurd (h refl)
find-prefix rules (c ∷ s) h e = (rw (canonical-long c s, e) refl, rw (canonical-short c s, e) refl)
  where
    canonical-long : (c : ℕ) (s : Bytes) → canonical (long_prefix ++ c ∷ s) ≡ c ∷ s
    canonical-long c s = unfold canonical in ground arith

    canonical-short : (c : ℕ) (s : Bytes) → canonical (short_prefix ++ c ∷ s) ≡ c ∷ s
    canonical-short c s = unfold canonical in ground arith
