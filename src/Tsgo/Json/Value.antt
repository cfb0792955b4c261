-- ===== src/Tsgo/Json/Value.antt =====
-- source/fastlint/tsgo/json.h, json.cc: `JsonValue` and its accessors. A number keeps its spelling,
-- of which the source stores what `strtod` makes.
use fastlint.Base.{ℕ, zero, suc, Bool, Option, none, some, [], Bytes, bytes_eq, if◌then◌else◌}

mutual
  pub data Value : Type 0 where
    null : Value
    boolean : Bool → Value
    number string : Bytes → Value
    array : Items → Value
    object : Members → Value

  pub data Items : Type 0 where
    nil : Items
    cons : Value → Items → Items

  pub data Members : Type 0 where
    end : Members
    member : Bytes → Value → Members → Members

-- `at`: the items of an array and the values of an object are one vector.
pub item_at : Items → ℕ → Option Value
item_at nil i = none
item_at (cons v xs) zero = some v
item_at (cons v xs) (suc i) = item_at xs i

pub member_at : Members → ℕ → Option Value
member_at end i = none
member_at (member k v ms) zero = some v
member_at (member k v ms) (suc i) = member_at ms i

pub at : Value → ℕ → Option Value
at (array xs) i = item_at xs i
at (object ms) i = member_at ms i
at _ i = none

-- The first member of that name.
unfoldable pub find_member : Members → Bytes → Option Value
find_member end key = none
find_member (member k v ms) key = if bytes_eq k key then some v else find_member ms key

unfoldable pub get : Value → Bytes → Option Value
unfolding find_member
get (object ms) key = find_member ms key
get _ key = none

pub as_bool : Value → Bool → Bool
as_bool (boolean b) fallback = b
as_bool _ fallback = fallback

pub as_string : Value → Bytes
as_string (string s) = s
as_string _ = []

pub get_bool : Value → Bytes → Bool → Bool
get_bool v key fallback = elim (get v key) [ none ↦ fallback | some w ↦ as_bool w fallback ]

pub get_string : Value → Bytes → Bytes
get_string v key = elim (get v key) [ none ↦ [] | some w ↦ as_string w ]
