-- ===== src/Types/Graph.antt =====
-- source/fastlint/types/type_graph.h, type_graph.cc: `TypeGraph`, types, symbols and texts interned by
-- their hash; an id is a row, and 0 stands for none. A map is an association list, its newest entry first; ids and counts stay below 2^32.
pub mod Strings
pub mod Rows
pub mod Ids
pub mod Sessions
use fastlint.Base.{
  ℕ, zero, suc, ◌+◌, Bool, true, false, Option, none, some, List, [], ◌∷◌, ◌++◌, ◌||◌, Bytes, ◌==◌,
  leb, if◌then◌else◌, length, get_or, take, drop,
}
use fastlint.Types.Hasher.{hash_text, hash_u32, hash_u64, offset_basis, text_key}

pub data ChildKind : Type 0 where
  no_children union_members intersection_members type_arguments : ChildKind

-- The value of the enumerator.
abbrev pub child_kind_code : ChildKind → ℕ
child_kind_code no_children = 0
child_kind_code union_members = 1
child_kind_code intersection_members = 2
child_kind_code type_arguments = 3

pub record TypeRow : Type 0 where
  pub hash : ℕ
  pub flags : ℕ
  pub object_flags : ℕ
  pub is_tuple : Bool
  pub symbol : ℕ
  pub alias_symbol : ℕ
  pub text : ℕ
  pub target : ℕ
  pub child_kind : ChildKind
  pub child_start : ℕ
  pub child_count : ℕ
  pub session_id : ℕ

pub record SymbolRow : Type 0 where
  pub hash : ℕ
  pub name : ℕ
  pub flags : ℕ
  pub check_flags : ℕ
  pub decl_start : ℕ
  pub decl_count : ℕ
  pub session_id : ℕ

abbrev pub no_type : TypeRow
no_type = record {
  hash = 0;
  flags = 0;
  object_flags = 0;
  is_tuple = false;
  symbol = 0;
  alias_symbol = 0;
  text = 0;
  target = 0;
  child_kind = no_children;
  child_start = 0;
  child_count = 0;
  session_id = 0;
}

abbrev pub no_symbol : SymbolRow
no_symbol = record {
  hash = 0;
  name = 0;
  flags = 0;
  check_flags = 0;
  decl_start = 0;
  decl_count = 0;
  session_id = 0;
}

abbrev pub Table : Type 0
Table = List (ℕ × ℕ)

-- `lookup_ptr`.
unfoldable pub lookup : ℕ → Table → Option ℕ
lookup key [] = none
lookup key ((k, v) ∷ m) = if k == key then some v else lookup key m

-- `add` of a new key, and `add_overwrite`.
abbrev pub add : ℕ → ℕ → Table → Table
add key v m = (key, v) ∷ m

pub record TypeGraph : Type 0 where
  pub types : List TypeRow
  pub symbols : List SymbolRow
  pub strings : List Bytes
  pub children : List ℕ
  pub declarations : List ℕ
  pub type_by_hash : Table
  pub symbol_by_hash : Table
  pub string_by_hash : Table
  pub type_by_session : Table
  pub symbol_by_session : Table

-- The constructor's: row 0 of each kind stands for none.
abbrev pub empty_graph : TypeGraph
empty_graph = record {
  types = no_type ∷ [];
  symbols = no_symbol ∷ [];
  strings = [] ∷ [];
  children = [];
  declarations = [];
  type_by_hash = [];
  symbol_by_hash = [];
  string_by_hash = [];
  type_by_session = [];
  symbol_by_session = [];
}

abbrev pub type_at : TypeGraph → ℕ → TypeRow
type_at g id = get_or g.types id no_type

abbrev pub symbol_at : TypeGraph → ℕ → SymbolRow
symbol_at g id = get_or g.symbols id no_symbol

abbrev pub append_string : Bytes → TypeGraph → TypeGraph
append_string text g = record g {
  strings = g.strings ++ text ∷ [];
  string_by_hash = add (text_key text) (length g.strings) g.string_by_hash;
}

unfoldable pub intern_string : Bytes → TypeGraph → ℕ × TypeGraph
intern_string text g = elim (lookup (text_key text) g.string_by_hash) [
  | some id ↦ (id, g)
  | none ↦ (length g.strings, append_string text g)
]

unfoldable pub text_of : TypeGraph → ℕ → Bytes
text_of g id = if id == 0 || leb (length g.strings) id then [] else get_or g.strings id []

-- A write that is out of range changes nothing; the graph makes none.
unfoldable pub set_row {ℓ} : {A : Type ℓ} → List A → ℕ → (A → A) → List A
set_row [] i f = []
set_row (r ∷ rs) zero f = f r ∷ rs
set_row (r ∷ rs) (suc i) f = r ∷ set_row rs i f

unfoldable pub hash_texts : List Bytes → ℕ → ℕ
hash_texts [] value = value
hash_texts (t ∷ ts) value = hash_texts ts (hash_text t value)

unfoldable pub symbol_key : Bytes → ℕ → ℕ → List Bytes → ℕ
symbol_key name flags check_flags declarations =
    hash_texts declarations
      (hash_u32 (length declarations) (hash_u32 check_flags (hash_u32 flags (text_key name))))

-- The loop that interns and appends the declarations.
unfoldable pub append_declarations : List Bytes → TypeGraph → TypeGraph
append_declarations [] g = g
append_declarations (d ∷ ds) g =
    let (id, h) = intern_string d g in
    append_declarations ds (record h { declarations = h.declarations ++ id ∷ [] })

unfoldable pub append_symbol : ℕ → Bytes → ℕ → ℕ → List Bytes → TypeGraph → TypeGraph
append_symbol key name flags check_flags decls g =
    let (name_id, named) = intern_string name g in
    let row = record no_symbol {
      hash = key;
      name = name_id;
      flags = flags;
      check_flags = check_flags;
      decl_start = length named.declarations;
      decl_count = length decls;
    } in
    let declared = append_declarations decls named in
    record declared {
      symbols = declared.symbols ++ row ∷ [];
      symbol_by_hash = add key (length declared.symbols) declared.symbol_by_hash;
    }

unfoldable pub set_symbol_session : ℕ → ℕ → TypeGraph → TypeGraph
set_symbol_session session id g = if session == 0 then g else record g {
  symbols = set_row g.symbols id (λ row. record row { session_id = session });
  symbol_by_session = add session id g.symbol_by_session;
}

unfoldable pub intern_symbol : Bytes → ℕ → ℕ → List Bytes → ℕ → TypeGraph → ℕ × TypeGraph
intern_symbol name flags check_flags decls session g =
    let key = symbol_key name flags check_flags decls in
    elim (lookup key g.symbol_by_hash) [
      | some id ↦ (id, set_symbol_session session id g)
      | none ↦
          let h = append_symbol key name flags check_flags decls g in
          (length g.symbols, set_symbol_session session (length g.symbols) h)
    ]

-- The hash of a symbol row, 0 for none.
abbrev pub symbol_hash : TypeGraph → ℕ → ℕ
symbol_hash g id = if id == 0 then 0 else (symbol_at g id).hash

unfoldable pub hash_children : TypeGraph → List ℕ → ℕ → ℕ
hash_children g [] value = value
hash_children g (c ∷ cs) value = hash_children g cs (hash_u64 (type_at g c).hash value)

unfoldable pub type_key : TypeGraph → TypeRow → List ℕ → ℕ
type_key g row cs = hash_children g cs (
    hash_u32 (length cs) (
      hash_u32 (child_kind_code row.child_kind) (
        hash_text (text_of g row.text) (
          hash_u64 (symbol_hash g row.alias_symbol) (
            hash_u64 (symbol_hash g row.symbol) (
              hash_u32 (if row.is_tuple then 1 else 0)
                (hash_u32 row.object_flags (hash_u32 row.flags offset_basis))))))))

abbrev pub append_type : ℕ → TypeRow → List ℕ → TypeGraph → TypeGraph
append_type key row cs g = record g {
  types =
      g.types
      ++ record row { hash = key; child_start = length g.children; child_count = length cs } ∷ [];
  children = g.children ++ cs;
  type_by_hash = add key (length g.types) g.type_by_hash;
}

unfoldable pub set_type_session : ℕ → ℕ → TypeGraph → TypeGraph
set_type_session session id g = if session == 0 then g else record g {
  types = set_row g.types id (λ row. record row { session_id = session });
  type_by_session = add session id g.type_by_session;
}

unfoldable pub intern : TypeRow → List ℕ → TypeGraph → ℕ × TypeGraph
intern row cs g =
    let key = type_key g row cs in
    elim (lookup key g.type_by_hash) [
      | some id ↦ (id, set_type_session row.session_id id g)
      | none ↦ (
        length g.types,
        set_type_session row.session_id (length g.types) (append_type key row cs g),
      )
    ]

unfoldable pub children_of : TypeGraph → ℕ → List ℕ
children_of g id =
    if id == 0 || leb (length g.types) id
    then []
    else take (type_at g id).child_count (drop (type_at g id).child_start g.children)

unfoldable pub declarations_of : TypeGraph → ℕ → List ℕ
declarations_of g id =
    if id == 0 || leb (length g.symbols) id
    then []
    else take (symbol_at g id).decl_count (drop (symbol_at g id).decl_start g.declarations)

abbrev pub found_or_zero : Option ℕ → ℕ
found_or_zero none = 0
found_or_zero (some id) = id

unfoldable pub by_hash : TypeGraph → ℕ → ℕ
by_hash g key = found_or_zero (lookup key g.type_by_hash)

unfoldable pub symbol_by_hash_id : TypeGraph → ℕ → ℕ
symbol_by_hash_id g key = found_or_zero (lookup key g.symbol_by_hash)

unfoldable pub by_session_id : TypeGraph → ℕ → ℕ
by_session_id g session =
    if session == 0 then 0 else found_or_zero (lookup session g.type_by_session)

unfoldable pub symbol_by_session_id : TypeGraph → ℕ → ℕ
symbol_by_session_id g session =
    if session == 0 then 0 else found_or_zero (lookup session g.symbol_by_session)

unfoldable pub clear_types : List TypeRow → List TypeRow
clear_types [] = []
clear_types (row ∷ rows) = record row { session_id = 0 } ∷ clear_types rows

unfoldable pub clear_symbols : List SymbolRow → List SymbolRow
clear_symbols [] = []
clear_symbols (row ∷ rows) = record row { session_id = 0 } ∷ clear_symbols rows

unfoldable pub clear_session_ids : TypeGraph → TypeGraph
clear_session_ids g = record g {
  types = clear_types g.types;
  symbols = clear_symbols g.symbols;
  type_by_session = [];
  symbol_by_session = [];
}
