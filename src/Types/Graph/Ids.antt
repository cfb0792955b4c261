-- ===== src/Types/Graph/Ids.antt =====
-- source/fastlint/types/type_graph.cc: ids stay valid, and the same structure has the same id.
use fastlint.Base.{
  ℕ, zero, suc, ◌+◌, ◌≤◌, ◌<◌, ◌≡◌, refl, sym, ap, ◌∙◌, inl, inr, none, some, List, [], ◌∷◌, ◌++◌,
  append-nil, arith, length, take, drop, Option-cases,
}
use fastlint.Types.Hasher.{hash_u64}
use fastlint.Types.Graph.{
  TypeRow, lookup, TypeGraph, type_at, text_of, hash_children, type_key, append_type,
  set_type_session, intern, children_of,
}
use fastlint.Types.Graph.Rows.{
  IsIndexed, lasting, set_type_session-lasting, set_type_session-rest, append_type-old,
  length-append_type, lookup-add,
}

-- The graph before the session id is set, with the id.
pub interned-cases :
    (row : TypeRow) (cs : List ℕ) (g : TypeGraph) (P : ℕ × TypeGraph → Type 0)
    → ((id : ℕ)
        → lookup (type_key g row cs) g.type_by_hash ≡ some id
        → P (id, set_type_session row.session_id id g))
    → (lookup (type_key g row cs) g.type_by_hash ≡ none
        → P (
          length g.types,
          set_type_session row.session_id
              (length g.types)
              (append_type (type_key g row cs) row cs g),
        ))
    → P (intern row cs g)
unfolding intern
interned-cases row cs g P old new =
    elim (Option-cases (lookup (type_key g row cs) g.type_by_hash)) [
      | inr (id, e) ↦ rw (intern, e) (old id e)
      | inl e ↦ rw (intern, e) (new e)
    ]

-- What interning a type leaves of an old row, and its children's place.
pub record IsKept (g h : TypeGraph) (i : ℕ) : Type 0 where
  pub row : lasting (type_at h i) ≡ lasting (type_at g i)
  pub children : children_of h i ≡ children_of g i

take-drop-append :
    (n m : ℕ) (xs ys : List ℕ) → m + n ≤ length xs → take n (drop m (xs ++ ys)) ≡ take n (drop m xs)
take-drop-append zero m xs ys h = refl
take-drop-append (suc n) zero [] ys h = absurd (omega arith)
take-drop-append (suc n) zero (x ∷ xs) ys h =
    ap (λ t. x ∷ t) (take-drop-append n zero xs ys (omega arith))
take-drop-append (suc n) (suc m) [] ys h = absurd (omega arith)
take-drop-append (suc n) (suc m) (x ∷ xs) ys h = take-drop-append (suc n) m xs ys (omega arith)

-- Graphs whose rows agree, one with more children behind the other's.
children_of-kept :
    (g h : TypeGraph) (i : ℕ) (more : List ℕ)
    → IsIndexed g
    → i < length g.types
    → length g.types ≤ length h.types
    → h.children ≡ g.children ++ more
    → lasting (type_at h i) ≡ lasting (type_at g i)
    → children_of h i ≡ children_of g i
unfolding children_of
children_of-kept g h i more x low grown e same =
    let start = ap (λ (r : TypeRow). r.child_start) same in
    let count = ap (λ (r : TypeRow). r.child_count) same in
    rw (e, start, count)
      (rw
        (take-drop-append (type_at g i).child_count (type_at g i).child_start g.children more
          (x.in_range i low))
        (ground arith))

-- Interning a type leaves the row and the children of each type that was there as they were, but for
-- the id that a session gives it.
pub intern-IsKept :
    (row : TypeRow) (cs : List ℕ) (g : TypeGraph) (i : ℕ)
    → IsIndexed g
    → i < length g.types
    → IsKept g (intern row cs g).1 i
intern-IsKept row cs g i x low =
    interned-cases row cs g (λ r. IsKept g r.1 i)
      (λ id e.
        let rest = set_type_session-rest row.session_id id g in
        let same = set_type_session-lasting row.session_id id i g in
        record {
          row = same;
          children =
              children_of-kept g _ i [] x low (omega (arith, rest.0))
                (rest.2 ∙ sym (append-nil g.children)) same;
        })
      (λ e.
        let key = type_key g row cs in
        let appended = append_type key row cs g in
        let rest = set_type_session-rest row.session_id (length g.types) appended in
        let same =
          set_type_session-lasting row.session_id (length g.types) i appended
          ∙ ap lasting (append_type-old key row cs g i low) in
        record {
          row = same;
          children =
              children_of-kept g _ i cs x low
                (omega (arith, rest.0, length-append_type key row cs g)) rest.2 same;
        })

abbrev pub AllTypes : ℕ → List ℕ → Type 0
AllTypes n [] = Unit
AllTypes n (c ∷ cs) = (c < n) × AllTypes n cs

hash_children-kept :
    (g h : TypeGraph) (cs : List ℕ) (value : ℕ)
    → ((i : ℕ) → i < length g.types → (type_at h i).hash ≡ (type_at g i).hash)
    → AllTypes (length g.types) cs
    → hash_children h cs value ≡ hash_children g cs value
unfolding hash_children
hash_children-kept g h [] value same below = refl
hash_children-kept g h (c ∷ cs) value same below =
    hash_children-kept g h cs (hash_u64 (type_at h c).hash value) same below.1
    ∙ ap (λ k. hash_children g cs (hash_u64 k value)) (same c below.0)

-- The index finds the interned type under its key, and interning changes no text and no symbol.
pub intern-found :
    (row : TypeRow) (cs : List ℕ) (g : TypeGraph)
    → (lookup (type_key g row cs) (intern row cs g).1.type_by_hash ≡ some (intern row cs g).0)
      × ((intern row cs g).1.strings ≡ g.strings)
      × ((intern row cs g).1.symbols ≡ g.symbols)
unfolding set_type_session
intern-found row cs g =
    interned-cases row cs g
      (λ r.
        (lookup (type_key g row cs) r.1.type_by_hash ≡ some r.0)
        × (r.1.strings ≡ g.strings)
        × (r.1.symbols ≡ g.symbols))
      (λ id e. ground (arith, e))
      (λ e.
        ground (
          arith,
          lookup-add (type_key g row cs) (type_key g row cs) (length g.types) g.type_by_hash,
        ))

type_key-kept :
    (row : TypeRow) (cs : List ℕ) (g : TypeGraph) (target session : ℕ)
    → IsIndexed g
    → AllTypes (length g.types) cs
    → type_key (intern row cs g).1 (record row { target = target; session_id = session }) cs
      ≡ type_key g row cs
unfolding type_key text_of
type_key-kept row cs g target session x below =
    let found = intern-found row cs g in
    rw (found.1, found.2)
      (hash_children-kept g (intern row cs g).1 cs _
        (λ i low. ap (λ (r : TypeRow). r.hash) (intern-IsKept row cs g i x low).row) below)

-- A type with the same structure is interned to the same id, and no row is added: also one that differs
-- in its target, which is no part of the key, so that the row keeps the target it was added with.
pub intern_again :
    (row : TypeRow) (cs : List ℕ) (g : TypeGraph) (target session : ℕ)
    → IsIndexed g
    → AllTypes (length g.types) cs
    → let first = intern row cs g in
      let second = intern (record row { target = target; session_id = session }) cs first.1 in
      (second.0 ≡ first.0)
      × (length second.1.types ≡ length first.1.types)
      × ((type_at second.1 second.0).target ≡ (type_at first.1 first.0).target)
intern_again row cs g target session x below =
    let first = intern row cs g in
    let row' = record row { target = target; session_id = session } in
    let there =
      ap (λ k. lookup k first.1.type_by_hash) (type_key-kept row cs g target session x below)
      ∙ (intern-found row cs g).0 in
    interned-cases row' cs first.1
      (λ second.
        (second.0 ≡ first.0)
        × (length second.1.types ≡ length first.1.types)
        × ((type_at second.1 second.0).target ≡ (type_at first.1 first.0).target))
      (λ id e.
        let same : id ≡ first.0 = ground (arith, e, there) in
        (
          same,
          (set_type_session-rest session id first.1).0,
          ap (λ (r : TypeRow). r.target) (set_type_session-lasting session id id first.1)
              ∙ ap (λ j. (type_at first.1 j).target) same,
        ))
      (λ e. absurd (ground (arith, e, there)))
