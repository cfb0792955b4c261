-- ===== src/Types/Graph/Rows.antt =====
-- source/fastlint/types/type_graph.cc: the rows of types and their index by hash.
use fastlint.Base.{
  ℕ, zero, suc, ◌+◌, ◌≤◌, ◌<◌, ◌≡◌, refl, sym, ap, ◌∙◌, ◌⊎◌, inl, inr, none, some, List, [], ◌∷◌,
  arith, ◌==◌, if◌then◌else◌, length, length-append, get_or, get_or-append_left,
  get_or-append_right, Bool-cases, Option-cases,
}
use fastlint.Types.Graph.{
  TypeRow, no_type, Table, lookup, add, TypeGraph, type_at, set_row, type_key, append_type,
  set_type_session, intern,
}

length-set_row {ℓ} :
    {A : Type ℓ} (rows : List A) (i : ℕ) (f : A → A) → length (set_row rows i f) ≡ length rows
unfolding set_row
length-set_row [] i f = refl
length-set_row (r ∷ rows) zero f = refl
length-set_row (r ∷ rows) (suc i) f = ap suc (length-set_row rows i f)

-- What a change keeps of a row, it keeps of all rows.
get_or-set_row {ℓ κ} :
    {A : Type ℓ} {B : Type κ} (p : A → B) (rows : List A) (i j : ℕ) (f : A → A) (d : A)
    → ((r : A) → p (f r) ≡ p r)
    → p (get_or (set_row rows i f) j d) ≡ p (get_or rows j d)
unfolding set_row
get_or-set_row p [] i j f d h = refl
get_or-set_row p (r ∷ rows) zero zero f d h = h r
get_or-set_row p (r ∷ rows) zero (suc j) f d h = refl
get_or-set_row p (r ∷ rows) (suc i) zero f d h = refl
get_or-set_row p (r ∷ rows) (suc i) (suc j) f d h = get_or-set_row p rows i j f d h

-- Each row but the first is found by its hash, each entry of the index is right, and the children of
-- a row are there.
pub record IsIndexed (g : TypeGraph) : Type 0 where
  pub canonical :
      (i : ℕ) → 0 < i → i < length g.types → lookup (type_at g i).hash g.type_by_hash ≡ some i
  pub indexed :
      (key i : ℕ)
      → lookup key g.type_by_hash ≡ some i
      → (0 < i) × (i < length g.types) × ((type_at g i).hash ≡ key)
  pub in_range :
      (i : ℕ)
      → i < length g.types
      → (type_at g i).child_start + (type_at g i).child_count ≤ length g.children
  pub nonempty : 0 < length g.types

-- A row without what a session leaves in it.
abbrev pub lasting : TypeRow → TypeRow
lasting row = record row { session_id = 0 }

pub set_type_session-lasting :
    (session id i : ℕ) (g : TypeGraph)
    → lasting (type_at (set_type_session session id g) i) ≡ lasting (type_at g i)
unfolding set_type_session
set_type_session-lasting session id i g = elim (Bool-cases (session == 0)) [
  | inl e ↦ rw e refl
  | inr e ↦ rw e (get_or-set_row lasting g.types id i _ no_type (λ r. refl))
]

pub set_type_session-rest :
    (session id : ℕ) (g : TypeGraph)
    → (length (set_type_session session id g).types ≡ length g.types)
      × ((set_type_session session id g).type_by_hash ≡ g.type_by_hash)
      × ((set_type_session session id g).children ≡ g.children)
unfolding set_type_session
set_type_session-rest session id g =
    ground (arith, length-set_row g.types id (λ row. record row { session_id = session }))

set_type_session-IsIndexed :
    (session id : ℕ) (g : TypeGraph) → IsIndexed g → IsIndexed (set_type_session session id g)
set_type_session-IsIndexed session id g x =
    let rest = set_type_session-rest session id g in
    let same = λ (i : ℕ). set_type_session-lasting session id i g in
    record {
      canonical = λ i low high.
          rw (ap (λ (r : TypeRow). r.hash) (same i), rest.1)
            (x.canonical i low (omega (arith, rest.0)));
      indexed = λ key i e.
          let y = x.indexed key i (rw (← rest.1) e) in
          (y.0, omega (arith, rest.0, y.1), ap (λ (r : TypeRow). r.hash) (same i) ∙ y.2);
      in_range = λ i h.
          rw
            (
              ap (λ (r : TypeRow). r.child_start) (same i),
              ap (λ (r : TypeRow). r.child_count) (same i),
              rest.2,
            )
            (x.in_range i (omega (arith, rest.0)));
      nonempty = omega (arith, rest.0, x.nonempty);
    }

pub append_type-old :
    (key : ℕ) (row : TypeRow) (cs : List ℕ) (g : TypeGraph) (i : ℕ)
    → i < length g.types
    → type_at (append_type key row cs g) i ≡ type_at g i
append_type-old key row cs g i h = get_or-append_left g.types _ i no_type h

append_type-new :
    (key : ℕ) (row : TypeRow) (cs : List ℕ) (g : TypeGraph)
    → type_at (append_type key row cs g) (length g.types)
      ≡ record row { hash = key; child_start = length g.children; child_count = length cs }
append_type-new key row cs g =
    get_or-append_right g.types _ (length g.types) 0 no_type (omega arith)

pub length-append_type :
    (key : ℕ) (row : TypeRow) (cs : List ℕ) (g : TypeGraph)
    → length (append_type key row cs g).types ≡ length g.types + 1
length-append_type key row cs g = length-append g.types _

-- An index is that of an old row, or of the new one.
row-cases : (i n : ℕ) → i < n + 1 → (i < n) ⊎ (i ≡ n)
row-cases i n h = elim (Bool-cases (i == n)) [
  | inl e ↦ inr (ground (arith, e))
  | inr e ↦ inl (ground (arith, e))
]

pub lookup-add :
    (k key v : ℕ) (m : Table) → lookup k (add key v m) ≡ (if key == k then some v else lookup k m)
unfolding lookup
lookup-add k key v m = refl

append_type-IsIndexed :
    (key : ℕ) (row : TypeRow) (cs : List ℕ) (g : TypeGraph)
    → lookup key g.type_by_hash ≡ none
    → IsIndexed g
    → IsIndexed (append_type key row cs g)
append_type-IsIndexed key row cs g new x =
    let hash_of = λ (r : TypeRow). r.hash in
    let size = length-append_type key row cs g in
    let n = length g.types in
    record {
      canonical = λ i low high. elim (row-cases i n (omega (arith, size))) [
        | inl old ↦
            ap (λ h. lookup h (add key n g.type_by_hash))
              (ap hash_of (append_type-old key row cs g i old))
            ∙ lookup-add (type_at g i).hash key n g.type_by_hash
            ∙ ground (arith, x.canonical i low old, new)
        | inr e ↦ rw e (
            ap (λ h. lookup h (add key n g.type_by_hash))
              (ap hash_of (append_type-new key row cs g))
            ∙ lookup-add key key n g.type_by_hash
            ∙ ground arith)
      ];
      indexed = λ k i e. elim (Bool-cases (key == k)) [
        | inl same ↦
            let here : n ≡ i = ground (arith, same, e, lookup-add k key n g.type_by_hash) in
            (
              omega (arith, x.nonempty),
              omega (arith, size),
              ap (λ j. (type_at (append_type key row cs g) j).hash) (sym here)
                  ∙ ap hash_of (append_type-new key row cs g)
                  ∙ ground (arith, same),
            )
        | inr other ↦
            let y = x.indexed k i (ground (arith, other, e, lookup-add k key n g.type_by_hash)) in
            (y.0, omega (arith, size, y.1), ap hash_of (append_type-old key row cs g i y.1) ∙ y.2)
      ];
      in_range = λ i h. elim (row-cases i n (omega (arith, size))) [
        | inl old ↦
            rw (append_type-old key row cs g i old)
              (omega (arith, x.in_range i old, length-append g.children cs))
        | inr e ↦
            rw e (rw (append_type-new key row cs g) (omega (arith, length-append g.children cs)))
      ];
      nonempty = omega (arith, size);
    }

-- Interning a type keeps every row but the first findable by its hash, the index free of wrong
-- entries, and the children of each row inside their vector.
pub intern-IsIndexed :
    (row : TypeRow) (cs : List ℕ) (g : TypeGraph) → IsIndexed g → IsIndexed (intern row cs g).1
unfolding intern
intern-IsIndexed row cs g x = elim (Option-cases (lookup (type_key g row cs) g.type_by_hash)) [
  | inr (id, e) ↦ rw (intern, e) (set_type_session-IsIndexed row.session_id id g x)
  | inl e ↦
      rw (intern, e)
        (set_type_session-IsIndexed row.session_id (length g.types) _
          (append_type-IsIndexed (type_key g row cs) row cs g e x))
]
