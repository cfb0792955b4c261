-- ===== src/Cache/Graph/Walk.antt =====
-- source/fastlint/cache/closure.cc: what holds during the walk over the import graph.
use mathlib.Core.Path.{subst}
use fastlint.Base.{
  ℕ, zero, suc, ◌+◌, ◌≤◌, ◌<◌, ◌≡◌, refl, sym, ap, ◌∙◌, inl, inr, Bool, true, false, not, ◌&&◌,
  ◌||◌, Option, none, some, List, [], ◌∷◌, ◌++◌, Bytes, arith, ◌==◌, if◌then◌else◌, length,
  get_elem?, get_elem?-length, Bool-cases, Option-cases, ==_iff,
}
use fastlint.Types.Hasher.{text_key}
use fastlint.Types.Graph.{lookup}
use fastlint.Cache.Graph.{ImportGraph, entry_at, index_of, Seen, mark, push_import, push_imports}

abbrev pub has : ℕ → List ℕ → Bool
has i [] = false
has i (x ∷ xs) = i == x || has i xs

abbrev pub is_distinct : List ℕ → Bool
is_distinct [] = true
is_distinct (x ∷ xs) = not (has x xs) && is_distinct xs

pub has-append : (i x : ℕ) (xs : List ℕ) → has i (xs ++ x ∷ []) ≡ (has i xs || i == x)
has-append i x [] = ground arith
has-append i x (y ∷ xs) = ground (arith, has-append i x xs)

pub append-is_distinct :
    (x : ℕ) (xs : List ℕ)
    → is_distinct xs ≡ true
    → has x xs ≡ false
    → is_distinct (xs ++ x ∷ []) ≡ true
append-is_distinct x [] d h = refl
append-is_distinct x (y ∷ xs) d h = ground (arith, append-is_distinct x xs, has-append y x xs)

module _ (g : ImportGraph) where
  abbrev is_index : Option ℕ → ℕ → Bool
  is_index none j = false
  is_index (some i) j = i == j

  -- Whether one of the imports names the file.
  abbrev pub names : List Bytes → ℕ → Bool
  names [] j = false
  names (import ∷ imports) j = is_index (index_of g import) j || names imports j

  -- The files that a file imports, in any number of steps.
  pub data Reaches (root : ℕ) : ℕ → Type 0 where
    itself : Reaches root root
    through : {i j : ℕ} → Reaches root i → names (entry_at g i).imports j ≡ true → Reaches root j

  abbrev pub self_hashes : List ℕ → List ℕ
  self_hashes [] = []
  self_hashes (i ∷ is) = (entry_at g i).self_hash ∷ self_hashes is

  pub self_hashes-append :
      (is : List ℕ) (i : ℕ)
      → self_hashes (is ++ i ∷ []) ≡ self_hashes is ++ (entry_at g i).self_hash ∷ []
  self_hashes-append [] i = refl
  self_hashes-append (j ∷ is) i = rw (self_hashes-append is i)

  -- During the walk: what is marked is visited or stacked, once, and can be reached; what a
  -- visited file imports is marked, except for the imports of `x` that are still ahead.
  pub record Walk (root x : ℕ) (rest : List Bytes) (visited : List ℕ) (seen : Seen) (stack : List ℕ)
      : Type 0 where
    pub reached : (i : ℕ) → seen i ≡ true → Reaches root i
    pub kept : (i : ℕ) → seen i ≡ (has i visited || has i stack)
    pub closed :
        (i j : ℕ)
        → has i visited ≡ true
        → names (entry_at g i).imports j ≡ true
        → (seen j || (i == x && names rest j)) ≡ true
    pub rooted : seen root ≡ true
    pub distinct : is_distinct visited ≡ true
    pub stack_distinct : is_distinct stack ≡ true
    pub apart : (i : ℕ) → has i visited ≡ true → has i stack ≡ false

  -- What is left to mark among the first files.
  abbrev pub unseen : Seen → ℕ → ℕ
  unseen seen zero = 0
  unseen seen (suc n) = (if seen n then 0 else 1) + unseen seen n

  unseen-mark_above : (seen : Seen) (i n : ℕ) → n ≤ i → unseen (mark seen i) n ≡ unseen seen n
  unseen-mark_above seen i zero h = refl
  unseen-mark_above seen i (suc n) h = ground (arith, unseen-mark_above seen i n)

  pub unseen-mark :
      (seen : Seen) (i n : ℕ) → i < n → seen i ≡ false → unseen (mark seen i) n + 1 ≡ unseen seen n
  unseen-mark seen i zero h e = absurd (omega arith)
  unseen-mark seen i (suc n) h e = elim (Bool-cases (n == i)) [
    | inl same ↦
        let at : n ≡ i = (==_iff n i).0 same in
        ground (arith, same, ap seen at, unseen-mark_above seen i n)
    | inr off ↦ ground (arith, off, unseen-mark seen i n)
  ]

  pub index_of_bound : (path : Bytes) (i : ℕ) → index_of g path ≡ some i → i < length g.files
  unfolding index_of
  index_of_bound path i h = elim (Option-cases (lookup (text_key path) g.by_path)) [
    | inl e ↦ absurd (ground (arith, h, e))
    | inr (k, e) ↦ elim (Option-cases (get_elem? g.files k)) [
      | inl f ↦ absurd (ground (arith, h, e, f))
      | inr (entry, f) ↦ ground (arith, h, e, f, get_elem?-length g.files k entry f)
    ]
  ]

  is_index_seen :
      (o : Option ℕ) (seen : Seen) (k : ℕ)
      → o ≡ some k
      → seen k ≡ true
      → (j : ℕ) → is_index o j ≡ true
      → seen j ≡ true
  is_index_seen none seen k e h j m = absurd (cc)
  is_index_seen (some i) seen k e h j m =
      let same : j ≡ k = ground (arith, e, (==_iff i j).0 m) in ap seen same ∙ h

  -- A pushed import may be struck off when the file it names is marked.
  closed_next :
      (x : ℕ) (import : Bytes) (rest : List Bytes) (seen next : Seen)
      → ((j : ℕ) → seen j ≡ true → next j ≡ true)
      → ((j : ℕ) → is_index (index_of g import) j ≡ true → next j ≡ true)
      → (i j : ℕ) → (seen j || (i == x && names (import ∷ rest) j)) ≡ true
      → (next j || (i == x && names rest j)) ≡ true
  closed_next x import rest seen next grows marks i j h = ground (arith, grows j, marks j, h)

  pub mark_reached :
      (root k : ℕ) (seen : Seen)
      → ((i : ℕ) → seen i ≡ true → Reaches root i)
      → Reaches root k
      → (i : ℕ) → mark seen k i ≡ true
      → Reaches root i
  mark_reached root k seen f r i h = elim (Bool-cases (i == k)) [
    | inl e ↦ subst (λ n. Reaches root n) (sym ((==_iff i k).0 e)) r
    | inr e ↦ f i (ground (arith, h, e))
  ]

  mark_apart :
      (k : ℕ) (visited stack : List ℕ)
      → ((i : ℕ) → has i visited ≡ true → has i stack ≡ false)
      → has k visited ≡ false
      → (i : ℕ) → has i visited ≡ true
      → has i (k ∷ stack) ≡ false
  mark_apart k visited stack apart off i h = elim (Bool-cases (i == k)) [
    | inl e ↦ absurd (ground (arith, h, off, ap (λ n. has n visited) ((==_iff i k).0 e)))
    | inr e ↦ ground (arith, e, apart i h)
  ]

  push_import-Walk :
      (root x : ℕ) (import : Bytes) (rest : List Bytes) (visited : List ℕ) (seen : Seen)
      (stack : List ℕ)
      → Reaches root x
      → ((j : ℕ) → names (import ∷ rest) j ≡ true → names (entry_at g x).imports j ≡ true)
      → Walk root x (import ∷ rest) visited seen stack
      → let (seen', stack') = push_import g import (seen, stack) in
        Walk root x rest visited seen' stack'
  unfolding push_import
  push_import-Walk root x import rest visited seen stack r inside w =
      elim (Option-cases (index_of g import)) [
        | inl e ↦
            rw (push_import, e)
              record {
                reached = w.reached;
                kept = w.kept;
                closed = λ i j v n.
                    closed_next x import rest seen seen (λ j h. h)
                      (λ j h. absurd (ground (arith, h, e))) i j (w.closed i j v n);
                rooted = w.rooted;
                distinct = w.distinct;
                stack_distinct = w.stack_distinct;
                apart = w.apart;
              }
        | inr (k, e) ↦ elim (Bool-cases (seen k)) [
          | inl s ↦
              rw (push_import, e, s)
                record {
                  reached = w.reached;
                  kept = w.kept;
                  closed = λ i j v n.
                      closed_next x import rest seen seen (λ j h. h)
                        (is_index_seen (index_of g import) seen k e s) i j (w.closed i j v n);
                  rooted = w.rooted;
                  distinct = w.distinct;
                  stack_distinct = w.stack_distinct;
                  apart = w.apart;
                }
          | inr s ↦
              rw (push_import, e, s)
                record {
                  reached =
                      mark_reached root k seen w.reached (through r (inside k (ground (arith, e))));
                  kept = λ i. ground (arith, w.kept i);
                  closed = λ i j v n.
                      closed_next x import rest seen (mark seen k) (λ j h. ground (arith, h))
                        (is_index_seen (index_of g import) (mark seen k) k e (ground arith)) i j
                        (w.closed i j v n);
                  rooted = ground (arith, w.rooted);
                  distinct = w.distinct;
                  stack_distinct = ground (arith, w.stack_distinct, w.kept k, s);
                  apart =
                      λ i h. mark_apart k visited stack w.apart (ground (arith, w.kept k, s)) i h;
                }
        ]
      ]

  pub push_imports-Walk :
      (root x : ℕ) (rest : List Bytes) (visited : List ℕ) (seen : Seen) (stack : List ℕ)
      → Reaches root x
      → ((j : ℕ) → names rest j ≡ true → names (entry_at g x).imports j ≡ true)
      → Walk root x rest visited seen stack
      → let (seen', stack') = push_imports g rest (seen, stack) in
        Walk root x [] visited seen' stack'
  unfolding push_imports
  push_imports-Walk root x [] visited seen stack r inside w = w
  push_imports-Walk root x (import ∷ rest) visited seen stack r inside w =
      let (seen', stack') = push_import g import (seen, stack) in
      push_imports-Walk root x rest visited seen' stack' r (λ j h. inside j (ground (arith, h)))
        (push_import-Walk root x import rest visited seen stack r inside w)
