-- ===== src/Cache/Graph/Reach.antt =====
-- source/fastlint/cache/closure.cc: the walk over the import graph visits a file's closure.
use mathlib.Core.Path.{subst}
use fastlint.Base.{
  ℕ, zero, suc, ◌+◌, ◌<◌, ◌≡◌, ◌↔◌, refl, ap, ◌∙◌, inl, inr, true, false, List, [], ◌∷◌, ◌++◌,
  Bytes, arith, ◌==◌, length, Bool-cases, Option-cases, ==_iff,
}
use fastlint.Cache.Graph.{
  ImportGraph, entry_at, index_of, Seen, mark, push_import, push_imports, visit, closure_hashes,
}
use fastlint.Cache.Graph.Walk.{
  has, is_distinct, has-append, append-is_distinct, names, Reaches, itself, through, self_hashes,
  self_hashes-append, Walk, unseen, unseen-mark, index_of_bound, push_imports-Walk, mark_reached,
}

module _ (g : ImportGraph) where
  -- The files that are stacked or not yet marked: one less for each visit.
  abbrev left : Seen × List ℕ → ℕ
  left (seen, stack) = length stack + unseen g seen (length g.files)

  left-push_import :
      (import : Bytes) (seen : Seen) (stack : List ℕ)
      → left (push_import g import (seen, stack)) ≡ left (seen, stack)
  unfolding push_import
  left-push_import import seen stack = elim (Option-cases (index_of g import)) [
    | inl e ↦ rw (push_import, e) refl
    | inr (k, e) ↦ elim (Bool-cases (seen k)) [
      | inl s ↦ rw (push_import, e, s) refl
      | inr s ↦
          rw (push_import, e, s)
            (omega (arith, unseen-mark g seen k (length g.files) (index_of_bound g import k e) s))
    ]
  ]

  left-push_imports :
      (imports : List Bytes) (seen : Seen) (stack : List ℕ)
      → left (push_imports g imports (seen, stack)) ≡ left (seen, stack)
  unfolding push_imports
  left-push_imports [] seen stack = refl
  left-push_imports (import ∷ imports) seen stack =
      let (seen', stack') = push_import g import (seen, stack) in
      left-push_imports imports seen' stack' ∙ left-push_import import seen stack

  pop-Walk :
      (root x i : ℕ) (visited : List ℕ) (seen : Seen) (stack : List ℕ)
      → Walk g root x [] visited seen (i ∷ stack)
      → Walk g root i (entry_at g i).imports (visited ++ i ∷ []) seen stack
  pop-Walk root x i visited seen stack w = record {
    reached = w.reached;
    kept = λ k. ground (arith, w.kept k, has-append k i visited);
    closed = λ k j v n. elim (Bool-cases (k == i)) [
      | inl e ↦
          let same : k ≡ i = (==_iff k i).0 e in
          ground (arith, e, ap (λ m. names g (entry_at g m).imports j) same, n)
      | inr e ↦ ground (arith, e, w.closed k j (ground (arith, e, v, has-append k i visited)) n)
    ];
    rooted = w.rooted;
    distinct = append-is_distinct i visited w.distinct (ground (arith, w.apart i));
    stack_distinct = ground (arith, w.stack_distinct);
    apart = λ k h. elim (Bool-cases (k == i)) [
      | inl e ↦
          let same : k ≡ i = (==_iff k i).0 e in
          ground (arith, ap (λ m. has m stack) same, w.stack_distinct)
      | inr e ↦ ground (arith, e, w.apart k, has-append k i visited, h)
    ];
  }

  -- The hashes of every file that can be reached, each once.
  pub IsClosure : ℕ → List ℕ → Type 0
  IsClosure root hashes =
      (visited : List ℕ) × (hashes ≡ self_hashes g visited)
      × (is_distinct visited ≡ true)
      × ((i : ℕ) → (has i visited ≡ true) ↔ Reaches g root i)

  Walk-done :
      (root x : ℕ) (visited : List ℕ) (seen : Seen)
      → Walk g root x [] visited seen []
      → (i : ℕ) → Reaches g root i
      → has i visited ≡ true
  Walk-done root x visited seen w i itself = ground (arith, w.rooted, w.kept root)
  Walk-done root x visited seen w i (through {i = k} r e) =
      ground (arith, w.closed k i (Walk-done root x visited seen w k r) e, w.kept i)

  visit-IsClosure :
      (root fuel x : ℕ) (visited : List ℕ) (seen : Seen) (stack : List ℕ)
      → Walk g root x [] visited seen stack
      → left (seen, stack) < fuel
      → IsClosure root (visit g fuel (seen, stack) (self_hashes g visited))
  unfolding visit IsClosure
  visit-IsClosure root zero x visited seen stack w h = absurd (omega arith)
  visit-IsClosure root (suc fuel) x visited seen [] w h = (
    visited,
    refl,
    w.distinct,
    λ i. ((λ v. w.reached i (ground (arith, w.kept i, v))), Walk-done root x visited seen w i),
  )
  visit-IsClosure root (suc fuel) x visited seen (i ∷ stack) w h =
      let imports = (entry_at g i).imports in
      let (seen', stack') = push_imports g imports (seen, stack) in
      let r = w.reached i (ground (arith, w.kept i)) in
      let next =
        push_imports-Walk g root i imports (visited ++ i ∷ []) seen stack r (λ j n. n)
          (pop-Walk root x i visited seen stack w) in
      subst (λ hashes. IsClosure root (visit g fuel (seen', stack') hashes))
        (self_hashes-append g visited i)
        (visit-IsClosure root fuel i (visited ++ i ∷ []) seen' stack' next
          (omega (arith, left-push_imports imports seen stack)))

  start-Walk : (root : ℕ) → Walk g root root [] [] (mark (λ i. false) root) (root ∷ [])
  start-Walk root = record {
    reached = mark_reached g root root (λ i. false) (λ i h. absurd (cc)) itself;
    kept = λ i. ground arith;
    closed = λ i j v n. absurd (cc);
    rooted = ground arith;
    distinct = refl;
    stack_distinct = refl;
    apart = λ i h. absurd (cc);
  }

  unseen_none : (n : ℕ) → unseen g (λ i. false) n ≡ n
  unseen_none zero = refl
  unseen_none (suc n) = omega (arith, unseen_none n)

  -- The walk ends, and yields the hash of each file that the file imports, directly or not, and of
  -- the file itself, once each.
  pub closure_hashes-IsClosure :
      (root : ℕ) → root < length g.files → IsClosure root (closure_hashes g root)
  unfolding closure_hashes
  closure_hashes-IsClosure root h =
      let n = length g.files in
      let none : Seen = λ i. false in
      let counted = unseen-mark g none root n h refl in
      visit-IsClosure root (n + 1) root [] (mark none root) (root ∷ []) (start-Walk root)
        (omega (arith, counted, unseen_none n))
