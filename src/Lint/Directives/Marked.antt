-- ===== src/Lint/Directives/Marked.antt =====
-- source/fastlint/lint/directives.cc: lists of directives up to an offset, and with one marked as used.
use fastlint.Base.{
  ℕ, zero, suc, ◌≤◌, ◌≡◌, refl, ap, Bool, true, List, [], ◌∷◌, ◌++◌, append-nil, arith, Bytes, ltb,
  if◌then◌else◌, length,
}
use fastlint.Lint.Directives.{Directive, at, mark_used}
use fastlint.Lint.Directives.Replay.{is_disable, concerns, is_off, within}

abbrev pub Early : ℕ → List Directive → Type 0
Early offset [] = Unit
Early offset (d ∷ ds) = (d.offset ≤ offset) × Early offset ds

pub Early-later : (o p : ℕ) (ds : List Directive) → o ≤ p → Early o ds → Early p ds
Early-later o p [] h e = tt
Early-later o p (d ∷ ds) h e = (omega (arith, e.0), Early-later o p ds h e.1)

pub Early-append :
    (o : ℕ) (xs : List Directive) (d : Directive)
    → Early o xs
    → d.offset ≤ o
    → Early o (xs ++ d ∷ [])
Early-append o [] d e h = (h, tt)
Early-append o (x ∷ xs) d e h = (e.0, Early-append o xs d e.1 h)

pub is_off-append :
    (now : Bool) (xs ys : List Directive) (rule : Bytes)
    → is_off now (xs ++ ys) rule ≡ is_off (is_off now xs rule) ys rule
unfolding is_off
is_off-append now [] ys rule = refl
is_off-append now (x ∷ xs) ys rule =
    is_off-append (if concerns x rule then is_disable x.kind else now) xs ys rule

pub within-Early :
    (o : ℕ) (xs ys : List Directive) → Early o xs → within o (xs ++ ys) ≡ xs ++ within o ys
unfolding within
within-Early o [] ys e = refl
within-Early o (x ∷ xs) ys e = ground (arith, within-Early o xs ys e.1)

pub within-behind :
    (o : ℕ) (d : Directive) (ds : List Directive) → ltb o d.offset ≡ true → within o (d ∷ ds) ≡ []
unfolding within
within-behind o d ds h = rw h refl

pub nothing : (o : ℕ) (xs : List Directive) → xs ++ within o [] ≡ xs
unfolding within
nothing o xs = append-nil xs

-- A list of directives with one of them marked as used, split where the list was.
pub record MarkedSplit (done todo : List Directive) (i : ℕ) : Type 0 where
  pub done' : List Directive
  pub todo' : List Directive
  pub split : mark_used (done ++ todo) i ≡ done' ++ todo'
  pub size : length done' ≡ length done
  pub early : (o : ℕ) → Early o done → Early o done'
  pub off : (now : Bool) (rule : Bytes) → is_off now done' rule ≡ is_off now done rule

pub mark_used-split : (done todo : List Directive) (i : ℕ) → MarkedSplit done todo i
unfolding mark_used is_off
mark_used-split [] todo i = record {
  done' = [];
  todo' = mark_used todo i;
  split = refl;
  size = refl;
  early = λ o e. e;
  off = λ now rule. refl;
}
mark_used-split (d ∷ done) todo zero = record {
  done' = record d { used = true } ∷ done;
  todo' = todo;
  split = refl;
  size = refl;
  early = λ o e. e;
  off = λ now rule. refl;
}
mark_used-split (d ∷ done) todo (suc i) =
    let m = mark_used-split done todo i in
    record {
      done' = d ∷ m.done';
      todo' = m.todo';
      split = ap (λ ds. d ∷ ds) m.split;
      size = ap suc m.size;
      early = λ o e. (e.0, m.early o e.1);
      off = λ now rule. m.off _ rule;
    }

pub at-mark_used : (ds : List Directive) (i j : ℕ) → (at (mark_used ds i) j).rule ≡ (at ds j).rule
unfolding mark_used
at-mark_used [] i j = refl
at-mark_used (d ∷ ds) zero zero = refl
at-mark_used (d ∷ ds) zero (suc j) = refl
at-mark_used (d ∷ ds) (suc i) zero = refl
at-mark_used (d ∷ ds) (suc i) (suc j) = at-mark_used ds i j
