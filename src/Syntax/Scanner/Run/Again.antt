-- ===== src/Syntax/Scanner/Run/Again.antt =====
-- source/fastlint/syntax/scanner.cc: what `rescanGreaterThan` makes of a token.
use fastlint.Base.{
  ℕ, zero, suc, ◌+◌, ◌-◌, ◌≤◌, ◌<◌, ◌≡◌, refl, ap, ◌∙◌, Bool, true, false, ◌&&◌, Option, none, some,
  List, [], ◌∷◌, codes, ◌==◌, leb, length, Bool-cases, arith, inl, inr,
}
use fastlint.Syntax.Scanner.{TokenKind, punctuation, span}
use fastlint.Syntax.Scanner.Run.{Scanner, Input, set_last, add_token}
use fastlint.Syntax.Scanner.Run.Rescan.{
  replace_current, split_greater, rescan_greater_than, is_punctuation, text,
}

length-set_last {ℓ} :
    {A : Type ℓ} (xs : List A) (index : ℕ) (x : A) → length (set_last xs index x) ≡ length xs
unfolding set_last
length-set_last [] index x = refl
length-set_last (y ∷ ys) index x = elim (Bool-cases (length ys == index)) [
  | inl e ↦ rw e refl
  | inr e ↦ rw e (ap suc (length-set_last ys index x))
]

-- What a replaced current token leaves.
module _ (s : Scanner) where
  replaced_count :
      (o : Option ℕ)
      → let t : Scanner = elim o [
        | none ↦ s
        | some index ↦ record s { tokens = set_last s.tokens index s.current }
      ] in
        (length t.tokens ≡ length s.tokens) × ((t.current ≡ s.current) × (t.reader ≡ s.reader))
  replaced_count none = (refl, (refl, refl))
  replaced_count (some index) = (length-set_last s.tokens index s.current, (refl, refl))

  pub replaced :
      let t = replace_current s in
      (length t.tokens ≡ length s.tokens) × ((t.current ≡ s.current) × (t.reader ≡ s.reader))
  unfolding replace_current
  replaced = replaced_count s.current_index

-- A scanner with no token more, whose current token has the kind, the place and the length, and whose
-- position is behind that token.
pub record IsReplaced (kind : TokenKind) (offset count : ℕ) (s t : Scanner) : Type 0 where
  pub same_count : length t.tokens ≡ length s.tokens
  pub kind_of : t.current.kind ≡ kind
  pub offset_of : t.current.offset ≡ offset
  pub length_of : t.current.length ≡ count
  pub behind : t.reader.pos ≡ offset + count

-- So many calls of `rescan_greater_than`, with whether all of them answered yes.
unfoldable pub split_times : ℕ → Input → Scanner → Scanner × Bool
unfolding rescan_greater_than
split_times zero i s = (s, true)
split_times (suc n) i s =
    let p = split_times n i s in let q = rescan_greater_than i p.0 in (q.0, p.1 && q.1)

-- The state after a call.
pub record IsSplit (base left : ℕ) (s t : Scanner) : Type 0 where
  pub token : IsReplaced (punctuation (codes ">")) base 1 s t
  pub next : t.gt_base ≡ base + 1
  pub remaining : t.gt_remaining ≡ left

split_lem : (base left : ℕ) (s : Scanner) → IsSplit base (left - 1) s (split_greater base left s)
unfolding split_greater replace_current
split_lem base left s =
    let r = record s.reader { pos = base + 1 } in
    let u = add_token (punctuation (codes ">")) base false r s in
    let (x, (y, z)) = replaced u in
    record {
      token = record {
        same_count = x;
        kind_of = ap (λ c. c.kind) y;
        offset_of = ap (λ c. c.offset) y;
        length_of = ap (λ c. c.length) y ∙ (omega arith);
        behind = ap (λ q. q.pos) z;
      };
      next = refl;
      remaining = refl;
    }

-- A split behind others, as one from the first scanner.
IsSplit-after :
    {base offset left : ℕ} {u : Scanner} (m s : Scanner) (rest : ℕ)
    → base ≡ offset
    → left ≡ rest
    → length m.tokens ≡ length s.tokens
    → IsSplit base left m u
    → IsSplit offset rest s u
IsSplit-after m s rest b l count p = record {
  token = record {
    same_count = p.token.same_count ∙ count;
    kind_of = p.token.kind_of;
    offset_of = p.token.offset_of ∙ b;
    length_of = p.token.length_of;
    behind = p.token.behind ∙ ap (λ x. x + 1) b;
  };
  next = p.next ∙ ap (λ x. x + 1) b;
  remaining = p.remaining ∙ l;
}

-- The number of `>` that the current token starts with.
abbrev pub run_length : Input → Scanner → ℕ
run_length i s = span (λ c. c == b'>') (text i s.current)

first_split :
    (i : Input) (s : Scanner)
    → s.gt_remaining ≡ 0
    → is_punctuation s.current.kind ≡ true
    → 2 ≤ run_length i s
    → rescan_greater_than i s ≡ (split_greater s.current.offset (run_length i s) s, true)
unfolding rescan_greater_than
first_split i s none_left mark two =
    let e : leb 2 (run_length i s) ≡ true = ground (arith, two) in rw (none_left, mark, e) refl

later_split :
    (i : Input) (s : Scanner)
    → 0 < s.gt_remaining
    → rescan_greater_than i s ≡ (split_greater s.gt_base s.gt_remaining s, true)
unfolding rescan_greater_than
later_split i s some_left =
    let e : (s.gt_remaining == 0) ≡ false = ground (arith, some_left) in rw e refl

-- A punctuator that starts with a run of two `>` at least, with none of it handed out before, is
-- handed out one `>` at a time: each of the first calls, as many as the run is long, answers yes and
-- leaves as current token the next `>` of the run, of one byte, in place of the one before, with the
-- position behind it.
pub split_times_lem :
    (i : Input) (s : Scanner) (k : ℕ)
    → s.gt_remaining ≡ 0
    → is_punctuation s.current.kind ≡ true
    → 2 ≤ run_length i s
    → suc k ≤ run_length i s
    → let p = split_times (suc k) i s in
      (p.1 ≡ true) × IsSplit (s.current.offset + k) (run_length i s - suc k) s p.0
unfolding split_times
split_times_lem i s zero none_left mark two h =
    let e = first_split i s none_left mark two in
    let z : s.current.offset + 0 ≡ s.current.offset = omega arith in
    rw (e, z) (refl, split_lem s.current.offset (run_length i s) s)
split_times_lem i s (suc k) none_left mark two h =
    let (all, t) = split_times_lem i s k none_left mark two (omega arith) in
    let m = (split_times (suc k) i s).0 in
    let left = t.remaining in
    let e = later_split i m (omega arith) in
    let n : m.gt_base ≡ s.current.offset + suc k = t.next ∙ (omega arith) in
    let l : m.gt_remaining - 1 ≡ run_length i s - suc (suc k) = omega (arith, left) in
    rw (e, all)
      (
        refl,
        IsSplit-after m s (run_length i s - suc (suc k)) n l t.token.same_count
            (split_lem m.gt_base m.gt_remaining m),
      )
