-- ===== src/Syntax/Scanner/Moves/Skipped.antt =====
-- source/fastlint/syntax/scanner.cc: `skipTrivia` moves forward and records all that it passes.
use fastlint.Base.{
  ℕ, zero, suc, ◌+◌, ◌-◌, ◌≤◌, ◌<◌, ◌≡◌, refl, Bool, true, false, ◌&&◌, ◌||◌, Option, none, some,
  [], ◌∷◌, Bytes, codes, ◌==◌, if◌then◌else◌, length, drop, length-drop, starts_with, and_true,
  Bool-cases, arith, inl, inr,
}
use fastlint.Syntax.Scanner.{
  Reader, advance, note_line_start, see_line_break, span, peek_char, char_length, whitespace,
  new_line, shebang,
}
use fastlint.Syntax.Scanner.Loop.{
  Round, again, done, loop, Kept, goes_on, leaves, if_Kept, loop_lem,
}
use fastlint.Syntax.Scanner.Skip.{
  is_unicode_white_space, is_blank, within_line, is_separator, white_run, Comment, comment_round,
  block_comment, line_comment, conflict_marker, new_line_trivia, blanks, trivia_at, trivia_round,
  skip_shebang, skip_trivia,
}
use fastlint.Syntax.Scanner.Moves.{
  Step, stay, Step_trans, Step-advance, Step-error, Step-note_line_start, Step-see_line_break,
  length-span, char_bytes_within, char_bytes_positive,
}
use fastlint.Syntax.Scanner.Moves.Texts.{break_length}
use fastlint.Syntax.Scanner.Moves.Names.{loop-Step, front_byte}
use fastlint.Syntax.Scanner.Moves.Pieces.{Run, rest_still, Run_trans, recorded, if_Run}

white_run_within : (k : ℕ) (bs : Bytes) → white_run k bs ≤ length bs
unfolding white_run
white_run_within k [] = omega arith
white_run_within (suc k) (c ∷ t) = omega (arith, white_run_within k t)
white_run_within zero (c ∷ t) = ground (arith, white_run_within (char_length c - 1) t)

comment_seen :
    (size c : ℕ) (t : Bytes) (r seen : Reader) (m m' : Comment)
    → r.pos + suc (length t) ≡ size
    → Step size r seen
    → seen.pos ≡ r.pos
    → Kept (Step size) size r (
        if c == b'*' && starts_with t (codes "/")
        then done (advance 2 seen) m
        else again (advance 1 (if c == 10 then note_line_start (seen.pos + 1) seen else seen)) m')
comment_seen size c t r seen m m' h p e =
    if_Kept (c == b'*' && starts_with t (codes "/"))
      (λ x.
        let l = front_byte (codes "/") t (and_true (c == b'*') _ x).1 in
        leaves (Step-advance _ _ _ p 2 (omega arith)))
      (λ x. elim (Bool-cases (c == 10)) [
        | inl y ↦
            let q =
              Step-advance _ _ _
                (Step-note_line_start _ _ _ p (seen.pos + 1) (omega arith) (omega arith)) 1
                (omega arith) in
            rw y (goes_on (omega arith) q.within q)
        | inr y ↦
            let q = Step-advance _ _ _ p 1 (omega arith) in rw y (goes_on (omega arith) q.within q)
      ])

comment_split :
    (size c : ℕ) (t : Bytes) (r : Reader) (m : Comment) (b : Bool)
    → r.pos + suc (length t) ≡ size
    → let seen = if b then see_line_break r else r in
      Kept (Step size) size r (
        if c == b'*' && starts_with t (codes "/")
        then done (advance 2 seen) (record m { broke = m.broke || b; closed = true })
        else again
            (advance 1 (if c == 10 then note_line_start (seen.pos + 1) seen else seen))
            (record m { broke = m.broke || b }))
comment_split size c t r m true h =
    comment_seen size c t r (see_line_break r) _ _ h
      (Step-see_line_break _ _ _ (stay size r (omega arith))) refl
comment_split size c t r m false h =
    comment_seen size c t r r _ _ h (stay size r (omega arith)) refl

comment_round_lem :
    (size : ℕ) (bs : Bytes) (r : Reader) (m : Comment)
    → r.pos + length bs ≡ size
    → Kept (Step size) size r (comment_round bs r m)
unfolding comment_round
comment_round_lem size [] r m h = leaves (stay size r (omega arith))
comment_round_lem size (c ∷ t) r m h =
    let breaks = c == 10 || c == 13 || is_separator (peek_char (c ∷ t)) in
    let still = stay size r (omega arith) in comment_split size c t r m breaks h

block_comment-Run :
    (size : ℕ) (bs : Bytes) (r : Reader)
    → r.pos + length bs ≡ size
    → 2 ≤ length bs
    → (r.pos < (block_comment bs r).pos) × Run size r (block_comment bs r)
unfolding block_comment
block_comment-Run size bs r h two =
    let m : Comment = record { closed = false; broke = false } in
    let d = length-drop 2 bs in
    let p = Step-advance _ _ _ (stay size r (omega arith)) 2 (omega arith) in
    let l = loop comment_round 0 (drop 2 bs) (advance 2 r) m in
    let q =
      loop-Step size comment_round (comment_round_lem size) (drop 2 bs) (advance 2 r) m
        (omega arith) in
    let all = Step_trans _ r _ l.0 p q in
    let f = q.forward in
    elim (Bool-cases l.1.closed) [
      | inl e ↦ rw e (omega arith, recorded size r l.0 _ r.pos _ _ all refl (omega arith))
      | inr e ↦ rw e (
        omega arith,
        recorded size r _ _ r.pos _ _ (Step-error _ _ _ all 0 r.pos _) refl (omega arith),
      )
    ]

-- A trivium that was found is recorded, and has a byte at least.
data Found (size : ℕ) (r : Reader) : Option Reader → Type 0 where
  nothing : Found size r none
  found : {s : Reader} → r.pos < s.pos → Run size r s → Found size r (some s)

if_Found :
    {size : ℕ} {r : Reader} (b : Bool) {x y : Option Reader}
    → (b ≡ true → Found size r x)
    → (b ≡ false → Found size r y)
    → Found size r (if b then x else y)
if_Found true f g = f refl
if_Found false f g = g refl

module _ (size : ℕ) (bs : Bytes) (r : Reader) (h : r.pos + length bs ≡ size) where
  blanks-Found : (n : ℕ) → 0 < n → n ≤ length bs → Found size r (some (blanks n r))
  unfolding blanks
  blanks-Found n a b =
      let p = Step-advance _ _ _ (stay size r (omega arith)) n (omega arith) in
      found (omega arith) (recorded size r (advance n r) whitespace r.pos n false p refl refl)

  new_line-Found : (n : ℕ) → 0 < n → n ≤ length bs → Found size r (some (new_line_trivia n r))
  unfolding new_line_trivia
  new_line-Found n a b =
      let p = Step-advance _ _ _ (stay size r (omega arith)) n (omega arith) in
      let q =
        Step-note_line_start _ _ _ (Step-see_line_break _ _ _ p) (r.pos + n) (omega arith)
          (omega arith) in
      found (omega arith) (recorded size r _ new_line r.pos n true q refl refl)

  line_comment-Found : 0 < span within_line bs → Found size r (some (line_comment bs r))
  line_comment-Found a =
      let n = span within_line bs in
      let b = length-span within_line bs in
      let p = Step-advance _ _ _ (stay size r (omega arith)) n (omega arith) in
      found (omega arith) (recorded size r (advance n r) _ r.pos n false p refl refl)

  conflict_marker-Found : 0 < span within_line bs → Found size r (some (conflict_marker bs r))
  unfolding conflict_marker
  conflict_marker-Found a =
      let n = span within_line bs in
      let b = length-span within_line bs in
      let p = Step-advance _ _ _ (stay size r (omega arith)) n (omega arith) in
      found (omega arith)
        (recorded size r _ whitespace r.pos n false (Step-error _ _ _ p 1402 r.pos n) refl refl)

span_first : (p : ℕ → Bool) (c : ℕ) (t : Bytes) → p c ≡ true → 0 < span p (c ∷ t)
unfolding span
span_first p c t h = rw h (omega arith)

white_run_first :
    (c : ℕ) (t : Bytes)
    → is_unicode_white_space (peek_char (c ∷ t)) ≡ true
    → 0 < white_run 0 (c ∷ t)
unfolding white_run
white_run_first c t h = rw h (omega arith)

no_break : (c : ℕ) → c == 13 || c == 10 ≡ false → within_line c ≡ true
no_break c h = ground arith

pair_length :
    (t : Bytes) (b : Bool)
    → let n : ℕ = if b && starts_with t (10 ∷ []) then 2 else 1 in (0 < n) × (n ≤ suc (length t))
pair_length t false = (omega arith, omega arith)
pair_length t true = break_length t

trivia_at_lem :
    (size : ℕ) (java_script : Bool) (bs : Bytes) (r : Reader)
    → r.pos + length bs ≡ size
    → Found size r (trivia_at java_script bs r)
unfolding trivia_at
trivia_at_lem size java_script [] r h = nothing
trivia_at_lem size java_script (c ∷ t) r h =
    let bs = c ∷ t in
    let cp = peek_char bs in
    let (a, b) = pair_length t (c == 13) in
    if_Found (is_blank c)
      (λ x. blanks-Found size bs r h _ (span_first is_blank c t x) (length-span is_blank bs))
      (λ x.
        if_Found (c == 13 || c == 10) (λ x. new_line-Found size bs r h _ a b)
          (λ e.
            let l = span_first within_line c t (no_break c e) in
            if_Found (is_separator cp)
              (λ x. new_line-Found size bs r h _ (char_bytes_positive c t) (char_bytes_within bs))
              (λ x.
                if_Found (is_unicode_white_space cp)
                  (λ x. blanks-Found size bs r h _ (white_run_first c t x) (white_run_within 0 bs))
                  (λ x.
                    if_Found (starts_with bs (codes "//")) (λ x. line_comment-Found size bs r h l)
                      (λ x.
                        if_Found (starts_with bs (codes "/*"))
                          (λ x.
                            let two = front_byte (codes "/*") bs x in
                            let (u, v) = block_comment-Run size bs r h two in found u v)
                          (λ x.
                            if_Found (java_script && starts_with bs (codes "<!--"))
                              (λ x. line_comment-Found size bs r h l)
                              (λ x.
                                if_Found
                                  (starts_with bs (codes "<<<<<<<")
                                    || starts_with bs (codes "=======")
                                    || starts_with bs (codes ">>>>>>>"))
                                  (λ x. conflict_marker-Found size bs r h l) (λ x. nothing))))))))

round-Kept :
    (size : ℕ) (r : Reader) (o : Option Reader) (f : Bool)
    → r.pos ≤ size
    → Found size r o
    → let p : Round Bool = elim o [ none ↦ done r f | some s ↦ again s f ] in
      Kept (Run size) size r p
round-Kept size r _ f h nothing = leaves (rest_still size r h)
round-Kept size r _ f h (found a p) = goes_on a p.within p

trivia_round_lem :
    (size : ℕ) (java_script : Bool) (bs : Bytes) (r : Reader) (f : Bool)
    → r.pos + length bs ≡ size
    → Kept (Run size) size r (trivia_round java_script bs r f)
trivia_round_lem size java_script bs r f h =
    round-Kept size r (trivia_at java_script bs r) f (omega arith)
      (trivia_at_lem size java_script bs r h)

skip_shebang-Run :
    (size : ℕ) (bs : Bytes) (r : Reader) → r.pos + length bs ≡ size → Run size r (skip_shebang bs r)
skip_shebang-Run size bs r h =
    let n = span within_line bs in
    let b = length-span within_line bs in
    let p = Step-advance _ _ _ (stay size r (omega arith)) n (omega arith) in
    if_Run (r.pos == 0 && starts_with bs (codes "#!"))
      (λ e.
        let z = (and_true (r.pos == 0) _ e).0 in
        recorded size r (advance n r) shebang 0 n false p (ground (arith, z)) refl)
      (λ e. rest_still size r (omega arith))

-- Skipping trivia goes forward and records all that it passes.
pub skip_trivia-Run :
    (java_script : Bool) (source : Bytes) (r : Reader)
    → r.pos ≤ length source
    → Run (length source) r (skip_trivia java_script source r)
unfolding skip_trivia
skip_trivia-Run java_script source r h =
    let size = length source in
    let d = length-drop r.pos source in
    let s = skip_shebang (drop r.pos source) r in
    let p = skip_shebang-Run size (drop r.pos source) r (omega arith) in
    let w = p.within in
    let e = length-drop s.pos source in
    Run_trans size r s _ p (
      loop_lem (Run size) size (Run_trans size) (trivia_round java_script)
        (trivia_round_lem size java_script) 0 (drop s.pos source) s true (omega arith) w)
