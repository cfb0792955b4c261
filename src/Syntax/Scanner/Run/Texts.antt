-- ===== src/Syntax/Scanner/Run/Texts.antt =====
-- source/fastlint/syntax/scanner.cc: the trivia and the tokens spell the source.
use fastlint.Base.{
  ℕ, zero, suc, ◌+◌, ◌-◌, ◌≤◌, ◌≡◌, refl, sym, ap, ◌∙◌, false, List, [], ◌∷◌, ◌++◌, Bytes, length,
  take, drop, arith,
}
use fastlint.Syntax.Scanner.{Token, Trivia}
use fastlint.Syntax.Scanner.Templates.{normal}
use fastlint.Syntax.Scanner.Run.{Scanner, Input, scan_one, at_end_of_file}
use fastlint.Syntax.Scanner.Run.Taken.{Slot, token_place}
use fastlint.Syntax.Scanner.Run.Tiled.{scan_one-Read}
use fastlint.Syntax.Scanner.Moves.Pieces.{Tiles, empty, piece, trivia_place}
use fastlint.Syntax.Scanner.Run.Steady.{Tiles_forward}

-- The bytes from `a` to `b`.
abbrev pub slice : Bytes → ℕ → ℕ → Bytes
slice source a b = take (b - a) (drop a source)

-- The texts of pieces, of which the last stands first.
unfoldable pub texts {ℓ} : {A : Type ℓ} → Bytes → (A → ℕ × ℕ) → List A → Bytes
texts source place [] = []
texts source place (t ∷ ts) = texts source place ts ++ take (place t).1 (drop (place t).0 source)

take_nil {ℓ} : {A : Type ℓ} (n : ℕ) → take {A = A} n [] ≡ []
take_nil zero = refl
take_nil (suc n) = refl

drop_nil {ℓ} : {A : Type ℓ} (n : ℕ) → drop {A = A} n [] ≡ []
drop_nil zero = refl
drop_nil (suc n) = refl

take_add {ℓ} :
    {A : Type ℓ} (m n : ℕ) (xs : List A) → take (m + n) xs ≡ take m xs ++ take n (drop m xs)
take_add zero n xs = let z : 0 + n ≡ n = omega arith in rw z refl
take_add (suc m) n [] = let z : suc m + n ≡ suc (m + n) = omega arith in rw z (sym (take_nil n))
take_add (suc m) n (x ∷ xs) =
    let z : suc m + n ≡ suc (m + n) = omega arith in rw z (ap (λ l. x ∷ l) (take_add m n xs))

drop_add {ℓ} : {A : Type ℓ} (m n : ℕ) (xs : List A) → drop (m + n) xs ≡ drop n (drop m xs)
drop_add zero n xs = let z : 0 + n ≡ n = omega arith in rw z refl
drop_add (suc m) n [] = let z : suc m + n ≡ suc (m + n) = omega arith in rw z (sym (drop_nil n))
drop_add (suc m) n (x ∷ xs) =
    let z : suc m + n ≡ suc (m + n) = omega arith in rw z (drop_add m n xs)

slice_join :
    (source : Bytes) (a b c : ℕ)
    → a ≤ b
    → b ≤ c
    → slice source a c ≡ slice source a b ++ slice source b c
slice_join source a b c h k =
    let e : c - a ≡ (b - a) + (c - b) = omega arith in
    let d : a + (b - a) ≡ b = omega arith in
    let f : drop (b - a) (drop a source) ≡ drop b source =
      sym (drop_add a (b - a) source) ∙ ap (λ n. drop n source) d in
    ap (λ n. take n (drop a source)) e
    ∙ (take_add (b - a) (c - b) (drop a source)
        ∙ ap (λ l. take (b - a) (drop a source) ++ take (c - b) l) f)

Tiles_texts {ℓ} :
    {A : Type ℓ} (source : Bytes) (place : A → ℕ × ℕ) (a b : ℕ) (ts : List A)
    → Tiles place a b ts
    → texts source place ts ≡ slice source a b
unfolding texts
Tiles_texts source place a b _ (empty e) = let z : b - a ≡ 0 = omega arith in rw z refl
Tiles_texts source place a b _ (piece {t = t} {ts = ts} e h) =
    let p = (place t).0 in
    let n : b - p ≡ (place t).1 = omega arith in
    let j = slice_join source a p b (Tiles_forward place a p ts h) (omega arith) in
    ap (λ l. l ++ take (place t).1 (drop p source)) (Tiles_texts source place a p ts h)
    ∙ (ap (λ k. slice source a p ++ take k (drop p source)) (sym n) ∙ sym j)

-- The texts of the trivia and of the tokens that a call of `scan_one` in the normal mode adds are,
-- in their order, the bytes of the source from the old position to the new one.
pub scan_one-texts :
    (i : Input) (s : Scanner)
    → at_end_of_file s ≡ false
    → s.mode ≡ normal
    → Slot s
    → s.reader.pos ≤ length i.source
    → let t = scan_one i s in
      (us : List Trivia) × ((ts : List Token) × ((t.reader.trivia ≡ us ++ s.reader.trivia)
          × ((t.tokens ≡ ts ++ s.tokens)
              × (texts i.source trivia_place us ++ texts i.source token_place ts
                  ≡ slice i.source s.reader.pos t.reader.pos))))
scan_one-texts i s before mode slot w =
    let p = scan_one-Read i s before mode slot w in
    let t = scan_one i s in
    let ts = t.current ∷ p.new_tokens in
    let x = Tiles_texts i.source trivia_place s.reader.pos p.middle p.new_trivia p.trivia_tiled in
    let y = Tiles_texts i.source token_place p.middle t.reader.pos ts p.tokens_tiled in
    let j =
      slice_join i.source s.reader.pos p.middle t.reader.pos
        (Tiles_forward trivia_place s.reader.pos p.middle p.new_trivia p.trivia_tiled)
        (Tiles_forward token_place p.middle t.reader.pos ts p.tokens_tiled) in
    (
      p.new_trivia,
      (
        ts,
        (
          p.added_trivia,
          (
            p.added_tokens,
            ap (λ l. l ++ texts i.source token_place ts) x
                ∙ (ap (λ l. slice i.source s.reader.pos p.middle ++ l) y ∙ sym j),
          ),
        ),
      ),
    )
