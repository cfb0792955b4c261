-- ===== src/Syntax/Scanner/Run/Total.antt =====
-- source/fastlint/syntax/scanner.cc: `scanAll` comes to the end of the file.
use fastlint.Base.{
  ℕ, zero, suc, ◌+◌, ◌-◌, ◌*◌, ◌≤◌, ◌<◌, ◌≡◌, ◌⊎◌, refl, Bool, true, false, ◌&&◌, some, ◌==◌, ltb,
  if◌then◌else◌, length, drop, and_true, true_false, Bool-cases, arith, inl, inr,
}
use fastlint.Syntax.Scanner.{advance, template_tail}
use fastlint.Syntax.Scanner.Numbers.{front}
use fastlint.Syntax.Scanner.Templates.{template_middle_mode, scan_template}
use fastlint.Syntax.Scanner.Run.{Scanner, Input, ended_token, scan_one, start_scanner}
use fastlint.Syntax.Scanner.Run.Rescan.{
  is_end, back, count_heads, continue_template, scan_all_round, scan_rounds, scan_all,
}
use fastlint.Syntax.Scanner.Run.Kinds.{template-NoBrace}
use fastlint.Syntax.Scanner.Run.Taken.{is_brace}
use fastlint.Syntax.Scanner.Run.Tiled.{scan_one-Read}
use fastlint.Syntax.Scanner.Moves.{origin}
use fastlint.Syntax.Scanner.Moves.Templates.{template_loop-Step}
use fastlint.Syntax.Scanner.Run.Steady.{IsSteady, no_tokens, not_yet, read_steady, template_steady}

-- The fuel that is enough from a scanner on.
abbrev Enough : ℕ → Scanner → ℕ → Type 0
Enough size s fuel =
    (1 ≤ fuel)
    × (is_end s ≡ false → 2 + 2 * (size - s.reader.pos) + (if is_brace s then 1 else 0) ≤ fuel)

moved_enough :
    (b c : Bool) (size p q fuel : ℕ)
    → q ≤ size
    → p < q
    → 2 + 2 * (size - p) + (if c then 1 else 0) ≤ suc fuel
    → 2 + 2 * (size - q) + (if b then 1 else 0) ≤ fuel
moved_enough true true size p q fuel w f m = omega arith
moved_enough true false size p q fuel w f m = omega arith
moved_enough false true size p q fuel w f m = omega arith
moved_enough false false size p q fuel w f m = omega arith

brace_enough :
    (b : Bool) (size p : ℕ)
    → p ≤ size
    → 0 < p
    → 2 + 2 * (size - p) + (if b then 1 else 0) ≤ 2 * size + 2
brace_enough true size p w f = omega arith
brace_enough false size p w f = omega arith

module _ (i : Input) where
  abbrev size : ℕ
  size = length i.source

  one_round :
      (s : Scanner)
      → IsSteady size s
      → is_end s ≡ false
      → let t = scan_one i (count_heads s) in
        IsSteady size t × ((s.reader.pos < t.reader.pos) ⊎ (is_end t ≡ true))
  one_round s st e =
      let u = count_heads s in
      let p = scan_one-Read i u (not_yet u e) st.in_normal st.slot st.within in
      (read_steady size u _ p st.table st.ordered st.in_normal, p.farther)

  continued :
      (s : Scanner)
      → IsSteady size s
      → is_brace s ≡ true
      → let t = continue_template i s in
        IsSteady size t × ((s.reader.pos ≤ t.reader.pos) × (is_brace t ≡ false))
  unfolding continue_template scan_template
  continued s st b =
      let offset = s.current.offset in
      let e = st.brace b in
      let k =
        template_loop-Step i.source offset template_middle_mode (advance 1 (back s)) _
          (let w = st.within in omega arith) in
      let o = scan_template i.source offset template_middle_mode (back s) in
      let t = ended_token offset o s in
      let tail = record t {
        current = record t.current { kind = template_tail };
        template_depth = t.template_depth - 1;
      } in
      let f = k.forward in
      elim (Bool-cases (front (λ c. c == b'`') (drop (t.reader.pos - 1) i.source))) [
        | inl x ↦ rw x (
            template_steady size s tail st refl st.slot st.in_normal (omega arith) refl
              (omega arith) k.within (k.table st.table))
        | inr x ↦ rw x (
            template_steady size s t st refl st.slot st.in_normal (omega arith)
              (template-NoBrace i.source offset template_middle_mode (back s)) (omega arith)
              k.within (k.table st.table))
      ]

  -- Every round needs one unit of fuel less.
  round_steady :
      (s : Scanner) (fuel : ℕ)
      → IsSteady size s
      → is_end s ≡ false
      → Enough size s (suc fuel)
      → IsSteady size (scan_all_round i s) × Enough size (scan_all_round i s) fuel
  unfolding scan_all_round
  round_steady s fuel st open_file (a, b) =
      let m = b open_file in
      elim (Bool-cases (is_brace s && ltb 0 s.template_depth)) [
        | inl x ↦
            let (brace, d) = and_true (is_brace s) _ x in
            let (k, (f, n)) = continued s st brace in
            let m1 : 2 + 2 * (size - s.reader.pos) + 1 ≤ suc fuel = rw brace at m in
            rw x (k, (omega arith, λ y. rw n (omega arith)))
        | inr x ↦
            let (k, far) = one_round s st open_file in
            rw x (
              k,
              (
                omega arith,
                λ y. elim far [
                  | inl f ↦
                      moved_enough (is_brace (scan_one i (count_heads s))) (is_brace s) size _ _
                        fuel k.within f m
                  | inr z ↦ true_false (is_end (scan_one i (count_heads s))) z y
                ],
              ),
            )
      ]

  rounds_total :
      (fuel : ℕ) (s : Scanner)
      → IsSteady size s
      → Enough size s fuel
      → (t : Scanner) × ((scan_rounds fuel i s ≡ some t) × (IsSteady size t × (is_end t ≡ true)))
  unfolding scan_rounds
  rounds_total zero s st (a, b) = absurd (omega arith)
  rounds_total (suc fuel) s st enough = elim (Bool-cases (is_end s)) [
    | inl e ↦ (s, (rw e refl, (st, e)))
    | inr e ↦
        let (k, m) = round_steady s fuel st e enough in
        let (t, (f, g)) = rounds_total fuel (scan_all_round i s) k m in (t, (rw e f, g))
  ]

  first-Enough :
      (s : Scanner)
      → s.reader.pos ≤ size
      → (0 < s.reader.pos) ⊎ (is_end s ≡ true)
      → Enough size s (2 * size + 2)
  first-Enough s w far = (
    omega arith,
    λ y. elim far [
      | inl f ↦ brace_enough (is_brace s) size s.reader.pos w f
      | inr z ↦ true_false (is_end s) z y
    ],
  )

-- `scan_all` of every source comes to the end: it gives a scanner whose last token is the end of the
-- file. Its tokens end in ascending order within the source, the last of them at the position, and
-- its line starts are 0 and then strictly ascending offsets within the source.
pub scan_all-IsSteady :
    (i : Input)
    → (s : Scanner) × ((scan_all i ≡ some s) × (IsSteady (length i.source) s × (is_end s ≡ true)))
unfolding scan_all
scan_all-IsSteady i =
    let p = scan_one-Read i start_scanner refl refl refl (omega arith) in
    let s = scan_one i start_scanner in
    rounds_total i (2 * length i.source + 2) s
      (read_steady (length i.source) start_scanner s p origin no_tokens refl)
      (first-Enough i s p.within p.farther)
