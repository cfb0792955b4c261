-- ===== src/Syntax/Scanner/Run/Kinds.antt =====
-- source/fastlint/syntax/scanner.cc: the kinds that words and templates end with.
use fastlint.Base.{
  ℕ, ◌≡◌, refl, Bool, true, false, ◌&&◌, List, [], ◌∷◌, Bytes, codes, ◌==◌, if◌then◌else◌,
  starts_with, drop, bytes_eq, Bool-cases, inl, inr,
}
use fastlint.Syntax.Scanner.{Reader, TokenKind, template_invalid, identifier, private_identifier}
use fastlint.Syntax.Scanner.Loop.{Yields, goes_with, ends_with, if_Yields, loop_yields}
use fastlint.Syntax.Scanner.Words.{keyword_among, keyword_kind, keywords}
use fastlint.Syntax.Scanner.Numbers.{front}
use fastlint.Syntax.Scanner.Templates.{
  ScanMode, Ended, ended, template_start, cut_kind, backtick_kind, substitution_kind,
  template_round, scan_template, normal, template_middle_mode, template_tail_mode, jsx_text_mode,
  jsx_identifier_mode, single_greater_than,
}
use fastlint.Syntax.Scanner.Run.Rescan.{is_kind}

abbrev pub NoBrace : TokenKind → Type 0
NoBrace kind = is_kind (codes "}") kind ≡ false

keyword-NoBrace : (ks : List Bytes) (word : Bytes) → NoBrace (keyword_among ks word)
unfolding keyword_among
keyword-NoBrace [] word = refl
keyword-NoBrace (k ∷ ks) word = elim (Bool-cases (bytes_eq k word)) [
  | inl e ↦ rw e refl
  | inr e ↦ rw e (keyword-NoBrace ks word)
]

pub identifier-NoBrace :
    (stray b : Bool) (word : Bytes)
    → NoBrace (if stray then identifier else if b then private_identifier else keyword_kind word)
unfolding keyword_kind
identifier-NoBrace true b word = refl
identifier-NoBrace false true word = refl
identifier-NoBrace false false word = keyword-NoBrace keywords word

cut-NoBrace : (mode : ScanMode) → NoBrace (cut_kind mode)
cut-NoBrace normal = refl
cut-NoBrace template_middle_mode = refl
cut-NoBrace template_tail_mode = refl
cut-NoBrace jsx_text_mode = refl
cut-NoBrace jsx_identifier_mode = refl
cut-NoBrace single_greater_than = refl

backtick-NoBrace : (mode : ScanMode) → NoBrace (backtick_kind mode)
backtick-NoBrace normal = refl
backtick-NoBrace template_middle_mode = refl
backtick-NoBrace template_tail_mode = refl
backtick-NoBrace jsx_text_mode = refl
backtick-NoBrace jsx_identifier_mode = refl
backtick-NoBrace single_greater_than = refl

substitution-NoBrace : (mode : ScanMode) → NoBrace (substitution_kind mode)
substitution-NoBrace normal = refl
substitution-NoBrace template_middle_mode = refl
substitution-NoBrace template_tail_mode = refl
substitution-NoBrace jsx_text_mode = refl
substitution-NoBrace jsx_identifier_mode = refl
substitution-NoBrace single_greater_than = refl

template_yields :
    (mode : ScanMode) (start : ℕ) (bs : Bytes) (r : Reader) (e : Ended)
    → NoBrace e.kind
    → Yields (λ g. NoBrace g.kind) (template_round mode start bs r e)
unfolding template_round
template_yields mode start [] r e q = ends_with (cut-NoBrace mode)
template_yields mode start (c ∷ t) r e q =
    if_Yields (c == b'`') (λ x. ends_with (backtick-NoBrace mode))
      (λ x.
        if_Yields (c == 92 && front (λ d. true) t) (λ x. goes_with q)
          (λ x.
            if_Yields (c == b'$' && starts_with t (codes "{"))
              (λ x. ends_with (substitution-NoBrace mode))
              (λ x.
                if_Yields (c == 10) (λ x. goes_with q)
                  (λ x. if_Yields (c == 13) (λ x. goes_with q) (λ x. goes_with q)))))

pub template-NoBrace :
    (source : Bytes) (start : ℕ) (mode : ScanMode) (r : Reader)
    → NoBrace (scan_template source start mode r).1.kind
unfolding scan_template
template-NoBrace source start mode r =
    let s = template_start mode r in
    loop_yields (λ g. NoBrace g.kind) (template_round mode start) (template_yields mode start) 0
      (drop s.pos source) s (ended template_invalid true) refl
