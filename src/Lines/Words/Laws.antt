-- ===== src/Lines/Words/Laws.antt =====
-- Termination of `has_unbalanced_parens` and `strip_line_comment`.
use co.Prelude.{ℕ, zero, suc, ◌<◌, [], ◌∷◌, Bytes, Option, none, some, length, ◌==◌, if_both, arith}
use co.Prelude.Outcome.{ok, settled, Ends, Settles-bind}
use co.Lines.Words.{
  starts_comment, parens_from, has_unbalanced_parens, comment_from, strip_line_comment,
}
use co.Macros.Paste.{Buffer, push_str}
use co.Utils.Classes.{is_quote}
use co.Utils.Literals.{skip_literal_bytes}
use co.Utils.Scans.{skip_literal_bytes-lt}
use co.Utils.Text.{trim_end}

parens_from-Ends :
    (f opened closed : ℕ) (s : Bytes) → length s < f → Ends (parens_from f opened closed s)
unfolding parens_from
parens_from-Ends zero opened closed s h = absurd (omega arith)
parens_from-Ends (suc f) opened closed [] h = settled tt
parens_from-Ends (suc f) opened closed (b ∷ r) h =
    if_both Ends (is_quote b)
      (λ _.
        parens_from-Ends f opened closed (skip_literal_bytes b (b ∷ r)).1
          (omega (arith, skip_literal_bytes-lt b b r)))
      λ _.
        if_both Ends (b == b'(') (λ _. parens_from-Ends f (suc opened) closed r (omega arith))
          λ _.
            if_both Ends (b == b')') (λ _. parens_from-Ends f opened (suc closed) r (omega arith))
              λ _.
                if_both Ends (starts_comment b r) (λ _. settled tt)
                  λ _. parens_from-Ends f opened closed r (omega arith)

pub has_unbalanced_parens-Ends : (line : Bytes) → Ends (has_unbalanced_parens line)
unfolding has_unbalanced_parens
has_unbalanced_parens-Ends line = parens_from-Ends (suc (length line)) 0 0 line (omega arith)

comment_from-Ends :
    (f : ℕ) (before : Buffer) (s : Bytes) → length s < f → Ends (comment_from f before s)
unfolding comment_from
comment_from-Ends zero before s h = absurd (omega arith)
comment_from-Ends (suc f) before [] h = settled tt
comment_from-Ends (suc f) before (b ∷ r) h =
    let cut = skip_literal_bytes b (b ∷ r) in
    if_both Ends (is_quote b)
      (λ _.
        comment_from-Ends f (push_str before cut.0) cut.1
          (omega (arith, skip_literal_bytes-lt b b r)))
      λ _.
        if_both Ends (starts_comment b r) (λ _. settled tt)
          λ _. comment_from-Ends f (b ∷ before) r (omega arith)

pub strip_line_comment-Ends : (line : Bytes) → Ends (strip_line_comment line)
unfolding strip_line_comment
strip_line_comment-Ends line =
    Settles-bind (comment_from-Ends (suc (length line)) [] line (omega arith)) λ found _. kept found
  where
    kept :
        (found : Option Bytes)
        → Ends (elim found [ none ↦ ok line | some front ↦ ok (trim_end front) ])
    kept none = settled tt
    kept (some front) = settled tt
