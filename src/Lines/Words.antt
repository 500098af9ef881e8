-- ===== src/Lines/Words.antt =====
-- co2_preprocessor/src/text_processing.rs: `has_unbalanced_parens`, `strip_line_comment` and
-- `split_first_word`.
pub mod Laws
use mathlib.Core.List.{reverse}
use co.Prelude.{
  ℕ, zero, suc, Bool, true, false, ◌&&◌, ◌||◌, [], ◌∷◌, Bytes, Option, none, some, prepend, drop,
  head_is, ltb, length, ◌==◌, if◌then◌else◌,
}
use co.Prelude.Outcome.{Outcome, ok, out_of_fuel, ◌>>=◌}
use co.Macros.Paste.{Buffer, push_str}
use co.Utils.Classes.{is_quote}
use co.Utils.Literals.{skip_literal_bytes}
use co.Utils.Text.{space_len, trim, trim_start, trim_end}

abbrev pub starts_comment : ℕ → Bytes → Bool
starts_comment b r = b == b'/' && head_is (λ c. c == b'/') r

-- The loop of `has_unbalanced_parens`; `depth` is the difference of the two counts.
unfoldable pub parens_from : ℕ → ℕ → ℕ → Bytes → Outcome Bool
parens_from zero opened closed s = out_of_fuel
parens_from (suc f) opened closed [] = ok (ltb closed opened)
parens_from (suc f) opened closed (b ∷ r) =
    let literal = parens_from f opened closed (skip_literal_bytes b (b ∷ r)).1 in
    let deeper = parens_from f (suc opened) closed r in
    let closer = parens_from f opened (suc closed) r in
    let on = parens_from f opened closed r in
    if is_quote b
    then literal
    else if b == b'('
    then deeper
    else if b == b')'
    then closer
    else if starts_comment b r
    then ok (ltb closed opened)
    else on

unfoldable pub has_unbalanced_parens : Bytes → Outcome Bool
unfolding parens_from
has_unbalanced_parens line = parens_from (suc (length line)) 0 0 line

-- The loop of `strip_line_comment`, behind the bytes of the buffer: those in front of a comment.
unfoldable pub comment_from : ℕ → Buffer → Bytes → Outcome (Option Bytes)
comment_from zero before s = out_of_fuel
comment_from (suc f) before [] = ok none
comment_from (suc f) before (b ∷ r) =
    let cut = skip_literal_bytes b (b ∷ r) in
    let literal = comment_from f (push_str before cut.0) cut.1 in
    let on = comment_from f (b ∷ before) r in
    if is_quote b then literal else if starts_comment b r then ok (some (reverse before)) else on

unfoldable pub strip_line_comment : Bytes → Outcome Bytes
unfolding comment_from
strip_line_comment line = comment_from (suc (length line)) [] line >>= λ found. elim found [
  | none ↦ ok line
  | some front ↦ ok (trim_end front)
]

-- `s.find(..)`: what stands in front of the first white space, or of the first `(` if it counts too.
unfoldable pub word_of : Bool → Bytes → Bytes × Bytes
word_of parens [] = ([], [])
word_of parens (c ∷ s) =
    let more = prepend c (word_of parens s) in
    if (parens && c == b'(') || ltb 0 (space_len (c ∷ s)) then ([], c ∷ s) else more

unfoldable pub split_first_word : Bytes → Bytes × Bytes
unfolding word_of
split_first_word s =
    let word = word_of true (trim s) in
    if head_is (λ c. c == b'(') word.1 then word else (word.0, trim word.1)

-- `s.split_whitespace().next().unwrap_or("")`.
unfoldable pub first_word : Bytes → Bytes
unfolding word_of trim_start
first_word s = (word_of false (trim_start s)).0
