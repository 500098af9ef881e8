-- ===== src/Lines/Slices.antt =====
-- co2_preprocessor/src/text_processing.rs: `logical_slices`, which joins continued lines, strips
-- comments and replaces digraphs. The cursor is `i` together with the bytes from it on. Whether
-- documentation comments are kept, which the source asks the environment, is an argument.
pub mod Laws
pub mod Ends
use co.Prelude.{
  ℕ, zero, suc, ◌+◌, ◌-◌, Bool, true, false, not, ◌&&◌, ◌||◌, List, [], ◌∷◌, ◌++◌, Bytes, Option,
  none, some, span, drop, head_is, length, ltb, ◌==◌, if◌then◌else◌, get_elem?,
}
use co.Prelude.Outcome.{Outcome, ok, panicked, out_of_fuel, ◌>>=◌}
use co.Utils.Classes.{is_quote}
use co.Utils.Raw.{copy_literal_bytes_raw}
use co.Utils.Text.{is_utf8}

pub record LogicalSlice : Type 0 where
  pub text : Bytes
  pub source_boundaries : List ℕ
  pub terminator : ℕ

abbrev pub or_else : Option ℕ → ℕ → ℕ
or_else none n = n
or_else (some m) n = m

unfoldable pub source_offset : LogicalSlice → ℕ → ℕ
source_offset slice text_offset =
    let last = length slice.text in
    or_else (get_elem? slice.source_boundaries (if ltb last text_offset then last else text_offset))
      slice.terminator

-- What one round pushes to `out` and to `boundaries`, how many bytes it passes over, and whether it
-- passed over a block comment.
pub record Push : Type 0 where
  pub text : Bytes
  pub marks : List ℕ
  pub passed : ℕ
  pub is_comment : Bool

-- `i + 1`, …, `i + n`.
abbrev pub count_up : ℕ → ℕ → List ℕ
count_up i zero = []
count_up i (suc n) = suc i ∷ count_up (suc i) n

-- The replacement of a digraph of two bytes.
unfoldable pub digraph : ℕ → ℕ → Option ℕ
digraph a b =
    if a == b'%' && b == b':'
    then some b'#'
    else if a == b'<' && b == b':'
    then some b'['
    else if a == b':' && b == b'>'
    then some b']'
    else if a == b'<' && b == b'%'
    then some b'{'
    else if a == b'%' && b == b'>'
    then some b'}'
    else none

abbrev pub is_paste_digraph : Bytes → Bool
is_paste_digraph (a ∷ b ∷ c ∷ d ∷ r) = a == b'%' && b == b':' && c == b'%' && d == b':'
is_paste_digraph _ = false

-- How many bytes the loop in a block comment passes over, `*/` included.
unfoldable pub comment_len : Bytes → ℕ
comment_len [] = 0
comment_len (c ∷ []) = 1
comment_len (c ∷ d ∷ r) = elim (c == b'*' && d == b'/') [
  | true ↦ 2
  | false ↦ suc (comment_len (d ∷ r))
]

abbrev pub in_line : Bytes → Bytes
in_line s = (span (λ c. not (c == b'\n')) s).0

abbrev pub is_splice_blank : ℕ → Bool
is_splice_blank c = c == b' ' || c == 9 || c == 13

unfoldable pub one_byte : ℕ → ℕ → Push
one_byte i b = record { text = b ∷ []; marks = suc i ∷ []; passed = 1; is_comment = false }

unfoldable pub push_literal : ℕ → Bytes → ℕ → Push
push_literal i s quote =
    let copy = copy_literal_bytes_raw quote s in
    let passed = length s - length copy.1 in
    record { text = copy.0; marks = count_up i passed; passed = passed; is_comment = false }

unfoldable pub push_line_comment : Bool → ℕ → Bytes → Push
push_line_comment keep_docs i s =
    let kept = in_line s in
    if keep_docs && head_is (λ c. c == b'/' || c == b'!') (drop 2 s)
    then (record {
      text = kept;
      marks = count_up i (length kept);
      passed = length kept;
      is_comment = false;
    })
    else (record {
      text = [];
      marks = [];
      passed = 2 + length (in_line (drop 2 s));
      is_comment = false;
    })

unfoldable pub push_block_comment : ℕ → Bytes → Push
unfolding comment_len
push_block_comment i s =
    let passed = 2 + comment_len (drop 2 s) in
    record { text = b' ' ∷ []; marks = (i + passed) ∷ []; passed = passed; is_comment = true }

-- A backslash joins the lines if only blanks stand between it and the line feed.
unfoldable pub push_backslash : ℕ → Bytes → Push
unfolding one_byte
push_backslash i r =
    let blanks = span is_splice_blank r in
    if head_is (λ c. c == b'\n') blanks.1
    then (record { text = []; marks = []; passed = 2 + length blanks.0; is_comment = false })
    else one_byte i b'\\'

-- The branches on one byte `b` with `r` behind it, but for digraphs and the line feed.
unfoldable pub push_byte : Bool → ℕ → ℕ → Bytes → Push
unfolding push_literal push_line_comment push_block_comment push_backslash one_byte
push_byte keep_docs i b r =
    if is_quote b
    then push_literal i (b ∷ r) b
    else if b == b'/' && head_is (λ c. c == b'/') r
    then push_line_comment keep_docs i (b ∷ r)
    else if b == b'/' && head_is (λ c. c == b'*') r
    then push_block_comment i (b ∷ r)
    else if b == b'\\'
    then push_backslash i r
    else one_byte i b

unfoldable pub push_pair : Bool → ℕ → ℕ → Bytes → Push
unfolding digraph push_byte
push_pair keep_docs i b [] = push_byte keep_docs i b []
push_pair keep_docs i b (c ∷ r) = elim (digraph b c) [
  | some d ↦ record { text = d ∷ []; marks = (i + 2) ∷ []; passed = 2; is_comment = false }
  | none ↦ push_byte keep_docs i b (c ∷ r)
]

unfoldable pub push_round : Bool → ℕ → ℕ → Bytes → Push
unfolding push_pair
push_round keep_docs i b r =
    if is_paste_digraph (b ∷ r)
    then (record {
      text = b'#' ∷ b'#' ∷ [];
      marks = (i + 2) ∷ (i + 4) ∷ [];
      passed = 4;
      is_comment = false;
    })
    else push_pair keep_docs i b r

-- `if boundaries.len() == 2 && boundaries[0] == 0 { boundaries[0] = comment_start; }`.
unfoldable pub comment_boundaries : Bool → ℕ → List ℕ → List ℕ
comment_boundaries true i (a ∷ b ∷ []) = if a == 0 then i ∷ b ∷ [] else a ∷ b ∷ []
comment_boundaries _ i bounds = bounds

unfoldable pub close_slice : Bytes → List ℕ → ℕ → Outcome LogicalSlice
close_slice out boundaries end =
    if is_utf8 out
    then ok (record { text = out; source_boundaries = boundaries; terminator = end })
    else panicked

abbrev pub is_empty : Bytes → Bool
is_empty [] = true
is_empty (c ∷ s) = false

-- The loop, with `out`, `boundaries` and `line_start`; each round passes over a byte or more.
unfoldable pub slices_from : ℕ → Bool → Bytes → List ℕ → ℕ → ℕ → Bytes → Outcome (List LogicalSlice)
unfolding push_round comment_boundaries close_slice
slices_from zero keep_docs out bounds line_start i s = out_of_fuel
slices_from (suc f) keep_docs out bounds line_start i [] =
    if not (is_empty out) || ltb line_start i
    then (close_slice out bounds i >>= λ slice. ok (slice ∷ []))
    else ok []
slices_from (suc f) keep_docs out bounds line_start i (b ∷ r) =
    let push = push_round keep_docs i b r in
    let marked = comment_boundaries push.is_comment i (bounds ++ push.marks) in
    elim (b == b'\n') [
      | true ↦ close_slice out bounds (suc i) >>= λ slice.
          slices_from f keep_docs [] (suc i ∷ []) (suc i) (suc i) r >>= λ more. ok (slice ∷ more)
      | false ↦
          slices_from f keep_docs (out ++ push.text) marked line_start (i + push.passed)
            (drop push.passed (b ∷ r))
    ]

unfoldable pub logical_slices : Bool → Bytes → Outcome (List LogicalSlice)
unfolding slices_from
logical_slices keep_docs source = slices_from (suc (length source)) keep_docs [] (0 ∷ []) 0 0 source
