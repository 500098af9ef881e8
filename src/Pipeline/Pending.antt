-- ===== src/Pipeline/Pending.antt =====
-- co2_preprocessor/src/pipeline.rs: `PendingExpansion`, the lines that wait for more lines, and their
-- expansion with a line number for each of them.
pub mod Laws
use mathlib.Core.List.{reverse}
use co.Prelude.{
  ℕ, zero, suc, ◌+◌, ◌-◌, Bool, true, false, not, ◌&&◌, ◌||◌, List, [], ◌∷◌, ◌++◌, Bytes, codes,
  equal, Option, none, some, drop, take, span, head_is, get_elem?, leb, length, ◌==◌, if◌then◌else◌,
}
use co.Prelude.Outcome.{Outcome, ok, out_of_fuel, ◌>>=◌}
use co.Lines.Slices.{LogicalSlice, or_else, source_offset}
use co.Macros.Copies.{format}
use co.Macros.Expander.{ExpandState}
use co.Macros.Lines.{expand_line_with_line}
use co.Macros.Lines.Absent.{occurs}
use co.Macros.Stringify.{push_char}
use co.Macros.Table.{MacroTable, get}
use co.Utils.Classes.{is_alphabetic, is_alphanumeric}
use co.Utils.Literals.{is_lifetime_start}
use co.Utils.Text.{trim_end}

pub record PendingExpansion : Type 0 where
  pub text : Bytes
  pub slices : List LogicalSlice
  pub lines : List ℕ

unfoldable pub no_pending : PendingExpansion
no_pending = record { text = []; slices = []; lines = [] }

abbrev pub is_empty {ℓ} : {A : Type ℓ} → List A → Bool
is_empty [] = true
is_empty (x ∷ xs) = false

-- `if !self.text.is_empty() { self.text.push('\n'); }`.
abbrev pub with_newline : Bytes → Bytes
with_newline [] = []
with_newline (c ∷ text) = (c ∷ text) ++ b'\n' ∷ []

unfoldable pub push : PendingExpansion → LogicalSlice → ℕ → PendingExpansion
push p slice line = record {
  text = with_newline p.text ++ slice.text;
  slices = p.slices ++ slice ∷ [];
  lines = p.lines ++ line ∷ [];
}

-- A line of skipped code among those that wait.
unfoldable pub gap : LogicalSlice → LogicalSlice
unfolding source_offset
gap slice = record {
  text = [];
  source_boundaries = source_offset slice 0 ∷ [];
  terminator = slice.terminator;
}

unfoldable pub push_gap : PendingExpansion → LogicalSlice → ℕ → PendingExpansion
unfolding gap
push_gap p slice line = record {
  text = with_newline p.text;
  slices = p.slices ++ gap slice ∷ [];
  lines = p.lines ++ line ∷ [];
}

-- The slices behind the first one, with the terminator of the one before.
unfoldable pub join_from : ℕ → List LogicalSlice → Bytes × List ℕ
join_from before [] = ([], [])
join_from before (slice ∷ slices) =
    let more = join_from slice.terminator slices in
    (b'\n' ∷ slice.text ++ more.0, before ∷ drop 1 slice.source_boundaries ++ more.1)

abbrev pub at_least_one : List ℕ → List ℕ
at_least_one [] = 0 ∷ []
at_least_one (b ∷ boundaries) = b ∷ boundaries

unfoldable pub joined_slices : List LogicalSlice → Bytes × List ℕ
unfolding join_from
joined_slices [] = ([], at_least_one [])
joined_slices (slice ∷ slices) =
    let more = join_from slice.terminator slices in
    (slice.text ++ more.0, at_least_one (slice.source_boundaries ++ more.1))

unfoldable pub joined_source : PendingExpansion → Bytes × List ℕ
unfolding joined_slices
joined_source p = joined_slices p.slices

-- The offset of each slice in the joined text.
unfoldable pub offsets_from : ℕ → List LogicalSlice → List ℕ
offsets_from cum [] = []
offsets_from cum (slice ∷ slices) = cum ∷ offsets_from (cum + length slice.text + 1) slices

-- The loop of `line_for_offset`: the index of the last offset of the run that is not behind `offset`.
unfoldable pub slice_at : ℕ → ℕ → ℕ → List ℕ → ℕ
slice_at offset idx i [] = idx
slice_at offset idx i (off ∷ offsets) =
    let later = slice_at offset i (suc i) offsets in if leb off offset then later else idx

abbrev first_or_one : List ℕ → ℕ
first_or_one [] = 1
first_or_one (line ∷ lines) = line

unfoldable pub line_for_offset : ℕ → List ℕ → List ℕ → ℕ
unfolding slice_at
line_for_offset offset [] lines = 1
line_for_offset offset (off ∷ offsets) lines =
    or_else (get_elem? lines (slice_at offset 0 0 (off ∷ offsets))) (first_or_one lines)

-- `is_ident_cont_byte` of pipeline.rs, which takes no `$`.
unfoldable pub is_word_byte : ℕ → Bool
unfolding is_alphanumeric
is_word_byte b = is_alphanumeric b || b == b'_'

-- The rest of a literal behind its quote, as it is pushed, and the text behind it.
unfoldable pub literal_chars : ℕ → Bytes → Bytes × Bytes
unfolding push_char
literal_chars quote [] = ([], [])
literal_chars quote (c ∷ []) = (push_char c, [])
literal_chars quote (c ∷ d ∷ r) = elim (c == b'\\') [
  | true ↦ let more = literal_chars quote r in (push_char c ++ push_char d ++ more.0, more.1)
  | false ↦ elim (c == quote) [
    | true ↦ (push_char c, d ∷ r)
    | false ↦ let more = literal_chars quote (d ∷ r) in (push_char c ++ more.0, more.1)
  ]
]

abbrev line_name : Bytes
line_name = codes "__LINE__"

-- Does `__LINE__` stand at the cursor as a word of its own, behind a byte of a word or not?
unfoldable pub at_line_name : Bool → Bytes → Bool
unfolding is_word_byte
at_line_name inside s =
    equal (take 8 s) line_name && not inside && not (head_is is_word_byte (drop 8 s))

-- `replace_line_in_text` from offset `i` on; `inside` says whether the byte in front belongs to a word.
unfoldable pub replace_from : ℕ → List ℕ → List ℕ → ℕ → Bool → Bytes → Outcome Bytes
unfolding at_line_name literal_chars push_char line_for_offset
replace_from zero offsets lines i inside s = out_of_fuel
replace_from (suc f) offsets lines i inside [] = ok []
replace_from (suc f) offsets lines i inside (b ∷ r) =
    let literal = literal_chars b r in
    let after = i + (length (b ∷ r) - length literal.1) in
    if b == b'"' || (b == b'\'' && not (is_lifetime_start (b ∷ r)))
    then (replace_from f offsets lines after false literal.1 >>= λ more.
        ok (push_char b ++ literal.0 ++ more))
    else if at_line_name inside (b ∷ r)
    then (format (line_for_offset i offsets lines) >>= λ digits.
        replace_from f offsets lines (i + 8) true (drop 7 r) >>= λ more. ok (digits ++ more))
    else (replace_from f offsets lines (suc i) (is_word_byte b) r >>= λ more.
        ok (push_char b ++ more))

unfoldable pub replace_line_in_text : Bytes → List ℕ → List ℕ → Outcome Bytes
unfolding replace_from
replace_line_in_text text offsets lines =
    replace_from (suc (length text)) offsets lines 0 false text

-- `expand_pending_with_lines`.
unfoldable pub expand_pending :
    MacroTable → PendingExpansion → ExpandState → Outcome (Bytes × ExpandState)
unfolding occurs replace_line_in_text offsets_from expand_line_with_line
expand_pending t p st =
    let line = first_or_one p.lines in
    if not (occurs line_name p.text)
    then expand_line_with_line t line p.text st
    else (replace_line_in_text p.text (offsets_from 0 p.slices) p.lines >>= λ replaced.
        expand_line_with_line t line replaced st)

-- `is_ident_cont` and `is_ident_start` on a byte taken for a character.
abbrev pub ident_cont : ℕ → Bool
ident_cont b = is_alphanumeric b || b == b'_' || b == b'$'

abbrev pub ident_start : ℕ → Bool
ident_start b = is_alphabetic b || b == b'_' || b == b'$'

abbrev names_function_macro : MacroTable → Bytes → Bool
names_function_macro t name = elim (get t name) [ none ↦ false | some mac ↦ mac.is_function_like ]

unfoldable pub ends_with_funclike_macro : MacroTable → Bytes → Bool
unfolding trim_end get is_alphanumeric is_alphabetic
ends_with_funclike_macro t line =
    let ident = reverse (span ident_cont (reverse (trim_end line))).0 in
    head_is ident_start ident && names_function_macro t ident
