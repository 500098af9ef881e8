-- ===== src/Pipeline/Pending/Laws.antt =====
-- Termination of the expansion of waiting lines, and the invariant of `PendingExpansion`.
use co.Prelude.{
  ℕ, zero, suc, ◌+◌, ◌-◌, ◌<◌, ◌≤◌, ◌≡◌, Bool, true, false, not, ◌&&◌, ◌||◌, List, [], ◌∷◌, Bytes,
  drop, length, length-drop, ◌==◌, if_both, arith,
}
use co.Prelude.Outcome.{settled, Ends, Settles-Ends, Settles-bind}
use co.Lines.Slices.{LogicalSlice}
use co.Macros.Copies.Laws.{format-Ends}
use co.Macros.Expander.{ExpandState}
use co.Macros.Lines.Absent.{occurs}
use co.Macros.Lines.Total.{expand_line_with_line-ends}
use co.Macros.Table.{MacroTable}
use co.Macros.Table.Keyed.{IsKeyed}
use co.Pipeline.Pending.{
  PendingExpansion, joined_source, offsets_from, line_for_offset, is_word_byte, literal_chars,
  line_name, at_line_name, replace_from, replace_line_in_text, expand_pending,
}
use co.Utils.Literals.{is_lifetime_start}

length-literal_chars : (quote : ℕ) (s : Bytes) → length (literal_chars quote s).1 ≤ length s
unfolding literal_chars
length-literal_chars quote [] = omega arith
length-literal_chars quote (c ∷ []) = omega arith
length-literal_chars quote (c ∷ d ∷ r) =
    ground (arith, length-literal_chars quote r, length-literal_chars quote (d ∷ r))

replace_from-Ends :
    (f : ℕ) (offsets lines : List ℕ) (i : ℕ) (inside : Bool) (s : Bytes)
    → length s < f
    → Ends (replace_from f offsets lines i inside s)
unfolding replace_from
replace_from-Ends zero offsets lines i inside s h = absurd (omega arith)
replace_from-Ends (suc f) offsets lines i inside [] h = settled tt
replace_from-Ends (suc f) offsets lines i inside (b ∷ r) h =
    let literal = literal_chars b r in
    let after = i + (length (b ∷ r) - length literal.1) in
    if_both Ends (b == b'"' || (b == b'\'' && not (is_lifetime_start (b ∷ r))))
      (λ _.
        Settles-bind
          (replace_from-Ends f offsets lines after false literal.1
            (omega (arith, length-literal_chars b r)))
          λ _ _. settled tt)
      λ _.
        if_both Ends (at_line_name inside (b ∷ r))
          (λ _. Settles-bind (format-Ends (line_for_offset i offsets lines)) λ _ _.
            Settles-bind
              (replace_from-Ends f offsets lines (i + 8) true (drop 7 r)
                (omega (arith, length-drop {A = ℕ} 7 r)))
              λ _ _. settled tt)
          λ _.
            Settles-bind
              (replace_from-Ends f offsets lines (suc i) (is_word_byte b) r (omega arith))
              λ _ _. settled tt

pub expand_pending-Ends :
    (t : MacroTable) (p : PendingExpansion) (st : ExpandState)
    → IsKeyed t
    → Ends (expand_pending t p st)
unfolding expand_pending replace_line_in_text
expand_pending-Ends t p st keyed =
    if_both Ends (not (occurs line_name p.text))
      (λ _. Settles-Ends (expand_line_with_line-ends t keyed _ p.text st))
      λ _.
        Settles-bind
          (replace_from-Ends (suc (length p.text)) (offsets_from 0 p.slices) p.lines 0 false p.text
            (omega arith))
          λ replaced _. Settles-Ends (expand_line_with_line-ends t keyed _ replaced st)

-- A boundary for every byte of the text, and one behind it.
abbrev pub IsMapped : LogicalSlice → Type 0
IsMapped slice = length slice.source_boundaries ≡ suc (length slice.text)

abbrev pub AllMapped : List LogicalSlice → Type 0
AllMapped [] = Unit {0}
AllMapped (slice ∷ slices) = IsMapped slice × AllMapped slices

-- The text that waits is that of the slices with line breaks between them.
abbrev pub IsJoined : PendingExpansion → Type 0
IsJoined p = p.text ≡ (joined_source p).0

-- The first slice has a text.
abbrev pub HasText : List LogicalSlice → Type 0
HasText [] = Unit {0}
HasText (slice ∷ slices) = 0 < length slice.text

abbrev pub IsPending : PendingExpansion → Type 0
IsPending p = HasText p.slices × AllMapped p.slices × IsJoined p
