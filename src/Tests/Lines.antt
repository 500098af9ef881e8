-- ===== src/Tests/Lines.antt =====
-- `logical_slices` at concrete sources.
use co.Prelude.{◌≡◌, ◌≢◌, refl, true, false, [], ◌∷◌, ◌++◌, Bytes, codes}
use co.Prelude.Outcome.{ok, out_of_fuel, Settles}
use co.Lines.Slices.{LogicalSlice, logical_slices, source_offset}
use co.Lines.Slices.Ends.{logical_slices-ends}
use co.Lines.Slices.Laws.{NoQuotes, AllMapped, logical_slices-AllMapped}

-- `a/*x*/b`, a continued line, and a digraph.
abbrev two_lines : Bytes
two_lines = codes "a/*x*/b" ++ b'\\' ∷ b'\n' ∷ (codes "c" ++ b'\n' ∷ codes "%:d")

test_two_lines :
    logical_slices false two_lines
    ≡ ok (
        record { text = codes "a bc"; source_boundaries = 0 ∷ 1 ∷ 6 ∷ 7 ∷ 10 ∷ []; terminator = 11 }
        ∷ record { text = codes "#d"; source_boundaries = 11 ∷ 13 ∷ 14 ∷ []; terminator = 14 }
        ∷ [])
unfolding logical_slices co.Utils.Classes.is_quote co.Utils.Text.is_utf8
test_two_lines = refl

-- In a literal over a continued line the boundaries outnumber the bytes: behind the literal, the
-- offsets are too small by the bytes of the splice.
abbrev spliced_literal : LogicalSlice
spliced_literal = record {
  text = b'"' ∷ b'a' ∷ b'b' ∷ b'"' ∷ b';' ∷ [];
  source_boundaries = 0 ∷ 1 ∷ 2 ∷ 3 ∷ 4 ∷ 5 ∷ 6 ∷ 7 ∷ [];
  terminator = 7;
}

test_spliced_literal :
    logical_slices false (b'"' ∷ b'a' ∷ b'\\' ∷ b'\n' ∷ b'b' ∷ b'"' ∷ b';' ∷ [])
    ≡ ok (spliced_literal ∷ [])
unfolding logical_slices co.Utils.Classes.is_quote co.Utils.Raw.copy_literal_bytes_raw
    co.Utils.Text.is_utf8
test_spliced_literal = refl

-- The source has the closing quote at 5 and the semicolon at 6.
test_spliced_offset : source_offset spliced_literal 4 ≡ 4
unfolding source_offset
test_spliced_offset = refl

two_lines-NoQuotes : NoQuotes two_lines
unfolding co.Utils.Classes.is_quote
two_lines-NoQuotes = refl

logical_slices-AllMapped_example : Settles AllMapped (logical_slices true two_lines)
logical_slices-AllMapped_example = logical_slices-AllMapped true two_lines two_lines-NoQuotes

logical_slices-ends_example : logical_slices true (b'\'' ∷ codes "a/*") ≢ out_of_fuel
logical_slices-ends_example = logical_slices-ends true (b'\'' ∷ codes "a/*")
