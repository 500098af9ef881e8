-- ===== src/Tests/Passes.antt =====
-- The passes over an `#if` expression at concrete inputs.
use co.Prelude.{◌≡◌, ◌≢◌, refl, Bool, true, false, List, [], ◌∷◌, ◌++◌, map, Bytes, codes}
use co.Prelude.Outcome.{ok, out_of_fuel}
use co.Directives.Defined.{digit_of, resolve_defined, resolve_defined_in_expr}
use co.Directives.Defined.Laws.{resolve_defined_in_expr-ends}
use co.Directives.Defined.Operand.{resolve_defined_bare, resolve_defined_parens}
use co.Directives.Idents.{replace_remaining_idents_with_zero}
use co.Directives.Idents.Laws.{
  AllZeroed, no_words, more_words, zeroed, kept_true, IsWord, unwords,
  replace_remaining_idents_with_zero-unwords,
}
use co.Macros.Table.{MacroTable, is_defined}
use co.Utils.Classes.{is_blank, is_ident_start_byte, is_ident_cont_byte}

abbrev no_macros : MacroTable
no_macros = record { macros = []; counter = 0 }

abbrev no_header : Bool → Bool → Bytes → Bool
no_header next system name = false

test_zero :
    replace_remaining_idents_with_zero (codes "a + 0x1f && defined")
    ≡ ok (codes "0 + 0x1f && defined")
unfolding replace_remaining_idents_with_zero co.Directives.Scan.literal_at
    co.Utils.Literals.literal_prefix_len co.Utils.Classes.is_digit is_ident_start_byte
    co.Utils.Text.bytes_to_str co.Utils.Text.is_utf8 is_ident_cont_byte co.Prelude.equal
test_zero = refl

test_defined :
    resolve_defined_in_expr no_macros no_header (codes "!defined(X) && defined __LINE__")
    ≡ ok (codes "!0 && 1")
unfolding resolve_defined_in_expr co.Directives.Scan.literal_at co.Utils.Literals.literal_prefix_len
    is_ident_start_byte co.Utils.Text.bytes_to_str co.Utils.Text.is_utf8 is_ident_cont_byte
    co.Prelude.equal is_blank is_defined co.Macros.Table.get co.Macros.Table.lookup
test_defined = refl

abbrev words : List Bytes
words = codes "ab" ∷ codes "true" ∷ []

IsWord-ab : IsWord (codes "ab")
unfolding is_ident_start_byte is_ident_cont_byte
IsWord-ab = record {
  head = b'a';
  tail = codes "b";
  split = refl;
  starts = refl;
  continues = refl;
  ascii = refl;
}

IsWord-true : IsWord (codes "true")
unfolding is_ident_start_byte is_ident_cont_byte
IsWord-true = record {
  head = b't';
  tail = codes "rue";
  split = refl;
  starts = refl;
  continues = refl;
  ascii = refl;
}

abbrev zeroed_words : List Bytes
zeroed_words = codes "0" ∷ codes "true" ∷ []

words-AllZeroed : AllZeroed words zeroed_words
words-AllZeroed =
    more_words (zeroed (cc) (cc) (cc) refl) (more_words (kept_true refl refl) no_words)

replace_remaining_idents_with_zero-unwords_example :
    replace_remaining_idents_with_zero (unwords words) ≡ ok (unwords zeroed_words)
replace_remaining_idents_with_zero-unwords_example =
    replace_remaining_idents_with_zero-unwords words zeroed_words (IsWord-ab, (IsWord-true, tt))
      words-AllZeroed

name_xy-is_cont : co.Prelude.all is_ident_cont_byte (codes "XY") ≡ true
unfolding is_ident_cont_byte
name_xy-is_cont = refl

one_blank : co.Prelude.all is_blank (codes " ") ≡ true
unfolding is_blank
one_blank = refl

space_ends : co.Prelude.head_is is_ident_cont_byte (codes " 1") ≡ false
unfolding is_ident_cont_byte
space_ends = refl

resolve_defined_bare_example :
    resolve_defined no_macros (codes " " ++ b'X' ∷ (codes "Y" ++ codes " 1"))
    ≡ ok (digit_of (is_defined no_macros (codes "XY")), codes " 1")
resolve_defined_bare_example =
    resolve_defined_bare no_macros b'X' (codes "Y") name_xy-is_cont refl (codes " ") one_blank
      (codes " 1") space_ends

resolve_defined_parens_example :
    resolve_defined no_macros
      (codes " " ++ b'(' ∷ (codes " " ++ b'X' ∷ (codes "Y" ++ (codes " " ++ b')' ∷ codes " 1"))))
    ≡ ok (digit_of (is_defined no_macros (codes "XY")), codes " 1")
resolve_defined_parens_example =
    resolve_defined_parens no_macros b'X' (codes "Y") name_xy-is_cont refl (codes " ") one_blank
      (codes " ") (codes " ") (codes " 1") one_blank one_blank

resolve_defined_in_expr-ends_example :
    resolve_defined_in_expr no_macros no_header (codes "defined(X") ≢ out_of_fuel
resolve_defined_in_expr-ends_example =
    resolve_defined_in_expr-ends no_macros no_header (codes "defined(X")
