-- ===== src/Tests/Expander.antt =====
-- `expand_line_with_line` and `parse_define` at concrete inputs.
use co.Prelude.{
  ℕ, ◌≡◌, refl, sym, ap, ◌∙◌, Bool, true, false, none, some, [], ◌∷◌, codes, equal, equal_iff,
  if◌then◌else◌, arith,
}
use co.Prelude.Outcome.{ok, out_of_fuel, ◌>>=◌, Settles, Yields}
use co.Conditionals.Tokenizer.{digits_value}
use co.Directives.Idents.Laws.{IsWord}
use co.Macros.Body.{Call}
use co.Macros.Copies.{format}
use co.Macros.Copies.Digits.{format-digits_value}
use co.Macros.Define.{parse_define}
use co.Macros.Define.Foreign.{is_foreign, parse_define-hangs}
use co.Macros.Define.Laws.{print_params, parse_define-print}
use co.Macros.Lines.Inert.{expand_line_with_line-inert}
use co.Macros.Lines.Total.{expand_line_with_line-ends}
use co.Macros.Stringify.{stringify_arg}
use co.Macros.Substitute.{expand_body}
use co.Macros.Substitute.Plain.{expand_body-shortcut}
use co.Macros.Table.Keyed.{IsKeyed, IsKeyed-define-undefine-set_file}
use co.Macros.Token.{ident, other, number}
use co.Utils.Text.{trim}
use co.Macros.Expander.{ExpandState}
use co.Macros.Lines.{expand_line_with_line}
use co.Macros.Table.{MacroDef, MacroTable, define, undefine, set_file, macro_def_from_parts, new}

abbrev no_char : ℕ → Bool
no_char ch = false

abbrev idle : ExpandState
idle = record { expanding = []; counter = 0 }

abbrev def_n : MacroDef
def_n = record {
  name = codes "N";
  is_function_like = false;
  params = [];
  is_variadic = false;
  has_named_variadic = false;
  body = codes "N + 1";
  tokenized_body =
      ident (codes "N")
      ∷ other (codes " ")
      ∷ other (codes "+")
      ∷ other (codes " ")
      ∷ number (codes "1")
      ∷ [];
  has_stringify_or_paste = false;
}

abbrev table_n : MacroTable
table_n = record { macros = (codes "N", def_n) ∷ []; counter = 0 }

-- The macro's own name is not expanded again.
test_self : expand_line_with_line table_n 7 (codes "N") idle ≡ ok (codes "N + 1", idle)
unfolding expand_line_with_line co.Utils.Classes.is_quote co.Utils.Classes.is_ident_start_byte
    co.Utils.Text.bytes_to_str co.Utils.Text.is_utf8 co.Macros.Copies.is_ppnumber_suffix equal
    co.Macros.Expander.contains co.Macros.Table.get co.Macros.Table.lookup
    co.Utils.Classes.is_ident_cont_byte co.Macros.Copies.plain_rest co.Macros.Args.ppnumber trim
    co.Macros.Paste.str_or_empty
test_self = refl

test_builtin : expand_line_with_line table_n 7 (codes "__LINE__") idle ≡ ok (codes "7", idle)
unfolding expand_line_with_line co.Utils.Classes.is_quote co.Utils.Classes.is_ident_start_byte
    co.Utils.Text.bytes_to_str co.Utils.Text.is_utf8 co.Utils.Classes.is_ident_cont_byte
    co.Macros.Copies.is_ppnumber_suffix equal format
test_builtin = refl

-- The argument `é` of `#` comes out as `Ã©`.
test_mojibake : stringify_arg (0xc3 ∷ 0xa9 ∷ []) ≡ ok (0xc3 ∷ 0x83 ∷ 0xc2 ∷ 0xa9 ∷ [])
unfolding stringify_arg
test_mojibake = refl

table_n-IsKeyed : IsKeyed table_n
unfolding co.Macros.Table.get co.Macros.Table.lookup
table_n-IsKeyed name d h = named (equal (codes "N") name) ((equal_iff (codes "N") name).0) h
  where
    named :
        (b : Bool)
        → (b ≡ true → codes "N" ≡ name)
        → (if b then some def_n else none) ≡ some d
        → d.name ≡ name
    named true k e = let same : def_n ≡ d = cc in sym (ap (λ m. m.name) same) ∙ k refl
    named false k e = cc

expand_line_with_line-ends_example :
    Settles (λ p. p.1.expanding ≡ []) (expand_line_with_line table_n 1 (codes "N*N") idle)
expand_line_with_line-ends_example =
    expand_line_with_line-ends table_n table_n-IsKeyed 1 (codes "N*N") idle

IsKeyed-define-undefine-set_file_example :
    IsKeyed new
    × IsKeyed (define table_n def_n)
    × IsKeyed (undefine table_n (codes "N"))
    × Settles IsKeyed (set_file no_char no_char table_n (codes "a"))
IsKeyed-define-undefine-set_file_example =
    IsKeyed-define-undefine-set_file no_char no_char table_n def_n (codes "N") (codes "a")
      table_n-IsKeyed

expand_line_with_line-inert_example :
    expand_line_with_line table_n 1 (codes "m = \"a\" /* b */ + 0x1F;") idle
    ≡ ok (codes "m = \"a\" /* b */ + 0x1F;", idle)
unfolding co.Macros.Paste.strip_blue_paint co.Macros.Lines.Absent.absent co.Macros.Lines.Absent.keys
expand_line_with_line-inert_example =
    expand_line_with_line-inert table_n 1 (codes "m = \"a\" /* b */ + 0x1F;") idle refl refl refl

abbrev call_n : Call
call_n = record {
  params = [];
  args = [];
  expanded_args = [];
  is_variadic = false;
  has_named_variadic = false;
}

expand_body-shortcut_example : expand_body call_n def_n.tokenized_body ≡ ok (codes "N + 1")
unfolding co.Macros.Table.macro_def_from_parts co.Utils.Ident.ident_start_len
    co.Utils.Ident.ident_cont_len co.Utils.Classes.is_ident_start_byte
    co.Utils.Classes.is_whitespace equal
expand_body-shortcut_example =
    expand_body-shortcut no_char no_char (codes "N") (codes "N + 1") false false def_n call_n refl
      refl refl

format-digits_value_example : Yields (λ s. digits_value 10 0 s ≡ some 4096) (format 4096)
format-digits_value_example = format-digits_value 4096 (omega arith)

IsWord-f : IsWord (codes "F")
unfolding co.Utils.Classes.is_ident_start_byte co.Utils.Classes.is_alphabetic
IsWord-f = record {
  head = b'F';
  tail = [];
  split = refl;
  starts = refl;
  continues = refl;
  ascii = refl;
}

IsWord-x : IsWord (codes "x")
unfolding co.Utils.Classes.is_ident_start_byte co.Utils.Classes.is_alphabetic
IsWord-x = record {
  head = b'x';
  tail = [];
  split = refl;
  starts = refl;
  continues = refl;
  ascii = refl;
}

parse_define-print_example : parse_define no_char no_char 3 (codes "F(x, F) x + 1") ≡ (
    macro_def_from_parts no_char no_char
      (codes "F")
      true
      (codes "x" ∷ codes "F" ∷ [])
      false
      false
      (trim (codes " x + 1"))
    >>= λ d. ok (some d))
unfolding trim print_params
parse_define-print_example =
    parse_define-print no_char no_char 3 (codes "F(x, F) x + 1") (codes "F")
      (codes "x" ∷ codes "F" ∷ []) (codes " x + 1") IsWord-f (IsWord-x, (IsWord-f, tt))
      (omega arith) refl

parse_define-hangs_example : parse_define no_char no_char 1000 (codes "F(1) x") ≡ out_of_fuel
unfolding trim is_foreign
parse_define-hangs_example =
    parse_define-hangs no_char no_char 1000 (codes "F(1) x") (codes "F") b'1' (codes ") x") IsWord-f
      refl refl
