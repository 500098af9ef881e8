-- ===== src/Tests/Scanners.antt =====
-- The scanners of utils.rs at concrete inputs.
use co.Prelude.{◌↔◌, ◌≡◌, refl, inl, inr, arith, [], ◌∷◌, ◌++◌, Bytes, codes, some, if◌then◌else◌}
use co.Utils.Literals.{skip_literal_bytes, copy_literal_bytes_to_string}
use co.Utils.Text.{is_utf8}
use co.Prelude.Outcome.{ok, panicked}
use co.Utils.Raw.{copy_literal_bytes_raw}
use co.Utils.Scans.{
  copy_literal_bytes_to_string-skip, LiteralBody, done, plain, escape, skip_literal_bytes-close,
}
use co.Utils.Names.{IsName, short, digit, nil, decimal, lower, parse_ucn-IsName}
use co.Utils.Splice.{copy_literal_bytes_raw-skip}
use co.Utils.Ucn.{parse_ucn}
use co.Utils.Escapes.{hex, parse_ucn-hex_short, parse_ucn-hex_long}

-- `"a\"" + 1`.
abbrev literal_text : Bytes
literal_text = b'"' ∷ b'a' ∷ b'\\' ∷ b'"' ∷ b'"' ∷ codes " + 1"

test_skip :
    skip_literal_bytes b'"' literal_text ≡ (b'"' ∷ b'a' ∷ b'\\' ∷ b'"' ∷ b'"' ∷ [], codes " + 1")
unfolding skip_literal_bytes
test_skip = refl

test_lifetime : skip_literal_bytes b'\'' (b'\'' ∷ codes "a>") ≡ (b'\'' ∷ [], codes "a>")
unfolding skip_literal_bytes co.Utils.Literals.is_lifetime_start
    co.Utils.Classes.is_ident_start_byte co.Utils.Classes.is_ident_cont_byte
test_lifetime = refl

copy_literal_bytes_to_string-skip_example :
    copy_literal_bytes_to_string b'"' (b'"' ∷ codes "ab") (codes "x") ≡ (
      if is_utf8 (skip_literal_bytes b'"' (b'"' ∷ codes "ab")).0
      then ok (
        codes "x" ++ (skip_literal_bytes b'"' (b'"' ∷ codes "ab")).0,
        (skip_literal_bytes b'"' (b'"' ∷ codes "ab")).1,
      )
      else panicked)
copy_literal_bytes_to_string-skip_example =
    copy_literal_bytes_to_string-skip b'"' (codes "ab") (codes "x")

test_copy :
    copy_literal_bytes_to_string b'"' literal_text (codes "x")
    ≡ ok (codes "x" ++ (b'"' ∷ b'a' ∷ b'\\' ∷ b'"' ∷ b'"' ∷ []), codes " + 1")
unfolding copy_literal_bytes_to_string co.Utils.Text.bytes_to_str is_utf8
test_copy = refl

-- A literal with a byte that starts no character.
test_copy_panics : copy_literal_bytes_to_string b'"' (b'"' ∷ 0xff ∷ b'"' ∷ []) [] ≡ panicked
unfolding copy_literal_bytes_to_string co.Utils.Text.bytes_to_str is_utf8
test_copy_panics = refl

escaped_quote : LiteralBody b'"' (b'\\' ∷ b'"' ∷ b'a' ∷ [])
escaped_quote = escape (plain (omega arith) (omega arith) done)

skip_literal_bytes-close_example :
    skip_literal_bytes b'"' (b'"' ∷ ((b'\\' ∷ b'"' ∷ b'a' ∷ []) ++ b'"' ∷ codes " ;"))
    ≡ (b'"' ∷ ((b'\\' ∷ b'"' ∷ b'a' ∷ []) ++ b'"' ∷ []), codes " ;")
skip_literal_bytes-close_example = skip_literal_bytes-close (codes " ;") escaped_quote

-- A literal that goes on behind a continued line.
abbrev spliced : Bytes
spliced = b'a' ∷ b'\\' ∷ b'\n' ∷ b'b' ∷ b'"' ∷ codes " x"

copy_literal_bytes_raw-skip_example :
    (copy_literal_bytes_raw b'"' (b'"' ∷ spliced)).1 ≡ (skip_literal_bytes b'"' (b'"' ∷ spliced)).1
copy_literal_bytes_raw-skip_example =
    copy_literal_bytes_raw-skip (omega arith) (omega arith) (omega arith) spliced

abbrev e_acute : Bytes
e_acute = b'\\' ∷ codes "u00e9"

parse_e_acute : parse_ucn e_acute ≡ some (0xe9, 6)
unfolding parse_ucn
parse_e_acute = refl

e_acute-IsName : IsName e_acute 0xe9 6
e_acute-IsName =
    short (codes "00e9") [] refl
      (digit {d = 0} (decimal (omega arith) refl) (
        digit {d = 0} (decimal (omega arith) refl) (
          digit {d = 14} (lower 4 (omega arith) refl refl)
            (digit {d = 9} (decimal (omega arith) refl) nil))))
      (inl (omega arith)) refl

parse_ucn-IsName_example : (parse_ucn e_acute ≡ some (0xe9, 6)) ↔ IsName e_acute 0xe9 6
parse_ucn-IsName_example = parse_ucn-IsName e_acute 0xe9 6

parse_ucn-hex_short_example : parse_ucn (b'\\' ∷ b'u' ∷ (hex 4 0xe9 ++ codes "x")) ≡ some (0xe9, 6)
parse_ucn-hex_short_example = parse_ucn-hex_short 0xe9 (codes "x") (inl (omega arith)) (omega arith)

parse_ucn-hex_long_example :
    parse_ucn (b'\\' ∷ b'U' ∷ (hex 8 0x1f600 ++ codes "x")) ≡ some (0x1f600, 10)
parse_ucn-hex_long_example =
    parse_ucn-hex_long 0x1f600 (codes "x") (inr ((omega arith), (omega arith)))
