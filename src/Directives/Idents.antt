-- ===== src/Directives/Idents.antt =====
-- co2_preprocessor/src/expr_eval.rs: `replace_remaining_idents_with_zero`.
pub mod Laws
use co.Prelude.{
  ℕ, Bool, true, false, ◌&&◌, ◌||◌, List, [], ◌∷◌, ◌++◌, Bytes, codes, equal, span, head_is, drop,
  take, ◌==◌, if◌then◌else◌,
}
use co.Prelude.Outcome.{Outcome, ok, ◌>>=◌}
use co.Utils.Classes.{is_digit, is_alphanumeric, is_ident_start_byte, is_ident_cont_byte}
use co.Utils.Text.{bytes_to_str}
use co.Directives.Scan.{Pushed, scan_text}

abbrev pub is_number_tail : ℕ → Bool
is_number_tail c = is_alphanumeric c || c == b'.'

-- The radix mark of `0x` and `0b`.
abbrev pub is_radix_mark : ℕ → Bool
is_radix_mark c = c == b'x' || c == b'X' || c == b'b' || c == b'B'

unfoldable pub number_text : ℕ → Bytes → Pushed
number_text b r =
    if b == b'0' && head_is is_radix_mark r
    then (let digits = span is_number_tail (drop 1 r) in (b ∷ (take 1 r ++ digits.0), digits.1))
    else (let digits = span is_number_tail r in (b ∷ digits.0, digits.1))

unfoldable pub zero_ident : Bytes → Bytes
zero_ident name =
    if equal name (codes "defined") || equal name (codes "true") || equal name (codes "false")
    then name
    else codes "0"

unfoldable pub replace_round : ℕ → Bytes → Outcome Pushed
unfolding number_text zero_ident
replace_round b r =
    if is_digit b
    then ok (number_text b r)
    else if is_ident_start_byte b
    then (let word = span is_ident_cont_byte r in
        bytes_to_str (b ∷ word.0) >>= λ name. ok (zero_ident name, word.1))
    else ok (b ∷ [], r)

unfoldable pub replace_remaining_idents_with_zero : Bytes → Outcome Bytes
unfolding scan_text replace_round
replace_remaining_idents_with_zero = scan_text replace_round
