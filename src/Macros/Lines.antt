-- ===== src/Macros/Lines.antt =====
-- co2_preprocessor/src/macro_defs.rs: `expand_text_with_line` and `expand_line_with_line`.
pub mod Total
pub mod Inert
pub mod Absent
use mathlib.Core.List.{reverse}
use co.Prelude.{
  ℕ, zero, suc, Bool, true, false, not, ◌&&◌, ◌||◌, List, [], ◌∷◌, ◌++◌, Bytes, codes, equal,
  Option, none, some, span, drop, head_is, length, ◌==◌, if◌then◌else◌,
}
use co.Prelude.Outcome.{Outcome, ok, out_of_fuel, ◌>>=◌}
use co.Macros.Args.{ppnumber}
use co.Macros.Copies.{
  block_comment_rest, plain_rest, is_ppnumber_suffix, pragma_from, skip_spaces, format,
}
use co.Macros.Expander.{ExpandState, contains, Expansion, Step, Expand, expand_macro_invocation}
use co.Macros.Paste.{Buffer, push_str, blue_paint_marker, str_or_empty, strip_blue_paint}
use co.Macros.Table.{MacroDef, MacroTable, get}
use co.Utils.Classes.{is_digit, is_quote, is_ident_start_byte, is_ident_cont_byte}
use co.Utils.Literals.{copy_literal_bytes_to_string}
use co.Utils.Text.{bytes_to_str}

-- A piece of the line that is copied.
abbrev pub copied : Buffer → Bytes × Bytes → ExpandState → Outcome Step
copied buf cut st = ok (push_str buf cut.0, cut.1, st)

-- `skip_pragma` behind `_Pragma`.
unfoldable pub skip_pragma : Buffer → Bytes → Bytes → ExpandState → Outcome Step
skip_pragma buf name s st =
    if head_is (λ c. c == b'(') (skip_spaces s)
    then (pragma_from (suc (length (skip_spaces s))) 0 (drop 1 (skip_spaces s)) >>= λ rest.
        ok (buf, rest, st))
    else ok (push_str buf name, s, st)

abbrev pub is_literal_prefix : Bytes → Bool
is_literal_prefix name =
    equal name (codes "u8")
    || equal name (codes "u")
    || equal name (codes "U")
    || equal name (codes "L")

module _ (t : MacroTable) (line_number : ℕ) (rescan : Expand) (expand_arg : Expand) where
  -- An identifier that is no built-in name.
  unfoldable pub expand_name : Buffer → Bytes → Bytes → ExpandState → Outcome Step
  unfolding expand_macro_invocation
  expand_name buf name s st =
      if contains st.expanding name
      then ok (push_str (blue_paint_marker ∷ buf) name, s, st)
      else elim (get t name) [
        | some mac ↦ expand_macro_invocation t rescan expand_arg buf name mac s st
        | none ↦ ok (push_str buf name, s, st)
      ]

  unfoldable pub expand_identifier : Buffer → Bytes → Bytes → ExpandState → Outcome Step
  unfolding skip_pragma expand_name
  expand_identifier buf name s st =
      if is_ppnumber_suffix buf
      then ok (push_str buf name, s, st)
      else if equal name (codes "_Pragma")
      then skip_pragma buf name s st
      else if equal name (codes "__COUNTER__")
      then (format st.counter >>= λ digits.
          ok (push_str buf digits, s, record st { counter = suc st.counter }))
      else if equal name (codes "__LINE__")
      then (format line_number >>= λ digits. ok (push_str buf digits, s, st))
      else if head_is is_quote s && is_literal_prefix name
      then ok (push_str buf name, s, st)
      else expand_name buf name s st

  abbrev pub in_front : Bytes → Bytes × Bytes → Bytes × Bytes
  in_front text cut = (text ++ cut.0, cut.1)

  abbrev pub valid : Bytes × Bytes → Bytes × Bytes
  valid cut = (str_or_empty cut.0, cut.1)

  -- A marked identifier is copied with its mark.
  abbrev pub blue_painted : Bytes → Bytes × Bytes
  blue_painted r =
      let word = span is_ident_cont_byte r in (blue_paint_marker ∷ str_or_empty word.0, word.1)

  -- One round of the loop at byte `b`. A byte from 0x80 on starts an identifier, so that the branch
  -- on other characters is never reached.
  unfoldable pub expand_round : Buffer → ℕ → Bytes → ExpandState → Outcome Step
  unfolding expand_identifier
  expand_round buf b r st =
      if is_quote b
      then (copy_literal_bytes_to_string b (b ∷ r) [] >>= λ cut. copied buf cut st)
      else if b == blue_paint_marker
      then copied buf (blue_painted r) st
      else if is_ident_start_byte b
      then (let word = span is_ident_cont_byte r in
          bytes_to_str (b ∷ word.0) >>= λ name. expand_identifier buf name word.1 st)
      else if b == b'/' && head_is (λ c. c == b'*') r
      then copied buf (valid (in_front (b'/' ∷ b'*' ∷ []) (block_comment_rest (drop 1 r)))) st
      else if b == b'/' && head_is (λ c. c == b'/') r
      then copied buf (valid (span (λ c. not (c == b'\n')) (b ∷ r))) st
      else if is_digit b || (b == b'.' && head_is is_digit r)
      then copied buf (valid (ppnumber 0 (b ∷ r))) st
      else copied buf (valid (in_front (b ∷ []) (plain_rest r))) st

module _ (t : MacroTable) (line_number : ℕ) where
  module _ (rescan : Expand) where
    -- The loop; an argument is shorter than the text, and is expanded by a loop of its own.
    unfoldable pub expand_from : ℕ → Buffer → Bytes → ExpandState → Expansion
    unfolding expand_round
    expand_from zero buf s st = out_of_fuel
    expand_from (suc f) buf [] st = ok (reverse buf, st)
    expand_from (suc f) buf (b ∷ r) st =
        expand_round t line_number rescan (λ arg st'. expand_from f [] arg st') buf b r st
        >>= λ (buf', rest, st'). expand_from f buf' rest st'

  -- `expand_text_with_line` to a depth of nested bodies.
  unfoldable pub expand_text : ℕ → Expand
  unfolding expand_from
  expand_text zero text st = out_of_fuel
  expand_text (suc depth) text st =
      expand_from (λ body st'. expand_text depth body st') (suc (length text)) [] text st

  -- `expand_line_with_line`: every nested body is that of one more macro of the table.
  unfoldable pub expand_line_with_line : Bytes → ExpandState → Expansion
  unfolding expand_text strip_blue_paint
  expand_line_with_line line st =
      expand_text (suc (length t.macros)) line (record st { expanding = [] }) >>= λ (result, st').
      ok (strip_blue_paint result, st')
