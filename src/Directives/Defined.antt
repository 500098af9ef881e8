-- ===== src/Directives/Defined.antt =====
-- co2_preprocessor/src/expr_eval.rs: `resolve_defined_in_expr` and the `__has_*` operators. The
-- search for a header, co2_preprocessor/src/includes.rs on the file system, is a parameter: is a
-- header of this name found, as a system header or not, and behind the current file or not?
pub mod Laws
pub mod Operand
use co.Prelude.{
  ℕ, zero, suc, Bool, true, false, not, ◌&&◌, ◌||◌, List, [], ◌∷◌, ◌++◌, Bytes, codes, equal, span,
  head_is, drop, ◌==◌, if◌then◌else◌,
}
use co.Prelude.Outcome.{Outcome, ok, ◌>>=◌}
use co.Utils.Classes.{is_blank, is_ident_start_byte, is_ident_cont_byte}
use co.Utils.Text.{bytes_to_str, trim}
use co.Directives.Lists.{is_supported_builtin, is_supported_attribute}
use co.Directives.Scan.{Pushed, scan_text}
use co.Macros.Table.{MacroTable, is_defined}

unfoldable pub skip_blanks : Bytes → Bytes
skip_blanks s = (span is_blank s).1

abbrev pub opens : Bytes → Bool
opens = head_is (λ c. c == b'(')

-- `if *i < len { *i += 1; }` behind a search for `)`.
unfoldable pub skip_to_paren : Bytes → Bytes
skip_to_paren s = drop 1 (span (λ c. not (c == b')')) s).1

abbrev pub digit_of : Bool → Bytes
digit_of b = if b then codes "1" else codes "0"

-- `if i < len && bytes[i] == b')' { i += 1; }`.
unfoldable pub skip_close : Bytes → Bytes
skip_close s = if head_is (λ c. c == b')') s then drop 1 s else s

-- The operand of `defined`, with or without parentheses, from the cursor behind the blanks.
unfoldable pub defined_operand : MacroTable → Bool → Bytes → Outcome Pushed
unfolding skip_blanks skip_close
defined_operand t has_paren s =
    let word = span is_ident_cont_byte s in
    let after = if has_paren then skip_close (skip_blanks word.1) else word.1 in
    bytes_to_str word.0 >>= λ name. ok (digit_of (is_defined t name), after)

unfoldable pub resolve_defined : MacroTable → Bytes → Outcome Pushed
unfolding defined_operand
resolve_defined t s =
    let r = skip_blanks s in
    if opens r then defined_operand t true (skip_blanks (drop 1 r)) else defined_operand t false r

-- `resolve_has_builtin_call_bytes` and `resolve_has_attribute_call_bytes`, which differ in the list.
unfoldable pub resolve_has_name : (Bytes → Bool) → Bytes → Outcome Pushed
unfolding skip_blanks skip_to_paren
resolve_has_name supported s =
    let r = skip_blanks s in
    if opens r
    then (let word = span is_ident_cont_byte (skip_blanks (drop 1 r)) in
        bytes_to_str word.0 >>= λ name. ok (digit_of (supported name), skip_to_paren word.1))
    else ok (codes "0", r)

-- The header's name, whether it is in angle brackets, and the cursor behind it.
unfoldable pub header_name : Bytes → Bytes × Bool × Bytes
header_name s =
    if head_is (λ c. c == b'<') s
    then (let name = span (λ c. not (c == b'>')) (drop 1 s) in (name.0, true, drop 1 name.1))
    else if head_is (λ c. c == b'"') s
    then (let name = span (λ c. not (c == b'"')) (drop 1 s) in (name.0, false, drop 1 name.1))
    else (let name = span (λ c. not (c == b')')) s in (trim name.0, false, name.1))

-- The loop of `skip_paren_arg_bytes` behind the opening parenthesis, at a depth of `suc d`.
unfoldable pub skip_nested : ℕ → Bytes → Bytes
skip_nested d [] = []
skip_nested d (c ∷ s) = elim (c == b'(') [
  | true ↦ skip_nested (suc d) s
  | false ↦ elim (c == b')') [
    | true ↦ elim d [ zero ↦ s | suc e ↦ skip_nested e s ]
    | false ↦ skip_nested d s
  ]
]

unfoldable pub skip_paren_arg_bytes : Bytes → Bytes
unfolding skip_nested skip_blanks
skip_paren_arg_bytes s = let r = skip_blanks s in if opens r then skip_nested 0 (drop 1 r) else r

module _ (t : MacroTable) (header_found : Bool → Bool → Bytes → Bool) where
  unfoldable pub resolve_has_include : Bool → Bytes → Outcome Pushed
  unfolding header_name skip_to_paren
  resolve_has_include is_next s =
      let r = skip_blanks s in
      if opens r
      then (let (name, is_system, rest) = header_name (skip_blanks (drop 1 r)) in
          bytes_to_str name >>= λ header. ok (
            if equal header [] then codes "0" else digit_of (header_found is_next is_system header),
            skip_to_paren rest,
          ))
      else ok (codes "0", r)

  -- What is pushed for an identifier, and the cursor behind its operand.
  unfoldable pub resolve_ident : Bytes → Bytes → Outcome Pushed
  unfolding resolve_defined resolve_has_name skip_paren_arg_bytes resolve_has_include
  resolve_ident ident rest =
      if equal ident (codes "defined")
      then resolve_defined t rest
      else if equal ident (codes "__has_builtin")
      then resolve_has_name is_supported_builtin rest
      else if equal ident (codes "__has_attribute")
      then resolve_has_name is_supported_attribute rest
      else if equal ident (codes "__has_feature") || equal ident (codes "__has_extension")
      then ok (codes "0", skip_paren_arg_bytes rest)
      else if equal ident (codes "__has_include")
      then resolve_has_include false rest
      else if equal ident (codes "__has_include_next")
      then resolve_has_include true rest
      else ok (ident, rest)

  unfoldable pub resolve_round : ℕ → Bytes → Outcome Pushed
  unfolding resolve_ident
  resolve_round b r =
      if is_ident_start_byte b
      then (let word = span is_ident_cont_byte r in
          bytes_to_str (b ∷ word.0) >>= λ ident. resolve_ident ident word.1)
      else ok (b ∷ [], r)

  unfoldable pub resolve_defined_in_expr : Bytes → Outcome Bytes
  unfolding scan_text resolve_round
  resolve_defined_in_expr = scan_text resolve_round
