-- ===== src/Pipeline/Directives.antt =====
-- co2_preprocessor/src/pipeline.rs: the handlers of `#define`, `#undef`, `#ifdef`, `#if` and `#elif`.
pub mod Laws
use co.Prelude.{
  ℕ, Bool, true, false, not, ◌&&◌, List, [], ◌∷◌, Bytes, codes, equal, Option, none, some,
  if◌then◌else◌,
}
use co.Prelude.Outcome.{Outcome, ok, ◌>>=◌}
use co.Conditionals.Stack.{ByteRange, ConditionalStack, push_if, handle_elif}
use co.Directives.Defined.{resolve_defined_in_expr}
use co.Directives.Expand.{evaluate_condition}
use co.Directives.Idents.{replace_remaining_idents_with_zero}
use co.Lines.Words.{first_word}
use co.Macros.Define.{parse_define}
use co.Macros.Lines.{expand_line_with_line}
use co.Macros.Table.{MacroDef, MacroTable, define, undefine, is_defined}
use co.Macros.Token.{tokenize_macro_body, resolve_params}

-- The fields of `Preprocessor` that these handlers and those of pragmas.rs read and write. Of a stack
-- the top is the head, and a set is a list.
pub record Preprocessor : Type 0 where
  pub macros : MacroTable
  pub conditionals : ConditionalStack
  pub directive_expanding : List Bytes
  pub include_stack : List Bytes
  pub pragma_once_files : List Bytes
  pub macro_save_stack : List (Bytes × List (Option MacroDef))

abbrev list_equal : List Bytes → List Bytes → Bool
list_equal [] [] = true
list_equal [] (b ∷ t) = false
list_equal (a ∷ s) [] = false
list_equal (a ∷ s) (b ∷ t) = equal a b && list_equal s t

-- `self.macros.expand_line_with_line(text, line, &mut self.directive_expanding)`, with the table's
-- counter.
unfoldable pub expand : Preprocessor → Bytes → ℕ → Outcome (Bytes × Preprocessor)
unfolding expand_line_with_line
expand p text line =
    expand_line_with_line p.macros line text
      (record { expanding = p.directive_expanding; counter = p.macros.counter })
    >>= λ (result, st). ok (
      result,
      record p {
        macros = record p.macros { counter = st.counter };
        directive_expanding = st.expanding;
      },
    )

abbrev offsetof_body : Bytes
offsetof_body = codes "__builtin_offsetof(type, field)"

abbrev is_offsetof : MacroDef → Bool
is_offsetof d =
    equal d.name (codes "offsetof")
    && d.is_function_like
    && list_equal d.params (codes "type" ∷ codes "field" ∷ [])

module _ (is_xid_start is_xid_continue : ℕ → Bool) where
  -- The body of `offsetof(type, field)` is the compiler's own.
  unfoldable pub with_offsetof : MacroDef → Outcome MacroDef
  unfolding tokenize_macro_body resolve_params
  with_offsetof d =
      if is_offsetof d
      then (tokenize_macro_body is_xid_start is_xid_continue offsetof_body >>= λ raw. ok (record d {
        body = offsetof_body;
        tokenized_body = resolve_params raw d.params d.is_variadic;
        has_stringify_or_paste = false;
      }))
      else ok d

  -- `handle_define`, with fuel for `parse_define`.
  unfoldable pub handle_define : ℕ → Preprocessor → Bytes → Outcome Preprocessor
  unfolding parse_define with_offsetof define
  handle_define f p rest = parse_define is_xid_start is_xid_continue f rest >>= λ parsed.
      elim parsed [
        | none ↦ ok p
        | some def ↦ with_offsetof def >>= λ d. ok (record p { macros = define p.macros d })
      ]

unfoldable pub handle_undef : Preprocessor → Bytes → Preprocessor
unfolding first_word undefine
handle_undef p rest = elim (first_word rest) [
  | [] ↦ p
  | c ∷ name ↦ record p { macros = undefine p.macros (c ∷ name) }
]

unfoldable pub handle_ifdef : Preprocessor → Bytes → Bool → ByteRange → Preprocessor
unfolding first_word is_defined push_if
handle_ifdef p rest negate position =
    let defined = is_defined p.macros (first_word rest) in
    record p {
      conditionals = push_if p.conditionals (if negate then not defined else defined) position;
    }

module _ (header_found : Bool → Bool → Bytes → Bool) where
  -- The truth value of a condition: the passes in their order.
  unfoldable pub condition_value : Preprocessor → Bytes → ℕ → Outcome (Bool × Preprocessor)
  unfolding expand resolve_defined_in_expr replace_remaining_idents_with_zero evaluate_condition
  condition_value p expr line = resolve_defined_in_expr p.macros header_found expr >>= λ resolved.
      expand p resolved line >>= λ (expanded, p').
      resolve_defined_in_expr p'.macros header_found expanded >>= λ again.
      replace_remaining_idents_with_zero again >>= λ final_expr.
      evaluate_condition p'.macros final_expr >>= λ condition. ok (condition, p')

  unfoldable pub handle_if_with_line : Preprocessor → Bytes → ByteRange → ℕ → Outcome Preprocessor
  unfolding condition_value push_if
  handle_if_with_line p expr position line = condition_value p expr line >>= λ (condition, p').
      ok (record p' { conditionals = push_if p'.conditionals condition position })

  unfoldable pub handle_elif_with_line : Preprocessor → Bytes → ℕ → Outcome Preprocessor
  unfolding condition_value handle_elif
  handle_elif_with_line p expr line = condition_value p expr line >>= λ (condition, p').
      ok (record p' { conditionals = handle_elif p'.conditionals condition })
