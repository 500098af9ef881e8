-- ===== src/Macros/Expander.antt =====
-- co2_preprocessor/src/macro_defs.rs: macro expansion of a line. What `expand_text_with_line` does at
-- one place is a function from the text pushed so far and the cursor to the new ones; `rescan` is the
-- expansion of a macro's replaced body, and `expand_arg` that of an argument.
pub mod Free
pub mod Total
pub mod Calls
use mathlib.Core.List.{reverse}
use co.Prelude.{
  ℕ, zero, suc, ◌-◌, Bool, true, false, not, ◌&&◌, ◌||◌, List, [], ◌∷◌, ◌++◌, Bytes, codes, equal,
  Option, none, some, all, span, drop, take, head_is, length, ◌==◌, if◌then◌else◌,
}
use co.Prelude.Outcome.{Outcome, ok, out_of_fuel, ◌>>=◌}
use co.Macros.Args.{ppnumber, parse_macro_args}
use co.Macros.Body.{Call}
use co.Macros.Copies.{
  block_comment_rest, plain_rest, is_ppnumber_suffix, pragma_from, skip_spaces, format,
}
use co.Macros.Paste.{
  Buffer, push_str, append_with_paste_guard, blue_paint_marker, extract_trailing_ident,
  str_or_empty, contains_standalone_ident, strip_blue_paint,
}
use co.Macros.Substitute.{expand_body}
use co.Macros.Table.{MacroDef, MacroTable, get}
use co.Utils.Classes.{is_digit, is_quote, is_ident_start_byte, is_ident_cont_byte}
use co.Utils.Literals.{copy_literal_bytes_to_string}
use co.Utils.Text.{bytes_to_str, trim, trim_end}

-- The set `expanding`, and the table's counter.
pub record ExpandState : Type 0 where
  pub expanding : List Bytes
  pub counter : ℕ

unfoldable pub contains : List Bytes → Bytes → Bool
contains [] name = false
contains (n ∷ names) name = equal n name || contains names name

-- `FxHashSet::remove`.
unfoldable pub remove_name : Bytes → List Bytes → List Bytes
remove_name name [] = []
remove_name name (n ∷ names) =
    let rest = remove_name name names in if equal n name then rest else n ∷ rest

unfoldable pub insert_name : Bytes → ExpandState → ExpandState
insert_name name st = record st { expanding = name ∷ st.expanding }

abbrev pub Expansion : Type 0
Expansion = Outcome (Bytes × ExpandState)

-- The text pushed, the cursor and the state.
abbrev pub Step : Type 0
Step = Buffer × Bytes × ExpandState

abbrev pub Expand : Type 0
Expand = Bytes → ExpandState → Expansion

abbrev pub first_byte : Bytes → Option ℕ
first_byte [] = none
first_byte (c ∷ s) = some c

unfoldable pub expand_args : Expand → List Bytes → ExpandState → Outcome (List Bytes × ExpandState)
expand_args expand_arg [] st = ok ([], st)
expand_args expand_arg (a ∷ args) st = expand_arg a st >>= λ (text, st').
    expand_args expand_arg args st' >>= λ (texts, last). ok (text ∷ texts, last)

abbrev pub is_function_macro : Option MacroDef → Bool
is_function_macro none = false
is_function_macro (some mac) = mac.is_function_like

abbrev pub has_parameters : MacroDef → Bool
has_parameters mac =
    mac.has_stringify_or_paste || mac.is_variadic || (elim mac.params [ [] ↦ false | _ ↦ true ])

module _ (t : MacroTable) where
  unfoldable pub names_function : Option Bytes → Bool
  names_function none = false
  names_function (some name) = is_function_macro (get t name)

  -- The substituted body of a macro call.
  unfoldable pub macro_body : MacroDef → List Bytes → List Bytes → Outcome Bytes
  unfolding expand_body
  macro_body mac args expanded_args =
      if has_parameters mac
      then expand_body
          (record {
            params = mac.params;
            args = args;
            expanded_args = expanded_args;
            is_variadic = mac.is_variadic;
            has_named_variadic = mac.has_named_variadic;
          })
          mac.tokenized_body
      else ok mac.body

  -- `result_ends_with_func_ident`: the word that the result ends in names a function-like macro, and
  -- is new since the rescan.
  unfoldable pub is_new_function : Bytes → Option Bytes → Bool
  is_new_function body none = false
  is_new_function body (some name) =
      is_function_macro (get t name) && not (contains_standalone_ident body name)

  module _ (rescan : Expand) where
    -- Expansion with the macro's own name suppressed.
    unfoldable pub rescan_without : Bytes → Expand
    unfolding insert_name remove_name
    rescan_without name body st = rescan body (insert_name name st) >>= λ (result, st').
        ok (result, record st' { expanding = remove_name name st'.expanding })

    module _ (expand_arg : Expand) where
      unfoldable pub expand_function_macro :
          MacroDef → List Bytes → ExpandState → Outcome ((Bytes × Bool) × ExpandState)
      unfolding expand_args macro_body names_function is_new_function rescan_without
      expand_function_macro mac args st = expand_args expand_arg args st >>= λ (expanded_args, st₁).
          macro_body mac args expanded_args >>= λ body.
          extract_trailing_ident (reverse body) >>= λ body_ident.
          rescan_without mac.name body st₁ >>= λ (result, st₂).
          extract_trailing_ident (reverse result) >>= λ result_ident.
          ok ((result, names_function body_ident || is_new_function body result_ident), st₂)

      -- The function-like macro that a trailing word calls, if it is not being expanded.
      unfoldable pub trailing_macro : Option Bytes → ExpandState → Option (Bytes × MacroDef)
      trailing_macro none st = none
      trailing_macro (some name) st =
          if contains st.expanding name then none else elim (get t name) [
            | none ↦ none
            | some mac ↦ if mac.is_function_like then some (name, mac) else none
          ]

      abbrev pub cut_trailing : Bytes → Bytes → Bytes
      cut_trailing expanded name = take (length (trim_end expanded) - length name) expanded

      -- The loop of `expand_trailing_func_macros_with_line`; every round takes a call's arguments.
      unfoldable pub expand_trailing :
          ℕ → Bytes → Bytes → ExpandState → Outcome (Bytes × Bytes × ExpandState)
      unfolding trailing_macro expand_function_macro
      expand_trailing zero expanded s st = out_of_fuel
      expand_trailing (suc f) expanded s st =
          extract_trailing_ident (reverse expanded) >>= λ trailing.
          elim (trailing_macro trailing st) [
            | none ↦ ok (expanded, s, st)
            | some (name, mac) ↦ elim (head_is (λ c. c == b'(') (skip_spaces s)) [
              | false ↦ ok (expanded, s, st)
              | true ↦ parse_macro_args (drop 1 (skip_spaces s)) >>= λ (args, end).
                  expand_function_macro mac args st >>= λ ((text, _), st').
                  expand_trailing f (cut_trailing expanded name ++ text) end st'
            ]
          ]

      -- The whole of a trimmed expansion, if it is one word.
      unfoldable pub sole_word : Bytes → Option Bytes
      sole_word [] = none
      sole_word (c ∷ s) =
          if is_ident_start_byte c && all is_ident_cont_byte (c ∷ s) then some (c ∷ s) else none

      -- `try_resolve_objlike_to_funclike_with_line`, with the state in either case.
      unfoldable pub try_resolve :
          Bytes → Bytes → ExpandState → Outcome (Option (Bytes × Bytes) × ExpandState)
      unfolding sole_word trailing_macro expand_function_macro
      try_resolve expanded s st = elim (trailing_macro (sole_word (trim expanded)) st) [
        | none ↦ ok (none, st)
        | some (name, mac) ↦
            if head_is (λ c. c == b'(') (skip_spaces s)
            then (parse_macro_args (drop 1 (skip_spaces s)) >>= λ (args, end).
                expand_function_macro mac args st >>= λ ((text, _), st').
                ok (some (text, end), st'))
            else ok (none, st)
      ]

      -- The end of an invocation: the expansion is pushed with the paste guard.
      unfoldable pub push_expansion : Buffer → Bytes → Bytes → ExpandState → Outcome Step
      unfolding append_with_paste_guard
      push_expansion buf expanded s st =
          ok (append_with_paste_guard buf expanded (first_byte s), s, st)

      unfoldable pub invoke_function :
          Buffer → Bytes → MacroDef → Bytes → ExpandState → Outcome Step
      unfolding expand_function_macro expand_trailing push_expansion
      invoke_function buf name mac s st =
          if head_is (λ c. c == b'(') (skip_spaces s)
          then (parse_macro_args (drop 1 (skip_spaces s)) >>= λ (args, end).
              expand_function_macro mac args st >>= λ ((expanded, ends_with_func_ident), st').
              (if ends_with_func_ident
                then expand_trailing (suc (length end)) expanded end st'
                else ok (expanded, end, st'))
              >>= λ (text, rest, last). push_expansion buf text rest last)
          else ok (push_str buf name, s, st)

      -- The body of an object-like macro.
      unfoldable pub object_body : MacroDef → Outcome Bytes
      unfolding expand_body
      object_body mac =
          if mac.has_stringify_or_paste
          then expand_body
              (record {
                params = mac.params;
                args = [];
                expanded_args = [];
                is_variadic = mac.is_variadic;
                has_named_variadic = mac.has_named_variadic;
              })
              mac.tokenized_body
          else ok mac.body

      unfoldable pub invoke_object : Buffer → Bytes → MacroDef → Bytes → ExpandState → Outcome Step
      unfolding object_body rescan_without try_resolve expand_trailing push_expansion
      invoke_object buf name mac s st = object_body mac >>= λ body.
          rescan_without name body st >>= λ (expanded, st₁).
          try_resolve expanded s st₁ >>= λ (resolved, st₂). elim resolved [
            | some (text, end) ↦ ok (push_str buf text, end, st₂)
            | none ↦ expand_trailing (suc (length s)) expanded s st₂ >>= λ (text, rest, last).
                push_expansion buf text rest last
          ]

      -- `expand_macro_invocation_with_line`.
      unfoldable pub expand_macro_invocation :
          Buffer → Bytes → MacroDef → Bytes → ExpandState → Outcome Step
      unfolding invoke_function invoke_object
      expand_macro_invocation buf name mac s st =
          if mac.is_function_like
          then invoke_function buf name mac s st
          else invoke_object buf name mac s st
