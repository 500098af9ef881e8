-- ===== src/Pipeline/Pragmas.antt =====
-- co2_preprocessor/src/pragmas.rs.
pub mod Laws
use mathlib.Core.List.{reverse}
use co.Prelude.{
  ℕ, Bool, true, false, List, [], ◌∷◌, ◌++◌, Bytes, codes, equal, Option, none, some, span, head_is,
  ◌==◌, ltb, all, ◌||◌, if◌then◌else◌,
}
use co.Prelude.Outcome.{Outcome, ok, ◌>>=◌}
use co.Conditionals.Tokenizer.{digits_value}
use co.Macros.Copies.{format}
use co.Macros.Expander.{contains}
use co.Macros.Table.{MacroDef, MacroTable, define, undefine, get, lookup, insert, is_some}
use co.Pipeline.Directives.{Preprocessor}
use co.Utils.Classes.{is_digit}
use co.Utils.Text.{trim}

-- `str::strip_prefix`.
unfoldable pub strip_prefix : Bytes → Bytes → Option Bytes
strip_prefix [] s = some s
strip_prefix (a ∷ w) [] = none
strip_prefix (a ∷ w) (c ∷ s) = let rest = strip_prefix w s in if a == c then rest else none

-- `trim_start_matches(c)` and `trim_end_matches(c)`.
abbrev pub trim_front : ℕ → Bytes → Bytes
trim_front c s = (span (λ d. d == c) s).1

abbrev pub trim_back : ℕ → Bytes → Bytes
trim_back c s = reverse (trim_front c (reverse s))

-- The text between parentheses, any number of them.
unfoldable pub inner_of : Bytes → Bytes
unfolding trim
inner_of content = trim (trim_back b')' (trim_front b'(' content))

unfoldable pub extract_pragma_macro_name : Bytes → Option Bytes
unfolding trim inner_of
extract_pragma_macro_name content =
    if head_is (λ c. c == b'(') (trim content)
    then (elim (trim_back b'"' (trim_front b'"' (inner_of (trim content)))) [
      | [] ↦ none
      | c ∷ name ↦ some (c ∷ name)
    ])
    else none

abbrev pub saved_of : Option (List (Option MacroDef)) → List (Option MacroDef)
saved_of none = []
saved_of (some saved) = saved

unfoldable pub save : Preprocessor → Bytes → Preprocessor
unfolding get lookup insert
save p name = record p {
  macro_save_stack =
      insert name (get p.macros name ∷ saved_of (lookup name p.macro_save_stack))
        p.macro_save_stack;
}

unfoldable pub handle_pragma_push_macro : Preprocessor → Bytes → Preprocessor
unfolding extract_pragma_macro_name save
handle_pragma_push_macro p content = elim (extract_pragma_macro_name content) [
  | none ↦ p
  | some name ↦ save p name
]

-- A saved definition becomes the macro again, or none does.
unfoldable pub put_back : MacroTable → Bytes → Option MacroDef → MacroTable
unfolding define undefine
put_back t name none = undefine t name
put_back t name (some def) = define t def

unfoldable pub restore : Preprocessor → Bytes → List (Option MacroDef) → Preprocessor
unfolding insert put_back
restore p name [] = p
restore p name (saved ∷ more) = record p {
  macros = put_back p.macros name saved;
  macro_save_stack = insert name more p.macro_save_stack;
}

unfoldable pub handle_pragma_pop_macro : Preprocessor → Bytes → Preprocessor
unfolding extract_pragma_macro_name lookup restore
handle_pragma_pop_macro p content = elim (extract_pragma_macro_name content) [
  | none ↦ p
  | some name ↦ restore p name (saved_of (lookup name p.macro_save_stack))
]

abbrev is_visibility : Bytes → Bool
is_visibility inner =
    equal inner (codes "hidden")
    || equal inner (codes "default")
    || equal inner (codes "protected")
    || equal inner (codes "internal")

visibility_push : Bytes → Option Bytes
unfolding inner_of
visibility_push rest =
    if head_is (λ c. c == b'(') rest
    then (if is_visibility (inner_of rest)
        then some (codes "__ccc_visibility_push_" ++ inner_of rest ++ codes " ;" ++ b'\n' ∷ [])
        else none)
    else none

unfoldable pub handle_pragma_gcc_visibility : Bytes → Option Bytes
unfolding trim strip_prefix visibility_push
handle_pragma_gcc_visibility content =
    if equal (trim content) (codes "pop")
    then some (codes "__ccc_visibility_pop ;" ++ b'\n' ∷ [])
    else elim (strip_prefix (codes "push") (trim content)) [
      | none ↦ none
      | some rest ↦ visibility_push (trim rest)
    ]

-- `str::parse::<usize>().ok()`: a sign `+` may stand in front of the digits.
unfoldable pub parse_usize : Bytes → Option ℕ
unfolding digits_value is_digit
parse_usize [] = none
parse_usize (c ∷ []) = digits_value 10 0 (c ∷ [])
parse_usize (c ∷ d ∷ s) =
    if c == b'+' then digits_value 10 0 (d ∷ s) else digits_value 10 0 (c ∷ d ∷ s)

-- A synthetic token with a number in its name.
numbered : Bytes → Option ℕ → Outcome (Option Bytes)
unfolding format
numbered name none = ok none
numbered name (some n) =
    format n >>= λ digits. ok (some (name ++ digits ++ codes " ;" ++ b'\n' ∷ []))

pack_push : Bytes → Outcome (Option Bytes)
unfolding parse_usize numbered
pack_push [] = ok (some (codes "__ccc_pack_push_only ;" ++ b'\n' ∷ []))
pack_push (c ∷ rest) = numbered (codes "__ccc_pack_push_") (parse_usize (c ∷ rest))

pack_inner : Bytes → Outcome (Option Bytes)
unfolding strip_prefix trim parse_usize numbered pack_push
pack_inner [] = ok (some (codes "__ccc_pack_reset ;" ++ b'\n' ∷ []))
pack_inner (c ∷ inner) =
    if equal (c ∷ inner) (codes "pop")
    then ok (some (codes "__ccc_pack_pop ;" ++ b'\n' ∷ []))
    else elim (strip_prefix (codes "push") (c ∷ inner)) [
      | some rest ↦ pack_push (trim (trim_front b',' (trim rest)))
      | none ↦ numbered (codes "__ccc_pack_set_") (parse_usize (c ∷ inner))
    ]

unfoldable pub handle_pragma_pack : Bytes → Outcome (Option Bytes)
unfolding trim inner_of pack_inner
handle_pragma_pack content =
    if head_is (λ c. c == b'(') (trim content)
    then pack_inner (inner_of (trim content))
    else ok none

-- `#pragma once`.
unfoldable pub mark_once : Preprocessor → Preprocessor
unfolding contains
mark_once p = elim p.include_stack [
  | [] ↦ p
  | current_file ∷ files ↦
      if contains p.pragma_once_files current_file
      then p
      else record p { pragma_once_files = current_file ∷ p.pragma_once_files }
]

-- The pragmas of GCC.
gcc_pragma : Bytes → Option Bytes
unfolding strip_prefix trim handle_pragma_gcc_visibility
gcc_pragma content = elim (strip_prefix (codes "visibility") (trim content)) [
  | none ↦ none
  | some rest ↦ handle_pragma_gcc_visibility (trim rest)
]

abbrev ignored : Bytes → Bool
ignored rest =
    is_some (strip_prefix (codes "weak") rest)
    || is_some (strip_prefix (codes "redefine_extname") rest)

-- `handle_pragma`: the text to emit, if any, and the new state.
unfoldable pub handle_pragma : Preprocessor → Bytes → Outcome (Option Bytes × Preprocessor)
unfolding trim strip_prefix mark_once handle_pragma_pack handle_pragma_push_macro
    handle_pragma_pop_macro gcc_pragma
handle_pragma p text =
    let rest = trim text in
    if equal rest (codes "once")
    then ok (none, mark_once p)
    else elim (strip_prefix (codes "pack") rest) [
      | some pack ↦ handle_pragma_pack (trim pack) >>= λ raw. ok (raw, p)
      | none ↦ elim (strip_prefix (codes "push_macro") rest) [
        | some push ↦ ok (none, handle_pragma_push_macro p (trim push))
        | none ↦ elim (strip_prefix (codes "pop_macro") rest) [
          | some pop ↦ ok (none, handle_pragma_pop_macro p (trim pop))
          | none ↦ if ignored rest then ok (none, p) else elim (strip_prefix (codes "GCC") rest) [
            | none ↦ ok (none, p)
            | some gcc ↦ ok (gcc_pragma gcc, p)
          ]
        ]
      ]
    ]
