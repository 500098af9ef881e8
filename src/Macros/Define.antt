-- ===== src/Macros/Define.antt =====
-- co2_preprocessor/src/macro_defs.rs: `parse_define`.
pub mod Laws
pub mod Foreign
use co.Prelude.{
  ℕ, zero, suc, Bool, true, false, not, ◌&&◌, List, [], ◌∷◌, ◌++◌, Bytes, Option, none, some, span,
  drop, head_is, ◌==◌, if◌then◌else◌,
}
use co.Prelude.Outcome.{Outcome, ok, out_of_fuel, ◌>>=◌}
use co.Directives.Defined.{skip_blanks}
use co.Macros.Table.{MacroDef, macro_def_from_parts}
use co.Utils.Classes.{is_ident_start_byte, is_ident_cont_byte}
use co.Utils.Text.{bytes_to_str, trim}

-- `params`, `is_variadic` and `has_named_variadic`.
pub record ParamList : Type 0 where
  pub params : List Bytes
  pub is_variadic : Bool
  pub has_named_variadic : Bool

unfoldable pub is_ellipsis : Bytes → Bool
is_ellipsis (a ∷ b ∷ c ∷ s) = a == b'.' && b == b'.' && c == b'.'
is_ellipsis _ = false

-- Behind the dots: the text behind the next `)`.
unfoldable pub behind_paren : Bytes → Bytes
behind_paren s = drop 1 (span (λ c. not (c == b')')) s).1

unfoldable pub skip_comma : Bytes → Bytes
unfolding skip_blanks
skip_comma s = let r = skip_blanks s in if head_is (λ c. c == b',') r then drop 1 r else r

abbrev pub fixed_list : List Bytes → ParamList
fixed_list params = record { params = params; is_variadic = false; has_named_variadic = false }

-- What a round of the loop does at a byte that is no blank: the end of the list with the text behind
-- it, or one more round with new parameters at a new cursor.
pub data ParamStep : Type 0 where
  finish : ParamList → Bytes → ParamStep
  continue : List Bytes → Bytes → ParamStep

-- Behind a parameter's name.
unfoldable pub named_param : List Bytes → Bytes → Bytes → ParamStep
unfolding is_ellipsis behind_paren skip_comma
named_param params name s =
    if is_ellipsis s
    then finish
        (record { params = params ++ name ∷ []; is_variadic = true; has_named_variadic = true })
        (behind_paren (drop 3 s))
    else continue (params ++ name ∷ []) (skip_comma s)

unfoldable pub param_step : List Bytes → ℕ → Bytes → Outcome ParamStep
unfolding is_ellipsis behind_paren named_param skip_comma
param_step params c r =
    if c == b')'
    then ok (finish (fixed_list params) r)
    else if is_ellipsis (c ∷ r)
    then ok (
        finish (record { params = params; is_variadic = true; has_named_variadic = false })
          (behind_paren (drop 2 r)))
    else if is_ident_start_byte c
    then (let word = span is_ident_cont_byte r in
        bytes_to_str (c ∷ word.0) >>= λ name. ok (named_param params name word.1))
    else ok (continue params (skip_comma (c ∷ r)))

-- The loop behind `(`. Nothing in the source bounds its rounds.
unfoldable pub parse_params : ℕ → List Bytes → Bytes → Outcome (ParamList × Bytes)
unfolding param_step skip_blanks
parse_params zero params s = out_of_fuel
parse_params (suc f) params s = elim (skip_blanks s) [
  | [] ↦ ok (fixed_list params, [])
  | c ∷ r ↦ param_step params c r >>= λ step. elim step [
    | finish list rest ↦ ok (list, rest)
    | continue params' rest ↦ parse_params f params' rest
  ]
]

module _ (is_xid_start is_xid_continue : ℕ → Bool) where
  -- The definition from its parts, with the body's text trimmed.
  unfoldable pub define_with : Bytes → Bool → ParamList × Bytes → Outcome (Option MacroDef)
  unfolding macro_def_from_parts trim
  define_with name function_like (list, body) =
      macro_def_from_parts is_xid_start is_xid_continue name function_like list.params
        list.is_variadic list.has_named_variadic (trim body)
      >>= λ d. ok (some d)

  -- A name with what stands behind it.
  unfoldable pub define_named : ℕ → Bytes → Bytes → Outcome (Option MacroDef)
  unfolding parse_params define_with
  define_named f name s =
      if head_is (λ c. c == b'(') s
      then (parse_params f [] (drop 1 s) >>= λ p. define_with name true p)
      else define_with name false (fixed_list [], s)

  unfoldable pub define_trimmed : ℕ → Bytes → Outcome (Option MacroDef)
  unfolding define_named
  define_trimmed f [] = ok none
  define_trimmed f (c ∷ s) =
      if is_ident_start_byte c
      then (let word = span is_ident_cont_byte s in
          bytes_to_str (c ∷ word.0) >>= λ name. define_named f name word.1)
      else ok none

  -- `parse_define`, with fuel for the parameters.
  unfoldable pub parse_define : ℕ → Bytes → Outcome (Option MacroDef)
  unfolding define_trimmed trim
  parse_define f line = define_trimmed f (trim line)
