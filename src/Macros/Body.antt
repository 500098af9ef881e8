-- ===== src/Macros/Body.antt =====
-- co2_preprocessor/src/macro_defs.rs: `expand_body`, which substitutes a macro's arguments and applies
-- `#`, `##` and `__VA_OPT__`. The tokens from `tokens[i]` on stand for `i`.
pub mod Laws
use mathlib.Core.List.{reverse}
use co.Prelude.{
  ℕ, zero, suc, ◌-◌, Bool, true, false, not, ◌&&◌, ◌||◌, List, [], ◌∷◌, ◌++◌, Bytes, codes, equal,
  Option, none, some, all, span, drop, head_is, length, get_elem?, ltb, ◌==◌, if◌then◌else◌,
}
use co.Prelude.Outcome.{Outcome, ok, out_of_fuel, ◌>>=◌}
use co.Macros.Paste.{
  Buffer, push_str, append_with_paste_guard, pop_blanks, pop_comma, truncate_by, strip_blue_paint,
  extract_trailing_ident,
}
use co.Macros.Stringify.{stringify_arg}
use co.Macros.Token
use co.Macros.Token.{
  MacroBodyToken, ident, other, param, va_args, hash, hash_hash, lparen, rparen, token_text,
  position,
}
use co.Utils.Classes.{is_whitespace, is_ident_start_byte, is_ident_cont_byte, is_digit}
use co.Utils.Text.{trim, trim_start}

abbrev pub Tokens : Type 0
Tokens = List MacroBodyToken

-- The parameters of a macro and the arguments of one call, raw and expanded.
pub record Call : Type 0 where
  pub params : List Bytes
  pub args : List Bytes
  pub expanded_args : List Bytes
  pub is_variadic : Bool
  pub has_named_variadic : Bool

abbrev pub arg_at : List Bytes → ℕ → Bytes
arg_at [] i = []
arg_at (a ∷ args) zero = a
arg_at (a ∷ args) (suc i) = arg_at args i

-- `args.join(", ")`.
unfoldable pub join_args : List Bytes → Bytes
join_args [] = []
join_args (a ∷ []) = a
join_args (a ∷ b ∷ args) = a ++ (b',' ∷ b' ' ∷ join_args (b ∷ args))

-- `get_va_args(params, args)` for `n = params.len()`, and `get_named_va_args(n, args)`.
unfoldable pub va_args_from : ℕ → List Bytes → Bytes
unfolding join_args
va_args_from n args = if ltb n (length args) then join_args (drop n args) else []

unfoldable pub is_whitespace_token : MacroBodyToken → Bool
is_whitespace_token (other s) = all is_whitespace s
is_whitespace_token _ = false

unfoldable pub skip_whitespace : Tokens → Tokens
unfolding is_whitespace_token
skip_whitespace [] = []
skip_whitespace (t ∷ ts) =
    let rest = skip_whitespace ts in if is_whitespace_token t then rest else t ∷ ts

abbrev pub is_hash_hash : MacroBodyToken → Bool
is_hash_hash hash_hash = true
is_hash_hash _ = false

unfoldable pub lookahead_hash_hash : Tokens → Bool
unfolding skip_whitespace
lookahead_hash_hash ts = head_is is_hash_hash (skip_whitespace ts)

abbrev pub push_inside : MacroBodyToken → Option (Tokens × Tokens) → Option (Tokens × Tokens)
push_inside t none = none
push_inside t (some (inside, after)) = some (t ∷ inside, after)

-- `find_matching_paren` from behind the opening parenthesis, at a depth of `suc d`: the tokens
-- inside, and those behind the closing one.
unfoldable pub find_matching_paren : ℕ → Tokens → Option (Tokens × Tokens)
find_matching_paren d [] = none
find_matching_paren d (lparen ∷ ts) = push_inside lparen (find_matching_paren (suc d) ts)
find_matching_paren zero (rparen ∷ ts) = some ([], ts)
find_matching_paren (suc d) (rparen ∷ ts) = push_inside rparen (find_matching_paren d ts)
find_matching_paren d (t ∷ ts) = push_inside t (find_matching_paren d ts)

unfoldable pub parenthesised : Tokens → Option (Tokens × Tokens)
parenthesised (lparen ∷ ts) = find_matching_paren 0 ts
parenthesised _ = none

-- The parenthesised content behind `__VA_OPT__`.
unfoldable pub va_opt_content : Tokens → Option (Tokens × Tokens)
unfolding skip_whitespace find_matching_paren parenthesised
va_opt_content ts = parenthesised (skip_whitespace ts)

abbrev pub is_empty : Bytes → Bool
is_empty [] = true
is_empty (c ∷ s) = false

abbrev counts_as_present : List Bytes → Bool
counts_as_present [] = false
counts_as_present (only ∷ []) = not (is_empty (trim only))
counts_as_present (a ∷ b ∷ args) = true

unfoldable pub va_args_present : Call → Bool
va_args_present c =
    let count = length c.params in
    counts_as_present (drop (if c.has_named_variadic then count - 1 else count) c.expanded_args)

first_token_tail : ℕ → Bytes → Bytes
first_token_tail c s =
    if is_ident_start_byte c
    then (span is_ident_cont_byte s).0
    else if is_digit c
    then (span (λ d. is_ident_cont_byte d || d == b'.') s).0
    else []

first_token : Bytes → Bytes
unfolding first_token_tail
first_token [] = []
first_token (c ∷ t) = c ∷ first_token_tail c t

-- The bytes that `first_pp_token` finds; none in a blank text.
unfoldable pub first_pp_token : Bytes → Bytes
unfolding first_token trim_start
first_pp_token s = first_token (trim_start s)
