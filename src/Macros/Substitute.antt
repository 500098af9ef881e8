-- ===== src/Macros/Substitute.antt =====
-- co2_preprocessor/src/macro_defs.rs: the loop of `expand_body`.
pub mod Total
pub mod Plain
use mathlib.Core.List.{reverse}
use co.Prelude.{
  ℕ, zero, suc, Bool, true, false, not, ◌&&◌, ◌||◌, List, [], ◌∷◌, ◌++◌, Bytes, codes, equal,
  Option, none, some, head_is, drop, length, ◌==◌, if◌then◌else◌,
}
use co.Prelude.Outcome.{Outcome, ok, out_of_fuel, ◌>>=◌}
use co.Macros.Body.{
  Tokens, Call, arg_at, va_args_from, is_whitespace_token, skip_whitespace, lookahead_hash_hash,
  va_opt_content, is_empty, va_args_present, first_pp_token,
}
use co.Macros.Paste.{
  Buffer, push_str, append_with_paste_guard, pop_blanks, pop_comma, truncate_by, strip_blue_paint,
  extract_trailing_ident,
}
use co.Macros.Stringify.{stringify_arg}
use co.Macros.Token
use co.Macros.Token.{MacroBodyToken, ident, param, va_args, hash, hash_hash, token_text, position}

-- `result` and the three `pending_…` variables.
pub record BodyState : Type 0 where
  pub result : Buffer
  pub pending_param_idx : Option ℕ
  pub pending_va_args : Bool
  pub pending_va_opt_absent : Bool

unfoldable pub fresh : BodyState
fresh = record {
  result = [];
  pending_param_idx = none;
  pending_va_args = false;
  pending_va_opt_absent = false;
}

abbrev pub push_text : BodyState → Bytes → BodyState
push_text st text = record st { result = push_str st.result text }

-- Pasted variable arguments: if there are none, a comma in front of them goes too.
unfoldable pub paste_va_args : Buffer → Bytes → Buffer
unfolding pop_blanks pop_comma
paste_va_args buf [] = pop_comma (pop_blanks buf)
paste_va_args buf (c ∷ text) = push_str buf (c ∷ text)

-- The first byte of the token behind a parameter, for the paste guard.
unfoldable pub next_byte : Tokens → Outcome (Option ℕ)
next_byte [] = ok none
next_byte (t ∷ ts) = token_text t >>= λ s. ok (elim s [ [] ↦ none | c ∷ r ↦ some c ])

abbrev pub va_opt_name : Bytes
va_opt_name = codes "__VA_OPT__"

spaced : Buffer → Buffer
spaced [] = []
spaced (d ∷ buf) = if d == b'\n' then d ∷ buf else b' ' ∷ d ∷ buf

-- Two operands that are not pasted keep a space between them.
unfoldable pub separate : Buffer → Buffer
unfolding pop_blanks spaced
separate buf = spaced (pop_blanks buf)

module _ (c : Call) where
  -- `is_variadic && has_named_variadic && idx == params.len() - 1`, for a macro with a parameter.
  abbrev pub is_rest_param : ℕ → Bool
  is_rest_param idx = c.is_variadic && c.has_named_variadic && suc idx == length c.params

  -- The argument of a parameter, from the raw or from the expanded arguments.
  unfoldable pub arg_text : ℕ → List Bytes → Bytes
  arg_text idx args = if is_rest_param idx then va_args_from idx args else arg_at args idx

  unfoldable pub va_text : List Bytes → Bytes
  va_text args = va_args_from (length c.params) args

  unfoldable pub paste_left_param : Buffer → ℕ → Buffer
  unfolding paste_va_args
  paste_left_param buf idx =
      if is_rest_param idx
      then paste_va_args buf (strip_blue_paint (va_args_from idx c.args))
      else push_str buf (strip_blue_paint (arg_at c.args idx))

  -- An empty right operand leaves a space between its neighbours.
  unfoldable pub push_operand : Bool → Buffer → Bytes → Buffer
  push_operand is_last buf [] = if not is_last && not (is_empty buf) then b' ' ∷ buf else buf
  push_operand is_last buf (d ∷ text) = push_str buf (d ∷ text)

  unfoldable pub paste_right_param : Bool → Buffer → ℕ → Buffer
  unfolding paste_va_args push_operand
  paste_right_param is_last buf idx =
      if is_rest_param idx
      then paste_va_args buf (strip_blue_paint (va_args_from idx c.args))
      else push_operand is_last buf (strip_blue_paint (arg_at c.args idx))

  -- The left operand of `##` where it is the last word of the text so far.
  unfoldable pub paste_trailing_ident : Buffer → Option Bytes → Outcome Buffer
  paste_trailing_ident buf none = ok buf
  paste_trailing_ident buf (some left_ident) =
      if equal left_ident (codes "__VA_ARGS__") && c.is_variadic
      then (truncate_by 11 buf >>= λ before.
          ok (paste_va_args before (strip_blue_paint (va_text c.args))))
      else elim (position c.params left_ident) [
        | none ↦ ok buf
        | some idx ↦ truncate_by (length left_ident) buf >>= λ before.
            ok (push_str before (strip_blue_paint (arg_at c.args idx)))
      ]

  unfoldable pub paste_pending : BodyState → Option ℕ → Outcome BodyState
  unfolding paste_left_param paste_trailing_ident extract_trailing_ident
  paste_pending st (some idx) =
      ok (record st { result = paste_left_param st.result idx; pending_param_idx = none })
  paste_pending st none = extract_trailing_ident (pop_blanks st.result) >>= λ left.
      paste_trailing_ident (pop_blanks st.result) left >>= λ buf. ok (record st { result = buf })

  -- The left side of `##`.
  unfoldable pub paste_left : BodyState → Outcome BodyState
  unfolding separate paste_va_args va_text paste_pending
  paste_left st =
      if st.pending_va_opt_absent
      then ok (record st { result = separate st.result; pending_va_opt_absent = false })
      else if st.pending_va_args
      then ok (record st {
        result = paste_va_args st.result (strip_blue_paint (va_text c.args));
        pending_va_args = false;
      })
      else paste_pending st st.pending_param_idx

  module _ (expand_inner : Tokens → Outcome Bytes) where
    -- The content of `__VA_OPT__`, or nothing.
    unfoldable pub va_opt_text : Tokens → Outcome Bytes
    va_opt_text inside = if va_args_present c then expand_inner inside else ok []

    -- The right side of `##`, from the token that stands there.
    unfoldable pub paste_right : BodyState → MacroBodyToken → Tokens → Outcome (BodyState × Tokens)
    unfolding paste_right_param paste_va_args va_text va_opt_text
    paste_right st (param idx) ts = ok (
      record st { result = paste_right_param (elim ts [ [] ↦ true | _ ↦ false ]) st.result idx },
      ts,
    )
    paste_right st va_args ts =
        ok (record st { result = paste_va_args st.result (strip_blue_paint (va_text c.args)) }, ts)
    paste_right st (ident id) ts =
        let plain = ok (push_text st id, ts) in
        if equal id va_opt_name && c.is_variadic
        then elim (va_opt_content ts) [
          | none ↦ plain
          | some (inside, after) ↦
              va_opt_text inside >>= λ inner. ok (push_text st (first_pp_token inner), after)
        ]
        else plain
    paste_right st t ts = token_text t >>= λ text. ok (push_text st text, ts)

    unfoldable pub paste_operand : BodyState → Tokens → Outcome (BodyState × Tokens)
    unfolding paste_right
    paste_operand st [] = ok (st, [])
    paste_operand st (t ∷ ts) = paste_right st t ts

    -- The operand of `#`, from the token that stands there; `after` is the text behind the `#`.
    unfoldable pub stringify_operand : BodyState → Tokens → Tokens → Outcome (BodyState × Tokens)
    unfolding arg_text va_text
    stringify_operand st after (param idx ∷ ts) =
        stringify_arg (arg_text idx c.args) >>= λ s. ok (push_text st (b'"' ∷ (s ++ b'"' ∷ [])), ts)
    stringify_operand st after (va_args ∷ ts) =
        stringify_arg (va_text c.args) >>= λ s. ok (push_text st (b'"' ∷ (s ++ b'"' ∷ [])), ts)
    stringify_operand st after (ident name ∷ ts) = ok (push_text st (b'#' ∷ name), ts)
    stringify_operand st after _ = ok (push_text st (b'#' ∷ []), after)

    -- Standing alone, an argument is pushed expanded; in front of `##` it waits.
    unfoldable pub standalone :
        BodyState → BodyState → Bytes → Tokens → Outcome (BodyState × Tokens)
    standalone st waiting text ts =
        if lookahead_hash_hash ts
        then ok (waiting, ts)
        else (next_byte ts >>= λ next.
            ok (record st { result = append_with_paste_guard st.result text next }, ts))

    unfoldable pub body_ident :
        BodyState → Bytes → Option (Tokens × Tokens) → Tokens → Outcome (BodyState × Tokens)
    unfolding va_opt_text
    body_ident st s none ts = ok (push_text st s, ts)
    body_ident st s (some (inside, after)) ts =
        if lookahead_hash_hash after && not (va_args_present c)
        then ok (record st { pending_va_opt_absent = true }, after)
        else (va_opt_text inside >>= λ inner. ok (push_text st inner, after))

    -- One round of the loop.
    unfoldable pub body_round : BodyState → MacroBodyToken → Tokens → Outcome (BodyState × Tokens)
    unfolding paste_left paste_operand stringify_operand arg_text va_text standalone next_byte
        body_ident
    body_round st hash_hash ts = paste_left st >>= λ st'. paste_operand st' (skip_whitespace ts)
    body_round st hash ts = stringify_operand st ts (skip_whitespace ts)
    body_round st (param idx) ts =
        standalone st (record st { pending_param_idx = some idx }) (arg_text idx c.expanded_args) ts
    body_round st va_args ts =
        standalone st (record st { pending_va_args = true }) (va_text c.expanded_args) ts
    body_round st (ident s) ts =
        body_ident st s (if equal s va_opt_name && c.is_variadic then va_opt_content ts else none)
          ts
    body_round st t ts = token_text t >>= λ text. ok (push_text st text, ts)

  -- The loop; the content of `__VA_OPT__` is expanded by a loop of its own.
  unfoldable pub body_from : ℕ → BodyState → Tokens → Outcome Bytes
  unfolding body_round
  body_from zero st ts = out_of_fuel
  body_from (suc f) st [] = ok (reverse st.result)
  body_from (suc f) st (t ∷ ts) =
      body_round (λ inner. body_from f fresh inner) st t ts >>= λ (st', rest). body_from f st' rest

  -- `expand_body`: every round takes a token or more, and the content of `__VA_OPT__` is shorter.
  unfoldable pub expand_body : Tokens → Outcome Bytes
  unfolding body_from
  expand_body tokens = body_from (suc (length tokens)) fresh tokens
