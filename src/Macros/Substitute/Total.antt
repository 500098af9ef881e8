-- ===== src/Macros/Substitute/Total.antt =====
-- Termination of the loop of `expand_body`.
use mathlib.Core.List.{reverse}
use co.Prelude.{
  ℕ, zero, suc, ◌<◌, ◌≤◌, subst, true, not, ◌&&◌, [], ◌∷◌, Bytes, equal, codes, Option, none, some,
  length, head_is, drop, span, ◌==◌, if◌then◌else◌, if_both, arith, inl, inr, Option-cases,
}
use co.Prelude.Outcome.{Outcome, Settles, settled, crashed, Ends, Settles-bind}
use co.Directives.Scan.Laws.{bytes_to_str-Settles}
use co.Macros.Body.{
  Tokens, Call, skip_whitespace, lookahead_hash_hash, va_opt_content, va_args_present,
}
use co.Macros.Body.Laws.{length-skip_whitespace, IsInside, va_opt_content-IsInside}
use co.Macros.Paste.{
  Buffer, blue_paint_marker, truncate_by, trailing_word, extract_trailing_ident, pop_blanks,
}
use co.Macros.Stringify.Laws.{stringify_arg-Ends}
use co.Macros.Substitute.{
  BodyState, fresh, arg_text, va_text, next_byte, va_opt_name, paste_trailing_ident, paste_pending,
  paste_left, va_opt_text, paste_right, paste_operand, stringify_operand, standalone, body_ident,
  body_round, body_from, expand_body,
}
use co.Macros.Token.{
  MacroBodyToken, ident, param, va_args, hash, hash_hash, lparen, rparen, comma, number, string_lit,
  char_lit, other, token_text, position,
}
use co.Utils.Classes.{is_ident_start_byte, is_ident_cont_byte}
use co.Utils.Text.{is_utf8, strip, space_len_back}

trailing_word-Ends : (word before : Bytes) → Ends (trailing_word (word, before))
unfolding trailing_word
trailing_word-Ends word before =
    if_both Ends (head_is is_ident_start_byte (reverse word))
      (λ _.
        if_both Ends (head_is (λ c. c == blue_paint_marker) before) (λ _. settled tt)
          λ _. Settles-bind (bytes_to_str-Settles (reverse word)) λ _ _. settled tt)
      λ _. settled tt

pub extract_trailing_ident-Ends : (buf : Buffer) → Ends (extract_trailing_ident buf)
unfolding extract_trailing_ident
extract_trailing_ident-Ends buf =
    let cut = span is_ident_cont_byte (strip space_len_back (length buf) buf) in
    trailing_word-Ends cut.0 cut.1

truncate_by-Ends : (n : ℕ) (buf : Buffer) → Ends (truncate_by n buf)
unfolding truncate_by
truncate_by-Ends n buf =
    if_both Ends (is_utf8 (reverse (drop n buf))) (λ _. settled tt) (λ _. crashed)

token_text-Ends : (t : MacroBodyToken) → Ends (token_text t)
unfolding token_text
token_text-Ends (ident s) = settled tt
token_text-Ends (number s) = settled tt
token_text-Ends (string_lit s) = settled tt
token_text-Ends (char_lit s) = settled tt
token_text-Ends (other s) = settled tt
token_text-Ends hash = settled tt
token_text-Ends hash_hash = settled tt
token_text-Ends lparen = settled tt
token_text-Ends rparen = settled tt
token_text-Ends comma = settled tt
token_text-Ends (param idx) = crashed
token_text-Ends va_args = crashed

next_byte-Ends : (ts : Tokens) → Ends (next_byte ts)
unfolding next_byte
next_byte-Ends [] = settled tt
next_byte-Ends (t ∷ ts) = Settles-bind (token_text-Ends t) λ _ _. settled tt

-- What a round leaves is no longer than `n` tokens.
abbrev Leaves : ℕ → BodyState × Tokens → Type 0
Leaves n p = length p.1 ≤ n

module _ (c : Call) where
  paste_trailing_ident-Ends :
      (buf : Buffer) (o : Option Bytes) → Ends (paste_trailing_ident c buf o)
  unfolding paste_trailing_ident
  paste_trailing_ident-Ends buf none = settled tt
  paste_trailing_ident-Ends buf (some w) =
      if_both Ends (equal w (codes "__VA_ARGS__") && c.is_variadic)
        (λ _. Settles-bind (truncate_by-Ends 11 buf) λ _ _. settled tt)
        (λ _. elim (Option-cases (position c.params w)) [
          | inl e ↦ rw e (settled tt)
          | inr (idx, e) ↦ rw e (Settles-bind (truncate_by-Ends (length w) buf) λ _ _. settled tt)
        ])

  paste_pending-Ends : (st : BodyState) (o : Option ℕ) → Ends (paste_pending c st o)
  unfolding paste_pending
  paste_pending-Ends st (some idx) = settled tt
  paste_pending-Ends st none =
      Settles-bind (extract_trailing_ident-Ends (pop_blanks st.result)) λ left _.
        Settles-bind (paste_trailing_ident-Ends (pop_blanks st.result) left) λ _ _. settled tt

  paste_left-Ends : (st : BodyState) → Ends (paste_left c st)
  unfolding paste_left
  paste_left-Ends st =
      if_both Ends st.pending_va_opt_absent (λ _. settled tt)
        (λ _.
          if_both Ends st.pending_va_args (λ _. settled tt)
            (λ _. paste_pending-Ends st st.pending_param_idx))

  module _ (expand_inner : Tokens → Outcome Bytes) (n : ℕ)
      (inner_ends : (ts : Tokens) → length ts ≤ n → Ends (expand_inner ts)) where
    va_opt_text-Ends : (ts : Tokens) → length ts ≤ n → Ends (va_opt_text c expand_inner ts)
    unfolding va_opt_text
    va_opt_text-Ends ts h =
        if_both Ends (va_args_present c) (λ _. inner_ends ts h) (λ _. settled tt)

    paste_right-Leaves :
        (st : BodyState) (t : MacroBodyToken) (ts : Tokens)
        → length ts ≤ n
        → Settles (Leaves n) (paste_right c expand_inner st t ts)
    unfolding paste_right token_text
    paste_right-Leaves st (param idx) ts h = settled h
    paste_right-Leaves st va_args ts h = settled h
    paste_right-Leaves st (ident id) ts h =
        if_both (Settles (Leaves n)) (equal id va_opt_name && c.is_variadic)
          (λ _. elim (Option-cases (va_opt_content ts)) [
            | inl e ↦ rw e (settled h)
            | inr ((inside, after), e) ↦
                let k = subst (IsInside (length ts)) e (va_opt_content-IsInside ts) in
                rw e (
                  Settles-bind (va_opt_text-Ends inside (omega arith)) λ _ _. settled (omega arith))
          ])
          λ _. settled h
    paste_right-Leaves st (number s) ts h = settled h
    paste_right-Leaves st (string_lit s) ts h = settled h
    paste_right-Leaves st (char_lit s) ts h = settled h
    paste_right-Leaves st (other s) ts h = settled h
    paste_right-Leaves st hash ts h = settled h
    paste_right-Leaves st hash_hash ts h = settled h
    paste_right-Leaves st lparen ts h = settled h
    paste_right-Leaves st rparen ts h = settled h
    paste_right-Leaves st comma ts h = settled h

    paste_operand-Leaves :
        (st : BodyState) (ts : Tokens)
        → length ts ≤ n
        → Settles (Leaves n) (paste_operand c expand_inner st ts)
    unfolding paste_operand
    paste_operand-Leaves st [] h = settled h
    paste_operand-Leaves st (t ∷ ts) h = paste_right-Leaves st t ts (omega arith)

    stringify_operand-Leaves :
        (st : BodyState) (after ts : Tokens)
        → length after ≤ n
        → length ts ≤ n
        → Settles (Leaves n) (stringify_operand c expand_inner st after ts)
    unfolding stringify_operand
    stringify_operand-Leaves st after [] k h = settled k
    stringify_operand-Leaves st after (param idx ∷ ts) k h =
        Settles-bind (stringify_arg-Ends (arg_text c idx c.args)) λ _ _. settled (omega arith)
    stringify_operand-Leaves st after (va_args ∷ ts) k h =
        Settles-bind (stringify_arg-Ends (va_text c c.args)) λ _ _. settled (omega arith)
    stringify_operand-Leaves st after (ident name ∷ ts) k h = settled (omega arith)
    stringify_operand-Leaves st after (number s ∷ ts) k h = settled k
    stringify_operand-Leaves st after (string_lit s ∷ ts) k h = settled k
    stringify_operand-Leaves st after (char_lit s ∷ ts) k h = settled k
    stringify_operand-Leaves st after (other s ∷ ts) k h = settled k
    stringify_operand-Leaves st after (hash ∷ ts) k h = settled k
    stringify_operand-Leaves st after (hash_hash ∷ ts) k h = settled k
    stringify_operand-Leaves st after (lparen ∷ ts) k h = settled k
    stringify_operand-Leaves st after (rparen ∷ ts) k h = settled k
    stringify_operand-Leaves st after (comma ∷ ts) k h = settled k

    standalone-Leaves :
        (st waiting : BodyState) (text : Bytes) (ts : Tokens)
        → length ts ≤ n
        → Settles (Leaves n) (standalone c expand_inner st waiting text ts)
    unfolding standalone
    standalone-Leaves st waiting text ts h =
        if_both (Settles (Leaves n)) (lookahead_hash_hash ts) (λ _. settled h)
          λ _. Settles-bind (next_byte-Ends ts) λ _ _. settled h

    body_ident-Leaves :
        (st : BodyState) (s : Bytes) (o : Option (Tokens × Tokens)) (ts : Tokens)
        → length ts ≤ n
        → IsInside (length ts) o
        → Settles (Leaves n) (body_ident c expand_inner st s o ts)
    unfolding body_ident
    body_ident-Leaves st s none ts h k = settled h
    body_ident-Leaves st s (some (inside, after)) ts h k =
        if_both (Settles (Leaves n)) (lookahead_hash_hash after && not (va_args_present c))
          (λ _. settled (omega arith))
          λ _. Settles-bind (va_opt_text-Ends inside (omega arith)) λ _ _. settled (omega arith)

    body_round-Leaves :
        (st : BodyState) (t : MacroBodyToken) (ts : Tokens)
        → length ts ≤ n
        → Settles (Leaves n) (body_round c expand_inner st t ts)
    unfolding body_round token_text
    body_round-Leaves st hash_hash ts h = Settles-bind (paste_left-Ends st) λ st' _.
        paste_operand-Leaves st' (skip_whitespace ts) (omega (arith, length-skip_whitespace ts))
    body_round-Leaves st hash ts h =
        stringify_operand-Leaves st ts (skip_whitespace ts) h
          (omega (arith, length-skip_whitespace ts))
    body_round-Leaves st (param idx) ts h =
        standalone-Leaves st (record st { pending_param_idx = some idx })
          (arg_text c idx c.expanded_args) ts h
    body_round-Leaves st va_args ts h =
        standalone-Leaves st (record st { pending_va_args = true }) (va_text c c.expanded_args) ts h
    body_round-Leaves st (ident s) ts h =
        body_ident-Leaves st s
          (if equal s va_opt_name && c.is_variadic then va_opt_content ts else none) ts h
          (if_both (IsInside (length ts)) (equal s va_opt_name && c.is_variadic)
            (λ _. va_opt_content-IsInside ts) (λ _. tt))
    body_round-Leaves st (number s) ts h = settled h
    body_round-Leaves st (string_lit s) ts h = settled h
    body_round-Leaves st (char_lit s) ts h = settled h
    body_round-Leaves st (other s) ts h = settled h
    body_round-Leaves st lparen ts h = settled h
    body_round-Leaves st rparen ts h = settled h
    body_round-Leaves st comma ts h = settled h

  body_from-Ends :
      (f : ℕ) (st : BodyState) (ts : Tokens) → length ts < f → Ends (body_from c f st ts)
  unfolding body_from
  body_from-Ends zero st ts h = absurd (omega arith)
  body_from-Ends (suc f) st [] h = settled tt
  body_from-Ends (suc f) st (t ∷ ts) h =
      Settles-bind
        (body_round-Leaves (λ inner. body_from c f fresh inner) (length ts)
          (λ inner k. body_from-Ends f fresh inner (omega arith)) st t ts (omega arith))
        λ p k. body_from-Ends f p.0 p.1 (omega arith)

  pub expand_body-Ends : (ts : Tokens) → Ends (expand_body c ts)
  unfolding expand_body
  expand_body-Ends ts = body_from-Ends (suc (length ts)) fresh ts (omega arith)
