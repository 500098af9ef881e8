-- ===== src/Macros/Substitute/Plain.antt =====
-- `expand_body` on a body with no parameter and no operator, against the shortcut of its callers.
use mathlib.Core.List.{reverse, reverse-append, reverse-reverse}
use co.Prelude.{
  ℕ, zero, suc, ◌<◌, ◌≡◌, refl, sym, ap, ◌∙◌, Bool, false, ◌&&◌, [], ◌∷◌, ◌++◌, append_assoc,
  append-nil, Bytes, equal, if◌then◌else◌, Option, none, length, arith,
}
use co.Prelude.Outcome.{Outcome, ok, panicked, out_of_fuel, ◌>>=◌, Settles, settled, crashed}
use co.Macros.Body.{Tokens, Call, va_opt_content}
use co.Macros.Paste.{Buffer, push_str}
use co.Macros.Substitute.{
  BodyState, fresh, push_text, va_opt_name, body_ident, body_round, body_from, expand_body,
}
use co.Macros.Table.{MacroDef, has_stringify_or_paste, macro_def_from_parts}
use co.Macros.Token.{
  MacroBodyToken, ident, param, va_args, hash, hash_hash, lparen, rparen, comma, number, string_lit,
  char_lit, other, token_text, tokenize_macro_body, resolve_params,
}
use co.Macros.Token.Cuts.{tokens_text}
use co.Macros.Token.Params.{resolve_params_no_params}
use co.Macros.Token.Text.{tokenize_macro_body-text}

ok_inj {ℓ} : {A : Type ℓ} {a b : A} → ok a ≡ ok b → a ≡ b
ok_inj h = cc

pushed :
    (st : BodyState) (ts : Tokens) {x y : Bytes}
    → ok x ≡ ok y
    → ◌≡◌ {A = Outcome (BodyState × Tokens)} (ok (push_text st x, ts)) (ok (push_text st y, ts))
pushed st ts e = ap (λ o. o >>= λ z. ok (push_text st z, ts)) e

never {ℓ} :
    {A : Type ℓ} (b v : Bool) (o : Option A) → v ≡ false → (if b && v then o else none) ≡ none
never b v o h = ground arith

-- The texts of a list of tokens are that of the first one with those of the others behind it.
tokens_text-uncons :
    (t : MacroBodyToken) (ts : Tokens) (s : Bytes)
    → tokens_text (t ∷ ts) ≡ ok s
    → (x : Bytes) × (y : Bytes) × (token_text t ≡ ok x) × (tokens_text ts ≡ ok y) × (x ++ y ≡ s)
unfolding tokens_text
tokens_text-uncons t ts s h = split (token_text t) (tokens_text ts) h
  where
    split :
        (a b : Outcome Bytes)
        → (a >>= λ x. b >>= λ more. ok (x ++ more)) ≡ ok s
        → (x : Bytes) × (y : Bytes) × (a ≡ ok x) × (b ≡ ok y) × (x ++ y ≡ s)
    split (ok x) (ok y) e = (x, y, refl, refl, cc)
    split (ok x) panicked e = cc
    split (ok x) out_of_fuel e = cc
    split panicked b e = cc
    split out_of_fuel b e = cc

has_stringify_or_paste-tail :
    (t : MacroBodyToken) (ts : Tokens)
    → has_stringify_or_paste (t ∷ ts) ≡ false
    → has_stringify_or_paste ts ≡ false
unfolding has_stringify_or_paste
has_stringify_or_paste-tail hash ts h = cc
has_stringify_or_paste-tail hash_hash ts h = cc
has_stringify_or_paste-tail (param idx) ts h = h
has_stringify_or_paste-tail va_args ts h = h
has_stringify_or_paste-tail (ident s) ts h = h
has_stringify_or_paste-tail (number s) ts h = h
has_stringify_or_paste-tail (string_lit s) ts h = h
has_stringify_or_paste-tail (char_lit s) ts h = h
has_stringify_or_paste-tail (other s) ts h = h
has_stringify_or_paste-tail lparen ts h = h
has_stringify_or_paste-tail rparen ts h = h
has_stringify_or_paste-tail comma ts h = h

pub reverse-push_str :
    (buf : Buffer) (x y : Bytes) → reverse (push_str buf x) ++ y ≡ reverse buf ++ (x ++ y)
reverse-push_str buf x y =
    ap (λ s. s ++ y)
      (reverse-append (reverse x) buf ∙ ap (λ s. reverse buf ++ s) (reverse-reverse x))
    ∙ append_assoc (reverse buf) x y

module _ (c : Call) (fixed : c.is_variadic ≡ false) where
  body_round-plain :
      (expand_inner : Tokens → Outcome Bytes) (st : BodyState) (t : MacroBodyToken) (ts : Tokens)
      (x : Bytes)
      → has_stringify_or_paste (t ∷ ts) ≡ false
      → token_text t ≡ ok x
      → body_round c expand_inner st t ts ≡ ok (push_text st x, ts)
  unfolding body_round token_text has_stringify_or_paste
  body_round-plain e st hash ts x h k = cc
  body_round-plain e st hash_hash ts x h k = cc
  body_round-plain e st (param idx) ts x h k = cc
  body_round-plain e st va_args ts x h k = cc
  body_round-plain e st (ident s) ts x h k =
      ap (λ o. body_ident c e st s o ts)
        (never (equal s va_opt_name) c.is_variadic (va_opt_content ts) fixed)
      ∙ pushed st ts k
  body_round-plain e st (number s) ts x h k = pushed st ts k
  body_round-plain e st (string_lit s) ts x h k = pushed st ts k
  body_round-plain e st (char_lit s) ts x h k = pushed st ts k
  body_round-plain e st (other s) ts x h k = pushed st ts k
  body_round-plain e st lparen ts x h k = pushed st ts k
  body_round-plain e st rparen ts x h k = pushed st ts k
  body_round-plain e st comma ts x h k = pushed st ts k

  body_from-plain :
      (f : ℕ) (st : BodyState) (ts : Tokens) (s : Bytes)
      → length ts < f
      → has_stringify_or_paste ts ≡ false
      → tokens_text ts ≡ ok s
      → body_from c f st ts ≡ ok (reverse st.result ++ s)
  unfolding body_from tokens_text
  body_from-plain zero st ts s h p k = absurd (omega arith)
  body_from-plain (suc f) st [] s h p k =
      ap ok (sym (append-nil (reverse st.result)))
      ∙ ap (λ o. o >>= λ x. ok (reverse st.result ++ x)) k
  body_from-plain (suc f) st (t ∷ ts) s h p k =
      let (x, y, e, more, join) = tokens_text-uncons t ts s k in
      rw (body_round-plain (λ inner. body_from c f fresh inner) st t ts x p e) (
        body_from-plain f (push_text st x) ts y (omega arith) (has_stringify_or_paste-tail t ts p)
          more
        ∙ ap ok (reverse-push_str st.result x y ∙ ap (λ z. reverse st.result ++ z) join))

  expand_body-plain :
      (ts : Tokens) (s : Bytes)
      → has_stringify_or_paste ts ≡ false
      → tokens_text ts ≡ ok s
      → expand_body c ts ≡ ok s
  unfolding expand_body fresh
  expand_body-plain ts s p k = body_from-plain (suc (length ts)) fresh ts s (omega arith) p k

-- A macro without parameters, whose body has no `#` and no `##`, has its body text for an
-- expansion: the shortcut around `expand_body` changes no result.
pub expand_body-shortcut :
    (is_xid_start is_xid_continue : ℕ → Bool) (name body : Bytes) (function_like named : Bool)
    (mac : MacroDef) (c : Call)
    → macro_def_from_parts is_xid_start is_xid_continue name function_like [] false named body
      ≡ ok mac
    → mac.has_stringify_or_paste ≡ false
    → c.is_variadic ≡ false
    → expand_body c mac.tokenized_body ≡ ok mac.body
unfolding macro_def_from_parts
expand_body-shortcut xs xc name body function_like named mac c h p fixed =
    built (tokenize_macro_body xs xc body) (tokenize_macro_body-text xs xc body) h
  where
    built :
        (o : Outcome Tokens)
        → Settles (λ ts. tokens_text ts ≡ ok body) o
        → (o >>= λ raw. ok (record {
          name = name;
          is_function_like = function_like;
          params = [];
          is_variadic = false;
          has_named_variadic = named;
          body = body;
          tokenized_body = resolve_params raw [] false;
          has_stringify_or_paste = has_stringify_or_paste raw;
        }))
          ≡ ok mac
        → expand_body c mac.tokenized_body ≡ ok mac.body
    built o (settled {a = raw} k) e =
        let same = ok_inj e in
        rw
          (
            sym (ap (λ m. m.tokenized_body) same),
            sym (ap (λ m. m.body) same),
            resolve_params_no_params raw,
          )
          (expand_body-plain c fixed raw body (ap (λ m. m.has_stringify_or_paste) same ∙ p) k)
    built o crashed e = cc
