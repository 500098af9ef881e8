-- ===== src/Conditionals/Tokenizer/Ascii.antt =====
-- On ASCII text an `#if` expression is evaluated without a panic.
use co.Prelude.{
  ℕ, zero, suc, ◌<◌, ◌≤◌, ◌≡◌, refl, Bool, false, [], ◌∷◌, ◌++◌, Bytes, span, drop, length,
  length-append, ltb, ◌==◌, if_both, arith,
}
use co.Prelude.Outcome.{Yields-Settles, ok, Yields, Yields-bind}
use co.Utils.Literals.{literal_prefix_len}
use co.Utils.Text.{trim}
use co.Utils.Ascii.{
  IsAscii, IsAscii-tail, span-IsAscii, drop-IsAscii, skip-IsAscii, bytes_to_str-IsAscii,
  trim-IsAscii,
}
use co.Utils.Classes.{is_digit, is_hexdigit, is_whitespace, is_ident_start_byte, is_ident_cont_byte}
use co.Conditionals.Operators.{ExprToken, Tokens}
use co.Conditionals.Parser.{parse_tokens}
use co.Conditionals.Parser.Total.{parse_tokens_total}
use co.Conditionals.Tokenizer.{
  scan_number, number_token, is_suffix_byte, char_value, skip_quote, char_token, prefixed_token,
  ident_token, op_token, next_token, tokenize_from, tokenize_expr, is_binary_digit, eval_trimmed,
  eval_const_expr,
}
use co.Conditionals.Tokenizer.Total.{next_token-Settles}

scan_number-IsAscii : (b : ℕ) (r : Bytes) → IsAscii (b ∷ r) → IsAscii (scan_number b r).2
unfolding scan_number
scan_number-IsAscii b r h = ground (
  arith,
  IsAscii-tail b r h,
  drop-IsAscii 1 r,
  span-IsAscii is_hexdigit (drop 1 r),
  span-IsAscii is_binary_digit (drop 1 r),
  span-IsAscii is_digit r,
  span-IsAscii is_digit (b ∷ r),
)

number_token-IsAscii : (b : ℕ) (r : Bytes) → IsAscii (b ∷ r) → IsAscii (number_token b r).1
unfolding number_token
number_token-IsAscii b r h =
    (span-IsAscii is_suffix_byte (scan_number b r).2 (scan_number-IsAscii b r h)).1

skip_quote-IsAscii : (r : Bytes) → IsAscii r → IsAscii (skip_quote r)
unfolding skip_quote
skip_quote-IsAscii [] h = refl
skip_quote-IsAscii (c ∷ r) h = ground arith

char_value-IsAscii : (r : Bytes) → IsAscii r → IsAscii (char_value r).1
unfolding char_value
char_value-IsAscii [] h = refl
char_value-IsAscii (c ∷ []) h = ground arith
char_value-IsAscii (c ∷ e ∷ r) h = ground arith

char_token-IsAscii : (r : Bytes) → IsAscii r → IsAscii (char_token r).1
unfolding char_token
char_token-IsAscii r h = skip_quote-IsAscii (char_value r).1 (char_value-IsAscii r h)

prefixed_token-IsAscii : (n : ℕ) (s : Bytes) → IsAscii s → IsAscii (prefixed_token n s).1
unfolding prefixed_token
prefixed_token-IsAscii n s h = ground (
  arith,
  drop-IsAscii n s h,
  drop-IsAscii 1 (drop n s),
  char_token-IsAscii (drop 1 (drop n s)),
  skip-IsAscii b'"' (drop n s),
)

op_token-IsAscii : (b : ℕ) (r : Bytes) → IsAscii r → IsAscii (op_token b r).1
unfolding op_token
op_token-IsAscii b [] h = refl
op_token-IsAscii b (c ∷ r) h = ground arith

abbrev AsciiRest : Tokens × Bytes → Type 0
AsciiRest p = IsAscii p.1

ident_token-IsAscii : (b : ℕ) (r : Bytes) → IsAscii (b ∷ r) → Yields AsciiRest (ident_token b r)
unfolding ident_token
ident_token-IsAscii b r h =
    let word = span-IsAscii is_ident_cont_byte r (IsAscii-tail b r h) in
    rw (bytes_to_str-IsAscii (b ∷ (span is_ident_cont_byte r).0) (rw (word.0) (ground arith)))
      (_, refl, word.1)

next_token-IsAscii : (b : ℕ) (r : Bytes) → IsAscii (b ∷ r) → Yields AsciiRest (next_token b r)
unfolding next_token
next_token-IsAscii b r h =
    let P = Yields AsciiRest in
    let n = literal_prefix_len (b ∷ r) in
    if_both P (is_whitespace b) (λ _. (_, refl, IsAscii-tail b r h))
      λ _.
        if_both P (ltb 0 n) (λ _. (_, refl, prefixed_token-IsAscii n (b ∷ r) h))
          λ _.
            if_both P (is_digit b) (λ _. (_, refl, number_token-IsAscii b r h))
              λ _.
                if_both P (b == b'\'') (λ _. (_, refl, char_token-IsAscii r (IsAscii-tail b r h)))
                  λ _.
                    if_both P (is_ident_start_byte b) (λ _. ident_token-IsAscii b r h)
                      (λ _. (_, refl, op_token-IsAscii b r (IsAscii-tail b r h)))

tokenize_from-Yields :
    (f : ℕ) (s : Bytes)
    → length s < f
    → IsAscii s
    → Yields (λ ts. length ts ≤ length s) (tokenize_from f s)
unfolding tokenize_from
tokenize_from-Yields zero s h a = absurd (omega arith)
tokenize_from-Yields (suc f) [] h a = ([], refl, omega arith)
tokenize_from-Yields (suc f) (b ∷ r) h a =
    Yields-bind (next_token b r) _
      (Yields-Settles (next_token b r) (next_token-IsAscii b r a) (next_token-Settles b r))
      λ (ts, rest) k.
        Yields-bind (tokenize_from f rest) _ (tokenize_from-Yields f rest (omega arith) k.0)
          λ more m. (ts ++ more, refl, omega (arith, length-append {A = ExprToken} ts more))

eval_trimmed-Yields : (s : Bytes) → IsAscii s → Yields (λ _. Unit {0}) (eval_trimmed s)
unfolding eval_trimmed
eval_trimmed-Yields [] h = (false, refl, tt)
eval_trimmed-Yields (b ∷ s) h =
    Yields-bind (tokenize_expr (b ∷ s)) _
      (unfold tokenize_expr in tokenize_from-Yields (suc (length (b ∷ s))) (b ∷ s) (omega arith) h)
      λ tokens _.
        Yields-bind (parse_tokens tokens) _ (parse_tokens_total tokens)
          λ (result, rest) _. (_, refl, tt)

-- Every ASCII text has a truth value as an `#if` condition, malformed expressions included: no slice
-- panics, and the fuel of the tokenizer and of the parser is enough.
pub eval_const_expr_total : (s : Bytes) → IsAscii s → (b : Bool) × (eval_const_expr s ≡ ok b)
unfolding eval_const_expr
eval_const_expr_total s h =
    let (b, e, _) = eval_trimmed-Yields (trim s) (trim-IsAscii s h) in (b, e)
