-- ===== src/Conditionals/Tokenizer/Total.antt =====
-- The tokenizer ends on every input, and on ASCII input with tokens.
use co.Prelude.{
  ℕ, zero, suc, ◌<◌, ◌≤◌, ◌≡◌, refl, true, [], ◌∷◌, Bytes, span, drop, length, length-drop,
  length-span_le, length-append, ltb, ltb→lt, ◌==◌, if_both, arith,
}
use co.Prelude.Outcome.{Settles, settled, crashed, Settles-bind}
use co.Utils.Literals.{literal_prefix_len, skip_literal_bytes}
use co.Utils.Scans.{skip_literal_bytes-lt}
use co.Utils.Text.{bytes_to_str, is_utf8}
use co.Utils.Classes.{is_digit, is_hexdigit, is_whitespace, is_ident_start_byte, is_ident_cont_byte}
use co.Conditionals.Operators.{ExprToken, Tokens}
use co.Conditionals.Tokenizer.{
  scan_number, number_token, is_suffix_byte, char_value, skip_quote, char_token, prefixed_token,
  ident_token, one_char_token, op_token, next_token, tokenize_from, tokenize_expr, is_binary_digit,
}

-- A round leaves no more than `n` bytes, and gives a token at most.
abbrev pub Round : ℕ → Tokens × Bytes → Type 0
Round n p = (length p.0 ≤ 1) × (length p.1 ≤ n)

scan_number-le : (b : ℕ) (r : Bytes) → is_digit b ≡ true → length (scan_number b r).2 ≤ length r
unfolding scan_number
scan_number-le b r h = ground (
  arith,
  length-span_le is_hexdigit (drop 1 r),
  length-span_le is_binary_digit (drop 1 r),
  length-span_le is_digit r,
  length-drop {A = ℕ} 1 r,
)

number_token-Round : (b : ℕ) (r : Bytes) → is_digit b ≡ true → Round (length r) (number_token b r)
unfolding number_token
number_token-Round b r h = (
  omega arith,
  omega (arith, scan_number-le b r h, length-span_le is_suffix_byte (scan_number b r).2),
)

skip_quote-le : (r : Bytes) → length (skip_quote r) ≤ length r
unfolding skip_quote
skip_quote-le [] = omega arith
skip_quote-le (c ∷ r) = ground arith

char_value-le : (r : Bytes) → length (char_value r).1 ≤ length r
unfolding char_value
char_value-le [] = omega arith
char_value-le (c ∷ []) = ground arith
char_value-le (c ∷ e ∷ r) = ground arith

char_token-Round : (r : Bytes) → Round (length r) (char_token r)
unfolding char_token
char_token-Round r = (omega arith, omega (arith, skip_quote-le (char_value r).1, char_value-le r))

skip_literal_bytes-le : (q : ℕ) (s : Bytes) → length (skip_literal_bytes q s).1 ≤ length s
skip_literal_bytes-le q [] = unfold skip_literal_bytes in omega arith
skip_literal_bytes-le q (c ∷ s) = omega (arith, skip_literal_bytes-lt q c s)

prefixed_token-Round : (n b : ℕ) (r : Bytes) → 0 < n → Round (length r) (prefixed_token n (b ∷ r))
unfolding prefixed_token
prefixed_token-Round n b r h =
    let s = drop n (b ∷ r) in
    ground (
      arith,
      char_token-Round (drop 1 s),
      skip_literal_bytes-le b'"' s,
      length-drop {A = ℕ} n (b ∷ r),
      length-drop {A = ℕ} 1 s,
    )

one_char_token-le : (b : ℕ) → length (one_char_token b) ≤ 1
unfolding one_char_token
one_char_token-le b = ground arith

op_token-Round : (b : ℕ) (r : Bytes) → Round (length r) (op_token b r)
unfolding op_token
op_token-Round b [] = (one_char_token-le b, omega arith)
op_token-Round b (c ∷ r) = ground (arith, one_char_token-le b)

bytes_to_str-Settles : (s : Bytes) → Settles (λ t. t ≡ s) (bytes_to_str s)
unfolding bytes_to_str
bytes_to_str-Settles s =
    if_both (Settles (λ t. t ≡ s)) (is_utf8 s) (λ h. settled refl) (λ h. crashed)

ident_token-Settles : (b : ℕ) (r : Bytes) → Settles (Round (length r)) (ident_token b r)
unfolding ident_token
ident_token-Settles b r =
    Settles-bind (bytes_to_str-Settles (b ∷ (span is_ident_cont_byte r).0))
      λ name e. settled (omega arith, length-span_le is_ident_cont_byte r)

pub next_token-Settles : (b : ℕ) (r : Bytes) → Settles (Round (length r)) (next_token b r)
unfolding next_token
next_token-Settles b r =
    let P = Settles (Round (length r)) in
    let n = literal_prefix_len (b ∷ r) in
    if_both P (is_whitespace b) (λ h. settled (omega arith, omega arith))
      λ _.
        if_both P (ltb 0 n) (λ h. settled (prefixed_token-Round n b r (ltb→lt 0 n h)))
          λ _.
            if_both P (is_digit b) (λ h. settled (number_token-Round b r h))
              λ _.
                if_both P (b == b'\'') (λ h. settled (char_token-Round r))
                  λ _.
                    if_both P (is_ident_start_byte b) (λ h. ident_token-Settles b r)
                      (λ h. settled (op_token-Round b r))

tokenize_from-Settles :
    (f : ℕ) (s : Bytes) → length s < f → Settles (λ ts. length ts ≤ length s) (tokenize_from f s)
unfolding tokenize_from
tokenize_from-Settles zero s h = absurd (omega arith)
tokenize_from-Settles (suc f) [] h = settled (omega arith)
tokenize_from-Settles (suc f) (b ∷ r) h = Settles-bind (next_token-Settles b r) λ (ts, rest) k.
    Settles-bind (tokenize_from-Settles f rest (omega arith))
      λ more m. settled (omega (arith, length-append {A = ExprToken} ts more))

-- On any bytes the tokenizer ends: with at most as many tokens as there are bytes, or with the
-- panic of `bytes_to_str`. The fuel never runs out.
pub tokenize_expr-Settles : (s : Bytes) → Settles (λ ts. length ts ≤ length s) (tokenize_expr s)
unfolding tokenize_expr
tokenize_expr-Settles s = tokenize_from-Settles (suc (length s)) s (omega arith)
