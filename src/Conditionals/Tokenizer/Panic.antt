-- ===== src/Conditionals/Tokenizer/Panic.antt =====
-- Where the tokenizer of `#if` expressions panics: character literals that are not ASCII.
use co.Prelude.{ℕ, ◌<◌, ◌≤◌, ◌≡◌, ◌≢◌, refl, ap, true, false, [], ◌∷◌, Bytes, span, ◌==◌, arith}
use co.Prelude.Outcome.{ok, panicked}
use co.Utils.Literals.{literal_prefix_len}
use co.Utils.Text.{bytes_to_str, is_utf8}
use co.Utils.Classes.{is_digit, is_whitespace, is_ident_start_byte, is_ident_cont_byte}
use co.Conditionals.Operators.{num}
use co.Conditionals.Tokenizer.{
  char_value, skip_quote, char_token, ident_token, next_token, tokenize_expr,
}

continuation-not_utf8 : (d : ℕ) (s : Bytes) → 0x80 ≤ d → d < 0xc0 → is_utf8 (d ∷ s) ≡ false
unfolding is_utf8
continuation-not_utf8 d s h k = ground arith

ident_token-continuation : (d : ℕ) (s : Bytes) → 0x80 ≤ d → d < 0xc0 → ident_token d s ≡ panicked
unfolding ident_token bytes_to_str
ident_token-continuation d s h k = rw (continuation-not_utf8 d (span is_ident_cont_byte s).0 h k)

-- The byte classes of a continuation byte.
continuation_class :
    (d : ℕ)
    → 0x80 ≤ d
    → d < 0xc0
    → (is_whitespace d ≡ false)
      × (is_digit d ≡ false)
      × ((d == b'\'') ≡ false)
      × (is_ident_start_byte d ≡ true)
unfolding is_whitespace is_digit is_ident_start_byte
continuation_class d h k = (ground arith, ground arith, ground arith, ground arith)

continuation-literal_prefix_len : (d : ℕ) (s : Bytes) → 0x80 ≤ d → literal_prefix_len (d ∷ s) ≡ 0
unfolding literal_prefix_len
continuation-literal_prefix_len d s h = ground arith

next_token-continuation : (d : ℕ) (s : Bytes) → 0x80 ≤ d → d < 0xc0 → next_token d s ≡ panicked
next_token-continuation d s h k =
    let (white, digit, quote, start) = continuation_class d h k in
    unfold next_token in
    rw (white, continuation-literal_prefix_len d s h, digit, quote, start)
      (ident_token-continuation d s h k)

char_token-continuation :
    (c d : ℕ) (s : Bytes)
    → c ≢ b'\\'
    → 0x80 ≤ d
    → char_token (c ∷ d ∷ s) ≡ (num c false ∷ [], d ∷ s)
unfolding char_token char_value skip_quote
char_token-continuation c d s n h = ground arith

quote-literal_prefix_len : (s : Bytes) → literal_prefix_len (b'\'' ∷ s) ≡ 0
unfolding literal_prefix_len
quote-literal_prefix_len s = refl

next_token-char :
    (c d : ℕ) (s : Bytes)
    → c ≢ b'\\'
    → 0x80 ≤ d
    → next_token b'\'' (c ∷ d ∷ s) ≡ ok (num c false ∷ [], d ∷ s)
unfolding next_token
next_token-char c d s n h =
    rw (quote-literal_prefix_len (c ∷ d ∷ s))
      (unfold is_whitespace is_digit in ap ok (char_token-continuation c d s n h))

-- Behind a quote and one byte other than a backslash, a UTF-8 continuation byte makes the
-- tokenizer panic, whatever comes after: a character literal is read as a single byte, and the
-- next scan starts inside the character.
pub tokenize_expr_panics :
    (c d : ℕ) (s : Bytes)
    → c ≢ b'\\'
    → 0x80 ≤ d
    → d < 0xc0
    → tokenize_expr (b'\'' ∷ c ∷ d ∷ s) ≡ panicked
unfolding tokenize_expr
tokenize_expr_panics c d s n h k =
    rw (next_token-char c d s n h) (rw (next_token-continuation d s h k))
