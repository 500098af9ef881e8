-- ===== src/Conditionals/Tokenizer.antt =====
-- co2_preprocessor/src/conditionals.rs: `tokenize_expr` and `eval_const_expr`. The cursor is the
-- list of the bytes that are left; pushing to `tokens` is returning the token.
pub mod Total
pub mod Ascii
pub mod Panic
use co.Prelude.{
  ℕ, zero, suc, ◌+◌, ◌-◌, ◌*◌, ◌^◌, ◌≡◌, Bool, true, false, not, ◌&&◌, ◌||◌, List, [], ◌∷◌, ◌++◌,
  Bytes, codes, equal, Option, none, some, span, drop, head_is, length, ltb, ◌==◌, within,
  if◌then◌else◌,
}
use co.Prelude.Outcome.{Outcome, ok, panicked, out_of_fuel, ◌>>=◌}
use co.Utils.Classes.{is_digit, is_hexdigit, is_whitespace, is_ident_start_byte, is_ident_cont_byte}
use co.Utils.Literals.{literal_prefix_len, skip_literal_bytes}
use co.Utils.Text.{bytes_to_str, trim}
use co.Conditionals.Operators
use co.Conditionals.Operators.{Op, ExprToken, num, ident, op, lparen, rparen, defined, Tokens}
use co.Conditionals.Parser.{parse_tokens}
use co.Conditionals.Word.{word_mod, i64_min}

-- The value of a digit; 36 and more for no digit.
unfoldable pub digit_value : ℕ → ℕ
unfolding is_digit
digit_value b =
    if is_digit b
    then b - b'0'
    else if within b'a' b'z' b
    then b - b'a' + 10
    else if within b'A' b'Z' b
    then b - b'A' + 10
    else 36

-- `u64::from_str_radix` on the digits, from left to right: a digit that is too large and a value
-- that is too large are errors.
unfoldable pub digits_value : ℕ → ℕ → Bytes → Option ℕ
unfolding digit_value
digits_value radix acc [] = some acc
digits_value radix acc (b ∷ s) =
    let d = digit_value b in
    let rest = digits_value radix (acc * radix + d) s in
    if ltb d radix && ltb (acc * radix + d) word_mod then rest else none

-- `u64::from_str_radix(text, radix).unwrap_or(0)`; no digit at all is an error too.
unfoldable pub radix_value : ℕ → Bytes → ℕ
unfolding digits_value
radix_value radix [] = 0
radix_value radix (b ∷ s) = elim (digits_value radix 0 (b ∷ s)) [ none ↦ 0 | some n ↦ n ]

abbrev pub is_binary_digit : ℕ → Bool
is_binary_digit c = c == b'0' || c == b'1'

-- The value, whether it was written in hexadecimal, binary or octal, and the cursor.
unfoldable pub scan_number : ℕ → Bytes → ℕ × Bool × Bytes
unfolding radix_value
scan_number b r =
    if b == b'0' && head_is (λ c. c == b'x' || c == b'X') r
    then (let digits = span is_hexdigit (drop 1 r) in (radix_value 16 digits.0, true, digits.1))
    else if b == b'0' && head_is (λ c. c == b'b' || c == b'B') r
    then (let digits = span is_binary_digit (drop 1 r) in (radix_value 2 digits.0, true, digits.1))
    else if b == b'0' && head_is is_digit r
    then (let digits = span is_digit r in (radix_value 8 digits.0, true, digits.1))
    else (let digits = span is_digit (b ∷ r) in (radix_value 10 digits.0, false, digits.1))

abbrev pub is_suffix_byte : ℕ → Bool
is_suffix_byte c = c == b'u' || c == b'U' || c == b'l' || c == b'L'

-- `is_unsigned` after the suffix loop.
unfoldable pub has_unsigned_suffix : Bytes → Bool
has_unsigned_suffix [] = false
has_unsigned_suffix (c ∷ s) = c == b'u' || c == b'U' || has_unsigned_suffix s

-- A number with its suffixes. A value beyond `i64::MAX` is unsigned, however it is written.
unfoldable pub number_token : ℕ → Bytes → Tokens × Bytes
unfolding scan_number has_unsigned_suffix
number_token b r =
    let (raw, is_hex_or_oct, after) = scan_number b r in
    let suffix = span is_suffix_byte after in
    let marked = has_unsigned_suffix suffix.0 in
    let by_hex = marked || (is_hex_or_oct && not (ltb raw i64_min)) in
    let by_dec = by_hex || (not is_hex_or_oct && not (ltb raw i64_min)) in
    (num raw by_dec ∷ [], suffix.1)

-- The escape match of a character literal.
unfoldable pub escape_value : ℕ → ℕ
escape_value c =
    if c == b'n'
    then 10
    else if c == b't'
    then 9
    else if c == b'r'
    then 13
    else if c == b'0'
    then 0
    else if c == b'a'
    then 7
    else if c == b'b'
    then 8
    else if c == b'f'
    then 12
    else if c == b'v'
    then 11
    else c

unfoldable pub char_value : Bytes → ℕ × Bytes
unfolding escape_value
char_value [] = (0, [])
char_value (c ∷ []) = if c == b'\\' then (0, []) else (c, [])
char_value (c ∷ e ∷ r) = if c == b'\\' then (escape_value e, r) else (c, e ∷ r)

unfoldable pub skip_quote : Bytes → Bytes
skip_quote [] = []
skip_quote (c ∷ r) = if c == b'\'' then r else c ∷ r

-- A character literal, behind its opening quote.
unfoldable pub char_token : Bytes → Tokens × Bytes
unfolding char_value skip_quote
char_token s = let (val, rest) = char_value s in (num val false ∷ [], skip_quote rest)

-- A literal with an encoding prefix of `n` bytes: a string gives no token.
unfoldable pub prefixed_token : ℕ → Bytes → Tokens × Bytes
unfolding char_token
prefixed_token n s =
    if head_is (λ c. c == b'\'') (drop n s)
    then char_token (drop 1 (drop n s))
    else ([], (skip_literal_bytes b'"' (drop n s)).1)

unfoldable pub ident_token : ℕ → Bytes → Outcome (Tokens × Bytes)
ident_token b r =
    let word = span is_ident_cont_byte r in
    bytes_to_str (b ∷ word.0) >>= λ name.
    ok ((if equal name (codes "defined") then defined else ident name) ∷ [], word.1)

unfoldable pub two_char_op : ℕ → ℕ → Option Op
two_char_op b next =
    if b == b'!' && next == b'='
    then some Op.bang_eq
    else if b == b'&' && next == b'&'
    then some Op.amp_amp
    else if b == b'|' && next == b'|'
    then some Op.bar_bar
    else if b == b'=' && next == b'='
    then some Op.eq_eq
    else if b == b'<' && next == b'='
    then some Op.le
    else if b == b'<' && next == b'<'
    then some Op.shl
    else if b == b'>' && next == b'='
    then some Op.ge
    else if b == b'>' && next == b'>'
    then some Op.shr
    else none

-- No token for an unknown byte.
unfoldable pub one_char_token : ℕ → Tokens
one_char_token b =
    if b == b'('
    then lparen ∷ []
    else if b == b')'
    then rparen ∷ []
    else if b == b'!'
    then op Op.bang ∷ []
    else if b == b'&'
    then op Op.amp ∷ []
    else if b == b'|'
    then op Op.bar ∷ []
    else if b == b'+'
    then op Op.plus ∷ []
    else if b == b'-'
    then op Op.minus ∷ []
    else if b == b'*'
    then op Op.star ∷ []
    else if b == b'/'
    then op Op.slash ∷ []
    else if b == b'%'
    then op Op.percent ∷ []
    else if b == b'~'
    then op Op.tilde ∷ []
    else if b == b'^'
    then op Op.caret ∷ []
    else if b == b'?'
    then op Op.question ∷ []
    else if b == b':'
    then op Op.colon ∷ []
    else if b == b'<'
    then op Op.lt ∷ []
    else if b == b'>'
    then op Op.gt ∷ []
    else []

unfoldable pub op_token : ℕ → Bytes → Tokens × Bytes
unfolding two_char_op one_char_token
op_token b [] = (one_char_token b, [])
op_token b (next ∷ r) = elim (two_char_op b next) [
  | some o ↦ (op o ∷ [], r)
  | none ↦ (one_char_token b, next ∷ r)
]

-- One round of the loop at byte `b`: the tokens pushed, and the new cursor.
unfoldable pub next_token : ℕ → Bytes → Outcome (Tokens × Bytes)
unfolding prefixed_token number_token char_token ident_token op_token
next_token b r =
    if is_whitespace b
    then ok ([], r)
    else if ltb 0 (literal_prefix_len (b ∷ r))
    then ok (prefixed_token (literal_prefix_len (b ∷ r)) (b ∷ r))
    else if is_digit b
    then ok (number_token b r)
    else if b == b'\''
    then ok (char_token r)
    else if is_ident_start_byte b
    then ident_token b r
    else ok (op_token b r)

unfoldable pub tokenize_from : ℕ → Bytes → Outcome Tokens
unfolding next_token
tokenize_from zero s = out_of_fuel
tokenize_from (suc f) [] = ok []
tokenize_from (suc f) (b ∷ r) =
    next_token b r >>= λ (ts, rest). tokenize_from f rest >>= λ more. ok (ts ++ more)

-- Every round moves the cursor, so the length of the input bounds the rounds.
unfoldable pub tokenize_expr : Bytes → Outcome Tokens
unfolding tokenize_from
tokenize_expr s = tokenize_from (suc (length s)) s

unfoldable pub eval_trimmed : Bytes → Outcome Bool
unfolding tokenize_expr
eval_trimmed [] = ok false
eval_trimmed (b ∷ s) = tokenize_expr (b ∷ s) >>= λ tokens.
    parse_tokens tokens >>= λ (result, _). ok (not (result.0 == 0))

-- `eval_const_expr`.
unfoldable pub eval_const_expr : Bytes → Outcome Bool
unfolding eval_trimmed trim
eval_const_expr expr = eval_trimmed (trim expr)
