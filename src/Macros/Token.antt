-- ===== src/Macros/Token.antt =====
-- co2_preprocessor/src/macro_token.rs: the tokens of a macro body.
pub mod Cuts
pub mod Text
pub mod Params
use co.Prelude.{
  ℕ, zero, suc, ◌+◌, ◌≡◌, Bool, true, false, not, ◌&&◌, ◌||◌, List, [], ◌∷◌, ◌++◌, map, Bytes,
  codes, equal, Option, none, some, span, take, drop, head_is, length, ltb, leb, ◌==◌,
  if◌then◌else◌, prepend,
}
use co.Prelude.Outcome.{Outcome, ok, panicked, out_of_fuel, ◌>>=◌}
use co.Utils.Classes.{is_digit, is_alphanumeric, is_whitespace, is_ident_start_byte}
use co.Utils.Ident.{ident_start_len, ident_cont_len, first_char}
use co.Utils.Literals.{is_lifetime_start}

pub data MacroBodyToken : Type 0 where
  ident : Bytes → MacroBodyToken
  number : Bytes → MacroBodyToken
  string_lit : Bytes → MacroBodyToken
  char_lit : Bytes → MacroBodyToken
  hash hash_hash lparen rparen comma : MacroBodyToken
  param : ℕ → MacroBodyToken
  va_args : MacroBodyToken
  other : Bytes → MacroBodyToken

-- A part of the text with what stands behind it.
abbrev pub Cut : Type 0
Cut = Bytes × Bytes

abbrev pub prepend_cut : ℕ → Option Cut → Option Cut
prepend_cut c none = none
prepend_cut c (some (text, rest)) = some (c ∷ text, rest)

-- `while i < len && bytes[i] != q { if bytes[i] == b'\\' { i += 1; } i += 1; } if i < len { i += 1; }`:
-- a backslash at the very end takes `i` past the text, and then `text[start..i]` panics.
unfoldable pub quoted : ℕ → Bytes → Option Cut
quoted q [] = some ([], [])
quoted q (c ∷ []) =
    if c == q then some (c ∷ [], []) else if c == b'\\' then none else some (c ∷ [], [])
quoted q (c ∷ d ∷ r) = elim (c == q) [
  | true ↦ some (c ∷ [], d ∷ r)
  | false ↦ elim (c == b'\\') [
    | true ↦ prepend_cut c (prepend_cut d (quoted q r))
    | false ↦ prepend_cut c (quoted q (d ∷ r))
  ]
]

-- The slice with its token, or the panic.
unfoldable pub quoted_token :
    (Bytes → MacroBodyToken) → ℕ → Option Cut → Outcome (MacroBodyToken × Bytes)
quoted_token kind b none = panicked
quoted_token kind b (some (text, rest)) = ok (kind (b ∷ text), rest)

-- `b.is_ascii_alphanumeric() || b == b'.'`.
abbrev pub is_number_byte : ℕ → Bool
is_number_byte c = is_alphanumeric c || c == b'.'

-- The bytes that an `Other` token coalesces, after one that is whitespace or not.
unfoldable pub is_other_byte : Bool → ℕ → Bool
is_other_byte is_ws c = not (
    c == b'"'
    || c == b'\''
    || is_ident_start_byte c
    || c == b'#'
    || c == b'('
    || c == b')'
    || c == b','
    || is_digit c
    || leb 0x80 c
    || (if is_ws then not (is_whitespace c) else is_whitespace c))

-- The branches on punctuation, numbers and the rest.
unfoldable pub plain_token : ℕ → Bytes → MacroBodyToken × Bytes
unfolding is_other_byte first_char
plain_token b r =
    if b == b'#' && head_is (λ c. c == b'#') r
    then (hash_hash, drop 1 r)
    else if b == b'#'
    then (hash, r)
    else if b == b'('
    then (lparen, r)
    else if b == b')'
    then (rparen, r)
    else if b == b','
    then (comma, r)
    else if is_digit b
    then (let digits = span is_number_byte r in (number (b ∷ digits.0), digits.1))
    else if ltb b 0x80
    then (let run = span (is_other_byte (is_whitespace b)) r in (other (b ∷ run.0), run.1))
    else (let len : ℕ = elim (first_char (b ∷ r)) [ none ↦ 1 | some (ch, n) ↦ n ] in
        (other (take len (b ∷ r)), drop len (b ∷ r)))

module _ (is_xid_start is_xid_continue : ℕ → Bool) where
  -- `while let Some(cl) = ident_cont_len(bytes, i) { i += cl; }`; a character has a byte or more.
  unfoldable pub ident_rest : ℕ → Bytes → Cut
  ident_rest zero s = ([], s)
  ident_rest (suc f) s = elim (ident_cont_len is_xid_start is_xid_continue s) [
    | none ↦ ([], s)
    | some n ↦ let more = ident_rest f (drop n s) in (take n s ++ more.0, more.1)
  ]

  unfoldable pub ident_token : ℕ → Bytes → MacroBodyToken × Bytes
  unfolding ident_rest
  ident_token n s =
      let more = ident_rest (length s) (drop n s) in (ident (take n s ++ more.0), more.1)

  -- One round of the loop.
  unfoldable pub next_token : ℕ → Bytes → Outcome (MacroBodyToken × Bytes)
  unfolding quoted quoted_token ident_token plain_token
  next_token b r =
      if b == b'"'
      then quoted_token string_lit b (quoted b r)
      else if b == b'\'' && not (is_lifetime_start (b ∷ r))
      then quoted_token char_lit b (quoted b r)
      else elim (ident_start_len is_xid_start is_xid_continue (b ∷ r)) [
        | some n ↦ ok (ident_token n (b ∷ r))
        | none ↦ ok (plain_token b r)
      ]

  unfoldable pub tokenize_from : ℕ → Bytes → Outcome (List MacroBodyToken)
  unfolding next_token
  tokenize_from zero s = out_of_fuel
  tokenize_from (suc f) [] = ok []
  tokenize_from (suc f) (b ∷ r) =
      next_token b r >>= λ (t, rest). tokenize_from f rest >>= λ more. ok (t ∷ more)

  -- Each round moves the cursor, so the length of the text bounds the rounds.
  unfoldable pub tokenize_macro_body : Bytes → Outcome (List MacroBodyToken)
  unfolding tokenize_from
  tokenize_macro_body text = tokenize_from (suc (length text)) text

-- `params.iter().position(|p| p == s)`.
unfoldable pub position : List Bytes → Bytes → Option ℕ
position [] s = none
position (p ∷ ps) s =
    let later : Option ℕ = elim (position ps s) [ none ↦ none | some i ↦ some (suc i) ] in
    if equal p s then some 0 else later

resolve_ident : List Bytes → Bytes → MacroBodyToken
resolve_ident params s = elim (position params s) [ none ↦ ident s | some idx ↦ param idx ]

unfoldable pub resolve_token : List Bytes → Bool → MacroBodyToken → MacroBodyToken
unfolding position resolve_ident
resolve_token params is_variadic (ident s) =
    if equal s (codes "__VA_ARGS__") && is_variadic then va_args else resolve_ident params s
resolve_token params is_variadic t = t

unfoldable pub resolve_params : List MacroBodyToken → List Bytes → Bool → List MacroBodyToken
unfolding resolve_token
resolve_params tokens params is_variadic = map (resolve_token params is_variadic) tokens

-- `token_text`, which panics on a resolved parameter.
unfoldable pub token_text : MacroBodyToken → Outcome Bytes
token_text (ident s) = ok s
token_text (number s) = ok s
token_text (string_lit s) = ok s
token_text (char_lit s) = ok s
token_text (other s) = ok s
token_text hash = ok (codes "#")
token_text hash_hash = ok (codes "##")
token_text lparen = ok (codes "(")
token_text rparen = ok (codes ")")
token_text comma = ok (codes ",")
token_text (param idx) = panicked
token_text va_args = panicked
