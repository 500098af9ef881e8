-- ===== src/Utils/Literals.antt =====
-- co2_preprocessor/src/utils.rs: the scanners over string and character literals. A cursor into
-- `bytes` is the list of the bytes from it on; what a scan passes over is returned in front of the
-- new cursor, so `(text, rest)` stands for `(&bytes[start..i], i)`.
use co.Prelude.{
  suc, take, ℕ, Bool, true, false, not, ◌&&◌, ◌||◌, [], ◌∷◌, ◌++◌, ◌==◌, Bytes, span, drop, head_is,
  prepend, if◌then◌else◌,
}
use co.Prelude.Outcome.{Outcome, ok, panicked, ◌>>=◌}
use co.Utils.Text.{bytes_to_str}
use co.Utils.Classes.{is_quote, is_ident_start_byte, is_ident_cont_byte}

-- `literal_prefix_len(bytes, start)`.
unfoldable pub literal_prefix_len : Bytes → ℕ
literal_prefix_len s =
    if head_is (λ c. c == b'u') s
      && head_is (λ c. c == b'8') (drop 1 s)
      && head_is is_quote (drop 2 s)
    then 2
    else if head_is (λ c. c == b'u' || c == b'U' || c == b'L') s && head_is is_quote (drop 1 s)
    then 1
    else 0

-- Behind the quote: an identifier that no quote closes.
lifetime_name : Bytes → Bool
lifetime_name [] = true
lifetime_name (n ∷ r) =
    if is_ident_start_byte n
    then not (head_is (λ c. c == b'\'') (span is_ident_cont_byte (n ∷ r)).1)
    else false

unfoldable pub is_lifetime_start : Bytes → Bool
unfolding lifetime_name
is_lifetime_start [] = false
is_lifetime_start (q ∷ r) = if q == b'\'' then lifetime_name r else false

-- The loop of `skip_literal_bytes` behind the opening quote.
unfoldable pub skip_body : ℕ → Bytes → Bytes × Bytes
skip_body q [] = ([], [])
skip_body q (c ∷ []) = (c ∷ [], [])
skip_body q (c ∷ d ∷ r) = elim (c == b'\\') [
  | true ↦ prepend c (prepend d (skip_body q r))
  | false ↦ elim (c == q) [ true ↦ (c ∷ [], d ∷ r) | false ↦ prepend c (skip_body q (d ∷ r)) ]
]

-- `skip_literal_bytes(bytes, start, quote)`, with `bytes[start]` the opening quote.
unfoldable pub skip_literal_bytes : ℕ → Bytes → Bytes × Bytes
unfolding skip_body
skip_literal_bytes q [] = ([], [])
skip_literal_bytes q (o ∷ r) =
    if q == b'\'' && is_lifetime_start (o ∷ r) then (o ∷ [], r) else prepend o (skip_body q r)

-- The loop of `copy_literal_bytes_to_string`: the cursor's way is searched first, and copied whole.
unfoldable pub literal_end : ℕ → ℕ → Bytes → ℕ
literal_end q i [] = i
literal_end q i (c ∷ []) = suc i
literal_end q i (c ∷ d ∷ r) = elim (c == b'\\') [
  | true ↦ literal_end q (suc (suc i)) r
  | false ↦ elim (c == q) [ true ↦ suc i | false ↦ literal_end q (suc i) (d ∷ r) ]
]

-- `copy_literal_bytes_to_string`: the grown `result`, and the cursor behind the literal. The `expect`
-- panics where the literal is no UTF-8, and the slice where no byte stands at the cursor.
unfoldable pub copy_literal_bytes_to_string : ℕ → Bytes → Bytes → Outcome (Bytes × Bytes)
unfolding literal_end
copy_literal_bytes_to_string q [] result = panicked
copy_literal_bytes_to_string q (o ∷ r) result =
    if q == b'\'' && is_lifetime_start (o ∷ r)
    then ok (result ++ b'\'' ∷ [], r)
    else (let end = literal_end q 1 r in
        bytes_to_str (take end (o ∷ r)) >>= λ slice. ok (result ++ slice, drop end (o ∷ r)))
