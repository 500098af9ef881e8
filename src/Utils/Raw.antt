-- ===== src/Utils/Raw.antt =====
-- co2_preprocessor/src/utils.rs: `copy_literal_bytes_raw`, which joins continued lines while it
-- copies a literal of the unspliced source.
use co.Prelude.{
  take, ltb, ℕ, zero, suc, ◌+◌, true, ◌&&◌, [], ◌∷◌, ◌++◌, ◌==◌, Bytes, drop, length, head_is,
  prepend, if◌then◌else◌,
}
use co.Utils.Literals.{is_lifetime_start}

-- The length of the line ending at the cursor, `\n` or `\r\n`, and 0 where none stands.
unfoldable pub line_ending : Bytes → ℕ
line_ending [] = 0
line_ending (c ∷ r) =
    if c == b'\n' then 1 else if c == 13 && head_is (λ d. d == b'\n') r then 2 else 0

abbrev no_bytes : Bytes
no_bytes = []

-- What a backslash with `r` behind it copies, and how many bytes it stands for.
unfoldable pub raw_escape : Bytes → Bytes × ℕ
unfolding line_ending
raw_escape r =
    let ending = line_ending r in
    let doubled = line_ending (drop 1 r) in
    if ltb 0 ending
    then (no_bytes, 1 + ending)
    else if head_is (λ c. c == b'\\') r
    then (if ltb 0 doubled then (b'\\' ∷ [], 2 + doubled) else (b'\\' ∷ b'\\' ∷ [], 2))
    else (b'\\' ∷ take 1 r, 2)

-- The loop behind the opening quote; each round passes over a byte, so the fuel that
-- `copy_literal_bytes_raw` hands out, the length of the input, suffices.
unfoldable pub raw_body : ℕ → ℕ → Bytes → Bytes × Bytes
unfolding raw_escape
raw_body zero q s = ([], s)
raw_body (suc f) q [] = ([], [])
raw_body (suc f) q (c ∷ r) =
    let (copied, passed) = raw_escape r in
    let rest = raw_body f q (drop passed (c ∷ r)) in
    let escaped : Bytes × Bytes = (copied ++ rest.0, rest.1) in
    let plain = prepend c (raw_body f q r) in
    if c == b'\\' && head_is (λ _. true) r then escaped else if c == q then (c ∷ [], r) else plain

-- `copy_literal_bytes_raw(bytes, start, quote, result)`: what is pushed, and the new cursor.
unfoldable pub copy_literal_bytes_raw : ℕ → Bytes → Bytes × Bytes
unfolding raw_body
copy_literal_bytes_raw q [] = ([], [])
copy_literal_bytes_raw q (o ∷ r) =
    if q == b'\'' && is_lifetime_start (o ∷ r)
    then (o ∷ [], r)
    else prepend o (raw_body (length r) q r)
