-- ===== src/Macros/Stringify.antt =====
-- co2_preprocessor/src/macro_defs.rs: `stringify_arg`, the operator `#`.
pub mod Laws
use mathlib.Core.List.{reverse}
use co.Prelude.{
  ℕ, zero, suc, ◌+◌, ◌/◌, ◌%◌, Bool, true, false, not, ◌&&◌, ◌||◌, [], ◌∷◌, ◌++◌, Bytes, span,
  head_is, length, ltb, ◌==◌, if◌then◌else◌,
}
use co.Prelude.Outcome.{Outcome, ok, out_of_fuel, ◌>>=◌}
use co.Macros.Paste.{blue_paint_marker}
use co.Utils.Literals.{is_lifetime_start}
use co.Utils.Text.{trim}

-- `result.push(byte as char)`: a byte from 0x80 on is taken for the code point of that number, which
-- is pushed in two bytes.
unfoldable pub push_char : ℕ → Bytes
push_char b = if ltb b 0x80 then b ∷ [] else (0xc0 + b / 64) ∷ (0x80 + b % 64) ∷ []

abbrev escaped_quote : Bytes
escaped_quote = b'\\' ∷ b'"' ∷ []

abbrev escaped_backslash : Bytes
escaped_backslash = b'\\' ∷ b'\\' ∷ []

-- The byte behind a backslash.
unfoldable pub escaped_byte : ℕ → Bytes
unfolding push_char
escaped_byte c =
    if c == b'"' then escaped_quote else if c == b'\\' then escaped_backslash else push_char c

-- A plain byte of a literal: a double quote is escaped in a character literal, and ends a string.
unfoldable pub literal_byte : ℕ → Bytes
unfolding push_char
literal_byte c = if c == b'"' then escaped_quote else push_char c

abbrev in_front : Bytes → Bytes × Bytes → Bytes × Bytes
in_front text p = (text ++ p.0, p.1)

-- The loop in a literal behind its opening quote `q`, and what the closing quote pushes.
unfoldable pub stringify_literal : ℕ → Bytes → Bytes → Bytes × Bytes
unfolding escaped_byte literal_byte
stringify_literal q closing [] = ([], [])
stringify_literal q closing (c ∷ []) =
    if c == q
    then (closing, [])
    else if c == b'\\'
    then (escaped_backslash, [])
    else (literal_byte c, [])
stringify_literal q closing (c ∷ d ∷ r) = elim (c == q) [
  | true ↦ (closing, d ∷ r)
  | false ↦ elim (c == b'\\') [
    | true ↦ in_front (escaped_backslash ++ escaped_byte d) (stringify_literal q closing r)
    | false ↦ in_front (literal_byte c) (stringify_literal q closing (d ∷ r))
  ]
]

abbrev pub is_gap : ℕ → Bool
is_gap c = c == b' ' || c == 9 || c == 10

-- One round: the text pushed, and the new cursor. `started` says whether `result` is not empty.
unfoldable pub stringify_round : Bool → ℕ → Bytes → Bytes × Bytes
unfolding stringify_literal push_char
stringify_round started c r =
    if c == blue_paint_marker
    then ([], r)
    else if is_gap c
    then (if started then b' ' ∷ [] else [], (span is_gap r).1)
    else if c == b'"'
    then in_front escaped_quote (stringify_literal b'"' escaped_quote r)
    else if c == b'\'' && not (is_lifetime_start (c ∷ r))
    then in_front (b'\'' ∷ []) (stringify_literal b'\'' (b'\'' ∷ []) r)
    else (push_char c, r)

abbrev pub is_nonempty : Bytes → Bool
is_nonempty [] = false
is_nonempty (c ∷ s) = true

unfoldable pub stringify_from : ℕ → Bool → Bytes → Outcome Bytes
unfolding stringify_round
stringify_from zero started s = out_of_fuel
stringify_from (suc f) started [] = ok []
stringify_from (suc f) started (c ∷ r) =
    let (text, rest) = stringify_round started c r in
    stringify_from f (started || is_nonempty text) rest >>= λ more. ok (text ++ more)

-- `if result.ends_with(' ') { result.pop(); }`.
unfoldable pub pop_space : Bytes → Bytes
pop_space [] = []
pop_space (c ∷ []) = if c == b' ' then [] else c ∷ []
pop_space (c ∷ d ∷ s) = c ∷ pop_space (d ∷ s)

unfoldable pub stringify_arg : Bytes → Outcome Bytes
unfolding stringify_from pop_space trim
stringify_arg arg =
    let trimmed = trim arg in
    stringify_from (suc (length trimmed)) false trimmed >>= λ result. ok (pop_space result)
