-- ===== src/Macros/Copies.antt =====
-- co2_preprocessor/src/macro_defs.rs: the parts of a line that expansion copies or skips.
pub mod Laws
pub mod Digits
use co.Prelude.{
  ℕ, zero, suc, ◌+◌, ◌/◌, ◌%◌, Bool, true, false, not, ◌&&◌, ◌||◌, List, [], ◌∷◌, ◌++◌, Bytes,
  prepend, span, drop, head_is, length, ltb, leb, ◌==◌, if◌then◌else◌,
}
use co.Prelude.Outcome.{Outcome, ok, panicked, out_of_fuel, ◌>>=◌}
use co.Macros.Args.{is_exponent}
use co.Macros.Paste.{Buffer, blue_paint_marker}
use co.Utils.Classes.{is_digit, is_alphanumeric, is_whitespace, is_quote, is_ident_start_byte}
use co.Utils.Literals.{skip_literal_bytes}

-- `copy_block_comment` behind `/*`. The last byte of a comment that never ends is left over.
unfoldable pub block_comment_rest : Bytes → Bytes × Bytes
block_comment_rest [] = ([], [])
block_comment_rest (c ∷ []) = ([], c ∷ [])
block_comment_rest (c ∷ d ∷ r) =
    let more = prepend c (block_comment_rest (d ∷ r)) in
    if c == b'*' && d == b'/' then (c ∷ d ∷ [], r) else more

-- The bytes at which a run of other bytes stops.
unfoldable pub is_special : ℕ → Bytes → Bool
is_special c s =
    is_quote c
    || c == blue_paint_marker
    || is_ident_start_byte c
    || (c == b'/' && head_is (λ d. d == b'*' || d == b'/') s)
    || is_digit c
    || (c == b'.' && head_is is_digit s)
    || leb 0x80 c

unfoldable pub plain_rest : Bytes → Bytes × Bytes
unfolding is_special
plain_rest [] = ([], [])
plain_rest (c ∷ s) =
    let more = prepend c (plain_rest s) in if is_special c s then ([], c ∷ s) else more

-- `start` of a number: a digit, or a dot with a digit behind it; `n` is `pos - j`.
abbrev starts_number : ℕ → Bytes → Bool
starts_number n [] = false
starts_number n (c ∷ []) = is_digit c
starts_number n (c ∷ d ∷ r) = is_digit c || (c == b'.' && leb 2 n && is_digit d)

-- The loop of `is_ppnumber_context`: `bytes[j]` and the bytes in front of it, the last first, with
-- those behind `j` in `after`.
unfoldable pub ppnumber_context : ℕ → Bytes → Buffer → Bool
ppnumber_context n after [] = false
ppnumber_context n after (ch ∷ []) =
    if is_alphanumeric ch || ch == b'_' || ch == b'.' then is_digit ch else starts_number n after
ppnumber_context n after (ch ∷ e ∷ []) =
    let on = ppnumber_context (n + 1) (ch ∷ after) (e ∷ []) in
    if is_alphanumeric ch || ch == b'_' || ch == b'.'
    then on
    else if (ch == b'+' || ch == b'-') && is_exponent e
    then false
    else starts_number n after
ppnumber_context n after (ch ∷ e ∷ p ∷ before) =
    elim (is_alphanumeric ch || ch == b'_' || ch == b'.') [
      | true ↦ ppnumber_context (n + 1) (ch ∷ after) (e ∷ p ∷ before)
      | false ↦ elim ((ch == b'+' || ch == b'-') && is_exponent e) [
        | true ↦ ppnumber_context (n + 2) (e ∷ ch ∷ after) (p ∷ before)
        | false ↦ starts_number n after
      ]
    ]

-- `is_ppnumber_suffix(result)`.
unfoldable pub is_ppnumber_suffix : Buffer → Bool
unfolding ppnumber_context
is_ppnumber_suffix [] = false
is_ppnumber_suffix (prev ∷ []) = is_digit prev
is_ppnumber_suffix (prev ∷ a ∷ []) =
    if is_digit prev
    then true
    else if prev == b'.' && is_digit a
    then ppnumber_context 0 (prev ∷ []) (a ∷ [])
    else false
is_ppnumber_suffix (prev ∷ a ∷ b ∷ buf) =
    if is_digit prev
    then true
    else if prev == b'.' && is_digit a
    then ppnumber_context 0 (prev ∷ []) (a ∷ b ∷ buf)
    else if (prev == b'+' || prev == b'-') && is_exponent a
    then ppnumber_context 0 (a ∷ prev ∷ []) (b ∷ buf)
    else false

-- What `skip_pragma` does at a byte, at a depth of `suc d`.
unfoldable pub pragma_next : ℕ → Bytes → Bytes
pragma_next c r = if is_quote c then (skip_literal_bytes c (c ∷ r)).1 else r

-- The loop of `skip_pragma` behind the opening parenthesis.
unfoldable pub pragma_from : ℕ → ℕ → Bytes → Outcome Bytes
unfolding pragma_next
pragma_from zero d s = out_of_fuel
pragma_from (suc f) d [] = ok []
pragma_from (suc f) d (c ∷ r) = elim (c == b'(') [
  | true ↦ pragma_from f (suc d) r
  | false ↦ elim (c == b')') [
    | true ↦ elim d [ zero ↦ ok r | suc e ↦ pragma_from f e r ]
    | false ↦ pragma_from f d (pragma_next c r)
  ]
]

unfoldable pub skip_spaces : Bytes → Bytes
skip_spaces s = (span is_whitespace s).1

-- The digits of a number in decimal, in a buffer of `f` bytes: `itoa::Buffer::format` with 20.
unfoldable pub format_from : ℕ → ℕ → Bytes → Outcome Bytes
format_from zero n digits = if n == 0 then ok digits else panicked
format_from (suc f) n digits = elim (n == 0) [
  | true ↦ ok digits
  | false ↦ format_from f (n / 10) ((b'0' + n % 10) ∷ digits)
]

unfoldable pub format : ℕ → Outcome Bytes
unfolding format_from
format n = if n == 0 then ok (b'0' ∷ []) else format_from 20 n []
