-- ===== src/Utils/Ucn.antt =====
-- co2_preprocessor/src/utils.rs: `parse_ucn`, universal character names.
use co.Prelude.{
  ℕ, zero, suc, ◌+◌, ◌-◌, ◌*◌, ◌^◌, ◌%◌, ◌||◌, Option, none, some, [], ◌∷◌, Bytes, ltb, ◌==◌,
  within, if◌then◌else◌,
}

-- The digit match of the loop.
unfoldable pub hex_digit : ℕ → Option ℕ
hex_digit b =
    if within b'0' b'9' b
    then some (b - b'0')
    else if within b'a' b'f' b
    then some (b - b'a' + 10)
    else if within b'A' b'F' b
    then some (b - b'A' + 10)
    else none

-- `value = value * 16 + u32::from(d)`, over `digits` rounds; the early test
-- `pos + len > bytes.len()` fails just where the digits run out.
unfoldable pub ucn_value : ℕ → ℕ → Bytes → Option ℕ
ucn_value zero value s = some value
ucn_value (suc digits) value [] = none
ucn_value (suc digits) value (b ∷ s) = elim (hex_digit b) [
  | none ↦ none
  | some d ↦ ucn_value digits ((value * 16 + d) % 2 ^ 32) s
]

-- `char::from_u32`: no surrogate, and at most U+10FFFF.
unfoldable pub char_from_u32 : ℕ → Option ℕ
char_from_u32 v = if ltb v 0xd800 || within 0xe000 0x10ffff v then some v else none

unfoldable pub sized : ℕ → Option ℕ → Option (ℕ × ℕ)
unfolding char_from_u32
sized len none = none
sized len (some v) = elim (char_from_u32 v) [ none ↦ none | some ch ↦ some (ch, len) ]

-- `parse_ucn(bytes, pos)`: the character and the number of bytes that its name takes.
unfoldable pub parse_ucn : Bytes → Option (ℕ × ℕ)
unfolding ucn_value sized hex_digit
parse_ucn (b ∷ k ∷ s) =
    if b == b'\\'
    then (if k == b'u'
        then sized 6 (ucn_value 4 0 s)
        else if k == b'U'
        then sized 10 (ucn_value 8 0 s)
        else none)
    else none
parse_ucn _ = none
