-- ===== src/Utils/Ident.antt =====
-- co2_preprocessor/src/utils.rs: identifier characters beyond ASCII. The crate `unicode_ident` is
-- not part of the repository: its two tests are parameters.
use co.Prelude.{
  ℕ, ◌+◌, ◌-◌, ◌*◌, Bool, true, false, not, ◌&&◌, ◌||◌, [], ◌∷◌, Bytes, Option, none, some, ltb,
  leb, ◌==◌, if◌then◌else◌,
}
use co.Utils.Classes.{is_digit, is_alphanumeric}
use co.Utils.Text.{is_utf8}
use co.Utils.Ucn.{parse_ucn}

-- The code point of the first character of valid UTF-8, and its `len_utf8`.
unfoldable pub first_char : Bytes → Option (ℕ × ℕ)
first_char [] = none
first_char (a ∷ []) = some (a, 1)
first_char (a ∷ b ∷ []) = if ltb a 0x80 then some (a, 1) else some ((a - 0xc0) * 64 + (b - 0x80), 2)
first_char (a ∷ b ∷ c ∷ []) =
    if ltb a 0x80
    then some (a, 1)
    else if ltb a 0xe0
    then some ((a - 0xc0) * 64 + (b - 0x80), 2)
    else some ((a - 0xe0) * 4096 + (b - 0x80) * 64 + (c - 0x80), 3)
first_char (a ∷ b ∷ c ∷ d ∷ s) =
    if ltb a 0x80
    then some (a, 1)
    else if ltb a 0xe0
    then some ((a - 0xc0) * 64 + (b - 0x80), 2)
    else if ltb a 0xf0
    then some ((a - 0xe0) * 4096 + (b - 0x80) * 64 + (c - 0x80), 3)
    else some ((a - 0xf0) * 262144 + (b - 0x80) * 4096 + (c - 0x80) * 64 + (d - 0x80), 4)

-- `decode_utf8_char(bytes, pos)`: the whole rest must be valid UTF-8.
unfoldable pub decode_utf8_char : Bytes → Option (ℕ × ℕ)
unfolding first_char is_utf8
decode_utf8_char s = if is_utf8 s then first_char s else none

module _ (is_xid_start is_xid_continue : ℕ → Bool) where
  unfoldable pub char_allowed : ℕ → Bool → Bool
  unfolding is_alphanumeric
  char_allowed ch start =
      if is_alphanumeric ch || ch == b'_' || ch == b'$'
      then (if start then not (is_digit ch) else true)
      else if start
      then is_xid_start ch
      else is_xid_continue ch

  -- `Some(len)` if the character is allowed.
  unfoldable pub allowed_len : Bool → Option (ℕ × ℕ) → Option ℕ
  unfolding char_allowed
  allowed_len start none = none
  allowed_len start (some (ch, len)) = if char_allowed ch start then some len else none

  unfoldable pub ident_char_len : Bytes → Bool → Option ℕ
  unfolding allowed_len is_alphanumeric
  ident_char_len [] start = none
  ident_char_len (b ∷ s) start =
      if is_alphanumeric b || b == b'_' || b == b'$'
      then (if start && is_digit b then none else some 1)
      else if b == b'\\'
      then allowed_len start (parse_ucn (b ∷ s))
      else if leb 0x80 b
      then allowed_len start (decode_utf8_char (b ∷ s))
      else none

  unfoldable pub ident_start_len : Bytes → Option ℕ
  unfolding ident_char_len
  ident_start_len s = ident_char_len s true

  unfoldable pub ident_cont_len : Bytes → Option ℕ
  unfolding ident_char_len
  ident_cont_len s = ident_char_len s false
