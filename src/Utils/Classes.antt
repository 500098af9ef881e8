-- ===== src/Utils/Classes.antt =====
-- co2_preprocessor/src/utils.rs: the byte classes, and `u8`'s ASCII tests that they are built of.
use co.Prelude.{ℕ, Bool, true, false, ◌||◌, leb, ◌==◌, within, ◌≡◌, arith}

-- `u8::is_ascii_digit` and its like.
unfoldable pub is_digit : ℕ → Bool
is_digit b = within b'0' b'9' b

unfoldable pub is_alphabetic : ℕ → Bool
is_alphabetic b = within b'a' b'z' b || within b'A' b'Z' b

unfoldable pub is_alphanumeric : ℕ → Bool
unfolding is_digit is_alphabetic
is_alphanumeric b = is_alphabetic b || is_digit b

unfoldable pub is_hexdigit : ℕ → Bool
unfolding is_digit
is_hexdigit b = is_digit b || within b'a' b'f' b || within b'A' b'F' b

-- `u8::is_ascii_whitespace`: space, tab, line feed, form feed, carriage return.
unfoldable pub is_whitespace : ℕ → Bool
is_whitespace b = b == b' ' || b == 9 || b == 10 || b == 12 || b == 13

-- The blanks that the directive scanners skip.
unfoldable pub is_blank : ℕ → Bool
is_blank b = b == b' ' || b == 9

unfoldable pub is_quote : ℕ → Bool
is_quote b = b == b'"' || b == b'\''

unfoldable pub is_ident_start_byte : ℕ → Bool
unfolding is_alphabetic
is_ident_start_byte b = is_alphabetic b || b == b'_' || b == b'$' || leb 0x80 b

unfoldable pub is_ident_cont_byte : ℕ → Bool
unfolding is_alphanumeric
is_ident_cont_byte b = is_alphanumeric b || b == b'_' || b == b'$' || leb 0x80 b

-- An identifier byte that may not start one is a digit, and a digit may not.
pub is_ident_cont_byte-start_or_digit :
    (b : ℕ) → is_ident_cont_byte b ≡ (is_ident_start_byte b || is_digit b)
unfolding is_ident_cont_byte is_ident_start_byte
is_ident_cont_byte-start_or_digit b = ground arith

pub is_ident_start_byte-not_digit : (b : ℕ) → is_ident_start_byte b ≡ true → is_digit b ≡ false
unfolding is_ident_start_byte is_digit
is_ident_start_byte-not_digit b h = ground arith
