-- ===== src/Utils/Text.antt =====
-- co2_preprocessor/src/utils.rs: `bytes_to_str`, and what the preprocessor uses of `str`: UTF-8
-- validity and `trim`.
use co.Prelude.{
  ℕ, zero, suc, Bool, true, false, ◌&&◌, ◌||◌, List, [], ◌∷◌, Bytes, Option, none, some, ltb, ◌==◌,
  within, drop, length, if◌then◌else◌,
}
use co.Prelude.Outcome.{Outcome, ok, panicked}
use mathlib.Core.List.{reverse}

abbrev cont : ℕ × ℕ
cont = (0x80, 0xbf)

-- The ranges of the bytes that must follow a first byte.
unfoldable pub followers : ℕ → Option (List (ℕ × ℕ))
followers b =
    if ltb b 0x80
    then some []
    else if within 0xc2 0xdf b
    then some (cont ∷ [])
    else if b == 0xe0
    then some ((0xa0, 0xbf) ∷ cont ∷ [])
    else if b == 0xed
    then some ((0x80, 0x9f) ∷ cont ∷ [])
    else if within 0xe1 0xef b
    then some (cont ∷ cont ∷ [])
    else if b == 0xf0
    then some ((0x90, 0xbf) ∷ cont ∷ cont ∷ [])
    else if within 0xf1 0xf3 b
    then some (cont ∷ cont ∷ cont ∷ [])
    else if b == 0xf4
    then some ((0x80, 0x8f) ∷ cont ∷ cont ∷ [])
    else none

unfoldable pub is_utf8_after : List (ℕ × ℕ) → Bytes → Bool
is_utf8_after [] [] = true
is_utf8_after (r ∷ rs) [] = false
is_utf8_after [] (b ∷ s) = elim (followers b) [ none ↦ false | some rs ↦ is_utf8_after rs s ]
is_utf8_after ((lo, hi) ∷ rs) (b ∷ s) =
    let rest = is_utf8_after rs s in if within lo hi b then rest else false

-- `std::str::from_utf8(..).is_ok()`.
unfoldable pub is_utf8 : Bytes → Bool
unfolding is_utf8_after followers
is_utf8 s = is_utf8_after [] s

-- `bytes_to_str` on the bytes of its range: the `expect` panics off a character boundary.
unfoldable pub bytes_to_str : Bytes → Outcome Bytes
bytes_to_str s = if is_utf8 s then ok s else panicked

-- The length of the `char::is_whitespace` character at the cursor, 0 where none stands.
unfoldable pub space_len : Bytes → ℕ
space_len (a ∷ b ∷ c ∷ s) =
    if within 9 13 a || a == 32
    then 1
    else if a == 0xc2 && (b == 0x85 || b == 0xa0)
    then 2
    else if (a == 0xe1 && b == 0x9a && c == 0x80)
        || (a == 0xe2
            && (b == 0x80 && (within 0x80 0x8a c || c == 0xa8 || c == 0xa9 || c == 0xaf)
                || b == 0x81 && c == 0x9f))
        || (a == 0xe3 && b == 0x80 && c == 0x80)
    then 3
    else 0
space_len (a ∷ b ∷ []) =
    if within 9 13 a || a == 32 then 1 else if a == 0xc2 && (b == 0x85 || b == 0xa0) then 2 else 0
space_len (a ∷ []) = if within 9 13 a || a == 32 then 1 else 0
space_len [] = 0

-- The same on the bytes in front of the cursor, the last first.
unfoldable pub space_len_back : Bytes → ℕ
unfolding space_len
space_len_back (c ∷ b ∷ a ∷ s) =
    if within 9 13 c || c == 32
    then 1
    else if space_len (b ∷ c ∷ []) == 2
    then 2
    else if space_len (a ∷ b ∷ c ∷ []) == 3
    then 3
    else 0
space_len_back (c ∷ b ∷ []) =
    if within 9 13 c || c == 32 then 1 else if space_len (b ∷ c ∷ []) == 2 then 2 else 0
space_len_back (c ∷ []) = if within 9 13 c || c == 32 then 1 else 0
space_len_back [] = 0

-- Whitespace characters are dropped one by one: at most as many as there are bytes.
unfoldable pub strip : (Bytes → ℕ) → ℕ → Bytes → Bytes
strip len zero s = s
strip len (suc f) s = let rest = strip len f (drop (len s) s) in if len s == 0 then s else rest

unfoldable pub trim_start : Bytes → Bytes
unfolding strip
trim_start s = strip space_len (length s) s

unfoldable pub trim_end : Bytes → Bytes
unfolding strip space_len_back
trim_end s = reverse (strip space_len_back (length s) (reverse s))

-- `str::trim`.
unfoldable pub trim : Bytes → Bytes
unfolding trim_start trim_end
trim s = trim_end (trim_start s)
