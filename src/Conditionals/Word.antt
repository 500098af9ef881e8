-- ===== src/Conditionals/Word.antt =====
-- The `i64` and `u64` arithmetic that co2_preprocessor/src/conditionals.rs evaluates with. A value
-- is its bit pattern, a number below 2 ^ 64; `as i64` and `as u64` keep the pattern.
use co.Prelude.{ℕ, ◌+◌, ◌-◌, ◌*◌, ◌/◌, ◌%◌, ◌^◌, Bool, not, ltb, leb, if◌then◌else◌}

abbrev pub word_mod : ℕ
word_mod = 2 ^ 64

-- `i64::MIN`, and the number of its pattern.
abbrev pub i64_min : ℕ
i64_min = 2 ^ 63

-- `i64::from(bool)`.
abbrev pub from_bool : Bool → ℕ
from_bool b = if b then 1 else 0

unfoldable pub is_negative : ℕ → Bool
is_negative a = leb i64_min a

unfoldable pub wrapping_add : ℕ → ℕ → ℕ
wrapping_add a b = (a + b) % word_mod

unfoldable pub wrapping_sub : ℕ → ℕ → ℕ
wrapping_sub a b = (a + word_mod - b) % word_mod

-- The low 64 bits of a product are the same for signed and unsigned operands.
unfoldable pub wrapping_mul : ℕ → ℕ → ℕ
wrapping_mul a b = (a * b) % word_mod

unfoldable pub wrapping_neg : ℕ → ℕ
wrapping_neg a = (word_mod - a) % word_mod

-- `!a`.
unfoldable pub bit_not : ℕ → ℕ
bit_not a = word_mod - 1 - a

-- The absolute value of the `i64`.
unfoldable pub magnitude : ℕ → ℕ
unfolding is_negative
magnitude a = if is_negative a then word_mod - a else a

-- The pattern of ±m.
unfoldable pub with_sign : Bool → ℕ → ℕ
unfolding wrapping_neg
with_sign negative m = if negative then wrapping_neg m else m

abbrev pub differ : Bool → Bool → Bool
differ a b = if a then not b else b

-- `a / b` and `a % b` of `i64`, which round towards zero.
unfoldable pub signed_div : ℕ → ℕ → ℕ
unfolding is_negative magnitude with_sign
signed_div a b = with_sign (differ (is_negative a) (is_negative b)) (magnitude a / magnitude b)

unfoldable pub signed_rem : ℕ → ℕ → ℕ
unfolding is_negative magnitude with_sign
signed_rem a b = with_sign (is_negative a) (magnitude a % magnitude b)

-- `<` of `i64`: move the range up by 2 ^ 63 and compare.
unfoldable pub signed_lt : ℕ → ℕ → Bool
signed_lt a b = ltb ((a + i64_min) % word_mod) ((b + i64_min) % word_mod)

-- `b as u32`, as `wrapping_shl` masks it.
unfoldable pub shift_amount : ℕ → ℕ
shift_amount b = (b % 2 ^ 32) % 64

unfoldable pub wrapping_shl : ℕ → ℕ → ℕ
unfolding shift_amount
wrapping_shl a b = (a * 2 ^ shift_amount b) % word_mod

unfoldable pub logical_shr : ℕ → ℕ → ℕ
unfolding shift_amount
logical_shr a b = a / 2 ^ shift_amount b

unfoldable pub arithmetic_shr : ℕ → ℕ → ℕ
unfolding is_negative bit_not logical_shr
arithmetic_shr a b = if is_negative a then bit_not (logical_shr (bit_not a) b) else logical_shr a b
