-- ===== src/Macros/Copies/Digits.antt =====
-- The decimal digits of `__LINE__` and `__COUNTER__`, read back by the parser of #if numbers.
use co.Prelude.{
  ℕ, zero, suc, ◌+◌, ◌*◌, ◌/◌, ◌%◌, ◌^◌, ◌<◌, ◌≡◌, refl, ◌∙◌, true, [], ◌∷◌, Bytes, some, lt→ltb,
  ==_iff, subst, ap, sym, ◌==◌, arith, Bool-cases, inl, inr,
}
use co.Prelude.Outcome.{Yields}
use co.Conditionals.Tokenizer.{digit_value, digits_value}
use co.Conditionals.Word.{word_mod}
use co.Macros.Copies.{format_from, format}
use co.Utils.Classes.{is_digit}

digit_value_of : (d : ℕ) → d < 10 → digit_value (b'0' + d) ≡ d
unfolding digit_value is_digit
digit_value_of d h = ground arith

-- One more digit in front.
digits_value_cons :
    (n v : ℕ) (digits : Bytes)
    → n < word_mod
    → digits_value 10 n digits ≡ some v
    → digits_value 10 (n / 10) ((b'0' + n % 10) ∷ digits) ≡ some v
unfolding digits_value
digits_value_cons n v digits h e =
    let eq : n / 10 * 10 + n % 10 ≡ n = omega arith in
    rw (digit_value_of (n % 10) (omega arith))
      (rw (lt→ltb (n % 10) 10 (omega arith), eq, lt→ltb n word_mod h) e)

from_zero :
    (n v : ℕ) (digits : Bytes)
    → n ≡ 0
    → digits_value 10 n digits ≡ some v
    → digits_value 10 0 digits ≡ some v
from_zero n v digits z e = subst (λ m. digits_value 10 m digits ≡ some v) z e

is_zero : (n : ℕ) → n ≡ 0 → (n == 0) ≡ true
is_zero n h = ground arith

format_from-digits_value :
    (f n v : ℕ) (digits : Bytes)
    → n < 10 ^ f
    → n < word_mod
    → digits_value 10 n digits ≡ some v
    → Yields (λ s. digits_value 10 0 s ≡ some v) (format_from f n digits)
unfolding format_from
format_from-digits_value zero n v digits h k e =
    (digits, rw (is_zero n (omega arith)) refl, from_zero n v digits (omega arith) e)
format_from-digits_value (suc f) n v digits h k e = elim (Bool-cases (n == 0)) [
  | inl z ↦ (digits, rw (z, format_from) refl, from_zero n v digits ((==_iff n 0).0 z) e)
  | inr p ↦
      rw (p, format_from)
        (format_from-digits_value f (n / 10) v ((b'0' + n % 10) ∷ digits) (omega arith)
          (omega arith) (digits_value_cons n v digits k e))
]

zero_digit : digits_value 10 0 (b'0' ∷ []) ≡ some 0
unfolding digits_value digit_value is_digit
zero_digit = refl

-- The digits of a 64-bit number fit the buffer, and read back as the number.
pub format-digits_value :
    (n : ℕ) → n < word_mod → Yields (λ s. digits_value 10 0 s ≡ some n) (format n)
unfolding format digits_value
format-digits_value n h = elim (Bool-cases (n == 0)) [
  | inl z ↦ (b'0' ∷ [], rw (z, format) refl, zero_digit ∙ ap some (sym ((==_iff n 0).0 z)))
  | inr p ↦ rw (p, format) (format_from-digits_value 20 n n [] (omega arith) h refl)
]
