-- ===== src/Utils/Escapes.antt =====
-- Parts of `parse_ucn`, and that it reads back the name of every character (utils.rs).
use co.Prelude.{
  none-ne-some, ℕ, zero, suc, ◌+◌, ◌-◌, ◌*◌, ◌/◌, ◌%◌, ◌^◌, ◌<◌, ◌≤◌, ◌≡◌, refl, ap, sym, ◌∙◌, ◌⊎◌,
  inl, inr, true, false, Option, none, some, [], ◌∷◌, ◌++◌, Bytes, length, length-append, ltb, ◌==◌,
  if◌then◌else◌, append_assoc, Option-cases, append-nil, arith,
}
use co.Utils.Ucn.{hex_digit, ucn_value, char_from_u32, sized, parse_ucn}

-- Unicode scalar values.
abbrev pub IsScalar : ℕ → Type 0
IsScalar c = (c < 0xd800) ⊎ ((0xe000 ≤ c) × (c ≤ 0x10ffff))

char_from_u32-eq-some : (v : ℕ) {c : ℕ} → char_from_u32 v ≡ some c → (v ≡ c) × IsScalar c
unfolding char_from_u32
char_from_u32-eq-some v h = ground arith

pub sized-eq-some :
    (len : ℕ) (o : Option ℕ) (ch n : ℕ)
    → sized len o ≡ some (ch, n)
    → (o ≡ some ch) × (n ≡ len) × IsScalar ch
unfolding sized
sized-eq-some len none ch n h = cc
sized-eq-some len (some v) ch n h = ground arith

-- The branches of `parse_ucn`.
pub short_name :
    (b k : ℕ) (s : Bytes)
    → (b == b'\\') ≡ true
    → (k == b'u') ≡ true
    → sized 6 (ucn_value 4 0 s) ≡ parse_ucn (b ∷ k ∷ s)
short_name b k s e u = unfold parse_ucn in rw (e, u)

pub long_name :
    (b k : ℕ) (s : Bytes)
    → (b == b'\\') ≡ true
    → (k == b'u') ≡ false
    → (k == b'U') ≡ true
    → sized 10 (ucn_value 8 0 s) ≡ parse_ucn (b ∷ k ∷ s)
long_name b k s e u w = unfold parse_ucn in rw (e, u, w)

pub no_kind :
    (b k : ℕ) (s : Bytes)
    → (b == b'\\') ≡ true
    → (k == b'u') ≡ false
    → (k == b'U') ≡ false
    → parse_ucn (b ∷ k ∷ s) ≡ none
no_kind b k s e u w = unfold parse_ucn in rw (e, u, w)

pub no_name : (b k : ℕ) (s : Bytes) → (b == b'\\') ≡ false → parse_ucn (b ∷ k ∷ s) ≡ none
no_name b k s e = unfold parse_ucn in rw e

pub absurd_none {ℓ κ} : {A : Type ℓ} {B : Type κ} {a : A} → none ≡ some a → B
absurd_none h = absurd (none-ne-some h)

-- The last `n` hexadecimal digits of a number, in lower case.
abbrev pub hex_char : ℕ → ℕ
hex_char d = if ltb d 10 then d + b'0' else d - 10 + b'a'

abbrev pub hex : ℕ → ℕ → Bytes
hex zero c = []
hex (suc n) c = hex n (c / 16) ++ hex_char (c % 16) ∷ []

abbrev Fits : ℕ → ℕ → Type 0
Fits zero c = c ≡ 0
Fits (suc n) c = Fits n (c / 16)

length-hex : (n c : ℕ) → length (hex n c) ≡ n
length-hex zero c = refl
length-hex (suc n) c =
    omega (
      arith,
      length-hex n (c / 16),
      length-append {A = ℕ} (hex n (c / 16)) (hex_char (c % 16) ∷ []),
    )

hex_digit-hex_char : (d : ℕ) → d < 16 → hex_digit (hex_char d) ≡ some d
unfolding hex_digit
hex_digit-hex_char d h = ground arith

pub ucn_value_step :
    (n acc b e : ℕ) (s : Bytes)
    → hex_digit b ≡ some e
    → ucn_value (suc n) acc (b ∷ s) ≡ ucn_value n ((acc * 16 + e) % 2 ^ 32) s
unfolding ucn_value
ucn_value_step n acc b e s h = rw (h, ucn_value)

pub ucn_value_fail :
    (n acc b : ℕ) (s : Bytes) → hex_digit b ≡ none → ucn_value (suc n) acc (b ∷ s) ≡ none
unfolding ucn_value
ucn_value_fail n acc b s h = rw (h, ucn_value)

-- One more digit at the end.
ucn_value-concat :
    (n acc v d e : ℕ) (xs rest : Bytes)
    → length xs ≡ n
    → ucn_value n acc xs ≡ some v
    → hex_digit d ≡ some e
    → ucn_value (suc n) acc (xs ++ d ∷ rest) ≡ some ((v * 16 + e) % 2 ^ 32)
ucn_value-concat zero acc v d e [] rest l h k =
    ucn_value_step zero acc d e rest k ∙ unfold ucn_value in ground arith
ucn_value-concat (suc n) acc v d e [] rest l h k = absurd (omega arith)
ucn_value-concat zero acc v d e (x ∷ xs) rest l h k = absurd (omega arith)
ucn_value-concat (suc n) acc v d e (x ∷ xs) rest l h k = elim (Option-cases (hex_digit x)) [
  | inl none_x ↦ absurd_none (sym (ucn_value_fail n acc x xs none_x) ∙ h)
  | inr (f, some_x) ↦
      ucn_value_step (suc n) acc x f (xs ++ d ∷ rest) some_x
      ∙ ucn_value-concat n ((acc * 16 + f) % 2 ^ 32) v d e xs rest (omega arith)
          (sym (ucn_value_step n acc x f xs some_x) ∙ h) k
]

ucn_value-hex :
    (n c : ℕ) (rest : Bytes) → c < 2 ^ 32 → Fits n c → ucn_value n 0 (hex n c ++ rest) ≡ some c
ucn_value-hex zero c rest h f = unfold ucn_value in rw f
ucn_value-hex (suc n) c rest h f =
    let digits = hex n (c / 16) in
    rw (append_assoc digits (hex_char (c % 16) ∷ []) rest) (
      ucn_value-concat n 0 (c / 16) (hex_char (c % 16)) (c % 16) digits rest (length-hex n (c / 16))
        (rw append-nil at (ucn_value-hex n (c / 16) [] (omega arith) f))
        (hex_digit-hex_char (c % 16) (omega arith))
      ∙ ap some (omega arith))

pub sized_scalar : (len c : ℕ) → IsScalar c → sized len (some c) ≡ some (c, len)
unfolding sized
sized_scalar len c h = ground arith

-- `\u` with four digits names every character below U+10000, whatever text follows.
pub parse_ucn-hex_short :
    (c : ℕ) (rest : Bytes)
    → IsScalar c
    → c < 2 ^ 16
    → parse_ucn (b'\\' ∷ b'u' ∷ (hex 4 c ++ rest)) ≡ some (c, 6)
parse_ucn-hex_short c rest h short =
    sym (short_name b'\\' b'u' (hex 4 c ++ rest) refl refl)
    ∙ ap (sized 6) (ucn_value-hex 4 c rest (omega arith) (omega arith))
    ∙ sized_scalar 6 c h

-- `\U` with eight digits names every character, whatever text follows: the 32-bit accumulator never
-- wraps.
pub parse_ucn-hex_long :
    (c : ℕ) (rest : Bytes)
    → IsScalar c
    → parse_ucn (b'\\' ∷ b'U' ∷ (hex 8 c ++ rest)) ≡ some (c, 10)
parse_ucn-hex_long c rest h =
    sym (long_name b'\\' b'U' (hex 8 c ++ rest) refl refl refl)
    ∙ ap (sized 10) (ucn_value-hex 8 c rest (omega arith) (omega arith))
    ∙ sized_scalar 10 c h
