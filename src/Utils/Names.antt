-- ===== src/Utils/Names.antt =====
-- co2_preprocessor/src/utils.rs: the texts that `parse_ucn` accepts.
use co.Prelude.{
  subst, ==_iff, ℕ, zero, suc, ◌+◌, ◌-◌, ◌*◌, ◌/◌, ◌%◌, ◌^◌, ◌<◌, ◌≤◌, ◌≡◌, refl, ap, sym, ◌∙◌, ◌↔◌,
  inl, inr, none, some, [], ◌∷◌, ◌++◌, Bytes, ◌==◌, within, Option-cases, Bool-cases, arith,
}
use co.Utils.Escapes.{
  IsScalar, sized-eq-some, short_name, long_name, no_kind, no_name, absurd_none, ucn_value_step,
  ucn_value_fail, sized_scalar,
}
use co.Utils.Ucn.{hex_digit, ucn_value, sized, parse_ucn}

-- A hexadecimal digit and its value.
pub data IsHexDigit (c d : ℕ) : Type 0 where
  decimal : d < 10 → c ≡ b'0' + d → IsHexDigit c d
  lower : (e : ℕ) → e < 6 → c ≡ b'a' + e → d ≡ 10 + e → IsHexDigit c d
  upper : (e : ℕ) → e < 6 → c ≡ b'A' + e → d ≡ 10 + e → IsHexDigit c d

-- `HexReads before n s v`: the text `s` is `n` digits, and behind digits that read `before` it makes
-- them read `v`.
pub data HexReads : ℕ → ℕ → Bytes → ℕ → Type 0 where
  nil : {before : ℕ} → HexReads before 0 [] before
  digit :
      {before c d n v : ℕ} {s : Bytes}
      → IsHexDigit c d
      → HexReads (before * 16 + d) n s v
      → HexReads before (suc n) (c ∷ s) v

-- A universal character name at the beginning of `s`, its character and its length.
pub data IsName (s : Bytes) (ch n : ℕ) : Type 0 where
  short :
      (digits rest : Bytes)
      → s ≡ b'\\' ∷ b'u' ∷ (digits ++ rest)
      → HexReads 0 4 digits ch
      → IsScalar ch
      → n ≡ 6
      → IsName s ch n
  long :
      (digits rest : Bytes)
      → s ≡ b'\\' ∷ b'U' ∷ (digits ++ rest)
      → HexReads 0 8 digits ch
      → IsScalar ch
      → n ≡ 10
      → IsName s ch n

hex_digit-IsHexDigit : (c d : ℕ) → hex_digit c ≡ some d → IsHexDigit c d
unfolding hex_digit
hex_digit-IsHexDigit c d h = elim (Bool-cases (within b'0' b'9' c)) [
  | inl e ↦ decimal (ground arith) (ground arith)
  | inr e ↦ elim (Bool-cases (within b'a' b'f' c)) [
    | inl f ↦ lower (c - b'a') (ground arith) (ground arith) (ground arith)
    | inr f ↦ elim (Bool-cases (within b'A' b'F' c)) [
      | inl g ↦ upper (c - b'A') (ground arith) (ground arith) (ground arith)
      | inr g ↦ ground arith
    ]
  ]
]

IsHexDigit-hex_digit : (c d : ℕ) → IsHexDigit c d → (hex_digit c ≡ some d) × (d < 16)
unfolding hex_digit
IsHexDigit-hex_digit c d (decimal h e) = ground arith
IsHexDigit-hex_digit c d (lower f h e k) = ground arith
IsHexDigit-hex_digit c d (upper f h e k) = ground arith

-- An accumulator below this is not wrapped by `n` more digits.
abbrev room : ℕ → ℕ
room zero = 2 ^ 32
room (suc n) = room n / 16

room_le : (n : ℕ) → room n ≤ 2 ^ 32
room_le zero = omega arith
room_le (suc n) = omega (arith, room_le n)

-- One more digit neither wraps nor leaves the room of the others.
one_digit :
    (n acc d : ℕ)
    → acc < room (suc n)
    → d < 16
    → ((acc * 16 + d) % 2 ^ 32 ≡ acc * 16 + d) × (acc * 16 + d < room n)
one_digit n acc d h k =
    let fits : acc * 16 + d < room n = omega arith in (omega (arith, room_le n, fits), fits)

ucn_value_digit :
    (n acc c d : ℕ) (s : Bytes)
    → acc < room (suc n)
    → IsHexDigit c d
    → (ucn_value (suc n) acc (c ∷ s) ≡ ucn_value n (acc * 16 + d) s) × (acc * 16 + d < room n)
ucn_value_digit n acc c d s h k =
    let (value, below) = IsHexDigit-hex_digit c d k in
    let (exact, fits) = one_digit n acc d h below in
    (ucn_value_step n acc c d s value ∙ ap (λ v. ucn_value n v s) exact, fits)

HexReads-ucn_value :
    {acc n v : ℕ} {digits : Bytes} (rest : Bytes)
    → HexReads acc n digits v
    → acc < room n
    → ucn_value n acc (digits ++ rest) ≡ some v
HexReads-ucn_value rest nil h = unfold ucn_value in refl
HexReads-ucn_value rest (digit {before} {c} {d} {n} {s = s} k more) h =
    let (step, fits) = ucn_value_digit n before c d (s ++ rest) h k in
    step ∙ HexReads-ucn_value rest more fits

-- The digits in front of `s` that read `v`.
abbrev Reads : ℕ → ℕ → Bytes → ℕ → Type 0
Reads acc n s v = (digits rest : Bytes) × (s ≡ digits ++ rest) × HexReads acc n digits v

ucn_value-none : (n acc : ℕ) → ucn_value (suc n) acc [] ≡ none
unfolding ucn_value
ucn_value-none n acc = refl

ucn_value_end : (acc v : ℕ) (s : Bytes) → ucn_value zero acc s ≡ some v → acc ≡ v
unfolding ucn_value
ucn_value_end acc v s e = cc

ucn_value-Reads :
    (n acc : ℕ) (s : Bytes) (v : ℕ) → acc < room n → ucn_value n acc s ≡ some v → Reads acc n s v
ucn_value-Reads zero acc s v h e =
    ([], s, refl, subst (HexReads acc zero []) (ucn_value_end acc v s e) nil)
ucn_value-Reads (suc n) acc [] v h e = absurd_none (sym (ucn_value-none n acc) ∙ e)
ucn_value-Reads (suc n) acc (c ∷ s) v h e = elim (Option-cases (hex_digit c)) [
  | inl none_c ↦ absurd_none (sym (ucn_value_fail n acc c s none_c) ∙ e)
  | inr (d, some_c) ↦
      let k = hex_digit-IsHexDigit c d some_c in
      let (step, fits) = ucn_value_digit n acc c d s h k in
      let (digits, rest, split, more) = ucn_value-Reads n (acc * 16 + d) s v fits (sym step ∙ e) in
      (c ∷ digits, rest, ap (◌∷◌ c) split, digit k more)
]

short-IsName :
    (k : ℕ) (s : Bytes) (ch n : ℕ)
    → k ≡ b'u'
    → sized 6 (ucn_value 4 0 s) ≡ some (ch, n)
    → IsName (b'\\' ∷ k ∷ s) ch n
short-IsName k s ch n u h =
    let (value, size, scalar) = sized-eq-some 6 (ucn_value 4 0 s) ch n h in
    let (digits, rest, split, reads) = ucn_value-Reads 4 0 s ch (omega arith) value in
    short digits rest (ap (◌∷◌ b'\\') (rw u (ap (◌∷◌ b'u') split))) reads scalar size

long-IsName :
    (k : ℕ) (s : Bytes) (ch n : ℕ)
    → k ≡ b'U'
    → sized 10 (ucn_value 8 0 s) ≡ some (ch, n)
    → IsName (b'\\' ∷ k ∷ s) ch n
long-IsName k s ch n u h =
    let (value, size, scalar) = sized-eq-some 10 (ucn_value 8 0 s) ch n h in
    let (digits, rest, split, reads) = ucn_value-Reads 8 0 s ch (omega arith) value in
    long digits rest (ap (◌∷◌ b'\\') (rw u (ap (◌∷◌ b'U') split))) reads scalar size

kind-IsName :
    (b k : ℕ) (s : Bytes) (ch n : ℕ)
    → parse_ucn (b ∷ k ∷ s) ≡ some (ch, n)
    → IsName (b ∷ k ∷ s) ch n
kind-IsName b k s ch n h = elim (Bool-cases (b == b'\\')) [
  | inl e ↦
      subst (λ a. IsName (a ∷ k ∷ s) ch n) (sym ((==_iff b b'\\').0 e))
        (elim (Bool-cases (k == b'u')) [
          | inl u ↦ short-IsName k s ch n ((==_iff k b'u').0 u) (short_name b k s e u ∙ h)
          | inr u ↦ elim (Bool-cases (k == b'U')) [
            | inl w ↦ long-IsName k s ch n ((==_iff k b'U').0 w) (long_name b k s e u w ∙ h)
            | inr w ↦ absurd_none (sym (no_kind b k s e u w) ∙ h)
          ]
        ])
  | inr e ↦ absurd_none (sym (no_name b k s e) ∙ h)
]

name_parses : (s : Bytes) (ch n : ℕ) → IsName s ch n → parse_ucn s ≡ some (ch, n)
name_parses s ch n (short digits rest split reads scalar size) =
    rw (split, size)
      (sym (short_name b'\\' b'u' (digits ++ rest) refl refl)
        ∙ ap (sized 6) (HexReads-ucn_value rest reads (omega arith))
        ∙ sized_scalar 6 ch scalar)
name_parses s ch n (long digits rest split reads scalar size) =
    rw (split, size)
      (sym (long_name b'\\' b'U' (digits ++ rest) refl refl refl)
        ∙ ap (sized 10) (HexReads-ucn_value rest reads (omega arith))
        ∙ sized_scalar 10 ch scalar)

parsed-IsName : (s : Bytes) (ch n : ℕ) → parse_ucn s ≡ some (ch, n) → IsName s ch n
unfolding parse_ucn
parsed-IsName [] ch n h = absurd_none h
parsed-IsName (b ∷ []) ch n h = absurd_none h
parsed-IsName (b ∷ k ∷ s) ch n h = kind-IsName b k s ch n h

-- `parse_ucn` finds a character and a length just where the text starts with `\u` and four
-- hexadecimal digits, with the length 6, or `\U` and eight, with the length 10, and the digits read
-- the code of the character, which is a Unicode scalar value.
pub parse_ucn-IsName : (s : Bytes) (ch n : ℕ) → (parse_ucn s ≡ some (ch, n)) ↔ IsName s ch n
parse_ucn-IsName s ch n = (parsed-IsName s ch n, name_parses s ch n)

-- A name is never empty.
pub parse_ucn_pos : (s : Bytes) (ch n : ℕ) → parse_ucn s ≡ some (ch, n) → 0 < n
parse_ucn_pos s ch n h = positive (parsed-IsName s ch n h)
  where
    positive : IsName s ch n → 0 < n
    positive (short digits rest split reads scalar size) = omega arith
    positive (long digits rest split reads scalar size) = omega arith
