-- ===== src/Macros/Token/Cuts.antt =====
-- What each branch of the macro body tokenizer takes off its text.
use mathlib.Core.Bool.{false≢true}
use co.Prelude.{
  none-ne-some, ℕ, zero, suc, ◌<◌, ◌≤◌, ◌≡◌, refl, ap, sym, Bool, true, ◌&&◌, List, [], ◌∷◌, ◌++◌,
  Bytes, codes, span, span-append, take, drop, take-append-drop, head_is, length, length-drop, ltb,
  ◌==◌, if◌then◌else◌, if_both, arith, Option, none, some, subst, Bool-cases, inl, inr,
}
use co.Prelude.Outcome.{Outcome, ok, ◌>>=◌, Settles, settled, crashed}
use co.Utils.Classes.{is_digit, is_whitespace}
use co.Utils.Ident.{first_char, decode_utf8_char}
use co.Utils.Text.{is_utf8}
use co.Macros.Token.{
  MacroBodyToken, Cut, prepend_cut, quoted, quoted_token, is_number_byte, is_other_byte,
  plain_token, token_text,
}

-- The text of the tokens, one after the other.
unfoldable pub tokens_text : List MacroBodyToken → Outcome Bytes
unfolding token_text
tokens_text [] = ok []
tokens_text (t ∷ ts) = token_text t >>= λ x. tokens_text ts >>= λ more. ok (x ++ more)

pub tokens_text-nil : tokens_text [] ≡ ok []
unfolding tokens_text
tokens_text-nil = refl

pub tokens_text-cons :
    (t : MacroBodyToken) (ts : List MacroBodyToken) (x y : Bytes)
    → token_text t ≡ ok x
    → tokens_text ts ≡ ok y
    → tokens_text (t ∷ ts) ≡ ok (x ++ y)
tokens_text-cons t ts x y h k = unfold tokens_text in rw (h, k)

-- A token with a text of its own, and the text behind it, make up `s`.
abbrev pub TakesFrom : Bytes → MacroBodyToken × Bytes → Type 0
TakesFrom s p = (x : Bytes) × (token_text p.0 ≡ ok x) × (1 ≤ length x) × (x ++ p.1 ≡ s)

abbrev pub CutOf : Bytes → Option Cut → Type 0
CutOf s none = Unit {0}
CutOf s (some (text, rest)) = text ++ rest ≡ s

pub prepend_cut-CutOf :
    (c : ℕ) (s : Bytes) (o : Option Cut) → CutOf s o → CutOf (c ∷ s) (prepend_cut c o)
prepend_cut-CutOf c s none h = tt
prepend_cut-CutOf c s (some (text, rest)) h = ap (◌∷◌ c) h

pub quoted_short :
    (q c : ℕ)
    → quoted q (c ∷ [])
      ≡ (if c == q then some (c ∷ [], []) else if c == b'\\' then none else some (c ∷ [], []))
unfolding quoted
quoted_short q c = refl

pub quoted_step :
    (q c d : ℕ) (r : Bytes)
    → quoted q (c ∷ d ∷ r) ≡ (
        if c == q
        then some (c ∷ [], d ∷ r)
        else if c == b'\\'
        then prepend_cut c (prepend_cut d (quoted q r))
        else prepend_cut c (quoted q (d ∷ r)))
unfolding quoted
quoted_step q c d r = ground arith

pub quoted-CutOf : (q : ℕ) (s : Bytes) → CutOf s (quoted q s)
quoted-CutOf q [] = unfold quoted in refl
quoted-CutOf q (c ∷ []) =
    let P = CutOf (c ∷ []) in
    subst P (sym (quoted_short q c))
      (if_both P (c == q) (λ _. refl) λ _. if_both P (c == b'\\') (λ _. tt) (λ _. refl))
quoted-CutOf q (c ∷ d ∷ r) =
    let P = CutOf (c ∷ d ∷ r) in
    let escaped = prepend_cut-CutOf c _ _ (prepend_cut-CutOf d r (quoted q r) (quoted-CutOf q r)) in
    let plain = prepend_cut-CutOf c (d ∷ r) (quoted q (d ∷ r)) (quoted-CutOf q (d ∷ r)) in
    subst P (sym (quoted_step q c d r))
      (if_both P (c == q) (λ _. refl) λ _. if_both P (c == b'\\') (λ _. escaped) (λ _. plain))

pub quoted_token-TakesFrom :
    (kind : Bytes → MacroBodyToken) (b : ℕ) (r : Bytes) (o : Option Cut)
    → ((s : Bytes) → token_text (kind s) ≡ ok s)
    → CutOf r o
    → Settles (TakesFrom (b ∷ r)) (quoted_token kind b o)
unfolding quoted_token
quoted_token-TakesFrom kind b r none t h = crashed
quoted_token-TakesFrom kind b r (some (text, rest)) t h =
    settled (b ∷ text, t (b ∷ text), omega arith, ap (◌∷◌ b) h)

pub drop-length_le : (n : ℕ) (s : Bytes) → length (drop n s) ≤ length s
drop-length_le n s = omega (arith, length-drop {A = ℕ} n s)

pub take_pos : (n : ℕ) (c : ℕ) (s : Bytes) → 0 < n → 1 ≤ length (take n (c ∷ s))
take_pos zero c s h = absurd (omega arith)
take_pos (suc n) c s h = omega arith

abbrev pub char_len : Bytes → ℕ
char_len s = elim (first_char s) [ none ↦ 1 | some (ch, n) ↦ n ]

pub char_len_pos : (s : Bytes) → 0 < char_len s
unfolding first_char
char_len_pos [] = omega arith
char_len_pos (a ∷ []) = omega arith
char_len_pos (a ∷ b ∷ []) = ground arith
char_len_pos (a ∷ b ∷ c ∷ []) = ground arith
char_len_pos (a ∷ b ∷ c ∷ d ∷ s) = ground arith

-- A run of one class behind the byte that starts it.
pub run-append : (p : ℕ → Bool) (b : ℕ) (r : Bytes) → (b ∷ (span p r).0) ++ (span p r).1 ≡ b ∷ r
run-append p b r = ap (◌∷◌ b) (span-append p r)

pub second_hash :
    (b : ℕ) (r : Bytes)
    → (b == b'#' && head_is (λ c. c == b'#') r) ≡ true
    → codes "##" ++ drop 1 r ≡ b ∷ r
second_hash b [] h = absurd (false≢true (ground arith))
second_hash b (c ∷ r) h = ground arith

pub byte_is : (b k : ℕ) (r : Bytes) → (b == k) ≡ true → k ∷ r ≡ b ∷ r
byte_is b k r h = ground arith

pub plain_token-TakesFrom : (b : ℕ) (r : Bytes) → TakesFrom (b ∷ r) (plain_token b r)
unfolding plain_token token_text
plain_token-TakesFrom b r =
    let P = TakesFrom (b ∷ r) in
    let n = char_len (b ∷ r) in
    if_both P (b == b'#' && head_is (λ c. c == b'#') r)
      (λ h. (codes "##", refl, omega arith, second_hash b r h))
      λ _.
        if_both P (b == b'#') (λ h. (codes "#", refl, omega arith, byte_is b b'#' r h))
          λ _.
            if_both P (b == b'(') (λ h. (codes "(", refl, omega arith, byte_is b b'(' r h))
              λ _.
                if_both P (b == b')') (λ h. (codes ")", refl, omega arith, byte_is b b')' r h))
                  λ _.
                    if_both P (b == b',') (λ h. (codes ",", refl, omega arith, byte_is b b',' r h))
                      λ _.
                        if_both P (is_digit b)
                          (λ h. (_, refl, omega arith, run-append is_number_byte b r))
                          λ _.
                            if_both P (ltb b 0x80)
                              (λ h. (
                                _,
                                refl,
                                omega arith,
                                run-append (is_other_byte (is_whitespace b)) b r,
                              ))
                              (λ h. (
                                take n (b ∷ r),
                                refl,
                                take_pos n b r (char_len_pos (b ∷ r)),
                                take-append-drop n (b ∷ r),
                              ))

pub first_char_pos : (s : Bytes) (ch n : ℕ) → first_char s ≡ some (ch, n) → 0 < n
unfolding first_char
first_char_pos [] ch n h = cc
first_char_pos (a ∷ []) ch n h = ground arith
first_char_pos (a ∷ b ∷ []) ch n h = ground arith
first_char_pos (a ∷ b ∷ c ∷ []) ch n h = ground arith
first_char_pos (a ∷ b ∷ c ∷ d ∷ s) ch n h = ground arith

pub decode_first :
    (s : Bytes) (ch n : ℕ) → decode_utf8_char s ≡ some (ch, n) → first_char s ≡ some (ch, n)
unfolding decode_utf8_char
decode_first s ch n h = elim (Bool-cases (is_utf8 s)) [
  | inl e ↦ rw e at h
  | inr e ↦ absurd (none-ne-some (rw e at h))
]

pub decode_pos : (s : Bytes) (ch n : ℕ) → decode_utf8_char s ≡ some (ch, n) → 0 < n
decode_pos s ch n h = first_char_pos s ch n (decode_first s ch n h)
