-- ===== src/Directives/Idents/Laws.antt =====
-- `replace_remaining_idents_with_zero` ends, and on words does what C says.
use co.Prelude.{
  inl, inr, Bool-cases, false, codes, equal, equal_iff, ◌∙◌, ℕ, zero, suc, ◌+◌, ◌<◌, ◌≡◌, ◌≢◌, refl,
  ap, sym, true, false, ◌&&◌, List, [], ◌∷◌, ◌++◌, map, Bytes, none, all, span, span-all, drop,
  length, length-append, length-drop, length-span_le, head_is, ◌==◌, if_both, arith, and-eq-true,
  subst,
}
use co.Prelude.Outcome.{ok, out_of_fuel, Settles, settled, Settles-bind}
use co.Utils.Ascii.{IsAscii, bytes_to_str-IsAscii}
use co.Utils.Classes.{
  is_digit, is_alphanumeric, is_alphabetic, is_ident_start_byte, is_ident_cont_byte,
  is_ident_start_byte-not_digit, is_quote,
}
use co.Utils.Literals.{literal_prefix_len}
use co.Directives.Idents.{
  is_number_tail, number_text, zero_ident, replace_round, replace_remaining_idents_with_zero,
}
use co.Directives.Scan.Laws.{Shrinks, bytes_to_str-Settles, scan_text-ends, scan_round}
use co.Directives.Scan.{literal_at, scan, scan_text}

number_text-Shrinks : (b : ℕ) (r : Bytes) → Shrinks (length r) (number_text b r)
unfolding number_text
number_text-Shrinks b r = ground (
  arith,
  length-span_le is_number_tail (drop 1 r),
  length-span_le is_number_tail r,
  length-drop {A = ℕ} 1 r,
)

replace_round-Settles : (b : ℕ) (r : Bytes) → Settles (Shrinks (length r)) (replace_round b r)
unfolding replace_round
replace_round-Settles b r =
    let P = Settles (Shrinks (length r)) in
    if_both P (is_digit b) (λ _. settled (number_text-Shrinks b r))
      λ _.
        if_both P (is_ident_start_byte b)
          (λ _.
            Settles-bind (bytes_to_str-Settles (b ∷ (span is_ident_cont_byte r).0))
              λ name e. settled (length-span_le is_ident_cont_byte r))
          (λ _. settled (omega arith))

-- A word of an expression: an ASCII identifier.
pub record IsWord (w : Bytes) : Type 0 where
  pub head : ℕ
  pub tail : Bytes
  pub split : w ≡ head ∷ tail
  pub starts : is_ident_start_byte head ≡ true
  pub continues : all is_ident_cont_byte tail ≡ true
  pub ascii : IsAscii (head ∷ tail)

abbrev pub AllWords : List Bytes → Type 0
AllWords [] = Unit {0}
AllWords (w ∷ ws) = IsWord w × AllWords ws

-- Every word with a space behind it.
abbrev pub unwords : List Bytes → Bytes
unwords [] = []
unwords (w ∷ ws) = w ++ b' ' ∷ unwords ws

pub space_plain : (s : Bytes) → literal_at (b' ' ∷ s) ≡ none
unfolding literal_at literal_prefix_len
space_plain s = refl

space_round : (s : Bytes) → replace_round b' ' s ≡ ok (b' ' ∷ [], s)
unfolding replace_round is_digit is_ident_start_byte
space_round s = refl

cont-not_quote : (c : ℕ) → is_ident_cont_byte c ≡ true → is_quote c ≡ false
unfolding is_ident_cont_byte is_quote is_alphanumeric is_alphabetic is_digit
cont-not_quote c h = ground arith

start-not_quote : (c : ℕ) → is_ident_start_byte c ≡ true → is_quote c ≡ false
unfolding is_ident_start_byte is_quote is_alphabetic
start-not_quote c h = ground arith

-- No quote stands where a word goes on, or ends at a space.
no_quote :
    (w s : Bytes) → all is_ident_cont_byte w ≡ true → head_is is_quote (w ++ b' ' ∷ s) ≡ false
no_quote [] s k = unfold is_quote in refl
no_quote (c ∷ w) s k = cont-not_quote c (and-eq-true _ _ k).0

no_quote_later :
    (w s : Bytes)
    → all is_ident_cont_byte w ≡ true
    → (head_is (λ c. c == b'8') (w ++ b' ' ∷ s) && head_is is_quote (drop 1 (w ++ b' ' ∷ s)))
      ≡ false
no_quote_later [] s k = refl
no_quote_later (c ∷ w) s k =
    let quiet = no_quote w s (and-eq-true (is_ident_cont_byte c) (all is_ident_cont_byte w) k).1 in
    ground (arith, quiet)

-- An identifier with a space behind it is no literal prefix and no literal.
word_prefix :
    (b : ℕ) (w s : Bytes)
    → all is_ident_cont_byte w ≡ true
    → literal_prefix_len (b ∷ (w ++ b' ' ∷ s)) ≡ 0
unfolding literal_prefix_len
word_prefix b w s k = ground (arith, no_quote w s k, no_quote_later w s k)

pub word_plain :
    (b : ℕ) (w s : Bytes)
    → is_ident_start_byte b ≡ true
    → all is_ident_cont_byte w ≡ true
    → literal_at (b ∷ (w ++ b' ' ∷ s)) ≡ none
unfolding literal_at is_quote
word_plain b w s h k = rw (word_prefix b w s k) (ground (arith, start-not_quote b h))

word_round :
    (b : ℕ) (w s : Bytes)
    → is_ident_start_byte b ≡ true
    → all is_ident_cont_byte w ≡ true
    → IsAscii (b ∷ w)
    → replace_round b (w ++ b' ' ∷ s) ≡ ok (zero_ident (b ∷ w), b' ' ∷ s)
unfolding replace_round
word_round b w s h k a =
    rw
      (
        is_ident_start_byte-not_digit b h,
        h,
        span-all is_ident_cont_byte w (b' ' ∷ s) k (unfold is_ident_cont_byte in refl),
        bytes_to_str-IsAscii (b ∷ w) a,
      )
      refl

pub length-unwords :
    (w : Bytes) (ws : List Bytes) → length (unwords (w ∷ ws)) ≡ length w + suc (length (unwords ws))
length-unwords w ws = length-append {A = ℕ} w (b' ' ∷ unwords ws)

-- The word and the space behind it are two rounds.
word_scan :
    (f b : ℕ) (w s out : Bytes)
    → is_ident_start_byte b ≡ true
    → all is_ident_cont_byte w ≡ true
    → IsAscii (b ∷ w)
    → scan replace_round f s ≡ ok out
    → scan replace_round (suc (suc f)) (b ∷ (w ++ b' ' ∷ s)) ≡ ok (zero_ident (b ∷ w) ++ b' ' ∷ out)
word_scan f b w s out h k a more =
    let spaced =
      scan_round replace_round f b' ' s (b' ' ∷ []) s out (space_plain s) (space_round s) more in
    scan_round replace_round (suc f) b (w ++ b' ' ∷ s) (zero_ident (b ∷ w)) (b' ' ∷ s) (b' ' ∷ out)
      (word_plain b w s h k) (word_round b w s h k a) spaced

words_scan :
    (f : ℕ) (ws : List Bytes)
    → length (unwords ws) < f
    → AllWords ws
    → scan replace_round f (unwords ws) ≡ ok (unwords (map zero_ident ws))
words_scan zero ws h k = absurd (omega arith)
words_scan (suc f) [] h k = unfold scan in refl
words_scan (suc zero) (w ∷ ws) h k = absurd (omega (arith, length-unwords w ws))
words_scan (suc (suc f)) (w ∷ ws) h (word, k) =
    let more = words_scan f ws (omega (arith, length-unwords w ws, ap length word.split)) k in
    let Scans = λ (v : Bytes).
      scan replace_round (suc (suc f)) (v ++ b' ' ∷ unwords ws)
      ≡ ok (zero_ident v ++ b' ' ∷ unwords (map zero_ident ws)) in
    subst Scans (sym word.split) (
      word_scan f word.head word.tail (unwords ws) (unwords (map zero_ident ws)) word.starts
        word.continues word.ascii more)

-- What is to become of an identifier: three names are kept, all others count as 0.
pub data Zeroed (w out : Bytes) : Type 0 where
  kept_defined : w ≡ codes "defined" → out ≡ codes "defined" → Zeroed w out
  kept_true : w ≡ codes "true" → out ≡ codes "true" → Zeroed w out
  kept_false : w ≡ codes "false" → out ≡ codes "false" → Zeroed w out
  zeroed :
      w ≢ codes "defined" → w ≢ codes "true" → w ≢ codes "false" → out ≡ codes "0" → Zeroed w out

pub data AllZeroed : List Bytes → List Bytes → Type 0 where
  no_words : AllZeroed [] []
  more_words :
      {w out : Bytes} {ws outs : List Bytes}
      → Zeroed w out
      → AllZeroed ws outs
      → AllZeroed (w ∷ ws) (out ∷ outs)

equal-ne : (s t : Bytes) → s ≢ t → equal s t ≡ false
equal-ne s t h = elim (Bool-cases (equal s t)) [
  | inl e ↦ absurd (h ((equal_iff s t).0 e))
  | inr e ↦ e
]

Zeroed-zero_ident : (w out : Bytes) → Zeroed w out → zero_ident w ≡ out
unfolding zero_ident equal
Zeroed-zero_ident w out (kept_defined h e) = rw (h, e) refl
Zeroed-zero_ident w out (kept_true h e) = rw (h, e) refl
Zeroed-zero_ident w out (kept_false h e) = rw (h, e) refl
Zeroed-zero_ident w out (zeroed d t f e) =
    rw (equal-ne w _ d, equal-ne w _ t, equal-ne w _ f) (sym e)

map-zero_ident : {ws outs : List Bytes} → AllZeroed ws outs → map zero_ident ws ≡ outs
map-zero_ident no_words = refl
map-zero_ident (more_words {w} {out} e es) = rw (Zeroed-zero_ident w out e, map-zero_ident es) refl

-- On a line of ASCII identifiers with a space behind each, `defined`, `true` and `false` are kept,
-- and each other identifier is replaced by `0`.
pub replace_remaining_idents_with_zero-unwords :
    (ws outs : List Bytes)
    → AllWords ws
    → AllZeroed ws outs
    → replace_remaining_idents_with_zero (unwords ws) ≡ ok (unwords outs)
unfolding replace_remaining_idents_with_zero
replace_remaining_idents_with_zero-unwords ws outs k z =
    (unfold scan_text in words_scan (suc (length (unwords ws))) ws (omega arith) k)
    ∙ ap (λ os. ok (unwords os)) (map-zero_ident z)

-- The pass never runs out of fuel: it ends on every text.
pub replace_remaining_idents_with_zero-ends :
    (s : Bytes) → replace_remaining_idents_with_zero s ≢ out_of_fuel
unfolding replace_remaining_idents_with_zero
replace_remaining_idents_with_zero-ends = scan_text-ends replace_round replace_round-Settles
