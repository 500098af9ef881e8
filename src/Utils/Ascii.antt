-- ===== src/Utils/Ascii.antt =====
-- ASCII text: what keeps it so, and that no slice of it panics.
use mathlib.Core.List.{reverse, reverse-append}
use co.Prelude.{
  ℕ, zero, suc, ◌≡◌, refl, ap, sym, ◌∙◌, Bool, true, [], ◌∷◌, ◌++◌, Bytes, all, all-append, span,
  drop, length, ltb, arith, and-eq-true, span-append,
}
use co.Prelude.Outcome.{ok}
use co.Utils.Literals.{skip_literal_bytes}
use co.Utils.Scans.{skip_literal_bytes-append}
use co.Utils.Text.{
  bytes_to_str, is_utf8, is_utf8_after, followers, trim, strip, space_len, space_len_back,
}

abbrev pub is_ascii : Bytes → Bool
is_ascii = all (λ c. ltb c 0x80)

abbrev pub IsAscii : Bytes → Type 0
IsAscii s = is_ascii s ≡ true

pub IsAscii-append : (xs ys : Bytes) → IsAscii (xs ++ ys) → IsAscii xs × IsAscii ys
IsAscii-append xs ys h = and-eq-true _ _ (sym (all-append _ xs ys) ∙ h)

pub IsAscii-tail : (c : ℕ) (s : Bytes) → IsAscii (c ∷ s) → IsAscii s
IsAscii-tail c s h = ground arith

pub append-IsAscii : (xs ys : Bytes) → IsAscii xs → IsAscii ys → IsAscii (xs ++ ys)
append-IsAscii xs ys h k = all-append _ xs ys ∙ rw (h, k)

pub span-IsAscii :
    (p : ℕ → Bool) (s : Bytes) → IsAscii s → IsAscii (span p s).0 × IsAscii (span p s).1
span-IsAscii p s h = IsAscii-append (span p s).0 (span p s).1 (ap is_ascii (span-append p s) ∙ h)

pub drop-IsAscii : (n : ℕ) (s : Bytes) → IsAscii s → IsAscii (drop n s)
drop-IsAscii zero s h = h
drop-IsAscii (suc n) [] h = h
drop-IsAscii (suc n) (c ∷ s) h = drop-IsAscii n s (IsAscii-tail c s h)

pub skip-IsAscii : (q : ℕ) (s : Bytes) → IsAscii s → IsAscii (skip_literal_bytes q s).1
skip-IsAscii q s h =
    (IsAscii-append (skip_literal_bytes q s).0 (skip_literal_bytes q s).1
      (ap is_ascii (skip_literal_bytes-append q s) ∙ h)).1

pub is_utf8-IsAscii : (s : Bytes) → IsAscii s → is_utf8_after [] s ≡ true
unfolding is_utf8_after followers
is_utf8-IsAscii [] h = refl
is_utf8-IsAscii (c ∷ s) h = ground (arith, is_utf8-IsAscii s)

pub bytes_to_str-IsAscii : (s : Bytes) → IsAscii s → bytes_to_str s ≡ ok s
unfolding bytes_to_str is_utf8
bytes_to_str-IsAscii s h = rw (is_utf8-IsAscii s h)

pub strip-IsAscii : (len : Bytes → ℕ) (f : ℕ) (s : Bytes) → IsAscii s → IsAscii (strip len f s)
unfolding strip
strip-IsAscii len zero s h = h
strip-IsAscii len (suc f) s h =
    ground (arith, strip-IsAscii len f (drop (len s) s) (drop-IsAscii (len s) s h))

pub reverse-IsAscii : (s : Bytes) → IsAscii s → IsAscii (reverse s)
reverse-IsAscii [] h = refl
reverse-IsAscii (c ∷ s) h =
    rw (reverse-append (c ∷ []) s)
      (append-IsAscii (reverse s) (c ∷ []) (reverse-IsAscii s (IsAscii-tail c s h)) (ground arith))

pub trim-IsAscii : (s : Bytes) → IsAscii s → IsAscii (trim s)
unfolding trim
trim-IsAscii s h =
    let front = strip-IsAscii space_len (length s) s h in
    let kept = strip space_len (length s) s in
    reverse-IsAscii (strip space_len_back (length kept) (reverse kept))
      (strip-IsAscii space_len_back (length kept) (reverse kept) (reverse-IsAscii kept front))
