-- ===== src/Utils/Splice.antt =====
-- The copier of unspliced literals stops where the plain scanner stops.
use co.Prelude.{
  ℕ, zero, suc, ◌≡◌, ◌≢◌, ◌≤◌, refl, sym, ◌∙◌, [], ◌∷◌, ◌==◌, Bytes, drop, length, if◌then◌else◌,
  arith, inl, inr, Bool-cases, ==_iff, length-drop,
}
use co.Utils.Literals.{skip_body, skip_literal_bytes}
use co.Utils.Raw.{line_ending, raw_escape, raw_body, copy_literal_bytes_raw}

module _ {q : ℕ} (not_escape : q ≢ b'\\') (not_newline : q ≢ b'\n') (not_return : q ≢ 13) where
  skip_body-plain :
      (c : ℕ) (s : Bytes) → c ≢ q → c ≢ b'\\' → (skip_body q (c ∷ s)).1 ≡ (skip_body q s).1
  unfolding skip_body
  skip_body-plain c [] h k = refl
  skip_body-plain c (d ∷ s) h k = ground arith

  -- A line ending in the body is plain to the scanner.
  skip_body-line_ending : (s : Bytes) → (skip_body q (drop (line_ending s) s)).1 ≡ (skip_body q s).1
  unfolding line_ending
  skip_body-line_ending [] = refl
  skip_body-line_ending (c ∷ []) = ground (arith, skip_body-plain c [])
  skip_body-line_ending (c ∷ d ∷ s) = ground (arith, skip_body-plain c (d ∷ s), skip_body-plain d s)

  skip_body-nil : (skip_body q []).1 ≡ []
  unfolding skip_body
  skip_body-nil = refl

  skip_body-pair : (d : ℕ) (r : Bytes) → (skip_body q (b'\\' ∷ d ∷ r)).1 ≡ (skip_body q r).1
  unfolding skip_body
  skip_body-pair d r = refl

  -- What an escape passes over leads the scanner to the same end.
  skip_body-escape :
      (d : ℕ) (r : Bytes)
      → (skip_body q (drop (raw_escape (d ∷ r)).1 (b'\\' ∷ d ∷ r))).1 ≡ (skip_body q r).1
  unfolding raw_escape
  skip_body-escape d [] = ground arith
  skip_body-escape d (e ∷ []) = ground (arith, skip_body-plain e [])
  skip_body-escape d (e ∷ g ∷ s) = ground (arith, skip_body-plain e (g ∷ s), skip_body-plain g s)

  raw_escape-passes : (r : Bytes) → 2 ≤ (raw_escape r).1
  unfolding raw_escape
  raw_escape-passes [] = omega arith
  raw_escape-passes (d ∷ []) = ground arith
  raw_escape-passes (d ∷ e ∷ r) = ground arith

  skip_body-short : (c : ℕ) → (skip_body q (c ∷ [])).1 ≡ []
  unfolding skip_body
  skip_body-short c = refl

  skip_body-quote : (r : Bytes) → (skip_body q (q ∷ r)).1 ≡ r
  unfolding skip_body
  skip_body-quote [] = refl
  skip_body-quote (d ∷ r) = ground arith

  raw_body-short : (f c : ℕ) → (raw_body (suc f) q (c ∷ [])).1 ≡ []
  unfolding raw_body
  raw_body-short zero c = ground arith
  raw_body-short (suc f) c = ground arith

  raw_body-nil : (f : ℕ) → (raw_body f q []).1 ≡ []
  unfolding raw_body
  raw_body-nil zero = refl
  raw_body-nil (suc f) = refl

  -- One round at a backslash, and one at any other byte.
  raw_body-escape :
      (f d : ℕ) (r : Bytes)
      → (raw_body (suc f) q (b'\\' ∷ d ∷ r)).1
        ≡ (raw_body f q (drop (raw_escape (d ∷ r)).1 (b'\\' ∷ d ∷ r))).1
  unfolding raw_body
  raw_body-escape f d r = refl

  raw_body-other :
      (f c : ℕ) (r : Bytes)
      → c ≢ b'\\'
      → (raw_body (suc f) q (c ∷ r)).1 ≡ (if c == q then r else (raw_body f q r).1)
  unfolding raw_body
  raw_body-other f c r h = ground arith

  raw_body-skip_body : (f : ℕ) (s : Bytes) → length s ≤ f → (raw_body f q s).1 ≡ (skip_body q s).1
  raw_body-skip_body zero [] h = raw_body-nil zero ∙ sym (skip_body-nil)
  raw_body-skip_body zero (c ∷ s) h = absurd (omega arith)
  raw_body-skip_body (suc f) [] h = raw_body-nil (suc f) ∙ sym skip_body-nil
  raw_body-skip_body (suc f) (c ∷ []) h = raw_body-short f c ∙ sym (skip_body-short c)
  raw_body-skip_body (suc f) (c ∷ d ∷ r) h = elim (Bool-cases (c == b'\\')) [
    | inl e ↦
        let passed = (raw_escape (d ∷ r)).1 in
        let shorter : length (drop passed (b'\\' ∷ d ∷ r)) ≤ f =
          omega (arith, length-drop {A = ℕ} passed (b'\\' ∷ d ∷ r), raw_escape-passes (d ∷ r)) in
        rw ((==_iff c b'\\').0 e) (
          raw_body-escape f d r
          ∙ raw_body-skip_body f (drop passed (b'\\' ∷ d ∷ r)) shorter
          ∙ skip_body-escape d r
          ∙ sym (skip_body-pair d r))
    | inr e ↦ ground (
      arith,
      raw_body-other f c (d ∷ r),
      raw_body-skip_body f (d ∷ r),
      skip_body-plain c (d ∷ r),
      skip_body-quote (d ∷ r),
    )
  ]

  -- Copying a literal of unspliced text ends where scanning it ends, for any quote but a
  -- backslash or a line ending: joining continued lines changes what is copied, never where
  -- the literal is held to end.
  pub copy_literal_bytes_raw-skip :
      (r : Bytes) → (copy_literal_bytes_raw q (q ∷ r)).1 ≡ (skip_literal_bytes q (q ∷ r)).1
  unfolding copy_literal_bytes_raw skip_literal_bytes
  copy_literal_bytes_raw-skip r = ground (arith, raw_body-skip_body (length r) r)
