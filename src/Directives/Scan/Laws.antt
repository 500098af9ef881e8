-- ===== src/Directives/Scan/Laws.antt =====
-- The scanners' loop ends, and takes one round at a time.
use co.Prelude.{
  ℕ, zero, suc, ◌<◌, ◌≤◌, ◌≡◌, ◌≢◌, refl, ap, sym, ◌∙◌, [], ◌∷◌, ◌++◌, Bytes, Option, none, some,
  drop, length, length-drop, ltb, ltb→lt, ◌==◌, if_both, arith, Option-cases, inl, inr, Bool-cases,
  subst,
}
use co.Prelude.Outcome.{
  Outcome, ok, out_of_fuel, ◌>>=◌, Settles, settled, crashed, Settles-bind, Settles-ne-out_of_fuel,
}
use co.Utils.Literals.{literal_prefix_len, skip_literal_bytes}
use co.Utils.Scans.{skip_literal_bytes-lt}
use co.Utils.Text.{bytes_to_str, is_utf8}
use co.Directives.Scan.{
  Pushed, copy_slice, quote_after, prefixed_literal, literal_at, scan, scan_text,
}

abbrev pub Shrinks : ℕ → Pushed → Type 0
Shrinks n p = length p.1 ≤ n

skip-le : (q : ℕ) (s : Bytes) → length (skip_literal_bytes q s).1 ≤ length s
skip-le q [] = unfold skip_literal_bytes in omega arith
skip-le q (c ∷ s) = omega (arith, skip_literal_bytes-lt q c s)

prefixed_literal-le :
    (n b : ℕ) (r : Bytes) → 0 < n → length (prefixed_literal n (b ∷ r)).1 ≤ length r
unfolding prefixed_literal
prefixed_literal-le n b r h =
    omega (arith, skip-le (quote_after n (b ∷ r)) (drop n (b ∷ r)), length-drop {A = ℕ} n (b ∷ r))

abbrev Within : Bytes → Option (Bytes × Bytes) → Type 0
Within r none = Unit {0}
Within r (some cut) = length cut.1 ≤ length r

literal_at-le : (b : ℕ) (r : Bytes) → Within r (literal_at (b ∷ r))
unfolding literal_at
literal_at-le b r =
    let P = Within r in
    let n = literal_prefix_len (b ∷ r) in
    if_both P (ltb 0 n) (λ h. prefixed_literal-le n b r (ltb→lt 0 n h))
      λ _.
        if_both P (b == b'\'') (λ _. skip_literal_bytes-lt b'\'' b r)
          λ _. if_both P (b == b'"') (λ _. skip_literal_bytes-lt b'"' b r) (λ _. tt)

pub bytes_to_str-Settles : (s : Bytes) → Settles (λ t. t ≡ s) (bytes_to_str s)
unfolding bytes_to_str
bytes_to_str-Settles s =
    if_both (Settles (λ t. t ≡ s)) (is_utf8 s) (λ h. settled refl) (λ h. crashed)

copy_slice-Settles : (p : Bytes × Bytes) → Settles (λ q. q ≡ p) (copy_slice p)
unfolding copy_slice bytes_to_str
copy_slice-Settles p = elim (Bool-cases (is_utf8 p.0)) [
  | inl e ↦ rw e (settled refl)
  | inr e ↦ rw e crashed
]

pub Settles-cut :
    {n : ℕ} (cut : Bytes × Bytes) → length cut.1 ≤ n → Settles (Shrinks n) (copy_slice cut)
Settles-cut {n} cut h = Settles-weaken (copy_slice-Settles cut)
  where
    Settles-weaken : {o : Outcome Pushed} → Settles (λ q. q ≡ cut) o → Settles (Shrinks n) o
    Settles-weaken (settled e) = settled (omega (arith, ap (λ (p : Pushed). length p.1) e))
    Settles-weaken crashed = crashed

module _ (round : ℕ → Bytes → Outcome Pushed) where
  -- A literal is taken whole, anything else by the round.
  unfoldable pub first_round : ℕ → Bytes → Outcome Pushed
  first_round b r = elim (literal_at (b ∷ r)) [ some cut ↦ copy_slice cut | none ↦ round b r ]

  pub scan_step :
      (f b : ℕ) (r : Bytes)
      → scan round (suc f) (b ∷ r)
        ≡ (first_round b r >>= λ (text, rest). scan round f rest >>= λ more. ok (text ++ more))
  unfolding scan first_round
  scan_step f b r = refl

  pub first_round_plain :
      (b : ℕ) (r : Bytes) → literal_at (b ∷ r) ≡ none → first_round b r ≡ round b r
  unfolding first_round
  first_round_plain b r plain = rw (plain, first_round)

  first_round_cut :
      (b : ℕ) (r : Bytes) (cut : Bytes × Bytes)
      → literal_at (b ∷ r) ≡ some cut
      → first_round b r ≡ copy_slice cut
  unfolding first_round
  first_round_cut b r cut e = rw (e, first_round)

  pub scan_round :
      (f b : ℕ) (r text rest out : Bytes)
      → literal_at (b ∷ r) ≡ none
      → round b r ≡ ok (text, rest)
      → scan round f rest ≡ ok out
      → scan round (suc f) (b ∷ r) ≡ ok (text ++ out)
  scan_round f b r text rest out plain step more =
      scan_step f b r ∙ rw (first_round_plain b r plain) (rw (step) (rw more))

  module _ (round_settles : (b : ℕ) (r : Bytes) → Settles (Shrinks (length r)) (round b r)) where
    pub first_round-Settles : (b : ℕ) (r : Bytes) → Settles (Shrinks (length r)) (first_round b r)
    first_round-Settles b r = elim (Option-cases (literal_at (b ∷ r))) [
      | inl e ↦ rw (first_round_plain b r e) (round_settles b r)
      | inr (cut, e) ↦
          rw (first_round_cut b r cut e) (Settles-cut cut (subst (Within r) e (literal_at-le b r)))
    ]

    scan-Settles : (f : ℕ) (s : Bytes) → length s < f → Settles (λ _. Unit {0}) (scan round f s)
    scan-Settles zero s h = absurd (omega arith)
    scan-Settles (suc f) [] h = unfold scan in settled tt
    scan-Settles (suc f) (b ∷ r) h = subst (Settles (λ _. Unit {0})) (sym (scan_step f b r)) (
        Settles-bind (first_round-Settles b r)
          λ (text, rest) k. Settles-bind (scan-Settles f rest (omega arith)) λ more m. settled tt)

    -- The scan never runs out of fuel.
    pub scan_text-ends : (s : Bytes) → scan_text round s ≢ out_of_fuel
    unfolding scan_text
    scan_text-ends s = Settles-ne-out_of_fuel (scan-Settles (suc (length s)) s (omega arith))
