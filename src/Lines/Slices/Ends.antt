-- ===== src/Lines/Slices/Ends.antt =====
-- `logical_slices` ends on every source, literals included.
use co.Prelude.{
  ℕ, zero, suc, ◌+◌, ◌<◌, ◌≤◌, ◌≡◌, ◌≢◌, refl, ap, sym, Bool, true, false, not, ◌||◌, List, [], ◌∷◌,
  ◌++◌, Bytes, none, drop, length, length-drop, ltb, ◌==◌, if_both, arith, Bool-cases, inl, inr,
  subst,
}
use co.Prelude.Outcome.{
  out_of_fuel, Settles, settled, crashed, Settles-bind, Settles-ne-out_of_fuel,
}
use co.Utils.Classes.{is_quote}
use co.Utils.Raw.{copy_literal_bytes_raw}
use co.Utils.Scans.{skip_literal_bytes-lt}
use co.Utils.Splice.{copy_literal_bytes_raw-skip}
use co.Utils.Text.{is_utf8}
use co.Lines.Slices.{
  Push, digraph, is_paste_digraph, push_literal, push_byte, push_pair, push_round,
  comment_boundaries, close_slice, is_empty, slices_from, logical_slices,
}
use co.Lines.Slices.Laws.{push_round-Mapped}

copy_literal_bytes_raw-lt :
    (q : ℕ) (r : Bytes) → is_quote q ≡ true → length (copy_literal_bytes_raw q (q ∷ r)).1 ≤ length r
unfolding is_quote
copy_literal_bytes_raw-lt q r h =
    let same = copy_literal_bytes_raw-skip {q = q} (ground arith) (ground arith) (ground arith) r in
    omega (arith, ap (length {A = ℕ}) same, skip_literal_bytes-lt q q r)

push_literal-moves :
    (i q : ℕ) (r : Bytes) → is_quote q ≡ true → 1 ≤ (push_literal i (q ∷ r) q).passed
unfolding push_literal
push_literal-moves i q r h = omega (arith, copy_literal_bytes_raw-lt q r h)

-- No digraph starts with a quote.
quote-not_paste : (q : ℕ) (r : Bytes) → is_quote q ≡ true → is_paste_digraph (q ∷ r) ≡ false
unfolding is_quote
quote-not_paste q [] h = refl
quote-not_paste q (b ∷ []) h = refl
quote-not_paste q (b ∷ c ∷ []) h = refl
quote-not_paste q (b ∷ c ∷ d ∷ r) h = ground arith

quote-no_digraph : (q c : ℕ) → is_quote q ≡ true → digraph q c ≡ none
unfolding is_quote digraph
quote-no_digraph q c h = ground arith

push_byte-literal :
    (keep : Bool) (i q : ℕ) (r : Bytes)
    → is_quote q ≡ true
    → push_byte keep i q r ≡ push_literal i (q ∷ r) q
unfolding push_byte
push_byte-literal keep i q r h = rw h

push_pair-literal :
    (keep : Bool) (i q : ℕ) (r : Bytes)
    → is_quote q ≡ true
    → push_pair keep i q r ≡ push_literal i (q ∷ r) q
unfolding push_pair
push_pair-literal keep i q [] h = push_byte-literal keep i q [] h
push_pair-literal keep i q (c ∷ r) h =
    rw (quote-no_digraph q c h, push_pair) (push_byte-literal keep i q (c ∷ r) h)

push_round-literal :
    (keep : Bool) (i q : ℕ) (r : Bytes)
    → is_quote q ≡ true
    → push_round keep i q r ≡ push_literal i (q ∷ r) q
unfolding push_round
push_round-literal keep i q r h = rw (quote-not_paste q r h) (push_pair-literal keep i q r h)

push_round-moves : (keep : Bool) (i b : ℕ) (r : Bytes) → 1 ≤ (push_round keep i b r).passed
push_round-moves keep i b r = elim (Bool-cases (is_quote b)) [
  | inl e ↦
      subst (λ (p : Push). 1 ≤ p.passed) (sym (push_round-literal keep i b r e))
        (push_literal-moves i b r e)
  | inr e ↦ (push_round-Mapped keep i b r e).0
]

close_slice-ends :
    (out : Bytes) (bounds : List ℕ) (end : ℕ) → Settles (λ _. Unit {0}) (close_slice out bounds end)
unfolding close_slice
close_slice-ends out bounds end =
    if_both (Settles (λ _. Unit {0})) (is_utf8 out) (λ _. settled tt) (λ _. crashed)

slices_from-ends :
    (f : ℕ) (keep : Bool) (out : Bytes) (bounds : List ℕ) (line_start i : ℕ) (s : Bytes)
    → length s < f
    → Settles (λ _. Unit {0}) (slices_from f keep out bounds line_start i s)
unfolding slices_from
slices_from-ends zero keep out bounds start i s h = absurd (omega arith)
slices_from-ends (suc f) keep out bounds start i [] h =
    if_both (Settles (λ _. Unit {0})) (not (is_empty out) || ltb start i)
      (λ _. Settles-bind (close_slice-ends out bounds i) λ slice k. settled tt) (λ _. settled tt)
slices_from-ends (suc f) keep out bounds start i (b ∷ r) h =
    let push = push_round keep i b r in
    let marks = bounds ++ push.marks in
    elim (Bool-cases (b == b'\n')) [
      | inl e ↦
          rw (e, slices_from)
            (Settles-bind (close_slice-ends out bounds (suc i)) λ slice k.
              Settles-bind (slices_from-ends f keep [] (suc i ∷ []) (suc i) (suc i) r (omega arith))
                λ more ks. settled tt)
      | inr e ↦
          rw (e, slices_from)
            (slices_from-ends f keep (out ++ push.text) (comment_boundaries push.is_comment i marks)
              start (i + push.passed) (drop push.passed (b ∷ r))
              (omega (arith, push_round-moves keep i b r, length-drop {A = ℕ} push.passed (b ∷ r))))
    ]

-- The split never runs out of fuel: it ends on every source.
pub logical_slices-ends :
    (keep_docs : Bool) (source : Bytes) → logical_slices keep_docs source ≢ out_of_fuel
unfolding logical_slices
logical_slices-ends keep source =
    Settles-ne-out_of_fuel
      (slices_from-ends (suc (length source)) keep [] (0 ∷ []) 0 0 source (omega arith))
