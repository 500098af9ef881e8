-- ===== src/Directives/Expand/Laws.antt =====
-- `expand_condition_macros` ends, and expands words as the macro table says.
use co.Prelude.{
  ℕ, zero, suc, ◌-◌, ◌<◌, ◌≤◌, ◌≡◌, ◌≢◌, refl, sym, Bool, false, not, ◌&&◌, ◌||◌, [], ◌∷◌, ◌++◌,
  Bytes, span, drop, take, length, length-drop, length-span_le, head_is, ◌==◌, if_both, arith,
  subst,
}
use co.Prelude.Outcome.{
  ok, out_of_fuel, ◌>>=◌, Settles, settled, Settles-bind, Settles-ne-out_of_fuel,
}
use co.Directives.Defined.{skip_blanks}
use co.Directives.Defined.Laws.{length-skip_blanks, length-skip_to_paren}
use co.Directives.Expand.{
  last_is, at_defined, skip_operand, number_rest, expand_round, expand_from,
  expand_condition_macros,
}
use co.Directives.Scan.Laws.{
  Shrinks, first_round, first_round-Settles, Settles-cut, bytes_to_str-Settles,
}
use co.Macros.Table.{MacroTable}
use co.Utils.Classes.{is_digit, is_alphanumeric, is_ident_start_byte, is_ident_cont_byte}

length-number_rest : (before : ℕ) (s : Bytes) → length (number_rest before s).1 ≤ length s
unfolding number_rest
length-number_rest before [] = omega arith
length-number_rest before (c ∷ s) = ground (arith, length-number_rest c s)

length-skip_operand : (s : Bytes) → length (skip_operand s) ≤ length s
unfolding skip_operand
length-skip_operand s =
    let r = skip_blanks s in
    let Fits = λ (rest : Bytes). length rest ≤ length s in
    if_both Fits (head_is (λ c. c == b'(') r)
      (λ _.
        omega
          (arith, length-skip_blanks s, length-skip_to_paren (drop 1 r), length-drop {A = ℕ} 1 r))
      λ _.
        if_both Fits (head_is is_ident_start_byte r)
          (λ _. omega (arith, length-skip_blanks s, length-span_le is_ident_cont_byte r))
          (λ _. length-skip_blanks s)

module _ (t : MacroTable) where
  expand_round-Settles :
      (inside glued : Bool) (b : ℕ) (r : Bytes)
      → Settles (Shrinks (length r)) (expand_round t inside glued b r)
  unfolding expand_round
  expand_round-Settles inside glued b r =
      let P = Settles (Shrinks (length r)) in
      let operand = drop 7 (b ∷ r) in
      let word = span is_ident_cont_byte r in
      if_both P (not inside && at_defined (b ∷ r))
        (λ _. Settles-cut _ (omega (arith, length-skip_operand operand, length-drop {A = ℕ} 6 r)))
        λ _.
          if_both P (is_digit b || (b == b'.' && head_is is_digit r))
            (λ _. Settles-cut _ (length-number_rest b r))
            λ _.
              if_both P (is_ident_start_byte b)
                (λ _.
                  Settles-bind (bytes_to_str-Settles (b ∷ word.0))
                    λ name e. settled (length-span_le is_ident_cont_byte r))
                (λ _. settled (omega arith))

  pub expand_step :
      (f : ℕ) (inside glued : Bool) (b : ℕ) (r : Bytes)
      → expand_from t (suc f) inside glued (b ∷ r) ≡ (
          first_round (expand_round t inside glued) b r >>= λ (text, rest).
          expand_from t f
            (last_is is_ident_cont_byte inside (take (length (b ∷ r) - length rest) (b ∷ r)))
            (last_is is_alphanumeric glued text)
            rest
          >>= λ more. ok (text ++ more))
  unfolding expand_from first_round
  expand_step f inside glued b r = refl

  expand_from-Settles :
      (f : ℕ) (inside glued : Bool) (s : Bytes)
      → length s < f
      → Settles (λ _. Unit {0}) (expand_from t f inside glued s)
  expand_from-Settles zero inside glued s h = absurd (omega arith)
  expand_from-Settles (suc f) inside glued [] h = unfold expand_from in settled tt
  expand_from-Settles (suc f) inside glued (b ∷ r) h =
      subst (Settles (λ _. Unit {0})) (sym (expand_step f inside glued b r)) (
        Settles-bind
          (first_round-Settles (expand_round t inside glued) (expand_round-Settles inside glued) b
            r)
          λ (text, rest) k.
            Settles-bind
              (expand_from-Settles f
                (last_is is_ident_cont_byte inside (take (length (b ∷ r) - length rest) (b ∷ r)))
                (last_is is_alphanumeric glued text) rest (omega arith))
              λ more m. settled tt)

  -- Expansion never runs out of fuel: it ends on every text, with any macros.
  pub expand_condition_macros-ends : (s : Bytes) → expand_condition_macros t s ≢ out_of_fuel
  unfolding expand_condition_macros
  expand_condition_macros-ends s =
      Settles-ne-out_of_fuel (expand_from-Settles (suc (length s)) false false s (omega arith))
