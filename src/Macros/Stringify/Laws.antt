-- ===== src/Macros/Stringify/Laws.antt =====
-- Termination of `stringify_arg`.
use co.Prelude.{
  ℕ, zero, suc, ◌<◌, ◌≤◌, ◌≡◌, refl, sym, subst, Bool, false, not, ◌&&◌, ◌||◌, [], ◌∷◌, ◌++◌, Bytes,
  length, length-span_le, ◌==◌, if_both, arith,
}
use co.Prelude.Outcome.{ok, ◌>>=◌, settled, Ends, Settles-bind}
use co.Macros.Paste.{blue_paint_marker}
use co.Macros.Stringify.{
  stringify_literal, stringify_round, is_gap, is_nonempty, stringify_from, stringify_arg,
}
use co.Utils.Literals.{is_lifetime_start}
use co.Utils.Text.{trim}

length-stringify_literal :
    (q : ℕ) (closing s : Bytes) → length (stringify_literal q closing s).1 ≤ length s
unfolding stringify_literal
length-stringify_literal q closing [] = omega arith
length-stringify_literal q closing (c ∷ []) = ground arith
length-stringify_literal q closing (c ∷ d ∷ r) =
    ground (arith, length-stringify_literal q closing r, length-stringify_literal q closing (d ∷ r))

length-stringify_round :
    (started : Bool) (c : ℕ) (r : Bytes) → length (stringify_round started c r).1 ≤ length r
unfolding stringify_round
length-stringify_round started c r =
    let P : Bytes × Bytes → Type 0 = λ p. length p.1 ≤ length r in
    if_both P (c == blue_paint_marker) (λ _. omega arith)
      λ _.
        if_both P (is_gap c) (λ _. length-span_le is_gap r)
          λ _.
            if_both P (c == b'"') (λ _. length-stringify_literal b'"' (b'\\' ∷ b'"' ∷ []) r)
              λ _.
                if_both P (c == b'\'' && not (is_lifetime_start (c ∷ r)))
                  (λ _. length-stringify_literal b'\'' (b'\'' ∷ []) r) λ _. omega arith

stringify_from_step :
    (f : ℕ) (started : Bool) (c : ℕ) (r : Bytes)
    → stringify_from (suc f) started (c ∷ r) ≡ (
        let p = stringify_round started c r in
        stringify_from f (started || is_nonempty p.0) p.1 >>= λ more. ok (p.0 ++ more))
unfolding stringify_from stringify_round stringify_literal
stringify_from_step f started c r = refl

stringify_from-Ends :
    (f : ℕ) (started : Bool) (s : Bytes) → length s < f → Ends (stringify_from f started s)
unfolding stringify_from
stringify_from-Ends zero started s h = absurd (omega arith)
stringify_from-Ends (suc f) started [] h = settled tt
stringify_from-Ends (suc f) started (c ∷ r) h =
    let p = stringify_round started c r in
    subst Ends (sym (stringify_from_step f started c r)) (
      Settles-bind
        (stringify_from-Ends f (started || is_nonempty p.0) p.1
          (omega (arith, length-stringify_round started c r)))
        λ _ _. settled tt)

pub stringify_arg-Ends : (arg : Bytes) → Ends (stringify_arg arg)
unfolding stringify_arg
stringify_arg-Ends arg =
    Settles-bind (stringify_from-Ends (suc (length (trim arg))) false (trim arg) (omega arith))
      λ _ _. settled tt
