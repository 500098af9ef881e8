-- ===== src/Macros/Copies/Laws.antt =====
-- Lengths of what is copied or skipped, and termination of these loops.
use co.Prelude.{
  ℕ, zero, suc, ◌+◌, ◌/◌, ◌%◌, ◌<◌, ◌≤◌, [], ◌∷◌, Bytes, length, length-span_le, ◌==◌, if_both,
  arith, inl, inr, Bool-cases,
}
use co.Prelude.Outcome.{Outcome, ok, Settles, settled, crashed, Ends}
use co.Macros.Copies.{
  block_comment_rest, is_special, plain_rest, pragma_next, pragma_from, skip_spaces, format_from,
  format,
}
use co.Utils.Classes.{is_whitespace, is_quote}
use co.Utils.Scans.{skip_literal_bytes-lt}

pub length-block_comment_rest : (s : Bytes) → length (block_comment_rest s).1 ≤ length s
unfolding block_comment_rest
length-block_comment_rest [] = omega arith
length-block_comment_rest (c ∷ []) = omega arith
length-block_comment_rest (c ∷ d ∷ r) = ground (arith, length-block_comment_rest (d ∷ r))

pub length-plain_rest : (s : Bytes) → length (plain_rest s).1 ≤ length s
unfolding plain_rest
length-plain_rest [] = omega arith
length-plain_rest (c ∷ s) =
    if_both (λ (p : Bytes × Bytes). length p.1 ≤ suc (length s)) (is_special c s) (λ _. omega arith)
      (λ _. omega (arith, length-plain_rest s))

pub length-skip_spaces : (s : Bytes) → length (skip_spaces s) ≤ length s
unfolding skip_spaces
length-skip_spaces s = length-span_le is_whitespace s

length-pragma_next : (c : ℕ) (r : Bytes) → length (pragma_next c r) ≤ length r
unfolding pragma_next
length-pragma_next c r =
    if_both (λ (s : Bytes). length s ≤ length r) (is_quote c) (λ _. skip_literal_bytes-lt c c r)
      (λ _. omega arith)

Settles-shorter :
    {m n : ℕ} {o : Outcome Bytes}
    → m ≤ n
    → Settles (λ rest. length rest ≤ m) o
    → Settles (λ rest. length rest ≤ n) o
Settles-shorter h (settled k) = settled (omega arith)
Settles-shorter h crashed = crashed

closing_paren :
    (f d : ℕ) (r : Bytes)
    → length r < f
    → ((e : ℕ) → Settles (λ rest. length rest ≤ length r) (pragma_from f e r))
    → Settles
        (λ rest. length rest ≤ suc (length r))
        (elim d [ zero ↦ ok r | suc e ↦ pragma_from f e r ])
closing_paren f zero r k more = settled (omega arith)
closing_paren f (suc e) r k more = Settles-shorter (omega arith) (more e)

pub pragma_from-Settles :
    (f d : ℕ) (s : Bytes)
    → length s < f
    → Settles (λ rest. length rest ≤ length s) (pragma_from f d s)
unfolding pragma_from
pragma_from-Settles zero d s h = absurd (omega arith)
pragma_from-Settles (suc f) d [] h = settled (omega arith)
pragma_from-Settles (suc f) d (c ∷ r) h = elim (Bool-cases (c == b'(')) [
  | inl e ↦
      rw (e, pragma_from)
        (Settles-shorter (omega arith) (pragma_from-Settles f (suc d) r (omega arith)))
  | inr e ↦ elim (Bool-cases (c == b')')) [
    | inl e' ↦
        rw (e, e', pragma_from)
          (closing_paren f d r (omega arith) λ e. pragma_from-Settles f e r (omega arith))
    | inr e' ↦
        rw (e, e', pragma_from)
          (Settles-shorter (omega (arith, length-pragma_next c r))
            (pragma_from-Settles f d (pragma_next c r) (omega (arith, length-pragma_next c r))))
  ]
]

format_from-Ends : (f n : ℕ) (digits : Bytes) → Ends (format_from f n digits)
unfolding format_from
format_from-Ends zero n digits = if_both Ends (n == 0) (λ _. settled tt) (λ _. crashed)
format_from-Ends (suc f) n digits = elim (Bool-cases (n == 0)) [
  | inl e ↦ rw (e, format_from) (settled tt)
  | inr e ↦ rw (e, format_from) (format_from-Ends f (n / 10) ((b'0' + n % 10) ∷ digits))
]

pub format-Ends : (n : ℕ) → Ends (format n)
unfolding format
format-Ends n = if_both Ends (n == 0) (λ _. settled tt) (λ _. format_from-Ends 20 n [])
