-- ===== src/Conditionals/Parser/Total.antt =====
-- Every run of the expression parser ends: it never runs out of the fuel that it is given.
use co.Prelude.{
  Option-cases, ℕ, zero, suc, ◌<◌, ◌≤◌, refl, inl, inr, false, [], ◌∷◌, length, Option, arith,
}
use co.Prelude.Outcome.{Outcome, Yields, Yields-bind}
use co.Conditionals.Operators.{
  Op, question, colon, num, ident, op, lparen, rparen, defined, Tokens, PpVal, Binary,
  multiplicative_op, additive_op, shift_op, relational_op, equality_op, bitand_op, bitxor_op,
  bitor_op, and_op, or_op, unary_op,
}
use co.Conditionals.Parser.Steps.{chain_stop, chain_go, parse_unary_stop, parse_unary_go}
use co.Conditionals.Parser.{
  Parser, chain, level, skip_rparen, skip_ident, skip_colon, ident_value, parse_primary,
  parse_unary, parse_or, ternary_rest, parse_ternary, parse_tokens,
}

-- A value, with no more tokens left than `n`.
abbrev pub Leaves : ℕ → PpVal × Tokens → Type 0
Leaves n p = length p.1 ≤ n

-- On every input of at most `n` tokens the parser ends, and gives back no more than it got.
abbrev pub Ends : ℕ → Parser → Type 0
Ends n p = (ts : Tokens) → length ts ≤ n → Yields (Leaves (length ts)) (p ts)

Leaves-trans :
    {m n : ℕ} (o : Outcome (PpVal × Tokens)) → m ≤ n → Yields (Leaves m) o → Yields (Leaves n) o
Leaves-trans o h (p, e, k) = (p, e, omega arith)

skip_rparen-le : (ts : Tokens) → length (skip_rparen ts) ≤ length ts
unfolding skip_rparen
skip_rparen-le [] = omega arith
skip_rparen-le (rparen ∷ ts) = omega arith
skip_rparen-le (t ∷ ts) = omega arith

skip_ident-le : (ts : Tokens) → length (skip_ident ts) ≤ length ts
unfolding skip_ident
skip_ident-le [] = omega arith
skip_ident-le (ident i ∷ ts) = omega arith
skip_ident-le (t ∷ ts) = omega arith

skip_colon-le : (ts : Tokens) → length (skip_colon ts) ≤ length ts
unfolding skip_colon
skip_colon-le [] = omega arith
skip_colon-le (op colon ∷ ts) = omega arith
skip_colon-le (op o ∷ ts) = omega arith
skip_colon-le (t ∷ ts) = omega arith

module _ (table : Op → Option Binary) (next : Parser) (n : ℕ) (next_ends : Ends n next) where
  chain-Ends :
      (f : ℕ) (left : PpVal) (ts : Tokens)
      → length ts < f
      → length ts ≤ suc n
      → Yields (Leaves (length ts)) (chain table next f left ts)
  chain-Ends zero left ts h k = absurd (omega arith)
  chain-Ends (suc f) left [] h k = unfold chain in ((left, []), refl, omega arith)
  chain-Ends (suc f) left (op o ∷ ts) h k = elim (Option-cases (table o)) [
    | inl e ↦ ((left, op o ∷ ts), chain_stop table next f left o ts e, omega arith)
    | inr (g, e) ↦ rw (chain_go table next f left o ts e) (
        Yields-bind (next ts) _ (next_ends ts (omega arith)) λ (right, rest) m.
          Leaves-trans _ (omega arith)
            (chain-Ends f (g left right) rest (omega arith) (omega arith)))
  ]
  chain-Ends (suc f) left (t ∷ ts) h k = unfold chain in ((left, t ∷ ts), refl, omega arith)

  level-Ends : Ends n (level table next)
  unfolding level
  level-Ends ts h = Yields-bind (next ts) _ (next_ends ts h) λ (left, rest) k.
      Leaves-trans _ k (chain-Ends (suc (length rest)) left rest (omega arith) (omega arith))

module _ (ternary : Parser) (n : ℕ)
    (ternary_ends : (ts : Tokens) → length ts < n → Yields (Leaves (length ts)) (ternary ts)) where
  parse_primary-Ends : Ends n (parse_primary ternary)
  unfolding parse_primary
  parse_primary-Ends [] h = (((0, false), []), refl, omega arith)
  parse_primary-Ends (num m u ∷ ts) h = (((m, u), ts), refl, omega arith)
  parse_primary-Ends (lparen ∷ ts) h =
      Yields-bind (ternary ts) _ (ternary_ends ts (omega arith))
        λ (val, rest) k. ((val, skip_rparen rest), refl, omega (arith, skip_rparen-le rest))
  parse_primary-Ends (defined ∷ lparen ∷ ts) h = (
    ((0, false), skip_rparen (skip_ident ts)),
    refl,
    omega (arith, skip_rparen-le (skip_ident ts), skip_ident-le ts),
  )
  parse_primary-Ends (defined ∷ []) h = (((0, false), []), refl, omega arith)
  parse_primary-Ends (defined ∷ t ∷ ts) h =
      (((0, false), skip_ident (t ∷ ts)), refl, omega (arith, skip_ident-le (t ∷ ts)))
  parse_primary-Ends (ident i ∷ ts) h = ((ident_value i, ts), refl, omega arith)
  parse_primary-Ends (t ∷ ts) h = (((0, false), ts), refl, omega arith)

  parse_unary-Ends : Ends n (parse_unary ternary)
  parse_unary-Ends [] h = unfold parse_unary in parse_primary-Ends [] h
  parse_unary-Ends (op o ∷ ts) h = elim (Option-cases (unary_op o)) [
    | inl e ↦ (((0, false), ts), parse_unary_stop ternary o ts e, omega arith)
    | inr (g, e) ↦ rw (parse_unary_go ternary o ts e) (
        Yields-bind (parse_unary ternary ts) _ (parse_unary-Ends ts (omega arith))
          λ (val, rest) k. ((g val, rest), refl, omega arith))
  ]
  parse_unary-Ends (t ∷ ts) h = unfold parse_unary in parse_primary-Ends (t ∷ ts) h

  parse_or-Ends : Ends n (parse_or ternary)
  unfolding parse_or
  parse_or-Ends = level-Ends or_op _ n (
      level-Ends and_op _ n (
        level-Ends bitor_op _ n (
          level-Ends bitxor_op _ n (
            level-Ends bitand_op _ n (
              level-Ends equality_op _ n (
                level-Ends relational_op _ n (
                  level-Ends shift_op _ n (
                    level-Ends additive_op _ n
                      (level-Ends multiplicative_op _ n parse_unary-Ends)))))))))

  ternary_rest-Ends : (c : PpVal) → Ends n (ternary_rest ternary c)
  unfolding ternary_rest
  ternary_rest-Ends c [] h = ((c, []), refl, omega arith)
  ternary_rest-Ends c (op question ∷ ts) h =
      Yields-bind (ternary ts) _ (ternary_ends ts (omega arith)) λ (a, r) k.
        Yields-bind (ternary (skip_colon r)) _
          (ternary_ends (skip_colon r) (omega (arith, skip_colon-le r)))
          λ (b, rest) m. (_, refl, omega (arith, skip_colon-le r))
  ternary_rest-Ends c (op o ∷ ts) h = ((c, op o ∷ ts), refl, omega arith)
  ternary_rest-Ends c (t ∷ ts) h = ((c, t ∷ ts), refl, omega arith)

parse_ternary-Ends :
    (f : ℕ) (ts : Tokens) → length ts < f → Yields (Leaves (length ts)) (parse_ternary f ts)
unfolding parse_ternary
parse_ternary-Ends zero ts h = absurd (omega arith)
parse_ternary-Ends (suc f) ts h =
    Yields-bind (parse_or (parse_ternary f) ts) _
      (parse_or-Ends (parse_ternary f) f (parse_ternary-Ends f) ts (omega arith))
      λ (c, r) k.
        Leaves-trans _ k
          (ternary_rest-Ends (parse_ternary f) f (parse_ternary-Ends f) c r (omega arith))

-- Evaluation of any token list ends with a value, and no more tokens are left than there were:
-- a unit of fuel for each token and one more suffices, for malformed expressions too.
pub parse_tokens_total : (ts : Tokens) → Yields (λ p. length p.1 ≤ length ts) (parse_tokens ts)
unfolding parse_tokens
parse_tokens_total ts = parse_ternary-Ends (suc (length ts)) ts (omega arith)
