-- ===== src/Conditionals/Parser/Steps.antt =====
-- Single rounds of the loops of the expression parser.
use co.Prelude.{ℕ, suc, ◌≡◌, ◌∷◌, Option, none, some}
use co.Prelude.Outcome.{ok, ◌>>=◌}
use co.Conditionals.Operators.{Op, op, Tokens, PpVal, Binary, unary_op}
use co.Conditionals.Parser.{Parser, chain, parse_unary}

module _ (table : Op → Option Binary) (next : Parser) (f : ℕ) (left : PpVal) where
  pub chain_stop :
      (o : Op) (ts : Tokens)
      → table o ≡ none
      → chain table next (suc f) left (op o ∷ ts) ≡ ok (left, op o ∷ ts)
  unfolding chain
  chain_stop o ts e = rw (e, chain)

  pub chain_go :
      (o : Op) {g : Binary} (ts : Tokens)
      → table o ≡ some g
      → chain table next (suc f) left (op o ∷ ts)
        ≡ (next ts >>= λ (right, rest). chain table next f (g left right) rest)
  unfolding chain
  chain_go o ts e = rw (e, chain)

module _ (ternary : Parser) where
  pub parse_unary_stop :
      (o : Op) (ts : Tokens)
      → unary_op o ≡ none
      → parse_unary ternary (op o ∷ ts) ≡ ok ((0, mathlib.Core.Bool.false), ts)
  unfolding parse_unary
  parse_unary_stop o ts e = rw (e, parse_unary)

  pub parse_unary_go :
      (o : Op) {g : PpVal → PpVal} (ts : Tokens)
      → unary_op o ≡ some g
      → parse_unary ternary (op o ∷ ts)
        ≡ (parse_unary ternary ts >>= λ (val, rest). ok (g val, rest))
  unfolding parse_unary
  parse_unary_go o ts e = rw (e, parse_unary)
