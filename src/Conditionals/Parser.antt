-- ===== src/Conditionals/Parser.antt =====
-- co2_preprocessor/src/conditionals.rs: `ExprParser`. `self.pos` only moves forward, so the state is
-- the list of the tokens that are left. `parse_ternary` is the only call that goes round: it takes
-- fuel, and the other functions take it as their argument `ternary`.
pub mod Steps
pub mod Total
use co.Prelude.{
  ℕ, zero, suc, false, [], ◌∷◌, Bytes, codes, equal, length, Option, none, some, ◌==◌,
  if◌then◌else◌,
}
use co.Prelude.Outcome.{Outcome, ok, out_of_fuel, ◌>>=◌}
use co.Conditionals.Operators.{
  Op, question, colon, num, ident, op, lparen, rparen, defined, Tokens, PpVal, Binary,
  multiplicative_op, additive_op, shift_op, relational_op, equality_op, bitand_op, bitxor_op,
  bitor_op, and_op, or_op, unary_op,
}

abbrev pub Parser : Type 0
Parser = Tokens → Outcome (PpVal × Tokens)

-- `while self.peek_op(..) { self.advance(); let right = next(); left = .. }`, at the operators that
-- `table` holds. Each round takes a token, so the fuel that `level` hands out is enough.
unfoldable pub chain : (Op → Option Binary) → Parser → ℕ → PpVal → Parser
chain table next zero left ts = out_of_fuel
chain table next (suc f) left (op o ∷ ts) = elim (table o) [
  | none ↦ ok (left, op o ∷ ts)
  | some g ↦ next ts >>= λ (right, rest). chain table next f (g left right) rest
]
chain table next (suc f) left ts = ok (left, ts)

unfoldable pub level : (Op → Option Binary) → Parser → Parser
unfolding chain
level table next ts = next ts >>= λ (left, rest). chain table next (suc (length rest)) left rest

-- `if self.peek() == Some(&ExprToken::RParen) { self.advance(); }`, and its likes.
unfoldable pub skip_rparen : Tokens → Tokens
skip_rparen (rparen ∷ ts) = ts
skip_rparen ts = ts

unfoldable pub skip_ident : Tokens → Tokens
skip_ident (ident name ∷ ts) = ts
skip_ident ts = ts

unfoldable pub skip_colon : Tokens → Tokens
skip_colon (op colon ∷ ts) = ts
skip_colon ts = ts

unfoldable pub ident_value : Bytes → PpVal
ident_value name = if equal name (codes "true") then (1, false) else (0, false)

abbrev false_value : PpVal
false_value = (0, false)

unfoldable pub parse_primary : Parser → Parser
unfolding skip_rparen skip_ident ident_value
parse_primary ternary (num n u ∷ ts) = ok ((n, u), ts)
parse_primary ternary (lparen ∷ ts) = ternary ts >>= λ (val, rest). ok (val, skip_rparen rest)
parse_primary ternary (defined ∷ lparen ∷ ts) = ok (false_value, skip_rparen (skip_ident ts))
parse_primary ternary (defined ∷ ts) = ok (false_value, skip_ident ts)
parse_primary ternary (ident name ∷ ts) = ok (ident_value name, ts)
parse_primary ternary (t ∷ ts) = ok (false_value, ts)
parse_primary ternary [] = ok (false_value, [])

unfoldable pub parse_unary : Parser → Parser
unfolding parse_primary
parse_unary ternary [] = parse_primary ternary []
parse_unary ternary (op o ∷ ts) = elim (unary_op o) [
  | none ↦ parse_primary ternary (op o ∷ ts)
  | some g ↦ parse_unary ternary ts >>= λ (val, rest). ok (g val, rest)
]
parse_unary ternary (t ∷ ts) = parse_primary ternary (t ∷ ts)

unfoldable pub parse_multiplicative : Parser → Parser
parse_multiplicative ternary = level multiplicative_op (parse_unary ternary)

unfoldable pub parse_additive : Parser → Parser
unfolding parse_multiplicative
parse_additive ternary = level additive_op (parse_multiplicative ternary)

unfoldable pub parse_shift : Parser → Parser
unfolding parse_additive
parse_shift ternary = level shift_op (parse_additive ternary)

unfoldable pub parse_relational : Parser → Parser
unfolding parse_shift
parse_relational ternary = level relational_op (parse_shift ternary)

unfoldable pub parse_equality : Parser → Parser
unfolding parse_relational
parse_equality ternary = level equality_op (parse_relational ternary)

unfoldable pub parse_bitand : Parser → Parser
unfolding parse_equality
parse_bitand ternary = level bitand_op (parse_equality ternary)

unfoldable pub parse_bitxor : Parser → Parser
unfolding parse_bitand
parse_bitxor ternary = level bitxor_op (parse_bitand ternary)

unfoldable pub parse_bitor : Parser → Parser
unfolding parse_bitxor
parse_bitor ternary = level bitor_op (parse_bitxor ternary)

unfoldable pub parse_and : Parser → Parser
unfolding parse_bitor
parse_and ternary = level and_op (parse_bitor ternary)

unfoldable pub parse_or : Parser → Parser
unfolding parse_and
parse_or ternary = level or_op (parse_and ternary)

-- What `parse_ternary` does behind the condition.
unfoldable pub ternary_rest : Parser → PpVal → Parser
unfolding skip_colon
ternary_rest ternary c (op question ∷ ts) = ternary ts >>= λ (then_val, after_then).
    ternary (skip_colon after_then) >>= λ (else_val, rest).
    ok (if c.0 == 0 then else_val else then_val, rest)
ternary_rest ternary c ts = ok (c, ts)

unfoldable pub parse_ternary : ℕ → Parser
unfolding parse_or ternary_rest
parse_ternary zero ts = out_of_fuel
parse_ternary (suc f) ts =
    parse_or (parse_ternary f) ts >>= λ (c, rest). ternary_rest (parse_ternary f) c rest

-- The parser run of `eval_const_expr`, with fuel for every token and one more call.
unfoldable pub parse_tokens : Tokens → Outcome (PpVal × Tokens)
unfolding parse_ternary
parse_tokens ts = parse_ternary (suc (length ts)) ts
