-- ===== src/Conditionals/Operators.antt =====
-- co2_preprocessor/src/conditionals.rs: the tokens of an `#if` expression, and what the operators
-- of `ExprParser` compute. `Op` lists the strings that `tokenize_expr` puts in `ExprToken::Op`.
use Prim.Native.Nat.{bit_and, bit_or, bit_xor}
use co.Prelude.{
  ◌/◌, ◌%◌, ◌-◌, ℕ, Bool, true, false, not, ◌&&◌, ◌||◌, List, Bytes, Option, none, some, ltb, ◌==◌,
  if◌then◌else◌,
}
use co.Conditionals.Word.{
  i64_min, word_mod, from_bool, wrapping_add, wrapping_sub, wrapping_mul, wrapping_neg, bit_not,
  signed_div, signed_rem, signed_lt, wrapping_shl, logical_shr, arithmetic_shr,
}

pub data Op : Type 0 where
  bang minus plus tilde : Op
  star slash percent : Op
  shl shr : Op
  lt gt le ge : Op
  eq_eq bang_eq : Op
  amp caret bar : Op
  amp_amp bar_bar : Op
  question colon : Op

pub data ExprToken : Type 0 where
  num : ℕ → Bool → ExprToken
  ident : Bytes → ExprToken
  op : Op → ExprToken
  lparen rparen defined : ExprToken

abbrev pub Tokens : Type 0
Tokens = List ExprToken

-- (bit pattern, is unsigned).
abbrev pub PpVal : Type 0
PpVal = ℕ × Bool

abbrev pub Binary : Type 0
Binary = PpVal → PpVal → PpVal

abbrev pub truth : Bool → PpVal
truth b = (from_bool b, false)

-- `let u = left.1 || right.1`.
abbrev pub mixed : PpVal → PpVal → Bool
mixed l r = l.1 || r.1

-- The loop body of each level: the operators that it goes on at, and their meaning.
unfoldable pub multiplicative_op : Op → Option Binary
unfolding wrapping_mul signed_div signed_rem
multiplicative_op star =
    some (λ l r. if mixed l r then (wrapping_mul l.0 r.0, true) else (wrapping_mul l.0 r.0, false))
multiplicative_op slash = some (λ l r.
    if r.0 == 0
    then (0, mixed l r)
    else if mixed l r
    then (l.0 / r.0, true)
    else if l.0 == i64_min && r.0 == word_mod - 1
    then (i64_min, false)
    else (signed_div l.0 r.0, false))
multiplicative_op percent = some (λ l r.
    if r.0 == 0
    then (0, mixed l r)
    else if mixed l r
    then (l.0 % r.0, true)
    else if l.0 == i64_min && r.0 == word_mod - 1
    then (0, false)
    else (signed_rem l.0 r.0, false))
multiplicative_op _ = none

unfoldable pub additive_op : Op → Option Binary
unfolding wrapping_add wrapping_sub
additive_op plus = some (λ l r. (wrapping_add l.0 r.0, mixed l r))
additive_op minus = some (λ l r. (wrapping_sub l.0 r.0, mixed l r))
additive_op _ = none

-- The result has the type of the left operand.
unfoldable pub shift_op : Op → Option Binary
unfolding wrapping_shl logical_shr arithmetic_shr
shift_op shl =
    some (λ l r. if l.1 then (wrapping_shl l.0 r.0, true) else (wrapping_shl l.0 r.0, l.1))
shift_op shr =
    some (λ l r. if l.1 then (logical_shr l.0 r.0, true) else (arithmetic_shr l.0 r.0, false))
shift_op _ = none

-- `<` as unsigned if either operand is.
unfoldable pub pp_lt : PpVal → PpVal → Bool
unfolding signed_lt
pp_lt l r = if mixed l r then ltb l.0 r.0 else signed_lt l.0 r.0

unfoldable pub relational_op : Op → Option Binary
unfolding pp_lt
relational_op lt = some (λ l r. truth (pp_lt l r))
relational_op gt = some (λ l r. truth (pp_lt r l))
relational_op le = some (λ l r. truth (not (pp_lt r l)))
relational_op ge = some (λ l r. truth (not (pp_lt l r)))
relational_op _ = none

-- Both readings of equal patterns are equal, so the test of `u` makes no difference.
unfoldable pub equality_op : Op → Option Binary
equality_op eq_eq = some (λ l r. if mixed l r then truth (l.0 == r.0) else truth (l.0 == r.0))
equality_op bang_eq =
    some (λ l r. if mixed l r then truth (not (l.0 == r.0)) else truth (not (l.0 == r.0)))
equality_op _ = none

unfoldable pub bitand_op : Op → Option Binary
bitand_op amp = some (λ l r. (bit_and l.0 r.0, mixed l r))
bitand_op _ = none

unfoldable pub bitxor_op : Op → Option Binary
bitxor_op caret = some (λ l r. (bit_xor l.0 r.0, mixed l r))
bitxor_op _ = none

unfoldable pub bitor_op : Op → Option Binary
bitor_op bar = some (λ l r. (bit_or l.0 r.0, mixed l r))
bitor_op _ = none

unfoldable pub and_op : Op → Option Binary
and_op amp_amp = some (λ l r. truth (not (l.0 == 0) && not (r.0 == 0)))
and_op _ = none

unfoldable pub or_op : Op → Option Binary
or_op bar_bar = some (λ l r. truth (not (l.0 == 0) || not (r.0 == 0)))
or_op _ = none

-- The prefix operators of `parse_unary`.
unfoldable pub unary_op : Op → Option (PpVal → PpVal)
unfolding wrapping_neg bit_not
unary_op bang = some (λ v. truth (v.0 == 0))
unary_op minus = some (λ v. if v.1 then (wrapping_neg v.0, true) else (wrapping_neg v.0, false))
unary_op plus = some (λ v. v)
unary_op tilde = some (λ v. (bit_not v.0, v.1))
unary_op _ = none
