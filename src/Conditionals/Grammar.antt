-- ===== src/Conditionals/Grammar.antt =====
-- The expressions of C's `#if`, what they mean, and how they are written as tokens with no more
-- parentheses than precedence and left associativity ask for. This is the description that
-- `ExprParser` of co2_preprocessor/src/conditionals.rs is measured against.
mod Levels
mod Reading
pub mod RoundTrip
use co.Prelude.{
  ℕ, zero, suc, ◌+◌, ◌/◌, ◌%◌, Bool, true, false, not, ◌&&◌, ◌||◌, List, [], ◌∷◌, ◌++◌, Bytes, ltb,
  ◌==◌, if◌then◌else◌,
}
use Prim.Native.Nat.{bit_and, bit_or, bit_xor}
use co.Conditionals.Word.{
  wrapping_add, wrapping_sub, wrapping_mul, wrapping_neg, bit_not, signed_div, signed_rem,
  wrapping_shl, logical_shr, arithmetic_shr,
}
use co.Conditionals.Operators
use co.Conditionals.Operators.{
  Op, ExprToken, op, lparen, rparen, Tokens, PpVal, Binary, truth, mixed, pp_lt,
}
use co.Conditionals.Parser.{ident_value}

pub data Infix : Type 0 where
  mul div rem : Infix
  add sub : Infix
  shl shr : Infix
  lt gt le ge : Infix
  eq ne : Infix
  bit_and_of bit_xor_of bit_or_of : Infix
  logical_and logical_or : Infix

pub data Prefix : Type 0 where
  logical_not neg pos complement : Prefix

pub data Expr : Type 0 where
  num : ℕ → Bool → Expr
  ident : Bytes → Expr
  prefix : Prefix → Expr → Expr
  infix_of : Infix → Expr → Expr → Expr
  cond : Expr → Expr → Expr → Expr

-- How loosely an operator binds.
abbrev pub rank : Infix → ℕ
rank mul = 0
rank div = 0
rank rem = 0
rank add = 1
rank sub = 1
rank shl = 2
rank shr = 2
rank lt = 3
rank gt = 3
rank le = 3
rank ge = 3
rank eq = 4
rank ne = 4
rank bit_and_of = 5
rank bit_xor_of = 6
rank bit_or_of = 7
rank logical_and = 8
rank logical_or = 9

abbrev pub sym_of : Infix → Op
sym_of mul = Op.star
sym_of div = Op.slash
sym_of rem = Op.percent
sym_of add = Op.plus
sym_of sub = Op.minus
sym_of shl = Op.shl
sym_of shr = Op.shr
sym_of lt = Op.lt
sym_of gt = Op.gt
sym_of le = Op.le
sym_of ge = Op.ge
sym_of eq = Op.eq_eq
sym_of ne = Op.bang_eq
sym_of bit_and_of = Op.amp
sym_of bit_xor_of = Op.caret
sym_of bit_or_of = Op.bar
sym_of logical_and = Op.amp_amp
sym_of logical_or = Op.bar_bar

abbrev pub prefix_sym : Prefix → Op
prefix_sym logical_not = Op.bang
prefix_sym neg = Op.minus
prefix_sym pos = Op.plus
prefix_sym complement = Op.tilde

-- A quotient or remainder by zero is 0; else it is taken as unsigned if either operand is, and
-- rounds towards zero.
abbrev pub divide : (ℕ → ℕ → ℕ) → (ℕ → ℕ → ℕ) → Binary
divide unsigned signed l r =
    if r.0 == 0
    then (0, mixed l r)
    else if mixed l r
    then (unsigned l.0 r.0, true)
    else (signed l.0 r.0, false)

abbrev pub meaning : Infix → Binary
meaning mul l r = (wrapping_mul l.0 r.0, mixed l r)
meaning div l r = divide ◌/◌ signed_div l r
meaning rem l r = divide ◌%◌ signed_rem l r
meaning add l r = (wrapping_add l.0 r.0, mixed l r)
meaning sub l r = (wrapping_sub l.0 r.0, mixed l r)
meaning shl l r = (wrapping_shl l.0 r.0, l.1)
meaning shr l r = (if l.1 then logical_shr l.0 r.0 else arithmetic_shr l.0 r.0, l.1)
meaning lt l r = truth (pp_lt l r)
meaning gt l r = truth (pp_lt r l)
meaning le l r = truth (not (pp_lt r l))
meaning ge l r = truth (not (pp_lt l r))
meaning eq l r = truth (l.0 == r.0)
meaning ne l r = truth (not (l.0 == r.0))
meaning bit_and_of l r = (bit_and l.0 r.0, mixed l r)
meaning bit_xor_of l r = (bit_xor l.0 r.0, mixed l r)
meaning bit_or_of l r = (bit_or l.0 r.0, mixed l r)
meaning logical_and l r = truth (not (l.0 == 0) && not (r.0 == 0))
meaning logical_or l r = truth (not (l.0 == 0) || not (r.0 == 0))

abbrev pub prefix_meaning : Prefix → PpVal → PpVal
prefix_meaning logical_not v = truth (v.0 == 0)
prefix_meaning neg v = (wrapping_neg v.0, v.1)
prefix_meaning pos v = v
prefix_meaning complement v = (bit_not v.0, v.1)

abbrev pub denote : Expr → PpVal
denote (num n u) = (n, u)
denote (ident name) = ident_value name
denote (prefix p e) = prefix_meaning p (denote e)
denote (infix_of i a b) = meaning i (denote a) (denote b)
denote (cond c a b) = if (denote c).0 == 0 then denote b else denote a

abbrev pub parenthesised : Bool → Tokens → Tokens
parenthesised true ts = lparen ∷ (ts ++ rparen ∷ [])
parenthesised false ts = ts

-- The tokens of an expression where operators of a rank below `r` may stand bare, and a
-- conditional from 11 on.
abbrev pub print : Expr → ℕ → Tokens
print (num n u) r = ExprToken.num n u ∷ []
print (ident name) r = ExprToken.ident name ∷ []
print (prefix p e) r = op (prefix_sym p) ∷ print e 0
print (infix_of i a b) r =
    parenthesised (ltb r (suc (rank i)))
      (print a (suc (rank i)) ++ op (sym_of i) ∷ print b (rank i))
print (cond c a b) r =
    parenthesised (ltb r 11)
      (print c 10 ++ op Op.question ∷ (print a 11 ++ op Op.colon ∷ print b 11))

abbrev pub print_tokens : Expr → Tokens
print_tokens e = print e 11

-- The nesting of `parse_ternary` calls that an expression may need.
abbrev pub cost : Expr → ℕ
cost (num n u) = 1
cost (ident name) = 1
cost (prefix p e) = suc (cost e)
cost (infix_of i a b) = suc (cost a + cost b)
cost (cond c a b) = suc (cost c + cost a + cost b)
