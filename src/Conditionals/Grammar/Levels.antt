-- ===== src/Conditionals/Grammar/Levels.antt =====
-- The ten precedence levels of the parser as one table, against the ranks of the grammar.
use mathlib.Core.Path.{fun_ext}
use co.Prelude.{
  ℕ, zero, suc, ◌≡◌, ◌≢◌, refl, ap, sym, Option, none, some, inl, inr, arith, Bool-cases,
  and-eq-true, ==_iff, ◌==◌, ◌&&◌, ◌-◌, if◌then◌else◌,
}
use co.Conditionals.Operators.{
  Op, PpVal, Binary, multiplicative_op, additive_op, shift_op, relational_op, equality_op,
  bitand_op, bitxor_op, bitor_op, and_op, or_op, unary_op,
}
use co.Conditionals.Parser.{Parser, level, parse_unary, parse_or}
use co.Conditionals.Word.{signed_div, signed_rem, i64_min, word_mod}
use co.Conditionals.Grammar.{Infix, Prefix, prefix_sym, prefix_meaning, rank, sym_of, meaning}

abbrev pub table : ℕ → Op → Option Binary
table zero = multiplicative_op
table (suc zero) = additive_op
table (suc (suc zero)) = shift_op
table (suc (suc (suc zero))) = relational_op
table (suc (suc (suc (suc zero)))) = equality_op
table (suc (suc (suc (suc (suc zero))))) = bitand_op
table (suc (suc (suc (suc (suc (suc zero)))))) = bitxor_op
table (suc (suc (suc (suc (suc (suc (suc zero))))))) = bitor_op
table (suc (suc (suc (suc (suc (suc (suc (suc zero)))))))) = and_op
table (suc (suc (suc (suc (suc (suc (suc (suc (suc zero))))))))) = or_op
table _ = λ o. none

unfoldable pub stage : Parser → ℕ → Parser
stage ternary zero = parse_unary ternary
stage ternary (suc k) = level (table k) (stage ternary k)

pub stage-parse_or : (ternary : Parser) → stage ternary 10 ≡ parse_or ternary
unfolding stage parse_or
stage-parse_or ternary = refl

binary_ext : {f g : Binary} → ((l r : PpVal) → f l r ≡ g l r) → some f ≡ some g
binary_ext h = ap some (fun_ext λ l. fun_ext λ r. h l r)

-- The guards of the code at `i64::MIN / -1` and `i64::MIN % -1` change nothing.
div_min : signed_div i64_min (word_mod - 1) ≡ i64_min
unfolding signed_div
div_min = refl

rem_min : signed_rem i64_min (word_mod - 1) ≡ 0
unfolding signed_rem
rem_min = refl

div_guard :
    (a b : ℕ)
    → (if a == i64_min && b == word_mod - 1 then i64_min else signed_div a b) ≡ signed_div a b
div_guard a b = elim (Bool-cases (a == i64_min && b == word_mod - 1)) [
  | inl e ↦
      let both = and-eq-true _ _ e in
      rw e (rw ((==_iff a i64_min).0 both.0, (==_iff b (word_mod - 1)).0 both.1) (sym div_min))
  | inr e ↦ rw e
]

rem_guard :
    (a b : ℕ) → (if a == i64_min && b == word_mod - 1 then 0 else signed_rem a b) ≡ signed_rem a b
rem_guard a b = elim (Bool-cases (a == i64_min && b == word_mod - 1)) [
  | inl e ↦
      let both = and-eq-true _ _ e in
      rw e (rw ((==_iff a i64_min).0 both.0, (==_iff b (word_mod - 1)).0 both.1) (sym rem_min))
  | inr e ↦ rw e
]

pub table-sym_of : (i : Infix) → table (rank i) (sym_of i) ≡ some (meaning i)
unfolding multiplicative_op additive_op shift_op relational_op equality_op bitand_op bitxor_op
    bitor_op and_op or_op
table-sym_of Infix.mul = binary_ext λ l r. ground arith
table-sym_of Infix.div = binary_ext λ l r. ground (arith, div_guard l.0 r.0)
table-sym_of Infix.rem = binary_ext λ l r. ground (arith, rem_guard l.0 r.0)
table-sym_of Infix.shl = binary_ext λ l r. ground arith
table-sym_of Infix.shr = binary_ext λ l r. ground arith
table-sym_of Infix.eq = binary_ext λ l r. ground arith
table-sym_of Infix.ne = binary_ext λ l r. ground arith
table-sym_of _ = refl

pub table-other : (i : Infix) (k : ℕ) → k ≢ rank i → table k (sym_of i) ≡ none
unfolding multiplicative_op additive_op shift_op relational_op equality_op bitand_op bitxor_op
    bitor_op and_op or_op
table-other i zero h = ground arith
table-other i (suc zero) h = ground arith
table-other i (suc (suc zero)) h = ground arith
table-other i (suc (suc (suc zero))) h = ground arith
table-other i (suc (suc (suc (suc zero)))) h = ground arith
table-other i (suc (suc (suc (suc (suc zero))))) h = ground arith
table-other i (suc (suc (suc (suc (suc (suc zero)))))) h = ground arith
table-other i (suc (suc (suc (suc (suc (suc (suc zero))))))) h = ground arith
table-other i (suc (suc (suc (suc (suc (suc (suc (suc zero)))))))) h = ground arith
table-other i (suc (suc (suc (suc (suc (suc (suc (suc (suc zero))))))))) h = ground arith
table-other i (suc (suc (suc (suc (suc (suc (suc (suc (suc (suc k)))))))))) h = refl

pub unary_op-prefix_sym : (p : Prefix) → unary_op (prefix_sym p) ≡ some (prefix_meaning p)
unfolding unary_op
unary_op-prefix_sym Prefix.neg = ap some (fun_ext λ v. ground arith)
unary_op-prefix_sym _ = refl

-- No level goes on at `?` or `:`.
pub table-question : (k : ℕ) → table k Op.question ≡ none
unfolding multiplicative_op additive_op shift_op relational_op equality_op bitand_op bitxor_op
    bitor_op and_op or_op
table-question zero = refl
table-question (suc zero) = refl
table-question (suc (suc zero)) = refl
table-question (suc (suc (suc zero))) = refl
table-question (suc (suc (suc (suc zero)))) = refl
table-question (suc (suc (suc (suc (suc zero))))) = refl
table-question (suc (suc (suc (suc (suc (suc zero)))))) = refl
table-question (suc (suc (suc (suc (suc (suc (suc zero))))))) = refl
table-question (suc (suc (suc (suc (suc (suc (suc (suc zero)))))))) = refl
table-question (suc (suc (suc (suc (suc (suc (suc (suc (suc zero))))))))) = refl
table-question (suc (suc (suc (suc (suc (suc (suc (suc (suc (suc k)))))))))) = refl

pub table-colon : (k : ℕ) → table k Op.colon ≡ none
unfolding multiplicative_op additive_op shift_op relational_op equality_op bitand_op bitxor_op
    bitor_op and_op or_op
table-colon zero = refl
table-colon (suc zero) = refl
table-colon (suc (suc zero)) = refl
table-colon (suc (suc (suc zero))) = refl
table-colon (suc (suc (suc (suc zero)))) = refl
table-colon (suc (suc (suc (suc (suc zero))))) = refl
table-colon (suc (suc (suc (suc (suc (suc zero)))))) = refl
table-colon (suc (suc (suc (suc (suc (suc (suc zero))))))) = refl
table-colon (suc (suc (suc (suc (suc (suc (suc (suc zero)))))))) = refl
table-colon (suc (suc (suc (suc (suc (suc (suc (suc (suc zero))))))))) = refl
table-colon (suc (suc (suc (suc (suc (suc (suc (suc (suc (suc k)))))))))) = refl
