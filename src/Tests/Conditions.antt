-- ===== src/Tests/Conditions.antt =====
-- `#if` chains and `#if` expressions at concrete inputs.
use co.Prelude.{
  ◌≡◌, refl, ◌≤◌, arith, Bool, true, false, not, ◌&&◌, ◌||◌, List, [], ◌∷◌, Bytes, codes, length,
  some,
}
use co.Prelude.Outcome.{ok, panicked, Yields}
use co.Conditionals.Stack.{
  ByteRange, ConditionalStack, new, is_active, push_if, handle_elif, handle_else, unclosed_range,
}
use co.Conditionals.Stack.Chain.{elifs, any, last_chosen, is_active-elifs, is_active-handle_else}
use co.Conditionals.Stack.Nesting.{
  Directive, open_if, else_branch, endif, step, run, IsValid, all_active, is_active-run,
  step-IsValid,
}
use co.Conditionals.Stack.Groups.{
  Balanced, none_left, group, close, branch_else, run-Balanced, AllInactive, AllInactive-Balanced,
}
use co.Conditionals.Operators
use co.Conditionals.Operators.{Op, ExprToken, op, lparen, rparen, Tokens, PpVal}
use co.Conditionals.Parser.{parse_tokens}
use co.Conditionals.Parser.Total.{parse_tokens_total}
use co.Conditionals.Grammar
use co.Conditionals.Grammar.{Expr, num, infix_of, cond, denote, print_tokens}
use co.Conditionals.Grammar.RoundTrip.{parse_tokens-print}
use co.Conditionals.Tokenizer.{tokenize_expr, eval_const_expr}
use co.Conditionals.Tokenizer.Ascii.{eval_const_expr_total}
use co.Conditionals.Tokenizer.Panic.{tokenize_expr_panics}

abbrev range : ByteRange
range = record { start = 4; end = 9 }

-- An open `#if 0`.
abbrev skipping : ConditionalStack
skipping =
    record {
      any_branch_taken = false;
      current_branch_active = false;
      parent_active = true;
      range = range;
    }
    ∷ []

-- `#if 1 … #else … #endif`.
abbrev closed_group : List Directive
closed_group = open_if true range ∷ (else_branch ∷ endif ∷ [])

closed_group-Balanced : Balanced closed_group
closed_group-Balanced = group true range (branch_else none_left (close none_left)) none_left

test_else : is_active (handle_else (push_if new false range)) ≡ true
unfolding is_active handle_else push_if new
test_else = refl

test_elif : is_active (handle_elif (push_if new true range) true) ≡ false
unfolding is_active handle_elif push_if new
test_elif = refl

test_unclosed :
    unclosed_range (push_if (push_if new true range) true (record { start = 7; end = 8 }))
    ≡ some range
unfolding unclosed_range push_if new
test_unclosed = refl

test_eval : eval_const_expr (codes "1 + 2 * 3 == 7 && -1 < 0") ≡ ok true
unfolding eval_const_expr co.Utils.Classes.is_whitespace co.Utils.Literals.literal_prefix_len
    co.Utils.Classes.is_ident_start_byte parse_tokens co.Conditionals.Parser.level
    co.Conditionals.Parser.parse_unary Operators.multiplicative_op Operators.additive_op
    Operators.shift_op Operators.relational_op Operators.equality_op Operators.bitand_op
    Operators.bitxor_op Operators.bitor_op Operators.and_op Operators.unary_op
test_eval = refl

test_eval_unsigned : eval_const_expr (codes "-1 < 0u") ≡ ok false
unfolding eval_const_expr co.Utils.Classes.is_whitespace co.Utils.Literals.literal_prefix_len
    co.Utils.Classes.is_ident_start_byte parse_tokens co.Conditionals.Parser.level
    co.Conditionals.Parser.parse_unary Operators.unary_op Operators.multiplicative_op
    Operators.additive_op Operators.shift_op Operators.relational_op
test_eval_unsigned = refl

is_active-elifs_example :
    is_active (elifs (push_if new false range) (false ∷ true ∷ []))
    ≡ (is_active new && last_chosen false false (false ∷ true ∷ []))
is_active-elifs_example = is_active-elifs new range false (false ∷ true ∷ [])

is_active-handle_else_example :
    is_active (handle_else (elifs (push_if new false range) (true ∷ [])))
    ≡ (is_active new && not (false || any (true ∷ [])))
is_active-handle_else_example = is_active-handle_else new range false (true ∷ [])

is_active-run_example :
    is_active (run new (open_if true range ∷ closed_group))
    ≡ all_active (run new (open_if true range ∷ closed_group))
is_active-run_example = is_active-run (open_if true range ∷ closed_group)

run-Balanced_example : run skipping closed_group ≡ skipping
run-Balanced_example = run-Balanced skipping closed_group-Balanced

skipping-is_inactive : is_active skipping ≡ false
unfolding is_active
skipping-is_inactive = refl

AllInactive-Balanced_example : AllInactive skipping closed_group
AllInactive-Balanced_example =
    AllInactive-Balanced skipping skipping-is_inactive closed_group-Balanced

skipping-IsValid : IsValid skipping
unfolding is_active
skipping-IsValid =
    (record { parent_is = refl; active_under_parent = λ h. refl; active_was_taken = λ h. h }, tt)

step-IsValid_example : IsValid (step skipping else_branch)
step-IsValid_example = step-IsValid skipping else_branch skipping-IsValid

-- `1 ? 2 + 3 * 4 : 5`.
abbrev choice : Expr
choice =
    cond (num 1 false)
      (infix_of Grammar.add (num 2 false) (infix_of Grammar.mul (num 3 false) (num 4 false)))
      (num 5 true)

parse_tokens-print_example : parse_tokens (print_tokens choice) ≡ ok (denote choice, [])
parse_tokens-print_example = parse_tokens-print choice

-- `( 1 +`.
abbrev cut_short : Tokens
cut_short = lparen ∷ Operators.num 1 false ∷ op Op.plus ∷ []

parse_tokens_total_example : Yields (λ p. length p.1 ≤ length cut_short) (parse_tokens cut_short)
parse_tokens_total_example = parse_tokens_total cut_short

abbrev condition : Bytes
condition = codes "0x10 >> 2 ? 'a' % 0"

eval_const_expr_total_example : (b : Bool) × (eval_const_expr condition ≡ ok b)
eval_const_expr_total_example = eval_const_expr_total condition refl

-- `'é'`.
tokenize_expr_panics_example : tokenize_expr (b'\'' ∷ 0xc3 ∷ 0xa9 ∷ b'\'' ∷ []) ≡ panicked
tokenize_expr_panics_example =
    tokenize_expr_panics 0xc3 0xa9 (b'\'' ∷ []) (omega arith) (omega arith) (omega arith)
