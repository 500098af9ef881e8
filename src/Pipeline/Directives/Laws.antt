-- ===== src/Pipeline/Directives/Laws.antt =====
-- Termination of the handlers of `#if` and `#elif` (pipeline.rs).
use co.Prelude.{ℕ, ◌≡◌, ◌≢◌, refl, ap, Bool, [], ◌∷◌, Bytes}
use co.Prelude.Outcome.{
  Outcome, ok, panicked, out_of_fuel, Settles, settled, crashed, Ends, Settles-bind,
}
use co.Conditionals.Parser.Total.{parse_tokens_total}
use co.Conditionals.Stack.{ByteRange, push_if, handle_elif}
use co.Conditionals.Tokenizer.{eval_trimmed, eval_const_expr}
use co.Conditionals.Tokenizer.Total.{tokenize_expr-Settles}
use co.Directives.Defined.Laws.{resolve_defined_in_expr-ends}
use co.Directives.Expand.{evaluate_condition}
use co.Directives.Expand.Laws.{expand_condition_macros-ends}
use co.Directives.Idents.Laws.{replace_remaining_idents_with_zero-ends}
use co.Macros.Lines.Total.{expand_line_with_line-ends}
use co.Macros.Table.{MacroTable}
use co.Macros.Table.Keyed.{IsKeyed}
use co.Pipeline.Directives.{
  Preprocessor, expand, condition_value, handle_if_with_line, handle_elif_with_line,
}
use co.Utils.Text.{trim}

Ends-of {ℓ} : {A : Type ℓ} (o : Outcome A) → o ≢ out_of_fuel → Ends o
Ends-of (ok a) h = settled tt
Ends-of panicked h = crashed
Ends-of out_of_fuel h = absurd (h refl)

eval_trimmed-Ends : (s : Bytes) → Ends (eval_trimmed s)
unfolding eval_trimmed
eval_trimmed-Ends [] = settled tt
eval_trimmed-Ends (b ∷ s) =
    Settles-bind (tokenize_expr-Settles (b ∷ s))
      λ tokens _. let (result, e, short) = parse_tokens_total tokens in rw e (settled tt)

evaluate_condition-Ends : (t : MacroTable) (expr : Bytes) → Ends (evaluate_condition t expr)
unfolding evaluate_condition eval_const_expr
evaluate_condition-Ends t expr =
    Settles-bind (Ends-of _ (expand_condition_macros-ends t expr))
      λ text _. eval_trimmed-Ends (trim text)

-- A later state with the same macros and conditionals, in which no macro is being expanded.
abbrev Follows : Preprocessor → Preprocessor → Type 0
Follows p p' =
    (p'.macros.macros ≡ p.macros.macros)
    × (p'.conditionals ≡ p.conditionals)
    × (p'.directive_expanding ≡ [])

expand-Follows :
    (p : Preprocessor) (text : Bytes) (line : ℕ)
    → IsKeyed p.macros
    → Settles (λ r. Follows p r.1) (expand p text line)
unfolding expand
expand-Follows p text line keyed =
    Settles-bind
      (expand_line_with_line-ends p.macros keyed line text
        (record { expanding = p.directive_expanding; counter = p.macros.counter }))
      λ r k. settled (refl, refl, k)

module _ (header_found : Bool → Bool → Bytes → Bool) where
  condition_value-Follows :
      (p : Preprocessor) (expr : Bytes) (line : ℕ)
      → IsKeyed p.macros
      → Settles (λ r. Follows p r.1) (condition_value header_found p expr line)
  unfolding condition_value
  condition_value-Follows p expr line keyed =
      Settles-bind (Ends-of _ (resolve_defined_in_expr-ends p.macros header_found expr))
        λ resolved _. Settles-bind (expand-Follows p resolved line keyed) λ r k.
          Settles-bind (Ends-of _ (resolve_defined_in_expr-ends r.1.macros header_found r.0))
            λ again _.
              Settles-bind (Ends-of _ (replace_remaining_idents_with_zero-ends again))
                λ final_expr _.
                  Settles-bind (evaluate_condition-Ends r.1.macros final_expr) λ b _. settled k

  -- `#if` and `#elif` are handled to the end for every condition: with a panic, or by pushing one
  -- frame, or by changing the top one, for some truth value, with the macros as they were.
  pub handle_if_elif-ends :
      (p : Preprocessor) (expr : Bytes) (position : ByteRange) (line : ℕ)
      → IsKeyed p.macros
      → Settles
          (λ p'.
            (p'.macros.macros ≡ p.macros.macros)
            × (condition : Bool) × (p'.conditionals ≡ push_if p.conditionals condition position))
          (handle_if_with_line header_found p expr position line)
        × Settles
            (λ p'.
              (p'.macros.macros ≡ p.macros.macros)
              × (condition : Bool) × (p'.conditionals ≡ handle_elif p.conditionals condition))
            (handle_elif_with_line header_found p expr line)
  unfolding handle_if_with_line handle_elif_with_line
  handle_if_elif-ends p expr position line keyed = (
    Settles-bind (condition_value-Follows p expr line keyed)
        λ r k. settled (k.0, r.0, ap (λ s. push_if s r.0 position) k.1),
    Settles-bind (condition_value-Follows p expr line keyed)
        λ r k. settled (k.0, r.0, ap (λ s. handle_elif s r.0) k.1),
  )
