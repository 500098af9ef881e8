-- ===== src/Conditionals/Stack/Groups.antt =====
-- Properly closed groups: what they restore, and that they stay silent in skipped code.
use co.Prelude.{Bool, false, ◌&&◌, List, [], ◌∷◌, ◌++◌, ◌≡◌, refl, ap, sym, ◌∙◌, arith, subst}
use co.Conditionals.Stack.{
  ByteRange, ConditionalState, ConditionalStack, is_active, push_if, handle_elif, handle_else,
  handle_endif, elif_state, else_state,
}
use co.Conditionals.Stack.Nesting.{
  Directive, open_if, elif_branch, else_branch, endif, step, run, run-append,
}

-- Directives that open and close whole groups, and what follows an opening up to its `#endif`.
mutual
  pub data Balanced : List Directive → Type 0 where
    none_left : Balanced []
    group :
        (c : Bool) (r : ByteRange) {ds es : List Directive}
        → Closes ds
        → Balanced es
        → Balanced (open_if c r ∷ (ds ++ es))

  pub data Closes : List Directive → Type 0 where
    close : {ds : List Directive} → Balanced ds → Closes (ds ++ endif ∷ [])
    branch_elif :
        (c : Bool) {ds es : List Directive}
        → Balanced ds
        → Closes es
        → Closes (ds ++ elif_branch c ∷ es)
    branch_else :
        {ds es : List Directive} → Balanced ds → Closes es → Closes (ds ++ else_branch ∷ es)

mutual
  unfolding step push_if handle_elif handle_else handle_endif

  run-Balanced_lem :
      {ds : List Directive} (stack : ConditionalStack) → Balanced ds → run stack ds ≡ stack
  run-Balanced_lem stack none_left = refl
  run-Balanced_lem stack (group c r {ds} {es} closes after) =
      run-append _ ds es
      ∙ ap (λ k. run k es) (run-Closes _ stack closes)
      ∙ run-Balanced_lem stack after

  run-Closes :
      {ds : List Directive} (top : ConditionalState) (stack : ConditionalStack)
      → Closes ds
      → run (top ∷ stack) ds ≡ stack
  run-Closes top stack (close {ds} inside) =
      run-append (top ∷ stack) ds (endif ∷ [])
      ∙ ap (λ k. run k (endif ∷ [])) (run-Balanced_lem (top ∷ stack) inside)
  run-Closes top stack (branch_elif c {ds} {es} inside closes) =
      run-append (top ∷ stack) ds (elif_branch c ∷ es)
      ∙ ap (λ k. run k (elif_branch c ∷ es)) (run-Balanced_lem (top ∷ stack) inside)
      ∙ run-Closes (elif_state top c) stack closes
  run-Closes top stack (branch_else {ds} {es} inside closes) =
      run-append (top ∷ stack) ds (else_branch ∷ es)
      ∙ ap (λ k. run k (else_branch ∷ es)) (run-Balanced_lem (top ∷ stack) inside)
      ∙ run-Closes (else_state top) stack closes

-- Properly closed groups leave the stack exactly as they found it, whatever their conditions and
-- however they nest.
pub run-Balanced :
    {ds : List Directive} (stack : ConditionalStack) → Balanced ds → run stack ds ≡ stack
run-Balanced stack b = run-Balanced_lem stack b

-- The states between the directives of a sequence, the last included.
abbrev pub AllInactive : ConditionalStack → List Directive → Type 0
AllInactive stack [] = Unit {0}
AllInactive stack (d ∷ ds) = (is_active (step stack d) ≡ false) × AllInactive (step stack d) ds

AllInactive-append :
    (stack : ConditionalStack) (ds es : List Directive)
    → AllInactive stack ds
    → AllInactive (run stack ds) es
    → AllInactive stack (ds ++ es)
AllInactive-append stack [] es h k = k
AllInactive-append stack (d ∷ ds) es h k = (h.0, AllInactive-append (step stack d) ds es h.1 k)

-- In a dead parent no branch of a group is chosen.
elif_state-dead :
    (top : ConditionalState) (c : Bool)
    → top.parent_active ≡ false
    → ((elif_state top c).parent_active ≡ false)
      × (((elif_state top c).current_branch_active && (elif_state top c).parent_active) ≡ false)
unfolding elif_state
elif_state-dead top c h = ground arith

else_state-dead :
    (top : ConditionalState)
    → top.parent_active ≡ false
    → ((else_state top).parent_active ≡ false)
      × (((else_state top).current_branch_active && (else_state top).parent_active) ≡ false)
unfolding else_state
else_state-dead top h = ground arith

push_if-dead :
    (stack : ConditionalStack) (c : Bool)
    → is_active stack ≡ false
    → ((is_active stack && c) && is_active stack) ≡ false
push_if-dead stack c h = ground arith

and-dead : (a b : Bool) → b ≡ false → (a && b) ≡ false
and-dead a b h = ground arith

mutual
  unfolding step push_if handle_elif handle_else handle_endif is_active

  inactive-Balanced :
      {ds : List Directive} (stack : ConditionalStack)
      → is_active stack ≡ false
      → Balanced ds
      → AllInactive stack ds
  inactive-Balanced stack dead none_left = tt
  inactive-Balanced stack dead (group c r {ds} {es} closes after) = (
    push_if-dead stack c dead,
    AllInactive-append _ ds es (inactive-Closes _ stack dead dead closes) (
        subst (λ k. AllInactive k es) (sym (run-Closes _ stack closes))
          (inactive-Balanced stack dead after)),
  )

  inactive-Closes :
      {ds : List Directive} (top : ConditionalState) (stack : ConditionalStack)
      → is_active stack ≡ false
      → top.parent_active ≡ false
      → Closes ds
      → AllInactive (top ∷ stack) ds
  inactive-Closes top stack dead h (close {ds} inside) =
      AllInactive-append (top ∷ stack) ds (endif ∷ [])
        (inactive-Balanced (top ∷ stack) (and-dead top.current_branch_active _ h) inside)
        (subst (λ k. AllInactive k (endif ∷ [])) (sym (run-Balanced_lem (top ∷ stack) inside))
          (dead, tt))
  inactive-Closes top stack dead h (branch_elif c {ds} {es} inside closes) =
      AllInactive-append (top ∷ stack) ds (elif_branch c ∷ es)
        (inactive-Balanced (top ∷ stack) (and-dead top.current_branch_active _ h) inside)
        (subst (λ k. AllInactive k (elif_branch c ∷ es))
          (sym (run-Balanced_lem (top ∷ stack) inside))
          (
            (elif_state-dead top c h).1,
            inactive-Closes (elif_state top c) stack dead (elif_state-dead top c h).0 closes,
          ))
  inactive-Closes top stack dead h (branch_else {ds} {es} inside closes) =
      AllInactive-append (top ∷ stack) ds (else_branch ∷ es)
        (inactive-Balanced (top ∷ stack) (and-dead top.current_branch_active _ h) inside)
        (subst (λ k. AllInactive k (else_branch ∷ es)) (sym (run-Balanced_lem (top ∷ stack) inside))
          (
            (else_state-dead top h).1,
            inactive-Closes (else_state top) stack dead (else_state-dead top h).0 closes,
          ))

-- Within code that is skipped, no directive of properly closed groups ever switches emission on,
-- whatever their conditions evaluate to.
pub AllInactive-Balanced :
    {ds : List Directive} (stack : ConditionalStack)
    → is_active stack ≡ false
    → Balanced ds
    → AllInactive stack ds
AllInactive-Balanced stack dead b = inactive-Balanced stack dead b
