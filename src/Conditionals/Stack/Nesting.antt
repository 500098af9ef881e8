-- ===== src/Conditionals/Stack/Nesting.antt =====
-- Sequences of directives: what every one of them preserves.
use co.Prelude.{Bool, true, ◌&&◌, List, [], ◌∷◌, ◌++◌, ◌≡◌, refl, arith}
use co.Conditionals.Stack.{
  ByteRange, ConditionalState, ConditionalStack, new, is_active, push_if, handle_elif, handle_else,
  handle_endif, elif_state, else_state,
}

-- A directive with its condition already evaluated.
pub data Directive : Type 0 where
  open_if : Bool → ByteRange → Directive
  elif_branch : Bool → Directive
  else_branch : Directive
  endif : Directive

-- The `ConditionalStack` method that the pipeline calls at a directive.
unfoldable pub step : ConditionalStack → Directive → ConditionalStack
step stack (open_if c r) = push_if stack c r
step stack (elif_branch c) = handle_elif stack c
step stack else_branch = handle_else stack
step stack endif = handle_endif stack

abbrev pub run : ConditionalStack → List Directive → ConditionalStack
run stack [] = stack
run stack (d ∷ ds) = run (step stack d) ds

pub run-append :
    (stack : ConditionalStack) (ds es : List Directive)
    → run stack (ds ++ es) ≡ run (run stack ds) es
run-append stack [] es = refl
run-append stack (d ∷ ds) es = run-append (step stack d) ds es

-- A frame over the stack below it.
pub record IsFrame (s : ConditionalState) (below : ConditionalStack) : Type 0 where
  pub parent_is : s.parent_active ≡ is_active below
  pub active_under_parent : s.current_branch_active ≡ true → s.parent_active ≡ true
  pub active_was_taken : s.current_branch_active ≡ true → s.any_branch_taken ≡ true

abbrev pub IsValid : ConditionalStack → Type 0
IsValid [] = Unit {0}
IsValid (s ∷ below) = IsFrame s below × IsValid below

push_if-IsFrame :
    (stack : ConditionalStack) (c : Bool) (r : ByteRange)
    → IsFrame
        (record {
          any_branch_taken = c;
          current_branch_active = is_active stack && c;
          parent_active = is_active stack;
          range = r;
        })
        stack
push_if-IsFrame stack c r = record {
  parent_is = refl;
  active_under_parent = ground arith;
  active_was_taken = ground arith;
}

elif_state-IsFrame :
    (s : ConditionalState) (below : ConditionalStack) (c : Bool)
    → IsFrame s below
    → IsFrame (elif_state s c) below
unfolding elif_state
elif_state-IsFrame s below c f = record {
  parent_is = ground (arith, f.parent_is);
  active_under_parent = ground (arith, f.parent_is);
  active_was_taken = ground (arith, f.parent_is);
}

else_state-IsFrame :
    (s : ConditionalState) (below : ConditionalStack)
    → IsFrame s below
    → IsFrame (else_state s) below
unfolding else_state
else_state-IsFrame s below f = record {
  parent_is = ground (arith, f.parent_is);
  active_under_parent = ground (arith, f.parent_is);
  active_was_taken = ground (arith, f.parent_is);
}

-- Every directive, in any order, keeps the stack well formed, a stray one included.
pub step-IsValid :
    (stack : ConditionalStack) (d : Directive) → IsValid stack → IsValid (step stack d)
unfolding step push_if handle_elif handle_else handle_endif
step-IsValid stack (open_if c r) v = (push_if-IsFrame stack c r, v)
step-IsValid [] (elif_branch c) v = tt
step-IsValid (s ∷ below) (elif_branch c) v = (elif_state-IsFrame s below c v.0, v.1)
step-IsValid [] else_branch v = tt
step-IsValid (s ∷ below) else_branch v = (else_state-IsFrame s below v.0, v.1)
step-IsValid [] endif v = tt
step-IsValid (s ∷ below) endif v = v.1

run-IsValid :
    (stack : ConditionalStack) (ds : List Directive) → IsValid stack → IsValid (run stack ds)
run-IsValid stack [] v = v
run-IsValid stack (d ∷ ds) v = run-IsValid (step stack d) ds (step-IsValid stack d v)

-- Every enclosing branch is the one chosen.
abbrev pub all_active : ConditionalStack → Bool
all_active [] = true
all_active (s ∷ below) = s.current_branch_active && all_active below

is_active-all_active :
    (stack : ConditionalStack) → IsValid stack → is_active stack ≡ all_active stack
unfolding is_active
is_active-all_active [] v = refl
is_active-all_active (s ∷ below) (f, v) =
    ground (arith, f.parent_is, f.active_under_parent, is_active-all_active below v)

-- After any directives, code is emitted exactly if in every open conditional the branch at hand is
-- the chosen one: looking at the top frame alone, as the code does, is enough.
pub is_active-run : (ds : List Directive) → is_active (run new ds) ≡ all_active (run new ds)
unfolding new
is_active-run ds = is_active-all_active (run [] ds) (run-IsValid [] ds tt)
