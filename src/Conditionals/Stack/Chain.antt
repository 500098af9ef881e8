-- ===== src/Conditionals/Stack/Chain.antt =====
-- One `#if` chain: which of its branches emits code.
use co.Prelude.{Bool, true, false, not, ◌&&◌, ◌||◌, List, [], ◌∷◌, ◌≡◌, refl, ap, sym, ◌∙◌, arith}
use co.Conditionals.Stack.{
  ByteRange, ConditionalState, ConditionalStack, is_active, push_if, handle_elif, handle_else,
  elif_state, else_state,
}

-- The stack after `#elif`s with the given conditions, in source order.
abbrev pub elifs : ConditionalStack → List Bool → ConditionalStack
elifs stack [] = stack
elifs stack (c ∷ cs) = elifs (handle_elif stack c) cs

abbrev pub any : List Bool → Bool
any [] = false
any (c ∷ cs) = c || any cs

-- The condition of the last branch of a chain whose branches so far had `c ∷ cs`, where no earlier
-- branch was taken.
abbrev pub last_chosen : Bool → Bool → List Bool → Bool
last_chosen earlier c [] = not earlier && c
last_chosen earlier c (d ∷ cs) = last_chosen (earlier || c) d cs

-- Whether the current branch is chosen, after more branches with the conditions `cs`, where
-- `taken` says whether one was chosen so far and `active` whether the current one is.
abbrev last_active : Bool → Bool → List Bool → Bool
last_active taken active [] = active
last_active taken active (c ∷ cs) = last_active (taken || c) (not taken && c) cs

-- What is known of the top of the stack: whether the parent emits, whether a branch of an emitting
-- parent was taken, and whether the current branch emits.
record Top (parent taken active : Bool) (below stack : ConditionalStack) : Type 0 where
  head : ConditionalState
  is_top : stack ≡ head ∷ below
  parent_is : head.parent_active ≡ parent
  active_is : head.current_branch_active ≡ (parent && active)
  taken_is : parent && head.any_branch_taken ≡ (parent && taken)

Top-is_active :
    {parent taken active : Bool} {below stack : ConditionalStack}
    → Top parent taken active below stack
    → is_active stack ≡ (parent && active)
unfolding is_active
Top-is_active t = rw t.is_top (ground (arith, t.parent_is, t.active_is))

push_if-Top :
    (stack : ConditionalStack) (c : Bool) (r : ByteRange)
    → Top (is_active stack) c c stack (push_if stack c r)
unfolding push_if
push_if-Top stack c r = record {
  head = record {
    any_branch_taken = c;
    current_branch_active = is_active stack && c;
    parent_active = is_active stack;
    range = r;
  };
  is_top = refl;
  parent_is = refl;
  active_is = refl;
  taken_is = refl;
}

handle_elif-Top :
    {parent taken active : Bool} {below stack : ConditionalStack} (c : Bool)
    → Top parent taken active below stack
    → Top parent (taken || c) (not taken && c) below (handle_elif stack c)
unfolding handle_elif
handle_elif-Top c t = record {
  head = elif_state t.head c;
  is_top = rw t.is_top;
  parent_is = ground (arith, t.parent_is);
  active_is = ground (arith, t.parent_is, t.taken_is);
  taken_is = ground (arith, t.parent_is, t.taken_is);
}

handle_else-Top :
    {parent taken active : Bool} {below stack : ConditionalStack}
    → Top parent taken active below stack
    → Top parent true (not taken) below (handle_else stack)
unfolding handle_else
handle_else-Top t = record {
  head = else_state t.head;
  is_top = rw t.is_top;
  parent_is = ground (arith, t.parent_is);
  active_is = ground (arith, t.parent_is, t.taken_is);
  taken_is = ground (arith, t.parent_is, t.taken_is);
}

or_false : (b : Bool) → (b || false) ≡ b
or_false b = ground arith

or_assoc : (a b c : Bool) → ((a || b) || c) ≡ (a || (b || c))
or_assoc a b c = ground arith

elifs-Top :
    (cs : List Bool) {parent taken active : Bool} {below stack : ConditionalStack}
    → Top parent taken active below stack
    → Top parent (taken || any cs) (last_active taken active cs) below (elifs stack cs)
elifs-Top [] t = rw or_false t
elifs-Top (c ∷ cs) {taken} t = rw (← or_assoc taken c (any cs)) (elifs-Top cs (handle_elif-Top c t))

last_chosen-last_active :
    (earlier c : Bool) (cs : List Bool)
    → last_chosen earlier c cs ≡ last_active (earlier || c) (not earlier && c) cs
last_chosen-last_active earlier c [] = refl
last_chosen-last_active earlier c (d ∷ cs) = last_chosen-last_active (earlier || c) d cs

-- The stack while the last branch of `#if c`, `#elif` … is read emits code exactly if the code
-- around the chain does, that branch's condition holds and no earlier condition of the chain
-- does, whatever the conditions are.
pub is_active-elifs :
    (stack : ConditionalStack) (r : ByteRange) (c : Bool) (cs : List Bool)
    → is_active (elifs (push_if stack c r) cs) ≡ (is_active stack && last_chosen false c cs)
is_active-elifs stack r c cs =
    Top-is_active (elifs-Top cs (push_if-Top stack c r))
    ∙ ap (λ b. is_active stack && b) (sym (last_chosen-last_active false c cs))

-- The `#else` branch emits code exactly if the code around does and every condition failed.
pub is_active-handle_else :
    (stack : ConditionalStack) (r : ByteRange) (c : Bool) (cs : List Bool)
    → is_active (handle_else (elifs (push_if stack c r) cs))
      ≡ (is_active stack && not (c || any cs))
is_active-handle_else stack r c cs =
    Top-is_active (handle_else-Top (elifs-Top cs (push_if-Top stack c r)))
