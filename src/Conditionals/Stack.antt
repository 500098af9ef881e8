-- ===== src/Conditionals/Stack.antt =====
-- co2_preprocessor/src/conditionals.rs: `ConditionalStack`. The top of the stack is the head.
pub mod Chain
pub mod Nesting
pub mod Groups
use co.Prelude.{ℕ, Bool, true, false, not, ◌&&◌, List, [], ◌∷◌, Option, none, some, if◌then◌else◌}

-- `Range<usize>`.
pub record ByteRange : Type 0 where
  pub start : ℕ
  pub end : ℕ

pub record ConditionalState : Type 0 where
  pub any_branch_taken : Bool
  pub current_branch_active : Bool
  pub parent_active : Bool
  pub range : ByteRange

abbrev pub ConditionalStack : Type 0
ConditionalStack = List ConditionalState

unfoldable pub new : ConditionalStack
new = []

unfoldable pub is_active : ConditionalStack → Bool
is_active [] = true
is_active (s ∷ rest) = s.current_branch_active && s.parent_active

unfoldable pub push_if : ConditionalStack → Bool → ByteRange → ConditionalStack
unfolding is_active
push_if stack condition r =
    let parent = is_active stack in
    record {
      any_branch_taken = condition;
      current_branch_active = parent && condition;
      parent_active = parent;
      range = r;
    }
    ∷ stack

-- The update of `self.stack.last_mut()` in `handle_elif`.
elif_state : ConditionalState → Bool → ConditionalState
elif_state s condition =
    if s.any_branch_taken
    then record s { current_branch_active = false }
    else if s.parent_active && condition
    then record s { any_branch_taken = true; current_branch_active = true }
    else record s { current_branch_active = false }

unfoldable pub handle_elif : ConditionalStack → Bool → ConditionalStack
unfolding elif_state
handle_elif [] condition = []
handle_elif (s ∷ rest) condition = elif_state s condition ∷ rest

else_state : ConditionalState → ConditionalState
else_state s =
    if s.any_branch_taken
    then record s { current_branch_active = false }
    else record s { any_branch_taken = true; current_branch_active = s.parent_active }

unfoldable pub handle_else : ConditionalStack → ConditionalStack
unfolding else_state
handle_else [] = []
handle_else (s ∷ rest) = else_state s ∷ rest

unfoldable pub handle_endif : ConditionalStack → ConditionalStack
handle_endif [] = []
handle_endif (s ∷ rest) = rest

-- `self.stack.first()` is the bottom of the stack.
unfoldable pub unclosed_range : ConditionalStack → Option ByteRange
unclosed_range [] = none
unclosed_range (s ∷ []) = some s.range
unclosed_range (s ∷ t ∷ rest) = unclosed_range (t ∷ rest)
