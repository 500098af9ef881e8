-- ===== src/Macros/Args.antt =====
-- co2_preprocessor/src/macro_defs.rs: `copy_ppnumber` and `parse_macro_args`.
pub mod Laws
use mathlib.Core.List.{reverse}
use co.Prelude.{
  ℕ, zero, suc, ◌-◌, ◌+◌, Bool, true, false, ◌&&◌, ◌||◌, List, [], ◌∷◌, ◌++◌, Bytes, Option, none,
  some, prepend, head_is, length, ◌==◌, if◌then◌else◌,
}
use co.Prelude.Outcome.{Outcome, ok, out_of_fuel, ◌>>=◌}
use co.Macros.Paste.{Buffer, push_str, str_or_empty}
use co.Utils.Classes.{is_digit, is_alphanumeric, is_quote}
use co.Utils.Literals.{skip_literal_bytes}
use co.Utils.Text.{trim}

abbrev pub is_exponent : ℕ → Bool
is_exponent c = c == b'e' || c == b'E' || c == b'p' || c == b'P'

abbrev pub is_separated : ℕ → Bool
is_separated c = is_alphanumeric c || c == b'_'

-- The loop of `copy_ppnumber`, behind the byte `before` of the number; 0 at its start.
unfoldable pub ppnumber : ℕ → Bytes → Bytes × Bytes
ppnumber before [] = ([], [])
ppnumber before (c ∷ s) =
    let more = prepend c (ppnumber c s) in
    if is_alphanumeric c
      || c == b'.'
      || c == b'_'
      || (c == b'\'' && head_is is_separated s)
      || ((c == b'+' || c == b'-') && is_exponent before)
    then more
    else ([], c ∷ s)

-- What a byte of the arguments does, at a nesting depth: the end of the call, the end of an argument,
-- or text that is passed over, with the new cursor and depth.
pub data ArgStep : Type 0 where
  finish : ArgStep
  next_arg : ArgStep
  pass : Bytes → Bytes → ℕ → ArgStep

abbrev passed : Bytes × Bytes → ℕ → ArgStep
passed cut depth = pass cut.0 cut.1 depth

-- The `8` of `u8'…'` is no number; `buf` is the argument so far.
unfoldable pub is_prefix_digit : Buffer → ℕ → Bytes → Bool
is_prefix_digit buf c r = c == b'8' && head_is (λ p. p == b'u') buf && head_is is_quote r

unfoldable pub arg_step : ℕ → Buffer → ℕ → Bytes → ArgStep
unfolding ppnumber is_prefix_digit
arg_step depth buf c r =
    if c == b'('
    then pass (c ∷ []) r (suc depth)
    else if c == b')'
    then (if depth == 0 then finish else pass (c ∷ []) r (depth - 1))
    else if c == b',' && depth == 0
    then next_arg
    else if is_digit c
    then (if is_prefix_digit buf c r
        then pass (c ∷ []) r depth
        else passed (ppnumber 0 (c ∷ r)) depth)
    else if is_quote c
    then passed (skip_literal_bytes c (c ∷ r)) depth
    else pass (c ∷ []) r depth

abbrev pub arg_of : Buffer → Bytes
arg_of buf = trim (str_or_empty (reverse buf))

-- The last argument is pushed unless it is empty and the only one.
unfoldable pub close_args : List Bytes → Bytes → List Bytes
close_args [] [] = []
close_args args last = args ++ last ∷ []

-- The loop behind `(`; every round moves the cursor.
unfoldable pub args_from : ℕ → ℕ → List Bytes → Buffer → Bytes → Outcome (List Bytes × Bytes)
unfolding arg_step close_args
args_from zero depth args buf s = out_of_fuel
args_from (suc f) depth args buf [] = ok (close_args args (arg_of buf), [])
args_from (suc f) depth args buf (c ∷ r) = elim (arg_step depth buf c r) [
  | finish ↦ ok (close_args args (arg_of buf), r)
  | next_arg ↦ args_from f 0 (args ++ arg_of buf ∷ []) [] r
  | pass text rest depth' ↦ args_from f depth' args (push_str buf text) rest
]

-- `parse_macro_args` from behind the opening parenthesis: the arguments, and the new cursor.
unfoldable pub parse_macro_args : Bytes → Outcome (List Bytes × Bytes)
unfolding args_from
parse_macro_args s = args_from (suc (length s)) 0 [] [] s
