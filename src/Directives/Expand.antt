-- ===== src/Directives/Expand.antt =====
-- co2_preprocessor/src/conditionals.rs: `expand_condition_macros` and `evaluate_condition`.
pub mod Laws
pub mod Words
use co.Prelude.{
  ℕ, zero, suc, ◌-◌, Bool, true, false, not, ◌&&◌, ◌||◌, List, [], ◌∷◌, ◌++◌, Bytes, codes, equal,
  Option, none, some, prepend, span, head_is, drop, take, length, ◌==◌, if◌then◌else◌,
}
use co.Prelude.Outcome.{Outcome, ok, out_of_fuel, ◌>>=◌}
use co.Conditionals.Tokenizer.{eval_const_expr}
use co.Directives.Defined.{skip_blanks, skip_to_paren}
use co.Directives.Scan.{Pushed, copy_slice, literal_at}
use co.Macros.Table.{MacroDef, MacroTable, get}
use co.Utils.Classes.{is_digit, is_alphanumeric, is_ident_start_byte, is_ident_cont_byte}
use co.Utils.Text.{bytes_to_str}

-- The last byte passes the test; false where there is none.
abbrev pub last_is : (ℕ → Bool) → Bool → Bytes → Bool
last_is p otherwise [] = otherwise
last_is p otherwise (c ∷ s) = last_is p (p c) s

-- `defined` stands at the cursor, and no identifier byte behind it.
unfoldable pub at_defined : Bytes → Bool
at_defined s = equal (take 7 s) (codes "defined") && not (head_is is_ident_cont_byte (drop 7 s))

-- The cursor behind the operand of `defined`, from the cursor behind `defined`.
unfoldable pub skip_operand : Bytes → Bytes
unfolding skip_blanks skip_to_paren
skip_operand s =
    let r = skip_blanks s in
    if head_is (λ c. c == b'(') r
    then skip_to_paren (drop 1 r)
    else if head_is is_ident_start_byte r
    then (span is_ident_cont_byte r).1
    else r

abbrev pub is_exponent : ℕ → Bool
is_exponent c = c == b'e' || c == b'E' || c == b'p' || c == b'P'

-- The rest of a pp-number behind the byte `before`.
unfoldable pub number_rest : ℕ → Bytes → Bytes × Bytes
number_rest before [] = ([], [])
number_rest before (c ∷ s) =
    let more = prepend c (number_rest c s) in
    if is_alphanumeric c
      || c == b'.'
      || c == b'_'
      || ((c == b'+' || c == b'-') && is_exponent before)
    then more
    else ([], c ∷ s)

-- What an identifier is expanded to: the body of an object-like macro.
unfoldable pub expanded_macro : Option MacroDef → Bytes → Bytes
expanded_macro none ident = ident
expanded_macro (some mac) ident = if mac.is_function_like then ident else mac.body

module _ (t : MacroTable) where
  -- `glued` says whether `result` ends in a letter or a digit.
  unfoldable pub expand_ident : Bool → Bytes → Bytes
  unfolding expanded_macro
  expand_ident glued ident = if glued then ident else expanded_macro (get t ident) ident

  -- The branches but for literals. `inside` says whether the byte before the cursor belongs to an
  -- identifier.
  unfoldable pub expand_round : Bool → Bool → ℕ → Bytes → Outcome Pushed
  unfolding at_defined skip_operand number_rest expand_ident
  expand_round inside glued b r =
      if not inside && at_defined (b ∷ r)
      then (let rest = skip_operand (drop 7 (b ∷ r)) in
          copy_slice (take (length (b ∷ r) - length rest) (b ∷ r), rest))
      else if is_digit b || (b == b'.' && head_is is_digit r)
      then (let number = number_rest b r in copy_slice (b ∷ number.0, number.1))
      else if is_ident_start_byte b
      then (let word = span is_ident_cont_byte r in
          bytes_to_str (b ∷ word.0) >>= λ ident. ok (expand_ident glued ident, word.1))
      else ok (b ∷ [], r)

  -- The loop. Each round moves the cursor, so the length of the text bounds the rounds.
  unfoldable pub expand_from : ℕ → Bool → Bool → Bytes → Outcome Bytes
  unfolding expand_round
  expand_from zero inside glued s = out_of_fuel
  expand_from (suc f) inside glued [] = ok []
  expand_from (suc f) inside glued (b ∷ r) =
      (elim (literal_at (b ∷ r)) [
        | some cut ↦ copy_slice cut
        | none ↦ expand_round inside glued b r
      ])
      >>= λ (text, rest).
          expand_from f
            (last_is is_ident_cont_byte inside (take (length (b ∷ r) - length rest) (b ∷ r)))
            (last_is is_alphanumeric glued text) rest
          >>= λ more. ok (text ++ more)

  unfoldable pub expand_condition_macros : Bytes → Outcome Bytes
  unfolding expand_from
  expand_condition_macros expr = expand_from (suc (length expr)) false false expr

  unfoldable pub evaluate_condition : Bytes → Outcome Bool
  unfolding expand_condition_macros
  evaluate_condition expr = expand_condition_macros expr >>= eval_const_expr
