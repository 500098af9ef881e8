-- ===== src/Directives/Scan.antt =====
-- What the scanners of expr_eval.rs and of `expand_condition_macros` in conditionals.rs share:
-- literals are copied, and the rest goes through one round after another.
pub mod Laws
use co.Prelude.{
  ℕ, zero, suc, Bool, true, false, ◌&&◌, ◌||◌, List, [], ◌∷◌, ◌++◌, Bytes, Option, none, some, span,
  take, drop, head_is, length, ltb, ◌==◌, if◌then◌else◌,
}
use co.Prelude.Outcome.{Outcome, ok, out_of_fuel, ◌>>=◌}
use co.Utils.Literals.{literal_prefix_len, skip_literal_bytes}
use co.Utils.Text.{bytes_to_str}

-- The text pushed to `result`, and the new cursor.
abbrev pub Pushed : Type 0
Pushed = Bytes × Bytes

-- `result.push_str(bytes_to_str(bytes, i, end)); i = end`.
unfoldable pub copy_slice : Bytes × Bytes → Outcome Pushed
copy_slice p = bytes_to_str p.0 >>= λ text. ok (text, p.1)

-- `bytes[quote_idx]` behind a prefix of `n` bytes.
unfoldable pub quote_after : ℕ → Bytes → ℕ
quote_after n s = if head_is (λ c. c == b'"') (drop n s) then b'"' else b'\''

-- A literal with an encoding prefix of `n` bytes.
unfoldable pub prefixed_literal : ℕ → Bytes → Bytes × Bytes
unfolding quote_after
prefixed_literal n s =
    let cut = skip_literal_bytes (quote_after n s) (drop n s) in (take n s ++ cut.0, cut.1)

-- The literal at the cursor, if one stands there.
unfoldable pub literal_at : Bytes → Option (Bytes × Bytes)
unfolding prefixed_literal
literal_at s =
    if ltb 0 (literal_prefix_len s)
    then some (prefixed_literal (literal_prefix_len s) s)
    else if head_is (λ c. c == b'\'') s
    then some (skip_literal_bytes b'\'' s)
    else if head_is (λ c. c == b'"') s
    then some (skip_literal_bytes b'"' s)
    else none

-- `while i < len { … }`: literals are copied, `round` does the rest. Each round moves the cursor, so
-- the length of the text bounds the rounds.
unfoldable pub scan : (ℕ → Bytes → Outcome Pushed) → ℕ → Bytes → Outcome Bytes
scan round zero s = out_of_fuel
scan round (suc f) [] = ok []
scan round (suc f) (b ∷ r) =
    (elim (literal_at (b ∷ r)) [ some cut ↦ copy_slice cut | none ↦ round b r ]) >>= λ (text, rest).
    scan round f rest >>= λ more. ok (text ++ more)

unfoldable pub scan_text : (ℕ → Bytes → Outcome Pushed) → Bytes → Outcome Bytes
unfolding scan
scan_text round s = scan round (suc (length s)) s
