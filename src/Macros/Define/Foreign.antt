-- ===== src/Macros/Define/Foreign.antt =====
-- `parse_define` on bytes that start nothing in a parameter list.
use co.Prelude.{
  ℕ, zero, suc, ◌≡◌, refl, ap, ◌∙◌, Bool, true, false, not, ◌||◌, List, [], ◌∷◌, ◌++◌, Bytes, ◌==◌,
  arith,
}
use co.Prelude.Outcome.{ok, out_of_fuel, ◌>>=◌}
use co.Directives.Idents.Laws.{IsWord}
use co.Macros.Define.{is_ellipsis, continue, param_step, parse_params, define_with, parse_define}
use co.Utils.Classes.{is_blank, is_ident_start_byte}
use co.Utils.Text.{trim}
use co.Macros.Define.Laws.{continues, parse_params_round, skip_blanks-start, parse_define-function}

-- A byte that starts nothing in a parameter list: no blank, no `)`, no `...`, no identifier and no
-- comma.
unfoldable pub is_foreign : ℕ → Bytes → Bool
unfolding is_blank is_ellipsis is_ident_start_byte
is_foreign c r =
    not (is_blank c || c == b')' || is_ellipsis (c ∷ r) || is_ident_start_byte c || c == b',')

or_false :
    (a b c d e : Bool)
    → not (a || b || c || d || e) ≡ true
    → (a ≡ false) × (b ≡ false) × (c ≡ false) × (d ≡ false) × (e ≡ false)
or_false a b c d e h = (ground arith, ground arith, ground arith, ground arith, ground arith)

foreign_cases :
    (c : ℕ) (r : Bytes)
    → is_foreign c r ≡ true
    → (is_blank c ≡ false)
      × ((c == b')') ≡ false)
      × (is_ellipsis (c ∷ r) ≡ false)
      × (is_ident_start_byte c ≡ false)
      × ((c == b',') ≡ false)
unfolding is_foreign
foreign_cases c r h =
    or_false (is_blank c) (c == b')') (is_ellipsis (c ∷ r)) (is_ident_start_byte c) (c == b',') h

param_step-foreign :
    (acc : List Bytes) (c : ℕ) (r : Bytes)
    → is_foreign c r ≡ true
    → param_step acc c r ≡ ok (continue acc (c ∷ r))
unfolding param_step
param_step-foreign acc c r h =
    let no = foreign_cases c r h in
    rw (no.1, no.2, no.3, skip_blanks-start c r no.0) (rw (no.4) refl)

-- At a foreign byte the loop turns without moving, whatever the fuel.
parse_params-foreign :
    (f : ℕ) (acc : List Bytes) (c : ℕ) (r : Bytes)
    → is_foreign c r ≡ true
    → parse_params f acc (c ∷ r) ≡ out_of_fuel
unfolding parse_params
parse_params-foreign zero acc c r h = refl
parse_params-foreign (suc f) acc c r h =
    parse_params_round f acc (c ∷ r) c r (skip_blanks-start c r (foreign_cases c r h).0)
    ∙ ap (continues f) (param_step-foreign acc c r h)
    ∙ parse_params-foreign f acc c r h

module _ (is_xid_start is_xid_continue : ℕ → Bool) where
  -- A byte that starts nothing in a parameter list keeps `parse_define` from ever ending: no amount
  -- of fuel gives a result for a line with one right behind the parenthesis.
  pub parse_define-hangs :
      (f : ℕ) (line name : Bytes) (c : ℕ) (r : Bytes)
      → IsWord name
      → is_foreign c r ≡ true
      → trim line ≡ name ++ b'(' ∷ c ∷ r
      → parse_define is_xid_start is_xid_continue f line ≡ out_of_fuel
  unfolding define_with
  parse_define-hangs f line name c r w h e =
      parse_define-function is_xid_start is_xid_continue f line name (c ∷ r) w e
      ∙ ap (λ o. o >>= λ p. define_with is_xid_start is_xid_continue name true p)
          (parse_params-foreign f [] c r h)
