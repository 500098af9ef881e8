-- ===== src/Directives/Defined/Laws.antt =====
-- `resolve_defined_in_expr`: the pass ends.
use co.Prelude.{
  ℕ, zero, suc, ◌≤◌, ◌≢◌, Bool, true, false, not, ◌||◌, [], ◌∷◌, Bytes, codes, equal, span, drop,
  length, length-drop, length-span_le, head_is, ◌==◌, if_both, arith,
}
use co.Prelude.Outcome.{Outcome, out_of_fuel, Settles, settled, crashed, Settles-bind}
use co.Directives.Defined.{
  skip_blanks, opens, skip_to_paren, skip_close, defined_operand, resolve_defined, resolve_has_name,
  header_name, skip_nested, skip_paren_arg_bytes, resolve_has_include, resolve_ident, resolve_round,
  resolve_defined_in_expr,
}
use co.Directives.Scan.{Pushed}
use co.Directives.Lists.{is_supported_builtin, is_supported_attribute}
use co.Directives.Scan.Laws.{Shrinks, bytes_to_str-Settles, scan_text-ends}
use co.Macros.Table.{MacroTable}
use co.Utils.Classes.{is_blank, is_ident_start_byte, is_ident_cont_byte}

Settles-shorter :
    {m n : ℕ} {o : Outcome Pushed} → m ≤ n → Settles (Shrinks m) o → Settles (Shrinks n) o
Settles-shorter h (settled k) = settled (omega arith)
Settles-shorter h crashed = crashed

pub length-skip_blanks : (s : Bytes) → length (skip_blanks s) ≤ length s
unfolding skip_blanks
length-skip_blanks s = length-span_le is_blank s

length-skip_close : (s : Bytes) → length (skip_close s) ≤ length s
unfolding skip_close
length-skip_close s = ground (arith, length-drop {A = ℕ} 1 s)

pub length-skip_to_paren : (s : Bytes) → length (skip_to_paren s) ≤ length s
unfolding skip_to_paren
length-skip_to_paren s =
    let rest = (span (λ c. not (c == b')')) s).1 in
    omega (arith, length-span_le (λ c. not (c == b')')) s, length-drop {A = ℕ} 1 rest)

length-word : (s : Bytes) → length (span is_ident_cont_byte s).1 ≤ length s
length-word s = length-span_le is_ident_cont_byte s

length-behind : (s : Bytes) → length (skip_blanks (drop 1 (skip_blanks s))) ≤ length s
length-behind s = omega (
  arith,
  length-skip_blanks s,
  length-skip_blanks (drop 1 (skip_blanks s)),
  length-drop {A = ℕ} 1 (skip_blanks s),
)

defined_operand-Settles :
    (t : MacroTable) (p : Bool) (s : Bytes) (n : ℕ)
    → length s ≤ n
    → Settles (Shrinks n) (defined_operand t p s)
unfolding defined_operand
defined_operand-Settles t p s n h =
    let word = span is_ident_cont_byte s in
    Settles-bind (bytes_to_str-Settles word.0) λ name e. settled (
      ground
        (arith, length-word s, length-skip_blanks word.1, length-skip_close (skip_blanks word.1)))

resolve_defined-Settles :
    (t : MacroTable) (s : Bytes) → Settles (Shrinks (length s)) (resolve_defined t s)
unfolding resolve_defined
resolve_defined-Settles t s =
    let r = skip_blanks s in
    if_both (Settles (Shrinks (length s))) (opens r)
      (λ _. defined_operand-Settles t true (skip_blanks (drop 1 r)) (length s) (length-behind s))
      (λ _. defined_operand-Settles t false r (length s) (length-skip_blanks s))

resolve_has_name-Settles :
    (supported : Bytes → Bool) (s : Bytes)
    → Settles (Shrinks (length s)) (resolve_has_name supported s)
unfolding resolve_has_name
resolve_has_name-Settles supported s =
    let r = skip_blanks s in
    let word = span is_ident_cont_byte (skip_blanks (drop 1 r)) in
    if_both (Settles (Shrinks (length s))) (opens r)
      (λ _. Settles-bind (bytes_to_str-Settles word.0) λ name e. settled (
        omega (
          arith,
          length-behind s,
          length-word (skip_blanks (drop 1 r)),
          length-skip_to_paren word.1,
        )))
      (λ _. settled (length-skip_blanks s))

length-skip_nested : (d : ℕ) (s : Bytes) → length (skip_nested d s) ≤ length s
unfolding skip_nested
length-skip_nested d [] = omega arith
length-skip_nested zero (c ∷ s) = ground (arith, length-skip_nested zero s, length-skip_nested 1 s)
length-skip_nested (suc d) (c ∷ s) = ground (
  arith,
  length-skip_nested d s,
  length-skip_nested (suc d) s,
  length-skip_nested (suc (suc d)) s,
)

length-skip_paren : (s : Bytes) → length (skip_paren_arg_bytes s) ≤ length s
unfolding skip_paren_arg_bytes
length-skip_paren s =
    let r = skip_blanks s in
    ground (arith, length-skip_blanks s, length-skip_nested 0 (drop 1 r), length-drop {A = ℕ} 1 r)

header_name-le : (s : Bytes) → length (header_name s).2 ≤ length s
unfolding header_name
header_name-le s =
    let Fits = λ (p : Bytes × Bool × Bytes). length p.2 ≤ length s in
    let quoted = λ (close : ℕ). (span (λ c. not (c == close)) (drop 1 s)).1 in
    if_both Fits (head_is (λ c. c == b'<') s) (λ _. quoted-le b'>')
      λ _.
        if_both Fits (head_is (λ c. c == b'"') s) (λ _. quoted-le b'"')
          (λ _. length-span_le (λ c. not (c == b')')) s)
  where
    quoted-le : (close : ℕ) → length (drop 1 (span (λ c. not (c == close)) (drop 1 s)).1) ≤ length s
    quoted-le close =
        let rest = (span (λ c. not (c == close)) (drop 1 s)).1 in
        omega (
          arith,
          length-drop {A = ℕ} 1 rest,
          length-drop {A = ℕ} 1 s,
          length-span_le (λ c. not (c == close)) (drop 1 s),
        )

module _ (t : MacroTable) (header_found : Bool → Bool → Bytes → Bool) where
  resolve_has_include-Settles :
      (next : Bool) (s : Bytes)
      → Settles (Shrinks (length s)) (resolve_has_include t header_found next s)
  unfolding resolve_has_include
  resolve_has_include-Settles next s =
      let r = skip_blanks s in
      let header = header_name (skip_blanks (drop 1 r)) in
      if_both (Settles (Shrinks (length s))) (opens r)
        (λ _. Settles-bind (bytes_to_str-Settles header.0) λ name e. settled (
          omega (
            arith,
            length-behind s,
            header_name-le (skip_blanks (drop 1 r)),
            length-skip_to_paren header.2,
          )))
        (λ _. settled (length-skip_blanks s))

  resolve_ident-Settles :
      (ident rest : Bytes)
      → Settles (Shrinks (length rest)) (resolve_ident t header_found ident rest)
  unfolding resolve_ident
  resolve_ident-Settles ident rest =
      let P = Settles (Shrinks (length rest)) in
      let is = λ (name : Bytes). equal ident name in
      if_both P (is (codes "defined")) (λ _. resolve_defined-Settles t rest)
        λ _.
          if_both P (is (codes "__has_builtin"))
            (λ _. resolve_has_name-Settles is_supported_builtin rest)
            λ _.
              if_both P (is (codes "__has_attribute"))
                (λ _. resolve_has_name-Settles is_supported_attribute rest)
                λ _.
                  if_both P (is (codes "__has_feature") || is (codes "__has_extension"))
                    (λ _. settled (length-skip_paren rest))
                    λ _.
                      if_both P (is (codes "__has_include"))
                        (λ _. resolve_has_include-Settles false rest)
                        λ _.
                          if_both P (is (codes "__has_include_next"))
                            (λ _. resolve_has_include-Settles true rest) λ _. settled (omega arith)

  resolve_round-Settles :
      (b : ℕ) (r : Bytes) → Settles (Shrinks (length r)) (resolve_round t header_found b r)
  unfolding resolve_round
  resolve_round-Settles b r =
      let word = span is_ident_cont_byte r in
      if_both (Settles (Shrinks (length r))) (is_ident_start_byte b)
        (λ _.
          Settles-bind (bytes_to_str-Settles (b ∷ word.0))
            λ ident e. Settles-shorter (length-word r) (resolve_ident-Settles ident word.1))
        (λ _. settled (omega arith))

  -- The pass never runs out of fuel, with any macros defined and any headers on the disk.
  pub resolve_defined_in_expr-ends :
      (s : Bytes) → resolve_defined_in_expr t header_found s ≢ out_of_fuel
  unfolding resolve_defined_in_expr
  resolve_defined_in_expr-ends = scan_text-ends (resolve_round t header_found) resolve_round-Settles
