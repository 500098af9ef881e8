-- ===== src/Directives/Defined/Operand.antt =====
-- `resolve_defined_in_expr`: the operand of `defined` is read with or without parentheses.
use co.Prelude.{
  ℕ, ◌≡◌, refl, ap, true, false, [], ◌∷◌, ◌++◌, Bytes, all, span-all, head_is, ◌==◌, arith,
  and-eq-true,
}
use co.Prelude.Outcome.{ok}
use co.Directives.Defined.{skip_blanks, digit_of, skip_close, defined_operand, resolve_defined}
use co.Macros.Table.{MacroTable, is_defined}
use co.Utils.Ascii.{IsAscii, bytes_to_str-IsAscii}
use co.Utils.Classes.{is_blank, is_ident_cont_byte, is_alphanumeric, is_alphabetic, is_digit}

skip_blanks-all :
    (blanks s : Bytes)
    → all is_blank blanks ≡ true
    → head_is is_blank s ≡ false
    → skip_blanks (blanks ++ s) ≡ s
unfolding skip_blanks
skip_blanks-all blanks s h k = ap (λ (p : Bytes × Bytes). p.1) (span-all is_blank blanks s h k)

cont-not_blank : (c : ℕ) → is_ident_cont_byte c ≡ true → is_blank c ≡ false
unfolding is_ident_cont_byte is_blank is_alphanumeric is_alphabetic is_digit
cont-not_blank c h = ground arith

cont-not_open : (c : ℕ) → is_ident_cont_byte c ≡ true → (c == b'(') ≡ false
unfolding is_ident_cont_byte is_alphanumeric is_alphabetic is_digit
cont-not_open c h = ground arith

blank-not_cont : (c : ℕ) → is_blank c ≡ true → is_ident_cont_byte c ≡ false
unfolding is_ident_cont_byte is_blank is_alphanumeric is_alphabetic is_digit
blank-not_cont c h = ground arith

-- Blanks and a closing parenthesis end a name.
name_ends :
    (blanks rest : Bytes)
    → all is_blank blanks ≡ true
    → head_is is_ident_cont_byte (blanks ++ b')' ∷ rest) ≡ false
name_ends [] rest h = unfold is_ident_cont_byte in refl
name_ends (c ∷ blanks) rest h =
    blank-not_cont c (and-eq-true (is_blank c) (all is_blank blanks) h).0

module _ (t : MacroTable) (c : ℕ) (name : Bytes) (word : all is_ident_cont_byte (c ∷ name) ≡ true)
    (ascii : IsAscii (c ∷ name)) (before : Bytes) (blank : all is_blank before ≡ true) where
  is_cont : is_ident_cont_byte c ≡ true
  is_cont = (and-eq-true (is_ident_cont_byte c) (all is_ident_cont_byte name) word).0

  -- `defined NAME` pushes `1` or `0` as the name is defined or not, and goes on behind the name.
  pub resolve_defined_bare :
      (rest : Bytes)
      → head_is is_ident_cont_byte rest ≡ false
      → resolve_defined t (before ++ c ∷ (name ++ rest))
        ≡ ok (digit_of (is_defined t (c ∷ name)), rest)
  unfolding resolve_defined defined_operand
  resolve_defined_bare rest ends =
      rw
        (
          skip_blanks-all before (c ∷ (name ++ rest)) blank (cont-not_blank c is_cont),
          cont-not_open c is_cont,
          span-all is_ident_cont_byte (c ∷ name) rest word ends,
          bytes_to_str-IsAscii (c ∷ name) ascii,
        )
        refl

  -- `defined(NAME)`, with blanks on either side of the name, pushes what `defined NAME` does, and goes
  -- on behind the parenthesis.
  pub resolve_defined_parens :
      (left right rest : Bytes)
      → all is_blank left ≡ true
      → all is_blank right ≡ true
      → resolve_defined t (before ++ b'(' ∷ (left ++ c ∷ (name ++ (right ++ b')' ∷ rest))))
        ≡ ok (digit_of (is_defined t (c ∷ name)), rest)
  unfolding resolve_defined defined_operand skip_close
  resolve_defined_parens left right rest hl hr =
      let tail = right ++ b')' ∷ rest in
      rw
        (
          skip_blanks-all before (b'(' ∷ (left ++ c ∷ (name ++ tail))) blank
              (unfold is_blank in refl),
          skip_blanks-all left (c ∷ (name ++ tail)) hl (cont-not_blank c is_cont),
          span-all is_ident_cont_byte (c ∷ name) tail word (name_ends right rest hr),
          bytes_to_str-IsAscii (c ∷ name) ascii,
          skip_blanks-all right (b')' ∷ rest) hr (unfold is_blank in refl),
        )
        refl
