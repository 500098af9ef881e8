-- ===== src/Macros/Table/Keyed.antt =====
-- The keys of the macro table.
use co.Prelude.{
  ◌≡◌, refl, sym, ap, ◌∙◌, codes, false, [], Bytes, equal, equal_iff, some, ℕ, Bool, Bool-cases,
  inl, inr, none-ne-some, List, Option-cases,
}
use co.Prelude.Outcome.{Settles, settled, Settles-bind}
use co.Macros.Table.{
  MacroDef, MacroTable, lookup, insert, new, define, undefine, get, set_file, macro_def_from_parts,
}
use co.Macros.Token.Text.{tokenize_macro_body-text}
use co.Macros.Table.Laws.{lookup-insert, lookup-remove}

abbrev pub IsKeyed : MacroTable → Type 0
IsKeyed t = (name : Bytes) (d : MacroDef) → get t name ≡ some d → d.name ≡ name

some_inj {ℓ} : {A : Type ℓ} {a b : A} → some a ≡ some b → a ≡ b
some_inj h = cc

-- What `define` does to the table.
insert-IsKeyed :
    (t : MacroTable) (k : Bytes) (d : MacroDef)
    → d.name ≡ k
    → IsKeyed t
    → IsKeyed (record t { macros = insert k d t.macros })
unfolding get
insert-IsKeyed t k d e keyed name c h = elim (Bool-cases (equal k name)) [
  | inl same ↦
      let found : some d ≡ some c = sym (lookup-insert k name d t.macros ∙ rw same) ∙ h in
      sym (ap (λ m. m.name) (some_inj found)) ∙ e ∙ (equal_iff k name).0 same
  | inr other ↦ keyed name c (sym (lookup-insert k name d t.macros ∙ rw other) ∙ h)
]

new-IsKeyed : IsKeyed new
unfolding new get lookup
new-IsKeyed name d h = cc

remove-IsKeyed : (t : MacroTable) (k : Bytes) → IsKeyed t → IsKeyed (undefine t k)
unfolding get undefine
remove-IsKeyed t k keyed name c h = elim (Bool-cases (equal k name)) [
  | inl same ↦ absurd (none-ne-some (sym (lookup-remove k name t.macros ∙ rw same) ∙ h))
  | inr other ↦ keyed name c (sym (lookup-remove k name t.macros ∙ rw other) ∙ h)
]

module _ (is_xid_start is_xid_continue : ℕ → Bool) where
  macro_def_from_parts-name :
      (name : Bytes) (function_like : Bool) (params : List Bytes) (variadic named : Bool)
      (body : Bytes)
      → Settles
          (λ d. d.name ≡ name)
          (macro_def_from_parts is_xid_start is_xid_continue name function_like params variadic
            named body)
  unfolding macro_def_from_parts
  macro_def_from_parts-name name function_like params variadic named body =
      Settles-bind (tokenize_macro_body-text is_xid_start is_xid_continue body) λ _ _. settled refl

  set_file-IsKeyed :
      (t : MacroTable) (body : Bytes)
      → IsKeyed t
      → Settles IsKeyed (set_file is_xid_start is_xid_continue t body)
  unfolding set_file
  set_file-IsKeyed t body keyed = elim (Option-cases (get t (codes "__FILE__"))) [
    | inl e ↦ rw e (
        Settles-bind (macro_def_from_parts-name (codes "__FILE__") false [] false false body)
          λ d k. settled (insert-IsKeyed t (codes "__FILE__") d k keyed))
    | inr (old, e) ↦ rw e (
        Settles-bind (tokenize_macro_body-text is_xid_start is_xid_continue body) λ _ _.
          settled (insert-IsKeyed t (codes "__FILE__") _ (keyed (codes "__FILE__") old e) keyed))
  ]

  -- Every table that the source builds has its macros under their own names: the empty one has, and
  -- `define`, `undefine` and `set_file` keep it so.
  pub IsKeyed-define-undefine-set_file :
      (t : MacroTable) (d : MacroDef) (name body : Bytes)
      → IsKeyed t
      → IsKeyed new
        × IsKeyed (define t d)
        × IsKeyed (undefine t name)
        × Settles IsKeyed (set_file is_xid_start is_xid_continue t body)
  unfolding define
  IsKeyed-define-undefine-set_file t d name body k = (
    new-IsKeyed,
    insert-IsKeyed t d.name d refl k,
    remove-IsKeyed t name k,
    set_file-IsKeyed t body k,
  )
