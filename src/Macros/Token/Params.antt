-- ===== src/Macros/Token/Params.antt =====
-- `resolve_params`, and where the macro body tokenizer panics.
use mathlib.Core.Path.{ap₂}
use native.Mathlib.Decide.{dec_lt}
use co.Prelude.{
  ℕ, zero, suc, ◌<◌, ◌≡◌, ◌≢◌, ◌↔◌, refl, ap, sym, ◌∙◌, Bool, true, false, ◌&&◌, List, [], ◌∷◌,
  Bytes, codes, equal, equal_iff, arith, Option, none, some, Option-cases, Bool-cases, subst,
  none-ne-some, inl, inr, get_elem?,
}
use co.Macros.Token.{
  MacroBodyToken, ident, param, position, resolve_ident, resolve_token, resolve_params,
}

-- `i` is the first place of `s` in the list.
pub record IsFirst (ps : List Bytes) (s : Bytes) (i : ℕ) : Type 0 where
  pub found : get_elem? ps i ≡ some s
  pub first : (j : ℕ) → j < i → get_elem? ps j ≢ some s

abbrev Locates : List Bytes → Bytes → Option ℕ → Type 0
Locates ps s none = (i : ℕ) → get_elem? ps i ≢ some s
Locates ps s (some i) = IsFirst ps s i

position_found :
    (p : Bytes) (ps : List Bytes) (s : Bytes) → equal p s ≡ true → position (p ∷ ps) s ≡ some 0
position_found p ps s e = unfold position in rw e

position-none :
    (p : Bytes) (ps : List Bytes) (s : Bytes)
    → equal p s ≡ false
    → position ps s ≡ none
    → position (p ∷ ps) s ≡ none
position-none p ps s e h = unfold position in rw (e, h)

position-some :
    (p : Bytes) (ps : List Bytes) (s : Bytes) (i : ℕ)
    → equal p s ≡ false
    → position ps s ≡ some i
    → position (p ∷ ps) s ≡ some (suc i)
position-some p ps s i e h = unfold position in rw (e, h)

equal-ne : (a b : Bytes) → equal a b ≡ false → a ≢ b
equal-ne a b e h = absurd_Bool (sym ((equal_iff a b).1 h) ∙ e)
  where
    absurd_Bool : true ≡ false → ⊥
    absurd_Bool x = cc

some-eq : (a b : Bytes) → some a ≡ some b → a ≡ b
some-eq a b h = cc

absent-cons :
    (p : Bytes) (ps : List Bytes) (s : Bytes) → p ≢ s → Locates ps s none → Locates (p ∷ ps) s none
absent-cons p ps s h k zero e = h (some-eq p s e)
absent-cons p ps s h k (suc i) e = k i e

IsFirst-cons :
    (p : Bytes) (ps : List Bytes) (s : Bytes) (i : ℕ)
    → p ≢ s
    → IsFirst ps s i
    → IsFirst (p ∷ ps) s (suc i)
IsFirst-cons p ps s i h f = record { found = f.found; first = earlier }
  where
    earlier : (j : ℕ) → j < suc i → get_elem? (p ∷ ps) j ≢ some s
    earlier zero l e = h (some-eq p s e)
    earlier (suc j) l e = f.first j (omega arith) e

position_empty : (s : Bytes) → position [] s ≡ none
unfolding position
position_empty s = refl

position-Locates : (ps : List Bytes) (s : Bytes) → Locates ps s (position ps s)
position-Locates [] s = subst (Locates [] s) (sym (position_empty s)) (λ i h. none-ne-some h)
position-Locates (p ∷ ps) s = elim (Bool-cases (equal p s)) [
  | inl e ↦
      subst (Locates (p ∷ ps) s) (sym (position_found p ps s e))
        (record { found = ap some ((equal_iff p s).0 e); first = λ j l x. absurd (omega arith) })
  | inr e ↦ elim (Option-cases (position ps s)) [
    | inl h ↦
        subst (Locates (p ∷ ps) s) (sym (position-none p ps s e h))
          (absent-cons p ps s (equal-ne p s e) (subst (Locates ps s) h (position-Locates ps s)))
    | inr (i, h) ↦
        subst (Locates (p ∷ ps) s) (sym (position-some p ps s i e h))
          (IsFirst-cons p ps s i (equal-ne p s e) (subst (Locates ps s) h (position-Locates ps s)))
  ]
]

IsFirst-unique : (ps : List Bytes) (s : Bytes) (i j : ℕ) → IsFirst ps s i → IsFirst ps s j → i ≡ j
IsFirst-unique ps s i j f g = elim (dec_lt i j) [
  | yes l ↦ absurd (g.first i l f.found)
  | no n ↦ elim (dec_lt j i) [ yes l ↦ absurd (f.first j l g.found) | no m ↦ omega arith ]
]

param-eq : (i j : ℕ) → param i ≡ param j → i ≡ j
param-eq i j h = cc

ident-ne-param : (s : Bytes) (i : ℕ) → ident s ≢ param i
ident-ne-param s i h = cc

resolve_ident-none :
    (params : List Bytes) (s : Bytes) → position params s ≡ none → resolve_ident params s ≡ ident s
unfolding resolve_ident
resolve_ident-none params s h = rw (h, resolve_ident)

resolve_ident-some :
    (params : List Bytes) (s : Bytes) (i : ℕ)
    → position params s ≡ some i
    → resolve_ident params s ≡ param i
unfolding resolve_ident
resolve_ident-some params s i h = rw (h, resolve_ident)

resolve_ident_param :
    (params : List Bytes) (s : Bytes) (i : ℕ)
    → (resolve_ident params s ≡ param i) ↔ IsFirst params s i
resolve_ident_param params s i = elim (Option-cases (position params s)) [
  | inl h ↦
      let absent = subst (Locates params s) h (position-Locates params s) in
      (
        λ e. absurd (ident-ne-param s i (sym (resolve_ident-none params s h) ∙ e)),
        λ f. absurd (absent i f.found),
      )
  | inr (k, h) ↦
      let located = subst (Locates params s) h (position-Locates params s) in
      (
        λ e.
            subst (IsFirst params s) (param-eq k i (sym (resolve_ident-some params s k h) ∙ e))
              located,
        λ f. resolve_ident-some params s k h ∙ ap param (IsFirst-unique params s k i located f),
      )
]

resolve_token_ident :
    (params : List Bytes) (v : Bool) (s : Bytes)
    → (equal s (codes "__VA_ARGS__") && v) ≡ false
    → resolve_token params v (ident s) ≡ resolve_ident params s
unfolding resolve_token
resolve_token_ident params v s h = rw h

-- Resolution puts a parameter's index for an identifier exactly if the identifier is that
-- parameter's name and no earlier parameter's, `__VA_ARGS__` of a variadic macro apart.
pub resolve_token_param :
    (params : List Bytes) (is_variadic : Bool) (s : Bytes) (i : ℕ)
    → (equal s (codes "__VA_ARGS__") && is_variadic) ≡ false
    → (resolve_token params is_variadic (ident s) ≡ param i) ↔ IsFirst params s i
resolve_token_param params v s i h =
    subst (λ t. (t ≡ param i) ↔ IsFirst params s i) (sym (resolve_token_ident params v s h))
      (resolve_ident_param params s i)

resolve_token_no_params : (t : MacroBodyToken) → resolve_token [] false t ≡ t
unfolding resolve_token
resolve_token_no_params (ident s) = ground arith
resolve_token_no_params _ = refl

-- The body of an object-like macro is left as it was tokenized.
pub resolve_params_no_params :
    (tokens : List MacroBodyToken) → resolve_params tokens [] false ≡ tokens
unfolding resolve_params
resolve_params_no_params [] = refl
resolve_params_no_params (t ∷ ts) =
    ap₂ ◌∷◌ (resolve_token_no_params t) (resolve_params_no_params ts)
