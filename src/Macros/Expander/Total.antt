-- ===== src/Macros/Expander/Total.antt =====
-- Termination of the expansion of one call, and the set `expanding`.
use mathlib.Core.List.{reverse}
use co.Prelude.{
  ℕ, suc, ◌<◌, ◌≤◌, ◌≡◌, sym, ap, ◌∙◌, subst, Bool, true, false, List, [], ◌∷◌, Bytes, Option, none,
  some, drop, head_is, length, ◌==◌, if_both, arith, inl, inr, Option-cases,
}
use co.Prelude.Outcome.{Outcome, ◌>>=◌, Settles, settled, crashed, Ends, Settles-bind}
use co.Macros.Args.{parse_macro_args}
use co.Macros.Args.Laws.{AllShort, parse_macro_args-Settles}
use co.Macros.Copies.{skip_spaces}
use co.Macros.Copies.Laws.{length-skip_spaces}
use co.Macros.Expander.{
  ExpandState, contains, remove_name, insert_name, Expand, expand_args, has_parameters, macro_body,
  rescan_without, expand_function_macro, trailing_macro, object_body,
}
use co.Macros.Table.Keyed.{IsKeyed}
use co.Macros.Expander.Free.{free, free-insert_lt, remove_name-insert}
use co.Macros.Substitute.Total.{expand_body-Ends, extract_trailing_ident-Ends}
use co.Macros.Table.{MacroDef, MacroTable, get}

-- The state that comes with a result has the names `names`.
abbrev pub Restores {ℓ} : {A : Type ℓ} → List Bytes → A × ExpandState → Type 0
Restores names p = p.1.expanding ≡ names

-- The cursor has moved back from no byte, with the names `names`.
abbrev pub Advances {ℓ} : {A : Type ℓ} → List Bytes → ℕ → A × Bytes × ExpandState → Type 0
Advances names n p = (length p.1 ≤ n) × (p.2.expanding ≡ names)

pub Advances-weaken {ℓ} :
    {A : Type ℓ} {o : Outcome (A × Bytes × ExpandState)} (names : List Bytes) (m n : ℕ)
    → m ≤ n
    → Settles (Advances names m) o
    → Settles (Advances names n) o
Advances-weaken names m n h (settled k) = settled (omega arith, k.1)
Advances-weaken names m n h crashed = crashed

AllShort-weaken : (m n : ℕ) (args : List Bytes) → m ≤ n → AllShort m args → AllShort n args
AllShort-weaken m n [] h k = tt
AllShort-weaken m n (a ∷ args) h k = (omega arith, AllShort-weaken m n args h k.1)

pub length-behind :
    (p : ℕ → Bool) (s : Bytes) → head_is p s ≡ true → suc (length (drop 1 s)) ≤ length s
length-behind p [] h = ground arith
length-behind p (c ∷ s) h = omega arith

-- Nested bodies are expanded to a depth of `d` more macros, and arguments of `n` bytes.
abbrev pub RescanEnds : MacroTable → ℕ → Expand → Type 0
RescanEnds t d rescan =
    (text : Bytes) (st : ExpandState)
    → free t.macros st.expanding < d
    → Settles (Restores st.expanding) (rescan text st)

abbrev pub ArgEnds : MacroTable → ℕ → ℕ → Expand → Type 0
ArgEnds t d n expand_arg =
    (arg : Bytes) (st : ExpandState)
    → length arg ≤ n
    → free t.macros st.expanding ≤ d
    → Settles (Restores st.expanding) (expand_arg arg st)

macro_body-Ends :
    (t : MacroTable) (mac : MacroDef) (args expanded_args : List Bytes)
    → Ends (macro_body t mac args expanded_args)
unfolding macro_body
macro_body-Ends t mac args expanded_args =
    if_both Ends (has_parameters mac) (λ _. expand_body-Ends _ mac.tokenized_body) λ _. settled tt

pub object_body-Ends :
    (t : MacroTable) (rescan expand_arg : Expand) (mac : MacroDef)
    → Ends (object_body t rescan expand_arg mac)
unfolding object_body
object_body-Ends t rescan expand_arg mac =
    if_both Ends mac.has_stringify_or_paste (λ _. expand_body-Ends _ mac.tokenized_body)
      λ _. settled tt

module _ (t : MacroTable) (keyed : IsKeyed t) (d n : ℕ) (rescan expand_arg : Expand)
    (rescan_ends : RescanEnds t d rescan) (arg_ends : ArgEnds t d n expand_arg) (names : List Bytes)
    (bound : free t.macros names ≤ d) where
  -- A macro that stands in the table and is not being expanded.
  abbrev pub IsFree : MacroDef → Type 0
  IsFree mac = (get t mac.name ≡ some mac) × (contains names mac.name ≡ false)

  pub named-IsFree :
      (name : Bytes) (mac : MacroDef)
      → get t name ≡ some mac
      → contains names name ≡ false
      → IsFree mac
  named-IsFree name mac h k =
      subst (λ m. (get t m ≡ some mac) × (contains names m ≡ false)) (sym (keyed name mac h)) (h, k)

  arg_ends-Restores :
      (arg : Bytes) (st : ExpandState)
      → length arg ≤ n
      → st.expanding ≡ names
      → Settles (Restores names) (expand_arg arg st)
  arg_ends-Restores arg st h e =
      subst (λ E. Settles (Restores E) (expand_arg arg st)) e
        (arg_ends arg st h (subst (λ E. free t.macros E ≤ d) (sym e) bound))

  expand_args-Restores :
      (args : List Bytes) (st : ExpandState)
      → AllShort n args
      → st.expanding ≡ names
      → Settles (Restores names) (expand_args expand_arg args st)
  unfolding expand_args
  expand_args-Restores [] st h e = settled e
  expand_args-Restores (a ∷ args) st h e =
      Settles-bind (arg_ends-Restores a st h.0 e)
        λ p k. Settles-bind (expand_args-Restores args p.1 h.1 k) λ q k'. settled k'

  pub rescan_without-Restores :
      (name body : Bytes) (mac : MacroDef) (st : ExpandState)
      → get t name ≡ some mac
      → contains names name ≡ false
      → st.expanding ≡ names
      → Settles (Restores names) (rescan_without t rescan name body st)
  unfolding rescan_without insert_name get
  rescan_without-Restores name body mac st h k e =
      let fewer : free t.macros (name ∷ st.expanding) < d =
        subst (λ E. free t.macros (name ∷ E) < d) (sym e)
          (omega (arith, bound, free-insert_lt t.macros name mac names h k)) in
      Settles-bind (rescan_ends body (insert_name name st) fewer) λ p r.
        settled (ap (remove_name name) (r ∙ ap (name ∷◌) e) ∙ remove_name-insert name names k)

  pub expand_function_macro-Restores :
      (mac : MacroDef) (args : List Bytes) (st : ExpandState)
      → IsFree mac
      → AllShort n args
      → st.expanding ≡ names
      → Settles (Restores names) (expand_function_macro t rescan expand_arg mac args st)
  unfolding expand_function_macro
  expand_function_macro-Restores mac args st h k e =
      Settles-bind (expand_args-Restores args st k e) λ p r.
        Settles-bind (macro_body-Ends t mac args p.0) λ body _.
          Settles-bind (extract_trailing_ident-Ends (reverse body)) λ _ _.
            Settles-bind (rescan_without-Restores mac.name body mac p.1 h.0 h.1 r)
              λ q r'. Settles-bind (extract_trailing_ident-Ends (reverse q.0)) λ _ _. settled r'

  -- The macro that a trailing word calls is free.
  abbrev AllFree : Option (Bytes × MacroDef) → Type 0
  AllFree none = Unit {0}
  AllFree (some (name, mac)) = IsFree mac

  trailing_macro-AllFree :
      (o : Option Bytes) (st : ExpandState)
      → st.expanding ≡ names
      → AllFree (trailing_macro t rescan expand_arg o st)
  unfolding trailing_macro
  trailing_macro-AllFree none st e = tt
  trailing_macro-AllFree (some name) st e =
      if_both AllFree (contains st.expanding name) (λ _. tt)
        λ absent. elim (Option-cases (get t name)) [
          | inl h ↦ rw h tt
          | inr (mac, h) ↦ rw h (
              if_both AllFree mac.is_function_like
                (λ _. named-IsFree name mac h (ap (λ E. contains E name) (sym e) ∙ absent)) λ _. tt)
        ]

  pub trailing_macro-IsFree :
      (o : Option Bytes) (st : ExpandState) (name : Bytes) (mac : MacroDef)
      → st.expanding ≡ names
      → trailing_macro t rescan expand_arg o st ≡ some (name, mac)
      → IsFree mac
  trailing_macro-IsFree o st name mac e h = subst AllFree h (trailing_macro-AllFree o st e)

  -- What stands behind an opening parenthesis.
  pub call_ends :
      {A : Type 0} (P : A → Type 0) (s : Bytes) (k : List Bytes → Bytes → Outcome A)
      → length s ≤ n
      → head_is (λ c. c == b'(') (skip_spaces s) ≡ true
      → ((args : List Bytes) (end : Bytes)
          → AllShort n args
          → length end < length s
          → Settles P (k args end))
      → Settles P (parse_macro_args (drop 1 (skip_spaces s)) >>= λ (args, end). k args end)
  call_ends P s k h opened more =
      let r = drop 1 (skip_spaces s) in
      let l = length-behind (λ c. c == b'(') (skip_spaces s) opened in
      Settles-bind (parse_macro_args-Settles r) λ p q.
        more p.0 p.1 (AllShort-weaken (length r) n p.0 (omega (arith, length-skip_spaces s)) q.0)
          (omega (arith, length-skip_spaces s))
