-- ===== src/Pipeline/Pragmas/Laws.antt =====
-- `#pragma push_macro` and `#pragma pop_macro` together.
use co.Prelude.{
  ◌≡◌, refl, subst, sym, ap, ◌∙◌, false, [], ◌∷◌, List, Bytes, equal, equal_iff, Option, none, some,
  if◌then◌else◌, Option-cases, inl, inr,
}
use co.Macros.Table.{MacroDef, MacroTable, get, lookup, insert, define}
use co.Macros.Table.Keyed.{IsKeyed}
use co.Macros.Table.Laws.{lookup-insert, get-define-undefine}
use co.Pipeline.Directives.{Preprocessor}
use co.Pipeline.Pragmas.{
  extract_pragma_macro_name, saved_of, save, put_back, restore, handle_pragma_push_macro,
  handle_pragma_pop_macro,
}

lookup-insert_same {ℓ} :
    {V : Type ℓ} (k : Bytes) (v : V) (m : List (Bytes × V)) → lookup k (insert k v m) ≡ some v
lookup-insert_same k v m = lookup-insert k k v m ∙ rw ((equal_iff k k).1 refl) refl

abbrev nobody : MacroDef
nobody = record {
  name = [];
  is_function_like = false;
  params = [];
  is_variadic = false;
  has_named_variadic = false;
  body = [];
  tokenized_body = [];
  has_stringify_or_paste = false;
}

-- The table with a saved definition put back.
get-put_back :
    (t now : MacroTable) (name other : Bytes)
    → IsKeyed t
    → get (put_back now name (get t name)) other
      ≡ (if equal name other then get t name else get now other)
unfolding put_back
get-put_back t now name other keyed = elim (Option-cases (get t name)) [
  | inl e ↦ rw e ((get-define-undefine now nobody name other).1)
  | inr (def, e) ↦ rw e (
      subst (λ n. get (define now def) other ≡ (if equal n other then some def else get now other))
        (keyed name def e) (get-define-undefine now def name other).0)
]

-- What `push_macro` and `pop_macro` do with a name that is found.
abbrev on_push : Preprocessor → Option Bytes → Preprocessor
on_push p none = p
on_push p (some name) = save p name

abbrev on_pop : Preprocessor → Option Bytes → Preprocessor
on_pop p none = p
on_pop p (some name) = restore p name (saved_of (lookup name p.macro_save_stack))

pushed :
    (p : Preprocessor) (content : Bytes) (o : Option Bytes)
    → extract_pragma_macro_name content ≡ o
    → handle_pragma_push_macro p content ≡ on_push p o
unfolding handle_pragma_push_macro
pushed p content none e = rw (e, handle_pragma_push_macro) refl
pushed p content (some name) e = rw (e, handle_pragma_push_macro) refl

popped :
    (p : Preprocessor) (content : Bytes) (o : Option Bytes)
    → extract_pragma_macro_name content ≡ o
    → handle_pragma_pop_macro p content ≡ on_pop p o
unfolding handle_pragma_pop_macro
popped p content none e = rw (e, handle_pragma_pop_macro) refl
popped p content (some name) e = rw (e, handle_pragma_pop_macro) refl

saved_at_push :
    (p : Preprocessor) (name : Bytes)
    → lookup name (save p name).macro_save_stack
      ≡ some (get p.macros name ∷ saved_of (lookup name p.macro_save_stack))
unfolding save
saved_at_push p name =
    lookup-insert_same name (get p.macros name ∷ saved_of (lookup name p.macro_save_stack))
      p.macro_save_stack

restored :
    (p : Preprocessor) (t : MacroTable) (name other : Bytes) (more : List (Option MacroDef))
    → IsKeyed t
    → (get (restore p name (get t name ∷ more)).macros other
        ≡ (if equal name other then get t name else get p.macros other))
      × (saved_of (lookup name (restore p name (get t name ∷ more)).macro_save_stack) ≡ more)
unfolding restore
restored p t name other more keyed = (
  get-put_back t p.macros name other keyed,
  ap saved_of (lookup-insert_same name more p.macro_save_stack),
)

-- A macro's definition is pushed, and whatever happens to the macros, as long as the saved
-- definitions of that name are as they were, popping it gives that name its old definition again, or
-- none if it had none. Every other name keeps the definition it has by then, and the definitions that
-- were saved before are saved again.
pub handle_pragma_pop_macro-push_macro :
    (p now : Preprocessor) (content content' name other : Bytes)
    → IsKeyed p.macros
    → extract_pragma_macro_name content ≡ some name
    → extract_pragma_macro_name content' ≡ some name
    → lookup name now.macro_save_stack
      ≡ lookup name (handle_pragma_push_macro p content).macro_save_stack
    → (get (handle_pragma_pop_macro now content').macros other
        ≡ (if equal name other then get p.macros name else get now.macros other))
      × (saved_of (lookup name (handle_pragma_pop_macro now content').macro_save_stack)
          ≡ saved_of (lookup name p.macro_save_stack))
handle_pragma_pop_macro-push_macro p now content content' name other keyed e e' h =
    let old = saved_of (lookup name p.macro_save_stack) in
    let found : lookup name now.macro_save_stack ≡ some (get p.macros name ∷ old) =
      h
      ∙ ap (λ q. lookup name q.macro_save_stack) (pushed p content (some name) e)
      ∙ saved_at_push p name in
    let step : handle_pragma_pop_macro now content' ≡ restore now name (get p.macros name ∷ old) =
      popped now content' (some name) e' ∙ ap (λ o. restore now name (saved_of o)) found in
    subst
      (λ q.
        (get q.macros other
          ≡ (if equal name other then get p.macros name else get now.macros other))
        × (saved_of (lookup name q.macro_save_stack) ≡ old))
      (sym step) (restored now p.macros name other old keyed)
