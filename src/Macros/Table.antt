-- ===== src/Macros/Table.antt =====
-- co2_preprocessor/src/macro_defs.rs: `MacroDef` and `MacroTable`. A hash map is an association
-- list in which a key stands once; nothing reads its order.
pub mod Laws
pub mod Keyed
use co.Prelude.{
  ℕ, Bool, true, false, ◌||◌, List, [], ◌∷◌, Bytes, codes, equal, Option, none, some, if◌then◌else◌,
}
use co.Prelude.Outcome.{Outcome, ok, ◌>>=◌}
use co.Macros.Token
use co.Macros.Token.{MacroBodyToken, tokenize_macro_body, resolve_params}

pub record MacroDef : Type 0 where
  pub name : Bytes
  pub is_function_like : Bool
  pub params : List Bytes
  pub is_variadic : Bool
  pub has_named_variadic : Bool
  pub body : Bytes
  pub tokenized_body : List MacroBodyToken
  pub has_stringify_or_paste : Bool

pub record MacroTable : Type 0 where
  pub macros : List (Bytes × MacroDef)
  pub counter : ℕ

module _ {ℓ} {V : Type ℓ} where
  -- `FxHashMap::get`, `insert` and `remove`.
  unfoldable pub lookup : Bytes → List (Bytes × V) → Option V
  lookup k [] = none
  lookup k ((j, v) ∷ m) = if equal j k then some v else lookup k m

  unfoldable pub insert : Bytes → V → List (Bytes × V) → List (Bytes × V)
  insert k v [] = (k, v) ∷ []
  insert k v ((j, w) ∷ m) = if equal j k then (k, v) ∷ m else (j, w) ∷ insert k v m

  unfoldable pub remove : Bytes → List (Bytes × V) → List (Bytes × V)
  remove k [] = []
  remove k ((j, w) ∷ m) = let rest = remove k m in if equal j k then rest else (j, w) ∷ rest

abbrev pub is_some {ℓ} : {A : Type ℓ} → Option A → Bool
is_some none = false
is_some (some a) = true

unfoldable pub new : MacroTable
new = record { macros = []; counter = 0 }

unfoldable pub define : MacroTable → MacroDef → MacroTable
define t d = record t { macros = insert d.name d t.macros }

unfoldable pub undefine : MacroTable → Bytes → MacroTable
undefine t name = record t { macros = remove name t.macros }

unfoldable pub get : MacroTable → Bytes → Option MacroDef
get t name = lookup name t.macros

-- The names that are no entries of the table.
unfoldable pub is_operator_name : Bytes → Bool
is_operator_name name =
    equal name (codes "__has_builtin")
    || equal name (codes "__has_attribute")
    || equal name (codes "__has_feature")
    || equal name (codes "__has_extension")
    || equal name (codes "__has_include")
    || equal name (codes "__has_include_next")

unfoldable pub is_defined : MacroTable → Bytes → Bool
unfolding is_operator_name
is_defined t name =
    equal name (codes "__COUNTER__")
    || equal name (codes "__LINE__")
    || is_some (get t name)
    || is_operator_name name

unfoldable pub has_stringify_or_paste : List MacroBodyToken → Bool
has_stringify_or_paste [] = false
has_stringify_or_paste (MacroBodyToken.hash ∷ ts) = true
has_stringify_or_paste (MacroBodyToken.hash_hash ∷ ts) = true
has_stringify_or_paste (t ∷ ts) = has_stringify_or_paste ts

module _ (is_xid_start is_xid_continue : ℕ → Bool) where
  unfoldable pub macro_def_from_parts :
      Bytes → Bool → List Bytes → Bool → Bool → Bytes → Outcome MacroDef
  unfolding tokenize_macro_body resolve_params has_stringify_or_paste
  macro_def_from_parts name function_like params variadic named_variadic body =
      tokenize_macro_body is_xid_start is_xid_continue body >>= λ raw_tokens. ok (record {
        name = name;
        is_function_like = function_like;
        params = params;
        is_variadic = variadic;
        has_named_variadic = named_variadic;
        body = body;
        tokenized_body = resolve_params raw_tokens params variadic;
        has_stringify_or_paste = has_stringify_or_paste raw_tokens;
      })

  abbrev file_name : Bytes
  file_name = codes "__FILE__"

  set_file_at : MacroTable → Bytes → Option MacroDef → Outcome MacroTable
  unfolding macro_def_from_parts
  set_file_at t body none = macro_def_from_parts file_name false [] false false body >>= λ d.
      ok (record t { macros = insert file_name d t.macros })
  set_file_at t body (some existing) =
      tokenize_macro_body is_xid_start is_xid_continue body >>= λ tokens.
      let updated = record existing {
        body = body;
        tokenized_body = tokens;
        has_stringify_or_paste = has_stringify_or_paste tokens;
      } in
      ok (record t { macros = insert file_name updated t.macros })

  unfoldable pub set_file : MacroTable → Bytes → Outcome MacroTable
  unfolding set_file_at get
  set_file t body = set_file_at t body (get t file_name)

unfoldable pub get_file_body : MacroTable → Option Bytes
unfolding get
get_file_body t = elim (get t (codes "__FILE__")) [ none ↦ none | some d ↦ some d.body ]
