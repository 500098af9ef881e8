-- ===== src/Tests/Macros.antt =====
-- Macro bodies and the macro table at concrete inputs.
use co.Prelude.{
  ℕ, ◌≡◌, ◌↔◌, refl, Bool, true, false, List, [], ◌∷◌, ◌++◌, Bytes, codes, equal, some, none,
  if◌then◌else◌,
}
use co.Prelude.Outcome.{ok, Settles}
use co.Macros.Token.{ident, param, tokenize_macro_body, resolve_token}
use co.Macros.Token.Cuts.{tokens_text}
use co.Macros.Token.Text.{tokenize_macro_body-text}
use co.Macros.Token.Params.{IsFirst, resolve_token_param}
use co.Macros.Table.{MacroDef, MacroTable, define, undefine, get, is_defined}
use co.Macros.Table.Laws.{get-define-undefine, IsBuiltin, is_defined-define-undefine}

abbrev no_char : ℕ → Bool
no_char c = false

-- `a ## "b"`.
abbrev body_text : Bytes
body_text = codes "a ## " ++ b'"' ∷ b'b' ∷ b'"' ∷ []

tokenize_macro_body-text_example :
    Settles (λ ts. tokens_text ts ≡ ok body_text) (tokenize_macro_body no_char no_char body_text)
tokenize_macro_body-text_example = tokenize_macro_body-text no_char no_char body_text

abbrev names : List Bytes
names = codes "x" ∷ codes "y" ∷ codes "y" ∷ []

resolve_token_param_example :
    (resolve_token names false (ident (codes "y")) ≡ param 1) ↔ IsFirst names (codes "y") 1
unfolding equal
resolve_token_param_example = resolve_token_param names false (codes "y") 1 refl

-- `#define A y`.
abbrev def_a : MacroDef
def_a = record {
  name = codes "A";
  is_function_like = false;
  params = [];
  is_variadic = false;
  has_named_variadic = false;
  body = codes "y";
  tokenized_body = ident (codes "y") ∷ [];
  has_stringify_or_paste = false;
}

abbrev empty_table : MacroTable
empty_table = record { macros = []; counter = 0 }

get-define-undefine_example :
    (get (define empty_table def_a) (codes "A")
      ≡ (if equal (codes "A") (codes "A") then some def_a else get empty_table (codes "A")))
    × (get (undefine empty_table (codes "B")) (codes "A")
        ≡ (if equal (codes "B") (codes "A") then none else get empty_table (codes "A")))
get-define-undefine_example = get-define-undefine empty_table def_a (codes "B") (codes "A")

is_defined-define-undefine_example :
    (is_defined (define empty_table def_a) (codes "A") ≡ true)
    × ((is_defined (undefine empty_table (codes "__has_include")) (codes "__has_include") ≡ true)
        ↔ IsBuiltin (codes "__has_include"))
is_defined-define-undefine_example =
    is_defined-define-undefine empty_table def_a (codes "__has_include")
