-- ===== src/Tests/Expansion.antt =====
-- `expand_condition_macros` and `evaluate_condition` at concrete inputs.
use co.Prelude.{◌≡◌, ◌≢◌, refl, Bool, true, false, List, [], ◌∷◌, ◌++◌, map, Bytes, codes}
use co.Prelude.Outcome.{ok, out_of_fuel}
use co.Conditionals.Tokenizer.{eval_const_expr}
use co.Directives.Expand.{expand_condition_macros, evaluate_condition}
use co.Directives.Expand.Laws.{expand_condition_macros-ends}
use co.Directives.Expand.Words.{
  NoneDefined, AllExpand, no_words, more_words, unknown, object_like,
  expand_condition_macros-unwords,
}
use co.Directives.Idents.Laws.{IsWord, unwords}
use co.Macros.Table.{MacroDef, MacroTable}
use co.Utils.Classes.{is_ident_start_byte, is_ident_cont_byte}

-- `#define N 2`.
abbrev def_n : MacroDef
def_n = record {
  name = codes "N";
  is_function_like = false;
  params = [];
  is_variadic = false;
  has_named_variadic = false;
  body = codes "2";
  tokenized_body = [];
  has_stringify_or_paste = false;
}

abbrev table_n : MacroTable
table_n = record { macros = (codes "N", def_n) ∷ []; counter = 0 }

test_expand :
    expand_condition_macros table_n (codes "defined(N) && N + 1N == M")
    ≡ ok (codes "defined(N) && 2 + 1N == M")
unfolding expand_condition_macros co.Directives.Scan.literal_at co.Utils.Literals.literal_prefix_len
    co.Prelude.equal is_ident_cont_byte co.Directives.Scan.copy_slice co.Utils.Text.bytes_to_str
    co.Utils.Text.is_utf8 co.Utils.Classes.is_blank is_ident_start_byte co.Macros.Table.get
    co.Macros.Table.lookup
test_expand = refl

test_expand_n : expand_condition_macros table_n (codes "N == 2") ≡ ok (codes "2 == 2")
unfolding expand_condition_macros co.Directives.Scan.literal_at co.Utils.Literals.literal_prefix_len
    co.Prelude.equal co.Utils.Classes.is_digit is_ident_start_byte co.Utils.Text.bytes_to_str
    co.Utils.Text.is_utf8 is_ident_cont_byte co.Directives.Scan.copy_slice co.Macros.Table.get
    co.Macros.Table.lookup
test_expand_n = refl

test_eval_two : eval_const_expr (codes "2 == 2") ≡ ok true
unfolding eval_const_expr co.Utils.Classes.is_whitespace co.Utils.Literals.literal_prefix_len
    is_ident_start_byte co.Conditionals.Parser.parse_tokens co.Conditionals.Parser.level
    co.Conditionals.Parser.parse_unary co.Conditionals.Operators.multiplicative_op
    co.Conditionals.Operators.additive_op co.Conditionals.Operators.shift_op
    co.Conditionals.Operators.relational_op co.Conditionals.Operators.equality_op
test_eval_two = refl

test_evaluate : evaluate_condition table_n (codes "N == 2") ≡ ok true
unfolding evaluate_condition
test_evaluate = rw (test_expand_n) test_eval_two

expand_condition_macros-ends_example :
    expand_condition_macros table_n (codes "defined ( N") ≢ out_of_fuel
expand_condition_macros-ends_example = expand_condition_macros-ends table_n (codes "defined ( N")

IsWord-n : IsWord (codes "N")
unfolding is_ident_start_byte
IsWord-n = record {
  head = b'N';
  tail = [];
  split = refl;
  starts = refl;
  continues = refl;
  ascii = refl;
}

IsWord-mm : IsWord (codes "Mm")
unfolding is_ident_start_byte is_ident_cont_byte
IsWord-mm = record {
  head = b'M';
  tail = codes "m";
  split = refl;
  starts = refl;
  continues = refl;
  ascii = refl;
}

abbrev both_words : List Bytes
both_words = codes "N" ∷ codes "Mm" ∷ []

both_words-NoneDefined : NoneDefined both_words
unfolding co.Prelude.equal
both_words-NoneDefined = (refl, (refl, tt))

-- The words become `2` and `Mm`.
abbrev both_expanded : List Bytes
both_expanded = codes "2" ∷ codes "Mm" ∷ []

both_words-AllExpand : AllExpand table_n both_words both_expanded
unfolding co.Macros.Table.get co.Macros.Table.lookup co.Prelude.equal
both_words-AllExpand =
    more_words (object_like def_n refl refl refl) (more_words (unknown refl refl) no_words)

expand_condition_macros-unwords_example :
    expand_condition_macros table_n (unwords both_words) ≡ ok (unwords both_expanded)
expand_condition_macros-unwords_example =
    expand_condition_macros-unwords table_n both_words both_expanded (IsWord-n, (IsWord-mm, tt))
      both_words-NoneDefined both_words-AllExpand
