-- ===== src/Tests/Pipeline.antt =====
-- The directive handlers and the lines that wait, at concrete inputs.
use co.Prelude.{
  ℕ, ◌≡◌, ◌≢◌, refl, Bool, true, false, List, [], ◌∷◌, ◌++◌, Bytes, codes, equal, Option, none,
  some, if◌then◌else◌, suc,
}
use co.Prelude.Outcome.{Outcome, ok, ◌>>=◌, Settles}
use co.Conditionals.Stack.{ByteRange, push_if, handle_elif}
use co.Lines.Slices.{LogicalSlice}
use co.Macros.Expander.{ExpandState}
use co.Macros.Table.{MacroTable, new, get, lookup}
use co.Pipeline.Accumulate.{Accumulated, tokenized, newline, accumulate, flush_pending}
use co.Macros.Table.Keyed.{IsKeyed}
use co.Pipeline.Accumulate.Laws.{Keeps, Flushes, accumulate-flush_pending-Keeps}
use co.Pipeline.Directives.{Preprocessor, handle_undef, handle_if_with_line, handle_elif_with_line}
use co.Pipeline.Directives.Laws.{handle_if_elif-ends}
use co.Pipeline.Pragmas.{handle_pragma_push_macro, handle_pragma_pop_macro, saved_of}
use co.Pipeline.Pragmas.Laws.{handle_pragma_pop_macro-push_macro}
use co.Pipeline.Guards.{detect_include_guard}
use co.Pipeline.Pending.{PendingExpansion, no_pending}

abbrev idle : ExpandState
idle = record { expanding = []; counter = 0 }

abbrev slice_of : Bytes → LogicalSlice
slice_of text = record { text = text; source_boundaries = []; terminator = 0 }

-- The lines of a call in turn, from the first one.
abbrev run_lines : List Bytes → ℕ → PendingExpansion → ExpandState → Outcome Accumulated
run_lines [] line p st = ok (p, [], st)
run_lines (text ∷ texts) line p st = accumulate new p (slice_of text) line st >>= λ (p', out, st').
    run_lines texts (suc line) p' st' >>= λ (p'', more, last). ok (p'', out ++ more, last)

-- The lines of a call are expanded again with each new one, so that `__COUNTER__` counts in vain: it
-- comes out as 1, and the counter at 2.
test_counter :
    run_lines (codes "f(__COUNTER__," ∷ codes "1," ∷ codes "2)" ∷ []) 1 no_pending idle
    ≡ ok (
      no_pending,
      tokenized
            (codes "f(1," ++ 10 ∷ codes "1," ++ 10 ∷ codes "2)")
            (codes "f(__COUNTER__," ++ 10 ∷ codes "1," ++ 10 ∷ codes "2)")
            (0 ∷ 0 ∷ [])
          ∷ newline
          ∷ newline
          ∷ newline
          ∷ [],
      record { expanding = []; counter = 2 },
    )
unfolding accumulate co.Utils.Classes.is_quote co.Utils.Classes.is_ident_start_byte
    co.Utils.Text.bytes_to_str co.Utils.Text.is_utf8 co.Utils.Classes.is_ident_cont_byte
    co.Macros.Copies.is_ppnumber_suffix co.Prelude.equal co.Macros.Expander.contains
    co.Macros.Table.lookup new co.Macros.Copies.plain_rest co.Macros.Paste.str_or_empty
    co.Macros.Copies.format co.Macros.Args.ppnumber
test_counter = refl

abbrev no_header : Bool → Bool → Bytes → Bool
no_header system next name = false

abbrev start : Preprocessor
start = record {
  macros = new;
  conditionals = [];
  directive_expanding = [];
  include_stack = [];
  pragma_once_files = [];
  macro_save_stack = [];
}

abbrev here : ByteRange
here = record { start = 0; end = 3 }

new-IsKeyed : IsKeyed new
unfolding new co.Macros.Table.get co.Macros.Table.lookup
new-IsKeyed name d h = cc

handle_if_elif-ends_example :
    Settles
      (λ p'.
        (p'.macros.macros ≡ start.macros.macros)
        × (condition : Bool) × (p'.conditionals ≡ push_if [] condition here))
      (handle_if_with_line no_header start (codes "defined(A) || 1") here 1)
    × Settles
        (λ p'.
          (p'.macros.macros ≡ start.macros.macros)
          × (condition : Bool) × (p'.conditionals ≡ handle_elif [] condition))
        (handle_elif_with_line no_header start (codes "defined(A) || 1") 1)
handle_if_elif-ends_example =
    handle_if_elif-ends no_header start (codes "defined(A) || 1") here 1 new-IsKeyed

-- `f(` waits for `1)`.
abbrev slice_f : LogicalSlice
slice_f = record { text = codes "f("; source_boundaries = 0 ∷ 1 ∷ 2 ∷ []; terminator = 2 }

abbrev slice_one : LogicalSlice
slice_one = record { text = codes "1)"; source_boundaries = 3 ∷ 4 ∷ 5 ∷ []; terminator = 5 }

abbrev waiting : PendingExpansion
waiting = record { text = codes "f("; slices = slice_f ∷ []; lines = 1 ∷ [] }

accumulate-flush_pending-Keeps_example :
    Settles (Keeps (slice_f ∷ slice_one ∷ [])) (accumulate new waiting slice_one 2 idle)
    × Settles (Flushes (slice_f ∷ [])) (flush_pending new waiting idle)
accumulate-flush_pending-Keeps_example =
    accumulate-flush_pending-Keeps new new-IsKeyed waiting slice_one 2 idle

-- `#pragma push_macro("N")`, `#undef N`.
abbrev argument : Bytes
argument = codes "(\"N\")"

abbrev undefined : Preprocessor
undefined = handle_undef (handle_pragma_push_macro start argument) (codes "N")

handle_pragma_pop_macro-push_macro_example :
    (get (handle_pragma_pop_macro undefined argument).macros (codes "N") ≡ (
      if equal (codes "N") (codes "N")
      then get start.macros (codes "N")
      else get undefined.macros (codes "N")))
    × (saved_of (lookup (codes "N") (handle_pragma_pop_macro undefined argument).macro_save_stack)
        ≡ saved_of (lookup (codes "N") start.macro_save_stack))
unfolding co.Pipeline.Pragmas.extract_pragma_macro_name handle_pragma_push_macro handle_undef
handle_pragma_pop_macro-push_macro_example =
    handle_pragma_pop_macro-push_macro start undefined argument argument (codes "N") (codes "N")
      new-IsKeyed refl refl refl

-- The lines of a text.
abbrev unlines : List Bytes → Bytes
unlines [] = []
unlines (line ∷ lines) = line ++ b'\n' ∷ unlines lines

test_guard :
    detect_include_guard (
      unlines (
        codes "/* a */"
        ∷ codes "#ifndef G"
        ∷ codes "# define G"
        ∷ codes "int b;"
        ∷ codes "#endif // G"
        ∷ []))
    ≡ some (codes "G")
unfolding detect_include_guard equal
test_guard = refl

test_guard_else :
    detect_include_guard (
      unlines (
        codes "#ifndef G"
        ∷ codes "#define G"
        ∷ codes "#else"
        ∷ codes "int b;"
        ∷ codes "#endif"
        ∷ []))
    ≡ none
unfolding detect_include_guard equal
test_guard_else = refl

-- Comment marks in string literals hide the `#else` between them.
test_guard_hidden_else :
    detect_include_guard (
      unlines (
        codes "#ifndef G"
        ∷ codes "#define G"
        ∷ codes "A(\"/*\")"
        ∷ codes "#else"
        ∷ codes "A(\"*/\")"
        ∷ codes "#endif"
        ∷ []))
    ≡ some (codes "G")
unfolding detect_include_guard equal
test_guard_hidden_else = refl
