-- ===== src/Lib.antt =====
-- The preprocessor of co2, a C compiler that compiles to Rust's MIR: its conditional directives and its
-- macros.
--
-- What is modelled is how co2_preprocessor decides which lines of a file are compiled, and how
-- their macros are expanded. A source is split into logical lines. Lines of the program have their
-- macros expanded (`expand_line_with_line`), and `#define` lines are parsed to macros. The
-- expression of an `#if` or `#elif` line has its `defined` and `__has_*` operators resolved, macros
-- expanded and the identifiers that are left replaced by zero (`handle_if_with_line` of
-- pipeline.rs); `evaluate_condition` expands once more and evaluates the rest to a truth value,
-- with which the stack of open conditionals is changed. Macro bodies are tokenized when they are
-- defined and kept in the macro table, which `defined` asks. All of these read C text with one set
-- of byte scanners.
--
-- Parts and files (paths from the repository's root):
--   Utils          co2_preprocessor/src/utils.rs: byte classes (Classes), the scanners over literals
--                  (Literals, Raw), universal character names (Ucn), identifier characters (Ident)
--                  and text slices (Text).
--   Conditionals   co2_preprocessor/src/conditionals.rs: `ConditionalStack` (Stack), `tokenize_expr`
--                  and `eval_const_expr` (Tokenizer), `ExprParser` (Parser, with the meaning of the
--                  operators in Operators and 64-bit arithmetic in Word). Grammar is the
--                  specification: expressions, their value, and how they are written as tokens.
--   Macros         co2_preprocessor/src/macro_token.rs (Token) and co2_preprocessor/src/macro_defs.rs:
--                  the table (Table), `parse_define` (Define) and the expander: the arguments of a
--                  call (Args), `expand_body` (Substitute, with Body and Stringify), what is copied
--                  or skipped (Copies), text joined to text (Paste), the calls (Expander) and the loop
--                  over a line (Lines).
--   Directives     co2_preprocessor/src/expr_eval.rs: `resolve_defined_in_expr` (Defined) and
--                  `replace_remaining_idents_with_zero` (Idents), over one loop (Scan), and
--                  `expand_condition_macros` and `evaluate_condition` of conditionals.rs (Expand).
--   Lines          co2_preprocessor/src/text_processing.rs: `logical_slices` (Slices), and the scans of
--                  one line (Words).
--   Pipeline       co2_preprocessor/src/pipeline.rs: the handlers of `#define`, `#undef`, `#ifdef`,
--                  `#if` and `#elif` (Directives), the lines that wait for the rest of a macro call
--                  (Pending) and what each line does to them (Accumulate);
--                  co2_preprocessor/src/pragmas.rs (Pragmas); `detect_include_guard` of
--                  co2_preprocessor/src/includes.rs (Guards).
--   Prelude        shared helpers: lists over the native numbers, Boolean tests, outcomes.
--   Tests          runs on concrete texts, and the theorems at concrete inputs.
--
-- How the state corresponds: a byte slice is the list of its bytes as numbers. A cursor `i` into
-- `bytes` is the list of the bytes from it on, so that `i += 1` drops the head, and `i < len` is the
-- test for an empty list; a look-ahead reads further into the list. What a loop pushes is what the
-- model's function returns, in order. `&mut self` is passed and returned. A `HashMap` is an
-- association list in which a key stands once. An `i64` with its unsigned flag is its bit pattern, a
-- number below 2^64, and every operation on it wraps as the source's does. A panic is the outcome
-- `panicked` (Prelude/Outcome): slices that leave the text or cut a character, and `unwrap`.
--
-- Fuel: the loops that the model does not run by structural recursion take the length of the text,
-- plus one, as fuel, since every round moves the cursor; the parser takes one unit for each token and
-- one more, since every nested call of `parse_ternary` stands behind a token. The theorems that these
-- are enough are in the files Total, Laws, Ends and Text of the parts. A macro's body is expanded one
-- level deeper than its call, and the depth of a line is the number of macros in the table, plus one,
-- since no macro is expanded inside its own body. The parameter loop of `parse_define` has no bound:
-- its fuel is an argument.
--
-- Parameters: whether documentation comments are kept (the source asks the environment), the XID
-- tests of the crate `unicode_ident`, and the search for a header on the disk
-- (co2_preprocessor/src/includes.rs) that `__has_include` asks. No theorem assumes anything of them.
--
-- Not modelled: the rest of co2_preprocessor/src/pipeline.rs (`preprocess_source` and
-- `process_directive_with_line`, which are next, and the emission of tokens with their spans: what is
-- emitted is the list of calls of the emitters); the compiler behind the preprocessor (co2_ast,
-- co2_parser, co2_hir, co2_mir, co2_borrowck); the drivers and the tools, which stand on rustc or on
-- processes and files. A vector is never too long for memory, a line never has more parentheses than an
-- `i32` counts, and a stack is never too deep: Rust's own call stack is not modelled.
pub mod Prelude
pub mod Utils
pub mod Conditionals
pub mod Macros
pub mod Directives
pub mod Lines
pub mod Pipeline
mod Tests
