-- ===== src/Pipeline/Accumulate.antt =====
-- co2_preprocessor/src/pipeline.rs: `accumulate_and_expand_with_line` and `flush_pending`. What they
-- emit is the list of their calls of the emitters, in order.
pub mod Laws
use co.Prelude.{
  ℕ, Bool, true, false, not, ◌&&◌, ◌||◌, List, [], ◌∷◌, ◌++◌, Bytes, map, ltb, length,
  if◌then◌else◌,
}
use co.Prelude.Outcome.{Outcome, ok, ◌>>=◌}
use co.Lines.Slices.{LogicalSlice}
use co.Lines.Words.{has_unbalanced_parens}
use co.Macros.Expander.{ExpandState}
use co.Macros.Lines.{expand_line_with_line}
use co.Macros.Table.{MacroTable}
use co.Pipeline.Pending.{
  PendingExpansion, no_pending, is_empty, push, push_gap, joined_source, expand_pending,
  ends_with_funclike_macro,
}

-- A call of `emit_tokenized_with_remap`, with the text, its source and the boundaries, or one of
-- `emit_newline`.
pub data Emission : Type 0 where
  tokenized : Bytes → Bytes → List ℕ → Emission
  newline : Emission

-- The lines that wait, what was emitted, and the state of the expander.
abbrev pub Accumulated : Type 0
Accumulated = PendingExpansion × List Emission × ExpandState

abbrev pub max_pending_newlines : ℕ
max_pending_newlines = 100_000

unfoldable pub emit_pending_output : PendingExpansion → Bytes → List Emission
unfolding joined_source
emit_pending_output p expanded =
    let source = joined_source p in
    tokenized expanded source.0 source.1 ∷ map (λ _. newline) p.slices

unfoldable pub emit_slice : LogicalSlice → Bytes → List Emission
emit_slice slice expanded = tokenized expanded slice.text slice.source_boundaries ∷ newline ∷ []

module _ (t : MacroTable) where
  unfoldable pub flush_pending : PendingExpansion → ExpandState → Outcome Accumulated
  unfolding expand_pending emit_pending_output no_pending
  flush_pending p st =
      if is_empty p.slices
      then ok (p, [], st)
      else (expand_pending t p st >>= λ (expanded, st').
          ok (no_pending, emit_pending_output p expanded, st'))

  -- A line that nothing waits in front of.
  unfoldable pub first_line :
      PendingExpansion → LogicalSlice → ℕ → ExpandState → Outcome Accumulated
  unfolding has_unbalanced_parens ends_with_funclike_macro expand_line_with_line push emit_slice
  first_line p slice line st = has_unbalanced_parens slice.text >>= λ unbalanced.
      if unbalanced || ends_with_funclike_macro t slice.text
      then ok (push p slice line, [], st)
      else (expand_line_with_line t line slice.text st >>= λ (expanded, st').
          if ends_with_funclike_macro t expanded
          then ok (push p slice line, [], st')
          else ok (p, emit_slice slice expanded, st'))

  -- The lines are expanded, and emitted unless they wait for more.
  unfoldable pub try_emit : PendingExpansion → Bool → ExpandState → Outcome Accumulated
  unfolding expand_pending ends_with_funclike_macro emit_pending_output no_pending
  try_emit p unbalanced st = expand_pending t p st >>= λ (expanded, st').
      if not unbalanced && not (ends_with_funclike_macro t expanded)
      then ok (no_pending, emit_pending_output p expanded, st')
      else ok (p, [], st')

  -- A line behind others that wait.
  unfoldable pub next_line : PendingExpansion → LogicalSlice → ℕ → ExpandState → Outcome Accumulated
  unfolding has_unbalanced_parens push flush_pending try_emit
  next_line p slice line st =
      let p' = push p slice line in
      has_unbalanced_parens p.text >>= λ needs_more.
      if ltb max_pending_newlines (length p'.slices)
      then flush_pending p' st
      else (has_unbalanced_parens p'.text >>= λ unbalanced.
          if needs_more || not unbalanced then try_emit p' unbalanced st else ok (p', [], st))

  -- `accumulate_and_expand_with_line`.
  unfoldable pub accumulate :
      PendingExpansion → LogicalSlice → ℕ → ExpandState → Outcome Accumulated
  unfolding first_line next_line
  accumulate p slice line st =
      if is_empty p.slices then first_line p slice line st else next_line p slice line st
