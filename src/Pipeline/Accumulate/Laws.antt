-- ===== src/Pipeline/Accumulate/Laws.antt =====
-- What becomes of the lines in `accumulate_and_expand_with_line` and `flush_pending` (pipeline.rs).
use co.Prelude.{
  ◌++◌, append-nil, ◌∙◌, ℕ, ◌≡◌, refl, sym, ap, Bool, true, false, not, ◌&&◌, ◌||◌, List, [], ◌∷◌,
  Bytes, map, ltb, length, if_both,
}
use co.Prelude.Outcome.{Outcome, Settles, settled, crashed, Settles-bind}
use co.Lines.Slices.{LogicalSlice}
use co.Lines.Words.Laws.{has_unbalanced_parens-Ends}
use co.Macros.Expander.{ExpandState}
use co.Macros.Lines.Total.{expand_line_with_line-ends}
use co.Macros.Table.{MacroTable}
use co.Macros.Table.Keyed.{IsKeyed}
use co.Pipeline.Accumulate.{
  Emission, tokenized, newline, Accumulated, max_pending_newlines, emit_pending_output, emit_slice,
  flush_pending, first_line, try_emit, next_line, accumulate,
}
use co.Pipeline.Pending.{
  join_from, joined_slices, joined_source, PendingExpansion, no_pending, is_empty, push,
  ends_with_funclike_macro,
}
use co.Pipeline.Pending.Laws.{expand_pending-Ends}

-- The texts of the lines with a line break between them.
unfoldable pub lines_text : List LogicalSlice → Bytes
lines_text [] = []
lines_text (slice ∷ []) = slice.text
lines_text (slice ∷ next ∷ slices) = slice.text ++ b'\n' ∷ lines_text (next ∷ slices)

-- A call of `emit_newline` for each line.
unfoldable pub line_ends : List LogicalSlice → List Emission
line_ends [] = []
line_ends (slice ∷ slices) = newline ∷ line_ends slices

-- None of the lines waits and all are emitted: one text, with their joined text for its source, and
-- then a call of `emit_newline` for each.
abbrev pub Emits : List LogicalSlice → Accumulated → Type 0
Emits lines a =
    (expanded : Bytes) × (boundaries : List ℕ) × (a.0.slices ≡ [])
    × (a.1 ≡ tokenized expanded (lines_text lines) boundaries ∷ line_ends lines)

-- All of the lines wait and nothing is emitted, or all are emitted.
pub data Keeps (lines : List LogicalSlice) (a : Accumulated) : Type 0 where
  waits : a.0.slices ≡ lines → a.1 ≡ [] → Keeps lines a
  emits : Emits lines a → Keeps lines a

-- The lines are emitted; where there are none, nothing is.
pub data Flushes (lines : List LogicalSlice) (a : Accumulated) : Type 0 where
  idle : lines ≡ [] → a.0.slices ≡ [] → a.1 ≡ [] → Flushes lines a
  flushed : is_empty lines ≡ false → Emits lines a → Flushes lines a

Flushes-Keeps :
    (lines : List LogicalSlice) {o : Outcome Accumulated}
    → Settles (Flushes lines) o
    → Settles (Keeps lines) o
Flushes-Keeps lines (settled (idle h k e)) = settled (waits (k ∙ sym h) e)
Flushes-Keeps lines (settled (flushed h e)) = settled (emits e)
Flushes-Keeps lines crashed = crashed

map-line_ends : (slices : List LogicalSlice) → map (λ _. newline) slices ≡ line_ends slices
unfolding line_ends
map-line_ends [] = refl
map-line_ends (slice ∷ slices) = ap (◌∷◌ newline) (map-line_ends slices)

join_from-lines_text :
    (before : ℕ) (slice : LogicalSlice) (slices : List LogicalSlice)
    → slice.text ++ (join_from before slices).0 ≡ lines_text (slice ∷ slices)
unfolding join_from lines_text
join_from-lines_text before slice [] = append-nil slice.text
join_from-lines_text before slice (next ∷ slices) =
    ap (λ s. slice.text ++ b'\n' ∷ s) (join_from-lines_text next.terminator next slices)

joined_source-lines_text : (p : PendingExpansion) → (joined_source p).0 ≡ lines_text p.slices
unfolding joined_source
joined_source-lines_text p = joined p.slices
  where
    joined : (slices : List LogicalSlice) → (joined_slices slices).0 ≡ lines_text slices
    joined [] = unfold joined_slices lines_text in refl
    joined (slice ∷ slices) =
        unfold joined_slices in join_from-lines_text slice.terminator slice slices

pending-Emits :
    (p : PendingExpansion) (expanded : Bytes) (st : ExpandState)
    → Emits p.slices (no_pending, emit_pending_output p expanded, st)
unfolding no_pending emit_pending_output
pending-Emits p expanded st = (
  expanded,
  (joined_source p).1,
  refl,
  rw (joined_source-lines_text p, map-line_ends p.slices) refl,
)

slice-Keeps :
    (p : PendingExpansion) (slice : LogicalSlice) (expanded : Bytes) (st : ExpandState)
    → p.slices ≡ []
    → Keeps (p.slices ++ slice ∷ []) (p, emit_slice slice expanded, st)
unfolding emit_slice lines_text line_ends
slice-Keeps p slice expanded st h = emits (expanded, slice.source_boundaries, h, rw h refl)

is_empty-nil : (slices : List LogicalSlice) → is_empty slices ≡ true → slices ≡ []
is_empty-nil [] h = refl
is_empty-nil (slice ∷ slices) h = cc

module _ (t : MacroTable) (keyed : IsKeyed t) where
  flush_pending-Flushes :
      (p : PendingExpansion) (st : ExpandState) → Settles (Flushes p.slices) (flush_pending t p st)
  unfolding flush_pending no_pending
  flush_pending-Flushes p st =
      if_both (Settles (Flushes p.slices)) (is_empty p.slices)
        (λ h. settled (idle (is_empty-nil p.slices h) (is_empty-nil p.slices h) refl))
        λ h.
          Settles-bind (expand_pending-Ends t p st keyed)
            λ r _. settled (flushed h (pending-Emits p r.0 r.1))

  flush_pending-Keeps :
      (p : PendingExpansion) (st : ExpandState) → Settles (Keeps p.slices) (flush_pending t p st)
  flush_pending-Keeps p st = Flushes-Keeps p.slices (flush_pending-Flushes p st)

  first_line-Keeps :
      (p : PendingExpansion) (slice : LogicalSlice) (line : ℕ) (st : ExpandState)
      → p.slices ≡ []
      → Settles (Keeps (p.slices ++ slice ∷ [])) (first_line t p slice line st)
  unfolding first_line push
  first_line-Keeps p slice line st none_waits =
      let P = Settles (Keeps (p.slices ++ slice ∷ [])) in
      Settles-bind (has_unbalanced_parens-Ends slice.text) λ unbalanced _.
        if_both P (unbalanced || ends_with_funclike_macro t slice.text)
          (λ _. settled (waits refl refl))
          λ _. Settles-bind (expand_line_with_line-ends t keyed line slice.text st) λ r _.
            if_both P (ends_with_funclike_macro t r.0) (λ _. settled (waits refl refl))
              λ _. settled (slice-Keeps p slice r.0 r.1 none_waits)

  try_emit-Keeps :
      (p : PendingExpansion) (unbalanced : Bool) (st : ExpandState)
      → Settles (Keeps p.slices) (try_emit t p unbalanced st)
  unfolding try_emit
  try_emit-Keeps p unbalanced st = Settles-bind (expand_pending-Ends t p st keyed) λ r _.
      if_both (Settles (Keeps p.slices)) (not unbalanced && not (ends_with_funclike_macro t r.0))
        (λ _. settled (emits (pending-Emits p r.0 r.1))) λ _. settled (waits refl refl)

  next_line-Keeps :
      (p : PendingExpansion) (slice : LogicalSlice) (line : ℕ) (st : ExpandState)
      → Settles (Keeps (push p slice line).slices) (next_line t p slice line st)
  unfolding next_line
  next_line-Keeps p slice line st =
      let p' = push p slice line in
      let P = Settles (Keeps p'.slices) in
      Settles-bind (has_unbalanced_parens-Ends p.text) λ needs_more _.
        if_both P (ltb max_pending_newlines (length p'.slices)) (λ _. flush_pending-Keeps p' st)
          λ _. Settles-bind (has_unbalanced_parens-Ends p'.text) λ unbalanced _.
            if_both P (needs_more || not unbalanced) (λ _. try_emit-Keeps p' unbalanced st)
              λ _. settled (waits refl refl)

  -- With macros under their own names, a logical line joins the lines that wait, and then all of
  -- them wait and nothing is emitted, or none waits and one text is emitted, whose source is their
  -- texts in order with a line break between them, with one call of `emit_newline` for each line
  -- behind it. A flush does the latter if a line waits, and nothing if none does. Both end, so or
  -- with a panic.
  pub accumulate-flush_pending-Keeps :
      (p : PendingExpansion) (slice : LogicalSlice) (line : ℕ) (st : ExpandState)
      → Settles (Keeps (p.slices ++ slice ∷ [])) (accumulate t p slice line st)
        × Settles (Flushes p.slices) (flush_pending t p st)
  unfolding accumulate push
  accumulate-flush_pending-Keeps p slice line st = (
    if_both (Settles (Keeps (p.slices ++ slice ∷ []))) (is_empty p.slices)
        (λ h. first_line-Keeps p slice line st (is_empty-nil p.slices h))
        λ _. next_line-Keeps p slice line st,
    flush_pending-Flushes p st,
  )
