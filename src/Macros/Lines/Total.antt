-- ===== src/Macros/Lines/Total.antt =====
-- Termination of `expand_line_with_line`.
use co.Prelude.{
  ℕ, zero, suc, ◌<◌, ◌≤◌, ◌≡◌, ◌≢◌, refl, sym, subst, Bool, true, not, ◌&&◌, ◌||◌, [], ◌∷◌, Bytes,
  codes, equal, drop, span, head_is, length, length-span_le, length-drop, ◌==◌, if_both, arith, inl,
  inr, Option-cases,
}
use co.Prelude.Outcome.{Settles, settled, crashed, Settles-bind}
use co.Directives.Scan.Laws.{bytes_to_str-Settles}
use co.Macros.Args.{ppnumber}
use co.Macros.Args.Laws.{length-ppnumber}
use co.Macros.Copies.{is_ppnumber_suffix, skip_spaces}
use co.Macros.Copies.Laws.{
  length-block_comment_rest, length-plain_rest, length-skip_spaces, pragma_from-Settles,
  format-Ends,
}
use co.Macros.Expander.{ExpandState, contains, Expand}
use co.Macros.Table.Keyed.{IsKeyed}
use co.Macros.Expander.Free.{free, free_le}
use co.Macros.Expander.Total.{
  Restores, Advances, Advances-weaken, length-behind, RescanEnds, ArgEnds,
}
use co.Macros.Expander.Calls.{expand_macro_invocation-Advances}
use co.Macros.Lines.{
  skip_pragma, is_literal_prefix, expand_name, expand_identifier, expand_round, expand_from,
  expand_text, expand_line_with_line,
}
use co.Macros.Paste.{Buffer, blue_paint_marker}
use co.Macros.Table.{MacroTable, get}
use co.Utils.Classes.{is_digit, is_alphanumeric, is_quote, is_ident_start_byte, is_ident_cont_byte}
use co.Utils.Literals.{copy_literal_bytes_to_string, skip_literal_bytes}
use co.Utils.Text.{is_utf8}
use co.Utils.Scans.{copy_literal_bytes_to_string-skip, skip_literal_bytes-lt}

skip_pragma-Advances :
    (buf : Buffer) (name s : Bytes) (st : ExpandState)
    → Settles (Advances st.expanding (length s)) (skip_pragma buf name s st)
unfolding skip_pragma
skip_pragma-Advances buf name s st =
    let r = drop 1 (skip_spaces s) in
    if_both (Settles (Advances st.expanding (length s))) (head_is (λ c. c == b'(') (skip_spaces s))
      (λ opened.
        let l = length-behind (λ c. c == b'(') (skip_spaces s) opened in
        Settles-bind (pragma_from-Settles (suc (length (skip_spaces s))) 0 r (omega arith))
          λ rest k. settled (omega (arith, length-skip_spaces s), refl))
      λ _. settled (omega arith, refl)

pub length-number :
    (b : ℕ) (r : Bytes)
    → (is_digit b || (b == b'.' && head_is is_digit r)) ≡ true
    → length (ppnumber 0 (b ∷ r)).1 ≤ length r
unfolding ppnumber is_alphanumeric
length-number b r h = ground (arith, length-ppnumber b r)

length-literal :
    (b : ℕ) (r : Bytes)
    → Settles (λ cut. length cut.1 ≤ length r) (copy_literal_bytes_to_string b (b ∷ r) [])
length-literal b r = rw (copy_literal_bytes_to_string-skip b r []) (
    if_both (Settles (λ cut. length cut.1 ≤ length r)) (is_utf8 (skip_literal_bytes b (b ∷ r)).0)
      (λ _. settled (skip_literal_bytes-lt b b r)) λ _. crashed)

pub length-comment :
    (b : ℕ) (r : Bytes) → b ≢ b'\n' → length (span (λ c. not (c == b'\n')) (b ∷ r)).1 ≤ length r
length-comment b r h = ground (arith, length-span_le (λ c. not (c == b'\n')) r)

pub length-behind_one : (r : Bytes) → length (drop 1 r) ≤ length r
length-behind_one r = omega (arith, length-drop {A = ℕ} 1 r)

pub slash : (b : ℕ) (more : Bool) → (b == b'/' && more) ≡ true → b ≢ b'\n'
slash b more h = ground arith

module _ (t : MacroTable) (keyed : IsKeyed t) (line_number d n : ℕ) (rescan expand_arg : Expand)
    (rescan_ends : RescanEnds t d rescan) (arg_ends : ArgEnds t d n expand_arg) where
  expand_name-Advances :
      (buf : Buffer) (name s : Bytes) (st : ExpandState)
      → free t.macros st.expanding ≤ d
      → length s ≤ n
      → Settles
          (Advances st.expanding (length s))
          (expand_name t line_number rescan expand_arg buf name s st)
  unfolding expand_name
  expand_name-Advances buf name s st b h =
      if_both (Settles (Advances st.expanding (length s))) (contains st.expanding name)
        (λ _. settled (omega arith, refl))
        λ absent. elim (Option-cases (get t name)) [
          | inl e ↦ rw e (settled (omega arith, refl))
          | inr (mac, e) ↦ rw e (
              expand_macro_invocation-Advances t keyed d n rescan expand_arg rescan_ends arg_ends
                st.expanding b buf name mac s st e absent h refl)
        ]

  expand_identifier-Advances :
      (buf : Buffer) (name s : Bytes) (st : ExpandState)
      → free t.macros st.expanding ≤ d
      → length s ≤ n
      → Settles
          (Advances st.expanding (length s))
          (expand_identifier t line_number rescan expand_arg buf name s st)
  unfolding expand_identifier
  expand_identifier-Advances buf name s st b h =
      let P = Settles (Advances {A = Buffer} st.expanding (length s)) in
      if_both P (is_ppnumber_suffix buf) (λ _. settled (omega arith, refl))
        λ _.
          if_both P (equal name (codes "_Pragma")) (λ _. skip_pragma-Advances buf name s st)
            λ _.
              if_both P (equal name (codes "__COUNTER__"))
                (λ _. Settles-bind (format-Ends st.counter) λ _ _. settled (omega arith, refl))
                λ _.
                  if_both P (equal name (codes "__LINE__"))
                    (λ _. Settles-bind (format-Ends line_number) λ _ _. settled (omega arith, refl))
                    λ _.
                      if_both P (head_is is_quote s && is_literal_prefix name)
                        (λ _. settled (omega arith, refl))
                        λ _. expand_name-Advances buf name s st b h

  expand_round-Advances :
      (buf : Buffer) (b : ℕ) (r : Bytes) (st : ExpandState)
      → free t.macros st.expanding ≤ d
      → length r ≤ n
      → Settles
          (Advances st.expanding (length r))
          (expand_round t line_number rescan expand_arg buf b r st)
  unfolding expand_round
  expand_round-Advances buf b r st k h =
      let P = Settles (Advances {A = Buffer} st.expanding (length r)) in
      let word = span is_ident_cont_byte r in
      let shorter = length-span_le is_ident_cont_byte r in
      if_both P (is_quote b) (λ _. Settles-bind (length-literal b r) λ cut k. settled (k, refl))
        λ _.
          if_both P (b == blue_paint_marker) (λ _. settled (shorter, refl))
            λ _.
              if_both P (is_ident_start_byte b)
                (λ _. Settles-bind (bytes_to_str-Settles (b ∷ word.0)) λ name _.
                  Advances-weaken st.expanding (length word.1) (length r) shorter
                    (expand_identifier-Advances buf name word.1 st k (omega arith)))
                λ _.
                  if_both P (b == b'/' && head_is (λ c. c == b'*') r)
                    (λ _. settled (
                      omega (arith, length-block_comment_rest (drop 1 r), length-behind_one r),
                      refl,
                    ))
                    λ _.
                      if_both P (b == b'/' && head_is (λ c. c == b'/') r)
                        (λ e.
                          settled
                            (length-comment b r (slash b (head_is (λ c. c == b'/') r) e), refl))
                        λ _.
                          if_both P (is_digit b || (b == b'.' && head_is is_digit r))
                            (λ e. settled (length-number b r e, refl))
                            λ _. settled (length-plain_rest r, refl)

-- The loop of a text, for the macros that are left at a depth of `d`.
module _ (t : MacroTable) (keyed : IsKeyed t) (line_number : ℕ) where
  expand_from-Restores :
      (d : ℕ) (rescan : Expand) (rescan_ends : RescanEnds t d rescan) (f : ℕ) (buf : Buffer)
      (s : Bytes) (st : ExpandState)
      → length s < f
      → free t.macros st.expanding ≤ d
      → Settles (Restores st.expanding) (expand_from t line_number rescan f buf s st)
  unfolding expand_from
  expand_from-Restores d rescan rescan_ends zero buf s st h b = absurd (omega arith)
  expand_from-Restores d rescan rescan_ends (suc f) buf [] st h b = settled refl
  expand_from-Restores d rescan rescan_ends (suc f) buf (c ∷ r) st h b =
      Settles-bind
        (expand_round-Advances t keyed line_number d (length r) rescan
          (λ arg st'. expand_from t line_number rescan f [] arg st') rescan_ends
          (λ arg st' k b'. expand_from-Restores d rescan rescan_ends f [] arg st' (omega arith) b')
          buf c r st b (omega arith))
        λ p k.
          subst (λ E. Settles (Restores E) (expand_from t line_number rescan f p.0 p.1 p.2)) k.1
            (expand_from-Restores d rescan rescan_ends f p.0 p.1 p.2 (omega arith)
              (subst (λ E. free t.macros E ≤ d) (sym k.1) b))

  expand_text-Restores : (depth : ℕ) → RescanEnds t depth (expand_text t line_number depth)
  unfolding expand_text
  expand_text-Restores zero text st h = absurd (omega arith)
  expand_text-Restores (suc depth) text st h =
      expand_from-Restores depth (expand_text t line_number depth) (expand_text-Restores depth)
        (suc (length text)) [] text st (omega arith) (omega arith)

  -- A line is expanded to its end, or panics, for every table in which macros stand under their own
  -- names: the nesting of bodies is bounded by the macros that are not being expanded.
  -- `expanding` is empty again behind the line.
  pub expand_line_with_line-ends :
      (line : Bytes) (st : ExpandState)
      → Settles (λ p. p.1.expanding ≡ []) (expand_line_with_line t line_number line st)
  unfolding expand_line_with_line
  expand_line_with_line-ends line st =
      Settles-bind
        (expand_text-Restores (suc (length t.macros)) line (record st { expanding = [] })
          (omega (arith, free_le t.macros [])))
        λ p k. settled k
