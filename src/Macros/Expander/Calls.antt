-- ===== src/Macros/Expander/Calls.antt =====
-- Termination of the loop of trailing calls and of both kinds of invocation.
use mathlib.Core.List.{reverse}
use co.Prelude.{
  ℕ, zero, suc, ◌<◌, ◌≤◌, ◌≡◌, false, List, ◌++◌, Bytes, Option, none, some, head_is, length, ◌==◌,
  if_both, arith, inl, inr, Bool-cases, Option-cases,
}
use co.Prelude.Outcome.{ok, ◌>>=◌, Settles, settled, Settles-bind}
use co.Macros.Copies.{skip_spaces}
use co.Macros.Expander.{
  ExpandState, contains, Expand, trailing_macro, cut_trailing, expand_trailing, sole_word,
  try_resolve, push_expansion, invoke_function, invoke_object, expand_macro_invocation,
}
use co.Macros.Table.Keyed.{IsKeyed}
use co.Macros.Expander.Free.{free}
use co.Macros.Paste.{Buffer, push_str}
use co.Macros.Substitute.Total.{extract_trailing_ident-Ends}
use co.Macros.Table.{MacroDef, MacroTable, get}
use co.Utils.Text.{trim}
use co.Macros.Expander.Total.{
  Advances, Advances-weaken, RescanEnds, ArgEnds, object_body-Ends, IsFree, named-IsFree,
  rescan_without-Restores, expand_function_macro-Restores, trailing_macro-IsFree, call_ends,
}

module _ (t : MacroTable) (keyed : IsKeyed t) (d n : ℕ) (rescan expand_arg : Expand)
    (rescan_ends : RescanEnds t d rescan) (arg_ends : ArgEnds t d n expand_arg) (names : List Bytes)
    (bound : free t.macros names ≤ d) where
  -- The loop of the trailing calls.
  expand_trailing-Advances :
      (f : ℕ) (expanded s : Bytes) (st : ExpandState)
      → length s < f
      → length s ≤ n
      → st.expanding ≡ names
      → Settles (Advances names (length s)) (expand_trailing t rescan expand_arg f expanded s st)
  unfolding expand_trailing
  expand_trailing-Advances zero expanded s st h k e = absurd (omega arith)
  expand_trailing-Advances (suc f) expanded s st h k e =
      Settles-bind (extract_trailing_ident-Ends (reverse expanded)) λ o _.
        elim (Option-cases (trailing_macro t rescan expand_arg o st)) [
          | inl h' ↦ rw h' (settled (omega arith, e))
          | inr ((name, mac), h') ↦ elim (Bool-cases (head_is (λ c. c == b'(') (skip_spaces s))) [
            | inr closed ↦ rw (h', closed) (settled (omega arith, e))
            | inl opened ↦
                rw (h', opened)
                  (call_ends t keyed d n rescan expand_arg rescan_ends arg_ends names bound
                    (Advances names (length s)) s _ k opened
                    λ args end short l.
                      Settles-bind
                        (expand_function_macro-Restores t keyed d n rescan expand_arg rescan_ends
                          arg_ends names bound mac args st
                          (trailing_macro-IsFree t keyed d n rescan expand_arg rescan_ends arg_ends
                            names bound o st name mac e h')
                          short e)
                        λ p r. Advances-weaken names (length end) (length s) (omega arith) (
                          expand_trailing-Advances f
                            (cut_trailing t rescan expand_arg expanded name ++ p.0.0) end p.1
                            (omega arith) (omega arith) r))
          ]
        ]

  abbrev Resolved : ℕ → Option (Bytes × Bytes) × ExpandState → Type 0
  Resolved m (none, st) = st.expanding ≡ names
  Resolved m (some (text, end), st) = (length end ≤ m) × (st.expanding ≡ names)

  try_resolve-Resolved :
      (expanded s : Bytes) (st : ExpandState)
      → length s ≤ n
      → st.expanding ≡ names
      → Settles (Resolved (length s)) (try_resolve t rescan expand_arg expanded s st)
  unfolding try_resolve
  try_resolve-Resolved expanded s st k e =
      elim (Option-cases
        (trailing_macro t rescan expand_arg (sole_word t rescan expand_arg (trim expanded)) st)) [
          | inl h ↦ rw (h, try_resolve) (settled e)
          | inr ((name, mac), h) ↦
              rw (h, try_resolve)
                (if_both (Settles (Resolved (length s))) (head_is (λ c. c == b'(') (skip_spaces s))
                  (λ opened.
                    call_ends t keyed d n rescan expand_arg rescan_ends arg_ends names bound
                      (Resolved (length s)) s _ k opened
                      λ args end short l.
                        Settles-bind
                          (expand_function_macro-Restores t keyed d n rescan expand_arg rescan_ends
                            arg_ends names bound mac args st
                            (trailing_macro-IsFree t keyed d n rescan expand_arg rescan_ends
                              arg_ends names bound (sole_word t rescan expand_arg (trim expanded))
                              st name mac e h)
                            short e)
                          λ p r. settled (omega arith, r))
                  λ _. settled e)
        ]

  push_expansion-Advances :
      (buf : Buffer) (expanded s : Bytes) (st : ExpandState) (m : ℕ)
      → length s ≤ m
      → st.expanding ≡ names
      → Settles (Advances names m) (push_expansion t rescan expand_arg buf expanded s st)
  unfolding push_expansion
  push_expansion-Advances buf expanded s st m h e = settled (h, e)

  invoke_function-Advances :
      (buf : Buffer) (name : Bytes) (mac : MacroDef) (s : Bytes) (st : ExpandState)
      → IsFree t keyed d n rescan expand_arg rescan_ends arg_ends names bound mac
      → length s ≤ n
      → st.expanding ≡ names
      → Settles (Advances names (length s)) (invoke_function t rescan expand_arg buf name mac s st)
  unfolding invoke_function
  invoke_function-Advances buf name mac s st i k e =
      let P = Advances {A = Bytes} names (length s) in
      if_both (Settles P) (head_is (λ c. c == b'(') (skip_spaces s))
        (λ opened.
          call_ends t keyed d n rescan expand_arg rescan_ends arg_ends names bound P s _ k opened
            λ args end short l.
              Settles-bind
                (expand_function_macro-Restores t keyed d n rescan expand_arg rescan_ends arg_ends
                  names bound mac args st i short e)
                λ p r.
                  Settles-bind
                    (if_both (Settles (Advances {A = Bytes} names (length end))) p.0.1
                      (λ _.
                        expand_trailing-Advances (suc (length end)) p.0.0 end p.1 (omega arith)
                          (omega arith) r)
                      λ _. settled (omega arith, r))
                    λ q r'. push_expansion-Advances buf q.0 q.1 q.2 (length s) (omega arith) r'.1)
        λ _. settled (omega arith, e)

  invoke_object-Advances :
      (buf : Buffer) (name : Bytes) (mac : MacroDef) (s : Bytes) (st : ExpandState)
      → get t name ≡ some mac
      → contains names name ≡ false
      → length s ≤ n
      → st.expanding ≡ names
      → Settles (Advances names (length s)) (invoke_object t rescan expand_arg buf name mac s st)
  unfolding invoke_object
  invoke_object-Advances buf name mac s st g i k e =
      Settles-bind (object_body-Ends t rescan expand_arg mac) λ body _.
        Settles-bind
          (rescan_without-Restores t keyed d n rescan expand_arg rescan_ends arg_ends names bound
            name body mac st g i e)
          λ p r. Settles-bind (try_resolve-Resolved p.0 s p.1 k r) λ q r'. finished q.0 p.0 q.1 r'
    where
      finished :
          (o : Option (Bytes × Bytes)) (expanded : Bytes) (st₂ : ExpandState)
          → Resolved (length s) (o, st₂)
          → Settles (Advances names (length s)) (elim o [
            | some (text, end) ↦ ok (push_str buf text, end, st₂)
            | none ↦
                expand_trailing t rescan expand_arg (suc (length s)) expanded s st₂
                >>= λ (text, rest, last). push_expansion t rescan expand_arg buf text rest last
          ])
      finished (some (text, end)) expanded st₂ r = settled r
      finished none expanded st₂ r =
          Settles-bind (expand_trailing-Advances (suc (length s)) expanded s st₂ (omega arith) k r)
            λ q r'. push_expansion-Advances buf q.0 q.1 q.2 (length s) r'.0 r'.1

  pub expand_macro_invocation-Advances :
      (buf : Buffer) (name : Bytes) (mac : MacroDef) (s : Bytes) (st : ExpandState)
      → get t name ≡ some mac
      → contains names name ≡ false
      → length s ≤ n
      → st.expanding ≡ names
      → Settles
          (Advances names (length s))
          (expand_macro_invocation t rescan expand_arg buf name mac s st)
  unfolding expand_macro_invocation
  expand_macro_invocation-Advances buf name mac s st g i k e =
      if_both (Settles (Advances names (length s))) mac.is_function_like
        (λ _.
          invoke_function-Advances buf name mac s st
            (named-IsFree t keyed d n rescan expand_arg rescan_ends arg_ends names bound name mac g
              i)
            k e)
        λ _. invoke_object-Advances buf name mac s st g i k e
