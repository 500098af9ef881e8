-- ===== src/Macros/Lines/Inert.antt =====
-- `expand_line_with_line` on a line without macro names.
use mathlib.Core.List.{reverse}
use co.Prelude.{
  ℕ, zero, suc, ◌<◌, ◌≡◌, refl, sym, ap, ◌∙◌, subst, true, false, not, ◌&&◌, ◌||◌, List, [], ◌∷◌,
  ◌++◌, append-nil, Bytes, codes, equal, drop, span, span-append, length-span_le, head_is, length,
  ◌==◌, if_both, arith, and-eq-true, ==_iff,
}
use co.Prelude.Outcome.{Outcome, ok, ◌>>=◌}
use co.Macros.Args.{ppnumber, is_separated, is_exponent}
use co.Macros.Copies.{block_comment_rest, plain_rest, is_special, is_ppnumber_suffix}
use co.Macros.Copies.Laws.{length-block_comment_rest, length-plain_rest}
use co.Macros.Expander.{ExpandState, contains, Expand, Step}
use co.Macros.Lines.{
  copied, is_literal_prefix, expand_name, expand_identifier, expand_round, expand_from, expand_text,
  expand_line_with_line,
}
use co.Macros.Lines.Absent.{
  absent, keys, builtin_names, occurs-append, absent-behind, contains-absent, lookup-keys,
}
use co.Macros.Lines.Total.{length-number, length-comment, length-behind_one, slash}
use co.Macros.Paste.{Buffer, push_str, str_or_empty, strip_blue_paint, blue_paint_marker}
use co.Macros.Substitute.Plain.{reverse-push_str}
use co.Macros.Table.{MacroTable, get}
use co.Utils.Ascii.{IsAscii, IsAscii-append, IsAscii-tail, is_utf8-IsAscii, bytes_to_str-IsAscii}
use co.Utils.Classes.{is_digit, is_alphanumeric, is_quote, is_ident_start_byte, is_ident_cont_byte}
use co.Utils.Literals.{copy_literal_bytes_to_string, skip_literal_bytes}
use co.Utils.Scans.{
  copy_literal_bytes_to_string-skip, skip_literal_bytes-append, skip_literal_bytes-lt,
}
use co.Utils.Text.{is_utf8}

block_comment_rest-append : (s : Bytes) → (block_comment_rest s).0 ++ (block_comment_rest s).1 ≡ s
unfolding block_comment_rest
block_comment_rest-append [] = refl
block_comment_rest-append (c ∷ []) = refl
block_comment_rest-append (c ∷ d ∷ r) = ground (arith, block_comment_rest-append (d ∷ r))

plain_rest-append : (s : Bytes) → (plain_rest s).0 ++ (plain_rest s).1 ≡ s
unfolding plain_rest
plain_rest-append [] = refl
plain_rest-append (c ∷ s) =
    if_both (λ (p : Bytes × Bytes). p.0 ++ p.1 ≡ c ∷ s) (is_special c s) (λ _. refl)
      (λ _. ap (◌∷◌ c) (plain_rest-append s))

ppnumber-append : (before : ℕ) (s : Bytes) → (ppnumber before s).0 ++ (ppnumber before s).1 ≡ s
unfolding ppnumber
ppnumber-append before [] = refl
ppnumber-append before (c ∷ s) =
    if_both (λ (p : Bytes × Bytes). p.0 ++ p.1 ≡ c ∷ s)
      (is_alphanumeric c
        || c == b'.'
        || c == b'_'
        || (c == b'\'' && head_is is_separated s)
        || ((c == b'+' || c == b'-') && is_exponent before))
      (λ _. ap (◌∷◌ c) (ppnumber-append c s)) (λ _. refl)

str_or_empty-IsAscii : (s : Bytes) → IsAscii s → str_or_empty s ≡ s
unfolding str_or_empty is_utf8
str_or_empty-IsAscii s h = rw (is_utf8-IsAscii s h)

-- The step pushes the beginning of `s`, and goes on behind it.
abbrev IsCopy : Buffer → Bytes → ExpandState → Outcome Step → Type 0
IsCopy buf s st o =
    (x : Bytes) × (rest : Bytes) × (o ≡ ok (push_str buf x, rest, st))
    × (x ++ rest ≡ s)
    × (length rest < length s)

-- A part that is cut off an ASCII text and kept if it is valid.
valid-IsCopy :
    (buf : Buffer) (s : Bytes) (st : ExpandState) (x rest : Bytes)
    → IsAscii s
    → x ++ rest ≡ s
    → length rest < length s
    → IsCopy buf s st (ok (push_str buf (str_or_empty x), rest, st))
valid-IsCopy buf s st x rest a e l =
    let short = IsAscii-append x rest (subst IsAscii (sym e) a) in
    (x, rest, rw (str_or_empty-IsAscii x short.0) refl, e, l)

-- A literal of ASCII text is copied whole.
literal_copied :
    (b : ℕ) (r : Bytes)
    → IsAscii (b ∷ r)
    → copy_literal_bytes_to_string b (b ∷ r) [] ≡ ok (skip_literal_bytes b (b ∷ r))
unfolding is_utf8
literal_copied b r a =
    let cut = skip_literal_bytes b (b ∷ r) in
    let short =
      IsAscii-append cut.0 cut.1 (subst IsAscii (sym (skip_literal_bytes-append b (b ∷ r))) a) in
    copy_literal_bytes_to_string-skip b r [] ∙ rw (is_utf8-IsAscii cut.0 short.0) refl

-- No name of the table, none that is being expanded and no built-in name occurs in the text.
abbrev IsInert : MacroTable → List Bytes → Bytes → Type 0
IsInert t names s =
    (absent builtin_names s ≡ true) × (absent (keys t.macros) s ≡ true) × (absent names s ≡ true)

IsInert-behind :
    (t : MacroTable) (names : List Bytes) (x s : Bytes)
    → IsInert t names (x ++ s)
    → IsInert t names s
IsInert-behind t names x s h = (
  absent-behind builtin_names x s h.0,
  absent-behind (keys t.macros) x s h.1,
  absent-behind names x s h.2,
)

equal_sym : (s r : Bytes) → equal s r ≡ equal r s
unfolding equal
equal_sym [] [] = refl
equal_sym [] (d ∷ r) = refl
equal_sym (c ∷ s) [] = refl
equal_sym (c ∷ s) (d ∷ r) = ground (arith, equal_sym s r)

not_builtin :
    (name : Bytes)
    → contains builtin_names name ≡ false
    → (equal name (codes "_Pragma") ≡ false)
      × (equal name (codes "__COUNTER__") ≡ false)
      × (equal name (codes "__LINE__") ≡ false)
unfolding contains
not_builtin name h =
    rw
      (
        equal_sym name (codes "_Pragma"),
        equal_sym name (codes "__COUNTER__"),
        equal_sym name (codes "__LINE__"),
      )
      (ground arith)

comment_opens :
    (b : ℕ) (r : Bytes)
    → (b == b'/' && head_is (λ c. c == b'*') r) ≡ true
    → b'/' ∷ b'*' ∷ drop 1 r ≡ b ∷ r
comment_opens b [] h = ground arith
comment_opens b (c ∷ r) h =
    let both = and-eq-true (b == b'/') (c == b'*') h in
    rw ((==_iff b b'/').0 both.0, (==_iff c b'*').0 both.1) refl

module _ (t : MacroTable) (line_number : ℕ) (rescan expand_arg : Expand) where
  expand_identifier-inert :
      (buf : Buffer) (name s : Bytes) (st : ExpandState)
      → IsInert t st.expanding (name ++ s)
      → expand_identifier t line_number rescan expand_arg buf name s st
        ≡ ok (push_str buf name, s, st)
  unfolding expand_identifier expand_name contains get
  expand_identifier-inert buf name s st h =
      let here = occurs-append name s in
      let builtin = contains-absent builtin_names name (name ++ s) h.0 here in
      let unknown =
        lookup-keys name t.macros (contains-absent (keys t.macros) name (name ++ s) h.1 here) in
      let idle = contains-absent st.expanding name (name ++ s) h.2 here in
      let P : Outcome Step → Type 0 = λ o. o ≡ ok (push_str buf name, s, st) in
      let plain = not_builtin name builtin in
      if_both P (is_ppnumber_suffix buf) (λ _. refl)
        λ _.
          rw (plain.0, plain.1, plain.2)
            (if_both P (head_is is_quote s && is_literal_prefix name) (λ _. refl)
              λ _. rw (idle, unknown) refl)

  expand_round-inert :
      (buf : Buffer) (b : ℕ) (r : Bytes) (st : ExpandState)
      → IsAscii (b ∷ r)
      → IsInert t st.expanding (b ∷ r)
      → IsCopy buf (b ∷ r) st (expand_round t line_number rescan expand_arg buf b r st)
  unfolding expand_round
  expand_round-inert buf b r st a h =
      let P = IsCopy buf (b ∷ r) st in
      let word = span is_ident_cont_byte r in
      let comment = block_comment_rest (drop 1 r) in
      let line = span (λ c. not (c == b'\n')) (b ∷ r) in
      let run = plain_rest r in
      let literal = skip_literal_bytes b (b ∷ r) in
      let joined : (b ∷ word.0) ++ word.1 ≡ b ∷ r = ap (◌∷◌ b) (span-append is_ident_cont_byte r) in
      let short =
        IsAscii-append word.0 word.1
          (subst IsAscii (sym (span-append is_ident_cont_byte r)) (IsAscii-tail b r a)) in
      if_both P (is_quote b)
        (λ _. (
          literal.0,
          literal.1,
          ap (λ o. o >>= λ cut. copied buf cut st) (literal_copied b r a),
          skip_literal_bytes-append b (b ∷ r),
          omega (arith, skip_literal_bytes-lt b b r),
        ))
        λ _.
          if_both P (b == blue_paint_marker)
            (λ e. (
              blue_paint_marker ∷ word.0,
              word.1,
              rw (str_or_empty-IsAscii word.0 short.0) refl,
              ap (◌∷◌ blue_paint_marker) (span-append is_ident_cont_byte r)
                  ∙ ap (λ c. c ∷ r) (sym ((==_iff b blue_paint_marker).0 e)),
              omega (arith, length-span_le is_ident_cont_byte r),
            ))
            λ _.
              if_both P (is_ident_start_byte b)
                (λ _. (
                  b ∷ word.0,
                  word.1,
                  rw
                      (bytes_to_str-IsAscii (b ∷ word.0)
                        (IsAscii-append (b ∷ word.0) word.1 (subst IsAscii (sym joined) a)).0)
                      (expand_identifier-inert buf (b ∷ word.0) word.1 st
                        (subst (IsInert t st.expanding) (sym joined) h)),
                  joined,
                  omega (arith, length-span_le is_ident_cont_byte r),
                ))
                λ _.
                  if_both P (b == b'/' && head_is (λ c. c == b'*') r)
                    (λ e.
                      valid-IsCopy buf (b ∷ r) st (b'/' ∷ b'*' ∷ comment.0) comment.1 a
                        (ap (λ c. b'/' ∷ b'*' ∷ c) (block_comment_rest-append (drop 1 r))
                          ∙ comment_opens b r e)
                        (omega (arith, length-block_comment_rest (drop 1 r), length-behind_one r)))
                    λ _.
                      if_both P (b == b'/' && head_is (λ c. c == b'/') r)
                        (λ e.
                          valid-IsCopy buf (b ∷ r) st line.0 line.1 a
                            (span-append (λ c. not (c == b'\n')) (b ∷ r))
                            (omega
                              (arith, length-comment b r (slash b (head_is (λ c. c == b'/') r) e))))
                        λ _.
                          if_both P (is_digit b || (b == b'.' && head_is is_digit r))
                            (λ e.
                              valid-IsCopy buf (b ∷ r) st (ppnumber 0 (b ∷ r)).0
                                (ppnumber 0 (b ∷ r)).1 a (ppnumber-append 0 (b ∷ r))
                                (omega (arith, length-number b r e)))
                            λ _.
                              valid-IsCopy buf (b ∷ r) st (b ∷ run.0) run.1 a
                                (ap (◌∷◌ b) (plain_rest-append r))
                                (omega (arith, length-plain_rest r))

module _ (t : MacroTable) (line_number : ℕ) where
  expand_from-inert :
      (rescan : Expand) (f : ℕ) (buf : Buffer) (s : Bytes) (st : ExpandState)
      → length s < f
      → IsAscii s
      → IsInert t st.expanding s
      → expand_from t line_number rescan f buf s st ≡ ok (reverse buf ++ s, st)
  unfolding expand_from
  expand_from-inert rescan zero buf s st l a h = absurd (omega arith)
  expand_from-inert rescan (suc f) buf [] st l a h =
      ap (λ s. ok (s, st)) (sym (append-nil (reverse buf)))
  expand_from-inert rescan (suc f) buf (b ∷ r) st l a h =
      let again : Expand = λ arg st'. expand_from t line_number rescan f [] arg st' in
      let (x, rest, e, joined, shorter) =
        expand_round-inert t line_number rescan again buf b r st a h in
      rw e (
        expand_from-inert rescan f (push_str buf x) rest st (omega arith)
          (IsAscii-append x rest (subst IsAscii (sym joined) a)).1
          (IsInert-behind t st.expanding x rest (subst (IsInert t st.expanding) (sym joined) h))
        ∙ ap (λ s. ok (s, st)) (reverse-push_str buf x rest ∙ ap (λ s. reverse buf ++ s) joined))

  -- An ASCII line in which no macro's name and no built-in name occurs is left as it is, but for the
  -- marks of blue paint.
  pub expand_line_with_line-inert :
      (line : Bytes) (st : ExpandState)
      → IsAscii line
      → absent builtin_names line ≡ true
      → absent (keys t.macros) line ≡ true
      → expand_line_with_line t line_number line st
        ≡ ok (strip_blue_paint line, record st { expanding = [] })
  unfolding expand_line_with_line expand_text absent
  expand_line_with_line-inert line st a b k = rw (
      expand_from-inert (λ body st'. expand_text t line_number (length t.macros) body st')
        (suc (length line)) [] line (record st { expanding = [] }) (omega arith) a (b, k, refl))
