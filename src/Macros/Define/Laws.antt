-- ===== src/Macros/Define/Laws.antt =====
-- `parse_define` on parameter lists that are well formed.
use co.Prelude.{
  ℕ, zero, suc, ◌<◌, ◌≡◌, ◌≢◌, refl, sym, ap, ◌∙◌, subst, Bool, true, false, List, [], ◌∷◌, ◌++◌,
  append_assoc, append-nil, Bytes, some, span, span-all, length, ◌==◌, arith,
}
use co.Prelude.Outcome.{Outcome, ok, ◌>>=◌}
use co.Directives.Defined.{skip_blanks}
use co.Directives.Idents.Laws.{IsWord, AllWords}
use co.Macros.Define.{
  ParamList, is_ellipsis, behind_paren, skip_comma, fixed_list, ParamStep, finish, continue,
  named_param, param_step, parse_params, define_named, define_trimmed, define_with, parse_define,
}
use co.Macros.Table.{macro_def_from_parts}
use co.Utils.Ascii.{bytes_to_str-IsAscii}
use co.Utils.Classes.{
  is_blank, is_alphabetic, is_alphanumeric, is_ident_start_byte, is_ident_cont_byte,
}
use co.Utils.Text.{trim}

-- A parameter list and the text behind it.
unfoldable pub print_params : List Bytes → Bytes → Bytes
print_params [] body = b')' ∷ body
print_params (p ∷ []) body = p ++ b')' ∷ body
print_params (p ∷ q ∷ ps) body = p ++ b',' ∷ b' ' ∷ print_params (q ∷ ps) body

is_ellipsis-other : (a : ℕ) (s : Bytes) → a ≢ b'.' → is_ellipsis (a ∷ s) ≡ false
unfolding is_ellipsis
is_ellipsis-other a [] h = refl
is_ellipsis-other a (b ∷ []) h = refl
is_ellipsis-other a (b ∷ c ∷ s) h = ground arith

start_is_plain :
    (c : ℕ)
    → is_ident_start_byte c ≡ true
    → (is_blank c ≡ false) × ((c == b')') ≡ false) × (c ≢ b'.')
unfolding is_ident_start_byte is_blank is_alphabetic
start_is_plain c h = (ground arith, ground arith, λ e. ground arith)

-- One parameter with the byte behind it.
param_step-word :
    (acc : List Bytes) (p : Bytes) (d : ℕ) (s : Bytes) (w : IsWord p)
    → is_ident_cont_byte d ≡ false
    → d ≢ b'.'
    → param_step acc w.head (w.tail ++ d ∷ s) ≡ ok (continue (acc ++ p ∷ []) (skip_comma (d ∷ s)))
unfolding param_step named_param
param_step-word acc p d s w e n =
    let plain = start_is_plain w.head w.starts in
    rw
      (
        plain.1,
        is_ellipsis-other w.head (w.tail ++ d ∷ s) plain.2,
        w.starts,
        span-all is_ident_cont_byte w.tail (d ∷ s) w.continues e,
        bytes_to_str-IsAscii (w.head ∷ w.tail) w.ascii,
        is_ellipsis-other d s n,
      )
      (ap (λ name. ok (continue (acc ++ name ∷ []) (skip_comma (d ∷ s)))) (sym w.split))

-- What a round does with the step.
abbrev pub continues : ℕ → Outcome ParamStep → Outcome (ParamList × Bytes)
continues f o = o >>= λ step. elim step [
  | finish list rest ↦ ok (list, rest)
  | continue params rest ↦ parse_params f params rest
]

abbrev at_cursor : ℕ → List Bytes → Bytes → Outcome (ParamList × Bytes)
at_cursor f acc [] = ok (fixed_list acc, [])
at_cursor f acc (c ∷ r) = continues f (param_step acc c r)

parse_params_at :
    (f : ℕ) (acc : List Bytes) (s : Bytes)
    → parse_params (suc f) acc s ≡ at_cursor f acc (skip_blanks s)
unfolding parse_params param_step named_param is_ellipsis behind_paren skip_comma skip_blanks
parse_params_at f acc s = refl

pub parse_params_round :
    (f : ℕ) (acc : List Bytes) (s : Bytes) (c : ℕ) (r : Bytes)
    → skip_blanks s ≡ c ∷ r
    → parse_params (suc f) acc s ≡ continues f (param_step acc c r)
parse_params_round f acc s c r h = parse_params_at f acc s ∙ ap (at_cursor f acc) h

pub skip_blanks-start : (c : ℕ) (s : Bytes) → is_blank c ≡ false → skip_blanks (c ∷ s) ≡ c ∷ s
unfolding skip_blanks
skip_blanks-start c s h = rw (h, skip_blanks, span) refl

skip_blanks-word : (p s : Bytes) → IsWord p → skip_blanks (p ++ s) ≡ p ++ s
skip_blanks-word p s w =
    let plain = start_is_plain w.head w.starts in
    subst (λ x. skip_blanks (x ++ s) ≡ x ++ s) (sym w.split)
      (skip_blanks-start w.head (w.tail ++ s) plain.0)

-- A word of the list with the byte behind it, and the rest of the list.
parse_params_word :
    (f : ℕ) (acc : List Bytes) (p : Bytes) (d : ℕ) (s tail : Bytes)
    → IsWord p
    → is_ident_cont_byte d ≡ false
    → d ≢ b'.'
    → skip_blanks s ≡ p ++ d ∷ tail
    → parse_params (suc f) acc s ≡ parse_params f (acc ++ p ∷ []) (skip_comma (d ∷ tail))
parse_params_word f acc p d s tail w e n h =
    parse_params_round f acc s w.head (w.tail ++ d ∷ tail) (h ∙ ap (λ x. x ++ d ∷ tail) w.split)
    ∙ ap (continues f) (param_step-word acc p d tail w e n)

parse_params_close :
    (f : ℕ) (acc : List Bytes) (s body : Bytes)
    → skip_blanks s ≡ b')' ∷ body
    → parse_params (suc f) acc s ≡ ok (fixed_list acc, body)
unfolding param_step
parse_params_close f acc s body h = parse_params_round f acc s b')' body h

close_is_plain : (is_ident_cont_byte b')' ≡ false) × (is_ident_cont_byte b',' ≡ false)
unfolding is_ident_cont_byte is_alphanumeric
close_is_plain = (refl, refl)

skip_comma-close : (body : Bytes) → skip_comma (b')' ∷ body) ≡ b')' ∷ body
unfolding skip_comma is_blank
skip_comma-close body = refl

skip_comma-comma : (s : Bytes) → skip_comma (b',' ∷ s) ≡ s
unfolding skip_comma is_blank
skip_comma-comma s = refl

skip_blanks-close : (body : Bytes) → skip_blanks (b')' ∷ body) ≡ b')' ∷ body
skip_blanks-close body = skip_blanks-start b')' body (unfold is_blank in refl)

skip_blanks-space : (s : Bytes) → skip_blanks (b' ' ∷ s) ≡ skip_blanks s
unfolding skip_blanks is_blank
skip_blanks-space s = refl

print_params-plain :
    (ps : List Bytes) (body : Bytes)
    → AllWords ps
    → skip_blanks (print_params ps body) ≡ print_params ps body
unfolding print_params
print_params-plain [] body h = skip_blanks-close body
print_params-plain (p ∷ []) body h = skip_blanks-word p (b')' ∷ body) h.0
print_params-plain (p ∷ q ∷ ps) body h =
    skip_blanks-word p (b',' ∷ b' ' ∷ print_params (q ∷ ps) body) h.0

parse_params-print :
    (f : ℕ) (acc ps : List Bytes) (s body : Bytes)
    → AllWords ps
    → length ps < f
    → skip_blanks s ≡ print_params ps body
    → parse_params f acc s ≡ ok (fixed_list (acc ++ ps), body)
unfolding print_params
parse_params-print zero acc ps s body w h e = absurd (omega arith)
parse_params-print (suc f) acc [] s body w h e =
    parse_params_close f acc s body e ∙ ap (λ ps. ok (fixed_list ps, body)) (sym (append-nil acc))
parse_params-print (suc zero) acc (p ∷ []) s body w h e = absurd (omega arith)
parse_params-print (suc (suc f)) acc (p ∷ []) s body w h e =
    parse_params_word (suc f) acc p b')' s body w.0 close_is_plain.0 (λ x. omega arith) e
    ∙ ap (parse_params (suc f) (acc ++ p ∷ [])) (skip_comma-close body)
    ∙ parse_params_close f (acc ++ p ∷ []) (b')' ∷ body) body (skip_blanks-close body)
parse_params-print (suc f) acc (p ∷ q ∷ ps) s body w h e =
    let more = b' ' ∷ print_params (q ∷ ps) body in
    parse_params_word f acc p b',' s more w.0 close_is_plain.1 (λ x. omega arith) e
    ∙ ap (parse_params f (acc ++ p ∷ [])) (skip_comma-comma more)
    ∙ parse_params-print f (acc ++ p ∷ []) (q ∷ ps) more body w.1 (omega arith)
        (skip_blanks-space (print_params (q ∷ ps) body) ∙ print_params-plain (q ∷ ps) body w.1)
    ∙ ap (λ ps'. ok (fixed_list ps', body)) (append_assoc acc (p ∷ []) (q ∷ ps))

module _ (is_xid_start is_xid_continue : ℕ → Bool) where
  define_trimmed-word :
      (f : ℕ) (name : Bytes) (d : ℕ) (s : Bytes)
      → IsWord name
      → is_ident_cont_byte d ≡ false
      → define_trimmed is_xid_start is_xid_continue f (name ++ d ∷ s)
        ≡ define_named is_xid_start is_xid_continue f name (d ∷ s)
  unfolding define_trimmed define_named
  define_trimmed-word f name d s w e =
      ap (λ x. define_trimmed is_xid_start is_xid_continue f (x ++ d ∷ s)) w.split
      ∙ named
      ∙ ap (λ x. define_named is_xid_start is_xid_continue f x (d ∷ s)) (sym w.split)
    where
      named :
          define_trimmed is_xid_start is_xid_continue f (w.head ∷ w.tail ++ d ∷ s)
          ≡ define_named is_xid_start is_xid_continue f (w.head ∷ w.tail) (d ∷ s)
      named =
          rw
            (
              w.starts,
              define_trimmed,
              span-all is_ident_cont_byte w.tail (d ∷ s) w.continues e,
              bytes_to_str-IsAscii (w.head ∷ w.tail) w.ascii,
            )
            refl

  open_is_plain : is_ident_cont_byte b'(' ≡ false
  unfolding is_ident_cont_byte is_alphanumeric
  open_is_plain = refl

  -- What `parse_define` makes of a function-like macro's line, from its parameters on.
  pub parse_define-function :
      (f : ℕ) (line name s : Bytes)
      → IsWord name
      → trim line ≡ name ++ b'(' ∷ s
      → parse_define is_xid_start is_xid_continue f line
        ≡ (parse_params f [] s >>= λ p. define_with is_xid_start is_xid_continue name true p)
  unfolding parse_define define_named
  parse_define-function f line name s w h =
      ap (define_trimmed is_xid_start is_xid_continue f) h
      ∙ define_trimmed-word f name b'(' s w open_is_plain

  -- A function-like macro written with its parameters parted by commas is read with just these
  -- parameters and the trimmed text behind the list for its body.
  pub parse_define-print :
      (f : ℕ) (line name : Bytes) (params : List Bytes) (body : Bytes)
      → IsWord name
      → AllWords params
      → length params < f
      → trim line ≡ name ++ b'(' ∷ print_params params body
      → parse_define is_xid_start is_xid_continue f line ≡ (
          macro_def_from_parts is_xid_start is_xid_continue name true params false false (trim body)
          >>= λ d. ok (some d))
  unfolding define_with
  parse_define-print f line name params body w ws l h =
      parse_define-function f line name (print_params params body) w h
      ∙ ap (λ o. o >>= λ p. define_with is_xid_start is_xid_continue name true p)
          (parse_params-print f [] params (print_params params body) body ws l
            (print_params-plain params body ws))
