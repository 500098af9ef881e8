-- ===== src/Macros/Args/Laws.antt =====
-- Termination of `parse_macro_args`, and the lengths of the arguments.
use mathlib.Core.List.{reverse, reverse-append}
use co.Prelude.{
  ℕ, zero, suc, ◌+◌, ◌<◌, ◌≤◌, ◌≡◌, refl, ap, sym, ◌∙◌, true, ◌&&◌, List, [], ◌∷◌, ◌++◌, Bytes,
  drop, length, length-append, length-drop, ◌==◌, if_both, arith, subst,
}
use co.Prelude.Outcome.{Outcome, ok, Settles, settled, crashed}
use co.Macros.Args.{
  ppnumber, ArgStep, finish, next_arg, pass, is_prefix_digit, arg_step, arg_of, close_args,
  args_from, parse_macro_args,
}
use co.Macros.Paste.{Buffer, push_str, str_or_empty}
use co.Utils.Classes.{is_digit, is_alphanumeric, is_quote}
use co.Utils.Literals.{skip_literal_bytes}
use co.Utils.Scans.{skip_literal_bytes-append, skip_literal_bytes-lt}
use co.Utils.Text.{trim, trim_start, trim_end, strip, space_len, space_len_back, is_utf8}

pub length-reverse : (s : Bytes) → length (reverse s) ≡ length s
length-reverse [] = refl
length-reverse (c ∷ s) =
    ap length (reverse-append (c ∷ []) s)
    ∙ omega (arith, length-append {A = ℕ} (reverse s) (c ∷ []), length-reverse s)

pub length-strip : (len : Bytes → ℕ) (f : ℕ) (s : Bytes) → length (strip len f s) ≤ length s
unfolding strip
length-strip len zero s = omega arith
length-strip len (suc f) s =
    ground (arith, length-strip len f (drop (len s) s), length-drop {A = ℕ} (len s) s)

pub length-trim_end : (s : Bytes) → length (trim_end s) ≤ length s
unfolding trim_end
length-trim_end s = omega (
  arith,
  length-reverse (strip space_len_back (length s) (reverse s)),
  length-reverse s,
  length-strip space_len_back (length s) (reverse s),
)

pub length-trim : (s : Bytes) → length (trim s) ≤ length s
unfolding trim trim_start
length-trim s = omega (arith, length-trim_end (trim_start s), length-strip space_len (length s) s)

pub length-str_or_empty : (s : Bytes) → length (str_or_empty s) ≤ length s
unfolding str_or_empty
length-str_or_empty s =
    if_both (λ (t : Bytes). length t ≤ length s) (is_utf8 s) (λ _. omega arith) (λ _. omega arith)

length-arg_of : (buf : Buffer) → length (arg_of buf) ≤ length buf
length-arg_of buf = omega (
  arith,
  length-trim (str_or_empty (reverse buf)),
  length-str_or_empty (reverse buf),
  length-reverse buf,
)

pub length-push_str : (buf : Buffer) (s : Bytes) → length (push_str buf s) ≡ length s + length buf
length-push_str buf s = omega (arith, length-append {A = ℕ} (reverse s) buf, length-reverse s)

pub length-ppnumber :
    (before : ℕ) (s : Bytes)
    → length (ppnumber before s).0 + length (ppnumber before s).1 ≡ length s
unfolding ppnumber
length-ppnumber before [] = refl
length-ppnumber before (c ∷ s) = ground (arith, length-ppnumber c s)

-- A number takes its first digit.
pub ppnumber-lt : (c : ℕ) (r : Bytes) → is_digit c ≡ true → length (ppnumber 0 (c ∷ r)).1 ≤ length r
unfolding ppnumber is_alphanumeric
ppnumber-lt c r h = ground (arith, length-ppnumber c r)

abbrev pub AllShort : ℕ → List Bytes → Type 0
AllShort n [] = Unit {0}
AllShort n (a ∷ args) = (length a ≤ n) × AllShort n args

AllShort-concat :
    (n : ℕ) (args : List Bytes) (a : Bytes)
    → AllShort n args
    → length a ≤ n
    → AllShort n (args ++ a ∷ [])
AllShort-concat n [] a h k = (k, tt)
AllShort-concat n (b ∷ args) a h k = (h.0, AllShort-concat n args a h.1 k)

close_args-AllShort :
    (n : ℕ) (args : List Bytes) (a : Bytes)
    → AllShort n args
    → length a ≤ n
    → AllShort n (close_args args a)
unfolding close_args
close_args-AllShort n [] [] h k = tt
close_args-AllShort n [] (c ∷ a) h k = (k, tt)
close_args-AllShort n (b ∷ args) a h k = AllShort-concat n (b ∷ args) a h k

-- A step passes over text, no more than there is.
abbrev Passes : ℕ → ArgStep → Type 0
Passes n finish = Unit {0}
Passes n next_arg = Unit {0}
Passes n (pass text rest depth) =
    (length {A = ℕ} text + length {A = ℕ} rest ≡ suc n) × (length {A = ℕ} rest ≤ n)

skip_literal_bytes-length :
    (q o : ℕ) (r : Bytes)
    → length (skip_literal_bytes q (o ∷ r)).0 + length (skip_literal_bytes q (o ∷ r)).1
      ≡ suc (length r)
skip_literal_bytes-length q o r =
    let cut = skip_literal_bytes q (o ∷ r) in
    omega (
      arith,
      ap (length {A = ℕ}) (skip_literal_bytes-append q (o ∷ r)),
      length-append {A = ℕ} cut.0 cut.1,
    )

arg_step-Passes :
    (depth : ℕ) (buf : Buffer) (c : ℕ) (r : Bytes) → Passes (length r) (arg_step depth buf c r)
unfolding arg_step
arg_step-Passes depth buf c r =
    let P = Passes (length r) in
    let one : (length {A = ℕ} (c ∷ []) + length r ≡ suc (length r)) × (length r ≤ length r) =
      omega arith in
    if_both P (c == b'(') (λ _. one)
      λ _.
        if_both P (c == b')') (λ _. if_both P (depth == 0) (λ _. tt) (λ _. one))
          λ _.
            if_both P (c == b',' && depth == 0) (λ _. tt)
              λ _.
                if_both P (is_digit c)
                  (λ h.
                    if_both P (is_prefix_digit buf c r) (λ _. one)
                      (λ _. (length-ppnumber 0 (c ∷ r), ppnumber-lt c r h)))
                  λ _.
                    if_both P (is_quote c)
                      (λ _. (skip_literal_bytes-length c c r, skip_literal_bytes-lt c c r))
                      (λ _. one)

-- The arguments and the cursor of a call.
abbrev pub Parsed : ℕ → ℕ → List Bytes × Bytes → Type 0
Parsed n k p = AllShort n p.0 × (length {A = ℕ} p.1 ≤ k)

Parsed-weaken :
    (n k j : ℕ) {o : Outcome (List Bytes × Bytes)}
    → k ≤ j
    → Settles (Parsed n k) o
    → Settles (Parsed n j) o
Parsed-weaken n k j h (settled (a, l)) = settled (a, omega arith)
Parsed-weaken n k j h crashed = crashed

-- What the loop does with a step.
abbrev arg_continue : ℕ → List Bytes → Buffer → Bytes → ArgStep → Outcome (List Bytes × Bytes)
arg_continue f args buf r step = elim step [
  | finish ↦ ok (close_args args (arg_of buf), r)
  | next_arg ↦ args_from f 0 (args ++ arg_of buf ∷ []) [] r
  | pass text rest depth ↦ args_from f depth args (push_str buf text) rest
]

args_from_step :
    (f depth : ℕ) (args : List Bytes) (buf : Buffer) (c : ℕ) (r : Bytes)
    → args_from (suc f) depth args buf (c ∷ r) ≡ arg_continue f args buf r (arg_step depth buf c r)
unfolding args_from arg_step close_args
args_from_step f depth args buf c r = refl

arg_continue-Settles :
    (n f : ℕ) (args : List Bytes) (buf : Buffer) (r : Bytes) (step : ArgStep)
    → length buf + suc (length r) ≤ n
    → AllShort n args
    → Passes (length r) step
    → ((depth : ℕ) (args : List Bytes) (buf : Buffer) (s : Bytes)
        → length s ≤ length r
        → length buf + length s ≤ n
        → AllShort n args
        → Settles (Parsed n (length s)) (args_from f depth args buf s))
    → Settles (Parsed n (suc (length r))) (arg_continue f args buf r step)
arg_continue-Settles n f args buf r finish k a p more =
    settled
      (close_args-AllShort n args (arg_of buf) a (omega (arith, length-arg_of buf)), omega arith)
arg_continue-Settles n f args buf r next_arg k a p more =
    Parsed-weaken n (length r) (suc (length r)) (omega arith) (
      more 0 (args ++ arg_of buf ∷ []) [] r (omega arith) (omega arith)
        (AllShort-concat n args (arg_of buf) a (omega (arith, length-arg_of buf))))
arg_continue-Settles n f args buf r (pass text rest depth) k a p more =
    Parsed-weaken n (length rest) (suc (length r)) (omega arith)
      (more depth args (push_str buf text) rest p.1 (omega (arith, length-push_str buf text)) a)

args_from-Settles :
    (n f depth : ℕ) (args : List Bytes) (buf : Buffer) (s : Bytes)
    → length s < f
    → length buf + length s ≤ n
    → AllShort n args
    → Settles (Parsed n (length s)) (args_from f depth args buf s)
unfolding args_from
args_from-Settles n zero depth args buf s h k a = absurd (omega arith)
args_from-Settles n (suc f) depth args buf [] h k a =
    settled
      (close_args-AllShort n args (arg_of buf) a (omega (arith, length-arg_of buf)), omega arith)
args_from-Settles n (suc f) depth args buf (c ∷ r) h k a =
    subst (Settles (Parsed n (suc (length r)))) (sym (args_from_step f depth args buf c r)) (
      arg_continue-Settles n f args buf r (arg_step depth buf c r) (omega arith) a
        (arg_step-Passes depth buf c r)
        λ depth' args' buf' s' h' k' a'.
          args_from-Settles n f depth' args' buf' s' (omega arith) k' a')

-- The text behind the parenthesis bounds every argument, and the cursor does not move back.
pub parse_macro_args-Settles :
    (s : Bytes) → Settles (Parsed (length s) (length s)) (parse_macro_args s)
unfolding parse_macro_args
parse_macro_args-Settles s =
    args_from-Settles (length s) (suc (length s)) 0 [] [] s (omega arith) (omega arith) tt
