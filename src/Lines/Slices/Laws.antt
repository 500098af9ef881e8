-- ===== src/Lines/Slices/Laws.antt =====
-- `logical_slices` ends, and knows where every byte of a line comes from.
use co.Prelude.{
  ℕ, zero, suc, ◌+◌, ◌<◌, ◌≤◌, ◌≡◌, refl, sym, Bool, true, false, not, ◌&&◌, ◌||◌, List, [], ◌∷◌,
  ◌++◌, Bytes, all, span, drop, head_is, length, length-append, length-drop, ltb, ◌==◌, if_both,
  arith, Option-cases, Bool-cases, inl, inr, ==_iff, and-eq-true, subst,
}
use co.Prelude.Outcome.{Settles, settled, crashed, Settles-bind}
use co.Utils.Classes.{is_quote}
use co.Utils.Text.{is_utf8}
use co.Lines.Slices.{
  LogicalSlice, Push, count_up, digraph, is_paste_digraph, in_line, one_byte, push_line_comment,
  push_block_comment, push_backslash, push_byte, push_pair, push_round, comment_boundaries,
  close_slice, is_empty, is_splice_blank, slices_from, logical_slices,
}

length-count_up : (i n : ℕ) → length {A = ℕ} (count_up i n) ≡ n
length-count_up i zero = refl
length-count_up i (suc n) = omega (arith, length-count_up (suc i) n)

-- A round that passes over a byte or more and pushes a boundary for every byte of text.
abbrev pub Mapped : Push → Type 0
Mapped p = (1 ≤ p.passed) × (length {A = ℕ} p.marks ≡ length {A = ℕ} p.text)

one_byte-Mapped : (i b : ℕ) → Mapped (one_byte i b)
unfolding one_byte
one_byte-Mapped i b = (omega arith, refl)

push_line_comment-Mapped :
    (keep : Bool) (i : ℕ) (r : Bytes) → Mapped (push_line_comment keep i (b'/' ∷ r))
unfolding push_line_comment
push_line_comment-Mapped keep i r =
    if_both Mapped (keep && head_is (λ c. c == b'/' || c == b'!') (drop 2 (b'/' ∷ r)))
      (λ _. (omega arith, length-count_up i (length (in_line (b'/' ∷ r)))))
      (λ _. (omega arith, refl))

push_block_comment-Mapped : (i : ℕ) (s : Bytes) → Mapped (push_block_comment i s)
unfolding push_block_comment
push_block_comment-Mapped i s = (omega arith, refl)

push_backslash-Mapped : (i : ℕ) (r : Bytes) → Mapped (push_backslash i r)
unfolding push_backslash
push_backslash-Mapped i r =
    let joins = head_is (λ c. c == b'\n') (span is_splice_blank r).1 in
    let spliced : Push = record {
      text = [];
      marks = [];
      passed = 2 + length (span is_splice_blank r).0;
      is_comment = false;
    } in
    if_both Mapped joins {x = spliced} (λ _. (omega arith, refl)) (λ _. one_byte-Mapped i b'\\')

push_byte-Mapped :
    (keep : Bool) (i b : ℕ) (r : Bytes) → is_quote b ≡ false → Mapped (push_byte keep i b r)
unfolding push_byte
push_byte-Mapped keep i b r plain = rw plain (
    if_both Mapped (b == b'/' && head_is (λ c. c == b'/') r)
      (λ h.
        subst (λ (c : ℕ). Mapped (push_line_comment keep i (c ∷ r)))
          (sym ((==_iff b b'/').0 (and-eq-true (b == b'/') (head_is (λ c. c == b'/') r) h).0))
          (push_line_comment-Mapped keep i r))
      λ _.
        if_both Mapped (b == b'/' && head_is (λ c. c == b'*') r)
          (λ _. push_block_comment-Mapped i (b ∷ r))
          λ _.
            if_both Mapped (b == b'\\') (λ _. push_backslash-Mapped i r) (λ _. one_byte-Mapped i b))

push_pair-Mapped :
    (keep : Bool) (i b : ℕ) (r : Bytes) → is_quote b ≡ false → Mapped (push_pair keep i b r)
unfolding push_pair
push_pair-Mapped keep i b [] plain = push_byte-Mapped keep i b [] plain
push_pair-Mapped keep i b (c ∷ r) plain = elim (Option-cases (digraph b c)) [
  | inl e ↦ rw (e, push_pair) (push_byte-Mapped keep i b (c ∷ r) plain)
  | inr (d, e) ↦ rw (e, push_pair) (omega arith, refl)
]

pub push_round-Mapped :
    (keep : Bool) (i b : ℕ) (r : Bytes) → is_quote b ≡ false → Mapped (push_round keep i b r)
unfolding push_round
push_round-Mapped keep i b r plain =
    if_both Mapped (is_paste_digraph (b ∷ r)) (λ _. (omega arith, refl))
      (λ _. push_pair-Mapped keep i b r plain)

length-comment_boundaries :
    (c : Bool) (i : ℕ) (bounds : List ℕ)
    → length {A = ℕ} (comment_boundaries c i bounds) ≡ length {A = ℕ} bounds
unfolding comment_boundaries
length-comment_boundaries true i [] = refl
length-comment_boundaries true i (a ∷ []) = refl
length-comment_boundaries true i (a ∷ b ∷ []) = ground arith
length-comment_boundaries true i (a ∷ b ∷ c ∷ r) = refl
length-comment_boundaries false i bounds = refl

-- A line with one boundary more than bytes.
abbrev pub IsMapped : LogicalSlice → Type 0
IsMapped slice = length {A = ℕ} slice.source_boundaries ≡ suc (length {A = ℕ} slice.text)

abbrev pub AllMapped : List LogicalSlice → Type 0
AllMapped [] = Unit {0}
AllMapped (slice ∷ slices) = IsMapped slice × AllMapped slices

close_slice-Settles :
    (out : Bytes) (bounds : List ℕ) (end : ℕ)
    → length {A = ℕ} bounds ≡ suc (length {A = ℕ} out)
    → Settles IsMapped (close_slice out bounds end)
unfolding close_slice
close_slice-Settles out bounds end h =
    if_both (Settles IsMapped) (is_utf8 out) (λ _. settled h) (λ _. crashed)

all-drop : (p : ℕ → Bool) (n : ℕ) (s : Bytes) → all p s ≡ true → all p (drop n s) ≡ true
all-drop p zero s h = h
all-drop p (suc n) [] h = h
all-drop p (suc n) (c ∷ s) h = all-drop p n s (and-eq-true (p c) (all p s) h).1

-- No string or character literal.
abbrev pub NoQuotes : Bytes → Type 0
NoQuotes s = all (λ c. not (is_quote c)) s ≡ true

not-true : (b : Bool) → not b ≡ true → b ≡ false
not-true b h = ground arith

slices_from-Settles :
    (f : ℕ) (keep : Bool) (out : Bytes) (bounds : List ℕ) (line_start i : ℕ) (s : Bytes)
    → length s < f
    → NoQuotes s
    → length {A = ℕ} bounds ≡ suc (length {A = ℕ} out)
    → Settles AllMapped (slices_from f keep out bounds line_start i s)
unfolding slices_from
slices_from-Settles zero keep out bounds start i s h q m = absurd (omega arith)
slices_from-Settles (suc f) keep out bounds start i [] h q m =
    if_both (Settles AllMapped) (not (is_empty out) || ltb start i)
      (λ _. Settles-bind (close_slice-Settles out bounds i m) λ slice k. settled (k, tt))
      (λ _. settled tt)
slices_from-Settles (suc f) keep out bounds start i (b ∷ r) h q m =
    let plain =
      not-true (is_quote b) (and-eq-true (not (is_quote b)) (all (λ c. not (is_quote c)) r) q).0 in
    let push = push_round keep i b r in
    let marks = bounds ++ push.marks in
    let (moves, mapped) = push_round-Mapped keep i b r plain in
    elim (Bool-cases (b == b'\n')) [
      | inl e ↦
          rw (e, slices_from)
            (Settles-bind (close_slice-Settles out bounds (suc i) m) λ slice k.
              Settles-bind
                (slices_from-Settles f keep [] (suc i ∷ []) (suc i) (suc i) r (omega arith)
                  (and-eq-true (not (is_quote b)) (all (λ c. not (is_quote c)) r) q).1 (refl))
                λ more ks. settled (k, ks))
      | inr e ↦
          rw (e, slices_from)
            (slices_from-Settles f keep (out ++ push.text)
              (comment_boundaries push.is_comment i marks) start (i + push.passed)
              (drop push.passed (b ∷ r)) (omega (arith, length-drop {A = ℕ} push.passed (b ∷ r)))
              (all-drop (λ c. not (is_quote c)) push.passed (b ∷ r) q)
              (omega (
                arith,
                length-comment_boundaries push.is_comment i marks,
                length-append {A = ℕ} bounds push.marks,
                length-append {A = ℕ} out push.text,
              )))
    ]

-- Without string and character literals the split ends, with a panic or with lines that each have
-- one source boundary more than they have bytes: digraphs, comments and continued lines keep the
-- offsets in step with the text.
pub logical_slices-AllMapped :
    (keep_docs : Bool) (source : Bytes)
    → NoQuotes source
    → Settles AllMapped (logical_slices keep_docs source)
unfolding logical_slices
logical_slices-AllMapped keep source q =
    slices_from-Settles (suc (length source)) keep [] (0 ∷ []) 0 0 source (omega arith) q refl
