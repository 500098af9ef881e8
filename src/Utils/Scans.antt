-- ===== src/Utils/Scans.antt =====
-- The literal scanners split their input, make progress, and agree with one another.
use co.Prelude.{
  ℕ, suc, ◌+◌, ◌≡◌, ◌≢◌, ◌≤◌, refl, ap, ◌&&◌, [], ◌∷◌, ◌++◌, ◌==◌, Bytes, take, drop, length, arith,
  inl, inr, Bool-cases, length-append, true, ==_iff, and-eq-true, if◌then◌else◌,
}
use co.Prelude.Outcome.{Outcome, ok, panicked, ◌>>=◌}
use co.Utils.Text.{bytes_to_str, is_utf8}
use co.Utils.Literals.{
  skip_body, skip_literal_bytes, literal_end, copy_literal_bytes_to_string, is_lifetime_start,
}

skip_body-append : (q : ℕ) (s : Bytes) → (skip_body q s).0 ++ (skip_body q s).1 ≡ s
unfolding skip_body
skip_body-append q [] = refl
skip_body-append q (c ∷ []) = refl
skip_body-append q (c ∷ d ∷ r) = ground (arith, skip_body-append q r, skip_body-append q (d ∷ r))

-- The bytes that `skip_literal_bytes` passes over, with the bytes from the new cursor on, are the
-- bytes from the old cursor on.
pub skip_literal_bytes-append :
    (q : ℕ) (s : Bytes) → (skip_literal_bytes q s).0 ++ (skip_literal_bytes q s).1 ≡ s
unfolding skip_literal_bytes
skip_literal_bytes-append q [] = refl
skip_literal_bytes-append q (o ∷ r) = ground (arith, skip_body-append q r)

skip_body-le : (q : ℕ) (s : Bytes) → length (skip_body q s).1 ≤ length s
skip_body-le q s =
    omega
      (arith, ap length (skip_body-append q s), length-append (skip_body q s).0 (skip_body q s).1)

-- The cursor moves at least past the opening quote.
pub skip_literal_bytes-lt :
    (q o : ℕ) (r : Bytes) → length (skip_literal_bytes q (o ∷ r)).1 ≤ length r
unfolding skip_literal_bytes
skip_literal_bytes-lt q o r = ground (arith, skip_body-le q r)

literal_end-skip_body : (q i : ℕ) (s : Bytes) → literal_end q i s ≡ i + length (skip_body q s).0
unfolding literal_end skip_body
literal_end-skip_body q i [] = omega arith
literal_end-skip_body q i (c ∷ []) = omega arith
literal_end-skip_body q i (c ∷ d ∷ r) =
    ground (arith, literal_end-skip_body q (suc (suc i)) r, literal_end-skip_body q (suc i) (d ∷ r))

take-length : (xs ys : Bytes) → take (length xs) (xs ++ ys) ≡ xs
take-length [] ys = refl
take-length (x ∷ xs) ys = ap (◌∷◌ x) (take-length xs ys)

drop-length : (xs ys : Bytes) → drop (length xs) (xs ++ ys) ≡ ys
drop-length [] ys = refl
drop-length (x ∷ xs) ys = drop-length xs ys

-- The length of a split's front recovers the split.
take-drop-length :
    (xs ys s : Bytes) → xs ++ ys ≡ s → (take (length xs) s ≡ xs) × (drop (length xs) s ≡ ys)
take-drop-length xs ys s e = (rw (← e) (take-length xs ys), rw (← e) (drop-length xs ys))

copy_body :
    (q : ℕ) (o : ℕ) (r : Bytes)
    → (take (literal_end q 1 r) (o ∷ r) ≡ o ∷ (skip_body q r).0)
      × (drop (literal_end q 1 r) (o ∷ r) ≡ (skip_body q r).1)
copy_body q o r =
    let e : literal_end q 1 r ≡ suc (length (skip_body q r).0) =
      omega (arith, literal_end-skip_body q 1 r) in
    rw e (
      take-drop-length (o ∷ (skip_body q r).0) (skip_body q r).1 (o ∷ r)
        (ap (◌∷◌ o) (skip_body-append q r)))

abbrev appended : Bytes → Bytes × Bytes → Outcome (Bytes × Bytes)
appended result cut = if is_utf8 cut.0 then ok (result ++ cut.0, cut.1) else panicked

apostrophe-is_utf8 : is_utf8 (b'\'' ∷ []) ≡ true
unfolding is_utf8
apostrophe-is_utf8 = refl

copied_slice :
    (slice rest result : Bytes)
    → (bytes_to_str slice >>= λ text. ok (result ++ text, rest)) ≡ appended result (slice, rest)
unfolding bytes_to_str
copied_slice slice rest result = elim (Bool-cases (is_utf8 slice)) [
  | inl e ↦ rw e refl
  | inr e ↦ rw e refl
]

-- From its opening quote on, `copy_literal_bytes_to_string` appends just what `skip_literal_bytes`
-- passes over and stops at the same place, if that is UTF-8, and panics if it is not.
pub copy_literal_bytes_to_string-skip :
    (q : ℕ) (r result : Bytes)
    → copy_literal_bytes_to_string q (q ∷ r) result ≡ (
        if is_utf8 (skip_literal_bytes q (q ∷ r)).0
        then ok (result ++ (skip_literal_bytes q (q ∷ r)).0, (skip_literal_bytes q (q ∷ r)).1)
        else panicked)
unfolding copy_literal_bytes_to_string skip_literal_bytes
copy_literal_bytes_to_string-skip q r result =
    elim (Bool-cases (q == b'\'' && is_lifetime_start (q ∷ r))) [
      | inl e ↦
          let quote =
            (==_iff q b'\'').0 (and-eq-true (q == b'\'') (is_lifetime_start (q ∷ r)) e).0 in
          rw (e, quote, apostrophe-is_utf8) refl
      | inr e ↦
          rw (e, (copy_body q q r).0, (copy_body q q r).1)
            (copied_slice (q ∷ (skip_body q r).0) (skip_body q r).1 result)
    ]

-- The inside of a closed literal: plain bytes and backslash pairs.
pub data LiteralBody (q : ℕ) : Bytes → Type 0 where
  done : LiteralBody q []
  plain : {c : ℕ} {s : Bytes} → c ≢ q → c ≢ b'\\' → LiteralBody q s → LiteralBody q (c ∷ s)
  escape : {c : ℕ} {s : Bytes} → LiteralBody q s → LiteralBody q (b'\\' ∷ c ∷ s)

skip_body-close :
    {q : ℕ} {body : Bytes} (rest : Bytes)
    → q ≢ b'\\'
    → LiteralBody q body
    → skip_body q (body ++ q ∷ rest) ≡ (body ++ q ∷ [], rest)
unfolding skip_body
skip_body-close [] n done = refl
skip_body-close (x ∷ rest) n done = ground arith
skip_body-close {q} rest n (plain {c} {s = []} h k t) = ground (arith, skip_body-close rest n t)
skip_body-close {q} rest n (plain {c} {s = d ∷ s} h k t) = ground (arith, skip_body-close rest n t)
skip_body-close {q} rest n (escape {c} {s} t) = ground (arith, skip_body-close rest n t)

-- A closed string literal is passed over whole, its closing quote included, and nothing more.
pub skip_literal_bytes-close :
    {body : Bytes} (rest : Bytes)
    → LiteralBody b'"' body
    → skip_literal_bytes b'"' (b'"' ∷ (body ++ b'"' ∷ rest)) ≡ (b'"' ∷ (body ++ b'"' ∷ []), rest)
unfolding skip_literal_bytes
skip_literal_bytes-close rest h = rw (skip_body-close rest (omega arith) h)
