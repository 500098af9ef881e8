-- ===== src/Prelude/Lists.antt =====
-- Byte strings, lengths over the native numbers, and the scan that a `while` over a byte class is.
use Prim.Native.Nat.{ℕ, zero, suc, ◌+◌, ◌-◌, ◌≤◌}
use Prim.Native.Char.{code}
use Prim.Native.String.{String}
use mathlib.Core.Path.{◌≡◌, refl, ap}
use mathlib.Core.Logic.{◌↔◌}
use mathlib.Core.Bool.{Bool, true, false, ◌&&◌}
use mathlib.Core.List.{List, [], ◌∷◌, ◌++◌}
use mathlib.Core.Option.{Option, none, some}
use native.Mathlib.Omega.{arith}
use co.Prelude.Tests.{◌==◌, if◌then◌else◌}

-- A `&str` or `&[u8]`: its bytes, each below 256.
abbrev pub Bytes : Type 0
Bytes = List ℕ

-- The bytes of an ASCII literal of the source.
abbrev pub codes : String → Bytes
codes String.[] = []
codes (String.◌∷◌ c s) = code c ∷ codes s

module _ {ℓ} {A : Type ℓ} where
  abbrev pub length : List A → ℕ
  length [] = 0
  length (x ∷ xs) = suc (length xs)

  abbrev pub drop : ℕ → List A → List A
  drop zero xs = xs
  drop (suc n) [] = []
  drop (suc n) (x ∷ xs) = drop n xs

  abbrev pub take : ℕ → List A → List A
  take zero xs = []
  take (suc n) [] = []
  take (suc n) (x ∷ xs) = x ∷ take n xs

  -- Does an element stand at the cursor, and does it pass the test?
  abbrev pub head_is : (A → Bool) → List A → Bool
  head_is p [] = false
  head_is p (x ∷ xs) = p x

  abbrev pub get_elem? : List A → ℕ → Option A
  get_elem? [] i = none
  get_elem? (x ∷ xs) zero = some x
  get_elem? (x ∷ xs) (suc i) = get_elem? xs i

  pub length-append : (xs ys : List A) → length (xs ++ ys) ≡ length xs + length ys
  length-append [] ys = omega arith
  length-append (x ∷ xs) ys = omega (arith, length-append xs ys)

  pub take-append-drop : (n : ℕ) (xs : List A) → take n xs ++ drop n xs ≡ xs
  take-append-drop zero xs = refl
  take-append-drop (suc n) [] = refl
  take-append-drop (suc n) (x ∷ xs) = ap (◌∷◌ x) (take-append-drop n xs)

  pub length-drop : (n : ℕ) (xs : List A) → length (drop n xs) ≡ length xs - n
  length-drop zero xs = omega arith
  length-drop (suc n) [] = omega arith
  length-drop (suc n) (x ∷ xs) = omega (arith, length-drop n xs)

-- Put a consumed element in front of the consumed part.
abbrev pub prepend {ℓ} : {A : Type ℓ} → A → List A × List A → List A × List A
prepend x p = (x ∷ p.0, p.1)

-- `while i < len && test(bytes[i]) { i += 1 }`: the bytes passed over, and those from the new
-- cursor on.
abbrev pub span : (ℕ → Bool) → Bytes → Bytes × Bytes
span p [] = ([], [])
span p (x ∷ xs) = let more = prepend x (span p xs) in if p x then more else ([], x ∷ xs)

-- Every byte of a text passes a test.
abbrev pub all : (ℕ → Bool) → Bytes → Bool
all p [] = true
all p (x ∷ xs) = p x && all p xs

-- `a == b` on byte strings.
unfoldable pub equal : Bytes → Bytes → Bool
equal [] [] = true
equal [] (d ∷ t) = false
equal (c ∷ s) [] = false
equal (c ∷ s) (d ∷ t) = c == d && equal s t

-- The test decides equality.
pub equal_iff : (s t : Bytes) → (equal s t ≡ true) ↔ (s ≡ t)
unfolding equal
equal_iff [] [] = ground arith
equal_iff [] (d ∷ t) = ground arith
equal_iff (c ∷ s) [] = ground arith
equal_iff (c ∷ s) (d ∷ t) = ground (arith, equal_iff s t)

pub span-append : (p : ℕ → Bool) (xs : Bytes) → (span p xs).0 ++ (span p xs).1 ≡ xs
span-append p [] = refl
span-append p (x ∷ xs) = ground (arith, span-append p xs)

pub length-span_le : (p : ℕ → Bool) (xs : Bytes) → length (span p xs).1 ≤ length xs
length-span_le p [] = omega arith
length-span_le p (x ∷ xs) = ground (arith, length-span_le p xs)

pub all-span : (p : ℕ → Bool) (xs : Bytes) → all p (span p xs).0 ≡ true
all-span p [] = refl
all-span p (x ∷ xs) = ground (arith, all-span p xs)

pub head_is-span : (p : ℕ → Bool) (xs : Bytes) → head_is p (span p xs).1 ≡ false
head_is-span p [] = refl
head_is-span p (x ∷ xs) = ground (arith, head_is-span p xs)

-- A run of the class is taken whole, and the scan stops at the first byte outside it.
pub span-all :
    (p : ℕ → Bool) (xs ys : Bytes)
    → all p xs ≡ true
    → head_is p ys ≡ false
    → span p (xs ++ ys) ≡ (xs, ys)
span-all p [] [] h k = refl
span-all p [] (y ∷ ys) h k = ground arith
span-all p (x ∷ xs) ys h k = ground (arith, span-all p xs ys)

pub all-append : (p : ℕ → Bool) (xs ys : Bytes) → all p (xs ++ ys) ≡ (all p xs && all p ys)
all-append p [] ys = refl
all-append p (x ∷ xs) ys = ground (arith, all-append p xs ys)

pub ruleset lengths = (arith, length-append, length-drop, length-span_le)
