-- ===== src/Macros/Lines/Absent.antt =====
-- Names that occur nowhere in a text.
use co.Prelude.{
  ◌≡◌, refl, Bool, true, false, not, ◌&&◌, ◌||◌, List, [], ◌∷◌, ◌++◌, Bytes, codes, equal_iff, none,
  ◌==◌, arith,
}
use co.Macros.Expander.{contains}
use co.Macros.Table.{MacroDef, lookup}

unfoldable pub starts_with : Bytes → Bytes → Bool
starts_with [] s = true
starts_with (a ∷ w) [] = false
starts_with (a ∷ w) (c ∷ s) = a == c && starts_with w s

-- `str::contains`.
unfoldable pub occurs : Bytes → Bytes → Bool
unfolding starts_with
occurs w [] = starts_with w []
occurs w (c ∷ s) = starts_with w (c ∷ s) || occurs w s

-- None of the names occurs in the text, not even as a part of a longer word.
unfoldable pub absent : List Bytes → Bytes → Bool
unfolding occurs
absent [] s = true
absent (n ∷ names) s = not (occurs n s) && absent names s

unfoldable pub keys : List (Bytes × MacroDef) → List Bytes
keys [] = []
keys ((name, d) ∷ m) = name ∷ keys m

-- The names that expansion treats by itself.
abbrev pub builtin_names : List Bytes
builtin_names = codes "_Pragma" ∷ codes "__COUNTER__" ∷ codes "__LINE__" ∷ []

starts_with-append : (w s : Bytes) → starts_with w (w ++ s) ≡ true
unfolding starts_with
starts_with-append [] s = refl
starts_with-append (a ∷ w) s = ground (arith, starts_with-append w s)

pub occurs-append : (w s : Bytes) → occurs w (w ++ s) ≡ true
unfolding occurs starts_with
occurs-append [] [] = refl
occurs-append [] (c ∷ s) = refl
occurs-append (a ∷ w) s = ground (arith, starts_with-append w s)

occurs-behind : (w x s : Bytes) → occurs w s ≡ true → occurs w (x ++ s) ≡ true
unfolding occurs
occurs-behind w [] s h = h
occurs-behind w (c ∷ x) s h = ground (arith, occurs-behind w x s h)

-- What occurs nowhere in a text occurs nowhere behind a part of it.
pub absent-behind :
    (names : List Bytes) (x s : Bytes) → absent names (x ++ s) ≡ true → absent names s ≡ true
unfolding absent
absent-behind [] x s h = refl
absent-behind (n ∷ names) x s h = ground (arith, occurs-behind n x s, absent-behind names x s)

pub contains-absent :
    (names : List Bytes) (w s : Bytes)
    → absent names s ≡ true
    → occurs w s ≡ true
    → contains names w ≡ false
unfolding absent contains
contains-absent [] w s h k = refl
contains-absent (n ∷ names) w s h k = ground (arith, equal_iff n w, contains-absent names w s)

pub lookup-keys :
    (w : Bytes) (m : List (Bytes × MacroDef)) → contains (keys m) w ≡ false → lookup w m ≡ none
unfolding keys contains lookup
lookup-keys w [] h = refl
lookup-keys w ((name, d) ∷ m) h = ground (arith, lookup-keys w m)
