-- ===== src/Macros/Expander/Free.antt =====
-- The macros that are not being expanded.
use co.Prelude.{
  ℕ, suc, ◌<◌, ◌≤◌, ◌≡◌, refl, false, List, [], ◌∷◌, Bytes, equal_iff, some, length, if◌then◌else◌,
  arith,
}
use co.Macros.Expander.{contains, remove_name}
use co.Macros.Table.{MacroDef, lookup}

-- The number of macros that a set of names leaves.
unfoldable pub free : List (Bytes × MacroDef) → List Bytes → ℕ
free [] names = 0
free ((name, d) ∷ m) names =
    let rest = free m names in if contains names name then rest else suc rest

pub free_le : (m : List (Bytes × MacroDef)) (names : List Bytes) → free m names ≤ length m
unfolding free
free_le [] names = omega arith
free_le ((name, d) ∷ m) names = ground (arith, free_le m names)

free-insert_le :
    (m : List (Bytes × MacroDef)) (n : Bytes) (names : List Bytes)
    → free m (n ∷ names) ≤ free m names
unfolding free contains
free-insert_le [] n names = omega arith
free-insert_le ((name, d) ∷ m) n names = ground (arith, free-insert_le m n names)

-- Suppressing one more macro of the table leaves fewer.
pub free-insert_lt :
    (m : List (Bytes × MacroDef)) (n : Bytes) (d : MacroDef) (names : List Bytes)
    → lookup n m ≡ some d
    → contains names n ≡ false
    → free m (n ∷ names) < free m names
unfolding free contains lookup
free-insert_lt [] n d names h k = ground arith
free-insert_lt ((name, e) ∷ m) n d names h k = ground (
  arith,
  equal_iff name n,
  equal_iff n name,
  free-insert_lt m n d names,
  free-insert_le m n names,
)

remove_name-absent :
    (n : Bytes) (names : List Bytes) → contains names n ≡ false → remove_name n names ≡ names
unfolding remove_name contains
remove_name-absent n [] h = refl
remove_name-absent n (m ∷ names) h = ground (arith, remove_name-absent n names, equal_iff m n)

pub remove_name-insert :
    (n : Bytes) (names : List Bytes) → contains names n ≡ false → remove_name n (n ∷ names) ≡ names
unfolding remove_name
remove_name-insert n names h = ground (arith, remove_name-absent n names h, equal_iff n n)
