-- ===== src/Macros/Table/Laws.antt =====
-- The macro table as a map, and `__FILE__`.
use co.Prelude.{
  Bool, false, ◌↔◌, ◌≡◌, refl, ◌∙◌, true, List, [], ◌∷◌, Bytes, codes, equal, equal_iff, none, some,
  if◌then◌else◌, arith, ◌||◌,
}
use co.Macros.Table.{
  MacroDef, MacroTable, lookup, insert, remove, define, undefine, get, is_defined, is_operator_name,
}

module _ {ℓ} {V : Type ℓ} where
  pub lookup-insert :
      (k j : Bytes) (v : V) (m : List (Bytes × V))
      → lookup j (insert k v m) ≡ (if equal k j then some v else lookup j m)
  unfolding lookup insert
  lookup-insert k j v [] = refl
  lookup-insert k j v ((i, w) ∷ m) =
      ground (arith, equal_iff k j, equal_iff i k, equal_iff i j, lookup-insert k j v m)

  pub lookup-remove :
      (k j : Bytes) (m : List (Bytes × V))
      → lookup j (remove k m) ≡ (if equal k j then none else lookup j m)
  unfolding lookup remove
  lookup-remove k j [] = ground arith
  lookup-remove k j ((i, w) ∷ m) =
      ground (arith, equal_iff k j, equal_iff i k, equal_iff i j, lookup-remove k j m)

-- `#define` and `#undef` change what `get` finds under their own name and nothing else.
pub get-define-undefine :
    (t : MacroTable) (d : MacroDef) (name other : Bytes)
    → (get (define t d) other ≡ (if equal d.name other then some d else get t other))
      × (get (undefine t name) other ≡ (if equal name other then none else get t other))
unfolding get define undefine
get-define-undefine t d name other =
    (lookup-insert d.name other d t.macros, lookup-remove name other t.macros)

equal_self : (a : Bytes) → equal a a ≡ true
equal_self a = (equal_iff a a).1 refl

get_undefined : (t : MacroTable) (name : Bytes) → get (undefine t name) name ≡ none
unfolding get undefine
get_undefined t name = lookup-remove name name t.macros ∙ rw (equal_self name)

-- The names that no `#undef` removes.
pub data IsBuiltin (name : Bytes) : Type 0 where
  counter : name ≡ codes "__COUNTER__" → IsBuiltin name
  line : name ≡ codes "__LINE__" → IsBuiltin name
  has_builtin : name ≡ codes "__has_builtin" → IsBuiltin name
  has_attribute : name ≡ codes "__has_attribute" → IsBuiltin name
  has_feature : name ≡ codes "__has_feature" → IsBuiltin name
  has_extension : name ≡ codes "__has_extension" → IsBuiltin name
  has_include : name ≡ codes "__has_include" → IsBuiltin name
  has_include_next : name ≡ codes "__has_include_next" → IsBuiltin name

or_true : (b : Bool) → (b || true) ≡ true
or_true true = refl
or_true false = refl

builtin-defined : (t : MacroTable) (name : Bytes) → IsBuiltin name → is_defined t name ≡ true
unfolding is_defined is_operator_name equal
builtin-defined t name (counter e) = rw e refl
builtin-defined t name (line e) = rw e refl
builtin-defined t name (has_builtin e) = rw e (or_true _)
builtin-defined t name (has_attribute e) = rw e (or_true _)
builtin-defined t name (has_feature e) = rw e (or_true _)
builtin-defined t name (has_extension e) = rw e (or_true _)
builtin-defined t name (has_include e) = rw e (or_true _)
builtin-defined t name (has_include_next e) = rw e (or_true _)

or-eq-true {ℓ} : {P : Type ℓ} (a b : Bool) → (a ≡ true → P) → (b ≡ true → P) → (a || b) ≡ true → P
or-eq-true true b f g h = f refl
or-eq-true false b f g h = g h

-- The last of some tests on the name.
either :
    (name word : Bytes) (before : Bool)
    → (before ≡ true → IsBuiltin name)
    → (name ≡ word → IsBuiltin name)
    → (before || equal name word) ≡ true
    → IsBuiltin name
either name word before f g =
    or-eq-true before (equal name word) f λ h. g ((equal_iff name word).0 h)

first :
    (name word : Bytes) → (name ≡ word → IsBuiltin name) → equal name word ≡ true → IsBuiltin name
first name word g h = g ((equal_iff name word).0 h)

operator : (name : Bytes) → is_operator_name name ≡ true → IsBuiltin name
unfolding is_operator_name
operator name h =
    either name (codes "__has_include_next") _
      (either name (codes "__has_include") _
        (either name (codes "__has_extension") _
          (either name (codes "__has_feature") _
            (either name (codes "__has_attribute") _
              (first name (codes "__has_builtin") has_builtin) has_attribute)
            has_feature)
          has_extension)
        has_include)
      has_include_next h

-- The test that is left where the table has no entry.
builtin :
    (name : Bytes)
    → (equal name (codes "__COUNTER__")
        || equal name (codes "__LINE__")
        || false
        || is_operator_name name)
      ≡ true
    → IsBuiltin name
builtin name =
    or-eq-true (equal name (codes "__COUNTER__") || equal name (codes "__LINE__") || false)
      (is_operator_name name)
      (or-eq-true (equal name (codes "__COUNTER__") || equal name (codes "__LINE__")) false
        (either name (codes "__LINE__") (equal name (codes "__COUNTER__"))
          (first name (codes "__COUNTER__") counter) line)
        (λ h. cc h))
      (operator name)

get_defined : (t : MacroTable) (d : MacroDef) → get (define t d) d.name ≡ some d
unfolding get define
get_defined t d = lookup-insert d.name d.name d t.macros ∙ rw (equal_self d.name)

-- A name is defined behind its `#define`, whatever it was, and behind its `#undef` just where it is
-- one of the eight built-in names.
pub is_defined-define-undefine :
    (t : MacroTable) (d : MacroDef) (name : Bytes)
    → (is_defined (define t d) d.name ≡ true)
      × ((is_defined (undefine t name) name ≡ true) ↔ IsBuiltin name)
unfolding is_defined is_operator_name
is_defined-define-undefine t d name = (
  rw (get_defined t d) (ground arith),
  (λ h. builtin name (rw (get_undefined t name) at h), builtin-defined (undefine t name) name),
)
