-- ===== src/Prelude/Outcome.antt =====
-- The outcome of a run of the source: a value, a panic, or (in the model alone) no fuel left.
use mathlib.Core.Path.{◌≡◌, refl, sym, ◌∙◌}
use mathlib.Core.Logic.{◌≢◌}

pub data Outcome {ℓ} (A : Type ℓ) : Type ℓ where
  ok : A → Outcome A
  panicked : Outcome A
  out_of_fuel : Outcome A

infixl 5 ◌>>=◌
abbrev pub ◌>>=◌ {ℓ κ} : {A : Type ℓ} {B : Type κ} → Outcome A → (A → Outcome B) → Outcome B
ok a >>= f = f a
panicked >>= f = panicked
out_of_fuel >>= f = out_of_fuel

-- The run ends with a value, which satisfies `P`: no panic, and fuel enough.
abbrev pub Yields {ℓ κ} : {A : Type ℓ} → (A → Type κ) → Outcome A → Type (ℓ ⊔ κ)
Yields {A} P o = (a : A) × (o ≡ ok a) × P a

-- The run ends, with a value that satisfies `P` or with a panic.
pub data Settles {ℓ κ} {A : Type ℓ} (P : A → Type κ) : Outcome A → Type (ℓ ⊔ κ) where
  settled : {a : A} → P a → Settles P (ok a)
  crashed : Settles P panicked

-- The run ends.
abbrev pub Ends {ℓ} : {A : Type ℓ} → Outcome A → Type ℓ
Ends o = Settles (λ _. Unit {0}) o

pub Settles-Ends {ℓ κ} : {A : Type ℓ} {P : A → Type κ} {o : Outcome A} → Settles P o → Ends o
Settles-Ends (settled p) = settled tt
Settles-Ends crashed = crashed

module _ {ℓ κ μ ν} {A : Type ℓ} {B : Type κ} {P : A → Type μ} {Q : B → Type ν} where
  pub Yields-bind :
      (o : Outcome A) (f : A → Outcome B)
      → Yields P o
      → ((a : A) → P a → Yields Q (f a))
      → Yields Q (o >>= f)
  Yields-bind (ok a) f (b, e, p) k = k a (subst_ok a b e p)
    where
      subst_ok : (x y : A) → ok x ≡ ok y → P y → P x
      subst_ok x y h q = mathlib.Core.Path.subst P (cc) q
  Yields-bind panicked f (b, e, p) k = cc
  Yields-bind out_of_fuel f (b, e, p) k = cc

  pub Settles-bind :
      {o : Outcome A} {f : A → Outcome B}
      → Settles P o
      → ((a : A) → P a → Settles Q (f a))
      → Settles Q (o >>= f)
  Settles-bind (settled {a} p) k = k a p
  Settles-bind crashed k = crashed

pub Settles-ne-out_of_fuel {ℓ κ} :
    {A : Type ℓ} {P : A → Type κ} {o : Outcome A} → Settles P o → o ≢ out_of_fuel
Settles-ne-out_of_fuel (settled p) = cc
Settles-ne-out_of_fuel crashed = cc

-- Two postconditions of one run.
pub Yields-Settles {ℓ κ μ} :
    {A : Type ℓ} {P : A → Type κ} {Q : A → Type μ} (o : Outcome A)
    → Yields P o
    → Settles Q o
    → Yields (λ a. P a × Q a) o
Yields-Settles {P = P} o (b, e, p) (settled {a} q) =
    (a, refl, (mathlib.Core.Path.subst P (cc) p, q))
Yields-Settles o (b, e, p) crashed = cc
