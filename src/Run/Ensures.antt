-- ===== src/Run/Ensures.antt =====
-- A postcondition of the runs that end normally, with its rule for sequences.
use mathlib.Core.Path.{subst}
use bavardage.Prelude.{◌≡◌, refl, Bool, true, false}
use bavardage.Run.{Fault, Run, ok, fault, ◌>>=◌}

abbrev pub Ensures {ℓ κ} : {A : Type ℓ} → (A → Type κ) → Run A → Type κ
Ensures P (ok a) = P a
Ensures P (fault e) = Unit

module _ {ℓ κ ℓ₁ κ₁} {A : Type ℓ} {B : Type ℓ₁} (P : A → Type κ) (Q : B → Type κ₁) where
  pub Ensures-bind :
      (m : Run A) (f : A → Run B)
      → Ensures P m
      → ((a : A) → P a → Ensures Q (f a))
      → Ensures Q (m >>= f)
  Ensures-bind (ok a) f p next = next a p
  Ensures-bind (fault e) f p next = tt

-- A step of which the rest needs to know nothing.
pub Ensures-step {ℓ κ₁ ℓ₁} :
    {A : Type ℓ} {B : Type ℓ₁} (Q : B → Type κ₁) (m : Run A) (f : A → Run B)
    → ((a : A) → Ensures Q (f a))
    → Ensures Q (m >>= f)
Ensures-step Q (ok a) f next = next a
Ensures-step Q (fault e) f next = tt

pub Ensures-ok {ℓ κ} :
    {A : Type ℓ} (P : A → Type κ) (m : Run A) (a : A) → Ensures P m → m ≡ ok a → P a
Ensures-ok P (ok b) a p e = subst P (cc) p
Ensures-ok P (fault f) a p e = cc

-- Both branches of a test.
pub Ensures-cases {ℓ κ} :
    {A : Type ℓ} (Q : A → Type κ) (b : Bool) (m n : Run A)
    → Ensures Q m
    → Ensures Q n
    → Ensures Q (elim b [ true ↦ m | false ↦ n ])
Ensures-cases Q true m n p q = p
Ensures-cases Q false m n p q = q

-- A run that cannot end normally ends in a fault.
pub Ensures-never {ℓ} : {A : Type ℓ} (m : Run A) → Ensures (λ _. ⊥) m → (e : Fault) × (m ≡ fault e)
Ensures-never (ok a) p = absurd p
Ensures-never (fault e) p = (e, refl)

-- A step whose result the rest needs to know.
pub Ensures-bind_eq {ℓ κ₁ ℓ₁} :
    {A : Type ℓ} {B : Type ℓ₁} (Q : B → Type κ₁) (m : Run A) (f : A → Run B)
    → ((a : A) → m ≡ ok a → Ensures Q (f a))
    → Ensures Q (m >>= f)
Ensures-bind_eq Q (ok a) f next = next a refl
Ensures-bind_eq Q (fault e) f next = tt

-- Both branches of a test, each with the outcome of the test.
pub Ensures-split {ℓ κ} :
    {A : Type ℓ} (Q : A → Type κ) (b : Bool) (m n : Run A)
    → (b ≡ true → Ensures Q m)
    → (b ≡ false → Ensures Q n)
    → Ensures Q (elim b [ true ↦ m | false ↦ n ])
Ensures-split Q true m n p q = p refl
Ensures-split Q false m n p q = q refl

pub Ensures-mono {ℓ κ κ₁} :
    {A : Type ℓ} (P : A → Type κ) (Q : A → Type κ₁) (m : Run A)
    → Ensures P m
    → ((a : A) → P a → Q a)
    → Ensures Q m
Ensures-mono P Q (ok a) p f = f a p
Ensures-mono P Q (fault e) p f = tt
