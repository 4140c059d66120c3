-- ===== src/Run/Ends.antt =====
-- Runs without a fault, and what holds of the value. Where `Ensures` lets a fault pass, `Ends` does
-- not.
use bavardage.Prelude.{◌≡◌, refl, Bool, true, false}
use bavardage.Run.{Run, ok, fault, ◌>>=◌}
use bavardage.Run.Ensures.{Ensures}

abbrev pub Ends {ℓ} : {A : Type ℓ} → (A → Type 0) → Run A → Type 0
Ends P (ok a) = P a
Ends P (fault e) = ⊥

-- There is no fault.
abbrev pub IsOk {ℓ} : {A : Type ℓ} → Run A → Type 0
IsOk m = Ends (λ _. Unit) m

module _ {ℓ ℓ₁} {A : Type ℓ} {B : Type ℓ₁} (P : A → Type 0) (Q : B → Type 0) where
  pub Ends-bind :
      (m : Run A) (f : A → Run B) → Ends P m → ((a : A) → P a → Ends Q (f a)) → Ends Q (m >>= f)
  Ends-bind (ok a) f p next = next a p
  Ends-bind (fault e) f p next = absurd p

-- A step of which the rest needs to know nothing.
pub Ends-step {ℓ ℓ₁} :
    {A : Type ℓ} {B : Type ℓ₁} (Q : B → Type 0) (m : Run A) (f : A → Run B)
    → IsOk m
    → ((a : A) → Ends Q (f a))
    → Ends Q (m >>= f)
Ends-step Q (ok a) f p next = next a
Ends-step Q (fault e) f p next = absurd p

-- Both branches of a test, each with the outcome of the test.
pub Ends-split {ℓ} :
    {A : Type ℓ} (Q : A → Type 0) (b : Bool) (m n : Run A)
    → (b ≡ true → Ends Q m)
    → (b ≡ false → Ends Q n)
    → Ends Q (elim b [ true ↦ m | false ↦ n ])
Ends-split Q true m n p q = p refl
Ends-split Q false m n p q = q refl

-- A run that ends has what it ensures.
pub Ends-Ensures {ℓ} :
    {A : Type ℓ} (P Q : A → Type 0) (m : Run A) → Ends P m → Ensures Q m → Ends Q m
Ends-Ensures P Q (ok a) p q = q
Ends-Ensures P Q (fault e) p q = absurd p

pub Ends-ok {ℓ} : {A : Type ℓ} (P : A → Type 0) (m : Run A) → Ends P m → (a : A) × (m ≡ ok a) × P a
Ends-ok P (ok a) p = (a, refl, p)
Ends-ok P (fault e) p = absurd p
