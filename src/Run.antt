-- ===== src/Run.antt =====
-- Runs of the C code: a value, or the undefined behaviour that ends what can be said of the run.
pub mod Ensures
pub mod Ends

-- A write past the end of an array, an index outside of a table, and an access to freed memory or
-- through a pointer that points at no object.
pub data Fault : Type 0 where
  overflow out_of_bounds use_after_free null_pointer : Fault
  -- the fuel of a loop has run out: no fault of C
  unfinished : Fault

pub data Run {ℓ} (Value : Type ℓ) : Type ℓ where
  fault : Fault → Run Value
  ok : Value → Run Value

infixl 5 ◌>>=◌
abbrev pub ◌>>=◌ {ℓ κ} :
    {Value : Type ℓ} {Next : Type κ} → Run Value → (Value → Run Next) → Run Next
fault undefined >>= next = fault undefined
ok v >>= next = next v
