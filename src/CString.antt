-- ===== src/CString.antt =====
-- C strings: the bytes before the terminator. `strcmp (a, b) == 0` is `str_eq`, and `strcpy` into
-- an array of `n` chars overruns it when the source has `n` bytes or more.
use bavardage.Prelude.{
  ℕ, ◌≡◌, refl, Bool, true, false, ◌&&◌, List, [], ◌∷◌, arith, ◌==◌, ltb, if◌then◌else◌, length,
}
use Prim.Native.Char.{code}
use Prim.Native.String.{String}
use bavardage.Run.{Run, ok, fault, overflow}

abbrev pub Str : Type 0
Str = List ℕ

-- The bytes of an ASCII literal.
abbrev pub codes : String → Str
codes String.[] = []
codes (String.◌∷◌ c s) = code c ∷ codes s

unfoldable pub str_eq : Str → Str → Bool
str_eq [] [] = true
str_eq [] (b ∷ t) = false
str_eq (a ∷ s) [] = false
str_eq (a ∷ s) (b ∷ t) = (a == b) && str_eq s t

unfoldable pub strcpy : ℕ → Str → Run Str
strcpy size source = if ltb (length source) size then ok source else fault overflow

pub str_eq_refl : (s : Str) → str_eq s s ≡ true
unfolding str_eq
str_eq_refl [] = refl
str_eq_refl (a ∷ s) = ground (arith, str_eq_refl s)

pub eq_of_str_eq : (s t : Str) → str_eq s t ≡ true → s ≡ t
unfolding str_eq
eq_of_str_eq [] [] h = refl
eq_of_str_eq [] (b ∷ t) h = ground arith
eq_of_str_eq (a ∷ s) [] h = ground arith
eq_of_str_eq (a ∷ s) (b ∷ t) h = ground (arith, eq_of_str_eq s t)

pub str_eq_comm : (s t : Str) → str_eq s t ≡ str_eq t s
unfolding str_eq
str_eq_comm [] [] = refl
str_eq_comm [] (b ∷ t) = refl
str_eq_comm (a ∷ s) [] = refl
str_eq_comm (a ∷ s) (b ∷ t) = ground (arith, str_eq_comm s t)
