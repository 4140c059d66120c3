-- ===== src/Bytes.antt =====
-- Arrays of bytes: `memcpy` into one, the C string that one begins with, and `strtok` with a single
-- separator.
pub mod Copying
use bavardage.Prelude.{
  ℕ, ◌+◌, Bool, true, false, Option, none, some, List, [], ◌∷◌, ◌++◌, ◌==◌, ltb, if◌then◌else◌,
  length, take, drop,
}
use bavardage.CString.{Str}
use bavardage.Run.{Run, ok, fault, overflow, out_of_bounds, ◌>>=◌}

-- `memcpy (array + n, bytes, length bytes)`
unfoldable pub memcpy : ℕ → Str → Str → Run Str
memcpy n bytes array =
    if ltb (length array) (n + length bytes)
    then fault overflow
    else ok (take n array ++ (bytes ++ drop (n + length bytes) array))

-- `count` bytes from `array + n` on.
unfoldable pub bytes_at : ℕ → ℕ → Str → Run Str
bytes_at n count array =
    if ltb (length array) (n + count) then fault out_of_bounds else ok (take count (drop n array))

-- What stands before the first zero byte.
unfoldable pub c_str : Str → Str
c_str [] = []
c_str (c ∷ s) = elim (c == 0) [ true ↦ [] | false ↦ c ∷ c_str s ]

-- `strcpy` and `strcat` of a C string into the array.
unfoldable pub strcpy_into : Str → Str → Run Str
strcpy_into array s = memcpy 0 (s ++ (0 ∷ [])) array

unfoldable pub strcat_into : Str → Str → Run Str
strcat_into array s = memcpy (length (c_str array)) (s ++ (0 ∷ [])) array

-- The characters up to the next separator.
unfoldable pub token_from : ℕ → Str → Str
token_from sep [] = []
token_from sep (c ∷ s) = elim (c == sep) [ true ↦ [] | false ↦ c ∷ token_from sep s ]

-- The first call of `strtok`: separators at the front are skipped, and without a token it is NULL.
unfoldable pub strtok_first : ℕ → Str → Option Str
strtok_first sep [] = none
strtok_first sep (c ∷ s) = elim (c == sep) [
  | true ↦ strtok_first sep s
  | false ↦ some (c ∷ token_from sep s)
]
