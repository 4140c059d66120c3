-- ===== src/Stdin.antt =====
-- How src/client/client-cli.c and src/client/clientsec-cli.c read a line: `fgets (mess, MAX_MESS_SIZE,
-- stdin)`, and `mess[strlen (mess) - 1] = '\0'`.
use bavardage.Prelude.{
  ℕ, zero, suc, ◌+◌, ◌-◌, ◌<◌, ◌≡◌, refl, ◌∙◌, ap, true, false, Option, none, some, [], ◌∷◌, ◌++◌,
  arith, ◌==◌, length, length-append, take,
}
use bavardage.CString.{Str}
use bavardage.Run.{Run, ok, fault, out_of_bounds, ◌>>=◌}
use bavardage.Wire.{max_mess_size}
use bavardage.Bytes.{c_str}
use bavardage.Bytes.Copying.{Lacks, c_str-append, take-append}

abbrev pub newline : Str
newline = 10 ∷ []

-- At most `n` characters of the input, up to its first newline and with it, and what is left.
unfoldable pub read_upto : ℕ → Str → Str × Str
read_upto zero s = ([], s)
read_upto (suc n) [] = ([], [])
read_upto (suc n) (c ∷ s) =
    let (line, rest) = read_upto n s in
    elim (c == 10) [ true ↦ (newline, s) | false ↦ (c ∷ line, rest) ]

-- NULL if nothing is read.
abbrev got : Str × Str → Option Str × Str
got ([], rest) = (none, rest)
got (c ∷ s, rest) = (some (c ∷ s), rest)

-- One place of the array is for the zero byte.
unfoldable pub fgets : ℕ → Str → Option Str × Str
fgets size stdin = got (read_upto (size - 1) stdin)

-- The write is at -1 if the array holds the empty string.
unfoldable pub cut_last : Str → Run Str
cut_last [] = fault out_of_bounds
cut_last (c ∷ s) = ok (take (length s) (c ∷ s))

-- The line without its last character, or none at the end of the input, and what is left.
abbrev cut : Option Str × Str → Run (Option Str × Str)
cut (none, rest) = ok (none, rest)
cut (some mess, rest) = do mess' ← cut_last (c_str mess); ok (some mess', rest)

unfoldable pub next_line : Str → Run (Option Str × Str)
next_line stdin = cut (fgets max_mess_size stdin)

read_upto-line :
    (n : ℕ) (s more : Str)
    → Lacks 10 s
    → length s < n
    → read_upto n (s ++ (10 ∷ more)) ≡ (s ++ newline, more)
unfolding read_upto
read_upto-line zero s more one fits = absurd (omega (arith, fits))
read_upto-line (suc n) [] more one fits = refl
read_upto-line (suc n) (c ∷ s) more one fits =
    rw (read_upto, one.0, read_upto-line n s more one.1 (omega (arith, fits))) refl

cut_last-newline : (s : Str) → cut_last (s ++ newline) ≡ ok s
unfolding cut_last
cut_last-newline [] = refl
cut_last-newline (c ∷ s) =
    ap ok
      (take-append (c ∷ s) newline (length (s ++ newline)) (omega (arith, length-append s newline)))

fgets-line :
    (size : ℕ) (s more : Str)
    → Lacks 10 s
    → length s + 1 < size
    → fgets size (s ++ (10 ∷ more)) ≡ (some (s ++ newline), more)
unfolding fgets
fgets-line size s more one fits =
    ap got (read_upto-line (size - 1) s more one (omega (arith, fits))) ∙ whole s
  where
    whole : (s : Str) → got (s ++ newline, more) ≡ (some (s ++ newline), more)
    whole [] = refl
    whole (c ∷ s) = refl

-- A line that fits in the array with its newline is read whole, and the input goes on behind it.
pub next_line-line :
    (s more : Str)
    → Lacks 10 s
    → Lacks 0 s
    → length s + 1 < max_mess_size
    → next_line (s ++ (10 ∷ more)) ≡ ok (some s, more)
unfolding next_line c_str
next_line-line s more one ends fits =
    ap cut (fgets-line max_mess_size s more one fits)
    ∙ rw (c_str-append s newline ends, cut_last-newline s) refl
