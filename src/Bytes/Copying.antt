-- ===== src/Bytes/Copying.antt =====
-- Copies into an array whose parts are known, and what is read back from them.
use bavardage.Prelude.{
  ℕ, zero, suc, All, ◌+◌, ◌-◌, ◌<◌, ◌≤◌, ◌≡◌, refl, ap, true, false, some, [], ◌∷◌, ◌++◌, arith,
  ◌==◌, ltb, length, length-append, take, drop, ==_refl, Bool-cases, inl, inr, lt→ltb,
}
use mathlib.Core.List.{append_assoc}
use bavardage.CString.{Str}
use bavardage.Run.{ok, fault, overflow}
use bavardage.Run.Ensures.{Ensures}
use bavardage.Bytes.{memcpy, bytes_at, c_str, token_from, strtok_first}

pub take-append : (p a : Str) (n : ℕ) → n ≡ length p → take n (p ++ a) ≡ p
take-append [] a zero e = refl
take-append [] a (suc n) e = absurd (omega (arith, e))
take-append (c ∷ p) a zero e = absurd (omega (arith, e))
take-append (c ∷ p) a (suc n) e = ap (λ (x : Str). c ∷ x) (take-append p a n (omega (arith, e)))

pub drop-append : (p a : Str) (n k : ℕ) → k ≡ length p + n → drop k (p ++ a) ≡ drop n a
drop-append [] a n k e = let same : k ≡ n = omega (arith, e) in ap (λ (i : ℕ). drop i a) same
drop-append (c ∷ p) a n zero e = absurd (omega (arith, e))
drop-append (c ∷ p) a n (suc k) e = drop-append p a n k (omega (arith, e))

pub length-drop : (n : ℕ) (a : Str) → length (drop n a) ≡ length a - n
length-drop zero a = omega arith
length-drop (suc n) [] = omega arith
length-drop (suc n) (c ∷ a) = omega (arith, length-drop n a)

ltb-of_le : (a b : ℕ) → b ≤ a → ltb a b ≡ false
ltb-of_le a b h = ground arith

-- A copy behind the part `p`.
pub memcpy-behind :
    (p a bytes : Str) (n : ℕ)
    → n ≡ length p
    → length bytes ≤ length a
    → memcpy n bytes (p ++ a) ≡ ok (p ++ (bytes ++ drop (length bytes) a))
unfolding memcpy
memcpy-behind p a bytes n e fits =
    rw
      (
        ltb-of_le (length (p ++ a)) (n + length bytes) (omega (arith, length-append p a, e)),
        take-append p a n e,
        drop-append p a (length bytes) (n + length bytes) (omega (arith, e)),
      )
      refl

-- What stands behind the part `p`.
pub bytes_at-behind :
    (p bytes a : Str) (n count : ℕ)
    → n ≡ length p
    → count ≡ length bytes
    → bytes_at n count (p ++ (bytes ++ a)) ≡ ok bytes
unfolding bytes_at
bytes_at-behind p bytes a n count e f =
    rw
      (
        ltb-of_le (length (p ++ (bytes ++ a))) (n + count)
            (omega (arith, length-append p (bytes ++ a), length-append bytes a, e, f)),
        drop-append p (bytes ++ a) 0 n (omega (arith, e)),
        take-append bytes a count f,
      )
      refl

-- A string without the byte `b`.
abbrev pub Lacks : ℕ → Str → Type 0
Lacks b s = All (λ c. (c == b) ≡ false) s

pub c_str-ends : (s a : Str) → Lacks 0 s → c_str (s ++ (0 ∷ a)) ≡ s
unfolding c_str
c_str-ends [] a h = refl
c_str-ends (c ∷ s) a h = rw (h.0, c_str) (ap (λ (x : Str). c ∷ x) (c_str-ends s a h.1))

pub c_str-append : (s a : Str) → Lacks 0 s → c_str (s ++ a) ≡ s ++ c_str a
unfolding c_str
c_str-append [] a h = refl
c_str-append (c ∷ s) a h = rw (h.0, c_str) (ap (λ (x : Str). c ∷ x) (c_str-append s a h.1))

token_from-ends : (sep : ℕ) (s a : Str) → Lacks sep s → token_from sep (s ++ (sep ∷ a)) ≡ s
unfolding token_from
token_from-ends sep [] a h = rw (==_refl, token_from) refl
token_from-ends sep (c ∷ s) a h =
    rw (h.0, token_from) (ap (λ (x : Str). c ∷ x) (token_from-ends sep s a h.1))

-- The first token is what stands before the first separator.
pub strtok_first-ends :
    (sep c : ℕ) (s a : Str)
    → Lacks sep (c ∷ s)
    → strtok_first sep ((c ∷ s) ++ (sep ∷ a)) ≡ some (c ∷ s)
unfolding strtok_first
strtok_first-ends sep c s a h =
    rw (h.0, strtok_first) (ap (λ (x : Str). some (c ∷ x)) (token_from-ends sep s a h.1))

pub length-take : (n : ℕ) (a : Str) → n ≤ length a → length (take n a) ≡ n
length-take zero a h = omega arith
length-take (suc n) [] h = omega (arith, h)
length-take (suc n) (c ∷ a) h = omega (arith, length-take n a (omega (arith, h)))

pub take-prefix : (p a : Str) (n k : ℕ) → k ≡ length p + n → take k (p ++ a) ≡ p ++ take n a
take-prefix [] a n k e = let same : k ≡ n = omega (arith, e) in ap (λ (i : ℕ). take i a) same
take-prefix (c ∷ p) a n zero e = absurd (omega (arith, e))
take-prefix (c ∷ p) a n (suc k) e = ap (λ (x : Str). c ∷ x) (take-prefix p a n k (omega (arith, e)))

pub le_of_ltb : (a b : ℕ) → ltb a b ≡ false → b ≤ a
le_of_ltb a b h = ground arith

lt_of_ltb : (a b : ℕ) → ltb a b ≡ true → a < b
lt_of_ltb a b h = ground arith

length-copied :
    (n : ℕ) (bytes a : Str)
    → n + length bytes ≤ length a
    → length (take n a ++ (bytes ++ drop (n + length bytes) a)) ≡ length a
length-copied n bytes a fits = omega (
  arith,
  length-append (take n a) (bytes ++ drop (n + length bytes) a),
  length-append bytes (drop (n + length bytes) a),
  length-take n a (omega (arith, fits)),
  length-drop (n + length bytes) a,
  fits,
)

-- A copy leaves what stands before it, and the size of the array.
pub memcpy-keeps :
    (p a bytes : Str) (n : ℕ)
    → length p ≤ n
    → n + length bytes ≤ length p + length a
    → (z : Str) × (memcpy n bytes (p ++ a) ≡ ok (p ++ z)) × (length z ≡ length a)
unfolding memcpy
memcpy-keeps p a bytes n after fits =
    let k : ℕ = n - length p in
    let z : Str = take k a ++ (bytes ++ drop (k + length bytes) a) in
    (
      z,
      rw
          (
            ltb-of_le (length (p ++ a)) (n + length bytes) (omega (arith, length-append p a, fits)),
            take-prefix p a k n (omega (arith, after)),
            drop-append p a (k + length bytes) (n + length bytes) (omega (arith, after)),
          )
          (ap (λ (x : Str). ok x) (append_assoc p (take k a) (bytes ++ drop (k + length bytes) a))),
      length-copied k bytes a (omega (arith, fits, after)),
    )

-- Whatever is copied, an array has the size that it had.
pub memcpy-size :
    (size n : ℕ) (bytes a : Str)
    → length a ≤ size
    → Ensures (λ b. length b ≤ size) (memcpy n bytes a)
unfolding memcpy
memcpy-size size n bytes a h = elim (Bool-cases (ltb (length a) (n + length bytes))) [
  | inl long ↦ rw long tt
  | inr short ↦
      rw short
        (omega (arith, h, length-copied n bytes a (le_of_ltb (length a) (n + length bytes) short)))
]

-- A copy past the end does not come back.
pub memcpy-overflow :
    (n : ℕ) (bytes a : Str) → length a < n + length bytes → memcpy n bytes a ≡ fault overflow
unfolding memcpy
memcpy-overflow n bytes a h = rw (lt→ltb (length a) (n + length bytes) h)
