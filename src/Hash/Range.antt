-- ===== src/Hash/Range.antt =====
-- Where the hash lies: never outside of the machine's `int`, always below the size in magnitude,
-- an index for the logins that the server accepts, and negative for many others.
use bavardage.Prelude.{
  ℕ, ◌+◌, ◌-◌, ◌*◌, ◌%◌, ◌<◌, ◌^◌, ◌≡◌, refl, ◌⊎◌, inl, inr, true, [], ◌∷◌, arith, Bool-cases,
}
use bavardage.Prelude.Int.{ℤ, pos, negsuc, pos_part, neg_part, tmod, ◌+ℤ◌, ◌*ℤ◌}
use mathlib.Core.Bool.{false≢true}
use bavardage.CString.{Str}
use bavardage.Hash.{
  hash_user_map_size, digit_value, hash_sum, hash_from, hash_user, hash_room_name, is_alnum,
  is_login_valid,
}

abbrev pub magnitude : ℤ → ℕ
magnitude z = pos_part z + neg_part z

magnitude-tmod : (z : ℤ) (size : ℕ) → 0 < size → magnitude (tmod z size) < size
unfolding tmod
magnitude-tmod (pos n) size h = ground arith
magnitude-tmod (negsuc n) size h = ground arith

magnitude-hash_from :
    (size : ℕ) (hash : ℤ) (s : Str)
    → magnitude hash < size
    → magnitude (hash_from size hash s) < size
unfolding hash_from
magnitude-hash_from size hash [] h = h
magnitude-hash_from size hash (c ∷ s) h =
    magnitude-hash_from size (tmod (hash_sum hash c) size) s
      (magnitude-tmod (hash_sum hash c) size (omega arith))

-- The hash of any login and of any room name is smaller than the table in magnitude.
pub hash_bounds :
    (s : Str)
    → (magnitude (hash_user s) < hash_user_map_size)
      × (magnitude (hash_room_name s) < hash_user_map_size)
unfolding hash_user hash_room_name
hash_bounds s = (
  magnitude-hash_from 1997 (pos 0) s (omega arith),
  magnitude-hash_from 1997 (pos 0) s (omega arith),
)

magnitude-digit : (c : ℕ) → c < 256 → magnitude (digit_value c) < 256
unfolding digit_value
magnitude-digit c h = ground arith

-- From a hash that the loop can hold, the next sum of a byte fits in a 32-bit `int`.
pub hash_sum-fits :
    (hash : ℤ) (c : ℕ)
    → magnitude hash < hash_user_map_size
    → c < 256
    → magnitude (hash_sum hash c) < 2 ^ 31
unfolding hash_sum ◌*ℤ◌ ◌+ℤ◌
hash_sum-fits (pos n) c h b = ground (arith, magnitude-digit c)
hash_sum-fits (negsuc n) c h b = ground (arith, magnitude-digit c)

digit-nonneg : (c : ℕ) → is_alnum c ≡ true → (n : ℕ) × (digit_value c ≡ pos n)
unfolding digit_value is_alnum
digit-nonneg c h = (pos_part (digit_value c), ground arith)

hash_sum-nonneg : (n c : ℕ) → is_alnum c ≡ true → (m : ℕ) × (hash_sum (pos n) c ≡ pos m)
unfolding hash_sum ◌*ℤ◌ ◌+ℤ◌
hash_sum-nonneg n c h = let (d, e) = digit-nonneg c h in (n * 100 + d, rw e (ground arith))

hash_from-nonneg :
    (size n : ℕ) (s : Str) → is_login_valid s ≡ true → (m : ℕ) × (hash_from size (pos n) s ≡ pos m)
unfolding hash_from is_login_valid tmod
hash_from-nonneg size n [] h = (n, refl)
hash_from-nonneg size n (c ∷ s) h = elim (Bool-cases (is_alnum c)) [
  | inl good ↦
      let (m, e) = hash_sum-nonneg n c good in
      rw e (hash_from-nonneg size (m % size) s (rw good at h))
  | inr bad ↦ absurd (false≢true (rw bad at h))
]

-- A string of letters and digits hashes to an index of the user table and of the room table.
pub hash-index :
    (s : Str)
    → is_login_valid s ≡ true
    → (n : ℕ) × (hash_user s ≡ pos n) × (hash_room_name s ≡ pos n) × (n < hash_user_map_size)
unfolding hash_user hash_room_name
hash-index s h =
    let (n, e) = hash_from-nonneg 1997 0 s h in
    let below : magnitude (hash_from 1997 (pos 0) s) < 1997 =
      magnitude-hash_from 1997 (pos 0) s (omega arith) in
    (n, e, e, omega (arith, rw e at below))

-- A name of one byte below `'0'` (a space, a dash, a dot) or above 127 has a negative hash.
pub hash-negative :
    (c : ℕ)
    → c < 256
    → (c < b'0') ⊎ (127 < c)
    → (n : ℕ) × (hash_user (c ∷ []) ≡ negsuc n) × (hash_room_name (c ∷ []) ≡ negsuc n)
unfolding hash_user hash_room_name hash_from hash_sum digit_value ◌*ℤ◌ ◌+ℤ◌ tmod
hash-negative c b (inl low) = (54 - c, ground arith, ground arith)
hash-negative c b (inr high) = (310 - c, ground arith, ground arith)
