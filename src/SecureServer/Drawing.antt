-- ===== src/SecureServer/Drawing.antt =====
-- The random keys and strings of src/serversec/secure_server.c, over parameters for `RAND_bytes` of
-- OpenSSL and for `rand`.
use bavardage.Prelude.{
  ℕ, zero, suc, ◌+◌, ◌%◌, ◌<◌, ◌≡◌, Bool, true, ◌&&◌, ◌||◌, Option, none, some, [], ◌∷◌, arith,
  Bool-cases, Option-cases, inl, inr, length, take, leb, if◌then◌else◌,
}
use bavardage.CString.{Str}
use bavardage.Run.{Run, ok, fault, unfinished, ◌>>=◌}
use bavardage.Run.Ensures.{Ensures}
use bavardage.Run.Ends.{IsOk}
use bavardage.Bytes.Copying.{length-take}
use bavardage.Rooms.{Keys}

-- `RAND_bytes` at its `i`-th call, for so many bytes; a failure is `none`.
module _ (rand_bytes : ℕ → ℕ → Option Str) where
  -- `abort` is `none`.
  unfoldable pub spc_rand : ℕ → ℕ → Option Str
  spc_rand i l = rand_bytes i l

  unfoldable pub gen_keys : ℕ → Option Keys
  gen_keys i = elim (spc_rand i 32) [
    | none ↦ none
    | some master ↦ elim (spc_rand (i + 1) 16) [
      | none ↦ none
      | some hash ↦ some (record { master_key = take 32 master; hash_key = take 16 hash })
    ]
  ]

-- The `do … while` around `rand ()`: the next number that is accepted, and the calls made. The fuel
-- bounds the calls.
unfoldable pub draw : (ℕ → ℕ) → ℕ → (ℕ → Bool) → ℕ → ℕ → Run (ℕ × ℕ)
draw rand modulus accepts zero i = fault unfinished
draw rand modulus accepts (suc fuel) i =
    let again = draw rand modulus accepts fuel (i + 1) in
    let c = rand i % modulus in if accepts c then ok (c, i + 1) else again

-- So many numbers, each drawn like that.
unfoldable pub draw_all : (ℕ → ℕ) → ℕ → (ℕ → Bool) → ℕ → ℕ → ℕ → Run (Str × ℕ)
draw_all rand modulus accepts fuel zero i = ok ([], i)
draw_all rand modulus accepts fuel (suc n) i = do
  (c, i₁) ← draw rand modulus accepts fuel i
  (str, i₂) ← draw_all rand modulus accepts fuel n i₁
  ok (c ∷ str, i₂)

abbrev pub is_letter : ℕ → Bool
is_letter c = (leb b'A' c && leb c b'Z') || (leb b'a' c && leb c b'z')

unfoldable pub random_string : (ℕ → ℕ) → ℕ → ℕ → Run (Str × ℕ)
random_string rand fuel n = draw_all rand b'z' is_letter fuel n 0

unfoldable pub random_int : (ℕ → ℕ) → ℕ → Run (Str × ℕ)
random_int rand fuel = draw_all rand 1000000 (λ v. leb 10000 v && leb v 99999) fuel 2 0

-- The keys have the 32 and 16 bytes of their arrays, if `RAND_bytes` fills what it is given.
pub gen_keys-lengths :
    (rand_bytes : ℕ → ℕ → Option Str) (i : ℕ) (k : Keys)
    → ((j l : ℕ) (b : Str) → rand_bytes j l ≡ some b → length b ≡ l)
    → gen_keys rand_bytes i ≡ some k
    → (length k.master_key ≡ 32) × (length k.hash_key ≡ 16)
unfolding gen_keys spc_rand
gen_keys-lengths rand_bytes i k fills drawn = elim (Option-cases (rand_bytes i 32)) [
  | inl none_left ↦ let never : none ≡ some k = rw (none_left, gen_keys) at drawn in cc
  | inr (master, e) ↦ elim (Option-cases (rand_bytes (i + 1) 16)) [
    | inl none_left ↦ let never : none ≡ some k = rw (e, none_left, gen_keys) at drawn in cc
    | inr (hash, f) ↦
        let made : some (record { master_key = take 32 master; hash_key = take 16 hash }) ≡ some k =
          rw (e, f, gen_keys) at drawn in
        let same : record { master_key = take 32 master; hash_key = take 16 hash } ≡ k = cc in
        (
          rw (← same) (length-take 32 master (omega (arith, fills i 32 master e))),
          rw (← same) (length-take 16 hash (omega (arith, fills (i + 1) 16 hash f))),
        )
  ]
]

-- Each number drawn was accepted, and there are as many as were asked for.
pub draw-accepts :
    (rand : ℕ → ℕ) (modulus : ℕ) (accepts : ℕ → Bool) (fuel i : ℕ)
    → Ensures (λ r. accepts r.0 ≡ true) (draw rand modulus accepts fuel i)
unfolding draw
draw-accepts rand modulus accepts zero i = tt
draw-accepts rand modulus accepts (suc fuel) i = elim (Bool-cases (accepts (rand i % modulus))) [
  | inl good ↦ rw (good, draw) good
  | inr bad ↦ rw (bad, draw) (draw-accepts rand modulus accepts fuel (i + 1))
]

-- Enough fuel: a number that is accepted comes before it runs out.
pub draw-ends :
    (rand : ℕ → ℕ) (modulus : ℕ) (accepts : ℕ → Bool) (fuel i k : ℕ)
    → k < fuel
    → accepts (rand (i + k) % modulus) ≡ true
    → IsOk (draw rand modulus accepts fuel i)
unfolding draw
draw-ends rand modulus accepts zero i k short good = absurd (omega (arith, short))
draw-ends rand modulus accepts (suc fuel) i zero short good =
    let here : i + 0 ≡ i = omega arith in
    let now : accepts (rand i % modulus) ≡ true = rw here at good in rw (now, draw) tt
draw-ends rand modulus accepts (suc fuel) i (suc k) short good =
    elim (Bool-cases (accepts (rand i % modulus))) [
      | inl now ↦ rw (now, draw) tt
      | inr later ↦
          let same : i + suc k ≡ i + 1 + k = omega arith in
          rw (later, draw)
            (draw-ends rand modulus accepts fuel (i + 1) k (omega (arith, short)) (rw same at good))
    ]
