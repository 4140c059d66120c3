-- ===== src/SecureClient/Integrity.antt =====
-- What `aes_decrypt` of src/client/libclientsec.c lets through.
use bavardage.Prelude.{
  ℕ, ◌+◌, ◌≡◌, refl, sym, ◌∙◌, true, ◌⊎◌, inl, inr, [], ◌∷◌, Bool-cases, arith, length, take, drop,
  ltb, if◌then◌else◌,
}
use bavardage.CString.{Str}
use bavardage.Run.{ok, ◌>>=◌}
use bavardage.Run.Ensures.{Ensures, Ensures-bind, Ensures-step}
use bavardage.Bytes.{bytes_at}
use bavardage.Bytes.Copying.{length-take, length-drop, le_of_ltb}
use bavardage.Rooms.{Keys}
use bavardage.SecureClient.Cipher.{
  Crypto, Chance, hmac_size, salt_size, returned, check_loop, compute_hmac, check_hmac, aes_decrypt,
  corrupted,
}

-- Arrays of one size that pass the loop are the same.
check_loop-equal :
    (out hmac : Str) → length out ≡ length hmac → check_loop out hmac ≡ true → out ≡ hmac
unfolding check_loop
check_loop-equal [] [] size same = refl
check_loop-equal [] (h ∷ hmac) size same = absurd (omega (arith, size))
check_loop-equal (o ∷ out) [] size same = absurd (omega (arith, size))
check_loop-equal (o ∷ out) (h ∷ hmac) size same =
    ground (arith, check_loop-equal out hmac, size, same)

bytes_at-ok :
    (n count : ℕ) (a : Str)
    → Ensures (λ b. (b ≡ take count (drop n a)) × (length b ≡ count)) (bytes_at n count a)
unfolding bytes_at
bytes_at-ok n count a = elim (Bool-cases (ltb (length a) (n + count))) [
  | inl long ↦ rw long tt
  | inr short ↦ rw short (
    refl,
    length-take count (drop n a)
        (omega (arith, length-drop n a, le_of_ltb (length a) (n + count) short)),
  )
]

module _ (C : Crypto) (fits : (key text : Str) → length (C.hmac key text) ≡ hmac_size)
    (chance : Chance) (k : Keys) where
  -- What the last lines of `aes_decrypt` give, from the decrypted text and the hash of the packet.
  abbrev Authentic : Str → Str → Type 0
  Authentic hmac r = (r ≡ corrupted) ⊎ (hmac ≡ C.hmac k.hash_key r)

  checked :
      (hmac plaintext : Str)
      → length hmac ≡ hmac_size
      → Ensures (Authentic hmac) (
          check_hmac C chance k.hash_key plaintext hmac >>= λ check.
          ok (if check then plaintext else corrupted))
  unfolding check_hmac compute_hmac returned
  checked hmac plaintext size = elim (Bool-cases chance.keeps) [
    | inr lost ↦ rw lost tt
    | inl kept ↦ elim (Bool-cases (check_loop (C.hmac k.hash_key plaintext) hmac)) [
      | inl same ↦
          rw (kept, ◌>>=◌, same)
            (inr (
              sym (
                check_loop-equal (C.hmac k.hash_key plaintext) hmac
                  (fits k.hash_key plaintext ∙ sym size) same)))
      | inr apart ↦ rw (kept, ◌>>=◌, apart) (inl refl)
    ]
  ]

  -- Whatever comes in: what `aes_decrypt` returns is the notice that the message is corrupted, or a
  -- text whose hash under the key of the room is what the message begins with. For a hash of 20
  -- bytes; a message that is too short is a fault.
  pub aes_decrypt-authentic :
      (ciphertext : Str) (len : ℕ)
      → Ensures
          (λ r. (r ≡ corrupted) ⊎ (take hmac_size ciphertext ≡ C.hmac k.hash_key r))
          (aes_decrypt C chance k ciphertext len)
  unfolding aes_decrypt
  aes_decrypt-authentic ciphertext len =
      let P : Str → Type 0 =
        λ r. (r ≡ corrupted) ⊎ (take hmac_size ciphertext ≡ C.hmac k.hash_key r) in
      Ensures-bind _ P (bytes_at 0 hmac_size ciphertext) _ (bytes_at-ok 0 hmac_size ciphertext)
        λ hmac (start, size). Ensures-step P (bytes_at hmac_size salt_size ciphertext) _ λ salt.
          Ensures-step P (bytes_at (hmac_size + salt_size) len ciphertext) _
            λ body. rw (sym start) (checked hmac _ size)
