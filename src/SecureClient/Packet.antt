-- ===== src/SecureClient/Packet.antt =====
-- The packet that `aes_encrypt` of src/client/libclientsec.c makes, and what `aes_decrypt` reads out
-- of an array that begins like it.
use bavardage.Prelude.{
  ℕ, zero, suc, ◌+◌, ◌-◌, ◌*◌, ◌/◌, ◌<◌, ◌≤◌, ◌≡◌, refl, sym, ◌∙◌, ap, true, [], ◌∷◌, ◌++◌, arith,
  ==_refl, length, length-append, take, drop, replicate, length-replicate,
}
use mathlib.Core.List.{append_assoc}
use bavardage.CString.{Str}
use bavardage.Run.{ok, ◌>>=◌}
use bavardage.Bytes.{bytes_at, c_str}
use bavardage.Bytes.Copying.{
  Lacks, c_str-ends, memcpy-behind, bytes_at-behind, take-prefix, length-take, length-drop,
}
use bavardage.Wire.{max_mess_size}
use bavardage.Rooms.{Keys}
use bavardage.SecureClient.Cipher.{
  Crypto, Chance, hmac_size, salt_size, returned, check_loop, compute_hmac, check_hmac, aes_encrypt,
  aes_decrypt,
}

-- What OpenSSL documents: SHA-1 has 20 bytes; CBC with padding gives whole blocks of 16, one more
-- than the text fills; and whole blocks of encrypted bytes are decrypted to the same blocks of the
-- text, whatever stands behind them, if that is one block at least.
pub record IsCrypto (C : Crypto) : Type 0 where
  pub hmac_fits : (key text : Str) → length (C.hmac key text) ≡ hmac_size
  pub seals_blocks : (key iv p : Str) → length (C.seal key iv p) ≡ 16 * (length p / 16 + 1)
  pub reads_back :
      (key iv p head tail after : Str) (n : ℕ)
      → C.seal key iv p ≡ head ++ tail
      → length head ≡ 16 * n
      → 16 * n ≤ length p
      → 16 ≤ length after
      → (z : Str) × (C.unseal key iv (head ++ after) ≡ take (16 * n) p ++ z)

check_loop_refl : (s : Str) → check_loop s s ≡ true
unfolding check_loop
check_loop_refl [] = refl
check_loop_refl (c ∷ s) = rw (==_refl, check_loop_refl s) refl

pub take-drop : (n : ℕ) (a : Str) → take n a ++ drop n a ≡ a
take-drop zero a = refl
take-drop (suc n) [] = refl
take-drop (suc n) (c ∷ a) = ap (λ (x : Str). c ∷ x) (take-drop n a)

-- The front of an array that begins with a string.
pub take-string :
    (text pad : Str) (n : ℕ)
    → length text < n
    → (w : Str) × (take n (text ++ (0 ∷ pad)) ≡ text ++ (0 ∷ w))
take-string text pad n h =
    let j : ℕ = n - (length text + 1) in
    (take j pad, take-prefix text (0 ∷ pad) (suc j) n (omega (arith, h)))

bytes_at-front : (n : ℕ) (a : Str) → n ≤ length a → bytes_at 0 n a ≡ ok (take n a)
bytes_at-front n a h =
    ap (λ (x : Str). bytes_at 0 n x) (sym (take-drop n a))
    ∙ bytes_at-behind [] (take n a) (drop n a) 0 n refl (sym (length-take n a h))

module _ (C : Crypto) (laws : IsCrypto C) (k : Keys) (text : Str) (plain : Lacks 0 text) where
  abbrev pub mac : Str
  mac = C.hmac k.hash_key text

  abbrev pub sealing : Str → Str → Str
  sealing salt p =
      C.seal ((C.bytes_to_key k.master_key salt).0) ((C.bytes_to_key k.master_key salt).1) p

  module _ (chance : Chance) (here : chance.keeps ≡ true) where
    abbrev pub sealed : Str → Str
    sealed p = sealing chance.salt p

    compute_hmac-ok : compute_hmac C chance k.hash_key text ≡ ok mac
    unfolding compute_hmac returned
    compute_hmac-ok = rw here refl

    -- The hash, the salt and the encrypted bytes, side by side.
    pub aes_encrypt-packet :
        (pad : Str) (len : ℕ)
        → length chance.salt ≡ salt_size
        → len ≤ length (text ++ (0 ∷ pad))
        → len + 52 ≤ max_mess_size
        → (rest : Str) × (aes_encrypt C chance k (text ++ (0 ∷ pad)) len
            ≡ ok (
              mac ++ (chance.salt ++ (sealed (take len (text ++ (0 ∷ pad))) ++ rest)),
              length (sealed (take len (text ++ (0 ∷ pad)))),
            ))
    unfolding aes_encrypt returned
    aes_encrypt-packet pad len salted within fits =
        let zeros : Str = replicate max_mess_size 0 in
        let room : length zeros ≡ max_mess_size = length-replicate max_mess_size 0 in
        let hash_size : length mac ≡ 20 = laws.hmac_fits k.hash_key text in
        let p = take len (text ++ (0 ∷ pad)) in
        let blocks : length (sealed p) ≡ 16 * (length p / 16 + 1) = laws.seals_blocks _ _ p in
        let p_size : length p ≡ len = length-take len (text ++ (0 ∷ pad)) within in
        let d₁ = drop (length mac) zeros in
        let d₁_size : length d₁ ≡ length zeros - length mac = length-drop (length mac) zeros in
        let d₂ = drop (length chance.salt) d₁ in
        let d₂_size : length d₂ ≡ length d₁ - length chance.salt =
          length-drop (length chance.salt) d₁ in
        let d₃ = drop (length (sealed p)) d₂ in
        let whole : (mac ++ chance.salt) ++ (sealed p ++ d₃)
            ≡ mac ++ (chance.salt ++ (sealed p ++ d₃)) =
          append_assoc mac chance.salt (sealed p ++ d₃) in
        (
          d₃,
          rw
              (
                c_str-ends text pad plain,
                compute_hmac-ok,
                ◌>>=◌,
                memcpy-behind [] zeros mac 0 refl (omega (arith, room, hash_size)),
                ◌>>=◌,
                bytes_at-front len (text ++ (0 ∷ pad)) within,
                ◌>>=◌,
                memcpy-behind mac d₁ chance.salt hmac_size (sym hash_size)
                    (omega (arith, room, hash_size, d₁_size, salted)),
                ◌>>=◌,
                sym (append_assoc mac chance.salt d₂),
                memcpy-behind (mac ++ chance.salt) d₂ (sealed p) (hmac_size + salt_size)
                    (omega (arith, length-append mac chance.salt, hash_size, salted))
                    (omega
                      (arith, room, hash_size, d₁_size, d₂_size, salted, blocks, p_size, fits)),
                ◌>>=◌,
                here,
              )
              (ap (λ (x : Str). ok (x, length (sealed p))) whole),
        )

    -- An array that has the hash, the salt and the first `16 * n` encrypted bytes, and a block at
    -- least behind them, is decrypted to the text, if the text is shorter than that.
    pub aes_decrypt-packet :
        (salt p head tail b a w : Str) (n len : ℕ)
        → length salt ≡ salt_size
        → sealing salt p ≡ head ++ tail
        → length head ≡ 16 * n
        → 16 * n ≤ length p
        → take (16 * n) p ≡ text ++ (0 ∷ w)
        → 16 ≤ length b
        → len ≡ 16 * n + length b
        → aes_decrypt C chance k (mac ++ (salt ++ ((head ++ b) ++ a))) len ≡ ok text
    unfolding aes_decrypt check_hmac
    aes_decrypt-packet salt p head tail b a w n len salted split front long string block size =
        let hash_size : length mac ≡ 20 = laws.hmac_fits k.hash_key text in
        let key = (C.bytes_to_key k.master_key salt).0 in
        let iv = (C.bytes_to_key k.master_key salt).1 in
        let (z, back) = laws.reads_back key iv p head tail b n split front long block in
        let body_size : len ≡ length (head ++ b) =
          omega (arith, length-append head b, front, size) in
        let body : bytes_at (hmac_size + salt_size) len (mac ++ (salt ++ ((head ++ b) ++ a)))
            ≡ ok (head ++ b) =
          ap (λ (x : Str). bytes_at (hmac_size + salt_size) len x)
            (sym (append_assoc mac salt ((head ++ b) ++ a)))
          ∙ bytes_at-behind (mac ++ salt) (head ++ b) a (hmac_size + salt_size) len
              (omega (arith, length-append mac salt, hash_size, salted)) body_size in
        let read : c_str (C.unseal key iv (head ++ b) ++ chance.stale) ≡ text =
          ap (λ (x : Str). c_str (x ++ chance.stale)) back ∙ string_ends z chance.stale in
        rw
          (
            bytes_at-behind [] mac (salt ++ ((head ++ b) ++ a)) 0 hmac_size refl (sym hash_size),
            ◌>>=◌,
            bytes_at-behind mac salt ((head ++ b) ++ a) hmac_size salt_size (sym hash_size)
                (sym salted),
            ◌>>=◌,
            body,
            ◌>>=◌,
            read,
            compute_hmac-ok,
            ◌>>=◌,
            check_loop_refl mac,
          )
          refl
      where
        string_ends : (z stale : Str) → c_str ((take (16 * n) p ++ z) ++ stale) ≡ text
        string_ends z stale =
            ap (λ (x : Str). c_str ((x ++ z) ++ stale)) string
            ∙ ap c_str (
                ap (λ (x : Str). x ++ stale) (append_assoc text (0 ∷ w) z)
                ∙ append_assoc text (0 ∷ (w ++ z)) stale)
            ∙ c_str-ends text ((w ++ z) ++ stale) plain
