-- ===== src/SecureClient/Conversation.antt =====
-- A text typed to a secure room, from the client that encrypts it to a client that reads it:
-- `case MESSAGE` of `send_message_sec` and `decrypt` of src/client/libclientsec.c.
use bavardage.Prelude.{
  ℕ, zero, suc, ◌+◌, ◌-◌, ◌*◌, ◌/◌, ◌<◌, ◌≤◌, ◌≡◌, refl, sym, ◌∙◌, ap, true, some, [], ◌∷◌, ◌++◌,
  arith, length, length-append, take, drop, replicate, length-replicate,
}
use mathlib.Core.List.{append_assoc}
use bavardage.CString.{Str}
use bavardage.Run.{ok, ◌>>=◌}
use bavardage.Bytes.Copying.{Lacks, memcpy-behind, take-prefix, length-take, length-drop}
use bavardage.Wire.{Message, max_mess_size}
use bavardage.Rooms.{Keys, RoomMap, get_keys_from_room}
use bavardage.SecureClient.Cipher.{
  Crypto, Chance, max_ciphered_size, salt_size, keys_at, aes_decrypt, decrypt,
}
use bavardage.SecureClient.State.{SecureClient, Env}
use bavardage.SecureClient.Texts.{zero_padded, encrypted_text}
use bavardage.SecureClient.Packet.{
  IsCrypto, take-drop, take-string, mac, sealing, aes_encrypt-packet, aes_decrypt-packet,
}

-- 124 whole blocks of the encrypted bytes are left when the last 36 bytes of the packet are cut off.
abbrev pub readable_size : ℕ
readable_size = 1984

replicate-suc : (n : ℕ) → 1 ≤ n → replicate {A = ℕ} n 0 ≡ 0 ∷ replicate (n - 1) 0
unfolding replicate
replicate-suc zero h = absurd (omega (arith, h))
replicate-suc (suc n) h =
    let same : n ≡ suc n - 1 = omega arith in ap (λ (i : ℕ). 0 ∷ replicate {A = ℕ} i 0) same

-- The first 2032 bytes of a packet, with an array behind them, as `aes_decrypt` cuts it.
cut :
    (m salt head tail rest d : Str)
    → length m ≡ 20
    → length salt ≡ 16
    → length head ≡ 1984
    → take 2032 (m ++ (salt ++ ((head ++ tail) ++ rest))) ++ d
      ≡ m ++ (salt ++ ((head ++ (take 12 (tail ++ rest) ++ take 28 d)) ++ drop 28 d))
cut m salt head tail rest d m_size salt_size head_size =
    let t = take 12 (tail ++ rest) in
    let inner : take 1996 ((head ++ tail) ++ rest) ≡ head ++ t =
      ap (λ (x : Str). take 1996 x) (append_assoc head tail rest)
      ∙ take-prefix head (tail ++ rest) 12 1996 (omega (arith, head_size)) in
    let outer : take 2032 (m ++ (salt ++ ((head ++ tail) ++ rest))) ≡ m ++ (salt ++ (head ++ t)) =
      take-prefix m (salt ++ ((head ++ tail) ++ rest)) 2012 2032 (omega (arith, m_size))
      ∙ ap (λ (x : Str). m ++ x)
          (take-prefix salt ((head ++ tail) ++ rest) 1996 2012 (omega (arith, salt_size))
            ∙ ap (λ (x : Str). salt ++ x) inner) in
    let last : (head ++ t) ++ d ≡ (head ++ (t ++ take 28 d)) ++ drop 28 d =
      ap (λ (x : Str). (head ++ t) ++ x) (sym (take-drop 28 d))
      ∙ sym (append_assoc (head ++ t) (take 28 d) (drop 28 d))
      ∙ ap (λ (x : Str). x ++ drop 28 d) (append_assoc head t (take 28 d)) in
    ap (λ (x : Str). x ++ d) outer
    ∙ append_assoc m (salt ++ (head ++ t)) d
    ∙ ap (λ (x : Str). m ++ x) (append_assoc salt (head ++ t) d ∙ ap (λ (x : Str). salt ++ x) last)

module _ (C : Crypto) (laws : IsCrypto C) (k : Keys) (text : Str) (plain : Lacks 0 text)
    (short : length text < readable_size) where
  -- The cut packet is decrypted to the text.
  decrypts :
      (chance : Chance) (salt p w rest d : Str)
      → chance.keeps ≡ true
      → length salt ≡ salt_size
      → p ≡ text ++ (0 ∷ w)
      → length p ≡ max_ciphered_size
      → 28 ≤ length d
      → aes_decrypt C chance k
          (take 2032
              (mac C laws k text plain ++ (salt ++ (sealing C laws k text plain salt p ++ rest)))
            ++ d)
          max_ciphered_size
        ≡ ok text
  decrypts chance salt p w rest d here salted string p_size room =
      let cipher = sealing C laws k text plain salt p in
      let blocks : length cipher ≡ 16 * (length p / 16 + 1) = laws.seals_blocks _ _ p in
      let head = take readable_size cipher in
      let tail = drop readable_size cipher in
      let split : cipher ≡ head ++ tail = sym (take-drop readable_size cipher) in
      let head_size : length head ≡ readable_size =
        length-take readable_size cipher (omega (arith, blocks, p_size)) in
      let tail_size : length tail ≡ length cipher - readable_size =
        length-drop readable_size cipher in
      let t = take 12 (tail ++ rest) in
      let t_size : length t ≡ 12 =
        length-take 12 (tail ++ rest)
          (omega (arith, length-append tail rest, tail_size, blocks, p_size)) in
      let d_size : length (take 28 d) ≡ 28 = length-take 28 d room in
      let (w', front) = take-string text w readable_size short in
      ap (λ (x : Str). aes_decrypt C chance k x max_ciphered_size)
        (ap (λ (x : Str). take 2032 (mac C laws k text plain ++ (salt ++ (x ++ rest))) ++ d) split
          ∙ cut (mac C laws k text plain) salt head tail rest d (laws.hmac_fits k.hash_key text)
              salted head_size)
      ∙ aes_decrypt-packet C laws k text plain chance here salt p head tail (t ++ take 28 d)
          (drop 28 d) w' 124 max_ciphered_size salted split head_size (omega (arith, p_size))
          (ap (λ (x : Str). take readable_size x) string ∙ front)
          (omega (arith, length-append t (take 28 d), t_size))
          (omega (arith, length-append t (take 28 d), t_size, d_size))

  abbrev pad : Str
  pad = replicate (max_mess_size - length text - 1) 0

  padded : zero_padded text ≡ text ++ (0 ∷ pad)
  padded =
      ap (λ (x : Str). text ++ x)
        (replicate-suc (max_mess_size - length text) (omega (arith, short)))

  -- A text typed to a secure room is read by whoever has the keys of that room: the client that
  -- sends it puts the encrypted text into a message to the room, and a client that gets this message
  -- decrypts it to the same text. For a text of fewer than 1984 bytes without a zero byte, OpenSSL as
  -- documented, a salt of its size, arrays that can be read behind the return of their function, and
  -- a message as large as the array that it is.
  pub decrypt-encrypted_text :
      (env : Env) (chance : Chance) (s : SecureClient) (m : Message) (receiver : Str)
      (rooms : RoomMap)
      → env.chance.keeps ≡ true
      → chance.keeps ≡ true
      → length env.chance.salt ≡ salt_size
      → length m.content ≡ max_mess_size
      → get_keys_from_room receiver s.rooms ≡ ok (some k)
      → get_keys_from_room receiver rooms ≡ ok (some k)
      → (content : Str) × (encrypted_text C env s m receiver text
          ≡ ok (record m { receiver = receiver; content = content }))
        × (decrypt C chance receiver content rooms ≡ ok text)
  unfolding encrypted_text decrypt keys_at
  decrypt-encrypted_text env chance s m receiver rooms kept kept' salted whole mine theirs =
      let array_size : length (text ++ (0 ∷ pad)) ≡ max_mess_size = omega (
        arith,
        length-append text (0 ∷ pad),
        length-replicate {A = ℕ} (max_mess_size - length text - 1) 0,
        short,
      ) in
      let p = take max_ciphered_size (text ++ (0 ∷ pad)) in
      let p_size : length p ≡ max_ciphered_size =
        length-take max_ciphered_size (text ++ (0 ∷ pad)) (omega (arith, array_size)) in
      let (w, string) = take-string text pad max_ciphered_size (omega (arith, short)) in
      let (rest, run) =
        aes_encrypt-packet C laws k text plain env.chance kept pad max_ciphered_size salted
          (omega (arith, array_size)) (omega arith) in
      let packet =
        mac C laws k text plain
        ++ (env.chance.salt ++ (sealing C laws k text plain env.chance.salt p ++ rest)) in
      let sealed_size : length (sealing C laws k text plain env.chance.salt p) ≡ 2032 =
        omega (arith, laws.seals_blocks _ _ p, p_size) in
      let packet_size : 2032 ≤ length packet = omega (
        arith,
        length-append (mac C laws k text plain)
            (env.chance.salt ++ (sealing C laws k text plain env.chance.salt p ++ rest)),
        length-append env.chance.salt (sealing C laws k text plain env.chance.salt p ++ rest),
        length-append (sealing C laws k text plain env.chance.salt p) rest,
        sealed_size,
      ) in
      let x_size : length (take 2032 packet) ≡ 2032 = length-take 2032 packet packet_size in
      let d = drop (length (take 2032 packet)) m.content in
      let d_size : length d ≡ length m.content - length (take 2032 packet) =
        length-drop (length (take 2032 packet)) m.content in
      (
        take 2032 packet ++ d,
        rw
            (
              mine,
              ◌>>=◌,
              keys_at,
              ◌>>=◌,
              padded,
              run,
              ◌>>=◌,
              sealed_size,
              memcpy-behind [] m.content (take 2032 packet) 0 refl (omega (arith, x_size, whole)),
            )
            refl,
        rw (theirs, ◌>>=◌, keys_at)
            (decrypts chance env.chance.salt p w rest d kept' salted string p_size
              (omega (arith, d_size, x_size, whole))),
      )
