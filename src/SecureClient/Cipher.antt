-- ===== src/SecureClient/Cipher.antt =====
-- How src/client/libclientsec.c encrypts a text and reads it back: the hash of the text, a salt, and
-- the encrypted bytes. OpenSSL's functions are a parameter.
use bavardage.Prelude.{
  ℕ, ◌+◌, Bool, true, false, ◌&&◌, Option, none, some, [], ◌∷◌, ◌++◌, ◌==◌, if◌then◌else◌, length,
  replicate,
}
use bavardage.CString.{Str, codes}
use bavardage.Run.{Run, ok, fault, null_pointer, use_after_free, ◌>>=◌}
use bavardage.Bytes.{memcpy, bytes_at, c_str}
use bavardage.Wire.{max_mess_size}
use bavardage.Rooms.{Keys, RoomMap, get_keys_from_room}

-- `HMAC_…` with SHA-1 on a key and a text, `EVP_BytesToKey` on a master key and a salt, and the
-- calls of `EVP_Encrypt…` and `EVP_Decrypt…` on a key, an initial vector and bytes: all that they
-- write.
pub record Crypto : Type 0 where
  pub hmac : Str → Str → Str
  pub bytes_to_key : Str → Str → Str × Str
  pub seal : Str → Str → Str → Str
  pub unseal : Str → Str → Str → Str

-- What C and OpenSSL leave open: the random salt, whether an array on the stack can still be read
-- when its function has returned, and what memory from `malloc` holds.
pub record Chance : Type 0 where
  pub salt : Str
  pub keeps : Bool
  pub stale : Str

abbrev pub salt_size : ℕ
salt_size = 16

abbrev pub hmac_size : ℕ
hmac_size = 20

abbrev pub max_ciphered_size : ℕ
max_ciphered_size = 2024

-- `return out;` of an array that is a local variable.
unfoldable pub returned : Bool → Str → Run Str
returned keeps array = if keeps then ok array else fault use_after_free

-- The loop of `check_hmac`. Both arrays have `HMAC_SIZE` bytes.
unfoldable pub check_loop : Str → Str → Bool
check_loop [] hmac = true
check_loop (o ∷ out) [] = false
check_loop (o ∷ out) (h ∷ hmac) = (o == h) && check_loop out hmac

abbrev pub corrupted : Str
corrupted = codes "*** MESSAGE CORROMPU ***"

module _ (C : Crypto) (chance : Chance) where
  unfoldable pub compute_hmac : Str → Str → Run Str
  compute_hmac key text = returned chance.keeps (C.hmac key text)

  unfoldable pub check_hmac : Str → Str → Str → Run Bool
  check_hmac hash_key text hmac = do out ← compute_hmac hash_key text; ok (check_loop out hmac)

  -- The array and the new `*len`. `plaintext` is an array as well: the hash is that of its string.
  unfoldable pub aes_encrypt : Keys → Str → ℕ → Run (Str × ℕ)
  aes_encrypt k plaintext len = do
    out ← compute_hmac k.hash_key (c_str plaintext)
    hashed ← memcpy 0 out (replicate max_mess_size 0)
    plain ← bytes_at 0 len plaintext
    let keyiv = C.bytes_to_key k.master_key chance.salt
    let ciphertext = C.seal keyiv.0 keyiv.1 plain
    salted ← memcpy hmac_size chance.salt hashed
    finaltext ← memcpy (hmac_size + salt_size) ciphertext salted
    array ← returned chance.keeps finaltext
    ok (array, length ciphertext)

  -- The string that is returned. `plaintext` gets no terminator.
  unfoldable pub aes_decrypt : Keys → Str → ℕ → Run Str
  aes_decrypt k ciphertext len = do
    hmac ← bytes_at 0 hmac_size ciphertext
    salt ← bytes_at hmac_size salt_size ciphertext
    let keyiv = C.bytes_to_key k.master_key salt
    body ← bytes_at (hmac_size + salt_size) len ciphertext
    let plaintext = c_str (C.unseal keyiv.0 keyiv.1 body ++ chance.stale)
    check ← check_hmac k.hash_key plaintext hmac
    ok (if check then plaintext else corrupted)

-- A NULL of `get_keys_from_room` is followed by those who use it.
unfoldable pub keys_at : Option Keys → Run Keys
keys_at none = fault null_pointer
keys_at (some k) = ok k

unfoldable pub decrypt : Crypto → Chance → Str → Str → RoomMap → Run Str
decrypt C chance room_name ciphered rooms = do
  found ← get_keys_from_room room_name rooms
  k ← keys_at found
  aes_decrypt C chance k ciphered max_ciphered_size
