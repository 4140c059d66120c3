-- ===== src/Tests/SecureTexts.antt =====
-- Keys and texts between the secure server and its clients, on small inputs, with a cipher that only
-- pads.
use bavardage.Prelude.{
  ◌⊎◌, take, ℕ, ◌+◌, ◌-◌, ◌*◌, ◌/◌, ◌≤◌, ◌≡◌, refl, sym, ◌∙◌, ap, true, false, none, some, [], ◌∷◌,
  ◌++◌, arith, replicate, length-replicate, length, length-append, take, set,
}
use bavardage.Prelude.Int.{pos}
use bavardage.CString.{Str, codes, str_eq}
use bavardage.Run.{ok}
use bavardage.Hash.{hash_room_name}
use bavardage.Bytes.{c_str, strtok_first, token_from, bytes_at}
use bavardage.Bytes.Copying.{take-append}
use bavardage.KeyMessage.{bar, put_keys_behind, take_keys}
use bavardage.KeyMessage.Exchange.{take_keys-put_keys}
use bavardage.Wire
use bavardage.Wire.{Message, Code, secure, clear_message, max_mess_size}
use bavardage.Rooms.{Keys, RoomMap, get_keys_from_room}
use bavardage.Rooms.Table.{view}
use bavardage.SecureClient.Cipher.{Crypto, Chance, hmac_size, aes_decrypt, corrupted}
use bavardage.SecureClient.State.{SecureClient, Env, returns}
use bavardage.SecureClient.Texts.{encrypted_text}
use bavardage.SecureClient.Receiving.{receive_message_sec}
use bavardage.SecureClient.Packet.{IsCrypto}
use bavardage.Run.Ensures.{Ensures}
use bavardage.SecureClient.Integrity.{aes_decrypt-authentic}
use bavardage.SecureTerminal.Receiving.{decrypted, shows, traitement_recv}
use bavardage.SecureTerminal.Showing.{traitement_recv-shows}
use bavardage.SecureClient.Keyring.{receive_message_sec-keys, created}
use bavardage.Tests.Program.{program, ann}
use bavardage.Tests.Tables.{people}
use bavardage.Tests.Clubs.{club, club_hashed, clubs, clubs-IsTable, ann_club}

abbrev some_keys : Keys
some_keys = record { master_key = replicate 32 7; hash_key = replicate 16 9 }

take_keys-put_keys_example :
    (content : Str) × (put_keys_behind (replicate 30 1) (replicate 100 0) club some_keys
      ≡ ok content)
    × (take_keys content ≡ ok (club, some_keys))
take_keys-put_keys_example =
    take_keys-put_keys (replicate 30 1) (replicate 100 0) b'c' (codes "lub") some_keys
      (refl, (refl, (refl, (refl, tt)))) (refl, (refl, (refl, (refl, tt))))
      (length-replicate {A = ℕ} 32 7) (length-replicate {A = ℕ} 16 9)
      (length-replicate {A = ℕ} 30 1) (omega (arith, length-replicate {A = ℕ} 100 0))

-- Zero bytes up to whole blocks, and no change to the text.
abbrev padding : Str → Str
padding p = replicate (16 * (length p / 16 + 1) - length p) 0

abbrev padder : Crypto
padder = record {
  hmac = λ key text. replicate 20 5;
  bytes_to_key = λ key salt. (key, salt);
  seal = λ key iv p. p ++ padding p;
  unseal = λ key iv c. c;
}

take-within : (n : ℕ) (p q : Str) → n ≤ length p → take n (p ++ q) ≡ take n p
take-within ℕ.zero p q h = refl
take-within (ℕ.suc n) [] q h = absurd (omega (arith, h))
take-within (ℕ.suc n) (c ∷ p) q h = ap (λ (x : Str). c ∷ x) (take-within n p q (omega (arith, h)))

front_of :
    (p q head tail : Str)
    → p ++ q ≡ head ++ tail
    → length head ≤ length p
    → head ≡ take (length head) p
front_of p q head tail e short =
    sym (take-append head tail (length head) refl)
    ∙ ap (λ (x : Str). take (length head) x) (sym e)
    ∙ take-within (length head) p q short

padder-IsCrypto : IsCrypto padder
padder-IsCrypto = record {
  hmac_fits = λ key text. length-replicate {A = ℕ} 20 5;
  seals_blocks = λ key iv p. omega (
    arith,
    length-append p (padding p),
    length-replicate {A = ℕ} (16 * (length p / 16 + 1) - length p) 0,
  );
  reads_back = λ key iv p head tail after n e size short block. (
    after,
    ap (λ (x : Str). x ++ after)
        (front_of p (padding p) head tail e (omega (arith, size, short))
          ∙ ap (λ (i : ℕ). take i p) size),
  );
}

abbrev keyed : RoomMap
keyed = set clubs 1146 (record ann_club { k = some some_keys } ∷ [])

keyed_found : get_keys_from_room club keyed ≡ ok (some some_keys)
unfolding program get_keys_from_room
keyed_found = refl

abbrev lucky : Chance
lucky = record { salt = replicate 16 3; keeps = true; stale = [] }

abbrev blank : Message
blank = record clear_message { content = replicate max_mess_size 0 }

abbrev ann_env : Env
ann_env = record {
  chat = record { junk = blank; writes = true; error_mess = true };
  writes_sec = true;
  chance = lucky;
  too_long = false;
}

abbrev ann_secure : SecureClient
ann_secure = record {
  client = record { client_sock = true; msg = none; login = some ann };
  secure_socket = true;
  is_connected = true;
  rooms = keyed;
}

abbrev reads_hello : Str → Message
reads_hello content = record {
  code = Code.message;
  sender = ann;
  receiver = club;
  content = content;
}

traitement_recv-shows_example :
    (content : Str) × (encrypted_text padder ann_env ann_secure blank club (codes "hello")
      ≡ ok (record blank { receiver = club; content = content }))
    × (traitement_recv padder ann_env people none (reads_hello content) ann_secure (pos 1)
        ≡ ok (
            shows padder ann_env people none
              (reads_hello content)
              ann_secure
              (decrypted ann club (codes "hello"))))
traitement_recv-shows_example =
    traitement_recv-shows padder padder-IsCrypto some_keys (codes "hello")
      (refl, (refl, (refl, (refl, (refl, tt))))) (omega arith) ann_env ann_env ann_secure ann_secure
      blank club refl refl (length-replicate {A = ℕ} 16 3)
      (length-replicate {A = ℕ} max_mess_size 0) keyed_found keyed_found people none ann 0

abbrev with_room : Message
with_room = record clear_message {
  code = secure Wire.create_room_sec;
  content = club ++ (bar ∷ (replicate 32 7 ++ (bar ∷ replicate 16 9)));
}

keys_in : take_keys with_room.content ≡ ok (club, some_keys)
unfolding program take_keys c_str strtok_first token_from bytes_at
keys_in = refl

abbrev newcomer : SecureClient
newcomer = record ann_secure { rooms = clubs }

receive_message_sec-keys_example :
    (rooms : RoomMap) × (receive_message_sec padder ann_env people newcomer (pos 1) with_room
      ≡ ok (returns (record newcomer { rooms = rooms }) (pos 0) []))
    × (get_keys_from_room club rooms ≡ ok (some some_keys))
    × ((i : ℕ) (q : Str)
        → hash_room_name q ≡ pos i
        → str_eq club q ≡ false
        → view i q rooms ≡ view i q clubs)
receive_message_sec-keys_example =
    receive_message_sec-keys padder ann_env people newcomer with_room 0 created refl club 1146
      some_keys club_hashed clubs-IsTable (omega arith) keys_in

abbrev forged : Str
forged = replicate max_mess_size 0

aes_decrypt-authentic_example :
    Ensures
      (λ r. (r ≡ corrupted) ⊎ (take hmac_size forged ≡ replicate hmac_size 5))
      (aes_decrypt padder lucky some_keys forged 2024)
aes_decrypt-authentic_example =
    aes_decrypt-authentic padder (λ key text. length-replicate {A = ℕ} hmac_size 5) lucky some_keys
      forged 2024
