-- ===== src/SecureTerminal/Showing.antt =====
-- A text typed to a secure room by one user, as it is shown to another: from `send_message_sec` of
-- src/client/libclientsec.c to `traitement_recv` of src/client/clientsec-cli.c.
use bavardage.Prelude.{ℕ, suc, ◌<◌, ◌≡◌, refl, sym, ◌∙◌, ap, true, Option, some, length}
use bavardage.Prelude.Int.{pos}
use bavardage.CString.{Str}
use bavardage.Run.{Run, ok, ◌>>=◌}
use bavardage.Bytes.Copying.{Lacks}
use bavardage.Wire.{Message, Code, max_mess_size}
use bavardage.Users.Store.{Heap}
use bavardage.Rooms.{Keys, RoomMap, get_keys_from_room}
use bavardage.Client.Commands
use bavardage.SecureClient.Cipher.{
  Crypto, Chance, salt_size, max_ciphered_size, keys_at, aes_decrypt, decrypt,
}
use bavardage.SecureClient.State.{SecureClient, Env}
use bavardage.SecureClient.Texts.{encrypted_text}
use bavardage.SecureClient.Packet.{IsCrypto}
use bavardage.SecureClient.Conversation.{readable_size, decrypt-encrypted_text}
use bavardage.SecureTerminal.Receiving.{
  decrypted, shows, show_decrypted, on_message, switch_chat, traitement_recv,
}

-- `decrypt` is `aes_decrypt` with the keys of the room.
aes_decrypt-decrypt :
    (C : Crypto) (chance : Chance) (room content text : Str) (rooms : RoomMap) (k : Keys)
    → get_keys_from_room room rooms ≡ ok (some k)
    → decrypt C chance room content rooms ≡ ok text
    → aes_decrypt C chance k content max_ciphered_size ≡ ok text
unfolding decrypt keys_at
aes_decrypt-decrypt C chance room content text rooms k found run =
    sym (
      ap
        (λ (x : Run (Option Keys)).
          x >>= λ o. keys_at o >>= λ k'. aes_decrypt C chance k' content max_ciphered_size)
        found)
    ∙ run

-- What one user types to a secure room, another with the keys of that room is shown: the message that
-- `/MESSAGE` makes, passed on by the chat server with the sender's name, is decrypted and shown with
-- the same text. For a text of fewer than 1984 bytes without a zero byte, OpenSSL as documented, a
-- salt of its size, arrays that can be read behind the return of their function, and a new message
-- whose array has its full size.
pub traitement_recv-shows :
    (C : Crypto) (laws : IsCrypto C) (k : Keys) (text : Str) (plain : Lacks 0 text)
    (short : length text < readable_size) (env env' : Env) (s s' : SecureClient) (m : Message)
    (room : Str)
    → env.chance.keeps ≡ true
    → env'.chance.keeps ≡ true
    → length env.chance.salt ≡ salt_size
    → length m.content ≡ max_mess_size
    → get_keys_from_room room s.rooms ≡ ok (some k)
    → get_keys_from_room room s'.rooms ≡ ok (some k)
    → (h : Heap) (last : Option Keys) (sender : Str) (bytes : ℕ)
    → (content : Str) × (encrypted_text C env s m room text
        ≡ ok (record m { receiver = room; content = content }))
      × (let mess : Message = record {
        code = Code.message;
        sender = sender;
        receiver = room;
        content = content;
      } in
          traitement_recv C env' h last mess s' (pos (suc bytes))
          ≡ ok (shows C env' h last mess s' (decrypted sender room text)))
unfolding traitement_recv switch_chat on_message show_decrypted Commands.receive_message
traitement_recv-shows C laws k text plain short env env' s s' m room kept kept' salted whole mine
      theirs h last sender bytes =
    let (content, sent, read) =
      decrypt-encrypted_text C laws k text plain short env env'.chance s m room s'.rooms kept kept'
        salted whole mine theirs in
    (
      content,
      sent,
      rw
          (
            theirs,
            ◌>>=◌,
            aes_decrypt-decrypt C env'.chance room content text s'.rooms k theirs read,
            ◌>>=◌,
          )
          refl,
    )
