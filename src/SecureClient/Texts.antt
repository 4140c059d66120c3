-- ===== src/SecureClient/Texts.antt =====
-- `case MESSAGE` and `case MP_SEC` of `send_message_sec` in src/client/libclientsec.c.
use bavardage.Prelude.{
  ◌+◌, ◌-◌, true, false, List, [], ◌∷◌, ◌++◌, length, ltb, take, drop, replicate,
}
use bavardage.CString.{Str, codes, strcpy}
use bavardage.Run.{Run, ok, ◌>>=◌}
use bavardage.Bytes.{memcpy, c_str}
use bavardage.Wire.{Message, secure, max_room_name_size, max_mess_size, mp, mp_sec}
use bavardage.Rooms.{is_room_used, get_keys_from_room}
use bavardage.Client.Words.{space, create_table_param, tab_len}
use bavardage.Client.Commands.{second}
use bavardage.SecureClient.Cipher.{Crypto, aes_encrypt, keys_at, max_ciphered_size}
use bavardage.SecureClient.State.{
  SecureClient, Env, Result, with_msg, send_command_sec, command_chat,
}
use bavardage.SecureClient.RoomCommands.{complain}

-- An array of `MAX_MESS_SIZE` characters that was zero before `text` went into it.
abbrev pub zero_padded : Str → Str
zero_padded text = text ++ replicate (max_mess_size - length text) 0

module _ (C : Crypto) (env : Env) (s : SecureClient) (m : Message) where
  -- A room of the client's own table: the text is encrypted, and as many bytes of the packet go into
  -- `content` as there are encrypted bytes, which leaves the last 36 behind; the rest of the array is
  -- what `malloc` has given.
  unfoldable pub encrypted_text : Str → Str → Run Message
  encrypted_text receiver buff = do
    found ← get_keys_from_room receiver s.rooms
    k ← keys_at found
    (ciphermess, lenght) ← aes_encrypt C env.chance k (zero_padded buff) max_ciphered_size
    content ← memcpy 0 (take lenght ciphermess) m.content
    ok (record m { receiver = receiver; content = content })

  unfoldable pub plain_text : Str → Str → Run Message
  plain_text receiver buff = do
    content ← strcpy max_mess_size buff
    ok (record m { receiver = receiver; content = content })

  unfoldable pub on_message_sec : Str → Run Result
  on_message_sec buffer = do
    tab ← create_table_param buffer
    n ← tab_len tab
    elim (ltb n 3) [
      | true ↦
          complain env (with_msg s m)
            (codes "MESSAGE doit avoir 2 parametres : /MESSAGE salon mon super message")
      | false ↦ do
        name ← second tab
        receiver ← strcpy max_room_name_size name
        let buff = take max_mess_size (drop (10 + length receiver) buffer)
        used ← is_room_used receiver s.rooms
        m' ← elim used [ true ↦ encrypted_text receiver buff | false ↦ plain_text receiver buff ]
        command_chat env (with_msg s m')
    ]

  -- Each word from the third on, with a space behind it.
  unfoldable pub joined : List Str → Str
  joined [] = []
  joined (word ∷ rest) = word ++ (space ∷ joined rest)

  -- The packet is copied as a string, up to its first zero byte.
  unfoldable pub private_text : Str → Str → Run Result
  private_text receiver buff = do
    used ← is_room_used receiver s.rooms
    elim used [
      | true ↦ do
        found ← get_keys_from_room receiver s.rooms
        k ← keys_at found
        (ciphermess, _) ← aes_encrypt C env.chance k (zero_padded buff) (length buff + 1)
        content ← strcpy max_mess_size (c_str ciphermess)
        command_chat env
            (with_msg s (record m { code = mp; receiver = receiver; content = content }))
      | false ↦
          send_command_sec env
            (with_msg s (record m { code = secure mp_sec; receiver = receiver; content = buff }))
    ]

  unfoldable pub on_mp_sec : Str → Run Result
  on_mp_sec buffer = do
    tab ← create_table_param buffer
    n ← tab_len tab
    elim (ltb n 3) [
      | true ↦
          complain env (with_msg s m)
            (codes "MP_SEC doit avoir 2 parametres : /MP toto mon super message prive")
      | false ↦ do
        name ← second tab
        receiver ← strcpy max_room_name_size name
        buff ← strcpy max_mess_size (joined (drop 2 tab))
        elim env.too_long [
          | true ↦
              complain env (with_msg s (record m { receiver = receiver }))
                (codes "ce message est trop long pour etre envoye chiffre")
          | false ↦ private_text receiver buff
        ]
    ]
