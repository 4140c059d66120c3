-- ===== src/SecureClient/Receiving.antt =====
-- `receive_message_sec` of src/client/libclientsec.c: what the client's library does with a message
-- of the secure server before the program sees it.
use bavardage.Prelude.{zero, ◌+◌, none, some, [], ◌++◌, length}
use bavardage.Prelude.Int.{ℤ, pos, negsuc}
use bavardage.CString.{Str, codes, strcpy}
use bavardage.Run.{Run, ok, ◌>>=◌}
use bavardage.Bytes.{c_str, bytes_at, memcpy}
use bavardage.Wire.{
  Message, Code, secure, max_mess_size, create_room_sec, join_room_sec, refresh_keyiv, mp_sec_ok,
  delete_room_sec, quit_room_sec, del_account_sec, mp_sec,
}
use bavardage.Rooms.{RoomMap, add_room, remove_room, set_keys_in_room, get_keys_from_room}
use bavardage.Users.Store.{Heap}
use bavardage.KeyMessage.{take_keys}
use bavardage.SecureClient.Cipher.{Crypto, aes_encrypt, keys_at, max_ciphered_size}
use bavardage.SecureClient.State.{SecureClient, Env, Result, returns, send_chat, silent}
use bavardage.SecureClient.Commands.{send_message_sec}
use bavardage.SecureClient.Texts.{zero_padded}

-- The room is made if it is not there, and gets the keys of the message.
unfoldable pub keep_keys : Heap → Str → RoomMap → Run RoomMap
keep_keys h content rooms = do
  (room_name, k) ← take_keys content
  (_, made) ← add_room h room_name none rooms
  (_, keyed) ← set_keys_in_room room_name (some k) made
  ok keyed

module _ (C : Crypto) (env : Env) (h : Heap) (s : SecureClient) where
  unfoldable pub on_keys : Str → Run Result
  on_keys content = do
    rooms ← keep_keys h content s.rooms
    ok (returns (record s { rooms = rooms }) (pos 0) [])

  unfoldable pub on_removed : Str → Run Result
  on_removed content = do
    (_, rooms) ← remove_room content s.rooms
    ok (returns (record s { rooms = rooms }) (pos 0) [])

  -- The text of the user, encrypted and passed on as the line `/MP receiver packet`. The packet stands
  -- in the line as it is, and `send_message` reads the line up to its first zero byte.
  unfoldable pub on_mp_back : Message → Run Result
  on_mp_back m = do
    found ← get_keys_from_room m.receiver s.rooms
    k ← keys_at found
    (ciphermess, _) ← aes_encrypt C env.chance k (zero_padded m.content) (length m.content + 1)
    text ← strcpy max_mess_size (codes "/MP " ++ (m.receiver ++ codes " "))
    packet ← bytes_at 0 max_ciphered_size ciphermess
    line ← memcpy (5 + length m.receiver) packet (zero_padded text)
    r ← send_chat (silent env) s (c_str line)
    ok (record r { status = pos 0 })

  unfoldable pub handle : Message → Code → Run Result
  handle m (secure create_room_sec) = on_keys m.content
  handle m (secure join_room_sec) = on_keys m.content
  handle m (secure refresh_keyiv) = on_keys m.content
  handle m (secure mp_sec_ok) = on_keys m.content
  handle m (secure delete_room_sec) = on_removed m.content
  handle m (secure quit_room_sec) = on_removed m.content
  handle m (secure del_account_sec) = do
    r ← send_message_sec C (silent env) h s (codes "/DISCONNECT_SEC")
    ok (record r { status = pos 0 })
  handle m (secure mp_sec) = on_mp_back m
  handle m _ = ok (returns s (pos 0) [])

  -- A read that gives 0 bytes is answered with -1.
  unfoldable pub receive_message_sec : ℤ → Message → Run Result
  receive_message_sec (pos zero) m = ok (returns s (negsuc 0) [])
  receive_message_sec _ m = handle m m.code
