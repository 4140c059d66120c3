-- ===== src/SecureTerminal/Receiving.antt =====
-- `traitement_recv_sec` and `traitement_recv` of src/client/clientsec-cli.c: what the program does
-- with a message of the secure server, behind `receive_message_sec`, and with one of the chat server.
-- The `content` of a message with keys or an encrypted text is the bytes of the array.
use bavardage.Prelude.{Bool, true, false, Option, none, some, List, [], ◌∷◌, ◌++◌, if◌then◌else◌}
use bavardage.Prelude.Int.{ℤ, pos, negsuc}
use bavardage.CString.{Str, codes}
use bavardage.Run.{Run, ok, fault, null_pointer, ◌>>=◌}
use bavardage.Bytes.{c_str, strtok_first}
use bavardage.KeyMessage.{bar, take_keys}
use bavardage.Wire.{
  Message, Code, SecCode, secure, create_room_sec, join_room_sec, refresh_keyiv, quit_room_sec,
  del_account_sec, connect_sec, create_room_sec_ko,
}
use bavardage.Users.Store.{Heap}
use bavardage.Rooms.{
  Keys, is_room_used, add_room, remove_room, set_keys_in_room, get_keys_from_room,
}
use bavardage.Client.Commands
use bavardage.SecureClient.Cipher.{Crypto, aes_decrypt, max_ciphered_size}
use bavardage.SecureClient.State.{SecureClient, Env, Result, returns, send_chat, silent, from_chat}
use bavardage.SecureClient.Commands.{send_message_sec}
use bavardage.SecureClient.RoomCommands.{line_of}
use bavardage.SecureClient.Receiving.{receive_message_sec}

-- A text as it is shown: as it came (`@`), or decrypted (`$`).
pub data Shown : Type 0 where
  as_it_is decrypted : (sender receiver text : Str) → Shown

-- A round: the client and the messages written, the local `k`, which is indeterminate at first, what
-- is shown, and whether the program goes on.
pub record Round : Type 0 where
  pub result : Result
  pub k : Option Keys
  pub shown : List Shown
  pub running : Bool

abbrev pub goes_on : Option Keys → Result → Round
goes_on k r = record { result = r; k = k; shown = []; running = true }

abbrev pub exits : Option Keys → Result → Round
exits k r = record { result = r; k = k; shown = []; running = false }

abbrev pub nothing : SecureClient → Result
nothing s = returns s (pos 0) []

module _ (C : Crypto) (env : Env) (h : Heap) (last : Option Keys) (mess : Message) where
  -- The keys once more into the room, which has to be there.
  unfoldable pub set_again : SecureClient → Run Round
  set_again s = do
    (room_name, k) ← take_keys mess.content
    (_, rooms) ← set_keys_in_room room_name (some k) s.rooms
    ok (goes_on (some k) (nothing (record s { rooms = rooms })))

  unfoldable pub on_joined : SecureClient → Run Round
  on_joined s = do
    (room_name, k) ← take_keys mess.content
    (_, made) ← add_room h room_name none s.rooms
    (_, rooms) ← set_keys_in_room room_name (some k) made
    text ← line_of (codes "/JOIN_ROOM ") room_name
    r ← send_chat (silent env) (record s { rooms = rooms }) text
    ok (goes_on (some k) r)

  -- The keys that an earlier message has left in `k` go into the room of this one. An indeterminate `k`
  -- is only followed if that room is there.
  unfoldable pub set_last : SecureClient → Run Round
  set_last s = elim last [
    | some k ↦ do
      (_, rooms) ← set_keys_in_room mess.content (some k) s.rooms
      ok (goes_on (some k) (nothing (record s { rooms = rooms })))
    | none ↦ do
      used ← is_room_used mess.content s.rooms
      if used then fault null_pointer else ok (goes_on none (nothing s))
  ]

  unfoldable pub on_quit : SecureClient → Run Round
  on_quit s = elim (strtok_first bar (c_str mess.content)) [
    | none ↦ fault null_pointer
    | some room_name ↦ do
      text ← line_of (codes "/QUIT_ROOM ") room_name
      r ← send_chat (silent env) s text
      ok (goes_on last r)
  ]

  unfoldable pub on_deleted : SecureClient → Run Round
  on_deleted s = do
    (_, rooms) ← remove_room mess.content s.rooms
    text ← line_of (codes "/DELETE_ROOM_SEC ") mess.content
    r ← send_message_sec C (silent env) h (record s { rooms = rooms }) text
    ok (goes_on last r)

  -- A line for the chat server with a word of the message.
  unfoldable pub pass_on : SecureClient → Str → Str → Run Round
  pass_on s command word = do
    conn ← line_of command word
    r ← send_chat (silent env) s conn
    ok (goes_on last r)

  unfoldable pub switch_sec : SecureClient → Code → Run Round
  switch_sec s (secure connect_sec) = pass_on s (codes "/CONNECT ") mess.sender
  switch_sec s Code.disconnect = ok (exits last (nothing s))
  switch_sec s (secure SecCode.disconnect_sec) = ok (exits last (nothing s))
  switch_sec s (secure del_account_sec) = ok (exits last (nothing s))
  switch_sec s (secure refresh_keyiv) = set_again s
  switch_sec s (secure quit_room_sec) = on_quit s
  switch_sec s (secure join_room_sec) = on_joined s
  switch_sec s (secure create_room_sec) = set_again s
  switch_sec s (secure create_room_sec_ko) = pass_on s (codes "/DELETE_ROOM ") mess.content
  switch_sec s Code.new_user = set_last s
  switch_sec s Code.add_user = set_last s
  switch_sec s Code.delete_room = on_deleted s
  switch_sec s Code.quit_room = set_again s
  switch_sec s _ = ok (goes_on last (nothing s))

  abbrev pub after_library : Result → Run Round → Run Round
  after_library r next = do
    n ← next
    ok (record n { result = record n.result { out = r.out ++ n.result.out } })

  -- The library handles the message first; -1 from it ends the program.
  unfoldable pub traitement_recv_sec : SecureClient → ℤ → Run Round
  traitement_recv_sec s bytes = do
    r ← receive_message_sec C env h s bytes mess
    elim r.status [
      | negsuc _ ↦ ok (exits last r)
      | pos _ ↦ after_library r (switch_sec r.state mess.code)
    ]

  abbrev pub shows : SecureClient → Shown → Round
  shows s text = record (goes_on none (nothing s)) { shown = text ∷ [] }

  unfoldable pub show_decrypted : SecureClient → Keys → Run Round
  show_decrypted s k = do
    plainmess ← aes_decrypt C env.chance k mess.content max_ciphered_size
    ok (shows s (decrypted mess.sender mess.receiver plainmess))

  unfoldable pub on_message : SecureClient → Run Round
  on_message s = do
    found ← get_keys_from_room mess.receiver s.rooms
    elim found [
      | none ↦ ok (shows s (as_it_is mess.sender mess.receiver mess.content))
      | some k ↦ show_decrypted s k
    ]

  -- The keys are under the receiver's name, or else under the sender's.
  unfoldable pub on_mp : SecureClient → Run Round
  on_mp s = do
    to ← get_keys_from_room mess.receiver s.rooms
    from ← get_keys_from_room mess.sender s.rooms
    elim to [
      | some k ↦ show_decrypted s k
      | none ↦ elim from [
        | some k ↦ show_decrypted s k
        | none ↦ ok (shows s (as_it_is mess.sender mess.receiver mess.content))
      ]
    ]

  unfoldable pub tell_secure : SecureClient → Str → Run Round
  tell_secure s text = do r ← send_message_sec C (silent env) h s text; ok (goes_on none r)

  unfoldable pub on_room_refused : SecureClient → Run Round
  on_room_refused s = do
    used ← is_room_used mess.content s.rooms
    elim used [
      | false ↦ ok (goes_on none (nothing s))
      | true ↦ do text ← line_of (codes "/DELETE_ROOM_SEC ") mess.content; tell_secure s text
    ]

  unfoldable pub switch_chat : SecureClient → Code → Run Round
  switch_chat s Code.disconnect = do
    r ← Commands.disconnect env.chat s.client
    ok (exits none (from_chat s r))
  switch_chat s Code.message = on_message s
  switch_chat s Code.connect = tell_secure s (codes "/CONNECT_OK")
  switch_chat s Code.mp = on_mp s
  switch_chat s Code.connect_ko = tell_secure s (codes "/CONNECT_KO_SEC_OK")
  switch_chat s Code.create_room_ko = on_room_refused s
  switch_chat s _ = ok (goes_on none (nothing s))

  -- A thread of its own; its `k` is set where it is used.
  unfoldable pub traitement_recv : SecureClient → ℤ → Run Round
  traitement_recv s bytes = elim (Commands.receive_message bytes) [
    | negsuc _ ↦ ok (exits none (nothing s))
    | pos _ ↦ switch_chat s mess.code
  ]
