-- ===== src/SecureClient/Typed.antt =====
-- What `/CREATE_ROOM_SEC` and the name of a room become in `send_message_sec` of
-- src/client/libclientsec.c: a command for each of the two servers.
use bavardage.Prelude.{ℕ, ◌<◌, ◌≡◌, refl, ap, true, none, some, List, [], ◌∷◌, arith, length}
use bavardage.Prelude.Int.{pos}
use bavardage.Prelude.{set, get_or}
use bavardage.CString.{Str, codes, str_eq, str_eq_refl}
use bavardage.Run.{ok, ◌>>=◌}
use bavardage.Hash.{hash_room_name}
use bavardage.Wire.{
  Message, secure, create_room, create_room_sec, max_name_size, max_mess_size, max_room_name_size,
}
use bavardage.Users.Store.{Heap}
use bavardage.Rooms.{RoomMap, is_room_used}
use bavardage.Rooms.Table.{view, IsTable, is_room_used-view}
use bavardage.Rooms.Adding.{strcpy-ok, nobody, add_room-new, view-insert}
use bavardage.Client.Words.{words, words_from, word_end}
use bavardage.Client.Commands.{buffer_size}
use bavardage.Client.Typed.{IsWord}
use bavardage.Client.RoomCommands.{words-one, room_line, named, creates, send_message-room}
use bavardage.SecureClient.Cipher.{Crypto}
use bavardage.SecureClient.State.{
  SecureClient, Env, Result, chat_server, secure_server, returns, with_msg, send_command_sec,
  send_chat, from_chat, heard,
}
use bavardage.SecureClient.RoomCommands.{on_create_room_sec}
use bavardage.SecureClient.Commands.{
  command_code_sec, extract_code_sec, run_command_sec, send_message_sec,
}

module _ (env : Env) (h : Heap) (login : Str) (r : ℕ) (room : Str) (word : IsWord (r ∷ room))
    (writes : env.chat.writes ≡ true) (writes_sec : env.writes_sec ≡ true)
    (login_fits : length login < max_name_size) (room_fits : length (r ∷ room) < max_room_name_size)
    (s : SecureClient) (socket : s.client.client_sock ≡ true)
    (secure_socket : s.secure_socket ≡ true) (me : s.client.login ≡ some login) where
  cut :
      words (room_line (codes "CREATE_ROOM_SEC") (r ∷ room))
      ≡ codes "/CREATE_ROOM_SEC" ∷ (r ∷ room) ∷ []
  unfolding words words_from word_end
  cut = ap (λ (l : List Str). codes "/CREATE_ROOM_SEC" ∷ l) (words-one r room word)

  line_fits : length (room_line (codes "CREATE_ROOM_SEC") (r ∷ room)) < buffer_size
  line_fits = omega (arith, room_fits)

  chat_line_fits : length (room_line (codes "CREATE_ROOM") (r ∷ room)) < max_mess_size
  chat_line_fits = omega (arith, room_fits)

  -- The message for the chat server, which is still in `msg` when the secure server is told.
  abbrev pub asks : Message
  asks = named env.chat create_room login (r ∷ room)

  abbrev pub asks_sec : Message
  asks_sec = record asks { code = secure create_room_sec }

  -- The call into the chat client's library.
  chat_told :
      (m : Message) (rooms : RoomMap)
      → let s' : SecureClient = record (with_msg s m) { rooms = rooms } in
        send_chat (heard env) s' (room_line (codes "CREATE_ROOM") (r ∷ room))
        ≡ ok (record {
          state = with_msg s' asks;
          status = pos 0;
          error = none;
          out = (chat_server, asks) ∷ [];
        })
  unfolding send_chat
  chat_told m rooms =
      ap (λ x. x >>= λ t. ok (from_chat (record (with_msg s m) { rooms = rooms }) t))
        (send_message-room (heard env).chat login r room word writes login_fits
          (omega (arith, room_fits)) (with_msg s m).client socket me creates
          (omega (arith, room_fits)))

  secure_told :
      (s' : SecureClient)
      → s'.secure_socket ≡ true
      → s'.client.login ≡ some login
      → send_command_sec env (with_msg s' asks_sec)
        ≡ ok (returns (with_msg s' asks_sec) (pos 0) ((secure_server, asks_sec) ∷ []))
  unfolding send_command_sec
  secure_told s' on is_me = ground (arith, strcpy-ok max_name_size login login_fits)

  module _ (n : ℕ) (hashed : hash_room_name (r ∷ room) ≡ pos n) (table : IsTable s.rooms)
      (free : view n (r ∷ room) s.rooms ≡ none) where
    runs :
        (C : Crypto) (buffer : Str)
        → (r' : Result) × (run_command_sec C env s
              (record env.chat.junk { code = secure create_room_sec })
              h
              buffer
              (some (r ∷ room))
              (secure create_room_sec)
            ≡ ok r')
          × (r'.status ≡ pos 0)
          × (r'.out ≡ (chat_server, asks) ∷ (secure_server, asks_sec) ∷ [])
          × (is_room_used (r ∷ room) r'.state.rooms ≡ ok true)
    unfolding run_command_sec on_create_room_sec
    runs C buffer =
        let (it, run, same, _, _) =
          add_room-new h s.rooms (r ∷ room) n hashed nobody free room_fits in
        let rooms' : RoomMap = set s.rooms n (it ∷ get_or s.rooms n []) in
        let end : SecureClient = with_msg (record s { rooms = rooms' }) asks_sec in
        (
          returns end (pos 0) ((chat_server, asks) ∷ (secure_server, asks_sec) ∷ []),
          rw
              (
                strcpy-ok max_mess_size (r ∷ room) (omega (arith, room_fits)),
                ◌>>=◌,
                is_room_used-view s.rooms (r ∷ room) n hashed,
                free,
                run,
              )
              (rw
                (
                  strcpy-ok max_mess_size (room_line (codes "CREATE_ROOM") (r ∷ room))
                      chat_line_fits,
                  ◌>>=◌,
                  chat_told
                      (record env.chat.junk { code = secure create_room_sec; content = r ∷ room })
                      rooms',
                  secure_told (record s { rooms = rooms' }) secure_socket me,
                )
                refl),
          refl,
          refl,
          rw
              (
                is_room_used-view rooms' (r ∷ room) n hashed,
                view-insert h s.rooms (r ∷ room) n hashed it n (r ∷ room) table same hashed,
                str_eq_refl (r ∷ room),
              )
              refl,
        )

    -- A client that is logged in, over sockets that take what is written, types `/CREATE_ROOM_SEC`
    -- and one word that fits, the name of no room of its own table: the chat server is asked to make
    -- the room, the secure server is then asked the same, 0 is returned, and the room stands in the
    -- client's table.
    pub send_message_sec-creates :
        (C : Crypto)
        → (r' : Result) × (send_message_sec C env h s
              (room_line (codes "CREATE_ROOM_SEC") (r ∷ room))
            ≡ ok r')
          × (r'.status ≡ pos 0)
          × (r'.out ≡ (chat_server, asks) ∷ (secure_server, asks_sec) ∷ [])
          × (is_room_used (r ∷ room) r'.state.rooms ≡ ok true)
    unfolding send_message_sec extract_code_sec command_code_sec str_eq
    send_message_sec-creates C =
        let (r', run, done, told, stands) =
          runs C (room_line (codes "CREATE_ROOM_SEC") (r ∷ room)) in
        (
          r',
          rw
              (
                strcpy-ok buffer_size (room_line (codes "CREATE_ROOM_SEC") (r ∷ room)) line_fits,
                ◌>>=◌,
                cut,
                cut,
              )
              run,
          done,
          told,
          stands,
        )
