-- ===== src/Client/RoomCommands.antt =====
-- What a typed command with the name of a room becomes: `/CREATE_ROOM`, `/DELETE_ROOM`,
-- `/JOIN_ROOM` and `/QUIT_ROOM` of src/client/libclient.c.
use bavardage.Prelude.{ℕ, ◌<◌, ◌≡◌, refl, ◌∙◌, ap, true, some, List, [], ◌∷◌, ◌++◌, arith, length}
use mathlib.Core.List.{append-nil}
use bavardage.Prelude.Int.{pos}
use bavardage.CString.{Str, codes, str_eq}
use bavardage.Run.{ok, ◌>>=◌}
use bavardage.Wire.{
  Message, Code, create_room, delete_room, join_room, quit_room, max_name_size, max_mess_size,
}
use bavardage.Rooms.Adding.{strcpy-ok}
use bavardage.Client.Words.{space, words, words_from, word_end, extract_code, command_code}
use bavardage.Client.Commands
use bavardage.Client.Commands.{
  Client, Env, Result, returns, send_command, send_content, name_sender, run_command, send_message,
  buffer_size, with_code, first_word, second_word,
}
use bavardage.Client.Typed.{IsWord, words_from-word}

pub data IsRoomCommand : Str → Code → Type 0 where
  creates : IsRoomCommand (codes "CREATE_ROOM") create_room
  deletes : IsRoomCommand (codes "DELETE_ROOM") delete_room
  joins : IsRoomCommand (codes "JOIN_ROOM") join_room
  quits : IsRoomCommand (codes "QUIT_ROOM") quit_room

abbrev pub named : Env → Code → Str → Str → Message
named env code login room = record env.junk { code = code; sender = login; content = room }

pub words-one : (r : ℕ) (room : Str) → IsWord (r ∷ room) → words (r ∷ room) ≡ (r ∷ room) ∷ []
unfolding words words_from word_end
words-one r room word =
    let whole : r ∷ room ≡ (r ∷ room) ++ [] = rw append-nil refl in
    ap (λ (x : Str). words_from [] x) whole ∙ words_from-word [] (r ∷ room) [] word

-- The line `/COMMAND room`.
abbrev pub room_line : Str → Str → Str
room_line command room = b'/' ∷ (command ++ (space ∷ room))

module _ (env : Env) (login : Str) (r : ℕ) (room : Str) (word : IsWord (r ∷ room))
    (writes : env.writes ≡ true) (login_fits : length login < max_name_size)
    (room_fits : length (r ∷ room) < max_mess_size) (c : Client) (socket : c.client_sock ≡ true)
    (me : c.login ≡ some login) where
  cut :
      {command : Str} {code : Code}
      → IsRoomCommand command code
      → words (room_line command (r ∷ room)) ≡ (b'/' ∷ command) ∷ (r ∷ room) ∷ []
  unfolding words words_from word_end
  cut creates = ap (λ (l : List Str). codes "/CREATE_ROOM" ∷ l) (words-one r room word)
  cut deletes = ap (λ (l : List Str). codes "/DELETE_ROOM" ∷ l) (words-one r room word)
  cut joins = ap (λ (l : List Str). codes "/JOIN_ROOM" ∷ l) (words-one r room word)
  cut quits = ap (λ (l : List Str). codes "/QUIT_ROOM" ∷ l) (words-one r room word)

  found :
      {command : Str} {code : Code}
      → IsRoomCommand command code
      → extract_code (b'/' ∷ command) ≡ some code
  unfolding extract_code command_code str_eq
  found creates = refl
  found deletes = refl
  found joins = refl
  found quits = refl

  runs :
      {command : Str} {code : Code} (kind : IsRoomCommand command code) (buffer : Str)
      → run_command env
          (with_code (record c { msg = some env.junk }) env.junk code)
          (record env.junk { code = code })
          buffer
          (some (r ∷ room))
          code
        ≡ ok (
            returns
              (record c { msg = some (named env code login (r ∷ room)) })
              (pos 0)
              (named env code login (r ∷ room) ∷ []))
  unfolding run_command send_content send_command name_sender Commands.on_quit_room
  runs creates buffer = ground (
    arith,
    strcpy-ok max_mess_size (r ∷ room) room_fits,
    strcpy-ok max_name_size login login_fits,
  )
  runs deletes buffer = ground (
    arith,
    strcpy-ok max_mess_size (r ∷ room) room_fits,
    strcpy-ok max_name_size login login_fits,
  )
  runs joins buffer = ground (
    arith,
    strcpy-ok max_mess_size (r ∷ room) room_fits,
    strcpy-ok max_name_size login login_fits,
  )
  runs quits buffer = ground (
    arith,
    strcpy-ok max_mess_size (r ∷ room) room_fits,
    strcpy-ok max_name_size login login_fits,
  )

  -- A client that is logged in, over a socket that takes what is written, types a command and the
  -- name of a room, one word that fits: one message with the code of the command, the login and that
  -- name is written, and 0 is returned.
  pub send_message-room :
      {command : Str} {code : Code}
      → IsRoomCommand command code
      → length (room_line command (r ∷ room)) < buffer_size
      → send_message env c (room_line command (r ∷ room))
        ≡ ok (
            returns
              (record c { msg = some (named env code login (r ∷ room)) })
              (pos 0)
              (named env code login (r ∷ room) ∷ []))
  unfolding send_message
  send_message-room {command} kind fits =
      rw
        (
          strcpy-ok buffer_size (room_line command (r ∷ room)) fits,
          ◌>>=◌,
          cut kind,
          found kind,
          cut kind,
        )
        (runs kind (room_line command (r ∷ room)))
